-- ===== src/StaticPool/Overflow.antt =====
-- Configurations whose blocks together need more bytes than `size_t` can count.
use native.Mathlib.Nat.{mod-eq_of_lt}
use c_embedded_utils.Common.{
  ℕ, suc, ◌+◌, ◌*◌, ◌%◌, ◌≤◌, ◌<◌, ◌≡◌, ap, ◌∙◌, some, ◌∷◌, arith, length, size_mod, mul_size,
}
use c_embedded_utils.ErrorCode.{err_none}
use c_embedded_utils.PtrStack.Refine
use c_embedded_utils.PtrStack.Calls.{pop_cons}
use c_embedded_utils.StaticPool.{
  StaticPool, StaticPoolConfig, block_at, init, init_stack, validate_config, allocate,
}
use c_embedded_utils.StaticPool.Blocks.{blocks, fill_lem}

one_more : (size n : ℕ) → size * suc n ≡ n * size + size
one_more size n = grind arith

-- Blocks whose total size overflows `size_t` by no more than the buffer has bytes, while the last block
-- still begins below that: the initialisation accepts them, and the first allocation hands out a block
-- that ends behind the buffer.
pub pool_init_overflows :
    (c : StaticPoolConfig) (pool : StaticPool) (n : ℕ)
    → c.object_count ≡ suc n
    → suc n < size_mod
    → suc n ≤ length c.allocation_stack
    → c.buffer_size < size_mod
    → n * c.object_size < size_mod
    → size_mod ≤ n * c.object_size + c.object_size
    → n * c.object_size + c.object_size ≤ size_mod + c.buffer_size
    → (begun taken : StaticPool) × (p : ℕ) × (init pool c ≡ some (err_none, begun))
      × (allocate begun ≡ some (err_none, some p, taken))
      × (c.buffer + c.buffer_size < p + c.object_size)
unfolding init init_stack validate_config allocate
pool_init_overflows c pool n count small slots sized below over near =
    let product : c.object_size * c.object_count ≡ n * c.object_size + c.object_size =
      ap (λ k. c.object_size * k) count ∙ one_more c.object_size n in
    let wrapped : mul_size c.object_size c.object_count ≤ c.buffer_size =
      omega (arith, ap (λ m. m % size_mod) product) in
    let (s, made, valid, empty, room) =
      (Refine.stack_init_lem pool.free_stack c.allocation_stack c.object_count (omega arith)
          (omega arith)).1
        (omega arith) in
    let (s', filled, all, valid', room') =
      fill_lem c c.object_count 0 s valid empty (omega (arith, room)) in
    let whole : 0 + c.object_count ≡ suc n = omega arith in
    let first : Refine.contents s' ≡ block_at c n ∷ blocks c n = all ∙ ap (blocks c) whole in
    let (s'', popped, left, valid'', room'') =
      pop_cons s' valid' (block_at c n) (blocks c n) first in
    (
      record { config = c; free_stack = s' },
      record { config = c; free_stack = s'' },
      block_at c n,
      ground (arith, made, filled, wrapped),
      rw popped,
      omega (arith, mod-eq_of_lt {n = n * c.object_size} {m = size_mod} below),
    )
