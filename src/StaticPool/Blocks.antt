-- ===== src/StaticPool/Blocks.antt =====
-- The blocks of a pool's buffer, and the loop of `static_pool_init` that frees them all.
use mathlib.Core.List.{Mem, Nodup, Pairwise, not-mem-nil, mem-cons}
use mathlib.Core.Logic.Or
use native.Mathlib.Nat.{mod-eq_of_lt}
use native.Mathlib.Bridge.{le_prop}
use c_embedded_utils.Common.{
  ℕ, zero, suc, ◌+◌, ◌*◌, ◌≤◌, ◌<◌, ◌≡◌, refl, ap, some, List, [], ◌∷◌, arith, length, size_mod,
}
use c_embedded_utils.PtrStack.{PtrStack, IsValid}
use c_embedded_utils.PtrStack.Refine.{contents}
use c_embedded_utils.PtrStack.Calls.{push_room}
use c_embedded_utils.StaticPool.{StaticPoolConfig, block_at, fill}

-- What the caller of `static_pool_init` owes: blocks with a size, a buffer that holds them all
-- inside the address space, an address other than NULL, and a slot of the stack for each block.
pub record IsSized (c : StaticPoolConfig) : Type 0 where
  pub has_size : 0 < c.object_size
  pub has_blocks : 0 < c.object_count
  pub fits : c.object_count * c.object_size ≤ c.buffer_size
  pub sized : c.buffer_size < size_mod
  pub counted : c.object_count < size_mod
  pub not_null : 0 < c.buffer
  pub slots : c.object_count ≤ length c.allocation_stack

module _ (c : StaticPoolConfig) where
  -- The first `n` blocks, the last one first.
  abbrev pub blocks : ℕ → List ℕ
  blocks zero = []
  blocks (suc n) = block_at c n ∷ blocks n

  pub length-blocks : (n : ℕ) → length (blocks n) ≡ n
  length-blocks zero = refl
  length-blocks (suc n) = ap suc (length-blocks n)

  module _ (z : IsSized c) where
    pub block_at_lem : (n : ℕ) → n < c.object_count → block_at c n ≡ c.buffer + n * c.object_size
    block_at_lem n h =
        let below : n * c.object_size < size_mod = grind arith in rw (mod-eq_of_lt below)

    pub blocks_below :
        (n : ℕ)
        → n ≤ c.object_count
        → (p : ℕ) → Mem p (blocks n)
        → p + c.object_size ≤ c.buffer + n * c.object_size
    blocks_below zero h p m = absurd (not-mem-nil m)
    blocks_below (suc n) h p m =
        Or.elim le_prop (mem-cons.0 m) (λ e. grind (arith, block_at_lem n))
          (λ m'. grind (arith, blocks_below n (omega arith) p m'))

    pub blocks-Nodup : (n : ℕ) → n ≤ c.object_count → Nodup (blocks n)
    blocks-Nodup zero h = Pairwise.nil
    blocks-Nodup (suc n) h =
        Pairwise.cons
          (λ p m e. absurd (grind (arith, block_at_lem n, blocks_below n (omega arith) p m)))
          (blocks-Nodup n (omega arith))

  pub blocks-ne-null : (n : ℕ) → 0 < c.buffer → (p : ℕ) → Mem p (blocks n) → 0 < p
  blocks-ne-null zero h p m = absurd (not-mem-nil m)
  blocks-ne-null (suc n) h p m =
      Or.elim le_prop (mem-cons.0 m) (λ e. omega arith) (λ m'. blocks-ne-null n h p m')

  -- The loop pushes each block that is left, and no push fails.
  pub fill_lem :
      (rounds idx : ℕ) (s : PtrStack ℕ)
      → IsValid s
      → contents s ≡ blocks idx
      → idx + rounds ≡ s.max_item_count
      → (s' : PtrStack ℕ) × (fill c rounds idx s ≡ some s')
        × (contents s' ≡ blocks (idx + rounds))
        × IsValid s'
        × (s'.max_item_count ≡ s.max_item_count)
  unfolding fill
  fill_lem zero idx s v e k =
      let same : idx + 0 ≡ idx = omega arith in (s, refl, rw same e, v, refl)
  fill_lem (suc rounds) idx s v e k =
      let (s', pushed, holds, v', size) =
        push_room s v (block_at c idx) (omega (arith, ap length e, length-blocks idx)) in
      let next : idx + 1 ≡ suc idx = omega arith in
      let (t, filled, all, w, size') =
        fill_lem rounds (idx + 1) s' v' (rw next (ground (arith, holds))) (omega arith) in
      let shift : idx + 1 + rounds ≡ idx + suc rounds = omega arith in
      (t, ground (arith, pushed), rw (← shift) all, w, ground (arith, size))
