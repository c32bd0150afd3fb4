-- ===== src/StaticPool/Owner.antt =====
-- Who holds the blocks of a pool: a client that frees only what it was given holds each block at
-- most once, and every block is either held or free.
use mathlib.Core.List.{Nodup, Perm, mem-cons_self, perm_middle}
use mathlib.Core.List.Perm
use mathlib.Core.List.Nodup
use native.Mathlib.Nat.{zero-add}
use c_embedded_utils.Common.{
  List-cases, inl, inr, ℕ, ◌+◌, ◌<◌, ◌≡◌, refl, ap, none, some, List, [], ◌∷◌, ◌++◌, arith, length,
  length-append, length-perm, ◌∙◌,
}
use c_embedded_utils.ErrorCode.{err_none, err_no_mem}
use c_embedded_utils.PtrStack
use c_embedded_utils.PtrStack.{PtrStack, IsValid}
use c_embedded_utils.PtrStack.Refine.{contents}
use c_embedded_utils.PtrStack.Refine
use c_embedded_utils.PtrStack.Calls.{push_room, pop_cons, pop_nil, get_remaining_count-contents}
use c_embedded_utils.PoolAllocator.{null}
use c_embedded_utils.StaticPool.{
  StaticPool, StaticPoolConfig, validate_config, init_stack, init, deinit, allocate, deallocate,
  get_available_count,
}
use c_embedded_utils.StaticPool.Blocks.{
  IsSized, blocks, length-blocks, blocks-Nodup, blocks-ne-null, fill_lem,
}

-- `held` is with the client, the rest is on the free stack, and together they are the blocks.
pub record Owned (c : StaticPoolConfig) (held : List ℕ) (pool : StaticPool) : Type 0 where
  pub config_same : pool.config ≡ c
  pub stack_valid : IsValid pool.free_stack
  pub slots : pool.free_stack.max_item_count ≡ c.object_count
  pub shared : Perm (held ++ contents pool.free_stack) (blocks c c.object_count)

abbrev pub free : StaticPool → List ℕ
free pool = contents pool.free_stack

module _ (c : StaticPoolConfig) (z : IsSized c) where
  free-add-held :
      (held : List ℕ) (pool : StaticPool)
      → Owned c held pool
      → length held + length (free pool) ≡ c.object_count
  free-add-held held pool o =
      omega (
        arith,
        length-append held (free pool),
        length-perm o.shared,
        length-blocks c c.object_count,
      )

  -- The client holds no block twice.
  pub Owned-Nodup : (held : List ℕ) (pool : StaticPool) → Owned c held pool → Nodup held
  Owned-Nodup held pool o =
      Nodup.of_append_left (free pool)
        (Perm.nodup (Perm.symm o.shared) (blocks-Nodup c z c.object_count (omega arith)))

  -- `static_pool_get_available_count` counts the free blocks.
  pub get_available_count_lem :
      (held : List ℕ) (pool : StaticPool)
      → Owned c held pool
      → get_available_count pool ≡ length (free pool)
  unfolding get_available_count
  get_available_count_lem held pool o =
      let same : pool.config.object_count ≡ c.object_count =
        ap (λ d. d.object_count) o.config_same in
      omega (
        arith,
        same,
        free-add-held held pool o,
        get_remaining_count-contents pool.free_stack o.stack_valid,
      )

  -- `static_pool_init` accepts the configuration, and then every block is free.
  pub pool_init_lem :
      (pool : StaticPool)
      → (pool' : StaticPool) × (init pool c ≡ some (err_none, pool'))
        × Owned c [] pool'
        × (get_available_count pool' ≡ c.object_count)
  unfolding init init_stack validate_config
  pool_init_lem pool =
      let (s, made, valid, empty, slots) =
        (Refine.stack_init_lem pool.free_stack c.allocation_stack c.object_count z.slots
            z.counted).1
          (omega arith) in
      let (s', filled, all, valid', slots') =
        fill_lem c c.object_count 0 s valid empty (omega (arith, slots)) in
      let pool' : StaticPool = record { config = c; free_stack = s' } in
      let o : Owned c [] pool' = record {
        config_same = refl;
        stack_valid = valid';
        slots = ground (arith, slots, slots');
        shared = rw (all, zero-add) (Perm.refl _);
      } in
      (
        pool',
        ground (arith, made, filled),
        o,
        ground (arith, get_available_count_lem [] pool' o, free-add-held [] pool' o),
      )

  -- While a block is free `static_pool_allocate` hands one out that the client does not hold, and
  -- one block fewer is available.
  pub allocate_lem :
      (held : List ℕ) (pool : StaticPool)
      → Owned c held pool
      → 0 < get_available_count pool
      → (p : ℕ) × (pool' : StaticPool) × (allocate pool ≡ some (err_none, some p, pool'))
        × Owned c (p ∷ held) pool'
        × Nodup (p ∷ held)
        × (get_available_count pool' + 1 ≡ get_available_count pool)
  unfolding allocate
  allocate_lem held pool o some_free = elim (List-cases (free pool)) [
    | inl none_free ↦ absurd (ground (arith, get_available_count_lem held pool o))
    | inr (p, rest, e) ↦
        let (s, popped, left, valid, slots) = pop_cons pool.free_stack o.stack_valid p rest e in
        let pool' = record pool { free_stack = s } in
        let o' : Owned c (p ∷ held) pool' = record {
          config_same = o.config_same;
          stack_valid = valid;
          slots = slots ∙ o.slots;
          shared = rw left (Perm.trans (Perm.symm (perm_middle held rest)) (rw e at o.shared));
        } in
        (
          p,
          pool',
          rw popped,
          o',
          Owned-Nodup (p ∷ held) pool' o',
          omega (
            arith,
            free-add-held held pool o,
            free-add-held (p ∷ held) pool' o',
            get_available_count_lem held pool o,
            get_available_count_lem (p ∷ held) pool' o',
          ),
        )
  ]

  -- With no free block `static_pool_allocate` reports it, and changes nothing.
  pub allocate_exhausted :
      (held : List ℕ) (pool : StaticPool)
      → Owned c held pool
      → get_available_count pool ≡ 0
      → allocate pool ≡ some (err_no_mem, none, pool)
  unfolding allocate
  allocate_exhausted held pool o none_free =
      let empty : free pool ≡ [] = grind (arith, get_available_count_lem held pool o) in
      ground (arith, pop_nil pool.free_stack o.stack_valid empty)

  -- `static_pool_deallocate` takes back a block that the client holds, and clears the pointer.
  pub deallocate_lem :
      (before after : List ℕ) (p : ℕ) (pool : StaticPool)
      → Owned c (before ++ p ∷ after) pool
      → (pool' : StaticPool) × (deallocate pool p ≡ some (err_none, null, pool'))
        × Owned c (before ++ after) pool'
        × (get_available_count pool' ≡ get_available_count pool + 1)
  unfolding deallocate
  deallocate_lem before after p pool o =
      let swapped = Perm.append_right (free pool) (perm_middle {a = p} before after) in
      let first = Perm.trans (Perm.symm swapped) o.shared in
      let not_null =
        blocks-ne-null c c.object_count z.not_null p ((Perm.mem_iff first).0 mem-cons_self) in
      let counts = free-add-held (before ++ p ∷ after) pool o in
      let room : length (free pool) < pool.free_stack.max_item_count =
        omega (arith, counts, o.slots, length-append before (p ∷ after)) in
      let (s, pushed, holds, valid, slots) = push_room pool.free_stack o.stack_valid p room in
      let pool' = record pool { free_stack = s } in
      let o' : Owned c (before ++ after) pool' = record {
        config_same = o.config_same;
        stack_valid = valid;
        slots = slots ∙ o.slots;
        shared = rw holds (Perm.trans (perm_middle (before ++ after) (free pool)) first);
      } in
      (
        pool',
        ground (arith, pushed, not_null),
        o',
        omega (
          arith,
          ap length holds,
          get_available_count_lem (before ++ p ∷ after) pool o,
          get_available_count_lem (before ++ after) pool' o',
        ),
      )

  -- After `static_pool_deinit` no block is handed out, but every block still counts as available.
  pub pool_deinit_lem :
      (held : List ℕ) (pool : StaticPool)
      → Owned c held pool
      → (allocate (deinit pool) ≡ some (err_no_mem, none, deinit pool))
        × (get_available_count (deinit pool) ≡ c.object_count)
  unfolding deinit allocate get_available_count PtrStack.deinit PtrStack.get_remaining_count
  pool_deinit_lem held pool o =
      let same : pool.config.object_count ≡ c.object_count =
        ap (λ d. d.object_count) o.config_same in
      (ground arith, ground (arith, same))
