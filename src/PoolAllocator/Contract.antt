-- ===== src/PoolAllocator/Contract.antt =====
-- What an implementation of the interface promises, and what any client of it can rely on.
use mathlib.Core.List.{Nodup}
use native.Mathlib.Decide.{dec_lt}
use c_embedded_utils.Common.{
  ℕ, suc, ◌+◌, ◌<◌, ◌≡◌, refl, ap, ◌∙◌, subst, Option, none, some, List, [], ◌∷◌, ◌++◌, arith,
  length, length-append, get_elem?, take, drop, split_at, ◌>>=◌, inl, inr, Option-cases,
}
use c_embedded_utils.ErrorCode.{err_none, err_no_mem}
use c_embedded_utils.PoolAllocator.{IPoolAllocator, null, allocate, deallocate, get_available_count}

-- The functions of the interface hand out each block to one holder at a time. `Holds held pool` says
-- that the client holds the blocks `held` of the pool.
pub record IsPool {P : Type 0} (i : IPoolAllocator P) (Holds : List ℕ → P → Type 0) : Type 0 where
  pub distinct : (held : List ℕ) (pool : P) → Holds held pool → Nodup held
  pub gives :
      (held : List ℕ) (pool : P)
      → Holds held pool
      → 0 < i.get_available_count_fn pool
      → (p : ℕ) × (pool' : P) × (i.allocate_fn pool ≡ some (err_none, some p, pool'))
        × Holds (p ∷ held) pool'
        × (i.get_available_count_fn pool' + 1 ≡ i.get_available_count_fn pool)
  pub refuses :
      (held : List ℕ) (pool : P)
      → Holds held pool
      → i.get_available_count_fn pool ≡ 0
      → i.allocate_fn pool ≡ some (err_no_mem, none, pool)
  pub takes_back :
      (before after : List ℕ) (p : ℕ) (pool : P)
      → Holds (before ++ p ∷ after) pool
      → (pool' : P) × (i.deallocate_fn pool p ≡ some (err_none, null, pool'))
        × Holds (before ++ after) pool'
        × (i.get_available_count_fn pool' ≡ i.get_available_count_fn pool + 1)

-- A client's calls; `put_back n` returns the `n`-th block that it holds, if it has that many.
pub data Call : Type 0 where
  ask : Call
  put_back : ℕ → Call

abbrev pub received : Option ℕ → List ℕ → List ℕ
received none held = held
received (some p) held = p ∷ held

module _ {P : Type 0} where
  -- The pool behind the interface changes; the functions stay.
  abbrev pub with_context : IPoolAllocator P → P → IPoolAllocator P
  with_context i pool = record i { context = pool }

  -- The client's blocks and the interface after the calls.
  unfoldable pub use_pool :
      List Call → List ℕ → IPoolAllocator P → Option (List ℕ × IPoolAllocator P)
  unfolding allocate deallocate
  use_pool [] held i = some (held, i)
  use_pool (ask ∷ calls) held i = do
    (code, out, pool') ← allocate i
    use_pool calls (received out held) (with_context i pool')
  use_pool (put_back n ∷ calls) held i = elim (get_elem? held n) [
    | none ↦ use_pool calls held i
    | some p ↦ deallocate i p >>= λ (code, out, pool').
        use_pool calls (take n held ++ drop (suc n) held) (with_context i pool')
  ]

  module _ (Holds : List ℕ → P → Type 0) where
    -- The client holds no block twice, and no block is lost or made.
    pub record IsFair (held held' : List ℕ) (i i' : IPoolAllocator P) : Type 0 where
      pub held_by : Holds held' i'.context
      pub once : Nodup held'
      pub as_many : get_available_count i' + length held' ≡ get_available_count i + length held

    with_context-IsPool :
        (i : IPoolAllocator P) (pool : P) → IsPool i Holds → IsPool (with_context i pool) Holds
    with_context-IsPool i pool laws = record {
      distinct = laws.distinct;
      gives = laws.gives;
      refuses = laws.refuses;
      takes_back = laws.takes_back;
    }

    -- A client of the interface never faults and never holds a block twice, and the blocks that it
    -- holds and those that are available stay as many.
    pub use_pool_lem :
        (calls : List Call) (held : List ℕ) (i : IPoolAllocator P)
        → IsPool i Holds
        → Holds held i.context
        → (held' : List ℕ) × (i' : IPoolAllocator P) × (use_pool calls held i ≡ some (held', i'))
          × IsFair held held' i i'
    unfolding use_pool get_available_count
    use_pool_lem [] held i laws h = (
      held,
      i,
      refl,
      record { held_by = h; once = laws.distinct held i.context h; as_many = refl },
    )
    use_pool_lem (ask ∷ calls) held i laws h =
        elim (dec_lt 0 (i.get_available_count_fn i.context)) [
          | yes some_free ↦
              let (p, pool', taken, h', fewer) = laws.gives held i.context h some_free in
              let (held', i', ran, fair) =
                use_pool_lem calls (p ∷ held) (with_context i pool')
                  (with_context-IsPool i pool' laws) h' in
              (
                held',
                i',
                rw taken ran,
                record {
                  held_by = fair.held_by;
                  once = fair.once;
                  as_many = omega (arith, fair.as_many);
                },
              )
          | no none_free ↦
              let (held', i', ran, fair) = use_pool_lem calls held i laws h in
              (held', i', rw (laws.refuses held i.context h (omega arith)) ran, fair)
        ]
    use_pool_lem (put_back n ∷ calls) held i laws h = elim (Option-cases (get_elem? held n)) [
      | inl missing ↦
          let (held', i', ran, fair) = use_pool_lem calls held i laws h in
          (held', i', rw (missing, use_pool) ran, fair)
      | inr (p, found) ↦
          let split = split_at held n p found in
          let (pool', freed, h', more) =
            laws.takes_back (take n held) (drop (suc n) held) p i.context
              (subst (λ t. Holds t i.context) split h) in
          let (held', i', ran, fair) =
            use_pool_lem calls (take n held ++ drop (suc n) held) (with_context i pool')
              (with_context-IsPool i pool' laws) h' in
          let whole = ap length split ∙ length-append (take n held) (p ∷ drop (suc n) held) in
          let rest = length-append (take n held) (drop (suc n) held) in
          (
            held',
            i',
            rw (found, use_pool) (rw freed ran),
            record {
              held_by = fair.held_by;
              once = fair.once;
              as_many = omega (arith, fair.as_many);
            },
          )
    ]
