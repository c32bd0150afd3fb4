-- ===== src/StaticPool/Client.antt =====
-- A client of the pool that frees only what it was given.
use native.Mathlib.Decide.{dec_lt}
use c_embedded_utils.Common.{
  ℕ, suc, ◌≡◌, refl, subst, Option, none, some, List, [], ◌∷◌, ◌++◌, arith, get_elem?, take, drop,
  split_at, ◌>>=◌, inl, inr, Option-cases,
}
use mathlib.Core.List.{Nodup}
use c_embedded_utils.StaticPool.{
  StaticPool, StaticPoolConfig, allocate, deallocate, get_available_count,
}
use c_embedded_utils.StaticPool.Blocks.{IsSized}
use c_embedded_utils.StaticPool.Owner.{
  Owned, allocate_lem, allocate_exhausted, deallocate_lem, Owned-Nodup,
}

-- `give i` frees the client's `i`-th pointer, if it has that many.
pub data Request : Type 0 where
  acquire : Request
  give : ℕ → Request

-- The client's pointers and the pool after its requests.
unfoldable pub run : List Request → List ℕ → StaticPool → Option (List ℕ × StaticPool)
run [] held pool = some (held, pool)
run (acquire ∷ rs) held pool = do
  (code, out, pool') ← allocate pool
  run rs (elim out [ none ↦ held | some p ↦ p ∷ held ]) pool'
run (give i ∷ rs) held pool = elim (get_elem? held i) [
  | none ↦ run rs held pool
  | some p ↦
      deallocate pool p >>= λ (code, out, pool'). run rs (take i held ++ drop (suc i) held) pool'
]

-- Whatever a client asks of a pool with a sized configuration, all of whose blocks are either
-- held by it or free, while it gives back only blocks that it holds: no call faults, every block
-- stays either held or free, and the client never holds a block twice.
pub client_run_lem :
    (c : StaticPoolConfig)
    → IsSized c
    → (rs : List Request) (held : List ℕ) (pool : StaticPool) → Owned c held pool
    → (held' : List ℕ) × (pool' : StaticPool) × (run rs held pool ≡ some (held', pool'))
      × Owned c held' pool'
      × Nodup held'
unfolding run
client_run_lem c z [] held pool o = (held, pool, refl, o, Owned-Nodup c z held pool o)
client_run_lem c z (acquire ∷ rs) held pool o = elim (dec_lt 0 (get_available_count pool)) [
  | yes some_free ↦
      let (p, pool', taken, owned, distinct, fewer) = allocate_lem c z held pool o some_free in
      rw taken (client_run_lem c z rs (p ∷ held) pool' owned)
  | no none_free ↦
      rw (allocate_exhausted c z held pool o (omega arith)) (client_run_lem c z rs held pool o)
]
client_run_lem c z (give i ∷ rs) held pool o = elim (Option-cases (get_elem? held i)) [
  | inl missing ↦ rw (missing, run) (client_run_lem c z rs held pool o)
  | inr (p, found) ↦
      let o' = subst (λ h. Owned c h pool) (split_at held i p found) o in
      let (pool', freed, owned, more) =
        deallocate_lem c z (take i held) (drop (suc i) held) p pool o' in
      rw (found, run)
        (rw freed (client_run_lem c z rs (take i held ++ drop (suc i) held) pool' owned))
]
