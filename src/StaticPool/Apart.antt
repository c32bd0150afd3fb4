-- ===== src/StaticPool/Apart.antt =====
-- Where the blocks that a client holds lie.
use mathlib.Core.List.{Mem, Nodup, not-mem-nil, mem-cons, mem-append}
use mathlib.Core.List.Perm
use mathlib.Core.Logic.Or
use native.Mathlib.Bridge.{le_prop}
use c_embedded_utils.Common.{ℕ, zero, suc, ◌+◌, ◌≤◌, ◌<◌, ◌≡◌, some, List, [], arith}
use c_embedded_utils.ErrorCode.{err_none}
use c_embedded_utils.StaticPool.{StaticPool, StaticPoolConfig, init}
use c_embedded_utils.StaticPool.Blocks.{IsSized, blocks, block_at_lem, blocks_below}
use c_embedded_utils.StaticPool.Owner.{Owned, free, pool_init_lem}
use c_embedded_utils.StaticPool.Client.{Request, run, client_run_lem}

-- Each of the pointers leads to `object_size` bytes inside the pool's buffer, and no two different
-- pointers lead to a common byte.
pub record AreApart (c : StaticPoolConfig) (held : List ℕ) : Type 0 where
  pub from : (p : ℕ) → Mem p held → c.buffer ≤ p
  pub to : (p : ℕ) → Mem p held → p + c.object_size ≤ c.buffer + c.buffer_size
  pub apart : (p q : ℕ) → Mem p held → Mem q held → p < q → p + c.object_size ≤ q

module _ (c : StaticPoolConfig) (z : IsSized c) where
  blocks_from : (n : ℕ) → n ≤ c.object_count → (p : ℕ) → Mem p (blocks c n) → c.buffer ≤ p
  blocks_from zero h p m = absurd (not-mem-nil m)
  blocks_from (suc n) h p m =
      Or.elim le_prop (mem-cons.0 m) (λ e. grind (arith, block_at_lem c z n))
        (λ m'. blocks_from n (omega arith) p m')

  blocks_apart :
      (n : ℕ)
      → n ≤ c.object_count
      → (p q : ℕ) → Mem p (blocks c n)
      → Mem q (blocks c n)
      → p < q
      → p + c.object_size ≤ q
  blocks_apart zero h p q m k lt = absurd (not-mem-nil m)
  blocks_apart (suc n) h p q m k lt =
      let last = block_at_lem c z n in
      Or.elim le_prop (mem-cons.0 m)
        (λ e.
          Or.elim le_prop (mem-cons.0 k) (λ e'. absurd (omega (arith, e, e')))
            (λ k'.
              absurd (omega (arith, e, last, z.has_size, blocks_below c z n (omega arith) q k'))))
        (λ m'.
          Or.elim le_prop (mem-cons.0 k)
            (λ e'. omega (arith, e', last, blocks_below c z n (omega arith) p m'))
            (λ k'. blocks_apart n (omega arith) p q m' k' lt))

  -- A block that the client holds is one of the pool's.
  held_block :
      (held : List ℕ) (pool : StaticPool)
      → Owned c held pool
      → (p : ℕ) → Mem p held
      → Mem p (blocks c c.object_count)
  held_block held pool o p m =
      (Perm.mem_iff o.shared).0 ((mem-append {s = held} {t = free pool}).1 (Or.inl m))

  Owned-AreApart : (held : List ℕ) (pool : StaticPool) → Owned c held pool → AreApart c held
  Owned-AreApart held pool o =
      let all = c.object_count in
      let ours = held_block held pool o in
      record {
        from = λ p m. blocks_from all (omega arith) p (ours p m);
        to = λ p m. omega (arith, z.fits, blocks_below c z all (omega arith) p (ours p m));
        apart = λ p q m k. blocks_apart all (omega arith) p q (ours p m) (ours q k);
      }

-- After an initialisation with a sized configuration and any requests of a client that gives back
-- only blocks it holds, none of which faults, the blocks that the client holds are different, lie
-- inside the buffer of the pool, and share no byte.
pub held_blocks_apart :
    (c : StaticPoolConfig) (pool : StaticPool) (rs : List Request)
    → IsSized c
    → (begun : StaticPool) × (held : List ℕ) × (final : StaticPool) × (init pool c
        ≡ some (err_none, begun))
      × (run rs [] begun ≡ some (held, final))
      × Nodup held
      × AreApart c held
held_blocks_apart c pool rs z =
    let (begun, made, owned, all) = pool_init_lem c z pool in
    let (held, final, ran, owned', once) = client_run_lem c z rs [] begun owned in
    (begun, held, final, made, ran, once, Owned-AreApart c z held final owned')
