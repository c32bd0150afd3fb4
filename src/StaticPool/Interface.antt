-- ===== src/StaticPool/Interface.antt =====
-- The static pool behind the interface of pool allocators, `static_pool_as_i_pool_allocator`.
use mathlib.Core.List.{Nodup}
use c_embedded_utils.Common.{ℕ, ◌+◌, ◌≡◌, refl, some, List, [], arith, length}
use c_embedded_utils.ErrorCode.{err_none}
use c_embedded_utils.PoolAllocator.{IPoolAllocator}
use c_embedded_utils.PoolAllocator
use c_embedded_utils.PoolAllocator.Contract.{IsPool, Call, use_pool, use_pool_lem}
use c_embedded_utils.StaticPool.{StaticPool, StaticPoolConfig, init, as_i_pool_allocator}
use c_embedded_utils.StaticPool.Blocks.{IsSized}
use c_embedded_utils.StaticPool.Owner.{
  Owned, Owned-Nodup, pool_init_lem, allocate_lem, allocate_exhausted, deallocate_lem,
}

pub as_i_pool_allocator-IsPool :
    (c : StaticPoolConfig) (pool : StaticPool)
    → IsSized c
    → IsPool (as_i_pool_allocator pool).1 (Owned c)
unfolding as_i_pool_allocator
as_i_pool_allocator-IsPool c pool z = record {
  distinct = Owned-Nodup c z;
  gives = λ held pool' o some_free.
      let (p, pool'', taken, owned, once, fewer) = allocate_lem c z held pool' o some_free in
      (p, pool'', taken, owned, fewer);
  refuses = allocate_exhausted c z;
  takes_back = deallocate_lem c z;
}

-- A pool that is initialised with a sized configuration and used through its interface by a
-- client that gives back only blocks it holds: no call faults, the client never holds a block
-- twice, and the blocks that it holds and those that are available are all the blocks of the
-- pool.
pub interface_lem :
    (c : StaticPoolConfig) (pool : StaticPool) (calls : List Call)
    → IsSized c
    → (pool' : StaticPool) × (held : List ℕ) × (i : IPoolAllocator StaticPool) × (init pool c
        ≡ some (err_none, pool'))
      × ((as_i_pool_allocator pool').0 ≡ err_none)
      × (use_pool calls [] (as_i_pool_allocator pool').1 ≡ some (held, i))
      × Nodup held
      × (PoolAllocator.get_available_count i + length held ≡ c.object_count)
unfolding as_i_pool_allocator PoolAllocator.get_available_count
interface_lem c pool calls z =
    let (pool', made, owned, all) = pool_init_lem c z pool in
    let (held, i, ran, fair) =
      use_pool_lem (Owned c) calls [] (as_i_pool_allocator pool').1
        (as_i_pool_allocator-IsPool c pool' z) owned in
    (pool', held, i, made, refl, ran, fair.once, omega (arith, fair.as_many, all))
