-- ===== src/StaticPool/Tests.antt =====
-- Runs of the pool, and its theorems at a pool of three blocks of four bytes at address 100.
use mathlib.Core.List.{Nodup}
use mathlib.Core.List.Perm
use c_embedded_utils.Common.{
  ◌<◌, ℕ, List, [], ◌∷◌, ◌≡◌, refl, some, none, arith, ◌+◌, ◌^◌, store, length,
}
use c_embedded_utils.ErrorCode.{err_none, err_no_mem}
use c_embedded_utils.StaticPool.{
  as_i_pool_allocator, StaticPool, StaticPoolConfig, init, deinit, allocate, deallocate,
  get_available_count,
}
use c_embedded_utils.StaticPool.Blocks.{IsSized}
use c_embedded_utils.StaticPool.Owner.{
  Owned, pool_init_lem, allocate_lem, allocate_exhausted, deallocate_lem, pool_deinit_lem,
}
use c_embedded_utils.PoolAllocator
use c_embedded_utils.PoolAllocator.{IPoolAllocator}
use c_embedded_utils.PoolAllocator.Contract.{Call, ask, put_back, use_pool}
use c_embedded_utils.StaticPool.Interface.{interface_lem}
use c_embedded_utils.StaticPool.Overflow.{pool_init_overflows}
use c_embedded_utils.StaticPool.Apart.{AreApart, held_blocks_apart}
use c_embedded_utils.StaticPool.Client.{Request, acquire, give, run, client_run_lem}

abbrev three_blocks : StaticPoolConfig
three_blocks = record {
  allocation_stack = 0 ∷ 0 ∷ 0 ∷ [];
  buffer = 100;
  buffer_size = 12;
  object_size = 4;
  object_count = 3;
}

three_blocks-IsSized : IsSized three_blocks
three_blocks-IsSized = omega arith

abbrev unset : StaticPool
unset = record {
  config = three_blocks;
  free_stack = record { stack = []; max_item_count = 0; stack_top = 0 };
}

abbrev fresh : StaticPool
fresh = record {
  config = three_blocks;
  free_stack = record { stack = 100 ∷ 104 ∷ 108 ∷ []; max_item_count = 3; stack_top = 3 };
}

-- The pool after one allocation, and after three.
abbrev one_out : StaticPool
one_out = record {
  config = three_blocks;
  free_stack = record { stack = 100 ∷ 104 ∷ 108 ∷ []; max_item_count = 3; stack_top = 2 };
}

abbrev all_out : StaticPool
all_out = record {
  config = three_blocks;
  free_stack = record { stack = 100 ∷ 104 ∷ 108 ∷ []; max_item_count = 3; stack_top = 0 };
}

init-three_blocks : init unset three_blocks ≡ some (err_none, fresh)
unfolding init store
init-three_blocks = refl

fresh-Owned : Owned three_blocks [] fresh
fresh-Owned = record {
  config_same = refl;
  stack_valid = omega arith;
  slots = refl;
  shared = Perm.refl _;
}

one_out-Owned : Owned three_blocks (108 ∷ []) one_out
one_out-Owned = record {
  config_same = refl;
  stack_valid = omega arith;
  slots = refl;
  shared = Perm.refl _;
}

all_out-Owned : Owned three_blocks (108 ∷ 104 ∷ 100 ∷ []) all_out
all_out-Owned = record {
  config_same = refl;
  stack_valid = omega arith;
  slots = refl;
  shared = Perm.refl _;
}

pool_init_lem_example :
    (pool : StaticPool) × (init unset three_blocks ≡ some (err_none, pool))
    × Owned three_blocks [] pool
    × (get_available_count pool ≡ 3)
pool_init_lem_example = pool_init_lem three_blocks three_blocks-IsSized unset

allocate_lem_example :
    (p : ℕ) × (pool : StaticPool) × (allocate one_out ≡ some (err_none, some p, pool))
    × Owned three_blocks (p ∷ 108 ∷ []) pool
    × Nodup (p ∷ 108 ∷ [])
    × (get_available_count pool + 1 ≡ get_available_count one_out)
unfolding get_available_count
allocate_lem_example =
    allocate_lem three_blocks three_blocks-IsSized (108 ∷ []) one_out one_out-Owned (omega arith)

allocate_exhausted_example : allocate all_out ≡ some (err_no_mem, none, all_out)
unfolding get_available_count
allocate_exhausted_example =
    allocate_exhausted three_blocks three_blocks-IsSized (108 ∷ 104 ∷ 100 ∷ []) all_out
      all_out-Owned refl

deallocate_lem_example :
    (pool : StaticPool) × (deallocate all_out 104 ≡ some (err_none, 0, pool))
    × Owned three_blocks (108 ∷ 100 ∷ []) pool
    × (get_available_count pool ≡ get_available_count all_out + 1)
deallocate_lem_example =
    deallocate_lem three_blocks three_blocks-IsSized (108 ∷ []) (100 ∷ []) 104 all_out all_out-Owned

pool_deinit_lem_example :
    (allocate (deinit one_out) ≡ some (err_no_mem, none, deinit one_out))
    × (get_available_count (deinit one_out) ≡ 3)
pool_deinit_lem_example =
    pool_deinit_lem three_blocks three_blocks-IsSized (108 ∷ []) one_out one_out-Owned

abbrev requests : List Request
requests = acquire ∷ acquire ∷ give 1 ∷ acquire ∷ acquire ∷ acquire ∷ give 7 ∷ []

client_run_lem_example :
    (held : List ℕ) × (pool : StaticPool) × (run requests [] fresh ≡ some (held, pool))
    × Owned three_blocks held pool
    × Nodup held
client_run_lem_example =
    client_run_lem three_blocks three_blocks-IsSized requests [] fresh fresh-Owned

abbrev calls : List Call
calls = ask ∷ ask ∷ put_back 0 ∷ ask ∷ ask ∷ ask ∷ []

interface_lem_example :
    (pool : StaticPool) × (held : List ℕ) × (i : IPoolAllocator StaticPool) × (init fresh
        three_blocks
      ≡ some (err_none, pool))
    × ((as_i_pool_allocator pool).0 ≡ err_none)
    × (use_pool calls [] (as_i_pool_allocator pool).1 ≡ some (held, i))
    × Nodup held
    × (PoolAllocator.get_available_count i + length held ≡ 3)
interface_lem_example = interface_lem three_blocks fresh calls three_blocks-IsSized

held_blocks_apart_example :
    (begun : StaticPool) × (held : List ℕ) × (final : StaticPool) × (init unset three_blocks
      ≡ some (err_none, begun))
    × (run requests [] begun ≡ some (held, final))
    × Nodup held
    × AreApart three_blocks held
held_blocks_apart_example = held_blocks_apart three_blocks unset requests three_blocks-IsSized

-- Two blocks of 2 ^ 63 bytes: the product wraps to 0, and any buffer is taken for large enough.
abbrev too_large : StaticPoolConfig
too_large = record {
  allocation_stack = 0 ∷ 0 ∷ [];
  buffer = 100;
  buffer_size = 12;
  object_size = 2 ^ 63;
  object_count = 2;
}

pool_init_overflows_example :
    (begun taken : StaticPool) × (p : ℕ) × (init unset too_large ≡ some (err_none, begun))
    × (allocate begun ≡ some (err_none, some p, taken))
    × (112 < p + 2 ^ 63)
pool_init_overflows_example =
    pool_init_overflows too_large unset 1 refl (omega arith) (omega arith) (omega arith)
      (omega arith) (omega arith) (omega arith)
