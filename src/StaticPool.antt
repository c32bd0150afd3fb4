-- ===== src/StaticPool.antt =====
-- src/mem_alloc/static_pool.c: a pool of equal blocks, whose free blocks are kept on a pointer
-- stack. A pointer is an address, and NULL is 0; the blocks themselves are never read.
pub mod Blocks
pub mod Owner
pub mod Client
pub mod Apart
pub mod Overflow
pub mod Interface
mod Tests
use c_embedded_utils.Common.{
  ℕ, zero, suc, ◌+◌, ◌*◌, ◌≤◌, ◌<◌, Option, none, some, List, ◌==◌, ltb, if◌then◌else◌, sub_size,
  mul_size, ◌>>=◌,
}
use c_embedded_utils.ErrorCode.{ErrorCode, err_none, err_invalid_arg, err_no_mem, err_out_of_bounds}
use c_embedded_utils.PtrStack
use c_embedded_utils.PtrStack.{PtrStack}
use c_embedded_utils.PoolAllocator.{IPoolAllocator, null}

-- `buffer` is the address of the first block.
pub record StaticPoolConfig : Type 0 where
  pub allocation_stack : List ℕ
  pub buffer : ℕ
  pub buffer_size : ℕ
  pub object_size : ℕ
  pub object_count : ℕ

pub record StaticPool : Type 0 where
  pub config : StaticPoolConfig
  pub free_stack : PtrStack ℕ

unfoldable pub validate_config : StaticPoolConfig → ErrorCode
validate_config c =
    if ltb c.buffer_size (mul_size c.object_size c.object_count) then err_invalid_arg else err_none

-- `&pool->config.buffer[idx * pool->config.object_size]`
abbrev pub block_at : StaticPoolConfig → ℕ → ℕ
block_at c idx = c.buffer + mul_size idx c.object_size

-- The loop of `static_pool_init` at `idx`, with `rounds` left; it ignores the code of each push.
unfoldable pub fill : StaticPoolConfig → ℕ → ℕ → PtrStack ℕ → Option (PtrStack ℕ)
unfolding PtrStack.push
fill c zero idx s = some s
fill c (suc rounds) idx s = do
  (code, s') ← PtrStack.push s (block_at c idx)
  fill c rounds (idx + 1) s'

-- The code of `ptr_stack_init` is ignored too.
unfoldable pub init_stack : StaticPoolConfig → PtrStack ℕ → Option (PtrStack ℕ)
unfolding fill PtrStack.init
init_stack c s = fill c c.object_count 0 (PtrStack.init s c.allocation_stack c.object_count).1

unfoldable pub init : StaticPool → StaticPoolConfig → Option (ErrorCode × StaticPool)
unfolding validate_config init_stack
init pool c = elim (validate_config c) [
  | err_none ↦ do
    s ← init_stack c pool.free_stack
    some (err_none, record { config = c; free_stack = s })
  | code ↦ some (code, pool)
]

unfoldable pub deinit : StaticPool → StaticPool
unfolding PtrStack.deinit
deinit pool = record pool { free_stack = PtrStack.deinit pool.free_stack }

unfoldable pub allocate : StaticPool → Option (ErrorCode × Option ℕ × StaticPool)
unfolding PtrStack.pop
allocate pool = do
  (ret, token, s) ← PtrStack.pop pool.free_stack
  elim ret [
    | err_none ↦ some (err_none, token, record pool { free_stack = s })
    | _ ↦ some (err_no_mem, none, record pool { free_stack = s })
  ]

-- The pointer that the caller holds is returned too: it is NULL after a block is taken back.
unfoldable pub deallocate : StaticPool → ℕ → Option (ErrorCode × ℕ × StaticPool)
unfolding PtrStack.push
deallocate pool object_pointer =
    if object_pointer == null then some (err_out_of_bounds, object_pointer, pool) else do
      (code, s) ← PtrStack.push pool.free_stack object_pointer
      some (err_none, null, record pool { free_stack = s })

unfoldable pub get_available_count : StaticPool → ℕ
unfolding PtrStack.get_remaining_count
get_available_count pool =
    sub_size pool.config.object_count (PtrStack.get_remaining_count pool.free_stack)

unfoldable pub as_i_pool_allocator : StaticPool → ErrorCode × IPoolAllocator StaticPool
unfolding allocate deallocate get_available_count
as_i_pool_allocator pool = (
  err_none,
  record {
    context = pool;
    allocate_fn = allocate;
    deallocate_fn = deallocate;
    get_available_count_fn = get_available_count;
  },
)
