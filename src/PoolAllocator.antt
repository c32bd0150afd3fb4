-- ===== src/PoolAllocator.antt =====
-- include/cemb/i_pool_allocator.h and src/mem_alloc/i_pool_allocator.c: the interface of a pool of
-- objects. The function pointers are functions on the pool that `context` points to; each returns
-- the pool after the call. A pointer is an address, and NULL is 0.
pub mod Contract
use c_embedded_utils.Common.{ℕ, Option}
use c_embedded_utils.ErrorCode.{ErrorCode}

abbrev pub null : ℕ
null = 0

abbrev pub AllocateFunction : Type 0 → Type 0
AllocateFunction P = P → Option (ErrorCode × Option ℕ × P)

abbrev pub DeallocateFunction : Type 0 → Type 0
DeallocateFunction P = P → ℕ → Option (ErrorCode × ℕ × P)

abbrev pub GetAvailableCountFunction : Type 0 → Type 0
GetAvailableCountFunction P = P → ℕ

-- `struct IPoolAllocator` over a pool of type `P`. An out-parameter that is not written is `none`.
pub record IPoolAllocator (P : Type 0) : Type 0 where
  pub context : P
  pub allocate_fn : AllocateFunction P
  pub deallocate_fn : DeallocateFunction P
  pub get_available_count_fn : GetAvailableCountFunction P

module _ {P : Type 0} where
  unfoldable pub allocate : IPoolAllocator P → Option (ErrorCode × Option ℕ × P)
  allocate i = i.allocate_fn i.context

  unfoldable pub deallocate : IPoolAllocator P → ℕ → Option (ErrorCode × ℕ × P)
  deallocate i object_ptr = i.deallocate_fn i.context object_ptr

  unfoldable pub get_available_count : IPoolAllocator P → ℕ
  get_available_count i = i.get_available_count_fn i.context
