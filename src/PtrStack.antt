-- ===== src/PtrStack.antt =====
-- src/collections/ptr_stack.c: a bounded stack of pointers over storage of the caller.
-- A pointer is a value of any type. The out-parameter of `ptr_stack_pop` is returned as an option:
-- `none` where the function does not write it. A result `none` is an access outside the storage.
pub mod Refine
pub mod Calls
mod Tests
use c_embedded_utils.Common.{
  ℕ, ◌+◌, ◌-◌, ◌≤◌, ◌<◌, Option, none, some, List, ◌==◌, if◌then◌else◌, add_size, sub_size, load,
  store, ◌>>=◌, size_mod, length,
}
use c_embedded_utils.ErrorCode.{ErrorCode, err_none, err_invalid_arg, err_no_mem, err_empty}

pub record PtrStack (A : Type 0) : Type 0 where
  pub stack : List A
  pub max_item_count : ℕ
  pub stack_top : ℕ

module _ {A : Type 0} where
  -- On an error the struct keeps what it held before.
  unfoldable pub init : PtrStack A → List A → ℕ → ErrorCode × PtrStack A
  init s stack_buffer stack_item_count = if stack_item_count == 0 then (err_invalid_arg, s) else (
    err_none,
    record { stack = stack_buffer; max_item_count = stack_item_count; stack_top = 0 },
  )

  unfoldable pub deinit : PtrStack A → PtrStack A
  deinit s = record s { max_item_count = 0; stack_top = 0 }

  unfoldable pub get_remaining_count : PtrStack A → ℕ
  get_remaining_count s = sub_size s.max_item_count s.stack_top

  unfoldable pub push : PtrStack A → A → Option (ErrorCode × PtrStack A)
  unfolding get_remaining_count
  push s value = if get_remaining_count s == 0 then some (err_no_mem, s) else do
    buf ← store s.stack s.stack_top value
    some (err_none, record s { stack = buf; stack_top = add_size s.stack_top 1 })

  unfoldable pub pop : PtrStack A → Option (ErrorCode × Option A × PtrStack A)
  unfolding get_remaining_count
  pop s = if get_remaining_count s == s.max_item_count then some (err_empty, none, s) else do
    let top = sub_size s.stack_top 1
    value ← load s.stack top
    some (err_none, some value, record s { stack_top = top })

  -- The representation invariant: the items fit the declared size, and that fits the storage.
  pub record IsValid (s : PtrStack A) : Type 0 where
    pub fits : s.max_item_count ≤ length s.stack
    pub sized : s.max_item_count < size_mod
    pub top_in : s.stack_top ≤ s.max_item_count
