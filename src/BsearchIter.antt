-- ===== src/BsearchIter.antt =====
-- src/search_algos/bsearch_iter.c: a binary search whose client reads the values and says where to go.
-- Indices are `int32_t`; a result `none` is a signed overflow, which is undefined in C.
pub mod Next
pub mod Step
pub mod Search
pub mod Halves
pub mod Open
pub mod Loop
pub mod Cases
pub mod Find
pub mod Array
pub mod Sorted
mod Tests
use c_embedded_utils.Common.{
  ℕ, zero, suc, ◌+◌, ◌/◌, ◌≤◌, ◌<◌, Bool, true, false, ◌&&◌, ◌||◌, Option, none, some,
  if◌then◌else◌, ◌>>=◌,
}
use c_embedded_utils.Common.Int.{ℤ, pos, negsuc, ◌+ℤ◌, ◌-ℤ◌, ltb_ℤ, leb_ℤ}
use c_embedded_utils.ErrorCode.{ErrorCode, err_none, err_invalid_arg}

pub data BsearchIteratorStatus : Type 0 where
  bsearch_continue bsearch_done_not_found bsearch_done_found : BsearchIteratorStatus

pub data BsearchNotification : Type 0 where
  notify_left notify_right notify_eq notify_err_skip notify_err_abort : BsearchNotification

pub record BsearchIterator : Type 0 where
  pub status : BsearchIteratorStatus
  pub left_idx : ℤ
  pub right_idx : ℤ
  pub pivot_idx : ℤ
  pub pivot_offset : ℤ

abbrev pub int32_max : ℕ
int32_max = 2147483647

-- The value of an `int32_t` expression, if it has one.
unfoldable pub int32 : ℤ → Option ℤ
int32 x = if leb_ℤ (negsuc int32_max) x && leb_ℤ x (pos int32_max) then some x else none

-- `x * -1`
abbrev pub negate : ℤ → ℤ
negate x = pos 0 -ℤ x

-- Division by 2 rounds to 0.
abbrev pub half : ℤ → ℤ
half (pos n) = pos (n / 2)
half (negsuc n) = negate (pos (suc n / 2))

unfoldable pub get_next_pivot_offset : ℤ → Option ℤ
unfolding int32
get_next_pivot_offset (pos zero) = some (pos 1)
get_next_pivot_offset (pos (suc k)) = int32 (negate (pos (suc k)))
get_next_pivot_offset (negsuc k) = do
  opposite ← int32 (negate (negsuc k))
  int32 (opposite +ℤ pos 1)

unfoldable pub get_midpoint_safe : ℤ → ℤ → Option ℤ
unfolding int32
get_midpoint_safe left_idx right_idx = do
  width ← int32 (right_idx -ℤ left_idx)
  int32 (left_idx +ℤ half width)

-- On an error the struct keeps what it held before.
unfoldable pub init : BsearchIterator → ℤ → ℤ → Option (ErrorCode × BsearchIterator)
unfolding get_midpoint_safe
init iter start_idx stop_idx = if leb_ℤ stop_idx start_idx then some (err_invalid_arg, iter) else do
  pivot ← get_midpoint_safe start_idx stop_idx
  some (
    err_none,
    record {
      status = bsearch_continue;
      left_idx = start_idx;
      right_idx = stop_idx;
      pivot_idx = pivot;
      pivot_offset = pos 0;
    },
  )

unfoldable pub deinit : BsearchIterator → BsearchIterator
deinit iter = elim iter.status [
  | bsearch_continue ↦ record iter { status = bsearch_done_not_found }
  | _ ↦ iter
]

unfoldable pub get_check_index : BsearchIterator → Option ℤ
unfolding int32
get_check_index iter = int32 (iter.pivot_idx +ℤ iter.pivot_offset)

unfoldable pub get_found_index : BsearchIterator → Option ℤ
unfolding int32
get_found_index iter = elim iter.status [
  | bsearch_done_found ↦ int32 (iter.pivot_idx +ℤ iter.pivot_offset)
  | _ ↦ some (negsuc 0)
]

abbrev pub status : BsearchIterator → BsearchIteratorStatus
status iter = iter.status

abbrev pub give_up : BsearchIterator → BsearchIterator
give_up iter = record iter { status = bsearch_done_not_found }

-- The right end that is left after a notification of `BSEARCH_NOTIFY_LEFT`.
unfoldable pub next_right_idx : BsearchIterator → Option ℤ
unfolding int32 get_next_pivot_offset
next_right_idx iter =
    if ltb_ℤ (pos 0) iter.pivot_offset
    then (do
      next_pivot_offset ← get_next_pivot_offset iter.pivot_offset
      int32 (iter.pivot_idx +ℤ next_pivot_offset))
    else (do index ← int32 (iter.pivot_idx +ℤ iter.pivot_offset); int32 (index -ℤ pos 1))

-- The left end that is left after a notification of `BSEARCH_NOTIFY_RIGHT`.
unfoldable pub next_left_idx : BsearchIterator → Option ℤ
unfolding int32 get_next_pivot_offset
next_left_idx iter =
    if ltb_ℤ iter.pivot_offset (pos 0)
    then (do
      next_pivot_offset ← get_next_pivot_offset iter.pivot_offset
      int32 (iter.pivot_idx +ℤ next_pivot_offset))
    else (do index ← int32 (iter.pivot_idx +ℤ iter.pivot_offset); int32 (index +ℤ pos 1))

unfoldable pub go_left : BsearchIterator → Option BsearchIterator
unfolding next_right_idx get_midpoint_safe
go_left iter = do
  right ← next_right_idx iter
  if leb_ℤ iter.right_idx right || ltb_ℤ right iter.left_idx then some (give_up iter) else do
    pivot ← get_midpoint_safe iter.left_idx right
    some (record iter { right_idx = right; pivot_idx = pivot; pivot_offset = pos 0 })

unfoldable pub go_right : BsearchIterator → Option BsearchIterator
unfolding next_left_idx get_midpoint_safe
go_right iter = do
  left ← next_left_idx iter
  if leb_ℤ left iter.left_idx || ltb_ℤ iter.right_idx left then some (give_up iter) else do
    pivot ← get_midpoint_safe left iter.right_idx
    some (record iter { left_idx = left; pivot_idx = pivot; pivot_offset = pos 0 })

-- The offset changes also where the search ends.
unfoldable pub skip : BsearchIterator → Option BsearchIterator
unfolding int32 get_next_pivot_offset
skip iter = do
  offset ← get_next_pivot_offset iter.pivot_offset
  next ← int32 (iter.pivot_idx +ℤ offset)
  let moved = record iter { pivot_offset = offset }
  some (if ltb_ℤ iter.right_idx next || ltb_ℤ next iter.left_idx then give_up moved else moved)

-- An iterator that is done ignores every notification.
unfoldable pub notify : BsearchIterator → BsearchNotification → Option BsearchIterator
unfolding go_left go_right skip
notify iter notification = elim iter.status [
  | bsearch_continue ↦ elim notification [
    | notify_eq ↦ some (record iter { status = bsearch_done_found })
    | notify_left ↦ go_left iter
    | notify_right ↦ go_right iter
    | notify_err_skip ↦ skip iter
    | notify_err_abort ↦ some (give_up iter)
  ]
  | _ ↦ some iter
]
