-- ===== src/BsearchIter/Array.antt =====
-- The typical use of include/cemb/bsearch_iter.h: a client that looks for a value in an array of
-- integers, and compares the value at each index that it is asked to check.
use native.Mathlib.Decide.{dec_lt, dec_le}
use c_embedded_utils.Common.{
  ℕ, zero, suc, ◌-◌, ◌≤◌, ◌≡◌, inl, inr, refl, Option, none, some, List, arith, ◌>>=◌, get_elem?,
  if◌then◌else◌, Bool-cases,
}
use c_embedded_utils.Common.Int.{ℤ, pos, negsuc, ltb_ℤ}
use c_embedded_utils.BsearchIter.{
  BsearchIterator, bsearch_continue, BsearchNotification, notify_left, notify_right, notify_eq,
  notify, give_up, status, get_check_index,
}
use c_embedded_utils.BsearchIter.Next.{
  at, checked, checked_bounds, IsSearching, first_gone, first_behind, next_offset,
  get_check_index_lem,
}
use c_embedded_utils.BsearchIter.Step.{stays, go_left_lem, go_right_lem, skip_lem}
use c_embedded_utils.BsearchIter.Search.{
  found, fewer_left, fewer_right, IsSearching-left, IsSearching-right, IsSearching-skip,
}
use c_embedded_utils.BsearchIter.Loop.{search, search_step, notification_cases}

-- The loop of a client whose answer may need a read that faults.
unfoldable pub search_reading :
    (ℤ → Option BsearchNotification) → ℕ → BsearchIterator → Option BsearchIterator
search_reading read zero iter = none
search_reading read (suc fuel) iter = elim (status iter) [
  | bsearch_continue ↦ do
    index ← get_check_index iter
    notification ← read index
    iter' ← notify iter notification
    search_reading read fuel iter'
  | _ ↦ some iter
]

-- `array[index]`
abbrev pub value_at : List ℤ → ℤ → Option ℤ
value_at array (pos i) = get_elem? array i
value_at array (negsuc i) = none

abbrev pub compare_to : ℤ → ℤ → BsearchNotification
compare_to key value =
    if ltb_ℤ key value then notify_left else if ltb_ℤ value key then notify_right else notify_eq

unfoldable pub search_array : List ℤ → ℤ → ℕ → BsearchIterator → Option BsearchIterator
unfolding search_reading
search_array array key =
    search_reading (λ index. (do value ← value_at array index; some (compare_to key value)))

module _ (read : ℤ → Option BsearchNotification) (probe : ℤ → BsearchNotification) where
  search_reading_step :
      (fuel l r : ℕ) (o : ℤ)
      → IsSearching l r o
      → read (pos (checked l r o)) ≡ some (probe (pos (checked l r o)))
      → search_reading read (suc fuel) (at l r o)
        ≡ (notify (at l r o) (probe (pos (checked l r o))) >>= search_reading read fuel)
  unfolding search_reading
  search_reading_step fuel l r o v e = rw (get_check_index_lem l r o v, e) refl

  give_up_same :
      (fuel : ℕ) (iter : BsearchIterator)
      → search_reading read fuel (give_up iter) ≡ search probe fuel (give_up iter)
  unfolding search_reading search
  give_up_same zero iter = refl
  give_up_same (suc fuel) iter = refl

  found_same :
      (fuel : ℕ) (iter : BsearchIterator)
      → search_reading read fuel (found iter) ≡ search probe fuel (found iter)
  unfolding search_reading search
  found_same zero iter = refl
  found_same (suc fuel) iter = refl

  -- A search asks for indices between its ends only, so reads that succeed there suffice.
  module _ (start stop : ℕ)
      (reads : (i : ℕ) → start ≤ i → i ≤ stop → read (pos i) ≡ some (probe (pos i))) where
    pub search_reading-search :
        (fuel l r : ℕ) (o : ℤ)
        → IsSearching l r o
        → start ≤ l
        → r ≤ stop
        → search_reading read fuel (at l r o) ≡ search probe fuel (at l r o)
    unfolding notify
    search_reading-search zero l r o v p q = unfold search_reading search in refl
    search_reading-search (suc fuel) l r o v p q =
        let (low, high) = checked_bounds l r o v in
        let step =
          search_reading_step fuel l r o v (reads (checked l r o) (omega arith) (omega arith)) in
        let step' = search_step probe fuel l r o v in
        elim (notification_cases (probe (pos (checked l r o)))) [
          | inl goes ↦ elim (dec_lt l (first_gone l r o)) [
            | yes room ↦ ground (
              arith,
              step,
              step',
              goes,
              go_left_lem l r o v,
              search_reading-search fuel l (first_gone l r o - 1) (pos 0)
                  (IsSearching-left l r o v room) p (omega (arith, fewer_left l r o v)),
            )
            | no over ↦
                ground (arith, step, step', goes, go_left_lem l r o v, give_up_same fuel (at l r o))
          ]
          | inr (inl goes) ↦ elim (dec_le (first_behind l r o) r) [
            | yes room ↦ ground (
              arith,
              step,
              step',
              goes,
              go_right_lem l r o v,
              search_reading-search fuel (first_behind l r o) r (pos 0)
                  (IsSearching-right l r o v room) (omega (arith, fewer_right l r o v)) q,
            )
            | no over ↦
                ground
                  (arith, step, step', goes, go_right_lem l r o v, give_up_same fuel (at l r o))
          ]
          | inr (inr (inl matches)) ↦
              ground (arith, step, step', matches, found_same fuel (at l r o))
          | inr (inr (inr (inl skips))) ↦ elim (Bool-cases (stays l r (next_offset o))) [
            | inl room ↦ ground (
              arith,
              step,
              step',
              skips,
              skip_lem l r o v,
              search_reading-search fuel l r (next_offset o) (IsSearching-skip l r o v room) p q,
            )
            | inr over ↦ ground (
              arith,
              step,
              step',
              skips,
              skip_lem l r o v,
              give_up_same fuel (at l r (next_offset o)),
            )
          ]
          | inr (inr (inr (inr aborts))) ↦
              ground (arith, step, step', aborts, give_up_same fuel (at l r o))
        ]
