-- ===== src/BsearchIter/Step.antt =====
-- One notification to an iterator that searches from `l` to `r`.
use c_embedded_utils.Common.{
  ℕ, zero, suc, ◌+◌, ◌-◌, ◌≤◌, ◌<◌, ◌≡◌, Bool, some, arith, ltb, leb, if◌then◌else◌,
}
use native.Mathlib.Decide.{dec_lt, dec_le}
use c_embedded_utils.Common.Int.{ℤ, pos, negsuc}
use c_embedded_utils.BsearchIter.{int32_max, go_left, go_right, skip, give_up}
use c_embedded_utils.BsearchIter.Next.{
  mid, at, IsSearching, first_gone, first_behind, next_offset, int32-pos, int32-sub_ℕ, pos_add,
  pos_add_negsuc, sub_ℕ-le, get_next_pivot_offset_lem, next_right_idx_lem, next_left_idx_lem,
  get_midpoint_safe_lem,
}

first_gone-le : (l r : ℕ) (offset : ℤ) → IsSearching l r offset → first_gone l r offset ≤ r
first_gone-le l r (pos zero) v = omega (arith, v.ordered)
first_gone-le l r (pos (suc k)) v = omega (arith, v.ordered)
first_gone-le l r (negsuc k) v = omega (arith, v.ordered)

first_behind-gt : (l r : ℕ) (offset : ℤ) → IsSearching l r offset → l < first_behind l r offset
first_behind-gt l r (pos k) v = omega arith
first_behind-gt l r (negsuc k) v = omega arith

-- Going left keeps the indices before the ones that are gone, if there are any.
pub go_left_lem :
    (l r : ℕ) (offset : ℤ)
    → IsSearching l r offset
    → go_left (at l r offset)
      ≡ some (
          if ltb l (first_gone l r offset)
          then at l (first_gone l r offset - 1) (pos 0)
          else give_up (at l r offset))
unfolding go_left
go_left_lem l r offset v = elim (dec_lt l (first_gone l r offset)) [
  | yes more ↦
      let below = first_gone-le l r offset v in
      let index = sub_ℕ-le (first_gone l r offset) 1 (omega arith) in
      let middle =
        get_midpoint_safe_lem l (first_gone l r offset - 1) (omega arith)
          (omega (arith, v.small)) in
      rw (next_right_idx_lem l r offset v, index) (ground (arith, middle))
  | no none_left ↦
      let below = first_gone-le l r offset v in rw (next_right_idx_lem l r offset v) (ground arith)
]

-- Going right keeps the indices behind the ones that are gone, if there are any.
pub go_right_lem :
    (l r : ℕ) (offset : ℤ)
    → IsSearching l r offset
    → go_right (at l r offset)
      ≡ some (
          if leb (first_behind l r offset) r
          then at (first_behind l r offset) r (pos 0)
          else give_up (at l r offset))
unfolding go_right
go_right_lem l r offset v = elim (dec_le (first_behind l r offset) r) [
  | yes more ↦
      let above = first_behind-gt l r offset v in
      let middle = get_midpoint_safe_lem (first_behind l r offset) r more v.small in
      rw (next_left_idx_lem l r offset v) (ground (arith, middle))
  | no none_left ↦
      let above = first_behind-gt l r offset v in rw (next_left_idx_lem l r offset v) (ground arith)
]

-- The test for `Within`.
abbrev pub stays : ℕ → ℕ → ℤ → Bool
stays l r (pos k) = leb (mid l r + k) r
stays l r (negsuc k) = leb (l + suc k) (mid l r)

-- A skip moves on to the other side, as long as that lies between the ends.
pub skip_lem :
    (l r : ℕ) (offset : ℤ)
    → IsSearching l r offset
    → skip (at l r offset)
      ≡ some (
          if stays l r (next_offset offset)
          then at l r (next_offset offset)
          else give_up (at l r (next_offset offset)))
unfolding skip
skip_lem l r (pos zero) v =
    rw (pos_add (mid l r) 1, int32-pos (mid l r + 1) (omega (arith, v.within, v.small)))
      (ground arith)
skip_lem l r (pos (suc k)) v =
    let index =
      int32-sub_ℕ (mid l r) (suc k) (omega (arith, v.within, v.small))
        (omega (arith, v.within, v.small)) in
    rw (get_next_pivot_offset_lem l r (pos (suc k)) v, pos_add_negsuc (mid l r) k, index)
      (ground (arith, v.within))
skip_lem l r (negsuc k) v =
    let room : mid l r + suc (suc k) ≤ int32_max = omega (arith, v.within, v.small, v.ordered) in
    rw
      (
        get_next_pivot_offset_lem l r (negsuc k) v,
        pos_add (mid l r) (suc (suc k)),
        int32-pos (mid l r + suc (suc k)) room,
      )
      (ground (arith, v.within))
