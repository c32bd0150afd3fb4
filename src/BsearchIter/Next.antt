-- ===== src/BsearchIter/Next.antt =====
-- The indices that an iterator computes, while it searches from `l` to `r`, both included and not
-- negative.
use c_embedded_utils.Common.{
  ℕ, zero, suc, ◌+◌, ◌-◌, ◌/◌, ◌≤◌, ◌<◌, ◌≡◌, refl, true, false, some, arith,
}
use c_embedded_utils.Common.Int.{ℤ, pos, negsuc, ◌+ℤ◌, ◌-ℤ◌, ltb_ℤ, sub_ℕ}
use c_embedded_utils.BsearchIter.{
  BsearchIterator, bsearch_continue, int32_max, int32, get_next_pivot_offset, get_midpoint_safe,
  get_check_index, next_right_idx, next_left_idx, negate,
}

abbrev pub mid : ℕ → ℕ → ℕ
mid l r = l + (r - l) / 2

abbrev pub at : ℕ → ℕ → ℤ → BsearchIterator
at l r offset = record {
  status = bsearch_continue;
  left_idx = pos l;
  right_idx = pos r;
  pivot_idx = pos (mid l r);
  pivot_offset = offset;
}

-- The index that is checked next.
abbrev pub checked : ℕ → ℕ → ℤ → ℕ
checked l r (pos k) = mid l r + k
checked l r (negsuc k) = mid l r - suc k

abbrev pub Within : ℕ → ℕ → ℤ → Type 0
Within l r (pos k) = mid l r + k ≤ r
Within l r (negsuc k) = l + suc k ≤ mid l r

-- That index lies between the ends, and the right end is not the last `int32_t`.
pub record IsSearching (l r : ℕ) (offset : ℤ) : Type 0 where
  pub ordered : l ≤ r
  pub small : r < int32_max
  pub within : Within l r offset

-- The first index that the skips so far, or the check itself, have taken away.
abbrev pub first_gone : ℕ → ℕ → ℤ → ℕ
first_gone l r (pos zero) = mid l r
first_gone l r (pos (suc k)) = mid l r - k
first_gone l r (negsuc k) = mid l r - suc k

-- The first index behind those.
abbrev pub first_behind : ℕ → ℕ → ℤ → ℕ
first_behind l r (pos k) = suc (mid l r + k)
first_behind l r (negsuc k) = suc (mid l r + suc k)

abbrev pub next_offset : ℤ → ℤ
next_offset (pos zero) = pos 1
next_offset (pos (suc k)) = negsuc k
next_offset (negsuc k) = pos (suc (suc k))

pub int32-pos : (n : ℕ) → n ≤ int32_max → int32 (pos n) ≡ some (pos n)
unfolding int32
int32-pos n h = ground arith

int32-negsuc : (n : ℕ) → n ≤ int32_max → int32 (negsuc n) ≡ some (negsuc n)
unfolding int32
int32-negsuc n h = ground arith

pub int32-sub_ℕ : (a b : ℕ) → a ≤ int32_max → b ≤ int32_max → int32 (sub_ℕ a b) ≡ some (sub_ℕ a b)
unfolding int32
int32-sub_ℕ a b h k = ground arith

pub pos_add : (a b : ℕ) → pos a +ℤ pos b ≡ pos (a + b)
unfolding ◌+ℤ◌
pos_add a b = ground arith

pub pos_add_negsuc : (a b : ℕ) → pos a +ℤ negsuc b ≡ sub_ℕ a (suc b)
unfolding ◌+ℤ◌
pos_add_negsuc a b = ground arith

pos_sub : (a b : ℕ) → pos a -ℤ pos b ≡ sub_ℕ a b
unfolding ◌-ℤ◌
pos_sub a b = ground arith

negate_pos : (k : ℕ) → negate (pos (suc k)) ≡ negsuc k
unfolding ◌-ℤ◌
negate_pos k = ground arith

negate_negsuc : (k : ℕ) → negate (negsuc k) ≡ pos (suc k)
unfolding ◌-ℤ◌
negate_negsuc k = ground arith

pub sub_ℕ-le : (a b : ℕ) → b ≤ a → sub_ℕ a b ≡ pos (a - b)
sub_ℕ-le a b h = ground arith

pub get_midpoint_safe_lem :
    (l r : ℕ) → l ≤ r → r < int32_max → get_midpoint_safe (pos l) (pos r) ≡ some (pos (mid l r))
unfolding get_midpoint_safe
get_midpoint_safe_lem l r h k =
    rw (pos_sub r l, sub_ℕ-le r l h, int32-pos (r - l) (omega arith))
      (rw (pos_add l ((r - l) / 2)) (int32-pos (mid l r) (omega arith)))

pub get_next_pivot_offset_lem :
    (l r : ℕ) (offset : ℤ)
    → IsSearching l r offset
    → get_next_pivot_offset offset ≡ some (next_offset offset)
unfolding get_next_pivot_offset
get_next_pivot_offset_lem l r (pos zero) v = refl
get_next_pivot_offset_lem l r (pos (suc k)) v =
    rw (negate_pos k) (int32-negsuc k (omega (arith, v.within, v.small)))
get_next_pivot_offset_lem l r (negsuc k) v =
    let small : suc k ≤ int32_max = omega (arith, v.within, v.small, v.ordered) in
    let next : suc k + 1 ≡ suc (suc k) = omega arith in
    let room : suc (suc k) ≤ int32_max = omega (arith, v.within, v.small, v.ordered) in
    rw (negate_negsuc k, int32-pos (suc k) small)
      (rw (pos_add (suc k) 1, next) (int32-pos (suc (suc k)) room))

pub checked_bounds :
    (l r : ℕ) (offset : ℤ)
    → IsSearching l r offset
    → (l ≤ checked l r offset) × (checked l r offset ≤ r)
checked_bounds l r (pos k) v = omega (arith, v.within, v.ordered)
checked_bounds l r (negsuc k) v = omega (arith, v.within, v.ordered)

check_lem :
    (l r : ℕ) (offset : ℤ)
    → IsSearching l r offset
    → int32 (pos (mid l r) +ℤ offset) ≡ some (pos (checked l r offset))
check_lem l r (pos k) v =
    rw (pos_add (mid l r) k) (int32-pos (mid l r + k) (omega (arith, v.within, v.small)))
check_lem l r (negsuc k) v =
    rw (pos_add_negsuc (mid l r) k, sub_ℕ-le (mid l r) (suc k) (omega (arith, v.within)))
      (int32-pos (mid l r - suc k) (omega (arith, v.within, v.ordered, v.small)))

-- The index to check is computed without an overflow.
pub get_check_index_lem :
    (l r : ℕ) (offset : ℤ)
    → IsSearching l r offset
    → get_check_index (at l r offset) ≡ some (pos (checked l r offset))
unfolding get_check_index
get_check_index_lem l r offset v = check_lem l r offset v

pub next_right_idx_lem :
    (l r : ℕ) (offset : ℤ)
    → IsSearching l r offset
    → next_right_idx (at l r offset) ≡ some (sub_ℕ (first_gone l r offset) 1)
unfolding next_right_idx
next_right_idx_lem l r (pos zero) v =
    let here : mid l r + 0 ≡ mid l r = omega arith in
    rw (check_lem l r (pos 0) v, here, pos_sub (mid l r) 1)
      (int32-sub_ℕ (mid l r) 1 (omega (arith, v.small, v.ordered)) (omega arith))
next_right_idx_lem l r (pos (suc k)) v =
    let turn = get_next_pivot_offset_lem l r (pos (suc k)) v in
    let same : sub_ℕ (mid l r) (suc k) ≡ sub_ℕ (mid l r - k) 1 =
      ground (arith, v.within, v.ordered) in
    ground (
      arith,
      turn,
      pos_add_negsuc (mid l r) k,
      same,
      int32-sub_ℕ (mid l r - k) 1 (omega (arith, v.small, v.within)) (omega arith),
    )
next_right_idx_lem l r (negsuc k) v =
    let test : ltb_ℤ (pos 0) (negsuc k) ≡ false = ground arith in
    rw (test, check_lem l r (negsuc k) v, pos_sub (mid l r - suc k) 1)
      (int32-sub_ℕ (mid l r - suc k) 1 (omega (arith, v.small, v.ordered)) (omega arith))

pub next_left_idx_lem :
    (l r : ℕ) (offset : ℤ)
    → IsSearching l r offset
    → next_left_idx (at l r offset) ≡ some (pos (first_behind l r offset))
unfolding next_left_idx
next_left_idx_lem l r (pos k) v =
    let next : mid l r + k + 1 ≡ suc (mid l r + k) = omega arith in
    let test : ltb_ℤ (pos k) (pos 0) ≡ false = ground arith in
    rw (test, check_lem l r (pos k) v, pos_add (mid l r + k) 1, next)
      (int32-pos (suc (mid l r + k)) (omega (arith, v.small, v.within)))
next_left_idx_lem l r (negsuc k) v =
    let next : mid l r + suc (suc k) ≡ suc (mid l r + suc k) = omega arith in
    let test : ltb_ℤ (negsuc k) (pos 0) ≡ true = ground arith in
    rw (test, get_next_pivot_offset_lem l r (negsuc k) v, pos_add (mid l r) (suc (suc k)), next)
      (int32-pos (suc (mid l r + suc k)) (omega (arith, v.small, v.within, v.ordered)))
