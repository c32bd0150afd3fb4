-- ===== src/BsearchIter/Open.antt =====
-- Which indices a search may still reach, given that the client answers truthfully.
use c_embedded_utils.Common.{ℕ, zero, suc, ◌+◌, ◌≤◌, ◌<◌, ◌≡◌, ◌≢◌, ◌⊎◌, inl, inr, false, arith}
use native.Mathlib.Decide.{dec_lt, dec_le}
use c_embedded_utils.Common.Int.{ℤ, pos, negsuc}
use c_embedded_utils.BsearchIter.{
  BsearchNotification, notify_left, notify_right, notify_eq, notify_err_abort,
}
use c_embedded_utils.BsearchIter.Next.{
  mid, checked, IsSearching, first_gone, first_behind, next_offset,
}
use c_embedded_utils.BsearchIter.Step.{stays}

-- The answers for the indices from `start` to `stop`: none aborts, and the two directions leave no
-- match among these indices behind.
pub record IsTruthful (probe : ℤ → BsearchNotification) (start stop : ℕ) : Type 0 where
  pub before :
      (i j : ℕ)
      → start ≤ i
      → i ≤ stop
      → start ≤ j
      → j ≤ stop
      → probe (pos i) ≡ notify_left
      → probe (pos j) ≡ notify_eq
      → j < i
  pub behind :
      (i j : ℕ)
      → start ≤ i
      → i ≤ stop
      → start ≤ j
      → j ≤ stop
      → probe (pos i) ≡ notify_right
      → probe (pos j) ≡ notify_eq
      → i < j
  pub answers : (i : ℕ) → start ≤ i → i ≤ stop → probe (pos i) ≢ notify_err_abort

-- No index from `start` to `stop` matches.
abbrev pub IsAbsent : (ℤ → BsearchNotification) → ℕ → ℕ → Type 0
IsAbsent probe start stop = (j : ℕ) → start ≤ j → j ≤ stop → probe (pos j) ≢ notify_eq

-- The skips so far have not taken index `j` away.
abbrev pub IsOutside : ℕ → ℕ → ℤ → ℕ → Type 0
IsOutside l r (pos k) j = (j + k ≤ mid l r) ⊎ (mid l r + k ≤ j)
IsOutside l r (negsuc k) j = (j + suc k ≤ mid l r) ⊎ (mid l r + suc k < j)

-- Index `j` may still be reached.
pub record IsLeft (l r : ℕ) (o : ℤ) (j : ℕ) : Type 0 where
  pub from : l ≤ j
  pub to : j ≤ r
  pub outside : IsOutside l r o j

pub IsOutside-zero : (l r j : ℕ) → IsOutside l r (pos 0) j
IsOutside-zero l r j = elim (dec_le j (mid l r)) [
  | yes below ↦ inl (omega arith)
  | no above ↦ inr (omega arith)
]

pub below_gone :
    (l r : ℕ) (o : ℤ) (j : ℕ)
    → IsSearching l r o
    → IsLeft l r o j
    → j < checked l r o
    → j < first_gone l r o
below_gone l r (pos zero) j v a h = omega arith
below_gone l r (pos (suc k)) j v a h = elim a.outside [
  | inl low ↦ omega (arith, v.within)
  | inr high ↦ absurd (omega arith)
]
below_gone l r (negsuc k) j v a h = omega arith

pub above_gone :
    (l r : ℕ) (o : ℤ) (j : ℕ)
    → IsSearching l r o
    → IsLeft l r o j
    → checked l r o < j
    → first_behind l r o ≤ j
above_gone l r (pos k) j v a h = omega arith
above_gone l r (negsuc k) j v a h = elim a.outside [
  | inl low ↦ absurd (omega (arith, v.within))
  | inr high ↦ omega arith
]

pub skipped_other :
    (l r : ℕ) (o : ℤ) (j : ℕ)
    → IsSearching l r o
    → IsLeft l r o j
    → j ≢ checked l r o
    → IsOutside l r (next_offset o) j
skipped_other l r (pos zero) j v a h = elim (dec_lt j (mid l r)) [
  | yes low ↦ inl (omega arith)
  | no high ↦ inr (omega arith)
]
skipped_other l r (pos (suc k)) j v a h = elim a.outside [
  | inl low ↦ inl (omega arith)
  | inr high ↦ inr (omega arith)
]
skipped_other l r (negsuc k) j v a h = elim a.outside [
  | inl low ↦ inl (omega (arith, v.within))
  | inr high ↦ inr (omega arith)
]

-- Where the other side does not exist, every index has been skipped.
pub none_outside :
    (l r : ℕ) (o : ℤ) (j : ℕ)
    → IsSearching l r o
    → l ≤ j
    → j ≤ r
    → stays l r (next_offset o) ≡ false
    → IsOutside l r (next_offset o) j
    → ⊥
none_outside l r (pos zero) j v p q s a = ground (arith, v.within, v.ordered)
none_outside l r (pos (suc k)) j v p q s a = ground (arith, v.within, v.ordered)
none_outside l r (negsuc k) j v p q s a = ground (arith, v.within, v.ordered)
