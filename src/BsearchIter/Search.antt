-- ===== src/BsearchIter/Search.antt =====
-- Any notifications to an iterator in sequence, and the indices that each leaves to be checked.
use c_embedded_utils.Common.{
  ℕ, zero, suc, ◌+◌, ◌*◌, ◌-◌, ◌≤◌, ◌<◌, ◌≡◌, ◌≢◌, inl, inr, refl, true, Option, some, List, [],
  ◌∷◌, arith, length, ◌>>=◌, Bool-cases,
}
use native.Mathlib.Decide.{dec_lt, dec_le}
use c_embedded_utils.Common.Int.{ℤ, pos, negsuc}
use c_embedded_utils.ErrorCode.{err_none}
use c_embedded_utils.BsearchIter.{
  BsearchIterator, bsearch_continue, bsearch_done_found, BsearchNotification, notify_left,
  notify_right, notify_eq, notify_err_skip, notify_err_abort, int32_max, init, notify, give_up,
}
use c_embedded_utils.BsearchIter.Next.{
  at, Within, IsSearching, first_gone, first_behind, next_offset, get_midpoint_safe_lem,
}
use c_embedded_utils.BsearchIter.Step.{stays, go_left_lem, go_right_lem, skip_lem}

-- Any notifications in sequence.
unfoldable pub notify_all : BsearchIterator → List BsearchNotification → Option BsearchIterator
notify_all iter [] = some iter
notify_all iter (n ∷ ns) = do iter' ← notify iter n; notify_all iter' ns

abbrev pub found : BsearchIterator → BsearchIterator
found iter = record iter { status = bsearch_done_found }

pub give_up_stays :
    (iter : BsearchIterator) (ns : List BsearchNotification)
    → notify_all (give_up iter) ns ≡ some (give_up iter)
unfolding notify_all notify
give_up_stays iter [] = refl
give_up_stays iter (n ∷ ns) = give_up_stays iter ns

pub found_stays :
    (iter : BsearchIterator) (ns : List BsearchNotification)
    → notify_all (found iter) ns ≡ some (found iter)
unfolding notify_all notify
found_stays iter [] = refl
found_stays iter (n ∷ ns) = found_stays iter ns

-- How many indices the skips have taken away.
abbrev pub gone_count : ℤ → ℕ
gone_count (pos zero) = 0
gone_count (pos (suc k)) = 2 * k + 1
gone_count (negsuc k) = 2 * k + 2

pub some_left : (l r : ℕ) (o : ℤ) → IsSearching l r o → gone_count o < suc r - l
some_left l r (pos zero) v = omega (arith, v.ordered)
some_left l r (pos (suc k)) v = omega (arith, v.ordered, v.within)
some_left l r (negsuc k) v = omega (arith, v.ordered, v.within)

pub fewer_left : (l r : ℕ) (o : ℤ) → IsSearching l r o → first_gone l r o + gone_count o ≤ r
fewer_left l r (pos zero) v = omega (arith, v.ordered)
fewer_left l r (pos (suc k)) v = omega (arith, v.ordered, v.within)
fewer_left l r (negsuc k) v = omega (arith, v.ordered, v.within)

pub fewer_right : (l r : ℕ) (o : ℤ) → IsSearching l r o → l + gone_count o < first_behind l r o
fewer_right l r (pos zero) v = omega (arith, v.ordered)
fewer_right l r (pos (suc k)) v = omega (arith, v.ordered, v.within)
fewer_right l r (negsuc k) v = omega (arith, v.ordered, v.within)

pub fewer_skip : (o : ℤ) → gone_count (next_offset o) ≡ suc (gone_count o)
fewer_skip (pos zero) = refl
fewer_skip (pos (suc k)) = omega arith
fewer_skip (negsuc k) = omega arith

pub IsSearching-left :
    (l r : ℕ) (o : ℤ)
    → IsSearching l r o
    → l < first_gone l r o
    → IsSearching l (first_gone l r o - 1) (pos 0)
IsSearching-left l r o v h =
    let few = fewer_left l r o v in
    record { ordered = omega arith; small = omega (arith, v.small); within = omega arith }

pub IsSearching-right :
    (l r : ℕ) (o : ℤ)
    → IsSearching l r o
    → first_behind l r o ≤ r
    → IsSearching (first_behind l r o) r (pos 0)
IsSearching-right l r o v h = record { ordered = h; small = v.small; within = omega arith }

stays-Within : (l r : ℕ) (o : ℤ) → stays l r o ≡ true → Within l r o
stays-Within l r (pos k) h = ground arith
stays-Within l r (negsuc k) h = ground arith

pub IsSearching-skip :
    (l r : ℕ) (o : ℤ)
    → IsSearching l r o
    → stays l r (next_offset o) ≡ true
    → IsSearching l r (next_offset o)
IsSearching-skip l r o v h = record {
  ordered = v.ordered;
  small = v.small;
  within = stays-Within l r (next_offset o) h;
}

-- After as many notifications as indices are left, of any kind, the search is over.
search_from_ends :
    (ns : List BsearchNotification) (l r : ℕ) (o : ℤ)
    → IsSearching l r o
    → suc r - l ≤ gone_count o + length ns
    → (final : BsearchIterator) × (notify_all (at l r o) ns ≡ some final)
      × (final.status ≢ bsearch_continue)
unfolding notify_all notify
search_from_ends [] l r o v h = absurd (omega (arith, some_left l r o v))
search_from_ends (notify_eq ∷ ns) l r o v h = (found (at l r o), found_stays (at l r o) ns, λ e. cc)
search_from_ends (notify_err_abort ∷ ns) l r o v h =
    (give_up (at l r o), give_up_stays (at l r o) ns, λ e. cc)
search_from_ends (notify_left ∷ ns) l r o v h = elim (dec_lt l (first_gone l r o)) [
  | yes more ↦
      let (final, ran, done) =
        search_from_ends ns l (first_gone l r o - 1) (pos 0) (IsSearching-left l r o v more)
          (omega (arith, fewer_left l r o v)) in
      (final, ground (arith, go_left_lem l r o v, ran), done)
  | no over ↦ (
    give_up (at l r o),
    ground (arith, go_left_lem l r o v, give_up_stays (at l r o) ns),
    λ e. cc,
  )
]
search_from_ends (notify_right ∷ ns) l r o v h = elim (dec_le (first_behind l r o) r) [
  | yes more ↦
      let (final, ran, done) =
        search_from_ends ns (first_behind l r o) r (pos 0) (IsSearching-right l r o v more)
          (omega (arith, fewer_right l r o v)) in
      (final, ground (arith, go_right_lem l r o v, ran), done)
  | no over ↦ (
    give_up (at l r o),
    ground (arith, go_right_lem l r o v, give_up_stays (at l r o) ns),
    λ e. cc,
  )
]
search_from_ends (notify_err_skip ∷ ns) l r o v h = elim (Bool-cases (stays l r (next_offset o))) [
  | inl more ↦
      let (final, ran, done) =
        search_from_ends ns l r (next_offset o) (IsSearching-skip l r o v more)
          (omega (arith, fewer_skip o)) in
      (final, ground (arith, skip_lem l r o v, ran), done)
  | inr over ↦ (
    give_up (at l r (next_offset o)),
    ground (arith, skip_lem l r o v, give_up_stays (at l r (next_offset o)) ns),
    λ e. cc,
  )
]

pub init_lem :
    (iter : BsearchIterator) (start stop : ℕ)
    → start < stop
    → stop < int32_max
    → init iter (pos start) (pos stop) ≡ some (err_none, at start stop (pos 0))
unfolding init
init_lem iter start stop h k = ground (arith, get_midpoint_safe_lem start stop (omega arith) k)

pub start-IsSearching :
    (start stop : ℕ) → start < stop → stop < int32_max → IsSearching start stop (pos 0)
start-IsSearching start stop h k = record { ordered = omega arith; small = k; within = omega arith }

-- A search over at least two indices that are not negative, the last of which is below INT32_MAX,
-- ends, whatever it is told, after as many notifications as there are indices, and no index
-- overflows.
pub search_ends :
    (iter : BsearchIterator) (start stop : ℕ) (ns : List BsearchNotification)
    → start < stop
    → stop < int32_max
    → suc stop - start ≤ length ns
    → (begun final : BsearchIterator) × (init iter (pos start) (pos stop) ≡ some (err_none, begun))
      × (notify_all begun ns ≡ some final)
      × (final.status ≢ bsearch_continue)
search_ends iter start stop ns h k enough =
    let (final, ran, done) =
      search_from_ends ns start stop (pos 0) (start-IsSearching start stop h k) (omega arith) in
    (at start stop (pos 0), final, init_lem iter start stop h k, ran, done)
