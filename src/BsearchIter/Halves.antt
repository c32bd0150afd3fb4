-- ===== src/BsearchIter/Halves.antt =====
-- Notifications without skips, and the size of the range that each leaves.
use c_embedded_utils.Common.{
  ℕ, suc, ◌-◌, ◌^◌, ◌<◌, ◌≡◌, ◌≢◌, Bool, true, false, some, List, [], ◌∷◌, arith, length,
}
use native.Mathlib.Nat.{pow-suc}
use native.Mathlib.Decide.{dec_lt, dec_le}
use c_embedded_utils.Common.Int.{pos}
use c_embedded_utils.ErrorCode.{err_none}
use c_embedded_utils.BsearchIter.{
  BsearchIterator, bsearch_continue, BsearchNotification, notify_left, notify_right, notify_eq,
  notify_err_skip, notify_err_abort, int32_max, init, notify, give_up,
}
use c_embedded_utils.BsearchIter.Next.{at, mid, IsSearching, first_behind}
use c_embedded_utils.BsearchIter.Step.{go_left_lem, go_right_lem}
use c_embedded_utils.BsearchIter.Search.{
  notify_all, found, give_up_stays, found_stays, IsSearching-left, IsSearching-right, init_lem,
  start-IsSearching,
}

unfoldable pub no_skips : List BsearchNotification → Bool
no_skips [] = true
no_skips (notify_err_skip ∷ ns) = false
no_skips (notify_left ∷ ns) = no_skips ns
no_skips (notify_right ∷ ns) = no_skips ns
no_skips (notify_eq ∷ ns) = no_skips ns
no_skips (notify_err_abort ∷ ns) = no_skips ns

halves :
    (ns : List BsearchNotification) (l r : ℕ)
    → IsSearching l r (pos 0)
    → no_skips ns ≡ true
    → suc r - l < 2 ^ length ns
    → (final : BsearchIterator) × (notify_all (at l r (pos 0)) ns ≡ some final)
      × (final.status ≢ bsearch_continue)
unfolding notify_all notify no_skips
halves [] l r v e h = absurd (omega (arith, v.ordered))
halves (notify_err_skip ∷ ns) l r v e h = absurd (ground arith)
halves (notify_eq ∷ ns) l r v e h =
    (found (at l r (pos 0)), found_stays (at l r (pos 0)) ns, λ e'. cc)
halves (notify_err_abort ∷ ns) l r v e h =
    (give_up (at l r (pos 0)), give_up_stays (at l r (pos 0)) ns, λ e'. cc)
halves (notify_left ∷ ns) l r v e h = elim (dec_lt l (mid l r)) [
  | yes more ↦
      let (final, ran, done) =
        halves ns l (mid l r - 1) (IsSearching-left l r (pos 0) v more) e
          (omega (arith, v.ordered, pow-suc 2 (length ns))) in
      (final, ground (arith, go_left_lem l r (pos 0) v, ran), done)
  | no over ↦ (
    give_up (at l r (pos 0)),
    ground (arith, go_left_lem l r (pos 0) v, give_up_stays (at l r (pos 0)) ns),
    λ e'. cc,
  )
]
halves (notify_right ∷ ns) l r v e h = elim (dec_le (first_behind l r (pos 0)) r) [
  | yes more ↦
      let (final, ran, done) =
        halves ns (first_behind l r (pos 0)) r (IsSearching-right l r (pos 0) v more) e
          (omega (arith, v.ordered, pow-suc 2 (length ns))) in
      (final, ground (arith, go_right_lem l r (pos 0) v, ran), done)
  | no over ↦ (
    give_up (at l r (pos 0)),
    ground (arith, go_right_lem l r (pos 0) v, give_up_stays (at l r (pos 0)) ns),
    λ e'. cc,
  )
]

-- A search over at least two and fewer than 2 ^ k indices that are not negative, the last of
-- which is below INT32_MAX, ends after k notifications, where none of them is a skip.
pub search_halves :
    (iter : BsearchIterator) (start stop : ℕ) (ns : List BsearchNotification)
    → start < stop
    → stop < int32_max
    → no_skips ns ≡ true
    → suc stop - start < 2 ^ length ns
    → (begun final : BsearchIterator) × (init iter (pos start) (pos stop) ≡ some (err_none, begun))
      × (notify_all begun ns ≡ some final)
      × (final.status ≢ bsearch_continue)
search_halves iter start stop ns h k e few =
    let (final, ran, done) = halves ns start stop (start-IsSearching start stop h k) e few in
    (at start stop (pos 0), final, init_lem iter start stop h k, ran, done)
