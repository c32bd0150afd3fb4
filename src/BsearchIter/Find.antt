-- ===== src/BsearchIter/Find.antt =====
-- The client's loop over a source of values that answers truthfully.
use c_embedded_utils.Common.{ℕ, zero, suc, ◌+◌, ◌-◌, ◌≤◌, ◌<◌, ◌≡◌, inl, inr, some, arith}
use c_embedded_utils.Common.Int.{ℤ, pos}
use c_embedded_utils.ErrorCode.{err_none}
use c_embedded_utils.BsearchIter.{BsearchIterator, BsearchNotification, int32_max, init}
use c_embedded_utils.BsearchIter.Next.{
  at, checked, checked_bounds, IsSearching, first_gone, first_behind, next_offset,
}
use c_embedded_utils.BsearchIter.Open.{IsTruthful, IsOutside-zero}
use c_embedded_utils.BsearchIter.Search.{
  gone_count, some_left, fewer_left, fewer_right, fewer_skip, IsSearching-left, IsSearching-right,
  IsSearching-skip, init_lem, start-IsSearching,
}
use c_embedded_utils.BsearchIter.Loop.{search, notification_cases}
use c_embedded_utils.BsearchIter.Cases.{
  Outcome, IsOpen, Ends, left_case, right_case, skip_case, match_case,
}

module _ (probe : ℤ → BsearchNotification) (start stop : ℕ) where
  -- A search that has every match still open ends with one, or with none if there is none.
  search_from :
      (fuel l r : ℕ) (o : ℤ)
      → IsTruthful probe start stop
      → IsSearching l r o
      → start ≤ l
      → r ≤ stop
      → IsOpen probe start stop l r o
      → suc r - l < gone_count o + fuel
      → Ends probe start stop fuel l r o
  search_from zero l r o t v p q opened f = absurd (omega (arith, some_left l r o v))
  search_from (suc fuel) l r o t v p q opened f =
      let (low, high) = checked_bounds l r o v in
      let more : 0 < fuel = omega (arith, some_left l r o v) in
      elim (notification_cases (probe (pos (checked l r o)))) [
        | inl goes ↦ left_case probe start stop l r o t v p q opened fuel more goes (λ room opened'.
            search_from fuel l (first_gone l r o - 1) (pos 0) t (IsSearching-left l r o v room) p
              (omega (arith, fewer_left l r o v)) opened' (omega (arith, fewer_left l r o v)))
        | inr (inl goes) ↦
            right_case probe start stop l r o t v p q opened fuel more goes (λ room opened'.
              search_from fuel (first_behind l r o) r (pos 0) t (IsSearching-right l r o v room)
                (omega (arith, fewer_right l r o v)) q opened' (omega (arith, fewer_right l r o v)))
        | inr (inr (inl matches)) ↦
            match_case probe start stop l r o t v p q opened fuel more matches
        | inr (inr (inr (inl skips))) ↦
            skip_case probe start stop l r o t v p q opened fuel more skips (λ room opened'.
              search_from fuel l r (next_offset o) t (IsSearching-skip l r o v room) p q opened'
                (omega (arith, fewer_skip o)))
        | inr (inr (inr (inr aborts))) ↦
            absurd (t.answers (checked l r o) (omega arith) (omega arith) aborts)
      ]

-- A search over at least two indices that are not negative, the last of which is below INT32_MAX,
-- with an answer for each index that sends the search away from no match among them and that
-- never aborts, but may skip the index: it ends after at most as many rounds as there are
-- indices, and returns an index that matches, or -1 if none does. No index overflows.
pub search_lem :
    (probe : ℤ → BsearchNotification) (iter : BsearchIterator) (start stop : ℕ)
    → IsTruthful probe start stop
    → start < stop
    → stop < int32_max
    → (begun final : BsearchIterator) × (init iter (pos start) (pos stop) ≡ some (err_none, begun))
      × (search probe (suc (suc stop - start)) begun ≡ some final)
      × Outcome probe start stop final
search_lem probe iter start stop t h k =
    let (final, ran, out) =
      search_from probe start stop (suc (suc stop - start)) start stop (pos 0) t
        (start-IsSearching start stop h k) (omega arith) (omega arith)
        (λ j a b e. record { from = a; to = b; outside = IsOutside-zero start stop j })
        (omega arith) in
    (at start stop (pos 0), final, init_lem iter start stop h k, ran, out)
