-- ===== src/BsearchIter/Cases.antt =====
-- One round of the client's loop, for each answer.
use c_embedded_utils.Common.{
  ℕ, suc, ◌-◌, ◌≤◌, ◌<◌, ◌≡◌, ◌⊎◌, inl, inr, refl, true, some, arith, Bool-cases, ap,
}
use native.Mathlib.Decide.{dec_lt, dec_le}
use c_embedded_utils.Common.Int.{ℤ, pos, negsuc}
use c_embedded_utils.BsearchIter.{
  BsearchIterator, bsearch_done_not_found, bsearch_done_found, BsearchNotification, notify_left,
  notify_right, notify_eq, notify_err_skip, get_check_index, get_found_index, notify, give_up,
}
use c_embedded_utils.BsearchIter.Next.{
  at, checked, checked_bounds, IsSearching, first_gone, first_behind, next_offset,
  get_check_index_lem,
}
use c_embedded_utils.BsearchIter.Step.{stays, go_left_lem, go_right_lem, skip_lem}
use c_embedded_utils.BsearchIter.Open.{
  IsTruthful, IsAbsent, IsLeft, IsOutside-zero, below_gone, above_gone, skipped_other, none_outside,
}
use c_embedded_utils.BsearchIter.Search.{found}
use c_embedded_utils.BsearchIter.Loop.{search, search_step, search-give_up, search-found}

module _ (probe : ℤ → BsearchNotification) (start stop : ℕ) where
  -- The search has found a match between the ends, or there is none.
  abbrev pub Outcome : BsearchIterator → Type 0
  Outcome final =
      ((i : ℕ) × (start ≤ i)
        × (i ≤ stop)
        × (probe (pos i) ≡ notify_eq)
        × (final.status ≡ bsearch_done_found)
        × (get_found_index final ≡ some (pos i)))
      ⊎ ((final.status ≡ bsearch_done_not_found)
          × (get_found_index final ≡ some (negsuc 0))
          × IsAbsent probe start stop)

  -- Every match may still be reached.
  abbrev pub IsOpen : ℕ → ℕ → ℤ → Type 0
  IsOpen l r o = (j : ℕ) → start ≤ j → j ≤ stop → probe (pos j) ≡ notify_eq → IsLeft l r o j

  found_index :
      (l r : ℕ) (o : ℤ)
      → IsSearching l r o
      → get_found_index (found (at l r o)) ≡ some (pos (checked l r o))
  unfolding get_found_index get_check_index
  found_index l r o v = get_check_index_lem l r o v

  not_found_index : (iter : BsearchIterator) → get_found_index (give_up iter) ≡ some (negsuc 0)
  unfolding get_found_index
  not_found_index iter = refl

  -- How a search from here ends.
  abbrev pub Ends : ℕ → ℕ → ℕ → ℤ → Type 0
  Ends fuel l r o =
      (final : BsearchIterator) × (search probe fuel (at l r o) ≡ some final) × Outcome final

  module _ (l r : ℕ) (o : ℤ) (t : IsTruthful probe start stop) (v : IsSearching l r o)
      (p : start ≤ l) (q : r ≤ stop) (all_open : IsOpen l r o) where
    match_before :
        probe (pos (checked l r o)) ≡ notify_left
        → (j : ℕ) → start ≤ j
        → j ≤ stop
        → probe (pos j) ≡ notify_eq
        → (l ≤ j) × (j < first_gone l r o)
    match_before goes j a b e =
        let here = all_open j a b e in
        let (low, high) = checked_bounds l r o v in
        (
          here.from,
          below_gone l r o j v here
              (t.before (checked l r o) j (omega arith) (omega arith) a b goes e),
        )

    match_behind :
        probe (pos (checked l r o)) ≡ notify_right
        → (j : ℕ) → start ≤ j
        → j ≤ stop
        → probe (pos j) ≡ notify_eq
        → (first_behind l r o ≤ j) × (j ≤ r)
    match_behind goes j a b e =
        let here = all_open j a b e in
        let (low, high) = checked_bounds l r o v in
        (
          above_gone l r o j v here
              (t.behind (checked l r o) j (omega arith) (omega arith) a b goes e),
          here.to,
        )

    match_other : probe (pos (checked l r o)) ≡ notify_err_skip → IsOpen l r (next_offset o)
    match_other skips j a b e =
        let here = all_open j a b e in
        record {
          from = here.from;
          to = here.to;
          outside = skipped_other l r o j v here (λ same. cc (ap (λ i. probe (pos i)) same));
        }

    absent : IsAbsent probe start stop → (offset : ℤ) → Outcome (give_up (at l r offset))
    absent none_there offset = inr (refl, not_found_index (at l r offset), none_there)

    pub left_case :
        (fuel : ℕ)
        → 0 < fuel
        → probe (pos (checked l r o)) ≡ notify_left
        → (l < first_gone l r o
            → IsOpen l (first_gone l r o - 1) (pos 0)
            → Ends fuel l (first_gone l r o - 1) (pos 0))
        → Ends (suc fuel) l r o
    unfolding notify
    left_case fuel more goes continues =
        let before = match_before goes in
        let step = search_step probe fuel l r o v in
        elim (dec_lt l (first_gone l r o)) [
          | yes room ↦
              let (final, ran, out) = continues room (λ j a b e. record {
                from = (before j a b e).0;
                to = omega (arith, (before j a b e).1);
                outside = IsOutside-zero l (first_gone l r o - 1) j;
              }) in
              (final, ground (arith, step, goes, go_left_lem l r o v, ran), out)
          | no none_left ↦ (
            give_up (at l r o),
            ground
                (arith, step, goes, go_left_lem l r o v, search-give_up probe fuel (at l r o) more),
            absent (λ j a b e. absurd (omega (arith, (before j a b e).0, (before j a b e).1))) o,
          )
        ]

    pub right_case :
        (fuel : ℕ)
        → 0 < fuel
        → probe (pos (checked l r o)) ≡ notify_right
        → (first_behind l r o ≤ r
            → IsOpen (first_behind l r o) r (pos 0)
            → Ends fuel (first_behind l r o) r (pos 0))
        → Ends (suc fuel) l r o
    unfolding notify
    right_case fuel more goes continues =
        let behind = match_behind goes in
        let step = search_step probe fuel l r o v in
        elim (dec_le (first_behind l r o) r) [
          | yes room ↦
              let (final, ran, out) = continues room (λ j a b e. record {
                from = (behind j a b e).0;
                to = (behind j a b e).1;
                outside = IsOutside-zero (first_behind l r o) r j;
              }) in
              (final, ground (arith, step, goes, go_right_lem l r o v, ran), out)
          | no none_left ↦ (
            give_up (at l r o),
            ground (
              arith,
              step,
              goes,
              go_right_lem l r o v,
              search-give_up probe fuel (at l r o) more,
            ),
            absent (λ j a b e. absurd (omega (arith, (behind j a b e).0, (behind j a b e).1))) o,
          )
        ]

    pub skip_case :
        (fuel : ℕ)
        → 0 < fuel
        → probe (pos (checked l r o)) ≡ notify_err_skip
        → (stays l r (next_offset o) ≡ true
            → IsOpen l r (next_offset o)
            → Ends fuel l r (next_offset o))
        → Ends (suc fuel) l r o
    unfolding notify
    skip_case fuel more skips continues =
        let others = match_other skips in
        let step = search_step probe fuel l r o v in
        elim (Bool-cases (stays l r (next_offset o))) [
          | inl room ↦
              let (final, ran, out) = continues room others in
              (final, ground (arith, step, skips, skip_lem l r o v, ran), out)
          | inr no_room ↦ (
            give_up (at l r (next_offset o)),
            ground (
              arith,
              step,
              skips,
              skip_lem l r o v,
              search-give_up probe fuel (at l r (next_offset o)) more,
            ),
            absent
                (λ j a b e.
                  let here = others j a b e in
                  none_outside l r o j v here.from here.to no_room here.outside)
                (next_offset o),
          )
        ]

    pub match_case :
        (fuel : ℕ) → 0 < fuel → probe (pos (checked l r o)) ≡ notify_eq → Ends (suc fuel) l r o
    unfolding notify
    match_case fuel more matches =
        let (low, high) = checked_bounds l r o v in
        (
          found (at l r o),
          ground (
            arith,
            search_step probe fuel l r o v,
            matches,
            search-found probe fuel (at l r o) more,
          ),
          inl (checked l r o, omega arith, omega arith, matches, refl, found_index l r o v),
        )
