-- ===== src/BsearchIter/Tests.antt =====
-- Searches in small arrays, one of whose cells cannot be read, and the theorems at these.
use c_embedded_utils.Common.{
  ◌≡◌, ◌≢◌, refl, none, some, List, [], ◌∷◌, arith, ltb, ◌==◌, if◌then◌else◌,
}
use c_embedded_utils.Common.Int.{ℤ, pos, negsuc, ◌+ℤ◌, ◌-ℤ◌}
use c_embedded_utils.ErrorCode.{err_none}
use c_embedded_utils.BsearchIter.{
  BsearchIterator, bsearch_continue, bsearch_done_found, BsearchNotification, notify_left,
  notify_right, notify_eq, notify_err_skip, notify_err_abort, init, notify, get_check_index, int32,
}
use c_embedded_utils.BsearchIter.Next.{at}
use c_embedded_utils.BsearchIter.Search.{notify_all, search_ends}
use c_embedded_utils.BsearchIter.Halves.{no_skips, search_halves}
use c_embedded_utils.BsearchIter.Open.{IsTruthful}
use c_embedded_utils.BsearchIter.Loop.{search}
use c_embedded_utils.BsearchIter.Cases.{Outcome}
use c_embedded_utils.BsearchIter.Find.{search_lem}
use c_embedded_utils.BsearchIter.Array.{search_array}
use c_embedded_utils.BsearchIter.Sorted.{IsSorted, IsAscending-IsSorted, Located, search_array_lem}

-- A match at index 1 of seven; index 3, the middle, cannot be read.
abbrev probe : ℤ → BsearchNotification
probe (pos i) =
    if i == 3
    then notify_err_skip
    else if i == 1
    then notify_eq
    else if ltb i 1
    then notify_right
    else notify_left
probe (negsuc i) = notify_err_abort

probe-IsTruthful : IsTruthful probe 0 6
probe-IsTruthful = record {
  before = λ i j a b c d e f. ground arith;
  behind = λ i j a b c d e f. ground arith;
  answers = λ i a b e. ground arith;
}

search-probe :
    search probe 8 (at 0 6 (pos 0)) ≡ some (record (at 0 2 (pos 0)) { status = bsearch_done_found })
unfolding search get_check_index notify int32 ◌+ℤ◌ ◌-ℤ◌
search-probe = refl

search_lem_example :
    (begun final : BsearchIterator) × (init (at 9 9 (pos 0)) (pos 0) (pos 6)
      ≡ some (err_none, begun))
    × (search probe 8 begun ≡ some final)
    × Outcome probe 0 6 final
search_lem_example =
    search_lem probe (at 9 9 (pos 0)) 0 6 probe-IsTruthful (omega arith) (omega arith)

abbrev told : List BsearchNotification
told = notify_err_skip ∷ notify_err_skip ∷ notify_left ∷ notify_right ∷ []

search_ends_example :
    (begun final : BsearchIterator) × (init (at 9 9 (pos 0)) (pos 2) (pos 5)
      ≡ some (err_none, begun))
    × (notify_all begun told ≡ some final)
    × (final.status ≢ bsearch_continue)
search_ends_example =
    search_ends (at 9 9 (pos 0)) 2 5 told (omega arith) (omega arith) (omega arith)

abbrev directions : List BsearchNotification
directions = notify_right ∷ notify_right ∷ notify_left ∷ []

search_halves_example :
    (begun final : BsearchIterator) × (init (at 9 9 (pos 0)) (pos 0) (pos 6)
      ≡ some (err_none, begun))
    × (notify_all begun directions ≡ some final)
    × (final.status ≢ bsearch_continue)
unfolding no_skips
search_halves_example =
    search_halves (at 9 9 (pos 0)) 0 6 directions (omega arith) (omega arith) refl (omega arith)

abbrev five : List ℤ
five = negsuc 4 ∷ pos 0 ∷ pos 3 ∷ pos 3 ∷ pos 9 ∷ []

five-IsSorted : IsSorted five
five-IsSorted = IsAscending-IsSorted five (omega arith)

search_array_lem_example :
    (begun final : BsearchIterator) × (init (at 9 9 (pos 0)) (pos 0) (pos 4)
      ≡ some (err_none, begun))
    × (search_array five (pos 9) 6 begun ≡ some final)
    × Located (pos 9) five 0 4 final
search_array_lem_example =
    search_array_lem five (pos 9) (at 9 9 (pos 0)) 0 4 five-IsSorted (omega arith) (omega arith)
      (omega arith)

-- As many integers as the stop index, as in the example of the header: a key above them all makes the
-- search ask for the index behind the array.
header_example-faults :
    (init (at 9 9 (pos 0)) (pos 0) (pos 5) ≡ some (err_none, at 0 5 (pos 0)))
    × (search_array five (pos 10) 7 (at 0 5 (pos 0)) ≡ none)
unfolding search_array init get_check_index notify int32 ◌+ℤ◌ ◌-ℤ◌
header_example-faults = (refl, refl)
