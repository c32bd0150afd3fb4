-- ===== src/BsearchIter/Sorted.antt =====
-- The search of a sorted array of integers.
use c_embedded_utils.Common.{
  ℕ, zero, suc, ◌-◌, subst, [], ◌∷◌, ◌≤◌, ◌<◌, ◌≡◌, ◌≢◌, ◌⊎◌, inl, inr, refl, ap, sym, ◌∙◌, Option,
  none, some, List, arith, get_elem?, get_elem?-lt, length, ◌>>=◌,
}
use native.Mathlib.Decide.{dec_lt}
use c_embedded_utils.Common.Int.{ℤ, pos, negsuc, ◌≤ℤ◌, ◌<ℤ◌}
use c_embedded_utils.ErrorCode.{err_none}
use c_embedded_utils.BsearchIter.{
  BsearchIterator, bsearch_done_found, bsearch_done_not_found, BsearchNotification, notify_left,
  notify_right, notify_eq, notify_err_abort, int32_max, init, get_found_index,
}
use c_embedded_utils.BsearchIter.Next.{at}
use c_embedded_utils.BsearchIter.Search.{init_lem, start-IsSearching}
use c_embedded_utils.BsearchIter.Open.{IsTruthful}
use c_embedded_utils.BsearchIter.Array.{compare_to, search_array, search_reading-search, value_at}
use c_embedded_utils.BsearchIter.Loop.{search}
use c_embedded_utils.BsearchIter.Cases.{Outcome}
use c_embedded_utils.BsearchIter.Find.{search_lem}

abbrev pub IsSorted : List ℤ → Type 0
IsSorted array =
    (i j : ℕ) (a b : ℤ) → i ≤ j → get_elem? array i ≡ some a → get_elem? array j ≡ some b → a ≤ℤ b

-- The same by neighbours and their followers, for a concrete array.
abbrev pub IsLeast : ℤ → List ℤ → Type 0
IsLeast x [] = Unit {0}
IsLeast x (y ∷ ys) = (x ≤ℤ y) × IsLeast x ys

abbrev pub IsAscending : List ℤ → Type 0
IsAscending [] = Unit {0}
IsAscending (x ∷ xs) = IsLeast x xs × IsAscending xs

IsLeast-le : (x : ℤ) (xs : List ℤ) (j : ℕ) (b : ℤ) → IsLeast x xs → get_elem? xs j ≡ some b → x ≤ℤ b
IsLeast-le x [] j b h e = cc
IsLeast-le x (y ∷ ys) zero b h e = subst (λ t. x ≤ℤ t) (cc e) h.0
IsLeast-le x (y ∷ ys) (suc j) b h e = IsLeast-le x ys j b h.1 e

pub IsAscending-IsSorted : (array : List ℤ) → IsAscending array → IsSorted array
IsAscending-IsSorted [] h i j a b le e f = cc
IsAscending-IsSorted (x ∷ xs) h zero zero a b le e f =
    let same : a ≡ b = cc (e, f) in subst (λ t. a ≤ℤ t) same (omega arith)
IsAscending-IsSorted (x ∷ xs) h zero (suc j) a b le e f =
    subst (λ t. t ≤ℤ b) (cc e) (IsLeast-le x xs j b h.0 f)
IsAscending-IsSorted (x ∷ xs) h (suc i) zero a b le e f = absurd (omega arith)
IsAscending-IsSorted (x ∷ xs) h (suc i) (suc j) a b le e f =
    IsAscending-IsSorted xs h.1 i j a b (omega arith) e f

le_antisym_ℤ : (a b : ℤ) → a ≤ℤ b → b ≤ℤ a → a ≡ b
le_antisym_ℤ (pos a) (pos b) h k = ap pos (omega arith)
le_antisym_ℤ (pos a) (negsuc b) h k = absurd (omega arith)
le_antisym_ℤ (negsuc a) (pos b) h k = absurd (omega arith)
le_antisym_ℤ (negsuc a) (negsuc b) h k = ap negsuc (omega arith)

module _ (key : ℤ) where
  -- The answer for what stands at an index.
  abbrev answer : Option ℤ → BsearchNotification
  answer none = notify_err_abort
  answer (some value) = compare_to key value

  answer_left : (o : Option ℤ) → answer o ≡ notify_left → (v : ℤ) × (o ≡ some v) × (key <ℤ v)
  answer_left none e = cc
  answer_left (some v) e = (v, refl, ground arith)

  answer_right : (o : Option ℤ) → answer o ≡ notify_right → (v : ℤ) × (o ≡ some v) × (v <ℤ key)
  answer_right none e = cc
  answer_right (some v) e = (v, refl, ground arith)

  answer_eq : (o : Option ℤ) → answer o ≡ notify_eq → o ≡ some key
  answer_eq none e = cc
  answer_eq (some v) e = ap some (le_antisym_ℤ v key (ground arith) (ground arith))

  answer_key : answer (some key) ≡ notify_eq
  answer_key = ground arith

  no_abort : (v : ℤ) → compare_to key v ≢ notify_err_abort
  no_abort v e = ground arith

  -- What the client does with an index, for what it reads there.
  reads :
      (o : Option ℤ)
      → (v : ℤ) × (o ≡ some v)
      → (do value ← o; some (compare_to key value)) ≡ some (answer o)
  reads none (v, e) = cc
  reads (some v) h = refl

  module _ (array : List ℤ) where
    abbrev read_answer : ℤ → Option BsearchNotification
    read_answer index = do value ← value_at array index; some (compare_to key value)

    abbrev probe : ℤ → BsearchNotification
    probe (pos i) = answer (get_elem? array i)
    probe (negsuc i) = notify_err_abort

    probe-IsTruthful :
        (start stop : ℕ) → IsSorted array → stop < length array → IsTruthful probe start stop
    probe-IsTruthful start stop sorted within = record {
      before = λ i j le ge le' ge' e f.
          let (v, there, more) = answer_left (get_elem? array i) e in
          elim (dec_lt j i) [
            | yes h ↦ h
            | no h ↦ absurd (
                omega (
                  arith,
                  more,
                  sorted i j v key (omega arith) there (answer_eq (get_elem? array j) f),
                ))
          ];
      behind = λ i j le ge le' ge' e f.
          let (v, there, less) = answer_right (get_elem? array i) e in
          elim (dec_lt i j) [
            | yes h ↦ h
            | no h ↦ absurd (
                omega (
                  arith,
                  less,
                  sorted j i key v (omega arith) (answer_eq (get_elem? array j) f) there,
                ))
          ];
      answers = λ i le le' e.
          let (v, there) = get_elem?-lt array i (omega arith) in
          no_abort v (sym (ap answer there) ∙ e);
    }

    -- The search has found the key between the ends, or it is not there.
    abbrev pub Located : ℕ → ℕ → BsearchIterator → Type 0
    Located start stop final =
        ((i : ℕ) × (start ≤ i)
          × (i ≤ stop)
          × (get_elem? array i ≡ some key)
          × (final.status ≡ bsearch_done_found)
          × (get_found_index final ≡ some (pos i)))
        ⊎ ((final.status ≡ bsearch_done_not_found)
            × (get_found_index final ≡ some (negsuc 0))
            × ((j : ℕ) → start ≤ j → j ≤ stop → get_elem? array j ≢ some key))

    located :
        (start stop : ℕ) (final : BsearchIterator)
        → Outcome probe start stop final
        → Located start stop final
    located start stop final (inl (i, low, high, matches, status, index)) =
        inl (i, low, high, answer_eq (get_elem? array i) matches, status, index)
    located start stop final (inr (status, index, absent)) =
        inr (status, index, λ j low high e. absent j low high (ap answer e ∙ answer_key))

-- A client that searches a sorted array of integers between two different indices of it, the
-- first below the second and the second below INT32_MAX, reads inside the array only and ends
-- after at most as many rounds as there are indices: it is given an index of the key between the
-- two, or -1 if the key is not there.
pub search_array_lem :
    (array : List ℤ) (key : ℤ) (iter : BsearchIterator) (start stop : ℕ)
    → IsSorted array
    → start < stop
    → stop < length array
    → stop < int32_max
    → (begun final : BsearchIterator) × (init iter (pos start) (pos stop) ≡ some (err_none, begun))
      × (search_array array key (suc (suc stop - start)) begun ≡ some final)
      × Located key array start stop final
unfolding search_array
search_array_lem array key iter start stop sorted h within small =
    let truthful = probe-IsTruthful key array start stop sorted within in
    let (begun, final, made, ran, out) =
      search_lem (probe key array) iter start stop truthful h small in
    let same : begun ≡ at start stop (pos 0) = cc (made, init_lem iter start stop h small) in
    let rounds = suc (suc stop - start) in
    let alike =
      search_reading-search (read_answer key array) (probe key array) start stop
        (λ i le le'. reads key (get_elem? array i) (get_elem?-lt array i (omega arith))) rounds
        start stop (pos 0) (start-IsSearching start stop h small) (omega arith) (omega arith) in
    (
      begun,
      final,
      made,
      ap (search_array array key rounds) same
          ∙ alike
          ∙ ap (search (probe key array) rounds) (sym same)
          ∙ ran,
      located key array start stop final out,
    )
