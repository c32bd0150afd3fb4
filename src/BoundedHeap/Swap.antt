-- ===== src/BoundedHeap/Swap.antt =====
-- `bounded_heap_swap_values_at_index`: what every index holds after a swap, and the elements as a bag.
use mathlib.Core.List.{Perm}
use mathlib.Core.List.Perm
use c_embedded_utils.Common.{
  ℕ, zero, suc, ◌≤◌, ◌<◌, ◌≡◌, refl, ap, ◌∙◌, subst, some, List, [], ◌∷◌, ◌++◌, arith, length,
  get_elem?, get_elem?-set, set, length-set, take, store-lt, ◌==◌, if◌then◌else◌,
}
use c_embedded_utils.BoundedHeap.{swap_values_at_index}

module _ {A : Type 0} where
  pub get_elem?-take :
      (n : ℕ) (xs : List A) (i : ℕ) → i < n → get_elem? (take n xs) i ≡ get_elem? xs i
  get_elem?-take zero xs i h = absurd (omega arith)
  get_elem?-take (suc n) [] i h = refl
  get_elem?-take (suc n) (x ∷ xs) zero h = refl
  get_elem?-take (suc n) (x ∷ xs) (suc i) h = get_elem?-take n xs i (omega arith)

  pub take-set : (n : ℕ) (xs : List A) (i : ℕ) (v : A) → take n (set xs i v) ≡ set (take n xs) i v
  take-set zero xs i v = refl
  take-set (suc n) [] i v = refl
  take-set (suc n) (x ∷ xs) zero v = refl
  take-set (suc n) (x ∷ xs) (suc i) v = ap (◌∷◌ x) (take-set n xs i v)

  pub length-take : (n : ℕ) (xs : List A) → n ≤ length xs → length (take n xs) ≡ n
  length-take zero xs h = refl
  length-take (suc n) [] h = absurd (omega arith)
  length-take (suc n) (x ∷ xs) h = ap suc (length-take n xs (omega arith))

  pub take-snoc :
      (n : ℕ) (xs : List A) (v : A)
      → get_elem? xs n ≡ some v
      → take (suc n) xs ≡ take n xs ++ v ∷ []
  take-snoc n [] v e = cc
  take-snoc zero (x ∷ xs) v e = ground arith
  take-snoc (suc n) (x ∷ xs) v e = ap (◌∷◌ x) (take-snoc n xs v e)

  -- The first cells do not see a write behind them.
  pub take-set_behind : (n : ℕ) (xs : List A) (v : A) → take n (set xs n v) ≡ take n xs
  take-set_behind zero xs v = refl
  take-set_behind (suc n) [] v = refl
  take-set_behind (suc n) (x ∷ xs) v = ap (◌∷◌ x) (take-set_behind n xs v)

  -- A write gives the old element away and takes the new one in.
  trade :
      (xs : List A) (i : ℕ) (old new : A)
      → get_elem? xs i ≡ some old
      → Perm (old ∷ set xs i new) (new ∷ xs)
  trade [] i old new e = cc
  trade (x ∷ xs) zero old new e =
      let same : x ≡ old = ground arith in
      subst (λ o. Perm (o ∷ new ∷ xs) (new ∷ x ∷ xs)) same (Perm.swap new x xs)
  trade (x ∷ xs) (suc i) old new e =
      let behind = Perm.cons x (trade xs i old new e) in
      Perm.trans (Perm.swap x old (set xs i new)) (Perm.trans behind (Perm.swap new x xs))

  exchange_perm :
      (xs : List A) (i j : ℕ) (x y : A)
      → i < length xs
      → get_elem? xs i ≡ some x
      → get_elem? xs j ≡ some y
      → Perm (set (set xs i y) j x) xs
  exchange_perm xs i j x y inside ei ej =
      let kept : get_elem? (set xs i y) j ≡ some y =
        ground (arith, get_elem?-set xs i j y inside) in
      Perm.cons_inv {a = y} (Perm.trans (trade (set xs i y) j y x kept) (trade xs i x y ei))

  -- What a swap leaves behind.
  pub record IsSwapped (i j : ℕ) (before after : List A) : Type 0 where
    pub same_length : length after ≡ length before
    pub at :
        (c : ℕ)
        → get_elem? after c ≡ (
            if j == c
            then get_elem? before i
            else if i == c
            then get_elem? before j
            else get_elem? before c)
    pub conserves :
        (n : ℕ) → i < n → j < n → n ≤ length before → Perm (take n after) (take n before)

  -- A swap inside the storage succeeds.
  pub swap_lem :
      (xs : List A) (i j : ℕ) (x y : A)
      → i < length xs
      → j < length xs
      → get_elem? xs i ≡ some x
      → get_elem? xs j ≡ some y
      → (after : List A) × (swap_values_at_index xs i j ≡ some after) × IsSwapped i j xs after
  unfolding swap_values_at_index
  swap_lem xs i j x y hi hj ei ej =
      let size = length-set xs i y in
      (
        set (set xs i y) j x,
        rw (ei, ej, store-lt xs i y hi) (store-lt (set xs i y) j x (omega arith)),
        record {
          same_length = length-set (set xs i y) j x ∙ size;
          at = λ c.
              ground
                (arith, get_elem?-set (set xs i y) j c x (omega arith), get_elem?-set xs i c y hi);
          conserves = λ n p q inside.
              let both : take n (set (set xs i y) j x) ≡ set (set (take n xs) i y) j x =
                take-set n (set xs i y) j x ∙ ap (λ t. set t j x) (take-set n xs i y) in
              rw both (
                exchange_perm (take n xs) i j x y (omega (arith, length-take n xs inside))
                  (get_elem?-take n xs i p ∙ ei) (get_elem?-take n xs j q ∙ ej));
        },
      )
