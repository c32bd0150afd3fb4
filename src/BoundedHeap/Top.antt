-- ===== src/BoundedHeap/Top.antt =====
-- The root of a heap, compared with the elements below it.
use c_embedded_utils.Common.{
  ℕ, suc, ◌≤◌, ◌≡◌, refl, Bool, true, false, not, ◌&&◌, some, List, [], ◌∷◌, arith, length,
  get_elem?, take, Bool-cases, inl, inr, get_elem?-ge,
}
use native.Mathlib.Decide.{dec_lt, ℕ_discrete}
use c_embedded_utils.BoundedHeap.Order.{IsComparison, IsHeap, in_order, root_above}
use c_embedded_utils.BoundedHeap.Swap.{get_elem?-take, length-take}

module _ {A : Type 0} where
  -- The element does not have to be swapped with any of the list as its child.
  unfoldable pub is_top : (A → A → Bool) → A → List A → Bool
  is_top compare root [] = true
  is_top compare root (x ∷ xs) = not (compare root x) && is_top compare root xs

  is_top_lem :
      (compare : A → A → Bool) (root : A) (xs : List A)
      → ((i : ℕ) (x : A) → get_elem? xs i ≡ some x → compare root x ≡ false)
      → is_top compare root xs ≡ true
  unfolding is_top
  is_top_lem compare root [] h = refl
  is_top_lem compare root (x ∷ xs) h =
      ground (arith, h 0 x refl, is_top_lem compare root xs (λ i. h (suc i)))

  pub in_order-some :
      (compare : A → A → Bool) (a b : A)
      → in_order compare (some a) (some b) ≡ true
      → compare a b ≡ false
  unfolding in_order
  in_order-some compare a b e = ground arith

  pub root-is_top :
      (compare : A → A → Bool) (n : ℕ) (storage : List A) (root : A)
      → IsComparison compare
      → IsHeap compare n storage
      → n ≤ length storage
      → get_elem? storage 0 ≡ some root
      → is_top compare root (take n storage) ≡ true
  root-is_top compare n storage root laws h inside e =
      is_top_lem compare root (take n storage) below
    where
      below : (i : ℕ) (x : A) → get_elem? (take n storage) i ≡ some x → compare root x ≡ false
      below i x f = elim (dec_lt i n) [
        | no out ↦ absurd (
            ground (
              arith,
              get_elem?-ge (take n storage) i (omega (arith, length-take n storage inside)),
            ))
        | yes here ↦ elim (ℕ_discrete i 0) [
          | yes top ↦ elim (Bool-cases (compare root root)) [
            | inl bad ↦ absurd (ground (arith, laws.asymmetric root root))
            | inr good ↦ ground (arith, get_elem?-take n storage i here)
          ]
          | no inner ↦ in_order-some compare root x (
              ground (
                arith,
                get_elem?-take n storage i here,
                root_above compare laws n storage h i (omega arith) here,
              ))
        ]
      ]
