-- ===== src/BoundedHeap/Order.antt =====
-- The order that a comparison gives, and the heaps of it.
use c_embedded_utils.Common.{
  ℕ, suc, ◌+◌, ◌*◌, ◌-◌, ◌/◌, ◌%◌, ◌<◌, ◌≡◌, Bool, true, false, not, Option, none, some, List,
  arith, get_elem?, zero, subst,
}
use native.Mathlib.Decide.{ℕ_discrete}

-- What the comparison of a heap has to be: it never asks for two swaps of one pair, and what need
-- not be swapped is a transitive relation.
pub record IsComparison {A : Type 0} (compare : A → A → Bool) : Type 0 where
  pub asymmetric : (a b : A) → compare a b ≡ true → compare b a ≡ false
  pub transitive : (a b c : A) → compare a b ≡ false → compare b c ≡ false → compare a c ≡ false

-- The index of a node's parent.
abbrev pub parent : ℕ → ℕ
parent c = (c - 1) / 2

module _ {A : Type 0} (compare : A → A → Bool) where
  -- Two places of an array hold elements that may stand as parent and child.
  unfoldable pub in_order : Option A → Option A → Bool
  in_order (some a) (some b) = not (compare a b)
  in_order (some a) none = false
  in_order none b = false

  -- Each node below `size` is in order with its parent.
  abbrev pub IsHeap : ℕ → List A → Type 0
  IsHeap size storage =
      (c : ℕ)
      → 0 < c
      → c < size
      → in_order (get_elem? storage (parent c)) (get_elem? storage c) ≡ true

  -- The same for each node, except the last one where it is a left child without a sibling.
  abbrev pub IsHeapOfPairs : ℕ → List A → Type 0
  IsHeapOfPairs size storage =
      (c : ℕ)
      → 0 < c
      → 2 * parent c + 2 < size
      → in_order (get_elem? storage (parent c)) (get_elem? storage c) ≡ true

  pub in_order_kept : (a b : A) → compare a b ≡ false → in_order (some a) (some b) ≡ true
  unfolding in_order
  in_order_kept a b e = ground arith

  module _ (laws : IsComparison compare) where
    pub in_order_trans :
        (x y z : Option A) → in_order x y ≡ true → in_order y z ≡ true → in_order x z ≡ true
    unfolding in_order
    in_order_trans (some a) (some b) (some c) p q = ground (arith, laws.transitive a b c)
    in_order_trans (some a) (some b) none p q = cc
    in_order_trans (some a) none z p q = cc
    in_order_trans none y z p q = cc

    pub in_order_swapped : (a b : A) → compare a b ≡ true → in_order (some b) (some a) ≡ true
    unfolding in_order
    in_order_swapped a b e = ground (arith, laws.asymmetric a b)

    -- With an odd number of nodes every left child has a sibling.
    pub IsHeap-of_pairs :
        (size : ℕ) (storage : List A)
        → size % 2 ≡ 1
        → IsHeapOfPairs size storage
        → IsHeap size storage
    IsHeap-of_pairs size storage odd h c pos below = h c pos (omega arith)

    root_above_below :
        (fuel size : ℕ) (storage : List A)
        → IsHeap size storage
        → (i : ℕ) → 0 < i
        → i < size
        → i < fuel
        → in_order (get_elem? storage 0) (get_elem? storage i) ≡ true
    root_above_below zero size storage h i pos below f = absurd (omega arith)
    root_above_below (suc fuel) size storage h i pos below f = elim (ℕ_discrete (parent i) 0) [
      | yes top ↦
          subst (λ p. in_order (get_elem? storage p) (get_elem? storage i) ≡ true) top
            (h i pos below)
      | no inner ↦
          in_order_trans (get_elem? storage 0) (get_elem? storage (parent i)) (get_elem? storage i)
            (root_above_below fuel size storage h (parent i) (omega arith) (omega arith)
              (omega arith))
            (h i pos below)
    ]

    -- The root of a heap is in order with every other node.
    pub root_above :
        (size : ℕ) (storage : List A)
        → IsHeap size storage
        → (i : ℕ) → 0 < i
        → i < size
        → in_order (get_elem? storage 0) (get_elem? storage i) ≡ true
    root_above size storage h i pos below =
        root_above_below (suc i) size storage h i pos below (omega arith)
