-- ===== src/BoundedHeap/Up.antt =====
-- The loop of `bounded_heap_push`, and the heap order above a new element.
use mathlib.Core.List.{Perm}
use mathlib.Core.List.Perm
use c_embedded_utils.Common.{
  ℕ, zero, suc, ◌≤◌, ◌<◌, ◌≡◌, ◌≢◌, refl, ◌∙◌, Bool, true, some, List, arith, length, get_elem?,
  get_elem?-lt, take, Bool-cases, inl, inr, size_mod,
}
use native.Mathlib.Decide.{ℕ_discrete}
use c_embedded_utils.BoundedHeap.{bubble_up, get_index_of_parent}
use c_embedded_utils.BoundedHeap.Order.{
  IsComparison, IsHeap, parent, in_order, in_order_trans, in_order_swapped, in_order_kept,
}
use c_embedded_utils.BoundedHeap.Swap.{IsSwapped, swap_lem}

-- What the loop leaves behind: a heap of the same elements.
pub record IsReordered {A : Type 0} (size : ℕ) (before after : List A) : Type 0 where
  pub same_length : length after ≡ length before
  pub conserves : Perm (take size after) (take size before)

module _ {A : Type 0} where
  pub IsReordered-swap :
      (n i j : ℕ) (before mid after : List A)
      → IsSwapped i j before mid
      → i < n
      → j < n
      → n ≤ length before
      → IsReordered n mid after
      → IsReordered n before after
  IsReordered-swap n i j before mid after s p q inside r = record {
    same_length = r.same_length ∙ s.same_length;
    conserves = Perm.trans r.conserves (s.conserves n p q inside);
  }

module _ {A : Type 0} (compare : A → A → Bool) where
  -- Only the edge above `i` may be out of order.
  pub record IsBubbling (size : ℕ) (storage : List A) (i : ℕ) : Type 0 where
    pub inside : i < size
    pub edges :
        (c : ℕ)
        → 0 < c
        → c < size
        → c ≢ i
        → in_order compare (get_elem? storage (parent c)) (get_elem? storage c) ≡ true
    pub bridged :
        (c : ℕ)
        → 0 < c
        → c < size
        → parent c ≡ i
        → 0 < i
        → in_order compare (get_elem? storage (parent i)) (get_elem? storage c) ≡ true

  -- The loop ends, faults nowhere and loses nothing. What each swap carries to the parent holds at
  -- the end, where the element is in order with its parent.
  pub bubble_up_rule :
      (n : ℕ)
      → n < size_mod
      → (Inv : List A → ℕ → Type 0)
      → ((before after : List A) (i : ℕ) (p x : A)
          → Inv before i
          → 0 < i
          → get_elem? before (parent i) ≡ some p
          → get_elem? before i ≡ some x
          → compare p x ≡ true
          → IsSwapped (parent i) i before after
          → Inv after (parent i))
      → (fuel : ℕ) (storage : List A) (i : ℕ) → i < fuel
      → i < n
      → n ≤ length storage
      → Inv storage i
      → (after : List A) × (last : ℕ) × (bubble_up fuel compare storage i ≡ some after)
        × Inv after last
        × (0 < last
            → in_order compare (get_elem? after (parent last)) (get_elem? after last) ≡ true)
        × IsReordered n storage after
  unfolding bubble_up
  bubble_up_rule n sized Inv step zero storage i f low inside v = absurd (omega arith)
  bubble_up_rule n sized Inv step (suc fuel) storage i f low inside v = elim (ℕ_discrete i 0) [
    | yes top ↦ (
      storage,
      i,
      ground arith,
      v,
      λ pos. absurd (omega arith),
      record { same_length = refl; conserves = Perm.rfl },
    )
    | no inner ↦
        let pos : 0 < i = omega arith in
        let up : get_index_of_parent i ≡ parent i = omega arith in
        let (p, ep) = get_elem?-lt storage (parent i) (omega arith) in
        let (x, ex) = get_elem?-lt storage i (omega arith) in
        elim (Bool-cases (compare p x)) [
          | inl swaps ↦
              let (mid, swapped, s) =
                swap_lem storage (parent i) i p x (omega arith) (omega arith) ep ex in
              let (after, last, done, v', settled, r) =
                bubble_up_rule n sized Inv step fuel mid (parent i) (omega arith) (omega arith)
                  (omega (arith, s.same_length)) (step storage mid i p x v pos ep ex swaps s) in
              (
                after,
                last,
                ground (arith, up, ep, ex, swaps, swapped, done),
                v',
                settled,
                IsReordered-swap n (parent i) i storage mid after s (omega arith) low inside r,
              )
          | inr keeps ↦ (
            storage,
            i,
            ground (arith, up, ep, ex, keeps),
            v,
            λ pos'. ground (arith, ep, ex, in_order_kept compare p x keeps),
            record { same_length = refl; conserves = Perm.rfl },
          )
        ]
  ]

  module _ (laws : IsComparison compare) where
    swap-IsBubbling :
        (n : ℕ) (before after : List A) (i : ℕ) (p x : A)
        → IsBubbling n before i
        → 0 < i
        → get_elem? before (parent i) ≡ some p
        → get_elem? before i ≡ some x
        → compare p x ≡ true
        → IsSwapped (parent i) i before after
        → IsBubbling n after (parent i)
    swap-IsBubbling n before after i p x v pos ep ex swaps s =
        let turned = in_order_swapped compare laws p x swaps in
        let above = in_order_trans compare laws in
        record {
          inside = omega (arith, v.inside);
          edges = λ c q r t. ground (
            arith,
            s.at c,
            s.at (parent c),
            v.edges c,
            v.bridged c,
            above (some x) (some p) (get_elem? before c),
          );
          bridged = λ c q r t u. ground (
            arith,
            s.at c,
            s.at (parent (parent i)),
            v.edges c,
            v.edges (parent i),
            above (get_elem? before (parent (parent i))) (some p) (get_elem? before c),
          );
        }

    -- An element that is too low in the tree rises to its place.
    pub bubble_up_restores :
        (n : ℕ) (storage : List A) (i : ℕ)
        → n ≤ length storage
        → n < size_mod
        → IsBubbling n storage i
        → (after : List A) × (bubble_up (suc i) compare storage i ≡ some after)
          × IsHeap compare n after
          × IsReordered n storage after
    bubble_up_restores n storage i inside sized v =
        let (after, last, done, v', settled, r) =
          bubble_up_rule n sized (IsBubbling n) (swap-IsBubbling n) (suc i) storage i (omega arith)
            v.inside inside v in
        (
          after,
          done,
          λ c q k. elim (ℕ_discrete c last) [
            | yes here ↦ ground (arith, settled)
            | no there ↦ v'.edges c q k there
          ],
          r,
        )
