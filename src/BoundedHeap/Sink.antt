-- ===== src/BoundedHeap/Sink.antt =====
-- The loop of `bounded_heap_pop`, and the heap order among the nodes with two children.
use c_embedded_utils.Common.{
  ℕ, suc, ◌+◌, ◌*◌, ◌≤◌, ◌<◌, ◌≡◌, ◌≢◌, Bool, true, some, List, arith, length, get_elem?, inl, inr,
  size_mod, subst, sym,
}
use native.Mathlib.Decide.{ℕ_discrete}
use c_embedded_utils.BoundedHeap.{sift_down}
use c_embedded_utils.BoundedHeap.Order.{
  IsComparison, IsHeapOfPairs, parent, in_order, in_order_trans, in_order_swapped, in_order_kept,
}
use c_embedded_utils.BoundedHeap.Swap.{IsSwapped}
use c_embedded_utils.BoundedHeap.Up.{IsReordered}
use c_embedded_utils.BoundedHeap.Down.{IsStep, sift_down_rule}

module _ {A : Type 0} (compare : A → A → Bool) where
  -- The edges between `i` and its children may be out of order, as may be a lone left child.
  pub record IsSinking (size : ℕ) (storage : List A) (i : ℕ) : Type 0 where
    pub edges :
        (c : ℕ)
        → 0 < c
        → 2 * parent c + 2 < size
        → parent c ≢ i
        → in_order compare (get_elem? storage (parent c)) (get_elem? storage c) ≡ true
    pub bridged :
        (c : ℕ)
        → 0 < c
        → 2 * parent c + 2 < size
        → parent c ≡ i
        → 0 < i
        → in_order compare (get_elem? storage (parent i)) (get_elem? storage c) ≡ true

  module _ (laws : IsComparison compare) where
    child_above_parent :
        (storage : List A) (i j k : ℕ)
        → IsStep compare storage i j k
        → in_order compare (get_elem? storage j) (get_elem? storage i) ≡ true
    child_above_parent storage i j k s =
        rw (s.at_child, s.at_parent)
          (in_order_swapped compare laws s.parent_value s.child_value s.chosen)

    child_above_sibling :
        (storage : List A) (i j k : ℕ)
        → IsStep compare storage i j k
        → in_order compare (get_elem? storage j) (get_elem? storage k) ≡ true
    child_above_sibling storage i j k s =
        rw (s.at_child, s.at_sibling)
          (elim s.best [
            | inl kept ↦
                in_order_trans compare laws (some s.child_value) (some s.parent_value)
                  (some s.sibling_value)
                  (in_order_swapped compare laws s.parent_value s.child_value s.chosen)
                  (in_order_kept compare s.parent_value s.sibling_value kept)
            | inr (inl kept) ↦ in_order_kept compare s.child_value s.sibling_value kept
            | inr (inr turned) ↦ in_order_swapped compare laws s.sibling_value s.child_value turned
          ])

    swap-IsSinking :
        (n : ℕ) (before after : List A) (i j k : ℕ)
        → IsSinking n before i
        → IsStep compare before i j k
        → IsSwapped i j before after
        → 2 * i + 2 < n
        → IsSinking n after j
    swap-IsSinking n before after i j k v t s two =
        let over = child_above_parent before i j k t in
        let beside = child_above_sibling before i j k t in
        let which = t.children in
        record {
          edges = λ c q r u. ground (arith, s.at c, s.at (parent c), v.edges c, v.bridged j);
          bridged = λ c q r u w. ground (arith, s.at c, s.at (parent j), v.edges c);
        }

    -- An element that is too high in the tree falls to its place.
    pub sift_down_restores :
        (n : ℕ) (storage : List A)
        → n ≤ length storage
        → 2 * n + 2 ≤ size_mod
        → IsSinking n storage 0
        → (after : List A) × (sift_down (suc n) compare n storage 0 ≡ some after)
          × IsHeapOfPairs compare n after
          × IsReordered n storage after
    sift_down_restores n storage inside sized v =
        let (after, last, done, v', settled, r) =
          sift_down_rule compare n sized (IsSinking n) (swap-IsSinking n) (suc n) storage 0
            (omega arith) (omega arith) inside v in
        (
          after,
          done,
          λ c q k. elim (ℕ_discrete (parent c) last) [
            | yes here ↦
                subst (λ t. in_order compare (get_elem? after t) (get_elem? after c) ≡ true)
                  (sym here) (settled c q here (omega arith))
            | no there ↦ v'.edges c q k there
          ],
          r,
        )
