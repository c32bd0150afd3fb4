-- ===== src/BoundedHeap/Breaks.antt =====
-- `bounded_heap_pop` where a left child has no sibling.
use c_embedded_utils.Common.{
  ℕ, ◌≡◌, refl, Bool, true, false, some, List, [], ◌∷◌, arith, take, store-lt,
}
use c_embedded_utils.ErrorCode.{err_none}
use c_embedded_utils.BoundedHeap.{
  BoundedHeap, pop, peek, sift_down, swap_values_at_index, IsShaped, contents,
}
use c_embedded_utils.BoundedHeap.Top.{is_top}

module _ {A : Type 0} where
  three_cells :
      (n : ℕ) (xs : List A) (a b c : A)
      → n ≡ 3
      → take n xs ≡ a ∷ b ∷ c ∷ []
      → (rest : List A) × (xs ≡ a ∷ b ∷ c ∷ rest)
  three_cells n [] a b c e h = absurd (ground arith)
  three_cells n (x ∷ []) a b c e h = absurd (ground arith)
  three_cells n (x ∷ y ∷ []) a b c e h = absurd (ground arith)
  three_cells n (x ∷ y ∷ z ∷ rest) a b c e h = (rest, ground arith)

  swap_three :
      (a b c : A) (rest : List A)
      → swap_values_at_index (a ∷ b ∷ c ∷ rest) 0 2 ≡ some (c ∷ b ∷ a ∷ rest)
  unfolding swap_values_at_index
  swap_three a b c rest =
      rw (store-lt (a ∷ b ∷ c ∷ rest) 0 c (omega arith))
        (store-lt (c ∷ b ∷ c ∷ rest) 2 a (omega arith))

  sift_down_two :
      (compare : A → A → Bool) (storage : List A) → sift_down 3 compare 2 storage 0 ≡ some storage
  unfolding sift_down
  sift_down_two compare storage = refl

  -- `bounded_heap_pop` on three elements, the third of which has to be swapped with the second if it
  -- is its parent, puts the third above the second: the heap then peeks at the third.
  pub heap_pop_breaks :
      (heap : BoundedHeap A) (a b c : A)
      → IsShaped heap
      → heap.items_in_heap ≡ 3
      → contents heap ≡ a ∷ b ∷ c ∷ []
      → heap.config.compare c b ≡ true
      → (heap' : BoundedHeap A) × (pop heap ≡ some (err_none, some a, heap'))
        × (contents heap' ≡ c ∷ b ∷ [])
        × (peek heap' ≡ some (err_none, some c))
        × (is_top heap.config.compare c (contents heap') ≡ false)
  unfolding pop peek is_top
  heap_pop_breaks heap a b c v e holds turned =
      let (rest, cells) = three_cells heap.items_in_heap heap.config.heap_storage a b c e holds in
      (
        record heap {
          config = record heap.config { heap_storage = c ∷ b ∷ a ∷ rest };
          items_in_heap = 2;
        },
        ground (
          arith,
          cells,
          swap_three a b c rest,
          sift_down_two heap.config.compare (c ∷ b ∷ a ∷ rest),
        ),
        refl,
        refl,
        ground arith,
      )
