-- ===== src/BoundedHeap/Tests.antt =====
-- Runs of a heap of numbers, the lowest at the root, and its theorems at these.
use mathlib.Core.List.{Perm}
use c_embedded_utils.Common.{
  ℕ, ◌≡◌, refl, Bool, true, false, Option, none, some, List, [], ◌∷◌, ◌++◌, arith, ltb, store,
}
use native.Mathlib.Decide.{ℕ_discrete}
use c_embedded_utils.ErrorCode.{ErrorCode, err_none}
use c_embedded_utils.BoundedHeap.{
  BoundedHeap, init, push, pop, peek, sift_down, bubble_up, swap_values_at_index, IsShaped,
  contents,
}
use c_embedded_utils.BoundedHeap.Order.{IsComparison, IsHeap, IsHeapOfPairs, in_order}
use c_embedded_utils.BoundedHeap.Top.{is_top}
use c_embedded_utils.BoundedHeap.Push.{IsPushed, heap_push_lem, heap_peek_lem}
use c_embedded_utils.BoundedHeap.Pop.{IsPopped, heap_pop_lem, IsHeap-pop_even}
use c_embedded_utils.BoundedHeap.Breaks.{heap_pop_breaks}
use c_embedded_utils.BoundedHeap.Serve.{serve, Serves, heap-Serves}
use c_embedded_utils.BoundedHeap.Run.{Op, put, get, run, heap_run_conserves, heap_init_lem}

abbrev lowest_first : ℕ → ℕ → Bool
lowest_first parent child = ltb child parent

lowest_first-IsComparison : IsComparison lowest_first
lowest_first-IsComparison = record {
  asymmetric = λ a b e. ground arith;
  transitive = λ a b c e f. ground arith;
}

abbrev heap_of : ℕ → List ℕ → BoundedHeap ℕ
heap_of n cells = record {
  config = record { heap_storage = cells; element_count = 5; compare = lowest_first };
  items_in_heap = n;
  heap_max_size = 5;
}

abbrev four : BoundedHeap ℕ
four = heap_of 4 (1 ∷ 3 ∷ 2 ∷ 7 ∷ 0 ∷ [])

abbrev three : BoundedHeap ℕ
three = heap_of 3 (1 ∷ 3 ∷ 5 ∷ 0 ∷ 0 ∷ [])

four-IsShaped : IsShaped four
four-IsShaped = omega arith

three-IsShaped : IsShaped three
three-IsShaped = omega arith

four-IsHeap : IsHeap lowest_first 4 (1 ∷ 3 ∷ 2 ∷ 7 ∷ 0 ∷ [])
unfolding in_order
four-IsHeap c pos below = elim (ℕ_discrete c 1) [
  | yes e ↦ rw e refl
  | no a ↦ elim (ℕ_discrete c 2) [
    | yes e ↦ rw e refl
    | no b ↦ let e : c ≡ 3 = omega arith in rw e refl
  ]
]

abbrev script : List (Op ℕ)
script = put 0 ∷ put 9 ∷ get ∷ get ∷ []

run-four : run four script ≡ some (0 ∷ [], 0 ∷ 1 ∷ [], heap_of 3 (2 ∷ 3 ∷ 7 ∷ 1 ∷ 0 ∷ []))
unfolding run push pop sift_down bubble_up swap_values_at_index store
run-four = refl

heap_push_lem_example :
    (heap : BoundedHeap ℕ) × (push four 0 ≡ some (err_none, heap))
    × IsPushed four 0 heap
    × IsHeap lowest_first heap.items_in_heap heap.config.heap_storage
heap_push_lem_example =
    heap_push_lem four 0 lowest_first-IsComparison four-IsShaped four-IsHeap (omega arith)

heap_peek_lem_example :
    (root : ℕ) × (peek four ≡ some (err_none, some root))
    × (is_top lowest_first root (1 ∷ 3 ∷ 2 ∷ 7 ∷ []) ≡ true)
heap_peek_lem_example =
    heap_peek_lem four lowest_first-IsComparison four-IsShaped four-IsHeap (omega arith)

heap_pop_lem_example :
    (root : ℕ) × (heap : BoundedHeap ℕ) × (pop four ≡ some (err_none, some root, heap))
    × IsPopped four root heap
    × (is_top lowest_first root (1 ∷ 3 ∷ 2 ∷ 7 ∷ []) ≡ true)
    × IsHeapOfPairs lowest_first heap.items_in_heap heap.config.heap_storage
heap_pop_lem_example =
    heap_pop_lem four lowest_first-IsComparison four-IsShaped four-IsHeap (omega arith)

IsHeap-pop_even_example :
    (root : ℕ) × (heap : BoundedHeap ℕ) × (pop four ≡ some (err_none, some root, heap))
    × IsHeap lowest_first heap.items_in_heap heap.config.heap_storage
IsHeap-pop_even_example =
    IsHeap-pop_even four lowest_first-IsComparison four-IsShaped four-IsHeap (omega arith) refl

heap_pop_breaks_example :
    (heap : BoundedHeap ℕ) × (pop three ≡ some (err_none, some 1, heap))
    × (contents heap ≡ 5 ∷ 3 ∷ [])
    × (peek heap ≡ some (err_none, some 5))
    × (is_top lowest_first 5 (contents heap) ≡ false)
heap_pop_breaks_example = heap_pop_breaks three 1 3 5 three-IsShaped refl refl refl

heap_run_conserves_example :
    (ins outs : List ℕ) × (final : BoundedHeap ℕ) × (run four script ≡ some (ins, outs, final))
    × IsShaped final
    × Perm (outs ++ contents final) (ins ++ 1 ∷ 3 ∷ 2 ∷ 7 ∷ [])
heap_run_conserves_example = heap_run_conserves script four four-IsShaped

heap_init_lem_example :
    (heap : BoundedHeap ℕ) × (init four (heap_of 0 (4 ∷ 4 ∷ 4 ∷ 4 ∷ 4 ∷ [])).config
      ≡ (err_none, heap))
    × IsShaped heap
    × (contents heap ≡ [])
    × (heap.heap_max_size ≡ 5)
heap_init_lem_example =
    heap_init_lem four (heap_of 0 (4 ∷ 4 ∷ 4 ∷ 4 ∷ 4 ∷ [])).config (omega arith) (omega arith)
      (omega arith)

abbrev unused : BoundedHeap ℕ
unused = heap_of 0 (8 ∷ 8 ∷ 8 ∷ 8 ∷ 8 ∷ [])

abbrev served : List (Op ℕ)
served = put 3 ∷ put 1 ∷ get ∷ put 2 ∷ get ∷ []

serve-unused :
    serve unused served
    ≡ some (
        (err_none, none)
        ∷ (err_none, none)
        ∷ (err_none, some 1)
        ∷ (err_none, none)
        ∷ (err_none, some 2)
        ∷ [])
unfolding serve push pop sift_down bubble_up swap_values_at_index store
serve-unused = refl

heap-Serves_example :
    (begun : BoundedHeap ℕ) × (replies : List (ErrorCode × Option ℕ)) × (init unused unused.config
      ≡ (err_none, begun))
    × (serve begun served ≡ some replies)
    × Serves lowest_first 5 [] served replies
heap-Serves_example =
    heap-Serves unused unused.config served lowest_first-IsComparison (omega arith) (omega arith)
      (omega arith) refl
