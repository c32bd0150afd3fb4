-- ===== src/BoundedHeap.antt =====
-- src/collections/bounded_heap.c: a binary heap of pointers in storage of the caller. A pointer is a
-- value of any type. `compare parent child` says that the two have to be swapped. A result `none` is
-- an access outside the storage, or a loop that has run out of fuel; an out-parameter is returned as
-- an option, `none` where it is not written.
pub mod Order
pub mod Swap
pub mod Up
pub mod Down
pub mod Sink
pub mod Top
pub mod Push
pub mod Pop
pub mod Breaks
pub mod Run
pub mod Serve
mod Tests
use c_embedded_utils.Common.{
  ℕ, zero, suc, ◌+◌, ◌*◌, ◌/◌, ◌≤◌, Bool, true, false, not, ◌&&◌, ◌||◌, Option, none, some, List,
  ◌==◌, leb, if◌then◌else◌, add_size, sub_size, mul_size, load, store, ◌>>=◌, size_mod, length,
  take,
}
use c_embedded_utils.ErrorCode.{ErrorCode, err_none, err_invalid_arg, err_no_mem, err_empty}

-- `compare parent child` is true where the two have to be swapped.
abbrev pub BoundedHeapCompareFunc : Type 0 → Type 0
BoundedHeapCompareFunc A = A → A → Bool

pub record BoundedHeapConfig (A : Type 0) : Type 0 where
  pub heap_storage : List A
  pub element_count : ℕ
  pub compare : BoundedHeapCompareFunc A

pub record BoundedHeap (A : Type 0) : Type 0 where
  pub config : BoundedHeapConfig A
  pub items_in_heap : ℕ
  pub heap_max_size : ℕ

abbrev pub get_index_of_parent : ℕ → ℕ
get_index_of_parent index = sub_size index 1 / 2

abbrev pub get_index_of_left_child : ℕ → ℕ
get_index_of_left_child index = add_size (mul_size 2 index) 1

abbrev pub get_index_of_right_child : ℕ → ℕ
get_index_of_right_child index = add_size (mul_size 2 index) 2

module _ {A : Type 0} where
  unfoldable pub validate_config : BoundedHeapConfig A → ErrorCode
  validate_config c = if c.element_count == 0 then err_invalid_arg else err_none

  abbrev pub get_next_empty_index : BoundedHeap A → ℕ
  get_next_empty_index heap = heap.items_in_heap

  abbrev pub get_remaining : BoundedHeap A → ℕ
  get_remaining heap = sub_size heap.heap_max_size heap.items_in_heap

  abbrev pub get_size : BoundedHeap A → ℕ
  get_size heap = heap.items_in_heap

  -- `storage` is the array of the heap.
  abbrev pub get_value_at : List A → ℕ → Option A
  get_value_at storage index = load storage index

  unfoldable pub swap_values_at_index : List A → ℕ → ℕ → Option (List A)
  unfolding store
  swap_values_at_index storage index_a index_b = do
    tmp ← load storage index_a
    value ← load storage index_b
    storage' ← store storage index_a value
    store storage' index_b tmp

  -- On an error the struct keeps what it held before.
  unfoldable pub init : BoundedHeap A → BoundedHeapConfig A → ErrorCode × BoundedHeap A
  unfolding validate_config
  init heap c = elim (validate_config c) [
    | err_none ↦
        (err_none, record { config = c; items_in_heap = 0; heap_max_size = c.element_count })
    | code ↦ (code, heap)
  ]

  unfoldable pub deinit : BoundedHeap A → BoundedHeap A
  deinit heap = record heap { items_in_heap = 0; heap_max_size = 0 }

  unfoldable pub peek : BoundedHeap A → Option (ErrorCode × Option A)
  peek heap =
      if get_size heap == 0
      then some (err_empty, none)
      else do root ← load heap.config.heap_storage 0; some (err_none, some root)

  -- Which child takes the parent's place, if any: the two flags after the arbitration.
  abbrev pub left_child_swap : (A → A → Bool) → A → A → A → Bool
  left_child_swap compare parent left right =
      if compare parent left && compare parent right
      then not (compare left right)
      else compare parent left

  abbrev pub right_child_swap : (A → A → Bool) → A → A → A → Bool
  right_child_swap compare parent left right =
      if compare parent left && compare parent right
      then compare left right
      else compare parent right

  -- The loop of `bounded_heap_pop`, with fuel.
  unfoldable pub sift_down : ℕ → (A → A → Bool) → ℕ → List A → ℕ → Option (List A)
  sift_down zero compare size storage parent_idx = none
  sift_down (suc fuel) compare size storage parent_idx =
      let left_child_idx = get_index_of_left_child parent_idx in
      let right_child_idx = get_index_of_right_child parent_idx in
      elim (leb size left_child_idx || leb size right_child_idx) [
        | true ↦ some storage
        | false ↦ do
          parent ← get_value_at storage parent_idx
          left ← get_value_at storage left_child_idx
          right ← get_value_at storage right_child_idx
          elim (left_child_swap compare parent left right) [
            | true ↦ do
              storage' ← swap_values_at_index storage parent_idx left_child_idx
              sift_down fuel compare size storage' left_child_idx
            | false ↦ elim (right_child_swap compare parent left right) [
              | true ↦ do
                storage' ← swap_values_at_index storage parent_idx right_child_idx
                sift_down fuel compare size storage' right_child_idx
              | false ↦ some storage
            ]
          ]
      ]

  -- Each round goes down one level, so the fuel is enough.
  unfoldable pub pop : BoundedHeap A → Option (ErrorCode × Option A × BoundedHeap A)
  pop heap = if get_size heap == 0 then some (err_empty, none, heap) else do
    root ← load heap.config.heap_storage 0
    let size = sub_size heap.items_in_heap 1
    swapped ← swap_values_at_index heap.config.heap_storage 0 size
    sifted ← sift_down (suc size) heap.config.compare size swapped 0
    some (
      err_none,
      some root,
      record heap { config = record heap.config { heap_storage = sifted }; items_in_heap = size },
    )

  -- The loop of `bounded_heap_push`, with fuel.
  unfoldable pub bubble_up : ℕ → (A → A → Bool) → List A → ℕ → Option (List A)
  bubble_up zero compare storage child_idx = none
  bubble_up (suc fuel) compare storage child_idx = elim (child_idx == 0) [
    | true ↦ some storage
    | false ↦ do
      let parent_idx = get_index_of_parent child_idx
      parent ← get_value_at storage parent_idx
      child ← get_value_at storage child_idx
      elim (compare parent child) [
        | true ↦ do
          storage' ← swap_values_at_index storage parent_idx child_idx
          bubble_up fuel compare storage' parent_idx
        | false ↦ some storage
      ]
  ]

  -- The index falls with each round, so the fuel is enough.
  unfoldable pub push : BoundedHeap A → A → Option (ErrorCode × BoundedHeap A)
  push heap heap_item = if get_remaining heap == 0 then some (err_no_mem, heap) else do
    let child_idx = get_next_empty_index heap
    stored ← store heap.config.heap_storage child_idx heap_item
    let size = add_size heap.items_in_heap 1
    ordered ←
        if size == 1
        then some stored
        else bubble_up (suc child_idx) heap.config.compare stored child_idx
    some (
      err_none,
      record heap { config = record heap.config { heap_storage = ordered }; items_in_heap = size },
    )

  -- The representation invariant. The bound on the size keeps the index of a child below `size_t`:
  -- an array of pointers is far shorter.
  pub record IsShaped (heap : BoundedHeap A) : Type 0 where
    pub fits : heap.heap_max_size ≤ length heap.config.heap_storage
    pub sized : 2 * heap.heap_max_size + 2 ≤ size_mod
    pub counted : heap.items_in_heap ≤ heap.heap_max_size

  -- The elements that the heap holds.
  abbrev pub contents : BoundedHeap A → List A
  contents heap = take heap.items_in_heap heap.config.heap_storage
