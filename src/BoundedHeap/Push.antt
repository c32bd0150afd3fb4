-- ===== src/BoundedHeap/Push.antt =====
-- `bounded_heap_push` and `bounded_heap_peek`.
use mathlib.Core.List.{Perm, perm_append_singleton}
use mathlib.Core.List.Perm
use c_embedded_utils.Common.{
  ℕ, suc, ◌+◌, ◌%◌, ◌≤◌, ◌<◌, ◌≡◌, refl, true, some, List, ◌∷◌, arith, length, length-set,
  get_elem?, get_elem?-lt, get_elem?-set, set, take, store-lt, size_mod,
}
use c_embedded_utils.ErrorCode.{err_none, err_no_mem}
use c_embedded_utils.BoundedHeap.{BoundedHeap, push, peek, bubble_up, IsShaped, contents}
use c_embedded_utils.BoundedHeap.Order.{IsComparison, IsHeap, parent}
use c_embedded_utils.BoundedHeap.Swap.{take-snoc, take-set_behind}
use c_embedded_utils.BoundedHeap.Up.{IsReordered, IsBubbling, bubble_up_rule, bubble_up_restores}
use c_embedded_utils.BoundedHeap.Top.{is_top, root-is_top}

module _ {A : Type 0} where
  -- `bounded_heap_peek` on a heap that holds an element returns one that no other has to stand above.
  pub heap_peek_lem :
      (heap : BoundedHeap A)
      → IsComparison heap.config.compare
      → IsShaped heap
      → IsHeap heap.config.compare heap.items_in_heap heap.config.heap_storage
      → 0 < heap.items_in_heap
      → (root : A) × (peek heap ≡ some (err_none, some root))
        × (is_top heap.config.compare root (contents heap) ≡ true)
  unfolding peek
  heap_peek_lem heap laws v h some_items =
      let inside : heap.items_in_heap ≤ length heap.config.heap_storage =
        omega (arith, v.fits, v.counted) in
      let (root, e) = get_elem?-lt heap.config.heap_storage 0 (omega arith) in
      (
        root,
        ground (arith, e),
        root-is_top heap.config.compare heap.items_in_heap heap.config.heap_storage root laws h
            inside e,
      )

  -- The new element behind the others.
  added_perm :
      (n : ℕ) (storage : List A) (x : A)
      → n < length storage
      → Perm (take (suc n) (set storage n x)) (x ∷ take n storage)
  added_perm n storage x inside =
      let there : get_elem? (set storage n x) n ≡ some x =
        ground (arith, get_elem?-set storage n n x inside) in
      rw (take-snoc n (set storage n x) x there, take-set_behind n storage x)
        (perm_append_singleton x (take n storage))

  push_of_bubble_up :
      (heap : BoundedHeap A) (x : A) (after : List A)
      → IsShaped heap
      → heap.items_in_heap < heap.heap_max_size
      → bubble_up
          (suc heap.items_in_heap)
          heap.config.compare
          (set heap.config.heap_storage heap.items_in_heap x)
          heap.items_in_heap
        ≡ some after
      → push heap x
        ≡ some (
          err_none,
          record heap {
            config = record heap.config { heap_storage = after };
            items_in_heap = suc heap.items_in_heap;
          },
        )
  unfolding push bubble_up
  push_of_bubble_up heap x after v room e =
      let stored = store-lt heap.config.heap_storage heap.items_in_heap x (omega (arith, v.fits)) in
      let next : (heap.items_in_heap + 1) % size_mod ≡ suc heap.items_in_heap =
        omega (arith, v.sized) in
      ground (arith, stored, next, v.sized)

  -- What `bounded_heap_push` leaves behind: the element is added, and nothing is lost.
  pub record IsPushed (heap : BoundedHeap A) (x : A) (heap' : BoundedHeap A) : Type 0 where
    pub added : Perm (contents heap') (x ∷ contents heap)
    pub shaped : IsShaped heap'
    pub same_limit : heap'.heap_max_size ≡ heap.heap_max_size
    pub same_compare : heap'.config.compare ≡ heap.config.compare
    pub one_more : heap'.items_in_heap ≡ suc heap.items_in_heap

  pushed_lem :
      (heap : BoundedHeap A) (x : A) (after : List A)
      → IsShaped heap
      → heap.items_in_heap < heap.heap_max_size
      → IsReordered
          (suc heap.items_in_heap)
          (set heap.config.heap_storage heap.items_in_heap x)
          after
      → IsPushed heap x (record heap {
        config = record heap.config { heap_storage = after };
        items_in_heap = suc heap.items_in_heap;
      })
  pushed_lem heap x after v room r = record {
    added =
        Perm.trans r.conserves
          (added_perm heap.items_in_heap heap.config.heap_storage x (omega (arith, v.fits)));
    shaped = record {
      fits =
          omega (
            arith,
            v.fits,
            r.same_length,
            length-set heap.config.heap_storage heap.items_in_heap x,
          );
      sized = v.sized;
      counted = omega arith;
    };
    same_limit = refl;
    same_compare = refl;
    one_more = refl;
  }

  -- A push with room ends, faults nowhere, and loses nothing, whether or not the storage is a heap.
  pub push_room :
      (heap : BoundedHeap A) (x : A)
      → IsShaped heap
      → heap.items_in_heap < heap.heap_max_size
      → (heap' : BoundedHeap A) × (push heap x ≡ some (err_none, heap')) × IsPushed heap x heap'
  push_room heap x v room =
      let (after, last, done, _, _, r) =
        bubble_up_rule heap.config.compare (suc heap.items_in_heap) (omega (arith, v.sized))
          (λ _ _. Unit {0}) (λ _ _ _ _ _ _ _ _ _ _ _. tt) (suc heap.items_in_heap)
          (set heap.config.heap_storage heap.items_in_heap x) heap.items_in_heap (omega arith)
          (omega arith)
          (omega (arith, v.fits, length-set heap.config.heap_storage heap.items_in_heap x)) tt in
      (_, push_of_bubble_up heap x after v room done, pushed_lem heap x after v room r)

  pub push_full :
      (heap : BoundedHeap A) (x : A)
      → IsShaped heap
      → heap.items_in_heap ≡ heap.heap_max_size
      → push heap x ≡ some (err_no_mem, heap)
  unfolding push
  push_full heap x v full = ground (arith, v.sized)

  appended-IsBubbling :
      (heap : BoundedHeap A) (x : A)
      → IsShaped heap
      → heap.items_in_heap < heap.heap_max_size
      → IsHeap heap.config.compare heap.items_in_heap heap.config.heap_storage
      → IsBubbling heap.config.compare
          (suc heap.items_in_heap)
          (set heap.config.heap_storage heap.items_in_heap x)
          heap.items_in_heap
  appended-IsBubbling heap x v room h =
      let at = λ (c : ℕ).
        get_elem?-set heap.config.heap_storage heap.items_in_heap c x (omega (arith, v.fits)) in
      record {
        inside = omega arith;
        edges = λ c pos below there. ground (arith, at c, at (parent c), h c);
        bridged = λ c pos below e some_items. absurd (omega arith);
      }

  -- `bounded_heap_push` on a heap with room adds the element, gives a heap again, and faults nowhere.
  pub heap_push_lem :
      (heap : BoundedHeap A) (x : A)
      → IsComparison heap.config.compare
      → IsShaped heap
      → IsHeap heap.config.compare heap.items_in_heap heap.config.heap_storage
      → heap.items_in_heap < heap.heap_max_size
      → (heap' : BoundedHeap A) × (push heap x ≡ some (err_none, heap'))
        × IsPushed heap x heap'
        × IsHeap heap.config.compare heap'.items_in_heap heap'.config.heap_storage
  heap_push_lem heap x laws v h room =
      let (after, done, ordered, r) =
        bubble_up_restores heap.config.compare laws (suc heap.items_in_heap)
          (set heap.config.heap_storage heap.items_in_heap x) heap.items_in_heap
          (omega (arith, v.fits, length-set heap.config.heap_storage heap.items_in_heap x))
          (omega (arith, v.sized)) (appended-IsBubbling heap x v room h) in
      (_, push_of_bubble_up heap x after v room done, pushed_lem heap x after v room r, ordered)
