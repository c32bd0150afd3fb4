-- ===== src/BoundedHeap/Pop.antt =====
-- `bounded_heap_pop`.
use mathlib.Core.List.{Perm, perm_append_singleton}
use mathlib.Core.List.Perm
use c_embedded_utils.Common.{
  ℕ, suc, ◌+◌, ◌-◌, ◌%◌, ◌≤◌, ◌<◌, ◌≡◌, refl, sym, true, none, some, List, ◌∷◌, arith, length,
  get_elem?, get_elem?-lt, take, size_mod, subst,
}
use c_embedded_utils.ErrorCode.{err_none, err_empty}
use c_embedded_utils.BoundedHeap.{
  BoundedHeap, pop, sift_down, swap_values_at_index, IsShaped, contents,
}
use c_embedded_utils.BoundedHeap.Order.{
  IsComparison, IsHeap, IsHeapOfPairs, IsHeap-of_pairs, parent,
}
use c_embedded_utils.BoundedHeap.Swap.{IsSwapped, swap_lem, take-snoc}
use c_embedded_utils.BoundedHeap.Up.{IsReordered}
use c_embedded_utils.BoundedHeap.Down.{sift_down_rule}
use c_embedded_utils.BoundedHeap.Sink.{IsSinking, sift_down_restores}
use c_embedded_utils.BoundedHeap.Top.{is_top, root-is_top}

module _ {A : Type 0} where
  -- What `bounded_heap_pop` leaves behind: the root has gone, and nothing else.
  pub record IsPopped (heap : BoundedHeap A) (root : A) (heap' : BoundedHeap A) : Type 0 where
    pub was_root : get_elem? heap.config.heap_storage 0 ≡ some root
    pub removed : Perm (root ∷ contents heap') (contents heap)
    pub shaped : IsShaped heap'
    pub same_limit : heap'.heap_max_size ≡ heap.heap_max_size
    pub same_compare : heap'.config.compare ≡ heap.config.compare
    pub one_fewer : suc heap'.items_in_heap ≡ heap.items_in_heap

  -- The state before the loop, of a heap with `suc n` elements.
  record IsStarted (heap : BoundedHeap A) (n : ℕ) (mid : List A) (root last : A) : Type 0 where
    at_root : get_elem? heap.config.heap_storage 0 ≡ some root
    at_last : get_elem? heap.config.heap_storage n ≡ some last
    swapped : swap_values_at_index heap.config.heap_storage 0 n ≡ some mid
    effect : IsSwapped 0 n heap.config.heap_storage mid
    inside : n ≤ length mid
    apart : Perm (root ∷ take n mid) (contents heap)

  pop_start :
      (heap : BoundedHeap A) (n : ℕ)
      → IsShaped heap
      → heap.items_in_heap ≡ suc n
      → (mid : List A) × (root : A) × (last : A) × IsStarted heap n mid root last
  pop_start heap n v e =
      let enough : suc n ≤ length heap.config.heap_storage = omega (arith, v.fits, v.counted) in
      let (root, er) = get_elem?-lt heap.config.heap_storage 0 (omega arith) in
      let (last, el) = get_elem?-lt heap.config.heap_storage n (omega arith) in
      let (mid, swapped, s) =
        swap_lem heap.config.heap_storage 0 n root last (omega arith) (omega arith) er el in
      let behind : get_elem? mid n ≡ some root = ground (arith, s.at n, er) in
      let whole = s.conserves (suc n) (omega arith) (omega arith) enough in
      let split = Perm.symm (perm_append_singleton root (take n mid)) in
      (
        mid,
        root,
        last,
        record {
          at_root = er;
          at_last = el;
          swapped = swapped;
          effect = s;
          inside = omega (arith, s.same_length);
          apart =
              subst (λ k. Perm (root ∷ take n mid) (take k heap.config.heap_storage)) (sym e)
                (Perm.trans split (
                  subst (λ t. Perm t (take (suc n) heap.config.heap_storage))
                    (take-snoc n mid root behind) whole));
        },
      )

  pop_of_sift_down :
      (heap : BoundedHeap A) (n : ℕ) (mid after : List A) (root last : A)
      → IsShaped heap
      → heap.items_in_heap ≡ suc n
      → IsStarted heap n mid root last
      → sift_down (suc n) heap.config.compare n mid 0 ≡ some after
      → pop heap
        ≡ some (
          err_none,
          some root,
          record heap { config = record heap.config { heap_storage = after }; items_in_heap = n },
        )
  unfolding pop
  pop_of_sift_down heap n mid after root last v e s done =
      let fewer : (heap.items_in_heap + size_mod - 1) % size_mod ≡ n =
        omega (arith, v.sized, v.counted) in
      ground (arith, fewer, s.at_root, s.swapped, done)

  popped_lem :
      (heap : BoundedHeap A) (n : ℕ) (mid after : List A) (root last : A)
      → IsShaped heap
      → heap.items_in_heap ≡ suc n
      → IsStarted heap n mid root last
      → IsReordered n mid after
      → IsPopped heap root
          (record heap { config = record heap.config { heap_storage = after }; items_in_heap = n })
  popped_lem heap n mid after root last v e s r = record {
    was_root = s.at_root;
    removed = Perm.trans (Perm.cons root r.conserves) s.apart;
    shaped = record {
      fits = omega (arith, v.fits, r.same_length, s.effect.same_length);
      sized = v.sized;
      counted = omega (arith, v.counted);
    };
    same_limit = refl;
    same_compare = refl;
    one_fewer = sym e;
  }

  -- A pop of an element ends, faults nowhere, and loses nothing else, whether or not the storage is
  -- a heap.
  pub pop-some :
      (heap : BoundedHeap A) (n : ℕ)
      → IsShaped heap
      → heap.items_in_heap ≡ suc n
      → (root : A) × (heap' : BoundedHeap A) × (pop heap ≡ some (err_none, some root, heap'))
        × IsPopped heap root heap'
  pop-some heap n v e =
      let (mid, root, last, s) = pop_start heap n v e in
      let (after, _, done, _, _, r) =
        sift_down_rule heap.config.compare n (omega (arith, v.sized, v.counted)) (λ _ _. Unit {0})
          (λ _ _ _ _ _ _ _ _ _. tt) (suc n) mid 0 (omega arith) (omega arith) s.inside tt in
      (
        root,
        _,
        pop_of_sift_down heap n mid after root last v e s done,
        popped_lem heap n mid after root last v e s r,
      )

  pub pop_empty :
      (heap : BoundedHeap A) → heap.items_in_heap ≡ 0 → pop heap ≡ some (err_empty, none, heap)
  unfolding pop
  pop_empty heap e = ground arith

  started-IsSinking :
      (heap : BoundedHeap A) (n : ℕ) (mid : List A) (root last : A)
      → IsHeap heap.config.compare heap.items_in_heap heap.config.heap_storage
      → heap.items_in_heap ≡ suc n
      → IsStarted heap n mid root last
      → IsSinking heap.config.compare n mid 0
  started-IsSinking heap n mid root last h e s = record {
    edges = λ c pos two inner. ground (arith, s.effect.at c, s.effect.at (parent c), h c);
    bridged = λ c pos two top some_index. absurd (omega arith);
  }

  -- `bounded_heap_pop` on a heap that holds an element removes the root, than which no element has
  -- to stand higher, and faults nowhere. Afterwards every element is in order with its parent,
  -- except that the last one need not be where it is a left child without a sibling.
  pub heap_pop_lem :
      (heap : BoundedHeap A)
      → IsComparison heap.config.compare
      → IsShaped heap
      → IsHeap heap.config.compare heap.items_in_heap heap.config.heap_storage
      → 0 < heap.items_in_heap
      → (root : A) × (heap' : BoundedHeap A) × (pop heap ≡ some (err_none, some root, heap'))
        × IsPopped heap root heap'
        × (is_top heap.config.compare root (contents heap) ≡ true)
        × IsHeapOfPairs heap.config.compare heap'.items_in_heap heap'.config.heap_storage
  heap_pop_lem heap laws v h some_items =
      let n = heap.items_in_heap - 1 in
      let e : heap.items_in_heap ≡ suc n = omega arith in
      let (mid, root, last, s) = pop_start heap n v e in
      let (after, done, pairs, r) =
        sift_down_restores heap.config.compare laws n mid s.inside
          (omega (arith, v.sized, v.counted)) (started-IsSinking heap n mid root last h e s) in
      (
        root,
        _,
        pop_of_sift_down heap n mid after root last v e s done,
        popped_lem heap n mid after root last v e s r,
        root-is_top heap.config.compare heap.items_in_heap heap.config.heap_storage root laws h
            (omega (arith, v.fits, v.counted)) s.at_root,
        pairs,
      )

  -- `bounded_heap_pop` on a heap with an even number of elements, other than 0, leaves a heap behind.
  pub IsHeap-pop_even :
      (heap : BoundedHeap A)
      → IsComparison heap.config.compare
      → IsShaped heap
      → IsHeap heap.config.compare heap.items_in_heap heap.config.heap_storage
      → 0 < heap.items_in_heap
      → heap.items_in_heap % 2 ≡ 0
      → (root : A) × (heap' : BoundedHeap A) × (pop heap ≡ some (err_none, some root, heap'))
        × IsHeap heap.config.compare heap'.items_in_heap heap'.config.heap_storage
  IsHeap-pop_even heap laws v h some_items even =
      let (root, heap', popped, p, top, pairs) = heap_pop_lem heap laws v h some_items in
      (
        root,
        heap',
        popped,
        IsHeap-of_pairs heap.config.compare laws heap'.items_in_heap heap'.config.heap_storage
            (omega (arith, p.one_fewer)) pairs,
      )
