-- ===== src/CopyQueue/Refine.antt =====
-- One call on a copy queue, against the list of the elements that it holds.
use c_embedded_utils.Common.{
  ℕ, suc, ◌+◌, ◌*◌, ◌%◌, subst, ◌-◌, ◌≤◌, ◌<◌, ◌≡◌, refl, sym, ap, ◌∙◌, none, some, List, [], ◌∷◌,
  ◌++◌, arith, length, get_elem?, size_mod,
}
use c_embedded_utils.Common.Copy.{load_all, load_all-store_all, load_all_of_inside, memcpy}
use c_embedded_utils.ErrorCode.{err_none, err_no_mem, err_empty}
use c_embedded_utils.CopyQueue.{CopyQueue, enqueue, dequeue, peek, get_remaining, get_size}
use c_embedded_utils.CopyQueue.Elements.{
  elements, elements_of_agree, elements_snoc, elements_uncons, memcpy_in, memcpy_out,
  store_all-outside,
}

-- The queue holds `xs`, the oldest element first, from `head_idx` up to `tail_idx`.
pub record IsHolding (q : CopyQueue) (xs : List (List ℕ)) : Type 0 where
  pub stored : elements q.buffer q.head_idx q.element_size q.count ≡ some xs
  pub tail : q.tail_idx ≡ q.head_idx + q.count * q.element_size
  pub tail_in : q.tail_idx ≤ length q.buffer
  pub bounded : q.count ≤ q.max_size
  pub sized : q.max_size < size_mod
  pub buffer_sized : length q.buffer < size_mod

-- A full queue refuses an element.
pub enqueue_full :
    (q : CopyQueue) (x : List ℕ)
    → q.max_size < size_mod
    → q.count ≡ q.max_size
    → enqueue q x ≡ some (err_no_mem, q)
unfolding enqueue get_remaining
enqueue_full q x h e = ground arith

-- A queue that is not full and has room behind its tail takes an element behind the others.
pub enqueue_lem :
    (q : CopyQueue) (xs : List (List ℕ)) (x : List ℕ)
    → IsHolding q xs
    → length x ≡ q.element_size
    → q.count < q.max_size
    → q.tail_idx + q.element_size ≤ length q.buffer
    → (q' : CopyQueue) × (enqueue q x ≡ some (err_none, q'))
      × IsHolding q' (xs ++ x ∷ [])
      × (q'.max_size ≡ q.max_size)
      × (q'.element_size ≡ q.element_size)
      × (q'.count ≡ q.count + 1)
      × (q'.tail_idx ≡ q.tail_idx + q.element_size)
      × (length q'.buffer ≡ length q.buffer)
unfolding enqueue get_remaining
enqueue_lem q xs x v size free room =
    let (after, copied, w) = memcpy_in q.buffer q.tail_idx x (omega (arith, size)) in
    let copied' : memcpy q.buffer q.tail_idx x 0 q.element_size ≡ some after =
      ap (λ n. memcpy q.buffer q.tail_idx x 0 n) (sym size) ∙ copied in
    let read = load_all-store_all q.tail_idx x q.buffer after w in
    let read' : load_all after (q.head_idx + q.count * q.element_size) q.element_size ≡ some x =
      subst (λ t. load_all after t q.element_size ≡ some x) v.tail
        (subst (λ n. load_all after q.tail_idx n ≡ some x) size read) in
    let old =
      elements_of_agree q.buffer after q.head_idx q.element_size q.count
        (λ j lt. w.below j (omega (arith, v.tail))) in
    let next : (q.count + 1) % size_mod ≡ suc q.count = omega (arith, v.sized) in
    let moved : (q.tail_idx + q.element_size) % size_mod ≡ q.tail_idx + q.element_size =
      omega (arith, v.buffer_sized) in
    let more : suc q.count * q.element_size ≡ q.count * q.element_size + q.element_size =
      omega arith in
    (
      record q { buffer = after; tail_idx = q.tail_idx + q.element_size; count = suc q.count },
      ground (arith, copied', next, moved),
      record {
        stored = elements_snoc after q.head_idx q.element_size q.count xs x (old ∙ v.stored) read';
        tail = omega (arith, more, v.tail);
        tail_in = omega (arith, w.same_length);
        bounded = omega arith;
        sized = v.sized;
        buffer_sized = omega (arith, w.same_length, v.buffer_sized);
      },
      refl,
      refl,
      omega arith,
      refl,
      w.same_length,
    )

-- An element of the size of the queue, of one byte at least, is written outside the array by a queue
-- that is not full and has less room than that behind its tail.
pub enqueue-outside :
    (q : CopyQueue) (x : List ℕ)
    → length x ≡ q.element_size
    → 0 < q.element_size
    → q.max_size < size_mod
    → q.count < q.max_size
    → length q.buffer < q.tail_idx + q.element_size
    → enqueue q x ≡ none
unfolding enqueue get_remaining memcpy
enqueue-outside q [] e some_bytes sized free h = absurd (omega arith)
enqueue-outside q (b ∷ bs) e some_bytes sized free h =
    let read =
      load_all_of_inside (b ∷ bs) 0 (b ∷ bs) (λ i lt. ap (get_elem? (b ∷ bs)) (omega arith)) in
    let read' : load_all (b ∷ bs) 0 q.element_size ≡ some (b ∷ bs) =
      ap (λ n. load_all (b ∷ bs) 0 n) (sym e) ∙ read in
    let fault = store_all-outside q.buffer q.tail_idx b bs (omega arith) in
    ground (arith, read', fault)

-- An empty queue has nothing to give, and leaves the caller's array as it is.
pub dequeue_empty :
    (q : CopyQueue) (out : List ℕ)
    → q.count ≡ 0
    → (dequeue q out ≡ some (err_empty, out, q)) × (peek q out ≡ some (err_empty, out))
unfolding dequeue peek get_size
dequeue_empty q out e = (ground arith, ground arith)

-- Another one gives its oldest element, which a peek does not take away.
pub dequeue_lem :
    (q : CopyQueue) (xs : List (List ℕ)) (n : ℕ) (out : List ℕ)
    → IsHolding q xs
    → length out ≡ q.element_size
    → q.count ≡ suc n
    → (x : List ℕ) × (ys : List (List ℕ)) × (q' : CopyQueue) × (xs ≡ x ∷ ys)
      × (dequeue q out ≡ some (err_none, x, q'))
      × (peek q out ≡ some (err_none, x))
      × IsHolding q' ys
      × (q'.max_size ≡ q.max_size)
      × (q'.element_size ≡ q.element_size)
      × (q'.count ≡ n)
      × (q'.tail_idx ≡ q.tail_idx)
      × (q'.buffer ≡ q.buffer)
unfolding dequeue peek get_size
dequeue_lem q xs n out v size counted =
    let whole : elements q.buffer q.head_idx q.element_size (suc n) ≡ some xs =
      subst (λ m. elements q.buffer q.head_idx q.element_size m ≡ some xs) counted v.stored in
    let (x, ys, split, first, rest) =
      elements_uncons q.buffer q.head_idx q.element_size n xs whole in
    let copied : memcpy out 0 q.buffer q.head_idx q.element_size ≡ some x =
      subst (λ m. memcpy out 0 q.buffer q.head_idx m ≡ some x) size
        (memcpy_out out q.buffer q.head_idx x
          (subst (λ m. load_all q.buffer q.head_idx m ≡ some x) (sym size) first)) in
    let whole_tail : q.tail_idx ≡ q.head_idx + suc n * q.element_size =
      subst (λ m. q.tail_idx ≡ q.head_idx + m * q.element_size) counted v.tail in
    let more : suc n * q.element_size ≡ q.element_size + n * q.element_size = omega arith in
    let moved : (q.head_idx + q.element_size) % size_mod ≡ q.head_idx + q.element_size =
      omega (arith, whole_tail, more, v.tail_in, v.buffer_sized) in
    let fewer : (q.count + size_mod - 1) % size_mod ≡ n =
      omega (arith, counted, v.bounded, v.sized) in
    (
      x,
      ys,
      record q { head_idx = q.head_idx + q.element_size; count = n },
      split,
      ground (arith, copied, moved, fewer, counted),
      ground (arith, copied, counted),
      record {
        stored = rest;
        tail = omega (arith, whole_tail, more);
        tail_in = v.tail_in;
        bounded = omega (arith, counted, v.bounded);
        sized = v.sized;
        buffer_sized = v.buffer_sized;
      },
      refl,
      refl,
      refl,
      refl,
      refl,
    )
