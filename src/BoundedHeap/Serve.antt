-- ===== src/BoundedHeap/Serve.antt =====
-- A heap as a priority queue.
use mathlib.Core.List.{Perm}
use c_embedded_utils.Common.{
  ℕ, suc, ◌+◌, ◌*◌, ◌-◌, ◌%◌, ◌≤◌, ◌<◌, ◌≡◌, ◌≢◌, refl, sym, ap, ◌∙◌, subst, Bool, true, ◌&&◌,
  Option, none, some, List, [], ◌∷◌, arith, length, size_mod, ◌>>=◌, ◌==◌, if◌then◌else◌, take,
}
use native.Mathlib.Decide.{ℕ_discrete}
use c_embedded_utils.ErrorCode.{ErrorCode, err_none, err_no_mem, err_empty}
use c_embedded_utils.BoundedHeap.{
  BoundedHeap, BoundedHeapConfig, init, validate_config, push, pop, IsShaped, contents,
}
use c_embedded_utils.BoundedHeap.Order.{IsComparison, IsHeap, IsHeap-of_pairs}
use c_embedded_utils.BoundedHeap.Top.{is_top}
use c_embedded_utils.BoundedHeap.Swap.{length-take}
use c_embedded_utils.BoundedHeap.Push.{heap_push_lem, push_full}
use c_embedded_utils.BoundedHeap.Pop.{heap_pop_lem, pop_empty}
use c_embedded_utils.BoundedHeap.Run.{Op, put, get}

module _ {A : Type 0} where
  -- The calls in sequence: the code of each, and what a pop returns.
  unfoldable pub serve : BoundedHeap A → List (Op A) → Option (List (ErrorCode × Option A))
  serve heap [] = some []
  serve heap (put x ∷ ops) = do
    (code, heap') ← push heap x
    rest ← serve heap' ops
    some ((code, none) ∷ rest)
  serve heap (get ∷ ops) = do
    (code, out, heap') ← pop heap
    rest ← serve heap' ops
    some ((code, out) ∷ rest)

  -- A priority queue of at most `limit` elements: the elements that it holds, in any order, the calls,
  -- and the replies. A pop takes away an element that none of those held has to stand above.
  pub data Serves (compare : A → A → Bool) (limit : ℕ)
      : List A → List (Op A) → List (ErrorCode × Option A) → Type 0 where
    done : {held : List A} → Serves compare limit held [] []
    takes :
        {held held' : List A} {x : A} {ops : List (Op A)} {replies : List (ErrorCode × Option A)}
        → length held < limit
        → Perm held' (x ∷ held)
        → Serves compare limit held' ops replies
        → Serves compare limit held (put x ∷ ops) ((err_none, none) ∷ replies)
    is_full :
        {held : List A} {x : A} {ops : List (Op A)} {replies : List (ErrorCode × Option A)}
        → length held ≡ limit
        → Serves compare limit held ops replies
        → Serves compare limit held (put x ∷ ops) ((err_no_mem, none) ∷ replies)
    gives :
        {held held' : List A} {top : A} {ops : List (Op A)} {replies : List (ErrorCode × Option A)}
        → is_top compare top held ≡ true
        → Perm (top ∷ held') held
        → Serves compare limit held' ops replies
        → Serves compare limit held (get ∷ ops) ((err_none, some top) ∷ replies)
    is_empty :
        {held : List A} {ops : List (Op A)} {replies : List (ErrorCode × Option A)}
        → held ≡ []
        → Serves compare limit held ops replies
        → Serves compare limit held (get ∷ ops) ((err_empty, none) ∷ replies)

  -- Whether every pop finds an even number of elements, in a heap of `size` with room for `limit`.
  abbrev pub pops_even : ℕ → ℕ → List (Op A) → Bool
  pops_even limit size [] = true
  pops_even limit size (put x ∷ ops) =
      pops_even limit (if size == limit then size else suc size) ops
  pops_even limit size (get ∷ ops) = (size % 2 == 0) && pops_even limit (size - 1) ops

  record IsReady (heap : BoundedHeap A) : Type 0 where
    laws : IsComparison heap.config.compare
    shaped : IsShaped heap
    ordered : IsHeap heap.config.compare heap.items_in_heap heap.config.heap_storage

  IsReady-next :
      (heap heap' : BoundedHeap A)
      → IsReady heap
      → heap'.config.compare ≡ heap.config.compare
      → IsShaped heap'
      → IsHeap heap.config.compare heap'.items_in_heap heap'.config.heap_storage
      → IsReady heap'
  IsReady-next heap heap' v same shaped ordered = record {
    laws = subst IsComparison (sym same) v.laws;
    shaped = shaped;
    ordered =
        subst (λ k. IsHeap k heap'.items_in_heap heap'.config.heap_storage) (sym same) ordered;
  }

  pops_even-put :
      (limit size limit' size' : ℕ) (x : A) (ops : List (Op A))
      → size ≢ limit
      → limit' ≡ limit
      → size' ≡ suc size
      → pops_even limit size (put x ∷ ops) ≡ true
      → pops_even limit' size' ops ≡ true
  pops_even-put limit size limit' size' x ops room e f h = rw (e, f) (ground arith)

  pops_even-get :
      (limit size limit' size' : ℕ) (ops : List (Op A))
      → limit' ≡ limit
      → suc size' ≡ size
      → pops_even limit size (get ∷ ops) ≡ true
      → (size % 2 ≡ 0) × (pops_even limit' size' ops ≡ true)
  pops_even-get limit size limit' size' ops e f h =
      let fewer : size' ≡ size - 1 = omega arith in (ground arith, rw (e, fewer) (ground arith))

  serve-put :
      (heap heap' : BoundedHeap A) (code : ErrorCode) (x : A) (ops : List (Op A))
      (replies : List (ErrorCode × Option A))
      → push heap x ≡ some (code, heap')
      → serve heap' ops ≡ some replies
      → serve heap (put x ∷ ops) ≡ some ((code, none) ∷ replies)
  unfolding serve
  serve-put heap heap' code x ops replies pushed rest = rw (pushed, ◌>>=◌) (rw (rest, ◌>>=◌))

  serve-get :
      (heap heap' : BoundedHeap A) (code : ErrorCode) (out : Option A) (ops : List (Op A))
      (replies : List (ErrorCode × Option A))
      → pop heap ≡ some (code, out, heap')
      → serve heap' ops ≡ some replies
      → serve heap (get ∷ ops) ≡ some ((code, out) ∷ replies)
  unfolding serve
  serve-get heap heap' code out ops replies popped rest = rw (popped, ◌>>=◌) (rw (rest, ◌>>=◌))

  length-contents :
      (heap : BoundedHeap A) → IsShaped heap → length (contents heap) ≡ heap.items_in_heap
  length-contents heap v =
      length-take heap.items_in_heap heap.config.heap_storage (omega (arith, v.fits, v.counted))

  contents-empty : (heap : BoundedHeap A) → heap.items_in_heap ≡ 0 → contents heap ≡ []
  contents-empty heap e = ap (λ n. take n heap.config.heap_storage) e

  -- The heap replies as a priority queue with its contents.
  abbrev Served : (A → A → Bool) → ℕ → BoundedHeap A → List (Op A) → Type 0
  Served compare limit heap ops =
      (replies : List (ErrorCode × Option A)) × (serve heap ops ≡ some replies)
      × Serves compare limit (contents heap) ops replies

  serve_lem :
      (compare : A → A → Bool) (limit : ℕ) (ops : List (Op A)) (heap : BoundedHeap A)
      → IsReady heap
      → heap.config.compare ≡ compare
      → heap.heap_max_size ≡ limit
      → pops_even heap.heap_max_size heap.items_in_heap ops ≡ true
      → Served compare limit heap ops
  serve_lem compare limit [] heap v same most even = ([], unfold serve in refl, done)
  serve_lem compare limit (put x ∷ ops) heap v same most even =
      elim (ℕ_discrete heap.items_in_heap heap.heap_max_size) [
        | yes full ↦
            let (replies, ran, right) =
              serve_lem compare limit ops heap v same most (ground arith) in
            (
              (err_no_mem, none) ∷ replies,
              serve-put heap heap err_no_mem x ops replies (push_full heap x v.shaped full) ran,
              is_full (omega (arith, length-contents heap v.shaped)) right,
            )
        | no room ↦
            let (heap', pushed, p, ordered) =
              heap_push_lem heap x v.laws v.shaped v.ordered (omega (arith, v.shaped.counted)) in
            let (replies, ran, right) =
              serve_lem compare limit ops heap'
                (IsReady-next heap heap' v p.same_compare p.shaped ordered) (p.same_compare ∙ same)
                (p.same_limit ∙ most)
                (pops_even-put heap.heap_max_size heap.items_in_heap heap'.heap_max_size
                  heap'.items_in_heap x ops room p.same_limit p.one_more even) in
            (
              (err_none, none) ∷ replies,
              serve-put heap heap' err_none x ops replies pushed ran,
              takes (omega (arith, length-contents heap v.shaped, v.shaped.counted)) p.added right,
            )
      ]
  serve_lem compare limit (get ∷ ops) heap v same most even =
      elim (ℕ_discrete heap.items_in_heap 0) [
        | yes empty ↦
            let (replies, ran, right) =
              serve_lem compare limit ops heap v same most (ground arith) in
            (
              (err_empty, none) ∷ replies,
              serve-get heap heap err_empty none ops replies (pop_empty heap empty) ran,
              is_empty (contents-empty heap empty) right,
            )
        | no some_items ↦
            let (root, heap', popped, p, top, pairs) =
              heap_pop_lem heap v.laws v.shaped v.ordered (omega arith) in
            let (two, even') =
              pops_even-get heap.heap_max_size heap.items_in_heap heap'.heap_max_size
                heap'.items_in_heap ops p.same_limit p.one_fewer even in
            let ordered =
              IsHeap-of_pairs heap.config.compare v.laws heap'.items_in_heap
                heap'.config.heap_storage (omega (arith, p.one_fewer)) pairs in
            let (replies, ran, right) =
              serve_lem compare limit ops heap'
                (IsReady-next heap heap' v p.same_compare p.shaped ordered) (p.same_compare ∙ same)
                (p.same_limit ∙ most) even' in
            (
              (err_none, some root) ∷ replies,
              serve-get heap heap' err_none (some root) ops replies popped ran,
              gives (subst (λ k. is_top k root (contents heap) ≡ true) same top) p.removed right,
            )
      ]

  -- A heap that is initialised with an element count other than 0, below 2 ^ 63, that its storage
  -- has, and with a comparison that is an order, and then any pushes and pops, where every pop
  -- finds an even number of elements: no call faults or runs on, and the replies are those of a
  -- priority queue that is empty at first. A push adds its element, or is refused with ERR_NO_MEM
  -- if the queue is full; a pop returns, and takes away, an element that none of those in the
  -- queue has to stand above, or returns nothing with ERR_EMPTY if the queue is empty.
  pub heap-Serves :
      (heap : BoundedHeap A) (c : BoundedHeapConfig A) (ops : List (Op A))
      → IsComparison c.compare
      → 0 < c.element_count
      → c.element_count ≤ length c.heap_storage
      → 2 * c.element_count + 2 ≤ size_mod
      → pops_even c.element_count 0 ops ≡ true
      → (begun : BoundedHeap A) × (replies : List (ErrorCode × Option A)) × (init heap c
          ≡ (err_none, begun))
        × (serve begun ops ≡ some replies)
        × Serves c.compare c.element_count [] ops replies
  unfolding init validate_config
  heap-Serves heap c ops laws pos fits sized even =
      let begun : BoundedHeap A = record {
        config = c;
        items_in_heap = 0;
        heap_max_size = c.element_count;
      } in
      let (replies, ran, right) =
        serve_lem c.compare c.element_count ops begun
          (record {
            laws = laws;
            shaped = record { fits = fits; sized = sized; counted = omega arith };
            ordered = λ n p below. absurd (omega arith);
          })
          refl refl even in
      (begun, replies, ground arith, ran, right)
