-- ===== src/BoundedHeap/Run.antt =====
-- Any calls on a heap in sequence, and the elements that come and go.
use mathlib.Core.List.{Perm, perm_middle}
use mathlib.Core.List.Perm
use c_embedded_utils.Common.{
  suc, ◌*◌, ◌+◌, ◌-◌, ◌≤◌, ◌<◌, ◌≡◌, refl, Option, none, some, List, [], ◌∷◌, ◌++◌, arith, length,
  size_mod, ◌>>=◌,
}
use native.Mathlib.Decide.{ℕ_discrete}
use c_embedded_utils.ErrorCode.{ErrorCode, err_none}
use c_embedded_utils.BoundedHeap.{
  BoundedHeap, BoundedHeapConfig, init, validate_config, push, pop, IsShaped, contents,
}
use c_embedded_utils.BoundedHeap.Push.{push_room, push_full}
use c_embedded_utils.BoundedHeap.Pop.{pop-some, pop_empty}

pub data Op (A : Type 0) : Type 0 where
  put : A → Op A
  get : Op A

module _ {A : Type 0} where
  -- An element that was put in counts only if the code says so.
  abbrev pub entered : ErrorCode → A → List A → List A
  entered err_none x xs = x ∷ xs
  entered code x xs = xs

  abbrev pub left : Option A → List A → List A
  left none xs = xs
  left (some x) xs = x ∷ xs

  -- The elements that entered, those that left, and the heap at the end.
  unfoldable pub run : BoundedHeap A → List (Op A) → Option (List A × List A × BoundedHeap A)
  run heap [] = some ([], [], heap)
  run heap (put x ∷ ops) = do
    (code, heap') ← push heap x
    (ins, outs, final) ← run heap' ops
    some (entered code x ins, outs, final)
  run heap (get ∷ ops) = do
    (code, out, heap') ← pop heap
    (ins, outs, final) ← run heap' ops
    some (ins, left out outs, final)

  -- No sequence of pushes and pops on a valid heap faults or runs on, whatever the comparison says;
  -- the elements that left and those that the heap holds are, in some order, those that entered and
  -- those that it held before.
  pub heap_run_conserves :
      (ops : List (Op A)) (heap : BoundedHeap A)
      → IsShaped heap
      → (ins outs : List A) × (final : BoundedHeap A) × (run heap ops ≡ some (ins, outs, final))
        × IsShaped final
        × Perm (outs ++ contents final) (ins ++ contents heap)
  unfolding run
  heap_run_conserves [] heap v = ([], [], heap, refl, v, Perm.rfl)
  heap_run_conserves (put x ∷ ops) heap v =
      elim (ℕ_discrete heap.items_in_heap heap.heap_max_size) [
        | yes full ↦
            let (ins, outs, final, ran, w, same) = heap_run_conserves ops heap v in
            (ins, outs, final, rw (push_full heap x v full, ran) refl, w, same)
        | no room ↦
            let (heap', pushed, p) = push_room heap x v (omega (arith, v.counted)) in
            let (ins, outs, final, ran, w, same) = heap_run_conserves ops heap' p.shaped in
            (
              x ∷ ins,
              outs,
              final,
              rw (pushed, ran) refl,
              w,
              Perm.trans same (
                  Perm.trans (Perm.append_left ins p.added)
                    (perm_middle {a = x} ins (contents heap))),
            )
      ]
  heap_run_conserves (get ∷ ops) heap v = elim (ℕ_discrete heap.items_in_heap 0) [
    | yes e ↦
        let (ins, outs, final, ran, w, same) = heap_run_conserves ops heap v in
        (ins, outs, final, rw (pop_empty heap e, ran) refl, w, same)
    | no some_items ↦
        let e : heap.items_in_heap ≡ suc (heap.items_in_heap - 1) = omega arith in
        let (root, heap', popped, p) = pop-some heap (heap.items_in_heap - 1) v e in
        let (ins, outs, final, ran, w, same) = heap_run_conserves ops heap' p.shaped in
        (
          ins,
          root ∷ outs,
          final,
          rw (popped, ran) refl,
          w,
          Perm.trans (Perm.cons root same) (
              Perm.trans (Perm.symm (perm_middle {a = root} ins (contents heap')))
                (Perm.append_left ins p.removed)),
        )
  ]

  -- `bounded_heap_init` accepts a count other than 0 that the storage has, and gives a heap that
  -- holds nothing.
  pub heap_init_lem :
      (heap : BoundedHeap A) (c : BoundedHeapConfig A)
      → 0 < c.element_count
      → c.element_count ≤ length c.heap_storage
      → 2 * c.element_count + 2 ≤ size_mod
      → (heap' : BoundedHeap A) × (init heap c ≡ (err_none, heap'))
        × IsShaped heap'
        × (contents heap' ≡ [])
        × (heap'.heap_max_size ≡ c.element_count)
  unfolding init validate_config
  heap_init_lem heap c pos fits sized = (
    record { config = c; items_in_heap = 0; heap_max_size = c.element_count },
    ground arith,
    record { fits = fits; sized = sized; counted = omega arith },
    refl,
    refl,
  )
