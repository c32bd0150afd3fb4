-- ===== src/CopyQueue/Tests.antt =====
-- Runs of a copy queue of two elements of two bytes, and its theorems at these.
use c_embedded_utils.Common.{ℕ, ◌≡◌, refl, ◌⊎◌, none, some, List, [], ◌∷◌, arith, store}
use c_embedded_utils.Common.Copy.{memcpy}
use c_embedded_utils.ErrorCode.{err_none, err_invalid_arg, err_no_mem, err_empty}
use c_embedded_utils.CopyQueue.{CopyQueue, CopyQueueConfig, init, enqueue, dequeue, peek}
use c_embedded_utils.CopyQueue.Elements.{elements}
use c_embedded_utils.CopyQueue.Refine.{IsHolding, enqueue-outside}
use c_embedded_utils.CopyQueue.Run.{
  Op, put, get, look, run, spec_run, fits_size, needed, copy_run_refines,
}
use c_embedded_utils.CopyQueue.Init.{FitsArray, IsFresh, copy_init_cases}

-- (1, 2) has been put and taken; (3, 4) is held, and four bytes are left behind it.
abbrev one_held : CopyQueue
one_held = record {
  count = 1;
  max_size = 2;
  element_size = 2;
  buffer = 1 ∷ 2 ∷ 3 ∷ 4 ∷ 0 ∷ 0 ∷ 0 ∷ 0 ∷ [];
  tail_idx = 4;
  head_idx = 2;
}

-- The same at the end of an array of four bytes.
abbrev at_end : CopyQueue
at_end = record one_held { buffer = 1 ∷ 2 ∷ 3 ∷ 4 ∷ [] }

abbrev script : List Op
script = put (5 ∷ 6 ∷ []) ∷ put (7 ∷ 8 ∷ []) ∷ look ∷ get ∷ get ∷ get ∷ []

abbrev out : List ℕ
out = 0 ∷ 0 ∷ []

one_held-IsHolding : IsHolding one_held ((3 ∷ 4 ∷ []) ∷ [])
unfolding elements
one_held-IsHolding = record {
  stored = refl;
  tail = refl;
  tail_in = omega arith;
  bounded = omega arith;
  sized = omega arith;
  buffer_sized = omega arith;
}

run-one_held :
    run one_held out script
    ≡ some (
        (err_none, 5 ∷ 6 ∷ [])
        ∷ (err_no_mem, 7 ∷ 8 ∷ [])
        ∷ (err_none, 3 ∷ 4 ∷ [])
        ∷ (err_none, 3 ∷ 4 ∷ [])
        ∷ (err_none, 5 ∷ 6 ∷ [])
        ∷ (err_empty, 0 ∷ 0 ∷ [])
        ∷ [])
unfolding run enqueue dequeue peek memcpy store
run-one_held = refl

copy_run_refines_example :
    run one_held out script ≡ some (spec_run 2 ((3 ∷ 4 ∷ []) ∷ []) out script)
unfolding fits_size needed
copy_run_refines_example =
    copy_run_refines script one_held ((3 ∷ 4 ∷ []) ∷ []) out one_held-IsHolding refl refl
      (omega arith)

enqueue-outside_example : enqueue at_end (5 ∷ 6 ∷ []) ≡ none
enqueue-outside_example =
    enqueue-outside at_end (5 ∷ 6 ∷ []) refl (omega arith) (omega arith) (omega arith) (omega arith)

abbrev array : CopyQueueConfig
array = record {
  queue_buffer = 0 ∷ 0 ∷ 0 ∷ 0 ∷ [];
  queue_size = 4;
  element_count = 2;
  element_size = 2;
}

copy_init_cases_example :
    ((q : CopyQueue) × (init one_held array ≡ (err_none, q)) × FitsArray array × IsFresh array q)
    ⊎ ((init one_held array ≡ (err_invalid_arg, one_held)) × ¬ FitsArray array)
copy_init_cases_example =
    copy_init_cases one_held array (omega arith) (omega arith) (omega arith) (omega arith)

-- From the initialisation on: one of two elements is held, and the array is used up.
run-array : run (init one_held array).1 out (put out ∷ put out ∷ get ∷ put out ∷ []) ≡ none
unfolding init run enqueue dequeue memcpy store
run-array = refl
