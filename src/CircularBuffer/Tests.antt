-- ===== src/CircularBuffer/Tests.antt =====
-- Runs of the circular buffer, and its theorems at a buffer of three bytes that has wrapped.
use c_embedded_utils.Common.{List, [], ◌∷◌, ◌≡◌, refl, some, none, arith, false, store}
use c_embedded_utils.ErrorCode.{err_none, err_empty, err_no_mem}
use c_embedded_utils.CircularBuffer.{
  CircularBuffer, CircularBufferConfig, init, deinit, push_byte, pop_byte, get_count, IsValid,
}
use c_embedded_utils.CircularBuffer.Refine.{
  contents, spec_push, spec_pop, circular_push_refines, circular_pop_refines,
}
use c_embedded_utils.CircularBuffer.Run.{
  Op, put, get, run, spec_run, circular_run_refines, circular_init_lem, circular_deinit_lem,
}

-- 8, then 9, round the end of the array.
abbrev wrapped : CircularBuffer
wrapped = record {
  buffer = 9 ∷ 7 ∷ 8 ∷ [];
  buffer_max_size = 3;
  read_index = 2;
  write_index = 1;
  buffer_is_empty = false;
}

abbrev array : CircularBufferConfig
array = record { buffer = 0 ∷ 0 ∷ 0 ∷ []; buffer_size = 3 }

abbrev script : List Op
script = put 1 ∷ put 2 ∷ get ∷ get ∷ get ∷ get ∷ []

wrapped-IsValid : IsValid wrapped
wrapped-IsValid = ground arith

-- The push of 2 finds the buffer full and drops the 8.
run-wrapped :
    run wrapped script
    ≡ some (
        (err_none, none)
        ∷ (err_none, none)
        ∷ (err_none, some 9)
        ∷ (err_none, some 1)
        ∷ (err_none, some 2)
        ∷ (err_empty, none)
        ∷ [])
unfolding run push_byte pop_byte store
run-wrapped = refl

circular_run_refines_example : run wrapped script ≡ some (spec_run 3 (8 ∷ 9 ∷ []) script)
unfolding get_count
circular_run_refines_example = circular_run_refines script wrapped wrapped-IsValid

circular_push_refines_example :
    (b : CircularBuffer) × (push_byte wrapped 1 ≡ some (err_none, b))
    × (contents b ≡ spec_push 3 (8 ∷ 9 ∷ []) 1)
    × IsValid b
    × (b.buffer_max_size ≡ 3)
unfolding get_count
circular_push_refines_example = circular_push_refines wrapped wrapped-IsValid 1

circular_pop_refines_example :
    (b : CircularBuffer) × (pop_byte wrapped
      ≡ some ((spec_pop (contents wrapped)).0, (spec_pop (contents wrapped)).1, b))
    × (contents b ≡ (spec_pop (contents wrapped)).2)
    × IsValid b
    × (b.buffer_max_size ≡ 3)
circular_pop_refines_example = circular_pop_refines wrapped wrapped-IsValid

circular_init_lem_example :
    (b : CircularBuffer) × (init wrapped array ≡ (err_none, b))
    × IsValid b
    × (contents b ≡ [])
    × (b.buffer_max_size ≡ 3)
circular_init_lem_example =
    circular_init_lem wrapped array (omega arith) (omega arith) (omega arith)

circular_deinit_lem_example :
    (push_byte (deinit wrapped) 5 ≡ some (err_no_mem, deinit wrapped))
    × (pop_byte (deinit wrapped) ≡ some (err_empty, none, deinit wrapped))
circular_deinit_lem_example = circular_deinit_lem wrapped 5
