-- ===== src/FastCircularBuffer/Tests.antt =====
-- Runs of the fast circular buffer, and its theorems at a buffer of four bytes whose indices are about
-- to wrap.
use c_embedded_utils.Common.{
  ℕ, ◌<◌, ◌↔◌, ◌⊎◌, List, [], ◌∷◌, ◌≡◌, ◌^◌, ◌-◌, refl, some, none, arith, store, true,
}
use c_embedded_utils.ErrorCode.{err_none, err_empty, err_invalid_arg}
use c_embedded_utils.NumericOps.{is_power_2_sz}
use c_embedded_utils.CircularBuffer
use c_embedded_utils.CircularBuffer.{CircularBuffer, CircularBufferConfig}
use c_embedded_utils.CircularBuffer.Run
use c_embedded_utils.FastCircularBuffer.Alike.{buffers_alike}
use c_embedded_utils.CircularBuffer.Refine.{spec_push, spec_pop}
use c_embedded_utils.CircularBuffer.Run.{Op, put, get, spec_run}
use c_embedded_utils.FastCircularBuffer.{
  FastCircularBuffer, FastCircularBufferConfig, init, push_byte, pop_byte, get_count, IsValid,
}
use c_embedded_utils.FastCircularBuffer.Refine.{contents, fast_push_refines, fast_pop_refines}
use c_embedded_utils.FastCircularBuffer.Run.{run, fast_run_refines, fast_init_lem, fast_init_iff}

-- 5, 6 and 7 stand at the last positions before the wrap.
abbrev at_wrap : FastCircularBuffer
at_wrap = record {
  buffer = 0 ∷ 5 ∷ 6 ∷ 7 ∷ [];
  read_index = 2 ^ 64 - 3;
  write_index = 0;
  size_mask = 3;
}

abbrev array : FastCircularBufferConfig
array = record { buffer = 0 ∷ 0 ∷ 0 ∷ 0 ∷ []; buffer_size = 4 }

abbrev script : List Op
script = put 8 ∷ put 9 ∷ get ∷ get ∷ get ∷ get ∷ get ∷ []

at_wrap-IsValid : IsValid 2 at_wrap
at_wrap-IsValid = omega arith

run-at_wrap :
    run at_wrap script
    ≡ some (
        (err_none, none)
        ∷ (err_none, none)
        ∷ (err_none, some 6)
        ∷ (err_none, some 7)
        ∷ (err_none, some 8)
        ∷ (err_none, some 9)
        ∷ (err_empty, none)
        ∷ [])
unfolding run push_byte pop_byte store
run-at_wrap = refl

init-three : init at_wrap (record array { buffer_size = 3 }) ≡ (err_invalid_arg, at_wrap)
unfolding init is_power_2_sz
init-three = refl

fast_run_refines_example : run at_wrap script ≡ some (spec_run 4 (5 ∷ 6 ∷ 7 ∷ []) script)
unfolding get_count
fast_run_refines_example = fast_run_refines 2 script at_wrap at_wrap-IsValid

fast_push_refines_example :
    (b : FastCircularBuffer) × (push_byte at_wrap 8 ≡ some (err_none, b))
    × (contents 2 b ≡ spec_push 4 (5 ∷ 6 ∷ 7 ∷ []) 8)
    × IsValid 2 b
unfolding get_count
fast_push_refines_example = fast_push_refines 2 at_wrap at_wrap-IsValid 8

fast_pop_refines_example :
    (b : FastCircularBuffer) × (pop_byte at_wrap
      ≡ some ((spec_pop (contents 2 at_wrap)).0, (spec_pop (contents 2 at_wrap)).1, b))
    × (contents 2 b ≡ (spec_pop (contents 2 at_wrap)).2)
    × IsValid 2 b
fast_pop_refines_example = fast_pop_refines 2 at_wrap at_wrap-IsValid

fast_init_lem_example :
    (b : FastCircularBuffer) × (init at_wrap array ≡ (err_none, b))
    × IsValid 2 b
    × (contents 2 b ≡ [])
fast_init_lem_example = fast_init_lem at_wrap array 2 (omega arith) (omega arith) refl (omega arith)

fast_init_iff_example :
    (((init at_wrap array).0 ≡ err_none) ↔ ((k : ℕ) × (0 < k) × (◌≡◌ {A = ℕ} 4 (2 ^ k))))
    × (((init at_wrap array).0 ≡ err_none) ⊎ (init at_wrap array ≡ (err_invalid_arg, at_wrap)))
fast_init_iff_example = fast_init_iff at_wrap array (omega arith) (omega arith)

abbrev plain_array : CircularBufferConfig
plain_array = record { buffer = 1 ∷ 1 ∷ 1 ∷ 1 ∷ 1 ∷ []; buffer_size = 4 }

abbrev plain_unset : CircularBuffer
plain_unset = record {
  buffer = [];
  buffer_max_size = 0;
  read_index = 0;
  write_index = 0;
  buffer_is_empty = true;
}

buffers_alike_example :
    (b : CircularBuffer) × (f : FastCircularBuffer) × (CircularBuffer.init plain_unset plain_array
      ≡ (err_none, b))
    × (init at_wrap array ≡ (err_none, f))
    × (run f script ≡ Run.run b script)
    × (run f script ≡ some (spec_run 4 [] script))
buffers_alike_example =
    buffers_alike 2 plain_unset plain_array at_wrap array script (omega arith) (omega arith) refl
      refl (omega arith) (omega arith)
