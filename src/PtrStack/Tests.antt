-- ===== src/PtrStack/Tests.antt =====
-- Runs of the pointer stack, and its theorems at concrete stacks.
use c_embedded_utils.Common.{store, ℕ, List, [], ◌∷◌, ◌≡◌, refl, some, none, arith}
use c_embedded_utils.ErrorCode.{err_none, err_no_mem, err_empty}
use c_embedded_utils.PtrStack.{PtrStack, push, pop, IsValid}
use c_embedded_utils.PtrStack.Refine.{Op, put, get, run, spec_run, stack_run_refines}

abbrev two_slots : PtrStack ℕ
two_slots = record { stack = 7 ∷ 0 ∷ []; max_item_count = 2; stack_top = 1 }

abbrev script : List (Op ℕ)
script = put 5 ∷ put 6 ∷ get ∷ get ∷ get ∷ []

two_slots-IsValid : IsValid two_slots
two_slots-IsValid = record { fits = omega arith; sized = omega arith; top_in = omega arith }

run-script :
    run two_slots script
    ≡ some (
        (err_none, none)
        ∷ (err_no_mem, none)
        ∷ (err_none, some 5)
        ∷ (err_none, some 7)
        ∷ (err_empty, none)
        ∷ [])
unfolding run push pop store
run-script = refl

stack_run_refines_example : run two_slots script ≡ some (spec_run 2 (7 ∷ []) script)
stack_run_refines_example = stack_run_refines script two_slots two_slots-IsValid
