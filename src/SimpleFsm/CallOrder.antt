-- ===== src/SimpleFsm/CallOrder.antt =====
-- In which order the calls of a machine's user call its callbacks.
use c_embedded_utils.Common.{ℕ, ◌≡◌, Bool, false, Option, none, some, List, [], ◌∷◌}
use c_embedded_utils.ErrorCode.{ErrorCode}
use c_embedded_utils.SimpleFsm.{SimpleFsm, IsConfig, start}
use c_embedded_utils.SimpleFsm.Calls.{is_success}
use c_embedded_utils.SimpleFsm.Trace.{Mark, entry, traced_fsm, Trace}
use c_embedded_utils.SimpleFsm.Marks.{start_marks}

module _ {C E : Type 0} (fsm : SimpleFsm C E) where
  -- A machine with this reply.
  abbrev reply :
      (ErrorCode → Bool) → Option (ErrorCode × ℕ × C) → Option (ErrorCode × SimpleFsm C E × C)
  reply up none = none
  reply up (some (code, s, x)) = some (code, record fsm { started = up code; state = s }, x)

  -- A start of a stopped machine calls the entry handler of the initial state, and then, for each
  -- transition, the exit handler of the state that it leaves and the entry handler of the one that it
  -- enters, and no other callback; it ends in the state entered last. If a state is asked for that does
  -- not exist, the exit handler of the state that the machine stays in has been called last.
  pub start-Trace :
      (context : C)
      → IsConfig fsm.config
      → (code : ErrorCode) × (s : ℕ) × (context' : C) × (ms : List Mark) × (start
            (record (traced_fsm fsm) { started = false })
            (context, [])
          ≡ some (
            code,
            record (traced_fsm fsm) { started = is_success code; state = s },
            (context', ms),
          ))
        × Trace (entry fsm.config.initial_state ∷ []) fsm.config.initial_state code ms s
  start-Trace context v =
      let (code, s, context', ms, returns, inside, order) =
        start_marks fsm.config v fsm.state fsm.loop_count context [] in
      (code, s, context', ms, returns, order)
