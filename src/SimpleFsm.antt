-- ===== src/SimpleFsm.antt =====
-- src/simple_fsm/simple_fsm.c: the runner of a state machine whose states are given by callbacks.
-- `C` is what the context pointer leads to, `E` is an event. A callback reads the running state of the
-- machine and may change the context; it returns the state to go to and the new context. It does not
-- call the runner again, as include/cemb/simple_fsm.h has it: transitions are asked for by the value
-- that is returned. A result `none` is a read outside the array of the callbacks, or a loop that
-- outlives its fuel.
pub mod Chain
pub mod Resolve
pub mod Calls
pub mod Settles
pub mod Measured
pub mod Trace
pub mod Unmarked
pub mod Marks
pub mod CallOrder
pub mod Session
pub mod Life
mod Tests
use c_embedded_utils.Common.{
  ℕ, zero, suc, ◌+◌, ◌≤◌, ◌<◌, Bool, true, false, ◌||◌, not, Option, none, some, List, ◌==◌, leb,
  if◌then◌else◌, get_elem?, ◌>>=◌, length,
}
use c_embedded_utils.ErrorCode.{
  ErrorCode, err_none, err_invalid_arg, err_timeout, err_out_of_bounds, err_noop, err_incomplete,
  err_not_initialised,
}

-- What a callback can read through the `fsm` pointer.
pub record Running : Type 0 where
  pub started : Bool
  pub state : ℕ

abbrev pub OnEntryExitFunction : Type 0 → Type 0
OnEntryExitFunction C = Running → C → ℕ × C

abbrev pub OnEventFunction : Type 0 → Type 0 → Type 0
OnEventFunction C E = Running → E → C → ℕ × C

pub record StateDelegates (C E : Type 0) : Type 0 where
  pub on_entry_handler : OnEntryExitFunction C
  pub on_event_handler : OnEventFunction C E
  pub on_exit_handler : OnEntryExitFunction C

-- The context itself is passed beside the machine.
pub record SimpleFsmConfig (C E : Type 0) : Type 0 where
  pub state_delegates : List (StateDelegates C E)
  pub state_count : ℕ
  pub initial_state : ℕ
  pub max_transition_count : ℕ

pub record SimpleFsm (C E : Type 0) : Type 0 where
  pub started : Bool
  pub config : SimpleFsmConfig C E
  pub state : ℕ
  pub loop_count : ℕ

module _ {C E : Type 0} where
  abbrev pub running : SimpleFsm C E → Running
  running fsm = record { started = fsm.started; state = fsm.state }

  unfoldable pub get_current_state : SimpleFsm C E → ℕ
  get_current_state fsm = fsm.state

  unfoldable pub validate_config : SimpleFsmConfig C E → ErrorCode
  validate_config c =
      if c.state_count == 0
      then err_invalid_arg
      else if c.max_transition_count == 0
      then err_invalid_arg
      else if leb c.state_count c.initial_state
      then err_invalid_arg
      else err_none

  unfoldable pub init : SimpleFsm C E → SimpleFsmConfig C E → ErrorCode × SimpleFsm C E
  unfolding validate_config
  init fsm c = elim (validate_config c) [
    | err_none ↦ (err_none, record fsm { started = false; config = c; state = c.initial_state })
    | code ↦ (code, fsm)
  ]

  unfoldable pub deinit : SimpleFsm C E → SimpleFsm C E
  deinit fsm = record fsm { started = false; state = fsm.config.initial_state }

  -- The loop of `simple_fsm_resolve_transitions`, with fuel.
  unfoldable pub resolve_loop :
      ℕ → SimpleFsm C E → C → ℕ → ℕ → Bool → Option (ErrorCode × SimpleFsm C E × C)
  resolve_loop zero fsm context next_state count limit_reached = none
  resolve_loop (suc fuel) fsm context next_state count limit_reached =
      elim (next_state == fsm.state || limit_reached) [
        | true ↦ some (if limit_reached then err_timeout else err_none, fsm, context)
        | false ↦ do
          handler ← get_elem? fsm.config.state_delegates fsm.state
          let (on_exit_next_state, left) = handler.on_exit_handler (running fsm) context
          let requested = if on_exit_next_state == fsm.state then next_state else on_exit_next_state
          elim (leb fsm.config.state_count requested) [
            | true ↦ some (err_out_of_bounds, fsm, left)
            | false ↦ do
              let moved = record fsm { state = requested }
              handler' ← get_elem? fsm.config.state_delegates requested
              let (next_state', entered) = handler'.on_entry_handler (running moved) left
              resolve_loop fuel moved entered next_state' (count + 1)
                  (leb fsm.config.max_transition_count (count + 1))
          ]
      ]

  -- Each round but the last counts one transition, up to the limit; so this fuel is enough.
  unfoldable pub resolve_transitions :
      SimpleFsm C E → C → ℕ → Option (ErrorCode × SimpleFsm C E × C)
  unfolding resolve_loop
  resolve_transitions fsm context next_state =
      resolve_loop (suc (suc fsm.config.max_transition_count)) fsm context next_state 0 false

  -- The last lines of `simple_fsm_start`.
  unfoldable pub stop_on_error :
      ErrorCode → SimpleFsm C E → C → Option (ErrorCode × SimpleFsm C E × C)
  stop_on_error err_none fsm context = some (err_none, fsm, context)
  stop_on_error ret fsm context = some (ret, record fsm { started = false }, context)

  unfoldable pub start : SimpleFsm C E → C → Option (ErrorCode × SimpleFsm C E × C)
  start fsm context = if fsm.started then some (err_noop, fsm, context) else do
    let begun = record fsm { started = true; state = fsm.config.initial_state }
    handler ← get_elem? fsm.config.state_delegates begun.state
    let (next_state, entered) = handler.on_entry_handler (running begun) context
    (ret, fsm', context') ← resolve_transitions begun entered next_state
    stop_on_error ret fsm' context'

  unfoldable pub force_stop : SimpleFsm C E → C → Option (ErrorCode × SimpleFsm C E × C)
  force_stop fsm context = if not fsm.started then some (err_noop, fsm, context) else do
    handler ← get_elem? fsm.config.state_delegates fsm.state
    let (next_state, left) = handler.on_exit_handler (running fsm) context
    some (
      if next_state == fsm.state then err_none else err_incomplete,
      record fsm { started = false },
      left,
    )

  unfoldable pub on_event : SimpleFsm C E → E → C → Option (ErrorCode × SimpleFsm C E × C)
  on_event fsm event context =
      if not fsm.started then some (err_not_initialised, fsm, context) else do
        handler ← get_elem? fsm.config.state_delegates fsm.state
        let (next_state, handled) = handler.on_event_handler (running fsm) event context
        resolve_transitions fsm handled next_state

  -- What `simple_fsm_init` checks, and that the array has a callback set for each state.
  pub record IsConfig (c : SimpleFsmConfig C E) : Type 0 where
    pub delegates : c.state_count ≤ length c.state_delegates
    pub limited : 0 < c.max_transition_count
    pub initial_in : c.initial_state < c.state_count

  pub record IsValid (fsm : SimpleFsm C E) : Type 0 where
    pub config_valid : IsConfig fsm.config
    pub state_in : fsm.state < fsm.config.state_count
