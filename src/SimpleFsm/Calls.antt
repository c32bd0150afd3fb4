-- ===== src/SimpleFsm/Calls.antt =====
-- The calls of a machine's user: how each ends, and that none reads outside the callbacks.
use c_embedded_utils.Common.{
  ℕ, ◌<◌, ◌≡◌, refl, sym, subst, Bool, true, false, Option, some, ◌==◌, if◌then◌else◌, get_elem?,
  arith, ◌>>=◌,
}
use c_embedded_utils.ErrorCode.{ErrorCode, err_none, err_noop, err_incomplete, err_not_initialised}
use c_embedded_utils.SimpleFsm.{
  StateDelegates, SimpleFsmConfig, SimpleFsm, running, IsValid, IsConfig, init, validate_config,
  start, stop_on_error, force_stop, on_event,
}
use c_embedded_utils.SimpleFsm.Chain.{Rests}
use c_embedded_utils.SimpleFsm.Resolve.{resolve_transitions_lem}

abbrev pub is_success : ErrorCode → Bool
is_success err_none = true
is_success _ = false

module _ {C E : Type 0} where
  -- The call on `fsm` ran the handler that gave `next_state` and `context`, came to rest from there, and
  -- left the machine running or not as `up` has it for the code.
  pub record Ran (up : ErrorCode → Bool) (fsm : SimpleFsm C E) (from : ℕ) (next_state : ℕ)
      (context : C) (r : Option (ErrorCode × SimpleFsm C E × C)) : Type 0 where
    pub code : ErrorCode
    pub state : ℕ
    pub context' : C
    pub returns : r ≡ some (code, record fsm { started = up code; state = state }, context')
    pub rests :
        Rests true fsm.config fsm.config.max_transition_count
          (record { state = from; context = context; wanted = next_state })
          code
          state
          context'
    pub state_in : state < fsm.config.state_count

  -- The last lines of `simple_fsm_start`: an error stops the machine again.
  reported :
      (fsm : SimpleFsm C E) (code : ErrorCode) (s : ℕ) (x : C)
      → stop_on_error code (record fsm { started = true; state = s }) x
        ≡ some (code, record fsm { started = is_success code; state = s }, x)
  unfolding stop_on_error
  reported fsm err_none s x = refl
  reported fsm code s x = refl

  -- `simple_fsm_start` on a stopped machine enters the initial state and follows the transitions from
  -- there until the machine rests; the machine runs afterwards exactly if the code is ERR_NONE.
  pub start_lem :
      (fsm : SimpleFsm C E) (context : C) (handler : StateDelegates C E)
      → IsConfig fsm.config
      → get_elem? fsm.config.state_delegates fsm.config.initial_state ≡ some handler
      → let (next_state, entered) =
          handler.on_entry_handler
            (record { started = true; state = fsm.config.initial_state })
            context in
        Ran is_success fsm fsm.config.initial_state next_state entered
          (start (record fsm { started = false }) context)
  unfolding start
  start_lem fsm context handler v found =
      let begun = record fsm { started = true; state = fsm.config.initial_state } in
      let there = handler.on_entry_handler (running begun) context in
      let res =
        resolve_transitions_lem begun there.1 there.0
          (record { config_valid = v; state_in = v.initial_in }) in
      record {
        code = res.code;
        state = res.state;
        context' = res.context';
        returns =
            rw (found, ◌>>=◌)
              (rw (res.returns, ◌>>=◌) (reported fsm res.code res.state res.context'));
        rests = res.rests;
        state_in = res.state_in;
      }

  -- `simple_fsm_on_event` on a running machine hands the event to its state and follows the
  -- transitions from there until the machine rests; the machine runs on, whatever the code.
  pub on_event_lem :
      (fsm : SimpleFsm C E) (event : E) (context : C) (handler : StateDelegates C E)
      → IsValid fsm
      → get_elem? fsm.config.state_delegates fsm.state ≡ some handler
      → let (next_state, handled) =
          handler.on_event_handler (record { started = true; state = fsm.state }) event context in
        Ran
          (λ code. true)
          fsm
          fsm.state
          next_state
          handled
          (on_event (record fsm { started = true }) event context)
  unfolding on_event
  on_event_lem fsm event context handler v found =
      let up = record fsm { started = true } in
      let there = handler.on_event_handler (running up) event context in
      let res =
        resolve_transitions_lem up there.1 there.0
          (record { config_valid = v.config_valid; state_in = v.state_in }) in
      record {
        code = res.code;
        state = res.state;
        context' = res.context';
        returns = rw (found, ◌>>=◌) res.returns;
        rests = res.rests;
        state_in = res.state_in;
      }

  -- `simple_fsm_force_stop` on a running machine runs the exit handler of its state once, stops the
  -- machine there, and reports whether the handler asked for another state.
  pub force_stop_lem :
      (fsm : SimpleFsm C E) (context : C) (handler : StateDelegates C E)
      → get_elem? fsm.config.state_delegates fsm.state ≡ some handler
      → let (next_state, left) =
          handler.on_exit_handler (record { started = true; state = fsm.state }) context in
        force_stop (record fsm { started = true }) context
        ≡ some (
          if next_state == fsm.state then err_none else err_incomplete,
          record fsm { started = false },
          left,
        )
  unfolding force_stop
  force_stop_lem fsm context handler found = rw (found, ◌>>=◌)

  -- A machine that runs refuses to start, and one that does not run refuses events and stops, each with
  -- its code; no handler is called and nothing changes.
  pub refused_calls :
      (fsm : SimpleFsm C E) (event : E) (context : C)
      → (start (record fsm { started = true }) context
          ≡ some (err_noop, record fsm { started = true }, context))
        × (on_event (record fsm { started = false }) event context
            ≡ some (err_not_initialised, record fsm { started = false }, context))
        × (force_stop (record fsm { started = false }) context
            ≡ some (err_noop, record fsm { started = false }, context))
  unfolding start on_event force_stop
  refused_calls fsm event context = (refl, refl, refl)

  -- `simple_fsm_init` accepts a configuration with a limit above 0, an initial state that exists and a
  -- set of callbacks for each state; the machine is then valid, stopped, and in the initial state.
  pub fsm_init_lem :
      (fsm : SimpleFsm C E) (c : SimpleFsmConfig C E)
      → IsConfig c
      → (init fsm c
          ≡ (err_none, record fsm { started = false; config = c; state = c.initial_state }))
        × IsValid (init fsm c).1
  unfolding init validate_config
  fsm_init_lem fsm c v =
      let made : init fsm c
          ≡ (err_none, record fsm { started = false; config = c; state = c.initial_state }) =
        ground arith in
      (
        made,
        subst (λ r. IsValid r.1) (sym made) (record { config_valid = v; state_in = v.initial_in }),
      )
