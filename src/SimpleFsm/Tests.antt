-- ===== src/SimpleFsm/Tests.antt =====
-- A machine of three states, whose context is the log of its callbacks, newest first.
mod Life
use c_embedded_utils.Common.{
  zero, suc, ap, ◌∙◌, subst, get_elem?, if◌then◌else◌, ◌==◌, ◌<◌, ◌⊎◌, ℕ, List, [], ◌∷◌, ◌+◌, ◌≡◌,
  refl, some, arith, true, false,
}
use c_embedded_utils.ErrorCode.{
  ErrorCode, err_none, err_timeout, err_out_of_bounds, err_noop, err_not_initialised,
}
use c_embedded_utils.SimpleFsm.{
  Running, StateDelegates, SimpleFsmConfig, SimpleFsm, IsConfig, IsValid, start, on_event,
  force_stop, init, resolve_transitions, stop_on_error,
}
use c_embedded_utils.SimpleFsm.Chain.{Point, Step, Steps, stay, go}
use c_embedded_utils.SimpleFsm.Settles.{on_event_settles}
use c_embedded_utils.SimpleFsm.Trace.{Trace, traced_config, entry, exit}
use c_embedded_utils.SimpleFsm.Session.{Call, starts, stops, gives, run, any_spoils, Session, now}
use c_embedded_utils.SimpleFsm.Measured.{on_event_measured}
use c_embedded_utils.SimpleFsm.Resolve.{Resolved, resolve_transitions_lem}
use c_embedded_utils.SimpleFsm.Calls.{
  Ran, is_success, start_lem, on_event_lem, force_stop_lem, refused_calls, fsm_init_lem,
}

-- A state that stays where it is, and goes where the event says; 10 is logged for an entry, 20 for an
-- event and 30 for an exit.
abbrev pub plain : StateDelegates (List ℕ) ℕ
plain = record {
  on_entry_handler = λ r log. (r.state, (10 + r.state) ∷ log);
  on_event_handler = λ r e log. (e, (20 + r.state) ∷ log);
  on_exit_handler = λ r log. (r.state, (30 + r.state) ∷ log);
}

-- A state that asks for state 2 on entry.
abbrev pub passing : StateDelegates (List ℕ) ℕ
passing = record {
  on_entry_handler = λ r log. (2, (10 + r.state) ∷ log);
  on_event_handler = λ r e log. (e, (20 + r.state) ∷ log);
  on_exit_handler = λ r log. (r.state, (30 + r.state) ∷ log);
}

abbrev pub three_states : SimpleFsmConfig (List ℕ) ℕ
three_states = record {
  state_delegates = plain ∷ passing ∷ plain ∷ [];
  state_count = 3;
  initial_state = 0;
  max_transition_count = 4;
}

pub three_states-IsConfig : IsConfig three_states
three_states-IsConfig = omega arith

abbrev pub machine : SimpleFsm (List ℕ) ℕ
machine = record { started = false; config = three_states; state = 0; loop_count = 0 }

pub machine-IsValid : IsValid machine
machine-IsValid = record { config_valid = three_states-IsConfig; state_in = omega arith }

-- Out of 0, into 1, out of 1, into 2.
through_one :
    on_event (record machine { started = true }) 1 []
    ≡ some (err_none, record machine { started = true; state = 2 }, 12 ∷ 31 ∷ 11 ∷ 30 ∷ 20 ∷ [])
unfolding on_event resolve_transitions
through_one = refl

no_such_state :
    on_event (record machine { started = true }) 3 []
    ≡ some (err_out_of_bounds, record machine { started = true }, 30 ∷ 20 ∷ [])
unfolding on_event resolve_transitions
no_such_state = refl

-- A transition that settles is reported as a timeout where the limit is 1.
limit_of_one :
    on_event
      (record machine { started = true; config = record three_states { max_transition_count = 1 } })
      2
      []
    ≡ some (
      err_timeout,
      record machine {
        started = true;
        config = record three_states { max_transition_count = 1 };
        state = 2;
      },
      12 ∷ 30 ∷ 20 ∷ [],
    )
unfolding on_event resolve_transitions
limit_of_one = refl

resolve_transitions_lem_example : Resolved 4 machine [] 1 (resolve_transitions machine [] 1)
resolve_transitions_lem_example = resolve_transitions_lem machine [] 1 machine-IsValid

start_lem_example :
    Ran is_success machine 0 0 (10 ∷ []) (start (record machine { started = false }) [])
start_lem_example = start_lem machine [] plain three_states-IsConfig refl

on_event_lem_example :
    Ran (λ code. true) machine 0 1 (20 ∷ []) (on_event (record machine { started = true }) 1 [])
on_event_lem_example = on_event_lem machine 1 [] plain machine-IsValid refl

force_stop_lem_example :
    force_stop (record machine { started = true }) []
    ≡ some (err_none, record machine { started = false }, 30 ∷ [])
force_stop_lem_example = force_stop_lem machine [] plain refl

refused_calls_example :
    (start (record machine { started = true }) []
      ≡ some (err_noop, record machine { started = true }, []))
    × (on_event (record machine { started = false }) 1 []
        ≡ some (err_not_initialised, record machine { started = false }, []))
    × (force_stop (record machine { started = false }) []
        ≡ some (err_noop, record machine { started = false }, []))
refused_calls_example = refused_calls machine 1 []

fsm_init_lem_example :
    (init machine three_states
      ≡ (err_none, record machine { started = false; config = three_states; state = 0 }))
    × IsValid (init machine three_states).1
fsm_init_lem_example = fsm_init_lem machine three_states three_states-IsConfig

-- Out of 0 into 1, which asks for 2 on entry, and out of 1 into 2: two transitions.
through_one-Steps :
    Steps true three_states 2
      (record { state = 0; context = 20 ∷ []; wanted = 1 })
      (record { state = 2; context = 12 ∷ 31 ∷ 11 ∷ 30 ∷ 20 ∷ []; wanted = 2 })
through_one-Steps =
    go {q = record { state = 1; context = 11 ∷ 30 ∷ 20 ∷ []; wanted = 2 }}
      (record {
        left = 30 ∷ 20 ∷ [];
        leaves = record {
          handler = plain;
          found = refl;
          restless = omega arith;
          context_left = refl;
          asked = refl;
        };
        exists = omega arith;
        handler' = passing;
        found' = refl;
        entered = refl;
      })
      (go
        (record {
          left = 31 ∷ 11 ∷ 30 ∷ 20 ∷ [];
          leaves = record {
            handler = passing;
            found = refl;
            restless = omega arith;
            context_left = refl;
            asked = refl;
          };
          exists = omega arith;
          handler' = plain;
          found' = refl;
          entered = refl;
        })
        stay)

on_event_settles_example :
    on_event (record machine { started = true }) 1 []
    ≡ some (err_none, record machine { started = true; state = 2 }, 12 ∷ 31 ∷ 11 ∷ 30 ∷ 20 ∷ [])
on_event_settles_example =
    on_event_settles machine 1 [] plain 2
      (record { state = 2; context = 12 ∷ 31 ∷ 11 ∷ 30 ∷ 20 ∷ []; wanted = 2 }) machine-IsValid refl
      through_one-Steps refl (omega arith)
