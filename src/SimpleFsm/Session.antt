-- ===== src/SimpleFsm/Session.antt =====
-- Calls of a machine in sequence, and the order of the callbacks that they make.
use c_embedded_utils.Common.{
  ℕ, ◌≡◌, ◌⊎◌, inl, inr, refl, sym, subst, Bool, true, false, ◌||◌, Option, none, some, List, [],
  ◌∷◌, if◌then◌else◌, ◌>>=◌,
}
use c_embedded_utils.ErrorCode.{ErrorCode, err_timeout, err_out_of_bounds}
use c_embedded_utils.SimpleFsm.{SimpleFsm, on_event, start, force_stop}
use c_embedded_utils.SimpleFsm.Calls.{is_success}
use c_embedded_utils.SimpleFsm.Trace.{
  Mark, entry, exit, event, Walk, here, moved, Trace, arrived, stranded,
}

pub data Call (E : Type 0) : Type 0 where
  starts stops : Call E
  gives : E → Call E

-- The marks of a life, the newest first, and the state that has been entered and not been left: only
-- such a state is given events, it is left once, and only then is a state entered again.
pub data Session : List Mark → Option ℕ → Type 0 where
  fresh : Session [] none
  enters : {ms : List Mark} (s : ℕ) → Session ms none → Session (entry s ∷ ms) (some s)
  handles : {ms : List Mark} {s : ℕ} → Session ms (some s) → Session (event s ∷ ms) (some s)
  leaves : {ms : List Mark} {s : ℕ} → Session ms (some s) → Session (exit s ∷ ms) none

module _ {E : Type 0} where
  -- A start that fails stops the machine in a state that has been entered, and an event that asks for a
  -- state that does not exist leaves the machine in a state that has been left.
  abbrev pub spoils : Call E → ErrorCode → Bool
  spoils starts err_timeout = true
  spoils starts err_out_of_bounds = true
  spoils starts _ = false
  spoils (gives e) err_out_of_bounds = true
  spoils (gives e) _ = false
  spoils stops _ = false

  abbrev pub any_spoils : List (Call E × ErrorCode) → Bool
  any_spoils [] = false
  any_spoils ((call, code) ∷ replies) = spoils call code || any_spoils replies

module _ {C E : Type 0} where
  unfoldable pub perform : Call E → SimpleFsm C E → C → Option (ErrorCode × SimpleFsm C E × C)
  perform starts fsm context = start fsm context
  perform stops fsm context = force_stop fsm context
  perform (gives e) fsm context = on_event fsm e context

  -- The calls with their codes.
  unfoldable pub run :
      List (Call E) → SimpleFsm C E → C → Option (List (Call E × ErrorCode) × SimpleFsm C E × C)
  unfolding perform
  run [] fsm context = some ([], fsm, context)
  run (call ∷ calls) fsm context = do
    (code, fsm', context') ← perform call fsm context
    (replies, fsm'', context'') ← run calls fsm' context'
    some ((call, code) ∷ replies, fsm'', context'')

-- The state that a machine is in, if it runs.
abbrev pub now : Bool → ℕ → Option ℕ
now started state = if started then some state else none

module _ {before : List Mark} {from : ℕ} where
  Walk-Session :
      {ms : List Mark} {s : ℕ}
      → Walk before from ms s
      → Session before (some from)
      → Session ms (some s)
  Walk-Session here h = h
  Walk-Session (moved t w) h = enters t (leaves (Walk-Session w h))

-- After a call that spoils nothing the marks are those of a session.
abbrev pub Continues : {E : Type 0} → Call E → ErrorCode → List Mark → Bool → ℕ → Type 0
Continues call code ms started s = (spoils call code ≡ true) ⊎ Session ms (now started s)

module _ (E : Type 0) where
  pub Trace-event :
      {before ms : List Mark} {s s' : ℕ} {code : ErrorCode} (e : E)
      → Trace (event s ∷ before) s code ms s'
      → Session before (some s)
      → Continues (gives e) code ms true s'
  Trace-event e (arrived _ w) h = inr (Walk-Session w (handles h))
  Trace-event e (stranded w) h = inl refl

  pub Trace-start :
      {before ms : List Mark} {i s' : ℕ} {code : ErrorCode}
      → Trace (entry i ∷ before) i code ms s'
      → Session before none
      → Continues {E = E} starts code ms (is_success code) s'
  Trace-start {ms = ms} {s' = s'} (arrived (inl e) w) h =
      subst (λ code. Continues {E = E} starts code ms (is_success code) s') (sym e)
        (inr (Walk-Session w (enters _ h)))
  Trace-start {ms = ms} {s' = s'} (arrived (inr e) w) h =
      subst (λ code. Continues {E = E} starts code ms (is_success code) s') (sym e) (inl refl)
  Trace-start (stranded w) h = inl refl
