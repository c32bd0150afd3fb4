-- ===== src/SimpleFsm/Measured.antt =====
-- Machines whose transitions come to an end by a measure.
use c_embedded_utils.Common.{
  ℕ, ◌+◌, ◌≤◌, ◌<◌, ◌≡◌, ◌⊎◌, inl, inr, refl, true, some, get_elem?, arith,
}
use c_embedded_utils.ErrorCode.{ErrorCode, err_none, err_out_of_bounds}
use c_embedded_utils.SimpleFsm.{StateDelegates, SimpleFsmConfig, SimpleFsm, IsValid, on_event}
use c_embedded_utils.SimpleFsm.Chain.{
  Point, Leaves, Step, Steps, stay, go, Rests, settled, exhausted, lost,
}
use c_embedded_utils.SimpleFsm.Calls.{on_event_lem}

-- The two ends of a call that is not cut off: at a point that asks for its own state, or at one whose
-- exit handler has been run and from which a state is asked for that does not exist.
abbrev pub InTime : {C E : Type 0} → SimpleFsmConfig C E → Point C → ErrorCode → ℕ → C → Type 0
InTime {C = C} c p code s x =
    ((code ≡ err_none)
      × (n : ℕ) × (q : Point C) × Steps true c n p q
      × (q.wanted ≡ q.state)
      × (q.state ≡ s)
      × (q.context ≡ x))
    ⊎ ((code ≡ err_out_of_bounds)
        × (n target : ℕ) × (q : Point C) × Steps true c n p q
        × (q.state ≡ s)
        × Leaves true c q target x
        × (c.state_count ≤ target))

module _ {C E : Type 0} (c : SimpleFsmConfig C E) (measure : Point C → ℕ)
    (falls : (p q : Point C) → Step true c p q → measure q < measure p) where
  Steps-measure : {n : ℕ} {p q : Point C} → Steps true c n p q → measure q + n ≤ measure p
  Steps-measure stay = omega arith
  Steps-measure (go {p = p} {q = q} st steps) = omega (arith, falls p q st, Steps-measure steps)

  Rests-measure :
      {limit : ℕ} {p : Point C} {code : ErrorCode} {s : ℕ} {x : C}
      → Rests true c limit p code s x
      → measure p < limit
      → InTime c p code s x
  Rests-measure (settled {s = s} {x = x} n k steps) h =
      inl (refl, n, record { state = s; context = x; wanted = s }, steps, refl, refl, refl)
  Rests-measure (exhausted q steps) h = absurd (omega (arith, Steps-measure steps))
  Rests-measure (lost n target q k steps leaves out) h =
      inr (refl, n, target, q, steps, refl, leaves, out)

-- A valid running machine with a measure that each transition lowers, from whatever state,
-- context and request, and that is always below the limit on transitions: no event times out, and
-- the machine runs on. From what the event handler of its state asks for, the machine makes
-- transitions up to a state from which either no other state is asked for: then the call returns
-- ERR_NONE, with that state and the context there; or the exit handler is run and a state is
-- asked for that does not exist: then it returns ERR_OUT_OF_BOUNDS, with that state and the
-- context that the exit handler left.
pub on_event_measured :
    {C E : Type 0} (fsm : SimpleFsm C E) (e : E) (context : C) (handler : StateDelegates C E)
    (measure : Point C → ℕ)
    → IsValid fsm
    → get_elem? fsm.config.state_delegates fsm.state ≡ some handler
    → ((p q : Point C) → Step true fsm.config p q → measure q < measure p)
    → ((p : Point C) → measure p < fsm.config.max_transition_count)
    → let (next_state, handled) =
        handler.on_event_handler (record { started = true; state = fsm.state }) e context in
      (code : ErrorCode) × (s : ℕ) × (context' : C) × (on_event
          (record fsm { started = true })
          e
          context
        ≡ some (code, record fsm { started = true; state = s }, context'))
      × InTime fsm.config
          (record { state = fsm.state; context = handled; wanted = next_state })
          code
          s
          context'
on_event_measured fsm e context handler measure v found falls low =
    let ran = on_event_lem fsm e context handler v found in
    (
      ran.code,
      ran.state,
      ran.context',
      ran.returns,
      Rests-measure fsm.config measure falls ran.rests (low _),
    )
