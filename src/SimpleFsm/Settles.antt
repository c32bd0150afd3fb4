-- ===== src/SimpleFsm/Settles.antt =====
-- Machines whose callbacks settle.
use c_embedded_utils.Common.{
  ℕ, suc, ◌-◌, ◌<◌, ◌≡◌, refl, sym, ap, ◌∙◌, ap₂, ◌≤◌, subst, Bool, true, false, some, Option, ◌==◌,
  if◌then◌else◌, get_elem?, arith,
}
use c_embedded_utils.ErrorCode.{ErrorCode, err_none}
use c_embedded_utils.SimpleFsm.{
  StateDelegates, SimpleFsmConfig, SimpleFsm, IsValid, IsConfig, on_event, start,
}
use c_embedded_utils.SimpleFsm.Chain.{
  at, Point, Leaves, Step, Steps, stay, go, Rests, settled, exhausted, lost,
}
use c_embedded_utils.SimpleFsm.Calls.{is_success, on_event_lem, start_lem}

module _ {C E : Type 0} (started : Bool) (c : SimpleFsmConfig C E) where
  -- What the exit handler of a state makes of a request: the target and the context.
  abbrev exit_of : Point C → StateDelegates C E → ℕ × C
  exit_of p h =
      let (back, left) = h.on_exit_handler (at started c p.state) p.context in
      (if back == p.state then p.wanted else back, left)

  Leaves-unique :
      {p : Point C} {t u : ℕ} {x y : C}
      → Leaves started c p t x
      → Leaves started c p u y
      → ◌≡◌ {A = ℕ × C} (t, x) (u, y)
  Leaves-unique {p} {t} {u} {x} {y} a b =
      let same : a.handler ≡ b.handler = cc (a.found, b.found) in
      let first : ◌≡◌ {A = ℕ × C} (t, x) (exit_of p a.handler) = cc (a.asked, a.context_left) in
      let second : ◌≡◌ {A = ℕ × C} (u, y) (exit_of p b.handler) = cc (b.asked, b.context_left) in
      first ∙ ap (exit_of p) same ∙ sym second

  Step-unique : {p q r : Point C} → Step started c p q → Step started c p r → q ≡ r
  Step-unique {p} {q} {r} a b =
      let out = Leaves-unique a.leaves b.leaves in
      let same_state : q.state ≡ r.state = ap (λ t. t.0) out in
      let same_left : a.left ≡ b.left = ap (λ t. t.1) out in
      let same : a.handler' ≡ b.handler' = cc (a.found', b.found', same_state) in
      let enter : StateDelegates C E → ℕ → C → ℕ × C =
        λ h s x. h.on_entry_handler (at started c s) x in
      let first : ◌≡◌ {A = ℕ × C} (q.wanted, q.context) (enter a.handler' q.state a.left) =
        a.entered in
      let second : ◌≡◌ {A = ℕ × C} (r.wanted, r.context) (enter b.handler' r.state b.left) =
        b.entered in
      let entered : ◌≡◌ {A = ℕ × C} (q.wanted, q.context) (r.wanted, r.context) =
        cc (first, second, same, same_state, same_left) in
      let make : ℕ → ℕ × C → Point C = λ s t. record { state = s; wanted = t.0; context = t.1 } in
      ap₂ make same_state entered

  -- A machine at rest does not move.
  rest_stays : {p q : Point C} → p.wanted ≡ p.state → ¬ Step started c p q
  rest_stays e a = a.leaves.restless e

  lost_stays :
      {p q : Point C} {target : ℕ} {x : C}
      → Leaves started c p target x
      → c.state_count ≤ target
      → ¬ Step started c p q
  lost_stays leaves out a =
      let same = ap (λ t. t.0) (Leaves-unique leaves a.leaves) in omega (arith, same, a.exists)

  Steps-from : {n : ℕ} {p q r : Point C} → p ≡ q → Steps started c n p r → Steps started c n q r
  Steps-from {n} {p} {q} {r} e steps = subst (λ t. Steps started c n t r) e steps

  -- From a point from which the machine can settle, it comes to rest there and nowhere else.
  settles :
      (limit : ℕ) {n : ℕ} {p q : Point C} {code : ErrorCode} {s : ℕ} {x : C}
      → Steps started c n p q
      → q.wanted ≡ q.state
      → n < limit
      → Rests started c limit p code s x
      → (code ≡ err_none) × (s ≡ q.state) × (x ≡ q.context)
  settles limit stay e h (settled _ _ stay) = (refl, refl, refl)
  settles limit stay e h (settled _ _ (go a _)) = absurd (rest_stays e a)
  settles limit stay e h (exhausted _ stay) = absurd (omega arith)
  settles limit stay e h (exhausted _ (go a _)) = absurd (rest_stays e a)
  settles limit stay e h (lost _ _ _ _ stay leaves _) = absurd (leaves.restless e)
  settles limit stay e h (lost _ _ _ _ (go a _) _ _) = absurd (rest_stays e a)
  settles limit (go a _) e h (settled _ _ stay) = absurd (rest_stays refl a)
  settles limit (go a steps) e h (settled (suc m) k (go b steps')) =
      let same = Step-unique b a in
      settles (limit - 1) steps e (omega arith) (settled m (omega arith) (Steps-from same steps'))
  settles limit (go a _) e h (exhausted _ stay) = absurd (omega arith)
  settles limit (go a steps) e h (exhausted q (go {n = m} b steps')) =
      let same = Step-unique b a in
      settles m steps e (omega arith) (exhausted q (Steps-from same steps'))
  settles limit (go a _) e h (lost _ _ _ _ stay leaves out) = absurd (lost_stays leaves out a)
  settles limit (go a steps) e h (lost (suc m) target q k (go b steps') leaves out) =
      let same = Step-unique b a in
      settles (limit - 1) steps e (omega arith)
        (lost m target q (omega arith) (Steps-from same steps') leaves out)

module _ {C E : Type 0} where
  -- An event to a running machine whose callbacks, from the state that the event handler asks for,
  -- settle in fewer transitions than the limit: the call returns ERR_NONE with the machine in the state
  -- where they settle, and with the context that they leave.
  pub on_event_settles :
      (fsm : SimpleFsm C E) (event : E) (context : C) (handler : StateDelegates C E) (n : ℕ)
      (rest : Point C)
      → IsValid fsm
      → get_elem? fsm.config.state_delegates fsm.state ≡ some handler
      → let (next_state, handled) =
          handler.on_event_handler (record { started = true; state = fsm.state }) event context in
        Steps true fsm.config n
          (record { state = fsm.state; context = handled; wanted = next_state })
          rest
        → rest.wanted ≡ rest.state
        → n < fsm.config.max_transition_count
        → on_event (record fsm { started = true }) event context
          ≡ some (err_none, record fsm { started = true; state = rest.state }, rest.context)
  on_event_settles fsm event context handler n rest v found steps e h =
      let ran = on_event_lem fsm event context handler v found in
      let (code, state, context') =
        settles true fsm.config fsm.config.max_transition_count steps e h ran.rests in
      rw (ran.returns, code, state, context')

  ends_in :
      (fsm : SimpleFsm C E) (code : ErrorCode) (s : ℕ) (x : C) (rest : Point C)
      → code ≡ err_none
      → s ≡ rest.state
      → x ≡ rest.context
      → ◌≡◌ {A = Option (ErrorCode × SimpleFsm C E × C)}
          (some (code, record fsm { started = is_success code; state = s }, x))
          (some (err_none, record fsm { started = true; state = rest.state }, rest.context))
  ends_in fsm code s x rest e f g = rw (e, f, g)

  -- A start of a stopped machine whose callbacks, from the state that the entry of the initial state
  -- asks for, settle in fewer transitions than the limit: the call returns ERR_NONE with the machine
  -- running in the state where they settle, and with the context that they leave.
  pub start_settles :
      (fsm : SimpleFsm C E) (context : C) (handler : StateDelegates C E) (n : ℕ) (rest : Point C)
      → IsConfig fsm.config
      → get_elem? fsm.config.state_delegates fsm.config.initial_state ≡ some handler
      → let (next_state, entered) =
          handler.on_entry_handler
            (record { started = true; state = fsm.config.initial_state })
            context in
        Steps true fsm.config n
          (record { state = fsm.config.initial_state; context = entered; wanted = next_state })
          rest
        → rest.wanted ≡ rest.state
        → n < fsm.config.max_transition_count
        → start (record fsm { started = false }) context
          ≡ some (err_none, record fsm { started = true; state = rest.state }, rest.context)
  start_settles fsm context handler n rest v found steps e h =
      let ran = start_lem fsm context handler v found in
      let (code, state, context') =
        settles true fsm.config fsm.config.max_transition_count steps e h ran.rests in
      ran.returns ∙ ends_in fsm ran.code ran.state ran.context' rest code state context'
