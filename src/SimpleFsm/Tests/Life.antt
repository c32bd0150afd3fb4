-- ===== src/SimpleFsm/Tests/Life.antt =====
-- Whole lives of the machine of three states, and a measure of its transitions.
use c_embedded_utils.Common.{
  zero, suc, ap, ◌∙◌, subst, get_elem?, if◌then◌else◌, ◌==◌, ◌<◌, ℕ, List, [], ◌∷◌, ◌≡◌, refl, some,
  arith, true,
}
use c_embedded_utils.ErrorCode.{ErrorCode, err_none, err_noop, err_not_initialised}
use c_embedded_utils.SimpleFsm.{
  Running, StateDelegates, SimpleFsm, start, on_event, force_stop, resolve_transitions,
  stop_on_error,
}
use c_embedded_utils.SimpleFsm.Chain.{Point, Step}
use c_embedded_utils.SimpleFsm.Trace.{event, traced_fsm, entry, exit}
use c_embedded_utils.SimpleFsm.Session.{Call, starts, stops, gives, run, Session}
use c_embedded_utils.SimpleFsm.Measured.{InTime, on_event_measured}
use c_embedded_utils.SimpleFsm.Tests.{plain, passing, machine, three_states, machine-IsValid}

abbrev life : List (Call ℕ)
life = gives 1 ∷ starts ∷ starts ∷ gives 1 ∷ gives 0 ∷ stops ∷ starts ∷ []

life-run :
    run life (traced_fsm machine) ([], [])
    ≡ some (
      (gives 1, err_not_initialised)
          ∷ (starts, err_none)
          ∷ (starts, err_noop)
          ∷ (gives 1, err_none)
          ∷ (gives 0, err_none)
          ∷ (stops, err_none)
          ∷ (starts, err_none)
          ∷ [],
      record (traced_fsm machine) { started = true },
      (
        10 ∷ 30 ∷ 10 ∷ 32 ∷ 22 ∷ 12 ∷ 31 ∷ 11 ∷ 30 ∷ 20 ∷ 10 ∷ [],
        entry 0
            ∷ exit 0
            ∷ entry 0
            ∷ exit 2
            ∷ event 2
            ∷ entry 2
            ∷ exit 1
            ∷ entry 1
            ∷ exit 0
            ∷ event 0
            ∷ entry 0
            ∷ [],
      ),
    )
unfolding run start on_event force_stop resolve_transitions stop_on_error
life-run = refl

-- How many transitions the three states make of a request.
abbrev measure : Point (List ℕ) → ℕ
measure p = if p.wanted == p.state then 0 else if p.wanted == 1 then 2 else 1

exit_stays :
    (i : ℕ) (h : StateDelegates (List ℕ) ℕ)
    → get_elem? three_states.state_delegates i ≡ some h
    → (r : Running) (log : List ℕ) → (h.on_exit_handler r log).0 ≡ r.state
exit_stays zero h e r log =
    let same : plain ≡ h = cc e in
    subst (λ (h : StateDelegates (List ℕ) ℕ). (h.on_exit_handler r log).0 ≡ r.state) same refl
exit_stays (suc zero) h e r log =
    let same : passing ≡ h = cc e in
    subst (λ (h : StateDelegates (List ℕ) ℕ). (h.on_exit_handler r log).0 ≡ r.state) same refl
exit_stays (suc (suc zero)) h e r log =
    let same : plain ≡ h = cc e in
    subst (λ (h : StateDelegates (List ℕ) ℕ). (h.on_exit_handler r log).0 ≡ r.state) same refl
exit_stays (suc (suc (suc i))) h e r log = cc

entry_asks :
    (i : ℕ) (h : StateDelegates (List ℕ) ℕ)
    → get_elem? three_states.state_delegates i ≡ some h
    → (log : List ℕ)
    → (h.on_entry_handler (record { started = true; state = i }) log).0 ≡ (if i == 1 then 2 else i)
entry_asks zero h e log =
    let same : plain ≡ h = cc e in
    subst
      (λ (h : StateDelegates (List ℕ) ℕ).
        (h.on_entry_handler (record { started = true; state = 0 }) log).0 ≡ 0)
      same refl
entry_asks (suc zero) h e log =
    let same : passing ≡ h = cc e in
    subst
      (λ (h : StateDelegates (List ℕ) ℕ).
        (h.on_entry_handler (record { started = true; state = 1 }) log).0 ≡ 2)
      same refl
entry_asks (suc (suc zero)) h e log =
    let same : plain ≡ h = cc e in
    subst
      (λ (h : StateDelegates (List ℕ) ℕ).
        (h.on_entry_handler (record { started = true; state = 2 }) log).0 ≡ 2)
      same refl
entry_asks (suc (suc (suc i))) h e log = cc

measure_falls : (p q : Point (List ℕ)) → Step true three_states p q → measure q < measure p
measure_falls p q st =
    let left =
      exit_stays p.state st.leaves.handler st.leaves.found
        (record { started = true; state = p.state }) p.context in
    let wanted : q.state ≡ p.wanted = ground (arith, st.leaves.asked, left) in
    let asked : q.wanted ≡ (if q.state == 1 then 2 else q.state) =
      ap (λ t. t.0) st.entered ∙ entry_asks q.state st.handler' st.found' st.left in
    ground (arith, wanted, asked, st.leaves.restless)

on_event_measured_example :
    (code : ErrorCode) × (s : ℕ) × (log : List ℕ) × (on_event
        (record machine { started = true })
        1
        []
      ≡ some (code, record machine { started = true; state = s }, log))
    × InTime three_states (record { state = 0; context = 20 ∷ []; wanted = 1 }) code s log
on_event_measured_example =
    on_event_measured machine 1 [] plain measure machine-IsValid refl measure_falls
      (λ p. ground arith)
