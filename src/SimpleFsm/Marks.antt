-- ===== src/SimpleFsm/Marks.antt =====
-- One call of a machine with marked callbacks, after any marks.
use c_embedded_utils.Common.{
  ℕ, ◌<◌, ◌≡◌, sym, ap, subst, Bool, true, false, some, get_elem?, get_elem?-lt, arith, List, ◌∷◌,
  if◌then◌else◌, ◌==◌, ◌∙◌,
}
use c_embedded_utils.ErrorCode.{ErrorCode, err_none, err_incomplete}
use c_embedded_utils.SimpleFsm.{
  SimpleFsmConfig, SimpleFsm, StateDelegates, IsConfig, on_event, start, force_stop,
}
use c_embedded_utils.SimpleFsm.Calls.{is_success, on_event_lem, start_lem, force_stop_lem}
use c_embedded_utils.SimpleFsm.Trace.{
  Mark, entry, exit, event, traced, traced_all, traced_config, traced-IsConfig, Walk, here, Trace,
  handler-traced, Rests-Trace,
}

module _ {C E : Type 0} (c : SimpleFsmConfig C E) where
  -- The machine with this configuration and marked callbacks.
  abbrev pub machine : Bool → ℕ → ℕ → SimpleFsm (C × List Mark) E
  machine started state loop_count = record {
    started = started;
    config = traced_config c;
    state = state;
    loop_count = loop_count;
  }

  module _ (v : IsConfig c) (s l : ℕ) (x : C) (before : List Mark) where
    traced_handler :
        (n : ℕ)
        → n < c.state_count
        → (h : StateDelegates (C × List Mark) E) × (d : StateDelegates C E) × (get_elem?
              (traced_all (λ n. n) c.state_delegates)
              n
            ≡ some h)
          × (h ≡ traced n d)
    traced_handler n inside =
        let valid = traced-IsConfig c v in
        let (h, found) =
          get_elem?-lt (traced_all (λ n. n) c.state_delegates) n (omega (arith, valid.delegates)) in
        let (d, same) = handler-traced true c (λ n. n) c.state_delegates n h found in
        (h, d, found, same)

    pub on_event_marks :
        (e : E)
        → s < c.state_count
        → (code : ErrorCode) × (s' : ℕ) × (x' : C) × (ms : List Mark) × (on_event
              (machine true s l)
              e
              (x, before)
            ≡ some (code, machine true s' l, (x', ms)))
          × (s' < c.state_count)
          × Trace (event s ∷ before) s code ms s'
    on_event_marks e inside =
        let (h, d, found, same) = traced_handler s inside in
        let ran =
          on_event_lem (machine true s l) e (x, before) h
            (record { config_valid = traced-IsConfig c v; state_in = inside }) found in
        let began =
          ap (λ h. (h.on_event_handler (record { started = true; state = s }) e (x, before)).1.1)
            same in
        (
          ran.code,
          ran.state,
          ran.context'.0,
          ran.context'.1,
          ran.returns,
          ran.state_in,
          Rests-Trace true c (event s ∷ before) s ran.rests
              (subst (λ ms. Walk (event s ∷ before) s ms s) (sym began) here),
        )

    pub start_marks :
        (code : ErrorCode) × (s' : ℕ) × (x' : C) × (ms : List Mark) × (start
            (machine false s l)
            (x, before)
          ≡ some (code, machine (is_success code) s' l, (x', ms)))
        × (s' < c.state_count)
        × Trace (entry c.initial_state ∷ before) c.initial_state code ms s'
    start_marks =
        let initial = c.initial_state in
        let (h, d, found, same) = traced_handler initial v.initial_in in
        let ran = start_lem (machine false s l) (x, before) h (traced-IsConfig c v) found in
        let began =
          ap
            (λ h. (h.on_entry_handler (record { started = true; state = initial }) (x, before)).1.1)
            same in
        (
          ran.code,
          ran.state,
          ran.context'.0,
          ran.context'.1,
          ran.returns,
          ran.state_in,
          Rests-Trace true c (entry initial ∷ before) initial ran.rests
              (subst (λ ms. Walk (entry initial ∷ before) initial ms initial) (sym began) here),
        )

    pub force_stop_marks :
        s < c.state_count
        → (code : ErrorCode) × (x' : C) × (force_stop (machine true s l) (x, before)
            ≡ some (code, machine false s l, (x', exit s ∷ before)))
    force_stop_marks inside =
        let (h, d, found, same) = traced_handler s inside in
        let left = d.on_exit_handler (record { started = true; state = s }) x in
        (
          if left.0 == s then err_none else err_incomplete,
          left.1,
          force_stop_lem (machine true s l) (x, before) (traced s d) (found ∙ ap some same),
        )
