-- ===== src/SimpleFsm/Trace.antt =====
-- The order in which the callbacks of a machine are called: each callback leaves a mark.
use c_embedded_utils.Common.{
  ℕ, zero, suc, ◌≡◌, ◌⊎◌, inl, inr, refl, sym, ap, ◌∙◌, subst, Bool, some, get_elem?, length, arith,
  List, [], ◌∷◌,
}
use c_embedded_utils.ErrorCode.{ErrorCode, err_none, err_timeout, err_out_of_bounds}
use c_embedded_utils.SimpleFsm.{StateDelegates, SimpleFsmConfig, SimpleFsm, IsConfig}
use c_embedded_utils.SimpleFsm.Chain.{
  at, Point, Leaves, Step, Steps, stay, go, Rests, settled, exhausted, lost,
}

-- A call of a callback, named by its kind and by its place in the array of the callback sets.
pub data Mark : Type 0 where
  entry exit event : ℕ → Mark

module _ {C E : Type 0} where
  -- The callbacks at place `i`. The mark holds the place, not the state that the callback is told.
  abbrev pub traced : ℕ → StateDelegates C E → StateDelegates (C × List Mark) E
  traced i d = record {
    on_entry_handler =
        λ r t. let (next, x) = d.on_entry_handler r t.0 in (next, (x, entry i ∷ t.1));
    on_event_handler =
        λ r e t. let (next, x) = d.on_event_handler r e t.0 in (next, (x, event i ∷ t.1));
    on_exit_handler = λ r t. let (next, x) = d.on_exit_handler r t.0 in (next, (x, exit i ∷ t.1));
  }

  -- Each callback set with its place; `place` gives that of the first, the second and so on.
  abbrev pub traced_all :
      (ℕ → ℕ) → List (StateDelegates C E) → List (StateDelegates (C × List Mark) E)
  traced_all place [] = []
  traced_all place (d ∷ ds) = traced (place zero) d ∷ traced_all (λ n. place (suc n)) ds

  -- The machine whose callbacks are marked.
  abbrev pub traced_config : SimpleFsmConfig C E → SimpleFsmConfig (C × List Mark) E
  traced_config c = record {
    state_delegates = traced_all (λ n. n) c.state_delegates;
    state_count = c.state_count;
    initial_state = c.initial_state;
    max_transition_count = c.max_transition_count;
  }

  abbrev pub traced_fsm : SimpleFsm C E → SimpleFsm (C × List Mark) E
  traced_fsm fsm = record {
    started = fsm.started;
    config = traced_config fsm.config;
    state = fsm.state;
    loop_count = fsm.loop_count;
  }

-- The marks, the newest first, of a walk that began in state `from` after the marks `before`, and that
-- is in the last state: each state is left once before the next one is entered.
pub data Walk (before : List Mark) (from : ℕ) : List Mark → ℕ → Type 0 where
  here : Walk before from before from
  moved :
      {ms : List Mark} {s : ℕ} (t : ℕ)
      → Walk before from ms s
      → Walk before from (entry t ∷ exit s ∷ ms) t

-- The marks of a whole call: a walk that ends in the state that is reported. Where a state was asked for
-- that does not exist, the reported state has been left once more.
pub data Trace (before : List Mark) (from : ℕ) : ErrorCode → List Mark → ℕ → Type 0 where
  arrived :
      {code : ErrorCode} {ms : List Mark} {s : ℕ}
      → (code ≡ err_none) ⊎ (code ≡ err_timeout)
      → Walk before from ms s
      → Trace before from code ms s
  stranded :
      {ms : List Mark} {s : ℕ}
      → Walk before from ms s
      → Trace before from err_out_of_bounds (exit s ∷ ms) s

module _ {C E : Type 0} (started : Bool) (c : SimpleFsmConfig C E) where
  pub handler-traced :
      (place : ℕ → ℕ) (ds : List (StateDelegates C E)) (s : ℕ)
      (h : StateDelegates (C × List Mark) E)
      → get_elem? (traced_all place ds) s ≡ some h
      → (d : StateDelegates C E) × (h ≡ traced (place s) d)
  handler-traced place [] s h e = cc
  handler-traced place (d ∷ ds) zero h e = (d, cc e)
  handler-traced place (d ∷ ds) (suc s) h e = handler-traced (λ n. place (suc n)) ds s h e

  left_mark :
      {p : Point (C × List Mark)} {target : ℕ} {t : C × List Mark}
      → Leaves started (traced_config c) p target t
      → t.1 ≡ exit p.state ∷ p.context.1
  left_mark {p} {target} {t} leaves =
      let (d, same) =
        handler-traced (λ n. n) c.state_delegates p.state leaves.handler leaves.found in
      ap (λ t. t.1) leaves.context_left
      ∙ ap (λ h. (h.on_exit_handler (at started (traced_config c) p.state) p.context).1.1) same

  Step-marks :
      {p q : Point (C × List Mark)}
      → Step started (traced_config c) p q
      → q.context.1 ≡ entry q.state ∷ exit p.state ∷ p.context.1
  Step-marks {p} {q} st =
      let (d, same) = handler-traced (λ n. n) c.state_delegates q.state st.handler' st.found' in
      ap (λ t. t.1.1) st.entered
      ∙ ap (λ h. (h.on_entry_handler (at started (traced_config c) q.state) st.left).1.1) same
      ∙ ap (◌∷◌ (entry q.state)) (left_mark st.leaves)

  module _ (before : List Mark) (from : ℕ) where
    steps_walk :
        {n : ℕ} {p q : Point (C × List Mark)}
        → Steps started (traced_config c) n p q
        → Walk before from p.context.1 p.state
        → Walk before from q.context.1 q.state
    steps_walk stay w = w
    steps_walk (go {p = p} {q = q} st steps) w =
        steps_walk steps
          (subst (λ ms. Walk before from ms q.state) (sym (Step-marks st)) (moved q.state w))

    pub Rests-Trace :
        {limit : ℕ} {p : Point (C × List Mark)} {code : ErrorCode} {s : ℕ} {t : C × List Mark}
        → Rests started (traced_config c) limit p code s t
        → Walk before from p.context.1 p.state
        → Trace before from code t.1 s
    Rests-Trace (settled n h steps) w = arrived (inl refl) (steps_walk steps w)
    Rests-Trace (exhausted q steps) w = arrived (inr refl) (steps_walk steps w)
    Rests-Trace (lost n target q h steps leaves out) w =
        subst (λ ms. Trace before from err_out_of_bounds ms q.state) (sym (left_mark leaves))
          (stranded (steps_walk steps w))

length-traced_all :
    {C E : Type 0} (place : ℕ → ℕ) (ds : List (StateDelegates C E))
    → length (traced_all place ds) ≡ length ds
length-traced_all place [] = refl
length-traced_all place (d ∷ ds) = ap suc (length-traced_all (λ n. place (suc n)) ds)

module _ {C E : Type 0} (c : SimpleFsmConfig C E) where
  pub traced-IsConfig : IsConfig c → IsConfig (traced_config c)
  traced-IsConfig v =
      let same = length-traced_all (λ n. n) c.state_delegates in
      record {
        delegates = omega (arith, same, v.delegates);
        limited = v.limited;
        initial_in = v.initial_in;
      }
