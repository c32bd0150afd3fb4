-- ===== src/SimpleFsm/Unmarked.antt =====
-- A machine with marked callbacks beside the machine itself.
use c_embedded_utils.Common.{
  ℕ, zero, suc, ◌+◌, ◌≡◌, refl, sym, ap, ◌∙◌, Bool, true, false, some, none, Option, leb, ◌==◌,
  if◌then◌else◌, get_elem?, get_elem?-lt, arith, List, [], ◌∷◌, Bool-cases, inl, inr,
}
use c_embedded_utils.ErrorCode.{ErrorCode}
use c_embedded_utils.SimpleFsm.{StateDelegates, SimpleFsm, running, IsValid, resolve_loop}
use c_embedded_utils.SimpleFsm.Resolve.{loop_lost, loop_go, loop_settled, loop_exhausted}
use c_embedded_utils.SimpleFsm.Trace.{
  Mark, entry, exit, traced, traced_all, traced_fsm, traced-IsConfig,
}

module _ {C E : Type 0} where
  pub get_elem?-traced_all :
      (place : ℕ → ℕ) (ds : List (StateDelegates C E)) (s : ℕ) (d : StateDelegates C E)
      → get_elem? ds s ≡ some d
      → get_elem? (traced_all place ds) s ≡ some (traced (place s) d)
  get_elem?-traced_all place [] s d e = cc
  get_elem?-traced_all place (d' ∷ ds) zero d e =
      ap (λ o. elim o [ none ↦ none | some t ↦ some (traced (place zero) t) ]) e
  get_elem?-traced_all place (d' ∷ ds) (suc s) d e =
      get_elem?-traced_all (λ n. place (suc n)) ds s d e

  -- A reply without the machine's configuration, and without the marks.
  abbrev pub brief : Option (ErrorCode × SimpleFsm C E × C) → Option (ErrorCode × ℕ × C)
  brief none = none
  brief (some (code, fsm, x)) = some (code, fsm.state, x)

  abbrev pub unmarked :
      Option (ErrorCode × SimpleFsm (C × List Mark) E × (C × List Mark))
      → Option (ErrorCode × ℕ × C)
  unmarked none = none
  unmarked (some (code, fsm, t)) = some (code, fsm.state, t.0)

  pub resolve_loop-traced :
      (fuel : ℕ) (fsm : SimpleFsm C E) (x : C) (ms : List Mark) (next_state count : ℕ)
      (limit_reached : Bool)
      → IsValid fsm
      → unmarked (resolve_loop fuel (traced_fsm fsm) (x, ms) next_state count limit_reached)
        ≡ brief (resolve_loop fuel fsm x next_state count limit_reached)
  unfolding resolve_loop
  resolve_loop-traced zero fsm x ms next_state count limit_reached v = refl
  resolve_loop-traced (suc fuel) fsm x ms next_state count true v =
      ap unmarked (loop_exhausted fuel (traced_fsm fsm) (x, ms) next_state count)
      ∙ sym (ap brief (loop_exhausted fuel fsm x next_state count))
  resolve_loop-traced (suc fuel) fsm x ms next_state count false v =
      let c = fsm.config in
      let marked = traced_fsm fsm in
      let valid : IsValid marked = record {
        config_valid = traced-IsConfig fsm.config v.config_valid;
        state_in = v.state_in;
      } in
      elim (Bool-cases (next_state == fsm.state)) [
        | inl rest ↦
            ap unmarked (loop_settled fuel marked (x, ms) next_state count (ground arith))
            ∙ sym (ap brief (loop_settled fuel fsm x next_state count (ground arith)))
        | inr move ↦
            let (d, found) =
              get_elem?-lt c.state_delegates fsm.state
                (omega (arith, v.state_in, v.config_valid.delegates)) in
            let found_traced = get_elem?-traced_all (λ n. n) c.state_delegates fsm.state d found in
            elim (Bool-cases (leb c.state_count (target d))) [
              | inl out ↦
                  ap unmarked (
                    loop_lost marked valid (x, ms) next_state count fuel move (traced fsm.state d)
                      found_traced out)
                  ∙ sym (ap brief (loop_lost fsm v x next_state count fuel move d found out))
              | inr inside ↦
                  let (d', found') =
                    get_elem?-lt c.state_delegates (target d)
                      (ground (arith, v.config_valid.delegates)) in
                  let found_traced' =
                    get_elem?-traced_all (λ n. n) c.state_delegates (target d) d' found' in
                  let to = record fsm { state = target d } in
                  let left = (d.on_exit_handler (running fsm) x).1 in
                  let there = d'.on_entry_handler (running to) left in
                  ap unmarked (
                    loop_go marked valid (x, ms) next_state count fuel move (traced fsm.state d)
                      found_traced inside (traced (target d) d') found_traced')
                  ∙ resolve_loop-traced fuel to there.1 (entry (target d) ∷ exit fsm.state ∷ ms)
                      there.0 (count + 1) (leb c.max_transition_count (count + 1))
                      (record { config_valid = v.config_valid; state_in = ground arith })
                  ∙ sym (
                      ap brief
                        (loop_go fsm v x next_state count fuel move d found inside d' found'))
            ]
      ]
    where
      target : StateDelegates C E → ℕ
      target d =
          if (d.on_exit_handler (running fsm) x).0 == fsm.state
          then next_state
          else (d.on_exit_handler (running fsm) x).0
