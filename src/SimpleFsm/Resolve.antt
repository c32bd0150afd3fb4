-- ===== src/SimpleFsm/Resolve.antt =====
-- `simple_fsm_resolve_transitions` follows the step relation and always comes to rest.
use c_embedded_utils.Common.{
  ℕ, zero, suc, ◌+◌, ◌<◌, ◌≡◌, refl, Bool, true, false, Option, some, ◌==◌, leb, if◌then◌else◌,
  get_elem?, get_elem?-lt, Bool-cases, inl, inr, arith, ◌>>=◌,
}
use c_embedded_utils.ErrorCode.{ErrorCode, err_none, err_timeout, err_out_of_bounds}
use c_embedded_utils.SimpleFsm.{
  StateDelegates, SimpleFsmConfig, SimpleFsm, running, IsValid, resolve_loop, resolve_transitions,
}
use c_embedded_utils.SimpleFsm.Chain.{
  Point, Leaves, Step, stay, Rests, settled, exhausted, lost, Rests-go,
}

module _ {C E : Type 0} where
  abbrev pub point : SimpleFsm C E → C → ℕ → Point C
  point fsm context next_state = record {
    state = fsm.state;
    context = context;
    wanted = next_state;
  }

  -- The call returns a code with the machine at rest in a state that exists, as the relation has it.
  pub record Resolved (limit : ℕ) (fsm : SimpleFsm C E) (context : C) (next_state : ℕ)
      (r : Option (ErrorCode × SimpleFsm C E × C)) : Type 0 where
    pub code : ErrorCode
    pub state : ℕ
    pub context' : C
    pub returns : r ≡ some (code, record fsm { state = state }, context')
    pub rests :
        Rests fsm.started fsm.config limit (point fsm context next_state) code state context'
    pub state_in : state < fsm.config.state_count

  module _ (fsm : SimpleFsm C E) (v : IsValid fsm) (context : C) (next_state count fuel : ℕ)
      (move : (next_state == fsm.state) ≡ false) (handler : StateDelegates C E)
      (found : get_elem? fsm.config.state_delegates fsm.state ≡ some handler) where
    abbrev pub left : C
    left = (handler.on_exit_handler (running fsm) context).1

    abbrev pub requested : ℕ
    requested =
        if (handler.on_exit_handler (running fsm) context).0 == fsm.state
        then next_state
        else (handler.on_exit_handler (running fsm) context).0

    abbrev pub moved : SimpleFsm C E
    moved = record fsm { state = requested }

    leaves : Leaves fsm.started fsm.config (point fsm context next_state) requested left
    leaves = record {
      handler = handler;
      found = found;
      restless = λ e. ground arith;
      context_left = refl;
      asked = refl;
    }

    pub loop_lost :
        leb fsm.config.state_count requested ≡ true
        → resolve_loop (suc fuel) fsm context next_state count false
          ≡ some (err_out_of_bounds, fsm, left)
    unfolding resolve_loop
    loop_lost out = rw (move, resolve_loop) (rw (found, ◌>>=◌) (rw (out, ◌>>=◌)))

    module _ (inside : leb fsm.config.state_count requested ≡ false) (handler' : StateDelegates C E)
        (found' : get_elem? fsm.config.state_delegates requested ≡ some handler') where
      abbrev pub entered : ℕ × C
      entered = handler'.on_entry_handler (running moved) left

      pub loop_go :
          resolve_loop (suc fuel) fsm context next_state count false
          ≡ resolve_loop fuel moved entered.1 entered.0
              (count + 1)
              (leb fsm.config.max_transition_count (count + 1))
      unfolding resolve_loop
      loop_go =
          rw (move, resolve_loop) (rw (found, ◌>>=◌) (rw (inside, ◌>>=◌) (rw (found', ◌>>=◌))))

      step :
          Step fsm.started fsm.config
            (point fsm context next_state)
            (point moved entered.1 entered.0)
      step = record {
        left = left;
        leaves = leaves;
        exists = ground arith;
        handler' = handler';
        found' = found';
        entered = refl;
      }

  pub loop_settled :
      (fuel : ℕ) (fsm : SimpleFsm C E) (context : C) (next_state count : ℕ)
      → next_state ≡ fsm.state
      → resolve_loop (suc fuel) fsm context next_state count false ≡ some (err_none, fsm, context)
  unfolding resolve_loop
  loop_settled fuel fsm context next_state count e = ground arith

  pub loop_exhausted :
      (fuel : ℕ) (fsm : SimpleFsm C E) (context : C) (next_state count : ℕ)
      → resolve_loop (suc fuel) fsm context next_state count true ≡ some (err_timeout, fsm, context)
  unfolding resolve_loop
  loop_exhausted fuel fsm context next_state count = ground arith

  Rests-settled :
      (limit : ℕ) (started : Bool) (c : SimpleFsmConfig C E) (s w : ℕ) (x : C)
      → w ≡ s
      → Rests started c (suc limit) (record { state = s; context = x; wanted = w }) err_none s x
  Rests-settled limit started c s w x e = rw e (settled 0 (omega arith) stay)

  Resolved-go :
      {limit : ℕ} (fsm : SimpleFsm C E) (to : ℕ) {context context' : C} {next_state next_state' : ℕ}
      {r : Option (ErrorCode × SimpleFsm C E × C)}
      → Step fsm.started fsm.config
          (point fsm context next_state)
          (point (record fsm { state = to }) context' next_state')
      → Resolved limit (record fsm { state = to }) context' next_state' r
      → Resolved (suc limit) fsm context next_state r
  Resolved-go fsm to st res = record {
    code = res.code;
    state = res.state;
    context' = res.context';
    returns = res.returns;
    rests = Rests-go fsm.started fsm.config st res.rests;
    state_in = res.state_in;
  }

  -- The loop with as many rounds left as the limit allows.
  resolve_loop_lem :
      (room fuel : ℕ) (fsm : SimpleFsm C E) (context : C) (next_state count : ℕ)
      → IsValid fsm
      → count + room ≡ fsm.config.max_transition_count
      → room < fuel
      → Resolved room fsm context next_state (
          resolve_loop fuel fsm context next_state count
            (leb fsm.config.max_transition_count count))
  resolve_loop_lem room zero fsm context next_state count v e h = absurd (omega arith)
  resolve_loop_lem zero (suc fuel) fsm context next_state count v e h =
      let reached : leb fsm.config.max_transition_count count ≡ true = ground arith in
      record {
        code = err_timeout;
        state = fsm.state;
        context' = context;
        returns = rw reached (loop_exhausted fuel fsm context next_state count);
        rests = exhausted (point fsm context next_state) stay;
        state_in = v.state_in;
      }
  resolve_loop_lem (suc room) (suc fuel) fsm context next_state count v e h =
      let below : leb fsm.config.max_transition_count count ≡ false = ground arith in
      rw below (elim (Bool-cases (next_state == fsm.state)) [
        | inl rest ↦ record {
          code = err_none;
          state = fsm.state;
          context' = context;
          returns = loop_settled fuel fsm context next_state count (ground arith);
          rests =
              Rests-settled room fsm.started fsm.config fsm.state next_state context (ground arith);
          state_in = v.state_in;
        }
        | inr move ↦
            let (handler, found) =
              get_elem?-lt fsm.config.state_delegates fsm.state
                (omega (arith, v.state_in, v.config_valid.delegates)) in
            elim (Bool-cases (leb fsm.config.state_count (target handler))) [
              | inl out ↦ record {
                code = err_out_of_bounds;
                state = fsm.state;
                context' = (handler.on_exit_handler (running fsm) context).1;
                returns = loop_lost fsm v context next_state count fuel move handler found out;
                rests =
                    lost 0 (target handler) (point fsm context next_state) (omega arith) stay
                      (leaves fsm v context next_state count fuel move handler found)
                      (ground arith);
                state_in = v.state_in;
              }
              | inr inside ↦
                  let (handler', found') =
                    get_elem?-lt fsm.config.state_delegates (target handler)
                      (ground (arith, v.config_valid.delegates)) in
                  let to = record fsm { state = target handler } in
                  let there =
                    handler'.on_entry_handler (running to)
                      (handler.on_exit_handler (running fsm) context).1 in
                  rw
                    (loop_go fsm v context next_state count fuel move handler found inside handler'
                      found')
                    (Resolved-go fsm (target handler)
                      (step fsm v context next_state count fuel move handler found inside handler'
                        found')
                      (resolve_loop_lem room fuel to there.1 there.0 (count + 1)
                        (record { config_valid = v.config_valid; state_in = ground arith })
                        (omega arith) (omega arith)))
            ]
      ])
    where
      target : StateDelegates C E → ℕ
      target d =
          if (d.on_exit_handler (running fsm) context).0 == fsm.state
          then next_state
          else (d.on_exit_handler (running fsm) context).0

  -- `simple_fsm_resolve_transitions` returns from every state and to every request, without a read
  -- outside the callbacks, and the machine rests as the step relation has it: settled, at the limit of
  -- transitions, or asked for a state that does not exist.
  pub resolve_transitions_lem :
      (fsm : SimpleFsm C E) (context : C) (next_state : ℕ)
      → IsValid fsm
      → Resolved fsm.config.max_transition_count fsm context next_state
          (resolve_transitions fsm context next_state)
  unfolding resolve_transitions
  resolve_transitions_lem fsm context next_state v =
      let below : leb fsm.config.max_transition_count 0 ≡ false =
        ground (arith, v.config_valid.limited) in
      rw below at (
        resolve_loop_lem fsm.config.max_transition_count (suc (suc fsm.config.max_transition_count))
          fsm context next_state 0 v (omega arith) (omega arith))
