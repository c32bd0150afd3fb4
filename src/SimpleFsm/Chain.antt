-- ===== src/SimpleFsm/Chain.antt =====
-- The transitions of a machine as a step relation, and how a chain of them ends.
use c_embedded_utils.Common.{
  ℕ, zero, suc, ◌≤◌, ◌<◌, ◌≡◌, ◌≢◌, Bool, some, ◌==◌, if◌then◌else◌, get_elem?, arith,
}
use c_embedded_utils.ErrorCode.{ErrorCode, err_none, err_timeout, err_out_of_bounds}
use c_embedded_utils.SimpleFsm.{StateDelegates, SimpleFsmConfig, Running}

-- The state that the machine is in, the context, and the state that was asked for last.
pub record Point (C : Type 0) : Type 0 where
  pub state : ℕ
  pub context : C
  pub wanted : ℕ

module _ {C E : Type 0} (started : Bool) (c : SimpleFsmConfig C E) where
  abbrev pub at : ℕ → Running
  at s = record { started = started; state = s }

  -- The exit handler of the state is run and asks for a target: the wanted state if it returns its own
  -- state, and else the state that it returns.
  pub record Leaves (p : Point C) (target : ℕ) (left : C) : Type 0 where
    pub handler : StateDelegates C E
    pub found : get_elem? c.state_delegates p.state ≡ some handler
    pub restless : p.wanted ≢ p.state
    pub context_left : left ≡ (handler.on_exit_handler (at p.state) p.context).1
    pub asked : target ≡ (
        if (handler.on_exit_handler (at p.state) p.context).0 == p.state
        then p.wanted
        else (handler.on_exit_handler (at p.state) p.context).0)

  -- One transition: out of the state, and by the entry handler into a target that exists.
  pub record Step (p q : Point C) : Type 0 where
    pub left : C
    pub leaves : Leaves p q.state left
    pub exists : q.state < c.state_count
    pub handler' : StateDelegates C E
    pub found' : get_elem? c.state_delegates q.state ≡ some handler'
    pub entered : (q.wanted, q.context) ≡ handler'.on_entry_handler (at q.state) left

  pub data Steps : ℕ → Point C → Point C → Type 0 where
    stay : {p : Point C} → Steps zero p p
    go : {n : ℕ} {p q r : Point C} → Step p q → Steps n q r → Steps (suc n) p r

  -- How the machine comes to rest from a point within `limit` transitions, with the code, the state and
  -- the context that are reported.
  pub data Rests (limit : ℕ) (p : Point C) : ErrorCode → ℕ → C → Type 0 where
    -- A handler asked for the state that the machine is in, after fewer transitions than the limit.
    settled :
        {s : ℕ} {x : C} (n : ℕ)
        → n < limit
        → Steps n p (record { state = s; context = x; wanted = s })
        → Rests limit p err_none s x
    -- The limit was reached.
    exhausted : (q : Point C) → Steps limit p q → Rests limit p err_timeout q.state q.context
    -- A handler asked for a state that does not exist; the exit handler was run, the state was kept.
    lost :
        {x : C} (n target : ℕ) (q : Point C)
        → n < limit
        → Steps n p q
        → Leaves q target x
        → c.state_count ≤ target
        → Rests limit p err_out_of_bounds q.state x

  pub Rests-go :
      {limit : ℕ} {p q : Point C} {code : ErrorCode} {s : ℕ} {x : C}
      → Step p q
      → Rests limit q code s x
      → Rests (suc limit) p code s x
  Rests-go st (settled n h steps) = settled (suc n) (omega arith) (go st steps)
  Rests-go st (exhausted q steps) = exhausted q (go st steps)
  Rests-go st (lost n target q h steps leaves out) =
      lost (suc n) target q (omega arith) (go st steps) leaves out
