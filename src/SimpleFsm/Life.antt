-- ===== src/SimpleFsm/Life.antt =====
-- The whole life of a machine: `simple_fsm_init`, and then any starts, events and forced stops.
use c_embedded_utils.Common.{ℕ, ◌<◌, ◌≡◌, ◌⊎◌, Bool, true, ◌||◌, some, List}
use c_embedded_utils.ErrorCode.{ErrorCode}
use c_embedded_utils.SimpleFsm.{SimpleFsmConfig, SimpleFsm, IsConfig}
use c_embedded_utils.SimpleFsm.Trace.{Mark}
use c_embedded_utils.SimpleFsm.Marks.{machine}
use c_embedded_utils.SimpleFsm.Session.{Call, Session, any_spoils, perform, run, now, Continues}

module _ {C E : Type 0} (c : SimpleFsmConfig C E) (v : IsConfig c) (l : ℕ) where
  -- What any call does to a machine that has left the marks `before`.
  record Performed (call : Call E) (started : Bool) (s : ℕ) (x : C) (before : List Mark)
      : Type 0 where
    code : ErrorCode
    started' : Bool
    s' : ℕ
    x' : C
    ms : List Mark
    returns :
        perform call (machine c started s l) (x, before)
        ≡ some (code, machine c started' s' l, (x', ms))
    state_in : s' < c.state_count
    continues : Session before (now started s) → Continues call code ms started' s'

  -- How a life ends: nothing has faulted, the state exists, and unless a call has spoilt them the marks
  -- are those of a session.
  abbrev pub Lived : List (Call E) → SimpleFsm (C × List Mark) E → C → List Mark → Bool → Type 0
  Lived calls fsm x before spoilt =
      (replies : List (Call E × ErrorCode)) × (started : Bool) × (s : ℕ) × (x' : C) × (ms : List
        Mark)
      × (run calls fsm (x, before) ≡ some (replies, machine c started s l, (x', ms)))
      × (s < c.state_count)
      × ((spoilt || any_spoils replies ≡ true) ⊎ Session ms (now started s))
