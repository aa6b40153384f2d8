-- ===== src/Environment.antt =====
-- environment/environment.go and what both backends share: the state of a process, which is tracked and
-- published, and (in Watch) what the server makes of the published states.
pub mod Watch
use feathers.Prelude.{Bool, true, false, List, [], ◌∷◌, ◌++◌, if◌then◌else◌}
use feathers.Prelude.Text.{Text}
use feathers.Server.Power.{ProcessState}
use feathers.Server.Crash.{same_state}

-- A backend: its state, the state changes that it has published, oldest first, and the rest of it.
pub record Tracked (C : Type 0) : Type 0 where
  pub st : ProcessState
  pub published : List ProcessState
  pub rest : C

-- remote/types.go: `ProcessStopConfiguration`
pub record StopConfiguration : Type 0 where
  pub kind : Text
  pub value : Text

module _ {C : Type 0} where
  -- `SetState`. The states of the type are the ones that it accepts.
  unfoldable pub set_state : ProcessState → Tracked C → Tracked C
  set_state s e =
      if same_state e.st s then e else record e { st = s; published = e.published ++ s ∷ [] }

  abbrev pub set_rest : C → Tracked C → Tracked C
  set_rest c e = record e { rest = c }
