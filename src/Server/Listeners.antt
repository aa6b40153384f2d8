-- ===== src/Server/Listeners.antt =====
-- server/listeners.go: what a server does with the events of its environment, and the lines of its
-- console that change its state (with OutputLineMatcher of remote/types.go).
pub mod Limiter
pub mod Output
pub mod Order
mod Examples
use feathers.Prelude.{
  ℕ, Bool, true, false, not, ◌&&◌, ◌||◌, Option, none, some, List, [], ◌∷◌, ◌++◌, if◌then◌else◌,
}
use feathers.Prelude.Text.{Text, codes, text_eq, has_prefix}
use feathers.Server.Power.{ProcessState, offline, starting, running, stopping}
use feathers.Server.Crash.{ResourceUsage, Notice, on_state_change, was_online}
use feathers.Server.Console.{ConsoleThrottle, reset}
use feathers.Environment.{Tracked, StopConfiguration, set_state}

-- `bytes.Contains`
unfoldable pub contains : Text → Text → Bool
unfolding has_prefix
contains [] raw = has_prefix [] raw
contains (c ∷ cs) raw = has_prefix (c ∷ cs) raw || contains cs raw

-- `R` stands for compiled expressions.
pub record OutputLineMatcher (R : Type 0) : Type 0 where
  pub raw : Text
  pub reg : Option R

pub record ProcessConfiguration (R : Type 0) : Type 0 where
  pub done : List (OutputLineMatcher R)
  pub strip_ansi : Bool
  pub stop : StopConfiguration

abbrev pub is_starting : ProcessState → Bool
is_starting starting = true
is_starting _ = false

-- `environment.Stats`, as far as it is kept.
pub record Stats : Type 0 where
  pub memory : ℕ
  pub cpu : ℕ
  pub uptime : ℕ
  pub tx_bytes : ℕ
  pub rx_bytes : ℕ

unfoldable pub update_stats : Stats → ResourceUsage → ResourceUsage
update_stats s r = record r {
  memory = s.memory;
  cpu = s.cpu;
  uptime = s.uptime;
  tx_bytes = s.tx_bytes;
  rx_bytes = s.rx_bytes;
}

-- The regexp library, and the stripping of colours by it.
module _ {R : Type 0} (match_reg : R → Text → Bool) (strip : Text → Text) where
  unfoldable pub matches : OutputLineMatcher R → Text → Bool
  unfolding contains
  matches m line = elim m.reg [ none ↦ contains line m.raw | some r ↦ match_reg r line ]

  unfoldable pub any_done : List (OutputLineMatcher R) → Text → Bool
  unfolding matches
  any_done [] line = false
  any_done (m ∷ ms) line = matches m line || any_done ms line

  -- The line, as it is compared.
  unfoldable pub seen : ProcessConfiguration R → ProcessState → Text → Text
  seen pc s line = if is_starting s && pc.strip_ansi then strip line else line

  unfoldable pub is_stop : StopConfiguration → Text → Bool
  is_stop c line = text_eq c.kind (codes "command") && text_eq line c.value

  -- A starting server runs once a line is one of those that say so.
  unfoldable pub mark_done : ProcessConfiguration R → Text → {C : Type 0} → Tracked C → Tracked C
  unfolding any_done
  mark_done pc line e = if is_starting e.st && any_done pc.done line then set_state running e else e

  unfoldable pub mark_stopped : ProcessConfiguration R → Text → {C : Type 0} → Tracked C → Tracked C
  unfolding is_stop
  mark_stopped pc line e =
      if was_online e.st && is_stop pc.stop line then set_state offline e else e

  -- `onConsoleOutput`, where nothing else changes the state meanwhile.
  unfoldable pub on_console_output :
      ProcessConfiguration R → Text → {C : Type 0} → Tracked C → Tracked C
  unfolding seen mark_done mark_stopped
  on_console_output pc line e =
      let line' = seen pc e.st line in
      if not (was_online e.st) then e else mark_stopped pc line' (mark_done pc line' e)

-- An event of the environment: its data, and what is read when it is handled (whether there is space;
-- the state of the environment).
pub data Event : Type 0 where
  resource : Stats → Bool → Event
  state_change : ProcessState → ProcessState → Event
  pull_status : Text → Event
  pull_started pull_completed other : Event

-- What a handled event makes the server do.
pub data Effect : Type 0 where
  wait_for_stop stats : Effect
  notice : Notice → Effect
  install_output : Text → Effect
  daemon_line : Text → Effect

-- The server as far as its listeners change it: `fired` is that of `diskSpaceLimiter`.
pub record Listener : Type 0 where
  pub fired : Bool
  pub throttler : ConsoleThrottle
  pub resources : ResourceUsage

abbrev pub notices : List Notice → List Effect
notices [] = []
notices (n ∷ ns) = notice n ∷ notices ns

unfoldable pub trigger : Listener → Listener × List Effect
trigger l = if l.fired then (l, []) else (
  record l { fired = true },
  daemon_line (codes "Server is exceeding the assigned disk space limit, stopping process now.")
      ∷ wait_for_stop
      ∷ [],
)

unfoldable pub reset_limits : ℕ → Listener → Listener
unfolding reset
reset_limits now l = record l { fired = false; throttler = reset now l.throttler }

-- One event; `disk` is the cached usage that `Proc` stores.
unfoldable pub handle : ℕ → ℕ → Event → Listener → Listener × List Effect
unfolding update_stats trigger reset_limits on_state_change
handle now disk (resource s space) l =
    let l' = record l { resources = update_stats s l.resources } in
    let (l'', effects) = if space then (l', []) else trigger l' in
    (record l'' { resources = record l''.resources { disk = disk } }, effects ++ stats ∷ [])
handle now disk (state_change to st) l =
    let l' = if is_starting to then reset_limits now l else l in
    let (r, ns) = on_state_change st disk l'.resources in (record l' { resources = r }, notices ns)
handle now disk (pull_status t) l = (l, install_output t ∷ [])
handle now disk pull_started l = (
  l,
  daemon_line (codes "Pulling Docker container image, this could take a few minutes to complete...")
      ∷ [],
)
handle now disk pull_completed l =
    (l, daemon_line (codes "Finished pulling Docker container image") ∷ [])
handle now disk other l = (l, [])

-- Events in the order in which they are handled.
unfoldable pub handle_all : ℕ → ℕ → List Event → Listener → Listener × List Effect
unfolding handle
handle_all now disk [] l = (l, [])
handle_all now disk (v ∷ vs) l =
    let (l', effects) = handle now disk v l in
    let (l'', later) = handle_all now disk vs l' in (l'', effects ++ later)
