-- ===== src/Server/Crash.antt =====
-- server/crash.go, and `OnStateChange` of server/server.go: what follows when a process stops.
-- Time is an argument, in nanoseconds.
pub mod Restart
mod Examples
use feathers.Prelude.{
  ℕ, ◌+◌, ◌*◌, ◌%◌, Bool, true, false, not, ◌&&◌, ◌||◌, Option, none, some, List, [], ◌∷◌, ◌++◌,
  ltb, ◌==◌, if◌then◌else◌,
}
use feathers.Server.Power.{
  Error, ProcessState, offline, starting, running, stopping, Server, Daemon, start,
  handle_power_action,
}

-- The configuration: whether the server wants crash detection, whether the node takes a clean exit for
-- a crash, and the seconds that must lie between two crashes (0 for no such rule; a negative number
-- behaves as 0 does).
pub record CrashDetection : Type 0 where
  pub enabled : Bool
  pub detect_clean_exit : Bool
  pub timeout : ℕ

pub record ExitState : Type 0 where
  pub code : ℕ  -- uint32
  pub oom_killed : Bool

pub data CrashError : Type 0 where
  exit_state_failed too_frequent : CrashError
  start_failed : Error → CrashError

-- The server with the time of its last crash, if it had one.
pub record Crasher (E : Type 0) : Type 0 where
  pub server : Server E
  pub last_crash : Option ℕ

abbrev pub second : ℕ
second = 1000000000

abbrev pub is_offline : ProcessState → Bool
is_offline offline = true
is_offline _ = false

-- `timeout != 0 && !c.IsZero() && c.Add(timeout).After(now)`
unfoldable pub is_too_soon : ℕ → ℕ → Option ℕ → Bool
is_too_soon timeout now none = false
is_too_soon timeout now (some last) = not (timeout == 0) && ltb now (last + second * timeout)

module _ {E : Type 0} (d : Daemon E) where
  restart_process : ℕ → Crasher E → Crasher E × Option CrashError
  restart_process now c =
      let (s, r) = handle_power_action d start 0 [] c.server in
      (
        record { server = s; last_crash = some now },
        elim r [ none ↦ none | some e ↦ some (start_failed e) ],
      )

  judge : CrashDetection → ℕ → ExitState → Crasher E → Crasher E × Option CrashError
  unfolding is_too_soon
  judge config now x c =
      if x.code == 0 && not x.oom_killed && not config.detect_clean_exit
      then (c, none)
      else if is_too_soon config.timeout now c.last_crash
      then (c, some too_frequent)
      else restart_process now c

  -- `handleServerCrash`, with the answer of `ExitState`.
  pub handle_server_crash :
      CrashDetection → ℕ → Option ExitState → Crasher E → Crasher E × Option CrashError
  unfolding judge
  handle_server_crash config now x c =
      if not (is_offline (d.state c.server.rest)) || not config.enabled
      then (c, none)
      else elim x [ none ↦ (c, some exit_state_failed) | some e ↦ judge config now e c ]

-- server/resources.go: the resources that are shown for a server.
pub record ResourceUsage : Type 0 where
  pub state : ProcessState
  pub memory : ℕ
  pub cpu : ℕ  -- a scaled number
  pub uptime : ℕ
  pub tx_bytes : ℕ
  pub rx_bytes : ℕ
  pub disk : ℕ

unfoldable pub reset : ResourceUsage → ResourceUsage
reset r = record r { memory = 0; cpu = 0; uptime = 0; tx_bytes = 0; rx_bytes = 0 }

pub data Notice : Type 0 where
  status : ProcessState → Notice
  stats : ResourceUsage → Notice
  crash_detected : Notice

unfoldable pub same_state : ProcessState → ProcessState → Bool
same_state offline offline = true
same_state starting starting = true
same_state running running = true
same_state stopping stopping = true
same_state _ _ = false

abbrev pub was_online : ProcessState → Bool
was_online starting = true
was_online running = true
was_online _ = false

-- `OnStateChange`: the tracked resources, and the events and crash handler that follow, in order.
-- `st` is the environment's state; `disk` is what `Proc` reads.
unfoldable pub on_state_change : ProcessState → ℕ → ResourceUsage → ResourceUsage × List Notice
unfolding reset same_state
on_state_change st disk r =
    let tracked = record r { state = st } in
    let stopped = record (reset tracked) { disk = disk } in
    let changed = if same_state r.state st then [] else status st ∷ [] in
    let crashed = if was_online r.state && is_offline st then crash_detected ∷ [] else [] in
    if is_offline st
    then (stopped, changed ++ (stats stopped ∷ crashed))
    else (tracked, changed ++ crashed)
