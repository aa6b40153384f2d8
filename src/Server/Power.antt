-- ===== src/Server/Power.antt =====
-- server/power.go: power actions under the exclusive lock of a server.
pub mod Outcomes
pub mod Exclusion
pub mod Examples
use feathers.Prelude.{
  ℕ, Bool, true, false, not, ◌||◌, Option, none, some, List, [], ◌∷◌, ltb, if◌then◌else◌,
}
use feathers.Prelude.Text.{Text, codes, text_eq}
use feathers.Prelude.Int.{ℤ, pos, leb_ℤ}
use feathers.System.Locker.{
  Locker, Outcome, acquired, locked, panicked, waiting, Wait, is_locked, acquire, release,
  try_acquire,
}
use feathers.Server.Platform.{assert_egg_platform}

-- The strings of the power actions; any other string is `unknown`.
pub data PowerAction : Type 0 where
  start stop restart terminate : PowerAction
  unknown : Text → PowerAction

unfoldable pub power_action : Text → PowerAction
power_action s =
    if text_eq s (codes "start")
    then start
    else if text_eq s (codes "stop")
    then stop
    else if text_eq s (codes "restart")
    then restart
    else if text_eq s (codes "kill")
    then terminate
    else unknown s

-- The string of an action.
unfoldable pub action_text : PowerAction → Text
action_text start = codes "start"
action_text stop = codes "stop"
action_text restart = codes "restart"
action_text terminate = codes "kill"
action_text (unknown s) = s

unfoldable pub is_valid : PowerAction → Bool
is_valid (unknown s) = false
is_valid _ = true

unfoldable pub is_start : PowerAction → Bool
is_start start = true
is_start restart = true
is_start _ = false

-- environment/environment.go: the states of a process.
pub data ProcessState : Type 0 where
  offline starting running stopping : ProcessState

pub data Error : Type 0 where
  is_installing is_transferring is_restoring : Error
  locker_locked is_running suspended sync_failed platform_mismatch : Error
  disk_space chown_failed unknown_action : Error
  environment : ℕ → Error  -- an error of the process environment
  panics : Error  -- the goroutine panicked at the lock
  blocked : Error  -- no result: the call still waits for the lock

-- The part of a server that power actions read and change. `E` is the state of everything else: the
-- process environment, the file system, the configuration.
pub record Server (E : Type 0) : Type 0 where
  pub installing : Bool
  pub transferring : Bool
  pub restoring : Bool
  pub power_lock : Locker
  pub rest : E

-- What the handler calls: the process environment (`ProcessEnvironment`), the panel, the file system.
-- None of these calls touches the power lock, so they are functions on the rest.
pub record Daemon (E : Type 0) : Type 0 where
  pub windows_node : Bool
  pub state : E → ProcessState
  pub start_process : E → E × Option Error
  pub wait_for_stop : E → E × Option Error
  pub terminate_process : E → E × Option Error
  pub sync : E → E × Bool
  pub is_suspended : E → Bool
  pub image : E → List ℕ
  pub sync_with_environment : E → E
  pub disk_limit : E → ℤ
  pub refresh_usage : E → E
  pub has_space : E → E × Bool
  pub update_configuration_files : E → E
  pub check_permissions : Bool
  pub chown : E → E × Bool

module _ {E : Type 0} (d : Daemon E) where
  -- The end of `onBeforeStart`: configuration files and file permissions.
  prepare_files : E → E × Option Error
  prepare_files e =
      let files = d.update_configuration_files e in
      let (owned, fine) = d.chown files in
      if d.check_permissions
      then (owned, if fine then none else some chown_failed)
      else (files, none)

  -- The check of the disk usage, which an unlimited server only refreshes.
  check_space : E → E × Option Error
  unfolding prepare_files
  check_space e =
      let (e', room) = d.has_space e in
      if leb_ℤ (d.disk_limit e) (pos 0)
      then prepare_files (d.refresh_usage e)
      else if room
      then prepare_files e'
      else (e', some disk_space)

  pub on_before_start : E → E × Option Error
  unfolding check_space
  on_before_start e =
      let (synced, fine) = d.sync e in
      if not fine
      then (synced, some sync_failed)
      else if d.is_suspended synced
      then (synced, some suspended)
      else if not (assert_egg_platform d.windows_node (d.image synced))
      then (synced, some platform_mismatch)
      else check_space (d.sync_with_environment synced)

  -- Pre-boot, and the start of the process if that was fine.
  boot : E → E × Option Error
  boot e =
      let (e', r) = on_before_start e in
      elim r [ some x ↦ (e', some x) | none ↦ d.start_process e' ]

  -- `switch action`
  pub perform : PowerAction → E → E × Option Error
  unfolding boot
  perform start e = elim (d.state e) [ offline ↦ boot e | _ ↦ (e, some is_running) ]
  perform stop e = d.wait_for_stop e
  perform restart e =
      let (e', r) = d.wait_for_stop e in elim r [ some x ↦ (e', some x) | none ↦ boot e' ]
  perform terminate e = d.terminate_process e
  perform (unknown s) e = (e, some unknown_action)

  -- The action under the lock, and the deferred release.
  under_lock : PowerAction → Locker → Server E → Server E × Option Error
  under_lock a l s =
      let (e, r) = perform a s.rest in (record s { power_lock = release l; rest = e }, r)

  without_lock : PowerAction → Server E → Server E × Option Error
  without_lock a s = let (e, r) = perform a s.rest in (record s { rest = e }, r)

  -- Acquired, or not: a termination goes on without the lock, any other action gives up.
  with_outcome : PowerAction → Locker × Outcome → Server E → Server E × Option Error
  unfolding under_lock without_lock
  with_outcome a (l, acquired) s = under_lock a l s
  with_outcome a (l, panicked) s = (record s { power_lock = l }, some panics)
  with_outcome a (l, waiting) s = (record s { power_lock = l }, some blocked)
  with_outcome terminate (l, locked) s = without_lock terminate s
  with_outcome a (l, locked) s = (record s { power_lock = l }, some locker_locked)

  lock_for : PowerAction → ℕ → List Wait → Locker → Locker × Outcome
  lock_for terminate wait ws l = acquire l
  lock_for a wait ws l = if ltb 0 wait then try_acquire ws l else acquire l

  -- `HandlePowerAction`, with the seconds to wait and what happens during a wait for the lock.
  pub handle_power_action : PowerAction → ℕ → List Wait → Server E → Server E × Option Error
  unfolding with_outcome lock_for
  handle_power_action a wait ws s =
      if s.restoring
      then (s, some is_restoring)
      else if s.transferring
      then (s, some is_transferring)
      else if s.installing
      then (s, some is_installing)
      else with_outcome a (lock_for a wait ws s.power_lock) s
