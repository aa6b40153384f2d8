-- ===== src/Server/Power/Outcomes.antt =====
-- What HandlePowerAction of server/power.go does with the lock, and when it starts a process.
use feathers.Prelude.{
  ℕ, ◌≡◌, ◌≢◌, ◌⊎◌, refl, true, false, Option, none, some, List, arith, if◌then◌else◌,
}
use feathers.Prelude.Int.{pos, ◌≤ℤ◌}
use feathers.System.Locker.{Locker, acquired, locked, Wait, is_locked, acquire, release}
use feathers.System.Locker.Laws.{IsValid}
use feathers.Server.Platform.{assert_egg_platform}
use feathers.Server.Power.{
  PowerAction, start, stop, restart, terminate, unknown, Error, is_installing, is_transferring,
  is_restoring, locker_locked, offline, Server, Daemon, perform, boot, on_before_start, lock_for,
  with_outcome, handle_power_action,
}

module _ {E : Type 0} (d : Daemon E) where
  -- While a server is being restored, transferred or installed, every power action is refused with
  -- the first of these three errors that applies, and changes nothing.
  pub handle_power_action_protected :
      (a : PowerAction) (wait : ℕ) (ws : List Wait) (s : Server E)
      → (s.restoring ≡ true) ⊎ (s.transferring ≡ true) ⊎ (s.installing ≡ true)
      → handle_power_action d a wait ws s ≡ (
        s,
        some (
            if s.restoring
            then is_restoring
            else if s.transferring
            then is_transferring
            else is_installing),
      )
  unfolding handle_power_action
  handle_power_action_protected a wait ws s h = ground arith

  abbrev pub IsFree : Server E → Type 0
  IsFree s = (s.restoring ≡ false) × (s.transferring ≡ false) × (s.installing ≡ false)

  immediate_outcome :
      (a : PowerAction) (ws : List Wait) (l : Locker) → lock_for d a 0 ws l ≡ acquire l
  unfolding lock_for
  immediate_outcome terminate ws l = refl
  immediate_outcome _ ws l = refl

  acquire_free :
      (l : Locker)
      → IsValid l
      → l.closed ≡ false
      → is_locked l ≡ false
      → (acquire l ≡ (record l { queued = 1 }, acquired)) × (release (record l { queued = 1 }) ≡ l)
  unfolding acquire release is_locked
  acquire_free l v o f = ground arith

  acquire_held :
      (l : Locker) → IsValid l → l.closed ≡ false → is_locked l ≡ true → acquire l ≡ (l, locked)
  unfolding acquire is_locked
  acquire_held l v o h = ground arith

  handle_free :
      (a : PowerAction) (wait : ℕ) (ws : List Wait) (s : Server E)
      → IsFree s
      → handle_power_action d a wait ws s ≡ with_outcome d a (lock_for d a wait ws s.power_lock) s
  unfolding handle_power_action
  handle_free a wait ws s f = ground arith

  -- Without a wait, on an open lock and a server that is free: if nobody holds the lock, the action is
  -- performed under it and the lock is as free afterwards as before, whatever the action's outcome.
  -- If somebody holds it, a termination is performed all the same and leaves the lock with its
  -- holder, and any other action is refused and changes nothing.
  pub handle_power_action_immediate :
      (a : PowerAction) (ws : List Wait) (s : Server E)
      → IsFree s
      → IsValid s.power_lock
      → s.power_lock.closed ≡ false
      → let done = perform d a s.rest in
        let result = handle_power_action d a 0 ws s in
        (is_locked s.power_lock ≡ false → result ≡ (record s { rest = done.0 }, done.1))
        × (is_locked s.power_lock ≡ true
            → (a ≡ terminate → result ≡ (record s { rest = done.0 }, done.1))
              × (a ≢ terminate → result ≡ (s, some locker_locked)))
  unfolding with_outcome
  handle_power_action_immediate a ws s f v o =
      rw (handle_free a 0 ws s f, immediate_outcome a ws s.power_lock)
        (
          (λ free. ground (arith, acquire_free s.power_lock v o free)),
          (λ held. (
            (λ kill. rw (acquire_held s.power_lock v o held, kill) refl),
            (λ other. refused a s (acquire_held s.power_lock v o held) other),
          )),
        )
    where
      refused :
          (a : PowerAction) (s : Server E)
          → acquire s.power_lock ≡ (s.power_lock, locked)
          → a ≢ terminate
          → with_outcome d a (acquire s.power_lock) s ≡ (s, some locker_locked)
      refused terminate s e ne = absurd (ne refl)
      refused start s e ne = rw e
      refused stop s e ne = rw e
      refused restart s e ne = rw e
      refused (unknown t) s e ne = rw e

  pre_boot_fine :
      (e : E)
      → (on_before_start d e).1 ≡ none
      → ((d.sync e).1 ≡ true)
        × (d.is_suspended (d.sync e).0 ≡ false)
        × (assert_egg_platform d.windows_node (d.image (d.sync e).0) ≡ true)
        × (let ready = d.sync_with_environment (d.sync e).0 in
            (d.disk_limit ready ≤ℤ pos 0) ⊎ ((d.has_space ready).1 ≡ true))
  unfolding on_before_start
  pre_boot_fine e h = ground arith

  boot_fine :
      (e : E)
      → (boot d e).1 ≡ none
      → ((on_before_start d e).1 ≡ none) × (boot d e ≡ d.start_process (on_before_start d e).0)
  unfolding boot
  boot_fine e h = ground arith

  perform_start :
      (e : E)
      → (perform d start e).1 ≡ none
      → (d.state e ≡ offline) × (perform d start e ≡ boot d e)
  unfolding perform
  perform_start e h = ground arith

  perform_restart :
      (e : E)
      → (perform d restart e).1 ≡ none
      → ((d.wait_for_stop e).1 ≡ none) × (perform d restart e ≡ boot d (d.wait_for_stop e).0)
  unfolding perform
  perform_restart e h = ground arith

  -- What a boot from `e` without an error has seen: the panel's data was fetched, and by that data the
  -- server is not suspended and its egg is for this platform; the server has no disk limit, or space
  -- left; and the process was started, without an error.
  abbrev pub Booted : E → E × Option Error → Type 0
  Booted e result =
      ((d.sync e).1 ≡ true)
      × (d.is_suspended (d.sync e).0 ≡ false)
      × (assert_egg_platform d.windows_node (d.image (d.sync e).0) ≡ true)
      × (let ready = d.sync_with_environment (d.sync e).0 in
          (d.disk_limit ready ≤ℤ pos 0) ⊎ ((d.has_space ready).1 ≡ true))
      × (result ≡ d.start_process (on_before_start d e).0)

  boot-Booted : (e : E) → (boot d e).1 ≡ none → Booted e (boot d e)
  boot-Booted e h =
      let (ready, started) = boot_fine e h in
      let (synced, live, platform, room) = pre_boot_fine e ready in
      (synced, live, platform, room, started)

  -- `start` comes back without an error only from an offline server, and `restart` only after the
  -- process has stopped; both only after a boot that passed every check of the pre-boot.
  pub perform_starts :
      (e : E)
      → ((perform d start e).1 ≡ none → (d.state e ≡ offline) × Booted e (perform d start e))
        × ((perform d restart e).1 ≡ none
            → ((d.wait_for_stop e).1 ≡ none) × Booted (d.wait_for_stop e).0 (perform d restart e))
  perform_starts e = (
    (λ h. let (off, same) = perform_start e h in (off, rw same (boot-Booted e (rw same at h)))),
    (λ h.
        let (stopped, same) = perform_restart e h in
        (stopped, rw same (boot-Booted (d.wait_for_stop e).0 (rw same at h)))),
  )
