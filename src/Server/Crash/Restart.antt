-- ===== src/Server/Crash/Restart.antt =====
-- When a stopped server is started again by server/crash.go.
use feathers.Prelude.{
  ℕ, ◌≡◌, ◌≢◌, ◌⊎◌, inl, inr, refl, Bool, true, false, Option, none, some, [], ◌∷◌, arith,
  ℕ_discrete,
}
use feathers.Server.Power.{
  ProcessState, offline, starting, running, stopping, Server, Daemon, start, handle_power_action,
}
use feathers.Server.Crash.{
  CrashDetection, ExitState, Crasher, is_too_soon, restart_process, handle_server_crash,
  ResourceUsage, status, stats, crash_detected, on_state_change,
}

-- What counts as a crash: any exit but a clean one, and that too if the node says so.
abbrev pub IsCrash : CrashDetection → ExitState → Type 0
IsCrash config x = (x.code ≢ 0) ⊎ (x.oom_killed ≡ true) ⊎ (config.detect_clean_exit ≡ true)

abbrev pub HasCrashed : CrashDetection → Option ExitState → Type 0
HasCrashed config none = ⊥
HasCrashed config (some x) = IsCrash config x

is_false : (b : Bool) → b ≢ true → b ≡ false
is_false true h = absurd (h refl)
is_false false h = refl

not_crash :
    (config : CrashDetection) (x : ExitState)
    → ¬ IsCrash config x
    → (x.code ≡ 0) × (x.oom_killed ≡ false) × (config.detect_clean_exit ≡ false)
not_crash config x h = (
  elim (ℕ_discrete x.code 0) [ yes e ↦ e | no n ↦ absurd (h (inl n)) ],
  is_false x.oom_killed (λ e. h (inr (inl e))),
  is_false config.detect_clean_exit (λ e. h (inr (inr e))),
)

module _ {E : Type 0} (d : Daemon E) where
  -- A server is started again exactly when it is offline, wants crash detection, and has crashed, and
  -- its last crash, if there was one, lies at least the timeout back or the timeout is 0. Then the
  -- time of the crash is stored, and the server is what the power action `start` makes of it. In
  -- every other case neither the server nor the stored time changes.
  pub handle_server_crash_restarts :
      (config : CrashDetection) (now : ℕ) (x : ExitState) (c : Crasher E)
      → let result = (handle_server_crash d config now (some x) c).0 in
        (d.state c.server.rest ≡ offline
          → config.enabled ≡ true
          → IsCrash config x
          → is_too_soon config.timeout now c.last_crash ≡ false
          → result ≡ record {
            server = (handle_power_action d start 0 [] c.server).0;
            last_crash = some now;
          })
        × ((d.state c.server.rest ≢ offline)
              ⊎ (config.enabled ≡ false)
              ⊎ ¬ IsCrash config x
              ⊎ (is_too_soon config.timeout now c.last_crash ≡ true)
            → result ≡ c)
  unfolding handle_server_crash restart_process
  handle_server_crash_restarts config now x c = (
    (λ off on crash late. ground arith),
    (λ h. elim h [
      | inl up ↦ ground arith
      | inr (inl disabled) ↦ ground arith
      | inr (inr (inl clean)) ↦ let (code, oom, detect) = not_crash config x clean in ground arith
      | inr (inr (inr soon)) ↦ ground arith
    ]),
  )

-- When a process stops, the shown usage of memory, processor, network and time is 0, and the disk
-- usage is the current one. The crash handler is started exactly if the server was starting or running
-- before and is offline now, so never for a server that was being stopped.
pub on_state_change_stops :
    (st : ProcessState) (disk : ℕ) (r : ResourceUsage)
    → let (after, notices) = on_state_change st disk r in
      (after.state ≡ st)
      × (st ≡ offline
          → after ≡ record {
            state = offline;
            memory = 0;
            cpu = 0;
            uptime = 0;
            tx_bytes = 0;
            rx_bytes = 0;
            disk = disk;
          })
      × (st ≡ offline
          → (r.state ≡ starting) ⊎ (r.state ≡ running)
          → notices ≡ status offline ∷ stats after ∷ crash_detected ∷ [])
      × (st ≡ offline → r.state ≡ stopping → notices ≡ status offline ∷ stats after ∷ [])
      × (st ≡ offline → r.state ≡ offline → notices ≡ stats after ∷ [])
unfolding on_state_change
on_state_change_stops st disk r = ground arith
