-- ===== src/Server/Power/Examples.antt =====
-- A small daemon, power actions on it, and the theorems at them.
use feathers.Prelude.{ℕ, ◌≡◌, refl, Bool, true, false, none, [], ◌∷◌, if◌then◌else◌}
use feathers.Prelude.Int.{pos}
use feathers.System.Locker.{is_locked, acquire, release, try_acquire, served}
use feathers.Server.Platform.{assert_egg_platform}
use feathers.Server.Power.{
  PowerAction, start, restart, offline, running, Server, Daemon, on_before_start, perform,
  handle_power_action,
}
use feathers.Server.Power.Exclusion.{
  holding, requesting, System, initial, move, calls, enters, Reach, here, next, power_exclusion,
  power_lock_owned,
}

-- The rest of a server is whether its process runs; nothing fails.
abbrev pub small_daemon : Daemon Bool
small_daemon = record {
  windows_node = true;
  state = λ up. if up then running else offline;
  start_process = λ up. (true, none);
  wait_for_stop = λ up. (false, none);
  terminate_process = λ up. (false, none);
  sync = λ up. (up, true);
  is_suspended = λ up. false;
  image = λ up. b'W' ∷ b'i' ∷ b'n' ∷ b'd' ∷ b'o' ∷ b'w' ∷ b's' ∷ b'/' ∷ b'j' ∷ [];
  sync_with_environment = λ up. up;
  disk_limit = λ up. pos 0;
  refresh_usage = λ up. up;
  has_space = λ up. (up, false);
  update_configuration_files = λ up. up;
  check_permissions = false;
  chown = λ up. (up, false);
}

abbrev pub stopped_server : Server Bool
stopped_server = record {
  installing = false;
  transferring = false;
  restoring = false;
  power_lock = record { queued = 0; closed = false };
  rest = false;
}

abbrev busy_server : Server Bool
busy_server = record stopped_server { power_lock = record { queued = 1; closed = false } }

started :
    (handle_power_action small_daemon start 0 [] stopped_server)
    ≡ (record stopped_server { rest = true }, none)
unfolding handle_power_action perform on_before_start assert_egg_platform acquire release
started = refl

started_after_wait :
    (handle_power_action small_daemon restart 30 (served ∷ []) busy_server).0.rest ≡ true
unfolding handle_power_action perform on_before_start assert_egg_platform try_acquire release
started_after_wait = refl

-- Caller 4 performs a start.
abbrev one_caller : System
one_caller = record {
  lock = (acquire initial.lock).0;
  phase = move (move initial.phase 4 (requesting start)) 4 (holding start);
}

one_caller-Reach : Reach one_caller
unfolding acquire
one_caller-Reach = next (next here (calls 4 start refl)) (enters 4 start refl refl)

power_exclusion_example : ◌≡◌ {A = ℕ} 4 4
power_exclusion_example = power_exclusion one_caller-Reach 4 4 start start refl refl

power_lock_owned_example :
    (is_locked one_caller.lock ≡ true
      → (i : ℕ) × (a : PowerAction) × (one_caller.phase i ≡ holding a))
    × ((i : ℕ) (a : PowerAction)
        → one_caller.phase i ≡ holding a
        → is_locked one_caller.lock ≡ true)
power_lock_owned_example = power_lock_owned one_caller-Reach
