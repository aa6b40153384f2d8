-- ===== src/Docker/Examples.antt =====
-- A container of a small client, and the theorems at it.
use feathers.Prelude.{◌≡◌, refl, ◌&&◌, Bool, true, false, [], ◌∷◌, if◌then◌else◌}
use feathers.Prelude.Text.{codes}
use feathers.Server.Power.{offline, starting, running}
use feathers.Server.Crash.{ResourceUsage, was_online, same_state}
use feathers.Environment.{set_state}
use feathers.Environment.Watch.{view, CalmSince, HandledSince}
use feathers.Docker.{
  Client, Docker, done, absent, missing, found, stopped, start, stop, wait_for_stop, terminate,
}
use feathers.Docker.Crashes.{power_no_crash, is_missing, terminate_crashes}

-- Whether the container is there; it can be started and killed.
abbrev client : Client Bool
client = record {
  inspect = λ here. (here, if here then found true else missing);
  truncate_log = λ here. (here, done);
  remove = λ here. (false, if here then done else absent);
  create = λ here. (true, done);
  open_stream = λ here. (here, done);
  start = λ here. (here, done);
  stop = λ here. (here, if here then done else absent);
  kill = λ signal here. (false, done);
  wait = λ here. (here, stopped);
  write = λ text here. (here, done);
}

abbrev fresh : Docker client
fresh = record {
  st = offline;
  published = [];
  rest = record {
    attached = false;
    stop = record { kind = codes "command"; value = codes "stop" };
    client = false;
  };
}

abbrev online : Docker client
online = record fresh { st = running; published = starting ∷ running ∷ [] }

abbrev tracked : ResourceUsage
tracked = record {
  state = running;
  memory = 4;
  cpu = 1;
  uptime = 9;
  tx_bytes = 0;
  rx_bytes = 0;
  disk = 7;
}

started : (start client fresh).0.published ≡ starting ∷ []
unfolding start set_state same_state
started = refl

power_no_crash_example :
    CalmSince 7 tracked (view online) (view (start client online).0)
    × CalmSince 7 tracked (view online) (view (stop client online).0)
    × (was_online (stop client online).0.st ≡ false)
    × CalmSince 7 tracked (view online) (view (wait_for_stop client true online).0)
    × (was_online (wait_for_stop client true online).0.st ≡ false)
power_no_crash_example = power_no_crash client true online 7 tracked refl

terminate_crashes_example :
    HandledSince 7 tracked
      (view online)
      (view (terminate client (codes "SIGKILL") online).0)
      (if is_missing missing && true then 1 else 0)
terminate_crashes_example = terminate_crashes client (codes "SIGKILL") online 7 tracked refl
