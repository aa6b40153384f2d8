-- ===== src/Server/Listeners/Examples.antt =====
-- Events and lines of a small server, and the theorems at them.
use feathers.Prelude.{ℕ, ◌≡◌, refl, Bool, true, false, none, [], ◌∷◌}
use feathers.Prelude.Text.{Text, codes, text_eq, has_prefix}
use feathers.Server.Power.{offline, starting, running}
use feathers.Server.Crash.{ResourceUsage, same_state}
use feathers.Server.Console.{new_console_throttle}
use feathers.Environment.{Tracked, set_state}
use feathers.Environment.Watch.{watch, crashes}
use feathers.Server.Listeners.{
  ProcessConfiguration, Stats, Listener, resource, state_change, on_console_output, handle_all,
  matches, contains,
}
use feathers.Server.Listeners.Limiter.{stops, stops-handle_all, runs_over}
use feathers.Server.Listeners.Output.{console_output_crash}

-- No expressions are compiled, and nothing is stripped.
abbrev never : ℕ → Text → Bool
never r line = false

abbrev whole : Text → Text
whole line = line

abbrev config : ProcessConfiguration ℕ
config = record {
  done = record { raw = codes "Done"; reg = none } ∷ [];
  strip_ansi = false;
  stop = record { kind = codes "command"; value = codes "stop" };
}

abbrev booting : Tracked Bool
booting = record { st = starting; published = starting ∷ []; rest = true }

abbrev tracked : ResourceUsage
tracked = record {
  state = starting;
  memory = 4;
  cpu = 1;
  uptime = 9;
  tx_bytes = 0;
  rx_bytes = 0;
  disk = 7;
}

abbrev stats : Stats
stats = record { memory = 1; cpu = 2; uptime = 3; tx_bytes = 4; rx_bytes = 5 }

abbrev listener : Listener
listener = record { fired = false; throttler = new_console_throttle 5 10 0; resources = tracked }

done_line :
    (on_console_output never whole config (codes "[1] Done!") booting).published
    ≡ starting ∷ running ∷ []
unfolding on_console_output matches contains has_prefix set_state same_state text_eq
done_line = refl

console_output_crash_example :
    ((on_console_output never whole config (codes "stop") booting).published
      ≡ starting ∷ offline ∷ [])
    × (crashes (watch 7 (offline ∷ []) tracked).1 ≡ 1)
unfolding on_console_output matches contains has_prefix text_eq
console_output_crash_example =
    console_output_crash never whole config (codes "stop") booting 7 tracked refl refl

-- Two events over the space, a start, and another.
stops-handle_all_example :
    stops
      (handle_all 0 7
        (resource stats false
          ∷ resource stats false
          ∷ state_change starting starting
          ∷ resource stats false
          ∷ [])
        listener).1
    ≡ 2
unfolding runs_over
stops-handle_all_example =
    stops-handle_all 0 7
      (resource stats false
        ∷ resource stats false
        ∷ state_change starting starting
        ∷ resource stats false
        ∷ [])
      listener
