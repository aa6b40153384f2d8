-- ===== src/Server/Crash/Examples.antt =====
-- Crashes of a small server, and the theorems at them.
use feathers.Prelude.{Bool, true, false, none}
use feathers.Server.Power.{running}
use feathers.Server.Power.Examples.{stopped_server}
use feathers.Server.Crash.{CrashDetection, ExitState, Crasher, ResourceUsage}

abbrev one_minute : CrashDetection
one_minute = record { enabled = true; detect_clean_exit = false; timeout = 60 }

abbrev segfault : ExitState
segfault = record { code = 139; oom_killed = false }

abbrev crashed : Crasher Bool
crashed = record { server = stopped_server; last_crash = none }

abbrev usage : ResourceUsage
usage = record {
  state = running;
  memory = 4096;
  cpu = 17;
  uptime = 100;
  tx_bytes = 5;
  rx_bytes = 6;
  disk = 70;
}
