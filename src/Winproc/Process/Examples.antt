-- ===== src/Winproc/Process/Examples.antt =====
-- A process on a small Windows, and the theorems at it.
use feathers.Prelude.{◌≡◌, refl, Bool, true, false, none, some, [], ◌∷◌}
use feathers.Prelude.Text.{codes, text_eq}
use feathers.Server.Power.{offline, starting, running, stopping}
use feathers.Server.Crash.{ResourceUsage, was_online, same_state}
use feathers.Environment.{set_state}
use feathers.Environment.Watch.{view, CalmSince, watch, crashes}
use feathers.Winproc.Process.{
  Windows, Environment, ticks, times_out, exits, start, stop, terminate, destroy, wait_for_stop,
}
use feathers.Server.Listeners.Order.{read_late, terminate-read_late}
use feathers.Winproc.Process.Ends.{process_no_crash, wait_for_stop_answers, Answered}

-- Whether the process runs; everything works.
abbrev windows : Windows Bool
windows = record {
  replace_all = λ t f. t;
  submatch = λ t. none;
  variables = codes "STARTUP=java" ∷ [];
  environ = λ runs. codes "Path=C" ∷ [];
  tmp_dir = codes "T";
  provision = λ runs. (runs, true);
  create_job = λ runs. (runs, true);
  close_job = λ runs. runs;
  terminate_job = λ runs. (false, true);
  logon = λ runs. (runs, true);
  make_tmp = λ runs. (runs, true);
  is_abs = λ t. false;
  in_directory = λ t. t;
  file_exists = λ t runs. false;
  stdin_pipe = λ runs. (runs, true);
  output_pipe = λ runs. (runs, true);
  launch = λ exe args env runs. (true, true);
  open_process = λ runs. (runs, true);
  assign = λ runs. runs;
  clock = λ runs. 5;
  exit_code = λ runs. some runs;
  write = λ t runs. (runs, true);
  delete_account = λ runs. runs;
}

abbrev online : Environment windows
online = record {
  st = running;
  published = starting ∷ running ∷ [];
  rest = record {
    stop = record { kind = codes "command"; value = codes "stop" };
    job = true;
    cmd = true;
    handle = true;
    stdin = true;
    polling = true;
    started_at = some 0;
    last_exit = 0;
    console = [];
    os = true;
  };
}

abbrev tracked : ResourceUsage
tracked = record {
  state = running;
  memory = 4;
  cpu = 1;
  uptime = 9;
  tx_bytes = 0;
  rx_bytes = 0;
  disk = 7;
}

-- A stop by command, whose process ends at the second round.
stopped :
    (wait_for_stop windows true (ticks ∷ exits 0 ∷ ticks ∷ times_out ∷ []) online).0.published
    ≡ starting ∷ running ∷ stopping ∷ offline ∷ []
unfolding wait_for_stop set_state same_state text_eq
stopped = refl

process_no_crash_example :
    CalmSince 7 tracked (view online) (view (start windows online).0)
    × (CalmSince 7 tracked (view online) (view (stop windows online).0)
        × (was_online (stop windows online).0.st ≡ false))
    × (CalmSince 7 tracked (view online) (view (terminate windows online).0)
        × (was_online (terminate windows online).0.st ≡ false))
    × (CalmSince 7 tracked (view online) (view (destroy windows online))
        × (was_online (destroy windows online).st ≡ false))
    × CalmSince 7 tracked
        (view online)
        (view (wait_for_stop windows true (ticks ∷ exits 0 ∷ []) online).0)
    × (was_online (wait_for_stop windows true (ticks ∷ exits 0 ∷ []) online).0.st ≡ false)
process_no_crash_example =
    process_no_crash windows true (ticks ∷ exits 0 ∷ []) online 7 tracked refl

wait_for_stop_answers_example :
    Answered windows true (wait_for_stop windows true (ticks ∷ ticks ∷ times_out ∷ []) online)
wait_for_stop_answers_example = wait_for_stop_answers windows true (ticks ∷ ticks ∷ []) [] online

-- The process has ended, and the state does not show it yet.
abbrev ended : Environment windows
ended = record online { rest = record online.rest { cmd = false } }

terminate-read_late_example :
    ((terminate windows ended).0.published ≡ starting ∷ running ∷ stopping ∷ offline ∷ [])
    × (crashes (watch 7 (stopping ∷ offline ∷ []) tracked).1 ≡ 0)
    × (crashes (watch 7 (read_late offline (stopping ∷ offline ∷ [])) tracked).1 ≡ 1)
terminate-read_late_example = terminate-read_late windows ended 7 tracked refl refl refl
