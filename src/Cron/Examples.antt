-- ===== src/Cron/Examples.antt =====
-- A run of the SFTP cron job: tests and the example.
use feathers.Prelude.{ℕ, ◌≡◌, refl, Bool, true, false, none, some, List, [], ◌∷◌, map, arith}
use feathers.Prelude.Text.{Text, codes, text_eq}
use feathers.Cron.{Activity, World, run}
use feathers.Cron.Offsets.{asked}
use feathers.Cron.Runs.{FailedOrRun, run_settles}

abbrev deletion : ℕ → ℕ → Text → Activity
deletion id time file = record {
  id = id;
  user = codes "u";
  server = codes "s";
  ip = codes "::1";
  event = codes "server:sftp.delete";
  timestamp = time;
  files = some (file ∷ []);
}

-- Two records of one minute, and one of the next.
abbrev stored : List Activity
stored = deletion 1 65 (codes "a") ∷ deletion 2 61 (codes "b") ∷ deletion 3 120 (codes "c") ∷ []

abbrev answered : List Bool
answered = true ∷ true ∷ true ∷ []

abbrev world : World
world = record { accepts = λ gs. true; deletes = λ ids. true }

-- With room for one group the third record waits for the next run.
merged : (run world 1 (asked 1 stored true) (map (asked 1 stored) answered) false).0 ≡ record {
  sent =
      record {
        first = deletion 1 65 (codes "a");
        timestamp = 61;
        files = codes "a" ∷ codes "b" ∷ [];
      }
      ∷ [];
  deleted = 1 ∷ 2 ∷ [];
  failure = none;
}
unfolding run text_eq
merged = refl

run_settles_example :
    FailedOrRun world 1 stored
      (true ∷ answered)
      (run world 1 (asked 1 stored true) (map (asked 1 stored) answered) false).0
run_settles_example = run_settles world 1 stored true answered (omega arith)
