-- ===== src/Server/Console.antt =====
-- server/console.go: the throttle on the console output of a server.
pub mod Strikes
mod Examples
use feathers.Prelude.{ℕ, Bool, true, false, List, [], ◌∷◌, if◌then◌else◌}
use feathers.System.Locker.{Locker, Outcome, acquired, acquire, release, new_locker}
use feathers.System.Rate.{Rate, try, new_rate}
use feathers.System.Rate

pub record ConsoleThrottle : Type 0 where
  pub limit : Rate
  pub lock : Locker

unfoldable pub new_console_throttle : ℕ → ℕ → ℕ → ConsoleThrottle
unfolding new_rate new_locker
new_console_throttle lines period now = record {
  limit = new_rate lines period now;
  lock = new_locker;
}

-- The answer of `Allow`, and whether it called `strike`.
pub record Verdict : Type 0 where
  pub allowed : Bool
  pub struck : Bool

abbrev pub got : Outcome → Bool
got acquired = true
got _ = false

unfoldable pub allow : ℕ → ConsoleThrottle → ConsoleThrottle × Verdict
allow now ct =
    let (limit, passed) = try now ct.limit in
    let (held, outcome) = acquire ct.lock in
    if passed
    then (
      record { limit = limit; lock = release ct.lock },
      record { allowed = true; struck = false },
    )
    else (record { limit = limit; lock = held }, record { allowed = false; struck = got outcome })

unfoldable pub reset : ℕ → ConsoleThrottle → ConsoleThrottle
reset now ct = record ct { limit = Rate.reset now ct.limit }

-- Output at the given times.
unfoldable pub verdicts : List ℕ → ConsoleThrottle → List Verdict
verdicts [] ct = []
verdicts (t ∷ ts) ct = let (ct', v) = allow t ct in v ∷ verdicts ts ct'
