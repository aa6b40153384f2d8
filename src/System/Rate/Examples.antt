-- ===== src/System/Rate/Examples.antt =====
-- Runs of the rate limiter, and the theorems at them.
use feathers.Prelude.{◌≡◌, ◌≤◌, refl, List, ℕ, [], ◌∷◌, arith}
use feathers.System.Rate.{Rate, try, allowed}
use feathers.System.Rate.Window.{allowed_burst}

abbrev three_per_second : Rate
three_per_second = record { limit = 3; duration = 1000; count = 0; last = 0 }

abbrev four_calls : List ℕ
four_calls = 10 ∷ 20 ∷ 30 ∷ 1000 ∷ []

four_calls-allowed : allowed four_calls three_per_second ≡ 3
unfolding allowed try
four_calls-allowed = refl

abbrev across_two_periods : List ℕ
across_two_periods = 900 ∷ 950 ∷ 990 ∷ 1001 ∷ 1100 ∷ 1200 ∷ 1300 ∷ []

-- The bound is met: six of these seven calls, within 400 ns, are let through.
across_two_periods-allowed : allowed across_two_periods three_per_second ≡ 6
unfolding allowed try
across_two_periods-allowed = refl

allowed_burst_example : allowed across_two_periods three_per_second ≤ 6
allowed_burst_example =
    allowed_burst across_two_periods three_per_second 900 (omega arith) (omega arith)
