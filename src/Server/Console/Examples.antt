-- ===== src/Server/Console/Examples.antt =====
-- A run of the console throttle, and the theorem at it.
use feathers.Prelude.{ℕ, ◌≡◌, refl, true, false, List, [], ◌∷◌, map, arith}
use feathers.System.Locker.{is_locked, acquire, release}
use feathers.System.Rate.{try}
use feathers.Server.Console.{ConsoleThrottle, Verdict, allow, verdicts}
use feathers.Server.Console.Strikes.{passes, onsets, verdicts-onsets}

abbrev two_lines : ConsoleThrottle
two_lines = record {
  limit = record { limit = 2; duration = 100; count = 0; last = 0 };
  lock = record { queued = 0; closed = false };
}

abbrev output : List ℕ
output = 1 ∷ 2 ∷ 3 ∷ 4 ∷ 200 ∷ 201 ∷ 202 ∷ 203 ∷ []

two_strikes :
    map (λ (v : Verdict). v.struck) (verdicts output two_lines)
    ≡ false ∷ false ∷ true ∷ false ∷ false ∷ false ∷ true ∷ false ∷ []
unfolding verdicts allow try acquire release
two_strikes = refl

verdicts-onsets_example :
    (map (λ (v : Verdict). v.allowed) (verdicts output two_lines) ≡ passes output two_lines.limit)
    × (map (λ (v : Verdict). v.struck) (verdicts output two_lines)
        ≡ onsets (is_locked two_lines.lock) (passes output two_lines.limit))
verdicts-onsets_example = verdicts-onsets output two_lines (omega arith) refl
