-- ===== src/Server/Console/Strikes.antt =====
-- The strike of the console throttle in server/console.go comes once for each run of refusals.
use feathers.Prelude.{ℕ, ◌≡◌, refl, ap₂, Bool, false, not, ◌&&◌, List, [], ◌∷◌, map, arith}
use feathers.System.Locker.{is_locked, acquire, release}
use feathers.System.Locker.Laws.{IsValid}
use feathers.System.Rate.{Rate, try}
use feathers.Server.Console.{ConsoleThrottle, Verdict, allow, verdicts}

-- The verdicts that the rate limiter alone gives.
abbrev pub passes : List ℕ → Rate → List Bool
passes [] r = []
passes (t ∷ ts) r = let (r', passed) = try t r in passed ∷ passes ts r'

-- Where a refusal follows no refusal: `refused` tells of the call before the first.
abbrev pub onsets : Bool → List Bool → List Bool
onsets refused [] = []
onsets refused (passed ∷ ps) = (not passed && not refused) ∷ onsets (not passed) ps

allow_lem :
    (t : ℕ) (ct : ConsoleThrottle)
    → IsValid ct.lock
    → ct.lock.closed ≡ false
    → let (ct', v) = allow t ct in
      let passed = (try t ct.limit).1 in
      (ct'.limit ≡ (try t ct.limit).0)
      × (v.allowed ≡ passed)
      × (v.struck ≡ (not passed && not (is_locked ct.lock)))
      × (is_locked ct'.lock ≡ not passed)
      × IsValid ct'.lock
      × (ct'.lock.closed ≡ false)
unfolding allow is_locked acquire release
allow_lem t ct v o = ground arith

-- Over any times of output, the throttle lets through what its rate limiter lets through, and strikes
-- exactly at the first refusal of each run of refusals.
pub verdicts-onsets :
    (ts : List ℕ) (ct : ConsoleThrottle)
    → IsValid ct.lock
    → ct.lock.closed ≡ false
    → (map (λ (v : Verdict). v.allowed) (verdicts ts ct) ≡ passes ts ct.limit)
      × (map (λ (v : Verdict). v.struck) (verdicts ts ct)
          ≡ onsets (is_locked ct.lock) (passes ts ct.limit))
unfolding verdicts
verdicts-onsets [] ct v o = (refl, refl)
verdicts-onsets (t ∷ ts) ct v o =
    let (limit, same, struck, held, valid, live) = allow_lem t ct v o in
    let (rest, strikes) = verdicts-onsets ts (allow t ct).0 valid live in
    (ap₂ ◌∷◌ same (rw (limit) at rest), ap₂ ◌∷◌ struck (rw (limit, held) at strikes))
