-- ===== src/System/Rate/Window.antt =====
-- How many calls the limiter of system/rate.go lets through, in one of its periods and in any
-- interval of that length.
use feathers.Prelude.{
  ℕ, ◌+◌, ◌-◌, ◌^◌, ◌≤◌, ◌<◌, min, ◌≡◌, ◌⊎◌, true, false, List, [], ◌∷◌, arith, length, dec_lt,
}
use feathers.System.Rate.{Rate, refresh, take_one, try, reset, count_true, allowed}

-- No counter is above its limit, and the limit is not the largest uint64.
pub record IsValid (r : Rate) : Type 0 where
  pub capped : r.count ≤ r.limit
  pub representable : r.limit + 1 < 2 ^ 64

abbrev pub All : (ℕ → Type 0) → List ℕ → Type 0
All P [] = Unit {0}
All P (t ∷ ts) = P t × All P ts

All-mono : (P Q : ℕ → Type 0) (ts : List ℕ) → ((t : ℕ) → P t → Q t) → All P ts → All Q ts
All-mono P Q [] f h = tt
All-mono P Q (t ∷ ts) f h = (f t h.0, All-mono P Q ts f h.1)

take_one-IsValid : (r : Rate) → IsValid r → IsValid (take_one r).0
unfolding take_one
take_one-IsValid r v = ground arith

refresh-IsValid : (now : ℕ) (r : Rate) → IsValid r → IsValid (refresh now r)
unfolding refresh
refresh-IsValid now r v = ground arith

-- No call of `Try` takes the counter past the limit.
pub try-IsValid : (now : ℕ) (r : Rate) → IsValid r → IsValid (try now r).0
unfolding try
try-IsValid now r v = take_one-IsValid (refresh now r) (refresh-IsValid now r v)

pub reset-IsValid : (now : ℕ) (r : Rate) → IsValid r → IsValid (reset now r)
unfolding reset
reset-IsValid now r v = ground arith

-- What `Try` leaves alone.
try_keeps :
    (now : ℕ) (r : Rate) → ((try now r).0.limit ≡ r.limit) × ((try now r).0.duration ≡ r.duration)
unfolding try refresh take_one
try_keeps now r = ground arith

try_in_window :
    (now : ℕ) (r : Rate)
    → IsValid r
    → now ≤ r.last + r.duration
    → ((try now r).0.last ≡ r.last)
      × (count_true (try now r).1 ((try now r).0.limit - (try now r).0.count) ≡ r.limit - r.count)
      × (((try now r).1 ≡ true) ⊎ (((try now r).1 ≡ false) × (r.limit ≡ r.count)))
unfolding try refresh take_one
try_in_window now r v h = ground arith

-- While the period that began at `last` runs, the limiter lets through exactly the first calls, as
-- many as the count leaves under the limit.
pub allowed_in_window :
    (ts : List ℕ) (r : Rate)
    → IsValid r
    → All (λ t. t ≤ r.last + r.duration) ts
    → allowed ts r ≡ min (length ts) (r.limit - r.count)
unfolding allowed
allowed_in_window [] r v h = omega arith
allowed_in_window (t ∷ ts) r v h =
    let step = try_in_window t r v h.0 in
    let keeps = try_keeps t r in
    let rest = allowed_in_window ts (try t r).0 (try-IsValid t r v) (rw (step.0, keeps.1) h.1) in
    ground (arith, rest)

-- A call after the period has run out starts a new one, and is let through if the limit is not 0.
pub try_after_window :
    (now : ℕ) (r : Rate)
    → IsValid r
    → 0 < r.limit
    → r.last + r.duration < now
    → try now r ≡ (record r { count = 1; last = now }, true)
unfolding try refresh take_one
try_after_window now r v p h = ground arith

try_resets :
    (now : ℕ) (r : Rate)
    → IsValid r
    → r.last + r.duration < now
    → ((try now r).0.last ≡ now)
      × (count_true (try now r).1 ((try now r).0.limit - (try now r).0.count) ≤ r.limit)
unfolding try refresh take_one
try_resets now r v h = ground arith

allowed_after_reset :
    (t : ℕ) (ts : List ℕ) (r : Rate)
    → IsValid r
    → r.last + r.duration < t
    → All (λ u. u ≤ t + r.duration) ts
    → allowed (t ∷ ts) r ≤ r.limit
unfolding allowed
allowed_after_reset t ts r v late h =
    let renewed = try_resets t r v late in
    let keeps = try_keeps t r in
    let rest = allowed_in_window ts (try t r).0 (try-IsValid t r v) (rw (renewed.0, keeps.1) h) in
    ground (arith, rest)

-- In any interval as long as the period, the limiter lets through at most what its count leaves
-- under the limit and once more the limit: never more than twice the limit.
pub allowed_burst :
    (ts : List ℕ) (r : Rate) (from : ℕ)
    → IsValid r
    → All (λ t. (from ≤ t) × (t ≤ from + r.duration)) ts
    → allowed ts r ≤ r.limit - r.count + r.limit
unfolding allowed
allowed_burst [] r from v h = omega arith
allowed_burst (t ∷ ts) r from v h = elim (dec_lt (r.last + r.duration) t) [
  | yes late ↦
      let once = allowed_after_reset t ts r v late (
        All-mono (λ u. (from ≤ u) × (u ≤ from + r.duration)) (λ u. u ≤ t + r.duration) ts
          (λ u k. omega arith) h.1) in
      omega arith
  | no early ↦
      let same = try_in_window t r v (omega arith) in
      let keeps = try_keeps t r in
      let rest = allowed_burst ts (try t r).0 from (try-IsValid t r v) (rw (keeps.1) h.1) in
      ground (arith, rest)
]
