-- ===== src/System/Rate.antt =====
-- system/rate.go: at most `limit` calls in each period of `duration`. Time is an argument of a call,
-- in nanoseconds of the monotonic clock; the counters are uint64 and wrap.
pub mod Window
mod Examples
use feathers.Prelude.{ℕ, ◌+◌, ◌-◌, ◌%◌, ◌^◌, Bool, true, false, List, [], ◌∷◌, ltb, if◌then◌else◌}

pub record Rate : Type 0 where
  pub limit : ℕ  -- uint64
  pub duration : ℕ
  pub count : ℕ  -- uint64
  pub last : ℕ

abbrev pub u64 : ℕ → ℕ
u64 n = n % 2 ^ 64

unfoldable pub new_rate : ℕ → ℕ → ℕ → Rate
new_rate limit duration now = record { limit = limit; duration = duration; count = 0; last = now }

-- The first `if` of `Try`. For `now` before `last` the difference is negative and no duration is
-- below it, as with the difference that stops at 0.
unfoldable pub refresh : ℕ → Rate → Rate
refresh now r = if ltb r.duration (now - r.last) then record r { count = 0; last = now } else r

unfoldable pub take_one : Rate → Rate × Bool
take_one r =
    if ltb r.limit (u64 (r.count + 1))
    then (r, false)
    else (record r { count = u64 (r.count + 1) }, true)

unfoldable pub try : ℕ → Rate → Rate × Bool
unfolding refresh take_one
try now r = take_one (refresh now r)

unfoldable pub reset : ℕ → Rate → Rate
reset now r = record r { count = 0; last = now }

abbrev pub count_true : Bool → ℕ → ℕ
count_true true n = n + 1
count_true false n = n

-- Calls at the given times, and how many of them were let through.
unfoldable pub allowed : List ℕ → Rate → ℕ
allowed [] r = 0
allowed (t ∷ ts) r = let (r', passed) = try t r in count_true passed (allowed ts r')
