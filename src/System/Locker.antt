-- ===== src/System/Locker.antt =====
-- system/locker.go: a lock that is a channel of capacity one.
-- The mutex around each method makes it atomic, so a method is a function on the channel's state.
pub mod Laws
mod Examples
use feathers.Prelude.{
  ℕ, zero, suc, Bool, true, false, Option, none, some, List, [], ◌∷◌, ◌==◌, if◌then◌else◌,
}

-- The channel `ch`: its queued values (only `true` is ever sent, so their number is the state) and
-- whether it was closed. The capacity is the one that `NewLocker` gives.
pub record Locker : Type 0 where
  pub queued : ℕ
  pub closed : Bool

abbrev pub capacity : ℕ
capacity = 1

-- What a call can come back with: nil, `ErrLockerLocked`, or a panic (a send on, or a close of, a
-- closed channel). `waiting` is no result: the call has not come back.
pub data Outcome : Type 0 where
  acquired locked panicked waiting : Outcome

unfoldable pub new_locker : Locker
new_locker = record { queued = 0; closed = false }

unfoldable pub is_locked : Locker → Bool
is_locked l = l.queued == 1

-- `select { case ch <- true: default: }`
try_send : Bool → ℕ → Locker → Locker × Outcome
try_send true n l = (l, panicked)
try_send false zero l = (record l { queued = 1 }, acquired)
try_send false (suc n) l = (l, locked)

unfoldable pub acquire : Locker → Locker × Outcome
unfolding try_send
acquire l = try_send l.closed l.queued l

-- `select { case <-ch: default: }`: a closed channel is drained too.
drain : ℕ → Locker → Locker
drain zero l = l
drain (suc n) l = record l { queued = n }

unfoldable pub release : Locker → Locker
unfolding drain
release l = drain l.queued l

-- How a context ends: not yet, by its deadline, by cancellation, or with another cause.
pub data ContextEnd : Type 0 where
  deadline_exceeded canceled other_error no_error : ContextEnd

-- What a goroutine in `TryAcquire` meets, in order. `context_done`: its select takes the case of the
-- finished context. `served`: the holder releases, and this goroutine's send completes. `passed_over`:
-- the holder releases to another waiter. `destroyed`: the channel is closed over this waiter.
pub data Wait : Type 0 where
  context_done : ContextEnd → Wait
  served passed_over destroyed : Wait

context_outcome : ContextEnd → Outcome
context_outcome deadline_exceeded = locked
context_outcome canceled = locked
context_outcome other_error = acquired
context_outcome no_error = acquired

-- The blocked select, once there was no room at its start.
block : List Wait → Locker → Locker × Outcome
unfolding context_outcome
block [] l = (l, waiting)
block (context_done e ∷ ws) l = (l, context_outcome e)
block (served ∷ ws) l = (record l { queued = 1 }, acquired)
block (passed_over ∷ ws) l = block ws l
block (destroyed ∷ ws) l = (record l { closed = true }, panicked)

start_select : Bool → ℕ → List Wait → Locker → Locker × Outcome
unfolding block context_outcome
start_select c q (context_done e ∷ ws) l = (l, context_outcome e)
start_select true q ws l = (l, panicked)
start_select false zero ws l = (record l { queued = 1 }, acquired)
start_select false (suc n) ws l = block ws l

unfoldable pub try_acquire : List Wait → Locker → Locker × Outcome
unfolding start_select
try_acquire ws l = start_select l.closed l.queued ws l

-- `Destroy` drains the channel and closes it; closing it twice panics.
unfoldable pub destroy : Locker → Locker × Option Outcome
unfolding drain
destroy l =
    let d = drain l.queued l in
    if l.closed then (d, some panicked) else (record d { closed = true }, none)

-- One call of the lock, as other goroutines see it.
pub data Call : Type 0 where
  acquires releases destroys : Call
  try_acquires : List Wait → Call

unfoldable pub step : Locker → Call → Locker
unfolding acquire release destroy try_acquire
step l acquires = (acquire l).0
step l releases = release l
step l destroys = (destroy l).0
step l (try_acquires ws) = (try_acquire ws l).0

unfoldable pub run : Locker → List Call → Locker
run l [] = l
run l (c ∷ cs) = run (step l c) cs
