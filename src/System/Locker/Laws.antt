-- ===== src/System/Locker/Laws.antt =====
-- What holds of the lock of system/locker.go, call by call and over every sequence of calls.
use feathers.Prelude.{ℕ, zero, suc, ◌≤◌, ◌≡◌, refl, ◌⊎◌, Bool, true, false, List, [], ◌∷◌, arith}
use feathers.System.Locker.{
  Locker, acquired, locked, ContextEnd, deadline_exceeded, canceled, Wait, context_done, served,
  passed_over, destroyed, Call, acquires, releases, destroys, try_acquires, new_locker, is_locked,
  acquire, release, block, start_select, try_acquire, step, run,
}

-- A channel never holds more than its capacity.
abbrev pub IsValid : Locker → Type 0
IsValid l = l.queued ≤ 1

new_locker-IsValid : IsValid new_locker
unfolding new_locker
new_locker-IsValid = omega arith

block-IsValid : (ws : List Wait) (l : Locker) → IsValid l → IsValid (block ws l).0
unfolding block
block-IsValid [] l v = v
block-IsValid (context_done e ∷ ws) l v = v
block-IsValid (served ∷ ws) l v = omega arith
block-IsValid (passed_over ∷ ws) l v = block-IsValid ws l v
block-IsValid (destroyed ∷ ws) l v = v

start_select-IsValid :
    (c : Bool) (q : ℕ) (ws : List Wait) (l : Locker) → IsValid l → IsValid (start_select c q ws l).0
unfolding start_select
start_select-IsValid c q (context_done e ∷ ws) l v = v
start_select-IsValid true q _ l v = v
start_select-IsValid false zero _ l v = omega arith
start_select-IsValid false (suc q) ws l v = block-IsValid ws l v

pub step-IsValid : (l : Locker) (c : Call) → IsValid l → IsValid (step l c)
unfolding step
step-IsValid l acquires v = ground arith
step-IsValid l releases v = ground arith
step-IsValid l destroys v = ground arith
step-IsValid l (try_acquires ws) v = start_select-IsValid l.closed l.queued ws l v

run-IsValid : (l : Locker) (cs : List Call) → IsValid l → IsValid (run l cs)
unfolding run
run-IsValid l [] v = v
run-IsValid l (c ∷ cs) v = run-IsValid (step l c) cs (step-IsValid l c v)

-- After any calls on a new lock, its channel holds at most one value.
pub run-new_locker-IsValid : (cs : List Call) → IsValid (run new_locker cs)
run-new_locker-IsValid cs = run-IsValid new_locker cs new_locker-IsValid

-- On an open lock within its capacity: `Acquire` succeeds exactly when the lock is free, it is then
-- held, a second `Acquire` is refused and changes nothing, and a `Release` makes it free again.
pub acquire_exclusive :
    (l : Locker)
    → IsValid l
    → l.closed ≡ false
    → let (l', r) = acquire l in
      ((is_locked l ≡ false) × (r ≡ acquired) ⊎ (is_locked l ≡ true) × (r ≡ locked))
      × (is_locked l' ≡ true)
      × (acquire l' ≡ (l', locked))
      × (is_locked (release l') ≡ false)
      × ((acquire (release l')).1 ≡ acquired)
unfolding acquire is_locked release
acquire_exclusive l v open_lock = ground arith

-- A context of the standard library ends by its deadline or by cancellation.
abbrev pub IsStandard : ContextEnd → Type 0
IsStandard e = (e ≡ deadline_exceeded) ⊎ (e ≡ canceled)

abbrev pub AllStandard : List Wait → Type 0
AllStandard [] = Unit {0}
AllStandard (context_done e ∷ ws) = IsStandard e × AllStandard ws
AllStandard (w ∷ ws) = AllStandard ws

block_holds :
    (ws : List Wait) (l : Locker)
    → AllStandard ws
    → (block ws l).1 ≡ acquired
    → is_locked (block ws l).0 ≡ true
unfolding block is_locked
block_holds [] l s e = cc
block_holds (context_done d ∷ ws) l s e = ground arith
block_holds (served ∷ ws) l s e = refl
block_holds (passed_over ∷ ws) l s e = block_holds ws l s e
block_holds (destroyed ∷ ws) l s e = cc

start_select_holds :
    (c : Bool) (q : ℕ) (ws : List Wait) (l : Locker)
    → AllStandard ws
    → (start_select c q ws l).1 ≡ acquired
    → is_locked (start_select c q ws l).0 ≡ true
unfolding start_select is_locked
start_select_holds c q (context_done d ∷ ws) l s e = ground arith
start_select_holds true q _ l s e = cc
start_select_holds false zero _ l s e = refl
start_select_holds false (suc q) ws l s e = block_holds ws l s e

-- With the standard library's contexts, `TryAcquire` returns nil only when the lock is then held.
pub try_acquire_holds :
    (ws : List Wait) (l : Locker)
    → AllStandard ws
    → (try_acquire ws l).1 ≡ acquired
    → is_locked (try_acquire ws l).0 ≡ true
unfolding try_acquire
try_acquire_holds ws l s e = start_select_holds l.closed l.queued ws l s e
