-- ===== src/System/Locker/Examples.antt =====
-- Runs of the lock, and the theorems at them.
use feathers.Prelude.{◌≡◌, refl, List, [], ◌∷◌}
use feathers.System.Locker.{
  locked, panicked, deadline_exceeded, Wait, context_done, served, passed_over, acquires, destroys,
  new_locker, acquire, step, run,
}

acquire_then_acquire : (acquire (run new_locker (acquires ∷ []))).1 ≡ locked
unfolding run step new_locker
acquire_then_acquire = refl

acquire_after_destroy : (acquire (run new_locker (acquires ∷ destroys ∷ []))).1 ≡ panicked
unfolding run step new_locker
acquire_after_destroy = refl

abbrev patient : List Wait
patient = passed_over ∷ served ∷ context_done deadline_exceeded ∷ []
