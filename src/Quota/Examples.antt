-- ===== src/Quota/Examples.antt =====
-- Runs of the quota, and the theorems at them.
use feathers.Prelude.{◌≡◌, refl, true, false, List, [], ◌∷◌, arith}
use feathers.Prelude.Int.{ℤ, pos, negsuc, ◌+ℤ◌, max_int64}
use feathers.Quota.{Quota, next_usage, add, add_loop, can_fit, FileInfo}
use feathers.Quota.Bounds.{clamp, IsKnown, next_usage-clamp, add-IsKnown}
use feathers.Quota.Contention.{AtOneMoment, add_loop_atomic}

abbrev half_full : Quota
half_full = record { limit = pos 100; usage = pos 50 }

abbrev save : FileInfo
save = record { regular = true; size = pos 70 }

saturated : next_usage (pos 5) max_int64 ≡ max_int64
unfolding next_usage
saturated = refl

next_usage-clamp_example : next_usage (pos 50) (negsuc 69) ≡ clamp (pos 50 +ℤ negsuc 69)
next_usage-clamp_example = next_usage-clamp (pos 50) (negsuc 69) (omega arith) (omega arith)

add-IsKnown_example : IsKnown (add (negsuc 69) half_full).0.usage
add-IsKnown_example = add-IsKnown (negsuc 69) half_full (omega arith) (omega arith)

no_room : can_fit (pos 51) half_full ≡ false
unfolding can_fit
no_room = refl

abbrev others : List ℤ
others = pos 60 ∷ pos 70 ∷ []

add_loop_atomic_example : AtOneMoment others (pos 50) (pos 5) (add_loop others (pos 50) (pos 5))
add_loop_atomic_example = add_loop_atomic others (pos 50) (pos 5)

retried : add_loop others (pos 50) (pos 5) ≡ pos 75
unfolding add_loop
retried = refl
