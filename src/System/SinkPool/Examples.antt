-- ===== src/System/SinkPool/Examples.antt =====
-- Runs of a sink pool, and the theorems at them.
use feathers.Prelude.{ℕ, ◌+◌, ◌-◌, ◌≡◌, refl, false, none, some, [], ◌∷◌, ◌++◌, arith, length, drop}
use feathers.System.SinkPool.{Channel, Store, Meanwhile, takes, takes_for_other, deliver, Pool}
use feathers.System.SinkPool.Rolling.{Fits, calm, deliver_rolls, deliver-Fits}
use feathers.System.SinkPool.Registry.{IsValid}

abbrev full_channel : Channel ℕ
full_channel = record { buffer = 1 ∷ 2 ∷ []; capacity = 2; closed = false; received = [] }

abbrev store : Store ℕ
store i = full_channel

abbrev busy : ℕ → Meanwhile ℕ
busy i = record { acts = takes_for_other 7 ∷ takes ∷ []; rival = none }

abbrev pool : Pool ℕ
pool = record { sinks = some 4 ∷ none ∷ some 6 ∷ []; store = store }

rolled : (deliver calm 3 full_channel).0.buffer ≡ 2 ∷ 3 ∷ []
unfolding deliver
rolled = refl

deliver_rolls_example :
    (deliver calm 3 full_channel).0.buffer
    ≡ drop (length full_channel.buffer + 1 - full_channel.capacity) (full_channel.buffer ++ 3 ∷ [])
deliver_rolls_example = deliver_rolls 3 full_channel refl (omega arith) (omega arith)

deliver-Fits_example : Fits (deliver (busy 0) 3 full_channel).0
deliver-Fits_example = deliver-Fits (busy 0) 3 full_channel (omega arith)

pool-IsValid : IsValid pool
pool-IsValid = (refl, (omega arith, tt), (refl, tt, tt))
