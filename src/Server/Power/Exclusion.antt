-- ===== src/Server/Power/Exclusion.antt =====
-- Many callers of HandlePowerAction in server/power.go at once, as interleavings of their steps.
use feathers.Prelude.{
  ℕ, ◌≤◌, ◌≡◌, ◌≢◌, inl, inr, refl, sym, ◌∙◌, Bool, true, false, arith, ◌==◌, if◌then◌else◌,
  Bool-cases,
}
use feathers.System.Locker.{Locker, acquired, locked, is_locked, acquire, release}
use feathers.Server.Power.{PowerAction, terminate}

-- Where a caller stands: it has not called or has returned; it is about to take the lock (also while it
-- waits for it); it performs its action with the lock; it performs a termination without it.
pub data Phase : Type 0 where
  idle : Phase
  requesting holding : PowerAction → Phase
  forcing : Phase

pub record System : Type 0 where
  pub lock : Locker
  pub phase : ℕ → Phase

abbrev pub move : (ℕ → Phase) → ℕ → Phase → ℕ → Phase
move f i p j = if i == j then p else f j

abbrev pub initial : System
initial = record { lock = record { queued = 0; closed = false }; phase = λ i. idle }

pub data Step (s : System) : System → Type 0 where
  calls :
      (i : ℕ) (a : PowerAction)
      → s.phase i ≡ idle
      → Step s (record { lock = s.lock; phase = move s.phase i (requesting a) })
  enters :
      (i : ℕ) (a : PowerAction)
      → s.phase i ≡ requesting a
      → (acquire s.lock).1 ≡ acquired
      → Step s (record { lock = (acquire s.lock).0; phase = move s.phase i (holding a) })
  gives_up :
      (i : ℕ) (a : PowerAction)
      → s.phase i ≡ requesting a
      → Step s (record { lock = s.lock; phase = move s.phase i idle })
  forces :
      (i : ℕ)
      → s.phase i ≡ requesting terminate
      → (acquire s.lock).1 ≡ locked
      → Step s (record { lock = (acquire s.lock).0; phase = move s.phase i forcing })
  leaves :
      (i : ℕ) (a : PowerAction)
      → s.phase i ≡ holding a
      → Step s (record { lock = release s.lock; phase = move s.phase i idle })
  returns :
      (i : ℕ) → s.phase i ≡ forcing → Step s (record { lock = s.lock; phase = move s.phase i idle })

pub data Reach : System → Type 0 where
  here : Reach initial
  next : {s t : System} → Reach s → Step s t → Reach t

abbrev pub holds : Phase → Bool
holds (holding a) = true
holds _ = false

-- The lock is open and within its capacity; at most one caller holds it, and none while it is free.
record Inv (s : System) : Type 0 where
  open_lock : s.lock.closed ≡ false
  small : s.lock.queued ≤ 1
  alone : (i j : ℕ) → holds (s.phase i) ≡ true → holds (s.phase j) ≡ true → i ≡ j
  none_free : s.lock.queued ≡ 0 → (i : ℕ) → holds (s.phase i) ≡ false
  owned : s.lock.queued ≡ 1 → (i : ℕ) × (holds (s.phase i) ≡ true)

-- A caller that does not hold the lock moves on without taking it.
move_apart :
    (s : System) (i : ℕ) (p : Phase)
    → Inv s
    → holds (s.phase i) ≡ false
    → holds p ≡ false
    → Inv (record { lock = s.lock; phase = move s.phase i p })
move_apart s i p v before after = record {
  open_lock = v.open_lock;
  small = v.small;
  alone = λ j k hj hk. v.alone j k (kept j hj) (kept k hk);
  none_free = λ e j. ground (arith, v.none_free e j);
  owned = λ e. let (j, held) = v.owned e in (j, ground arith);
}
  where
    kept : (j : ℕ) → holds (move s.phase i p j) ≡ true → holds (s.phase j) ≡ true
    kept j h = ground arith

-- A caller that gets the lock is then alone with it.
enter_alone :
    (s : System) (i : ℕ) (a : PowerAction)
    → Inv s
    → (acquire s.lock).1 ≡ acquired
    → Inv (record { lock = (acquire s.lock).0; phase = move s.phase i (holding a) })
unfolding acquire
enter_alone s i a v got = record {
  open_lock = ground (arith, v.open_lock);
  small = ground (arith, v.small);
  alone = λ j k hj hk. sym (only j hj) ∙ only k hk;
  none_free = λ e j. absurd (ground (arith, v.open_lock));
  owned = λ e. (i, ground arith);
}
  where
    was_free : s.lock.queued ≡ 0
    was_free = ground (arith, v.open_lock)

    only : (j : ℕ) → holds (move s.phase i (holding a) j) ≡ true → i ≡ j
    only j h = ground (arith, v.none_free was_free j)

acquire_locked : (l : Locker) → (acquire l).1 ≡ locked → (acquire l).0 ≡ l
unfolding acquire
acquire_locked l h = ground arith

-- A holder that leaves frees the lock, and nobody else held it.
leave_free :
    (s : System) (i : ℕ)
    → Inv s
    → holds (s.phase i) ≡ true
    → Inv (record { lock = release s.lock; phase = move s.phase i idle })
unfolding release
leave_free s i v held = record {
  open_lock = ground (arith, v.open_lock);
  small = ground (arith, v.small);
  alone = λ j k hj hk. absurd (cc (nobody j));
  none_free = λ e j. nobody j;
  owned = λ e. absurd (ground (arith, v.small));
}
  where
    nobody : (j : ℕ) → holds (move s.phase i idle j) ≡ false
    nobody j = elim (Bool-cases (holds (s.phase j))) [
      | inl other ↦ ground (arith, v.alone i j held other)
      | inr none ↦ ground (arith, none)
    ]

Step-Inv : {s t : System} → Step s t → Inv s → Inv t
Step-Inv {s} (calls i a at) v = move_apart s i (requesting a) v (rw at) refl
Step-Inv {s} (enters i a at got) v = enter_alone s i a v got
Step-Inv {s} (gives_up i a at) v = move_apart s i idle v (rw at) refl
Step-Inv {s} (forces i at busy) v =
    rw (acquire_locked s.lock busy) (move_apart s i forcing v (rw at) refl)
Step-Inv {s} (leaves i a at) v = leave_free s i v (rw at)
Step-Inv {s} (returns i at) v = move_apart s i idle v (rw at) refl

initial-Inv : Inv initial
initial-Inv = record {
  open_lock = refl;
  small = omega arith;
  alone = λ i j h k. cc;
  none_free = λ e i. refl;
  owned = λ e. absurd (omega arith);
}

Reach-Inv : {s : System} → Reach s → Inv s
Reach-Inv here = initial-Inv
Reach-Inv (next r st) = Step-Inv st (Reach-Inv r)

-- Under every interleaving of any number of callers, two never perform actions under the lock at the
-- same time: an action overlaps with another one only if that is a forced termination.
pub power_exclusion :
    {s : System}
    → Reach s
    → (i j : ℕ) (a b : PowerAction) → s.phase i ≡ holding a
    → s.phase j ≡ holding b
    → i ≡ j
power_exclusion {s} r i j a b hi hj = (Reach-Inv r).alone i j (rw hi) (rw hj)

holding_action : (p : Phase) → holds p ≡ true → (a : PowerAction) × (p ≡ holding a)
holding_action (holding a) h = (a, refl)
holding_action idle h = cc
holding_action (requesting a) h = cc
holding_action forcing h = cc

-- Nor is the lock lost: in every reachable state it is held exactly while some caller performs its
-- action under it.
pub power_lock_owned :
    {s : System}
    → Reach s
    → (is_locked s.lock ≡ true → (i : ℕ) × (a : PowerAction) × (s.phase i ≡ holding a))
      × ((i : ℕ) (a : PowerAction) → s.phase i ≡ holding a → is_locked s.lock ≡ true)
unfolding is_locked
power_lock_owned {s} r =
    let v = Reach-Inv r in
    (
      (λ h.
          let (i, held) = v.owned (ground arith) in
          let (a, e) = holding_action (s.phase i) held in (i, a, e)),
      (λ i a h.
          let ne : s.lock.queued ≢ 0 = λ e. absurd (cc (v.none_free e i)) in
          ground (arith, v.small)),
    )
