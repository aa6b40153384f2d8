-- ===== src/Environment/Watch.antt =====
-- `OnStateChange` of server/server.go at the states that a backend publishes: which of them are taken
-- for a crash.
use feathers.Prelude.{
  ℕ, ◌+◌, ◌≡◌, refl, sym, ap, ◌∙◌, Bool, false, ◌&&◌, List, [], ◌∷◌, ◌++◌, arith, if◌then◌else◌,
  Bool-cases, inl, inr,
}
use mathlib.Core.List.{append-nil, append_assoc}
use feathers.Server.Power.{ProcessState}
use feathers.Server.Crash.{
  ResourceUsage, Notice, status, stats, crash_detected, on_state_change, same_state, was_online,
  is_offline,
}
use feathers.Environment.{Tracked, set_state}

-- The listener: each change is handled in order, with the state that is read when it is handled.
unfoldable pub watch : ℕ → List ProcessState → ResourceUsage → ResourceUsage × List Notice
unfolding on_state_change
watch disk [] r = (r, [])
watch disk (s ∷ ss) r =
    let (r', ns) = on_state_change s disk r in
    let (r'', rest) = watch disk ss r' in (r'', ns ++ rest)

-- How often the crash handler is started.
unfoldable pub crashes : List Notice → ℕ
crashes [] = 0
crashes (crash_detected ∷ ns) = 1 + crashes ns
crashes (status s ∷ ns) = crashes ns
crashes (stats r ∷ ns) = crashes ns

-- A fall: online, and offline right after it.
abbrev pub falls : ProcessState → ProcessState → Bool
falls s t = was_online s && is_offline t

abbrev pub falls_from : ProcessState → List ProcessState → ℕ
falls_from s [] = 0
falls_from s (t ∷ ts) = (if falls s t then 1 else 0) + falls_from t ts

crashes-append : (ns ms : List Notice) → crashes (ns ++ ms) ≡ crashes ns + crashes ms
unfolding crashes
crashes-append [] ms = omega arith
crashes-append (crash_detected ∷ ns) ms = omega (arith, crashes-append ns ms)
crashes-append (status s ∷ ns) ms = crashes-append ns ms
crashes-append (stats r ∷ ns) ms = crashes-append ns ms

one_change :
    (s : ProcessState) (disk : ℕ) (r : ResourceUsage)
    → (crashes (on_state_change s disk r).1 ≡ (if falls r.state s then 1 else 0))
      × ((on_state_change s disk r).0.state ≡ s)
unfolding on_state_change crashes
one_change s disk r = ground arith

-- The crash handler is started once for each fall among the states that are read, and for nothing else.
pub crashes-watch :
    (disk : ℕ) (ss : List ProcessState) (r : ResourceUsage)
    → crashes (watch disk ss r).1 ≡ falls_from r.state ss
unfolding watch crashes
crashes-watch disk [] r = refl
crashes-watch disk (s ∷ ss) r =
    let (here, state) = one_change s disk r in
    let later =
      crashes-watch disk ss (on_state_change s disk r).0 ∙ ap (λ t. falls_from t ss) state in
    omega (
      arith,
      crashes-append (on_state_change s disk r).1 (watch disk ss (on_state_change s disk r).0).1,
      here,
      later,
    )

-- The state and what was published, of a backend.
abbrev pub View : Type 0
View = ProcessState × List ProcessState

abbrev pub view : {C : Type 0} → Tracked C → View
view e = (e.st, e.published)

-- The second comes from the first by changes of state that are no falls.
pub data Calm (v : View) : View → Type 0 where
  here : Calm v v
  change :
      {s : ProcessState} {ps : List ProcessState} (t : ProcessState)
      → falls s t ≡ false
      → Calm v (s, ps)
      → Calm v (t, ps ++ t ∷ [])

pub set_state-Calm :
    {C : Type 0} {v : View} (t : ProcessState) (e : Tracked C)
    → falls e.st t ≡ false
    → Calm v (view e)
    → Calm v (view (set_state t e))
unfolding set_state
set_state-Calm t e safe calm = elim (Bool-cases (same_state e.st t)) [
  | inl same ↦ rw same calm
  | inr differs ↦ rw differs (change t safe calm)
]

abbrev pub last_of : ProcessState → List ProcessState → ProcessState
last_of s [] = s
last_of s (t ∷ ts) = last_of t ts

falls_from_snoc :
    (s : ProcessState) (ss : List ProcessState) (t : ProcessState)
    → falls_from s (ss ++ t ∷ []) ≡ falls_from s ss + (if falls (last_of s ss) t then 1 else 0)
falls_from_snoc s [] t = omega arith
falls_from_snoc s (r ∷ ss) t = omega (arith, falls_from_snoc r ss t)

last_of_snoc :
    (s : ProcessState) (ss : List ProcessState) (t : ProcessState) → last_of s (ss ++ t ∷ []) ≡ t
last_of_snoc s [] t = refl
last_of_snoc s (r ∷ ss) t = last_of_snoc r ss t

-- What was published since, which ends in the new state, and in which nothing falls.
abbrev pub Since : View → View → Type 0
Since v w =
    (ss : List ProcessState) × (w.1 ≡ v.1 ++ ss) × (last_of v.0 ss ≡ w.0) × (falls_from v.0 ss ≡ 0)

-- Since, and where all of it is handled in order, from the resources on that the server has tracked, the
-- crash handler is not started.
abbrev pub CalmSince : ℕ → ResourceUsage → View → View → Type 0
CalmSince disk r v w =
    (ss : List ProcessState) × (w.1 ≡ v.1 ++ ss)
    × (last_of v.0 ss ≡ w.0)
    × (falls_from v.0 ss ≡ 0)
    × (crashes (watch disk ss r).1 ≡ 0)

-- What was published since, with the number of times that the crash handler is started where all of it is
-- handled in order.
abbrev pub HandledSince : ℕ → ResourceUsage → View → View → ℕ → Type 0
HandledSince disk r v w n =
    (ss : List ProcessState) × (w.1 ≡ v.1 ++ ss) × (crashes (watch disk ss r).1 ≡ n)

Calm-Since : {v w : View} → Calm v w → Since v w
Calm-Since {v} here = ([], sym (append-nil v.1), refl, refl)
Calm-Since {v} (change {s} {ps} t safe calm) =
    let (ss, e, l, q) = Calm-Since calm in
    (
      ss ++ t ∷ [],
      ap (λ qs. qs ++ t ∷ []) e ∙ append_assoc v.1 ss (t ∷ []),
      last_of_snoc v.0 ss t,
      falls_from_snoc v.0 ss t ∙ rw (l, safe) (omega (arith, q)),
    )

pub Calm-CalmSince :
    {v w : View} (disk : ℕ) (r : ResourceUsage) → r.state ≡ v.0 → Calm v w → CalmSince disk r v w
Calm-CalmSince {v} disk r tracked calm =
    let (ss, e, l, q) = Calm-Since calm in
    (ss, e, l, q, crashes-watch disk ss r ∙ ap (λ s. falls_from s ss) tracked ∙ q)

pub Calm-HandledSince :
    {v w : View} (disk : ℕ) (r : ResourceUsage)
    → r.state ≡ v.0
    → Calm v w
    → HandledSince disk r v w 0
Calm-HandledSince disk r tracked calm =
    let (ss, e, l, q, none_started) = Calm-CalmSince disk r tracked calm in (ss, e, none_started)
