-- ===== src/Server/Listeners/Order.antt =====
-- The listener of server/listeners.go handles each event in a goroutine of its own, and `OnStateChange` reads
-- the state of the environment when it runs, not the one that was published.
use feathers.Prelude.{
  ℕ, ◌≡◌, refl, ap, ◌∙◌, Bool, true, false, not, List, [], ◌∷◌, ◌++◌, arith, if◌then◌else◌, none,
}
use mathlib.Core.List.{append_assoc}
use feathers.Server.Power.{ProcessState, offline, stopping}
use feathers.Server.Crash.{ResourceUsage, was_online, is_offline, same_state}
use feathers.Environment.{Tracked, set_state}
use feathers.Environment.Watch.{watch, crashes, crashes-watch, falls, falls_from}
use feathers.Winproc.Process.{Windows, Environment, terminate, settle, kill}
use feathers.Server.Listeners.Output.{set_published}

-- What is read where each change is handled only after the last one.
abbrev pub read_late : ProcessState → List ProcessState → List ProcessState
read_late t [] = []
read_late t (s ∷ ss) = t ∷ read_late t ss

still : (t : ProcessState) → falls t t ≡ false
still t = ground arith

falls_late : (t : ProcessState) (ss : List ProcessState) → falls_from t (read_late t ss) ≡ 0
falls_late t [] = refl
falls_late t (s ∷ ss) = rw (still t) (omega (arith, falls_late t ss))

-- Where the changes are handled only after the last one, the crash handler is started exactly if the first
-- state was online and the last is offline, whatever was published between them.
pub crashes-read_late :
    (disk : ℕ) (s t : ProcessState) (ss : List ProcessState) (r : ResourceUsage)
    → crashes (watch disk (read_late t (s ∷ ss)) r).1 ≡ (if falls r.state t then 1 else 0)
crashes-read_late disk s t ss r =
    omega (arith, crashes-watch disk (read_late t (s ∷ ss)) r, falls_late t ss)

either_is :
    {C : Type 0} (b : Bool) (d e : Tracked C)
    → b ≡ false
    → (if b then d else e).published ≡ e.published
either_is true d e h = absurd (ground (arith, h))
either_is false d e h = refl

ended_branch : {A : Type 0} (b : Bool) (m n : A) → b ≡ false → (if not b then m else n) ≡ m
ended_branch true m n h = absurd (ground (arith, h))
ended_branch false m n h = refl

settle_published :
    {C : Type 0} (w : Windows C) (e : Environment w)
    → was_online e.st ≡ true
    → (settle w e).published ≡ e.published ++ stopping ∷ offline ∷ []
unfolding settle same_state
settle_published w e up =
    let (p, q) = set_published stopping e (ground arith) in
    either_is (is_offline e.st) e (set_state offline (set_state stopping e)) (ground arith)
    ∙ (set_published offline (set_state stopping e) (ap (λ s. same_state s offline) q)).0
    ∙ ap (λ ps. ps ++ offline ∷ []) p
    ∙ append_assoc e.published (stopping ∷ []) (offline ∷ [])

-- Terminating a process that has ended, while its state is still online, publishes stopping and then offline,
-- in one go. Handled in order they are no crash; where both are handled after the second, the crash
-- handler is started, although a user asked for the end.
pub terminate-read_late :
    {C : Type 0} (w : Windows C) (e : Environment w) (disk : ℕ) (r : ResourceUsage)
    → e.rest.cmd ≡ false
    → was_online e.st ≡ true
    → r.state ≡ e.st
    → ((terminate w e).0.published ≡ e.published ++ stopping ∷ offline ∷ [])
      × (crashes (watch disk (stopping ∷ offline ∷ []) r).1 ≡ 0)
      × (crashes (watch disk (read_late offline (stopping ∷ offline ∷ [])) r).1 ≡ 1)
unfolding terminate
terminate-read_late w e disk r ended up same = (
  ap (λ m. m.0.published)
        (ended_branch e.rest.cmd (settle w e, none) (kill w (set_state stopping e)) ended)
      ∙ settle_published w e up,
  crashes-watch disk (stopping ∷ offline ∷ []) r ∙ rw same (ground arith),
  crashes-read_late disk stopping offline (offline ∷ []) r ∙ rw (same, up) refl,
)
