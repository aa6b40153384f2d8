-- ===== src/Server/Listeners/Output.antt =====
-- `onConsoleOutput` of server/listeners.go and the crash detection.
use feathers.Prelude.{
  ℕ, ◌≡◌, refl, sym, ap, ◌∙◌, Bool, true, false, not, ◌&&◌, List, [], ◌∷◌, ◌++◌, arith,
  if◌then◌else◌,
}
use mathlib.Core.List.{append-nil, append_assoc}
use feathers.Prelude.Text.{Text}
use feathers.Server.Power.{ProcessState, offline, running}
use feathers.Server.Crash.{ResourceUsage, was_online, same_state}
use feathers.Environment.{Tracked, set_state}
use feathers.Environment.Watch.{watch, crashes, crashes-watch, falls_from}
use feathers.Server.Listeners.{
  ProcessConfiguration, is_starting, seen, is_stop, any_done, mark_done, mark_stopped,
  on_console_output,
}

-- What a line publishes: the running state, if it marks the end of the start, and offline, if it is the
-- command that stops the server.
abbrev pub published_by : Bool → Bool → List ProcessState
published_by true true = running ∷ offline ∷ []
published_by true false = running ∷ []
published_by false true = offline ∷ []
published_by false false = []

module _ {C : Type 0} where
  pub set_published :
      (s : ProcessState) (e : Tracked C)
      → same_state e.st s ≡ false
      → ((set_state s e).published ≡ e.published ++ s ∷ []) × ((set_state s e).st ≡ s)
  unfolding set_state
  set_published s e differs = rw differs (refl, refl)

  -- From an online state, both marks.
  marks : Bool → Bool → Tracked C → Tracked C
  marks done stop e =
      let e' = if done then set_state running e else e in if stop then set_state offline e' else e'

  marks_published :
      (done stop : Bool) (e : Tracked C)
      → (done && not (is_starting e.st)) ≡ false
      → was_online e.st ≡ true
      → (marks done stop e).published ≡ e.published ++ published_by done stop
  unfolding marks set_state same_state
  marks_published false false e h up = sym (append-nil e.published)
  marks_published true false e h up = (set_published running e (ground arith)).0
  marks_published false true e h up = (set_published offline e (ground arith)).0
  marks_published true true e h up =
      let (p, q) = set_published running e (ground arith) in
      let differs = ap (λ s. same_state s offline) q in
      (set_published offline (set_state running e) differs).0
      ∙ ap (λ ps. ps ++ offline ∷ []) p
      ∙ append_assoc e.published (running ∷ []) (offline ∷ [])

  still_online :
      (done : Bool) (e : Tracked C)
      → was_online e.st ≡ true
      → was_online (if done then set_state running e else e).st ≡ true
  unfolding set_state same_state
  still_online true e up = ground arith
  still_online false e up = up

falls_published :
    (s : ProcessState) (done stop : Bool)
    → was_online s ≡ true
    → falls_from s (published_by done stop) ≡ (if stop then 1 else 0)
falls_published s true true h = ground arith
falls_published s true false h = ground arith
falls_published s false true h = ground arith
falls_published s false false h = refl

module _ {R : Type 0} (match_reg : R → Text → Bool) (strip : Text → Text) {C : Type 0} where
  as_marks :
      (pc : ProcessConfiguration R) (line : Text) (e : Tracked C)
      → was_online e.st ≡ true
      → on_console_output match_reg strip pc line e
        ≡ marks
            (is_starting e.st
              && any_done match_reg strip pc.done (seen match_reg strip pc e.st line))
            (is_stop match_reg strip pc.stop (seen match_reg strip pc e.st line))
            e
  unfolding on_console_output marks mark_done mark_stopped set_state same_state
  as_marks pc line e up =
      let line' = seen match_reg strip pc e.st line in
      let done = is_starting e.st && any_done match_reg strip pc.done line' in
      rw (up, still_online done e up) refl

  -- A line from an online server publishes at most that it runs, where it was starting and the line marks
  -- the end of the start, and then that it is offline, where the line is the configured stop command. So
  -- whether the listener of the server starts the crash handler for it is whether the line is that command,
  -- although the code changes the state there to keep crash detection from restarting the server.
  pub console_output_crash :
      (pc : ProcessConfiguration R) (line : Text) (e : Tracked C) (disk : ℕ) (r : ResourceUsage)
      → was_online e.st ≡ true
      → r.state ≡ e.st
      → let line' = seen match_reg strip pc e.st line in
        let ss =
          published_by
            (is_starting e.st && any_done match_reg strip pc.done line')
            (is_stop match_reg strip pc.stop line') in
        ((on_console_output match_reg strip pc line e).published ≡ e.published ++ ss)
        × (crashes (watch disk ss r).1 ≡ (if is_stop match_reg strip pc.stop line' then 1 else 0))
  console_output_crash pc line e disk r up same =
      let line' = seen match_reg strip pc e.st line in
      let done = is_starting e.st && any_done match_reg strip pc.done line' in
      let stop = is_stop match_reg strip pc.stop line' in
      (
        ap (λ x. x.published) (as_marks pc line e up)
            ∙ marks_published done stop e (ground arith) up,
        crashes-watch disk (published_by done stop) r
            ∙ ap (λ s. falls_from s (published_by done stop)) same
            ∙ falls_published e.st done stop up,
      )
