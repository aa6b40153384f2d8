-- ===== src/Winproc/Process/Ends.antt =====
-- The power actions of environment/winproc/power.go and the crash detection of the server; how a wait for
-- the end of a process ends.
use feathers.Prelude.{
  ℕ, ◌∙◌, ◌≡◌, refl, Bool, true, false, ◌&&◌, not, Option, none, some, List, [], ◌∷◌, ◌++◌, arith,
  Bool-cases, inl, inr, if◌then◌else◌,
}
use feathers.Prelude.Text.{codes, text_eq}
use feathers.Server.Power.{offline, stopping}
use feathers.Server.Crash.{ResourceUsage, was_online, is_offline, same_state}
use feathers.Environment.{Tracked, set_state}
use feathers.Environment.Watch.{
  watch, crashes, crashes-watch, view, here, CalmSince, Calm-CalmSince,
}
use feathers.Winproc.Process.{
  Failure, Windows, Event, times_out, ticks, exits, Environment, start, stop, terminate, destroy,
  wait_for_stop, exited, deadline, job_failed, poll, await, kill, need, is_running, send_command,
  begin_stop, note_stop, settle, not_attached, write_failed,
}
use feathers.Winproc.Process.Lifecycle.{
  start-Quiet, stop-Down, terminate-Down, destroy-Down, wait_for_stop-Down,
}

-- Starting, stopping, killing or removing a process, and waiting for its end, whatever Windows answers at
-- each call and whatever happens during the wait: the states that are published end in the new state, and none
-- of them is offline right after an online one. Where the server has tracked the state before, and its
-- listener handles them in order, each with the state that it tells of, the listener starts no crash handler.
-- All of them but the start leave a state that is not online.
pub process_no_crash :
    {C : Type 0} (w : Windows C) (cut : Bool) (es : List Event) (e : Environment w) (disk : ℕ)
    (r : ResourceUsage)
    → r.state ≡ e.st
    → CalmSince disk r (view e) (view (start w e).0)
      × (CalmSince disk r (view e) (view (stop w e).0) × (was_online (stop w e).0.st ≡ false))
      × (CalmSince disk r (view e) (view (terminate w e).0)
          × (was_online (terminate w e).0.st ≡ false))
      × (CalmSince disk r (view e) (view (destroy w e)) × (was_online (destroy w e).st ≡ false))
      × CalmSince disk r (view e) (view (wait_for_stop w cut es e).0)
      × (was_online (wait_for_stop w cut es e).0.st ≡ false)
process_no_crash w cut es e disk r tracked =
    let (a, a') = stop-Down w (view e) e here in
    let (b, b') = terminate-Down w (view e) e here in
    let (c, c') = destroy-Down w (view e) e here in
    let (d, d') = wait_for_stop-Down w (view e) cut es e here in
    (
      Calm-CalmSince disk r tracked (start-Quiet w (view e) e here),
      (Calm-CalmSince disk r tracked a, a'),
      (Calm-CalmSince disk r tracked b, b'),
      (Calm-CalmSince disk r tracked c, c'),
      Calm-CalmSince disk r tracked d,
      d',
    )

published_end :
    {C : Type 0} (e : Tracked C)
    → is_offline e.st ≡ false
    → (set_state offline e).published ≡ e.published ++ offline ∷ []
unfolding set_state same_state
published_end e up = ground arith

-- The end of a process that is not offline publishes offline, and where the server has tracked the state
-- before, its listener starts the crash handler exactly if the process was starting or running: not when a
-- stop had been asked for, whatever the exit code.
pub exited_crash :
    {C : Type 0} (w : Windows C) (code : ℕ) (e : Environment w) (disk : ℕ) (r : ResourceUsage)
    → is_offline e.st ≡ false
    → r.state ≡ e.st
    → ((exited w code e).published ≡ e.published ++ offline ∷ [])
      × (crashes (watch disk (offline ∷ []) r).1 ≡ (if was_online e.st then 1 else 0))
unfolding exited
exited_crash w code e disk r up same =
    (published_end _ up, crashes-watch disk (offline ∷ []) r ∙ rw same (ground arith))

-- Whether an answer is the error of the deadline.
abbrev pub is_deadline : Option Failure → Bool
is_deadline none = false
is_deadline (some x) = elim x [ deadline ↦ true | _ ↦ false ]

module _ {C : Type 0} (w : Windows C) where
  -- Answered, and not with the deadline where what does not stop is cut.
  abbrev pub Answered : Bool → Environment w × Option (Option Failure) → Type 0
  Answered cut m = (r : Option Failure) × (m.1 ≡ some r) × ((cut && is_deadline r) ≡ false)

  -- Errors that are not the deadline.
  abbrev Other : Environment w × Option Failure → Type 0
  Other m = is_deadline m.1 ≡ false

  either-Other :
      (b : Bool) (m n : Environment w × Option Failure)
      → Other m
      → Other n
      → Other (if b then m else n)
  either-Other true m n p q = p
  either-Other false m n p q = q

  need-Other :
      (x : Failure) (f : C → C × Bool) (e : Environment w)
      → is_deadline (some x) ≡ false
      → Other (need w x f e)
  unfolding need
  need-Other x f e h = elim (Bool-cases (f e.rest.os).1) [ inl y ↦ rw y refl | inr n ↦ rw n h ]

  terminate-Other : (e : Environment w) → Other (terminate w e)
  unfolding terminate kill
  terminate-Other e =
      let s = set_state stopping e in
      either-Other (not e.rest.cmd) (settle w e, none) (kill w s) refl
        (either-Other s.rest.job (need w job_failed w.terminate_job s) (s, none)
          (need-Other job_failed w.terminate_job s refl) refl)

  stop-Other : (e : Environment w) → Other (stop w e)
  unfolding stop send_command
  stop-Other e =
      let e' = begin_stop w e in
      let c = e.rest.stop.value in
      either-Other (text_eq e.rest.stop.kind (codes "signal")) (terminate w e') _
        (terminate-Other e')
        (either-Other (e'.rest.stdin && text_eq e.rest.stop.kind (codes "command"))
          (send_command w c e') (terminate w e')
          (either-Other (not e'.rest.stdin) (e', some not_attached)
            (need w write_failed (w.write (c ++ 10 ∷ [])) (note_stop w c e')) refl
            (need-Other write_failed (w.write (c ++ 10 ∷ [])) (note_stop w c e') refl))
          (terminate-Other e'))

  either-Answered :
      (cut b : Bool) (m n : Environment w × Option (Option Failure))
      → Answered cut m
      → Answered cut n
      → Answered cut (if b then m else n)
  either-Answered cut true m n p q = p
  either-Answered cut false m n p q = q

  poll-Answered :
      (cut : Bool) (es later : List Event) (e : Environment w)
      → Answered cut (poll w cut (es ++ times_out ∷ later) e)
  unfolding poll
  poll-Answered true [] later e = ((terminate w e).1, refl, terminate-Other e)
  poll-Answered false [] later e = (some deadline, refl, refl)
  poll-Answered true (times_out ∷ es) later e = ((terminate w e).1, refl, terminate-Other e)
  poll-Answered false (times_out ∷ es) later e = (some deadline, refl, refl)
  poll-Answered cut (ticks ∷ es) later e =
      either-Answered cut (is_running w e) (poll w cut (es ++ times_out ∷ later) e) (e, some none)
        (poll-Answered cut es later e) (none, refl, ground arith)
  poll-Answered cut (exits code ∷ es) later e = poll-Answered cut es later (exited w code e)

  await-Answered :
      (cut : Bool) (es later : List Event) (m : Environment w × Option Failure)
      → Other m
      → Answered cut (await w cut (es ++ times_out ∷ later) m)
  unfolding await
  await-Answered cut es later (e, none) h = poll-Answered cut es later e
  await-Answered cut es later (e, some x) h = (some x, refl, rw h (ground arith))

-- Waiting for a stop ends: whatever happens before its deadline passes, there is an answer, and where it
-- is to terminate what did not stop, the answer is never that the deadline has passed.
pub wait_for_stop_answers :
    {C : Type 0} (w : Windows C) (cut : Bool) (es later : List Event) (e : Environment w)
    → Answered w cut (wait_for_stop w cut (es ++ times_out ∷ later) e)
unfolding wait_for_stop
wait_for_stop_answers w cut es later e = await-Answered w cut es later (stop w e) (stop-Other w e)
