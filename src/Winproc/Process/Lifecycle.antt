-- ===== src/Winproc/Process/Lifecycle.antt =====
-- Which state changes the power actions of environment/winproc/power.go publish.
use feathers.Prelude.{
  ℕ, ◌≡◌, refl, inl, inr, ◌⊎◌, Bool, true, false, ◌&&◌, not, Option, none, some, List, [], ◌∷◌,
  ◌++◌, arith, Bool-cases, if◌then◌else◌,
}
use feathers.Prelude.Text.{Text, codes, text_eq}
use feathers.Server.Power.{ProcessState, offline, starting, running, stopping}
use feathers.Server.Crash.{was_online, is_offline, same_state}
use feathers.Environment.{Tracked, set_state}
use feathers.Environment.Watch.{View, view, Calm, set_state-Calm, falls}
use feathers.Winproc.{build_command}
use feathers.Winproc
use feathers.Winproc.Process.{
  Failure, no_stdin, no_output, no_start, no_logon, no_tmp, pre_boot, job_failed, write_failed,
  not_attached, Windows, Event, ticks, times_out, exits, Environment, set_process, set_os, need,
  and_next, close_job, create_job, create, on_before_start, is_running, resolve, adopt, spawn,
  with_command, with_result, run_command, roll_back, boot, start, exited, settle, kill, terminate,
  note_stop, send_command, begin_stop, stop, destroy, poll, await, wait_for_stop, merge_child_env,
}

module _ {C : Type 0} where
  set_state_state : (s : ProcessState) (e : Tracked C) → (set_state s e).st ≡ s
  unfolding set_state same_state
  set_state_state s e = ground arith

safe_to : (s t : ProcessState) → is_offline t ≡ false → falls s t ≡ false
safe_to s t h = ground arith

module _ {C : Type 0} (w : Windows C) (v : View) where
  abbrev pub Quiet : Environment w → Type 0
  Quiet e = Calm v (view e)

  -- Quiet so far, and not online any more.
  abbrev pub Down : Environment w → Type 0
  Down e = Quiet e × (was_online e.st ≡ false)

  up :
      (s : ProcessState) (e : Environment w)
      → is_offline s ≡ false
      → Quiet e
      → Quiet (set_state s e)
  up s e h calm = set_state-Calm s e (safe_to e.st s h) calm

  stopping-Down : (e : Environment w) → Quiet e → Down (set_state stopping e)
  stopping-Down e calm = (up stopping e refl calm, rw (set_state_state stopping e) refl)

  offline-Down : (e : Environment w) → Down e → Down (set_state offline e)
  offline-Down e down =
      (set_state-Calm offline e (rw (down.1)) down.0, rw (set_state_state offline e) refl)

  module _ (P : Environment w → Type 0) where
    and_next_keeps :
        (m : Environment w × Option Failure) (f : Environment w → Environment w × Option Failure)
        → P m.0
        → ((e : Environment w) → P e → P (f e).0)
        → P (and_next w m f).0
    unfolding and_next
    and_next_keeps (e, none) f p keeps = keeps e p
    and_next_keeps (e, some x) f p keeps = p

    either_keeps :
        (b : Bool) (m n : Environment w × Option Failure) → P m.0 → P n.0 → P (if b then m else n).0
    either_keeps true m n p q = p
    either_keeps false m n p q = q

    one_keeps : (b : Bool) (m n : Environment w) → P m → P n → P (if b then m else n)
    one_keeps true m n p q = p
    one_keeps false m n p q = q

  need-Quiet :
      (x : Failure) (f : C → C × Bool) (e : Environment w) → Quiet e → Quiet (need w x f e).0
  unfolding need
  need-Quiet x f e calm = calm

  close_job-Quiet : (e : Environment w) → Quiet e → Quiet (close_job w e)
  unfolding close_job
  close_job-Quiet e calm =
      let e' = set_process w (record e.rest { job = false }) e in
      one_keeps Quiet e.rest.job (set_os w (w.close_job e.rest.os) e') e' calm calm

  create_job-Quiet : (e : Environment w) → Quiet e → Quiet (create_job w e).0
  unfolding create_job
  create_job-Quiet e calm =
      either_keeps Quiet e.rest.job (e, none)
        (and_next w (need w pre_boot w.create_job e)
          (λ e'. (set_process w (record e'.rest { job = true }) e', none)))
        calm
        (and_next_keeps Quiet (need w pre_boot w.create_job e)
          (λ e'. (set_process w (record e'.rest { job = true }) e', none))
          (need-Quiet pre_boot w.create_job e calm) (λ e' c. c))

  on_before_start-Quiet : (e : Environment w) → Quiet e → Quiet (on_before_start w e).0
  unfolding on_before_start create
  on_before_start-Quiet e calm =
      and_next_keeps Quiet (need w pre_boot w.provision (close_job w e)) (create_job w)
        (need-Quiet pre_boot w.provision (close_job w e) (close_job-Quiet e calm)) create_job-Quiet

  adopt-Quiet : (e : Environment w) → Quiet e → Quiet (adopt w e).0
  unfolding adopt
  adopt-Quiet e calm = calm

  spawn-Quiet :
      (exe : Text) (args : List Text) (e : Environment w) → Quiet e → Quiet (spawn w exe args e).0
  unfolding spawn
  spawn-Quiet exe args e calm =
      let env = merge_child_env (w.environ e.rest.os) w.variables w.tmp_dir in
      let launched = w.launch (resolve w exe e.rest.os) args env in
      let ready = and_next w (need w no_stdin w.stdin_pipe e) (need w no_output w.output_pipe) in
      and_next_keeps Quiet (and_next w ready (need w no_start launched)) (adopt w)
        (and_next_keeps Quiet ready (need w no_start launched)
          (and_next_keeps Quiet (need w no_stdin w.stdin_pipe e) (need w no_output w.output_pipe)
            (need-Quiet no_stdin w.stdin_pipe e calm) (need-Quiet no_output w.output_pipe))
          (need-Quiet no_start launched))
        adopt-Quiet

  with_command-Quiet :
      (argv : List Text) (e : Environment w) → Quiet e → Quiet (with_command w argv e).0
  unfolding with_command
  with_command-Quiet [] e calm = calm
  with_command-Quiet (exe ∷ args) e calm =
      let e' = set_process w (record e.rest { console = [] }) e in
      and_next_keeps Quiet (and_next w (need w no_logon w.logon e') (need w no_tmp w.make_tmp))
        (spawn w exe args)
        (and_next_keeps Quiet (need w no_logon w.logon e') (need w no_tmp w.make_tmp)
          (need-Quiet no_logon w.logon e' calm) (need-Quiet no_tmp w.make_tmp))
        (spawn-Quiet exe args)

  with_result-Quiet :
      (r : feathers.Winproc.Failure ⊎ List Text) (e : Environment w)
      → Quiet e
      → Quiet (with_result w r e).0
  unfolding with_result
  with_result-Quiet (inl x) e calm = calm
  with_result-Quiet (inr argv) e calm = with_command-Quiet argv e calm

  run_command-Quiet : (e : Environment w) → Quiet e → Quiet (run_command w e).0
  unfolding run_command
  run_command-Quiet e calm =
      with_result-Quiet (build_command w.replace_all w.submatch w.variables) e calm

  roll_back-Quiet : (m : Environment w × Option Failure) → Quiet m.0 → Quiet (roll_back w m).0
  unfolding roll_back
  roll_back-Quiet (e, none) calm = calm
  roll_back-Quiet (e, some x) calm = (offline-Down (set_state stopping e) (stopping-Down e calm)).0

  boot-Quiet : (e : Environment w) → Quiet e → Quiet (boot w e).0
  unfolding boot
  boot-Quiet e calm =
      let ready = on_before_start w (set_state starting e) in
      roll_back-Quiet (and_next w ready (run_command w)) (
        and_next_keeps Quiet ready (run_command w)
          (on_before_start-Quiet (set_state starting e) (up starting e refl calm))
          run_command-Quiet)

  pub start-Quiet : (e : Environment w) → Quiet e → Quiet (start w e).0
  unfolding start
  start-Quiet e calm =
      either_keeps Quiet (is_running w e) (set_state running e, none) (boot w e)
        (up running e refl calm) (boot-Quiet e calm)

  exited-Down : (code : ℕ) (e : Environment w) → Down e → Down (exited w code e)
  unfolding exited
  exited-Down code e down = offline-Down _ down

  settle-Down : (e : Environment w) → Quiet e → Down (settle w e)
  unfolding settle
  settle-Down e calm = elim (Bool-cases (is_offline e.st)) [
    | inl off ↦ rw off (calm, ground arith)
    | inr on ↦ rw on (offline-Down (set_state stopping e) (stopping-Down e calm))
  ]

  kill-Down : (e : Environment w) → Down e → Down (kill w e).0
  unfolding kill need
  kill-Down e down =
      either_keeps Down e.rest.job (need w job_failed w.terminate_job e) (e, none) down down

  pub terminate-Down : (e : Environment w) → Quiet e → Down (terminate w e).0
  unfolding terminate
  terminate-Down e calm =
      either_keeps Down (not e.rest.cmd) (settle w e, none) (kill w (set_state stopping e))
        (settle-Down e calm) (kill-Down (set_state stopping e) (stopping-Down e calm))

  note_stop-Down : (c : Text) (e : Environment w) → Down e → Down (note_stop w c e)
  unfolding note_stop
  note_stop-Down c e down =
      one_keeps Down (text_eq e.rest.stop.kind (codes "command") && text_eq c e.rest.stop.value)
        (set_state stopping e) e (stopping-Down e down.0) down

  send_command-Down : (c : Text) (e : Environment w) → Down e → Down (send_command w c e).0
  unfolding send_command need
  send_command-Down c e down =
      either_keeps Down (not e.rest.stdin) (e, some not_attached)
        (need w write_failed (w.write (c ++ 10 ∷ [])) (note_stop w c e)) down
        (note_stop-Down c e down)

  begin_stop-Down : (e : Environment w) → Quiet e → Down (begin_stop w e)
  unfolding begin_stop
  begin_stop-Down e calm = elim (Bool-cases (is_offline e.st)) [
    | inl off ↦ rw off (calm, ground arith)
    | inr on ↦ rw on (stopping-Down e calm)
  ]

  pub stop-Down : (e : Environment w) → Quiet e → Down (stop w e).0
  unfolding stop
  stop-Down e calm =
      let down = begin_stop-Down e calm in
      let e' = begin_stop w e in
      let configured = e.rest.stop in
      let ended = terminate-Down e' down.0 in
      either_keeps Down (text_eq configured.kind (codes "signal")) (terminate w e') _ ended (
        either_keeps Down (e'.rest.stdin && text_eq configured.kind (codes "command"))
          (send_command w configured.value e') (terminate w e')
          (send_command-Down configured.value e' down) ended)

  pub destroy-Down : (e : Environment w) → Quiet e → Down (destroy w e)
  unfolding destroy close_job
  destroy-Down e calm =
      let s = set_state stopping e in
      let closed = set_process w (record s.rest { job = false }) s in
      let down = stopping-Down e calm in
      offline-Down (set_os w (w.delete_account (close_job w s).rest.os) (close_job w s))
        (one_keeps Down s.rest.job (set_os w (w.close_job s.rest.os) closed) closed down down)

  poll-Down : (cut : Bool) (es : List Event) (e : Environment w) → Down e → Down (poll w cut es e).0
  unfolding poll
  poll-Down cut [] e down = down
  poll-Down true (times_out ∷ es) e down = terminate-Down e down.0
  poll-Down false (times_out ∷ es) e down = down
  poll-Down cut (ticks ∷ es) e down = elim (Bool-cases (is_running w e)) [
    | inl runs ↦ rw runs (poll-Down cut es e down)
    | inr ended ↦ rw ended down
  ]
  poll-Down cut (exits code ∷ es) e down =
      poll-Down cut es (exited w code e) (exited-Down code e down)

  await-Down :
      (cut : Bool) (es : List Event) (m : Environment w × Option Failure)
      → Down m.0
      → Down (await w cut es m).0
  unfolding await
  await-Down cut es (e, none) down = poll-Down cut es e down
  await-Down cut es (e, some x) down = down

  pub wait_for_stop-Down :
      (cut : Bool) (es : List Event) (e : Environment w)
      → Quiet e
      → Down (wait_for_stop w cut es e).0
  unfolding wait_for_stop
  wait_for_stop-Down cut es e calm = await-Down cut es (stop w e) (stop-Down e calm)
