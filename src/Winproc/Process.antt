-- ===== src/Winproc/Process.antt =====
-- environment/winproc/power.go, with OnBeforeStart, Create, Destroy and SetState of environment.go and
-- SendCommand of console.go: the life of a process in its job object.
pub mod Lifecycle
pub mod Ends
mod Examples
use feathers.Prelude.{
  ℕ, ◌-◌, ◌/◌, Bool, true, false, not, ◌&&◌, ◌||◌, Option, none, some, List, [], ◌∷◌, ◌++◌, leb,
  map, if◌then◌else◌, inl, inr, ◌⊎◌, ◌==◌,
}
use feathers.Prelude.Text.{Text, codes, text_eq}
use feathers.Server.Power.{ProcessState, offline, starting, running, stopping}
use feathers.Server.Crash.{is_offline}
use feathers.Environment.{Tracked, StopConfiguration, set_state, set_rest}
use feathers.Winproc.{build_command}
use feathers.Winproc.ChildEnv.{merge_child_env}
use feathers.Winproc

pub data Failure : Type 0 where
  pre_boot no_command no_logon no_tmp no_stdin no_output no_start : Failure
  not_attached write_failed job_failed deadline : Failure

-- Windows and the configuration, with their state `C`. A Boolean result is true for no error.
pub record Windows (C : Type 0) : Type 0 where
  pub replace_all : Text → (Text → Text) → Text
  pub submatch : Text → Option Text
  pub variables : List Text
  pub environ : C → List Text
  pub tmp_dir : Text
  pub provision : C → C × Bool  -- the data directory, the account and its rights
  pub create_job : C → C × Bool
  pub close_job : C → C
  pub terminate_job : C → C × Bool
  pub logon : C → C × Bool
  pub make_tmp : C → C × Bool
  pub is_abs : Text → Bool
  pub in_directory : Text → Text
  pub file_exists : Text → C → Bool
  pub stdin_pipe : C → C × Bool
  pub output_pipe : C → C × Bool
  pub launch : Text → List Text → List Text → C → C × Bool
  pub open_process : C → C × Bool
  pub assign : C → C
  pub clock : C → ℕ
  pub exit_code : C → Option Bool  -- whether the process runs, or none for an error
  pub write : Text → C → C × Bool
  pub delete_account : C → C

-- The fields of `Environment`: whether the pointers and handles are set, and the rest.
pub record Process (C : Type 0) : Type 0 where
  pub stop : StopConfiguration
  pub job : Bool
  pub cmd : Bool
  pub handle : Bool
  pub stdin : Bool
  pub polling : Bool
  pub started_at : Option ℕ
  pub last_exit : ℕ
  pub console : List Text
  pub os : C

-- What happens while `WaitForStop` waits: its ticker, its deadline, or the end of the process.
pub data Event : Type 0 where
  ticks times_out : Event
  exits : ℕ → Event

module _ {C : Type 0} (w : Windows C) where
  abbrev pub Environment : Type 0
  Environment = Tracked (Process C)

  abbrev pub set_process : Process C → Environment → Environment
  set_process p e = set_rest p e

  abbrev pub set_os : C → Environment → Environment
  set_os c e = set_process (record e.rest { os = c }) e

  -- A call that has to succeed, and the next step unless there was an error.
  unfoldable pub need : Failure → (C → C × Bool) → Environment → Environment × Option Failure
  need x f e = let (c, fine) = f e.rest.os in (set_os c e, if fine then none else some x)

  unfoldable pub and_next :
      Environment × Option Failure
      → (Environment → Environment × Option Failure)
      → Environment × Option Failure
  and_next (e, some x) f = (e, some x)
  and_next (e, none) f = f e

  unfoldable pub close_job : Environment → Environment
  close_job e =
      let e' = set_process (record e.rest { job = false }) e in
      if e.rest.job then set_os (w.close_job e.rest.os) e' else e'

  unfoldable pub create_job : Environment → Environment × Option Failure
  unfolding need and_next
  create_job e =
      if e.rest.job
      then (e, none)
      else and_next (need pre_boot w.create_job e)
          (λ e'. (set_process (record e'.rest { job = true }) e', none))

  unfoldable pub create : Environment → Environment × Option Failure
  unfolding need and_next create_job
  create e = and_next (need pre_boot w.provision e) create_job

  unfoldable pub on_before_start : Environment → Environment × Option Failure
  unfolding close_job create
  on_before_start e = create (close_job e)

  unfoldable pub is_running : Environment → Bool
  is_running e =
      if not e.rest.cmd || not e.rest.handle
      then false
      else elim (w.exit_code e.rest.os) [ none ↦ false | some r ↦ r ]

  -- The executable of a command: in the directory of the server, if it is there.
  unfoldable pub resolve : Text → C → Text
  resolve exe c =
      if w.is_abs exe
      then exe
      else if w.file_exists (w.in_directory exe) c
      then w.in_directory exe
      else exe

  -- Once the process has been started: its handle, the job, and the fields.
  unfoldable pub adopt : Environment → Environment × Option Failure
  adopt e =
      let (c, opened) = w.open_process e.rest.os in
      let c' = if e.rest.job && opened then w.assign c else c in
      (
        set_process
            (record e.rest {
              cmd = true;
              stdin = true;
              handle = opened;
              started_at = some (w.clock c');
              polling = true;
              os = c';
            })
            e,
        none,
      )

  unfoldable pub spawn : Text → List Text → Environment → Environment × Option Failure
  unfolding need and_next adopt resolve merge_child_env
  spawn exe args e =
      let env = merge_child_env (w.environ e.rest.os) w.variables w.tmp_dir in
      and_next
        (and_next (and_next (need no_stdin w.stdin_pipe e) (need no_output w.output_pipe))
          (need no_start (w.launch (resolve exe e.rest.os) args env)))
        adopt

  -- With the arguments of the command: the console is cleared, the account logs on.
  unfoldable pub with_command : List Text → Environment → Environment × Option Failure
  unfolding need and_next spawn
  with_command [] e = (e, some no_command)
  with_command (exe ∷ args) e =
      let e' = set_process (record e.rest { console = [] }) e in
      and_next (and_next (need no_logon w.logon e') (need no_tmp w.make_tmp)) (spawn exe args)

  unfoldable pub with_result :
      feathers.Winproc.Failure ⊎ List Text → Environment → Environment × Option Failure
  unfolding with_command
  with_result (inl x) e = (e, some no_command)
  with_result (inr argv) e = with_command argv e

  unfoldable pub run_command : Environment → Environment × Option Failure
  unfolding with_result
  run_command e = with_result (build_command w.replace_all w.submatch w.variables) e

  -- What `defer` does when `sawError` is set.
  unfoldable pub roll_back : Environment × Option Failure → Environment × Option Failure
  roll_back (e, none) = (e, none)
  roll_back (e, some x) = (set_state offline (set_state stopping e), some x)

  unfoldable pub boot : Environment → Environment × Option Failure
  unfolding roll_back and_next on_before_start run_command
  boot e = roll_back (and_next (on_before_start (set_state starting e)) run_command)

  unfoldable pub start : Environment → Environment × Option Failure
  unfolding is_running boot
  start e = let booted = boot e in if is_running e then (set_state running e, none) else booted

  -- The end of `wait`, once the process has ended with an exit code.
  unfoldable pub exited : ℕ → Environment → Environment
  exited code e = set_state offline (
      set_process
        (record e.rest {
          cmd = false;
          stdin = false;
          handle = false;
          polling = false;
          last_exit = code;
        })
        e)

  -- Stopping first, then offline.
  unfoldable pub settle : Environment → Environment
  settle e = if is_offline e.st then e else set_state offline (set_state stopping e)

  unfoldable pub kill : Environment → Environment × Option Failure
  unfolding need
  kill e = if e.rest.job then need job_failed w.terminate_job e else (e, none)

  unfoldable pub terminate : Environment → Environment × Option Failure
  unfolding settle kill
  terminate e = if not e.rest.cmd then (settle e, none) else kill (set_state stopping e)

  -- A command that is the configured one for a stop changes the state first.
  unfoldable pub note_stop : Text → Environment → Environment
  note_stop c e =
      if text_eq e.rest.stop.kind (codes "command") && text_eq c e.rest.stop.value
      then set_state stopping e
      else e

  unfoldable pub send_command : Text → Environment → Environment × Option Failure
  unfolding need note_stop
  send_command c e =
      if not e.rest.stdin
      then (e, some not_attached)
      else need write_failed (w.write (c ++ 10 ∷ [])) (note_stop c e)

  -- The state in which `Stop` begins its work.
  unfoldable pub begin_stop : Environment → Environment
  begin_stop e = if is_offline e.st then e else set_state stopping e

  unfoldable pub stop : Environment → Environment × Option Failure
  unfolding begin_stop send_command terminate
  stop e =
      let e' = begin_stop e in
      let configured = e.rest.stop in
      if text_eq configured.kind (codes "signal")
      then terminate e'
      else if e'.rest.stdin && text_eq configured.kind (codes "command")
      then send_command configured.value e'
      else terminate e'

  unfoldable pub destroy : Environment → Environment
  unfolding close_job
  destroy e =
      let e' = close_job (set_state stopping e) in
      set_state offline (set_os (w.delete_account e'.rest.os) e')

  -- The select of `WaitForStop`, round by round; none means that it still waits.
  unfoldable pub poll : Bool → List Event → Environment → Environment × Option (Option Failure)
  unfolding terminate is_running exited
  poll cut [] e = (e, none)
  poll cut (times_out ∷ es) e =
      if cut then (let (e', r) = terminate e in (e', some r)) else (e, some (some deadline))
  poll cut (ticks ∷ es) e =
      let rest = poll cut es e in if is_running e then rest else (e, some none)
  poll cut (exits code ∷ es) e = poll cut es (exited code e)

  -- After `Stop`: an error ends the wait, since none of the errors of this backend is that of a deadline.
  unfoldable pub await :
      Bool → List Event → Environment × Option Failure → Environment × Option (Option Failure)
  unfolding poll
  await cut es (e, some x) = (e, some (some x))
  await cut es (e, none) = poll cut es e

  unfoldable pub wait_for_stop :
      Bool → List Event → Environment → Environment × Option (Option Failure)
  unfolding await stop
  wait_for_stop cut es e = await cut es (stop e)

  -- In milliseconds.
  unfoldable pub uptime : Environment → ℕ
  uptime e =
      if not e.rest.cmd
      then 0
      else elim e.rest.started_at [ none ↦ 0 | some t ↦ (w.clock e.rest.os - t) / 1000000 ]
