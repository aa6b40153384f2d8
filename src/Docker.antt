-- ===== src/Docker.antt =====
-- environment/docker: how a container is started, stopped and waited for (power.go, with Attach and
-- SendCommand of container.go).
pub mod Power
pub mod Crashes
mod Examples
use feathers.Prelude.{
  ℕ, ◌-◌, Bool, true, false, not, ◌&&◌, ◌||◌, Option, none, some, List, [], ◌∷◌, ◌++◌, leb,
  if◌then◌else◌,
}
use feathers.Prelude.Text.{Text, codes, text_eq}
use feathers.Server.Power.{ProcessState, offline, starting, running, stopping}
use feathers.Server.Crash.{is_offline}
use feathers.Environment.{Tracked, StopConfiguration, set_state, set_rest}

-- The call that failed.
pub data Call : Type 0 where
  inspecting truncating removing creating attaching starts stops kills writing waiting : Call

-- A failed call, with whether its error is that a deadline was exceeded.
pub data Failure : Type 0 where
  failed : Call → Bool → Failure
  not_attached cancelled : Failure

-- The answer of the client: no error, an error for a missing container, or another.
pub data Reply : Type 0 where
  done absent : Reply
  broken : Bool → Reply

pub data Inspection : Type 0 where
  missing : Inspection
  unknown : Bool → Inspection
  found : Bool → Inspection  -- whether it runs

-- What ends the select of `WaitForStop`: the context of the caller, the error channel, or the result.
pub data Waited : Type 0 where
  parent_done stopped : Waited
  wait_error : Reply → Waited

-- The Docker client and the connection, with their state `C`; `create` is `Create` of container.go.
pub record Client (C : Type 0) : Type 0 where
  pub inspect : C → C × Inspection
  pub truncate_log : C → C × Reply
  pub remove : C → C × Reply
  pub create : C → C × Reply
  pub open_stream : C → C × Reply
  pub start : C → C × Reply
  pub stop : C → C × Reply
  pub kill : Text → C → C × Reply
  pub wait : C → C × Waited
  pub write : Text → C → C × Reply

pub record Container (C : Type 0) : Type 0 where
  pub attached : Bool
  pub stop : StopConfiguration
  pub client : C

-- `strings.ToUpper` on ASCII.
unfoldable pub to_upper : Text → Text
to_upper [] = []
to_upper (c ∷ cs) = (if leb 97 c && leb c 122 then c - 32 else c) ∷ to_upper cs

-- The signal that a configured value stands for.
unfoldable pub signal_for : Text → Text
unfolding to_upper
signal_for value =
    let v = to_upper value in
    if text_eq v (codes "SIGABRT")
    then codes "SIGABRT"
    else if text_eq v (codes "SIGINT") || text_eq v (codes "C")
    then codes "SIGINT"
    else if text_eq v (codes "SIGTERM")
    then codes "SIGTERM"
    else codes "SIGKILL"

module _ {C : Type 0} (k : Client C) where
  abbrev pub Docker : Type 0
  Docker = Tracked (Container C)

  abbrev pub set_client : C → Docker → Docker
  set_client c e = set_rest (record e.rest { client = c }) e

  abbrev pub set_stream : Bool → Docker → Docker
  set_stream on e = set_rest (record e.rest { attached = on }) e

  -- A call of the client that has to succeed.
  unfoldable pub call : Call → (C → C × Reply) → Docker → Docker × Option Failure
  call which f e =
      let (c, r) = f e.rest.client in
      (
        set_client c e,
        elim r [
          | done ↦ none
          | absent ↦ some (failed which false)
          | broken late ↦ some (failed which late)
        ],
      )

  -- The same, where a missing container is fine.
  unfoldable pub call_lenient : Call → (C → C × Reply) → Docker → Docker × Option Failure
  call_lenient which f e =
      let (c, r) = f e.rest.client in
      (
        set_client c e,
        elim r [ done ↦ none | absent ↦ none | broken late ↦ some (failed which late) ],
      )

  -- The next step, unless there was an error.
  unfoldable pub and_next :
      Docker × Option Failure → (Docker → Docker × Option Failure) → Docker × Option Failure
  and_next (e, some x) f = (e, some x)
  and_next (e, none) f = f e

  -- `Attach`: the goroutine that it starts ends with `stream_ended`.
  unfoldable pub attach : Docker → Docker × Option Failure
  unfolding and_next call
  attach e =
      if e.rest.attached
      then (e, none)
      else and_next (call attaching k.open_stream e) (λ e'. (set_stream true e', none))

  unfoldable pub stream_ended : Docker → Docker
  stream_ended e = set_stream false (set_state offline e)

  -- A command that is the configured one for a stop changes the state first.
  unfoldable pub note_stop : Text → Docker → Docker
  note_stop c e =
      if text_eq e.rest.stop.kind (codes "command") && text_eq c e.rest.stop.value
      then set_state stopping e
      else e

  unfoldable pub send_command : Text → Docker → Docker × Option Failure
  unfolding call note_stop
  send_command c e =
      if not e.rest.attached
      then (e, some not_attached)
      else call writing (k.write (c ++ 10 ∷ [])) (note_stop c e)

  unfoldable pub on_before_start : Docker → Docker × Option Failure
  unfolding and_next call call_lenient
  on_before_start e = and_next (call_lenient removing k.remove e) (call creating k.create)

  -- What `defer` does when `sawError` is set.
  unfoldable pub roll_back : Docker × Option Failure → Docker × Option Failure
  roll_back (e, none) = (e, none)
  roll_back (e, some x) = (set_state offline (set_state stopping e), some x)

  unfoldable pub prepare : Docker → Docker × Option Failure
  unfolding and_next on_before_start attach
  prepare e = and_next (on_before_start (set_state starting e)) attach

  unfoldable pub launch : Docker → Docker × Option Failure
  unfolding and_next prepare call
  launch e = and_next (prepare e) (call starts k.start)

  -- From the starting state to the end of `Start`.
  unfoldable pub boot : Docker → Docker × Option Failure
  unfolding launch roll_back
  boot e = roll_back (launch e)

  unfoldable pub start_inspected : Inspection → Docker → Docker × Option Failure
  unfolding boot attach and_next
  start_inspected missing e = boot e
  start_inspected (unknown late) e = (e, some (failed inspecting late))
  start_inspected (found true) e = attach (set_state running e)
  start_inspected (found false) e = and_next (call truncating k.truncate_log e) boot

  unfoldable pub start : Docker → Docker × Option Failure
  unfolding start_inspected
  start e = let (c, i) = k.inspect e.rest.client in start_inspected i (set_client c e)

  -- Stopping first, then offline.
  unfoldable pub settle : Docker → Docker
  settle e = if is_offline e.st then e else set_state offline (set_state stopping e)

  unfoldable pub signal_inspected : Text → Inspection → Docker → Docker × Option Failure
  unfolding settle call_lenient
  signal_inspected signal missing e = (e, none)
  signal_inspected signal (unknown late) e = (e, some (failed inspecting late))
  signal_inspected signal (found false) e = (settle e, none)
  signal_inspected signal (found true) e = call_lenient kills (k.kill signal) (set_state stopping e)

  unfoldable pub signal_container : Text → Docker → Docker × Option Failure
  unfolding signal_inspected
  signal_container signal e =
      let (c, i) = k.inspect e.rest.client in signal_inspected signal i (set_client c e)

  unfoldable pub terminate : Text → Docker → Docker × Option Failure
  unfolding and_next signal_container
  terminate signal e = and_next (signal_container signal e) (λ e'. (set_state offline e', none))

  unfoldable pub native_stopped : Reply → Docker → Docker × Option Failure
  native_stopped done e = (e, none)
  native_stopped absent e = (set_state offline (set_stream false e), none)
  native_stopped (broken late) e = (e, some (failed stops late))

  unfoldable pub native_stop : Docker → Docker × Option Failure
  unfolding native_stopped
  native_stop e = let (c, r) = k.stop e.rest.client in native_stopped r (set_client c e)

  -- The state in which `Stop` begins its work.
  unfoldable pub begin_stop : Docker → Docker
  begin_stop e = if is_offline e.st then e else set_state stopping e

  unfoldable pub stop : Docker → Docker × Option Failure
  unfolding begin_stop signal_for signal_container send_command native_stop
  stop e =
      let e' = begin_stop e in
      let configured = e.rest.stop in
      if text_eq configured.kind (codes "signal")
      then signal_container (signal_for configured.value) e'
      else if e.rest.attached && text_eq configured.kind (codes "command")
      then send_command configured.value e'
      else native_stop e'

  -- The result of the wait; `cut` says whether to terminate what did not stop.
  unfoldable pub waited : Bool → Waited → Docker → Docker × Option Failure
  unfolding terminate
  waited cut stopped e = (e, none)
  waited cut parent_done e = if cut then terminate (codes "SIGKILL") e else (e, some cancelled)
  waited cut (wait_error done) e = (e, none)
  waited cut (wait_error absent) e = (e, none)
  waited cut (wait_error (broken late)) e =
      if cut then terminate (codes "SIGKILL") e else (e, some (failed waiting late))

  -- After the call of `Stop`.
  unfoldable pub await : Bool → Docker × Option Failure → Docker × Option Failure
  unfolding waited
  await cut (e, none) = let (c, w) = k.wait e.rest.client in waited cut w (set_client c e)
  await cut (e, some (failed which true)) =
      if cut then terminate (codes "SIGKILL") e else (e, some (failed which true))
  await cut (e, some x) = (e, some x)

  unfoldable pub wait_for_stop : Bool → Docker → Docker × Option Failure
  unfolding await stop
  wait_for_stop cut e = await cut (stop e)
