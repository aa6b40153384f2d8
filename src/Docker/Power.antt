-- ===== src/Docker/Power.antt =====
-- Which state changes the power actions of environment/docker/power.go publish, and which of them the
-- server takes for a crash.
use feathers.Prelude.{
  ◌≡◌, refl, inl, inr, Bool, true, false, ◌&&◌, not, Option, none, some, [], ◌∷◌, ◌++◌, arith,
  Bool-cases, if◌then◌else◌,
}
use feathers.Prelude.Text.{Text, codes, text_eq}
use feathers.Server.Power.{ProcessState, offline, starting, running, stopping}
use feathers.Server.Crash.{was_online, is_offline, same_state}
use feathers.Environment.{Tracked, set_state}
use feathers.Environment.Watch.{View, view, Calm, set_state-Calm, falls}
use feathers.Docker.{
  Call, Failure, failed, not_attached, cancelled, Reply, done, absent, broken, Inspection, missing,
  unknown, found, Waited, parent_done, stopped, wait_error, Client, Docker, call, call_lenient,
  and_next, attach, send_command, on_before_start, roll_back, prepare, launch, set_stream, boot,
  start_inspected, start, settle, signal_inspected, signal_container, terminate, native_stopped,
  native_stop, begin_stop, note_stop, stop, waited, await, signal_for,
}

module _ {C : Type 0} where
  set_state_state : (s : ProcessState) (e : Tracked C) → (set_state s e).st ≡ s
  unfolding set_state same_state
  set_state_state s e = ground arith

-- Only a change to offline falls.
safe_to : (s t : ProcessState) → is_offline t ≡ false → falls s t ≡ false
safe_to s t h = ground arith

module _ {C : Type 0} (k : Client C) (v : View) where
  abbrev pub Quiet : Docker k → Type 0
  Quiet e = Calm v (view e)

  -- Quiet so far, and not online any more.
  abbrev pub Down : Docker k → Type 0
  Down e = Quiet e × (was_online e.st ≡ false)

  up : (s : ProcessState) (e : Docker k) → is_offline s ≡ false → Quiet e → Quiet (set_state s e)
  up s e h calm = set_state-Calm s e (safe_to e.st s h) calm

  stopping-Down : (e : Docker k) → Quiet e → Down (set_state stopping e)
  stopping-Down e calm = (up stopping e refl calm, rw (set_state_state stopping e) refl)

  offline-Down : (e : Docker k) → Down e → Down (set_state offline e)
  offline-Down e down =
      (set_state-Calm offline e (rw (down.1)) down.0, rw (set_state_state offline e) refl)

  module _ (P : Docker k → Type 0) where
    and_next_keeps :
        (m : Docker k × Option Failure) (f : Docker k → Docker k × Option Failure)
        → P m.0
        → ((e : Docker k) → P e → P (f e).0)
        → P (and_next k m f).0
    unfolding and_next
    and_next_keeps (e, none) f p keeps = keeps e p
    and_next_keeps (e, some x) f p keeps = p

  call-Quiet : (c : Call) (f : C → C × Reply) (e : Docker k) → Quiet e → Quiet (call k c f e).0
  unfolding call
  call-Quiet c f e calm = calm

  attach-Quiet : (e : Docker k) → Quiet e → Quiet (attach k e).0
  unfolding attach
  attach-Quiet e calm = elim (Bool-cases e.rest.attached) [
    | inl on ↦ rw on calm
    | inr off ↦ rw off (
        and_next_keeps Quiet (call k Call.attaching k.open_stream e)
          (λ e'. (set_stream k true e', none)) (call-Quiet Call.attaching k.open_stream e calm)
          (λ e' c. c))
  ]

  roll_back-Quiet : (m : Docker k × Option Failure) → Quiet m.0 → Quiet (roll_back k m).0
  unfolding roll_back
  roll_back-Quiet (e, none) calm = calm
  roll_back-Quiet (e, some x) calm = (offline-Down (set_state stopping e) (stopping-Down e calm)).0

  on_before_start-Quiet : (e : Docker k) → Quiet e → Quiet (on_before_start k e).0
  unfolding on_before_start call_lenient
  on_before_start-Quiet e calm =
      and_next_keeps Quiet (call_lenient k Call.removing k.remove e) (call k Call.creating k.create)
        calm (call-Quiet Call.creating k.create)

  prepare-Quiet : (e : Docker k) → Quiet e → Quiet (prepare k e).0
  unfolding prepare
  prepare-Quiet e calm =
      and_next_keeps Quiet (on_before_start k (set_state starting e)) (attach k)
        (on_before_start-Quiet (set_state starting e) (up starting e refl calm)) attach-Quiet

  launch-Quiet : (e : Docker k) → Quiet e → Quiet (launch k e).0
  unfolding launch
  launch-Quiet e calm =
      and_next_keeps Quiet (prepare k e) (call k Call.starts k.start) (prepare-Quiet e calm)
        (call-Quiet Call.starts k.start)

  boot-Quiet : (e : Docker k) → Quiet e → Quiet (boot k e).0
  unfolding boot
  boot-Quiet e calm = roll_back-Quiet (launch k e) (launch-Quiet e calm)

  start_inspected-Quiet :
      (i : Inspection) (e : Docker k) → Quiet e → Quiet (start_inspected k i e).0
  unfolding start_inspected
  start_inspected-Quiet missing e calm = boot-Quiet e calm
  start_inspected-Quiet (unknown late) e calm = calm
  start_inspected-Quiet (found true) e calm =
      attach-Quiet (set_state running e) (up running e refl calm)
  start_inspected-Quiet (found false) e calm =
      and_next_keeps Quiet (call k Call.truncating k.truncate_log e) (boot k)
        (call-Quiet Call.truncating k.truncate_log e calm) boot-Quiet

  settle-Down : (e : Docker k) → Down e → Down (settle k e)
  unfolding settle
  settle-Down e down = elim (Bool-cases (is_offline e.st)) [
    | inl off ↦ rw off down
    | inr on ↦ rw on (offline-Down (set_state stopping e) (stopping-Down e down.0))
  ]

  settle-Quiet : (e : Docker k) → Quiet e → Quiet (settle k e)
  unfolding settle
  settle-Quiet e calm = elim (Bool-cases (is_offline e.st)) [
    | inl off ↦ rw off calm
    | inr on ↦ rw on ((offline-Down (set_state stopping e) (stopping-Down e calm)).0)
  ]

  settle_all-Down : (e : Docker k) → Quiet e → Down (settle k e)
  unfolding settle
  settle_all-Down e calm = elim (Bool-cases (is_offline e.st)) [
    | inl off ↦ rw off (calm, ground arith)
    | inr on ↦ rw on (offline-Down (set_state stopping e) (stopping-Down e calm))
  ]

  -- A container that was found is not online any more.
  pub signal_found-Down :
      (signal : Text) (running : Bool) (e : Docker k)
      → Quiet e
      → Down (signal_inspected k signal (found running) e).0
  unfolding signal_inspected call_lenient
  signal_found-Down signal false e calm = settle_all-Down e calm
  signal_found-Down signal true e calm = stopping-Down e calm

  pub end_offline-Quiet :
      (m : Docker k × Option Failure)
      → Down m.0
      → Quiet (and_next k m (λ e'. (set_state offline e', none))).0
  end_offline-Quiet m down =
      (and_next_keeps Down m (λ e'. (set_state offline e', none)) down offline-Down).0

  signal_inspected-Down :
      (signal : Text) (i : Inspection) (e : Docker k)
      → Down e
      → Down (signal_inspected k signal i e).0
  unfolding signal_inspected call_lenient
  signal_inspected-Down signal missing e down = down
  signal_inspected-Down signal (unknown late) e down = down
  signal_inspected-Down signal (found false) e down = settle-Down e down
  signal_inspected-Down signal (found true) e down = stopping-Down e down.0

  signal_container-Down :
      (signal : Text) (e : Docker k) → Down e → Down (signal_container k signal e).0
  unfolding signal_container
  signal_container-Down signal e down =
      signal_inspected-Down signal (k.inspect e.rest.client).1 _ down

  terminate-Down : (signal : Text) (e : Docker k) → Down e → Down (terminate k signal e).0
  unfolding terminate
  terminate-Down signal e down =
      and_next_keeps Down (signal_container k signal e) (λ e'. (set_state offline e', none))
        (signal_container-Down signal e down) offline-Down

  begin_stop-Down : (e : Docker k) → Quiet e → Down (begin_stop k e)
  unfolding begin_stop
  begin_stop-Down e calm = elim (Bool-cases (is_offline e.st)) [
    | inl off ↦ rw off (calm, ground arith)
    | inr on ↦ rw on (stopping-Down e calm)
  ]

  note_stop-Down : (c : Text) (e : Docker k) → Down e → Down (note_stop k c e)
  unfolding note_stop
  note_stop-Down c e down =
      elim (Bool-cases
        (text_eq e.rest.stop.kind (codes "command") && text_eq c e.rest.stop.value)) [
          | inl ends ↦ rw ends (stopping-Down e down.0)
          | inr plain ↦ rw plain down
        ]

  either_keeps :
      (P : Docker k → Type 0) (b : Bool) (m n : Docker k × Option Failure)
      → P m.0
      → P n.0
      → P (if b then m else n).0
  either_keeps P true m n p q = p
  either_keeps P false m n p q = q

  send_command-Down : (c : Text) (e : Docker k) → Down e → Down (send_command k c e).0
  unfolding send_command call
  send_command-Down c e down =
      either_keeps Down (not e.rest.attached) (e, some not_attached)
        (call k Call.writing (k.write (c ++ 10 ∷ [])) (note_stop k c e)) down
        (note_stop-Down c e down)

  native_stopped-Down : (r : Reply) (e : Docker k) → Down e → Down (native_stopped k r e).0
  unfolding native_stopped
  native_stopped-Down done e down = down
  native_stopped-Down absent e down = offline-Down (set_stream k false e) down
  native_stopped-Down (broken late) e down = down

  native_stop-Down : (e : Docker k) → Down e → Down (native_stop k e).0
  unfolding native_stop
  native_stop-Down e down = native_stopped-Down (k.stop e.rest.client).1 _ down

  pub stop-Down : (e : Docker k) → Quiet e → Down (stop k e).0
  unfolding stop
  stop-Down e calm =
      let down = begin_stop-Down e calm in
      let e' = begin_stop k e in
      let configured = e.rest.stop in
      either_keeps Down (text_eq configured.kind (codes "signal"))
        (signal_container k (signal_for configured.value) e') _
        (signal_container-Down (signal_for configured.value) e' down)
        (either_keeps Down (e.rest.attached && text_eq configured.kind (codes "command"))
          (send_command k configured.value e') (native_stop k e')
          (send_command-Down configured.value e' down) (native_stop-Down e' down))

  waited-Down : (cut : Bool) (w : Waited) (e : Docker k) → Down e → Down (waited k cut w e).0
  unfolding waited
  waited-Down cut stopped e down = down
  waited-Down true parent_done e down = terminate-Down (codes "SIGKILL") e down
  waited-Down false parent_done e down = down
  waited-Down cut (wait_error done) e down = down
  waited-Down cut (wait_error absent) e down = down
  waited-Down true (wait_error (broken late)) e down = terminate-Down (codes "SIGKILL") e down
  waited-Down false (wait_error (broken late)) e down = down

  pub await-Down : (cut : Bool) (m : Docker k × Option Failure) → Down m.0 → Down (await k cut m).0
  unfolding await
  await-Down cut (e, none) down = waited-Down cut (k.wait e.rest.client).1 _ down
  await-Down true (e, some (failed which true)) down = terminate-Down (codes "SIGKILL") e down
  await-Down false (e, some (failed which true)) down = down
  await-Down cut (e, some (failed which false)) down = down
  await-Down cut (e, some not_attached) down = down
  await-Down cut (e, some cancelled) down = down

  pub start-Quiet : (e : Docker k) → Quiet e → Quiet (start k e).0
  unfolding start
  start-Quiet e calm = start_inspected-Quiet (k.inspect e.rest.client).1 _ calm
