-- ===== src/Docker/Crashes.antt =====
-- The power actions of environment/docker/power.go and the crash detection of the server.
use feathers.Prelude.{
  ℕ, ◌∙◌, ◌≡◌, refl, sym, subst, Bool, true, false, ◌&&◌, none, [], ◌∷◌, ◌++◌, arith, if◌then◌else◌,
}
use mathlib.Core.List.{append-nil}
use feathers.Prelude.Text.{Text}
use feathers.Server.Power.{ProcessState, offline}
use feathers.Server.Crash.{ResourceUsage, was_online, is_offline, same_state}
use feathers.Environment.{Tracked, set_state}
use feathers.Environment.Watch.{
  watch, crashes, crashes-watch, View, view, Calm, here, CalmSince, HandledSince, Calm-CalmSince,
  Calm-HandledSince,
}
use feathers.Docker.{
  Inspection, missing, unknown, found, Client, Docker, and_next, set_client, start,
  signal_inspected, signal_container, terminate, stop, wait_for_stop,
}
use feathers.Docker.Power.{start-Quiet, stop-Down, await-Down, signal_found-Down, end_offline-Quiet}

-- Starting a container, stopping it and waiting for its end, whatever the client answers at each call,
-- errors included: the states that are published end in the new state, and none of them is offline right
-- after an online one. Where the server has tracked the state before, and its listener handles them in order,
-- each with the state that it tells of, the listener starts no crash handler. After a stop and a wait the
-- state is not online.
pub power_no_crash :
    {C : Type 0} (k : Client C) (cut : Bool) (e : Docker k) (disk : ℕ) (r : ResourceUsage)
    → r.state ≡ e.st
    → CalmSince disk r (view e) (view (start k e).0)
      × CalmSince disk r (view e) (view (stop k e).0)
      × (was_online (stop k e).0.st ≡ false)
      × CalmSince disk r (view e) (view (wait_for_stop k cut e).0)
      × (was_online (wait_for_stop k cut e).0.st ≡ false)
unfolding wait_for_stop
power_no_crash k cut e disk r tracked =
    let (calm, down) = stop-Down k (view e) e here in
    let (calm', down') = await-Down k (view e) cut (stop k e) (calm, down) in
    (
      Calm-CalmSince disk r tracked (start-Quiet k (view e) e here),
      Calm-CalmSince disk r tracked calm,
      down,
      Calm-CalmSince disk r tracked calm',
      down',
    )

abbrev pub is_missing : Inspection → Bool
is_missing missing = true
is_missing _ = false

offline_published :
    {C : Type 0} (e : Tracked C)
    → (set_state offline e).published
      ≡ e.published ++ (if is_offline e.st then [] else offline ∷ [])
unfolding set_state same_state
offline_published e = ground (arith, append-nil e.published)

-- One change to offline, or none, is taken for a crash exactly from an online state.
one_fall :
    (s : ProcessState) (disk : ℕ) (r : ResourceUsage)
    → r.state ≡ s
    → crashes (watch disk (if is_offline s then [] else offline ∷ []) r).1
      ≡ (if was_online s then 1 else 0)
one_fall s disk r tracked =
    crashes-watch disk (if is_offline s then [] else offline ∷ []) r ∙ rw tracked (ground arith)

missing_crashes :
    {C : Type 0} (k : Client C) (v : View) (e : Docker k) (disk : ℕ) (r : ResourceUsage)
    → r.state ≡ v.0
    → view e ≡ v
    → HandledSince disk r v (view (set_state offline e)) (if was_online v.0 then 1 else 0)
missing_crashes k v e disk r tracked same =
    subst
      (λ u.
        r.state ≡ u.0
        → HandledSince disk r u (view (set_state offline e)) (if was_online u.0 then 1 else 0))
      same
      (λ t.
        (if is_offline e.st then [] else offline ∷ [], offline_published e, one_fall e.st disk r t))
      tracked

inspected_crashes :
    {C : Type 0} (k : Client C) (signal : Text) (v : View) (i : Inspection) (e : Docker k)
    (disk : ℕ) (r : ResourceUsage)
    → r.state ≡ v.0
    → view e ≡ v
    → HandledSince disk r v
        (view (and_next k (signal_inspected k signal i e) (λ e'. (set_state offline e', none))).0)
        (if is_missing i && was_online v.0 then 1 else 0)
unfolding and_next signal_inspected
inspected_crashes k signal v missing e disk r tracked same =
    missing_crashes k v e disk r tracked same
inspected_crashes k signal v (unknown late) e disk r tracked same =
    Calm-HandledSince disk r tracked (subst (λ u. Calm v u) (sym same) here)
inspected_crashes k signal v (found up) e disk r tracked same = Calm-HandledSince disk r tracked (
    end_offline-Quiet k v (signal_inspected k signal (found up) e)
      (signal_found-Down k v signal up e (subst (λ u. Calm v u) (sym same) here)))

-- `Terminate`, whatever the client answers, where the server has tracked the state before and its
-- listener handles what is published in order, each change with the state that it tells of: the crash handler
-- is started once if the container is missing while the state is online, and not in any other case.
pub terminate_crashes :
    {C : Type 0} (k : Client C) (signal : Text) (e : Docker k) (disk : ℕ) (r : ResourceUsage)
    → r.state ≡ e.st
    → HandledSince disk r
        (view e)
        (view (terminate k signal e).0)
        (if is_missing (k.inspect e.rest.client).1 && was_online e.st then 1 else 0)
unfolding terminate signal_container
terminate_crashes k signal e disk r tracked =
    inspected_crashes k signal (view e) (k.inspect e.rest.client).1
      (set_client k (k.inspect e.rest.client).0 e) disk r tracked refl
