-- ===== src/Server/Listeners/Limiter.antt =====
-- The disk space limiter of server/listeners.go over the events of an environment.
use feathers.Prelude.{
  ℕ, ◌+◌, ◌≡◌, refl, ap, ap₂, ◌∙◌, inl, inr, Bool, true, false, not, ◌&&◌, ◌||◌, List, [], ◌∷◌,
  ◌++◌, arith, Bool-cases, if◌then◌else◌,
}
use feathers.Server.Crash.{Notice, on_state_change}
use feathers.Server.Listeners.{
  Event, resource, state_change, pull_status, pull_started, pull_completed, other, Effect, stats,
  wait_for_stop, notice, install_output, daemon_line, Listener, notices, trigger, reset_limits,
  handle, handle_all, is_starting,
}

-- How often a stop for want of space is begun.
unfoldable pub stops : List Effect → ℕ
stops [] = 0
stops (wait_for_stop ∷ es) = 1 + stops es
stops (stats ∷ es) = stops es
stops (notice n ∷ es) = stops es
stops (install_output t ∷ es) = stops es
stops (daemon_line t ∷ es) = stops es

-- Events of a server that is over its space, and of one that starts.
abbrev pub exceeds : Event → Bool
exceeds (resource s space) = not space
exceeds _ = false

abbrev pub starts : Event → Bool
starts (state_change to st) = is_starting to
starts _ = false

-- How many runs, from one start to the next, hold an event that exceeds; the first is not counted again
-- where the stop of this run has been begun.
unfoldable pub runs_over : Bool → List Event → ℕ
runs_over begun [] = 0
runs_over begun (v ∷ vs) =
    if starts v
    then runs_over false vs
    else if exceeds v && not begun
    then 1 + runs_over true vs
    else runs_over begun vs

stops-append : (es fs : List Effect) → stops (es ++ fs) ≡ stops es + stops fs
unfolding stops
stops-append [] fs = omega arith
stops-append (wait_for_stop ∷ es) fs = omega (arith, stops-append es fs)
stops-append (stats ∷ es) fs = stops-append es fs
stops-append (notice n ∷ es) fs = stops-append es fs
stops-append (install_output t ∷ es) fs = stops-append es fs
stops-append (daemon_line t ∷ es) fs = stops-append es fs

stops-notices : (ns : List Notice) → stops (notices ns) ≡ 0
unfolding stops
stops-notices [] = refl
stops-notices (n ∷ ns) = stops-notices ns

one_event :
    (now disk : ℕ) (v : Event) (l : Listener)
    → ((handle now disk v l).0.fired ≡ not (starts v) && (l.fired || exceeds v))
      × (stops (handle now disk v l).1 ≡ (if exceeds v && not l.fired then 1 else 0))
unfolding handle stops trigger reset_limits
one_event now disk (resource s true) l = (ground arith, ground arith)
one_event now disk (resource s false) l = elim (Bool-cases l.fired) [
  | inl begun ↦ rw begun (refl, refl)
  | inr idle ↦ rw idle (refl, refl)
]
one_event now disk (state_change to st) l = (
  elim (Bool-cases (is_starting to)) [
    | inl boots ↦ rw boots refl
    | inr stays ↦ rw stays (ground arith)
  ],
  stops-notices (on_state_change st disk _).1,
)
one_event now disk (pull_status t) l = (ground arith, refl)
one_event now disk pull_started l = (ground arith, refl)
one_event now disk pull_completed l = (ground arith, refl)
one_event now disk other l = (ground arith, refl)

-- A start finds no lack of space.
starts_within : (v : Event) → (starts v && exceeds v) ≡ false
starts_within (state_change to st) = ground arith
starts_within (resource s space) = refl
starts_within (pull_status t) = refl
starts_within pull_started = refl
starts_within pull_completed = refl
starts_within other = refl

add_up :
    (boots over begun : Bool) (k : Bool → ℕ)
    → (boots && over) ≡ false
    → (if over && not begun then 1 else 0) + k (not boots && (begun || over))
      ≡ (if boots then k false else if over && not begun then 1 + k true else k begun)
add_up true true begun k h = absurd (ground (arith, h))
add_up true false begun k h = omega arith
add_up false true true k h = omega arith
add_up false true false k h = omega arith
add_up false false true k h = omega arith
add_up false false false k h = omega arith

-- A server is stopped for want of space exactly once in each of its runs in which an event finds that it is
-- over its space, a run being the events from one start to the next; the first run counts only where the
-- stop has not been begun before.
pub stops-handle_all :
    (now disk : ℕ) (vs : List Event) (l : Listener)
    → stops (handle_all now disk vs l).1 ≡ runs_over l.fired vs
unfolding handle_all runs_over stops
stops-handle_all now disk [] l = refl
stops-handle_all now disk (v ∷ vs) l =
    let l' = (handle now disk v l).0 in
    let (fired, here) = one_event now disk v l in
    let later = stops-handle_all now disk vs l' ∙ ap (λ b. runs_over b vs) fired in
    stops-append (handle now disk v l).1 (handle_all now disk vs l').1
    ∙ ap₂ (λ a b. a + b) here later
    ∙ add_up (starts v) (exceeds v) l.fired (λ b. runs_over b vs) (starts_within v)
