-- ===== src/System/SinkPool.antt =====
-- system/sink_pool.go: the channels that console and event output is sent to.
-- A channel is a reference into a store, since the pool and its readers share it. The pool's mutex
-- makes `On`, `Off` and `Destroy` atomic. The goroutines of `Push` work on one channel each; what
-- other goroutines do to that channel meanwhile is an argument.
pub mod Rolling
pub mod Delivery
pub mod Registry
mod Examples
use feathers.Prelude.{
  ℕ, Bool, true, false, Option, none, some, List, [], ◌∷◌, ◌++◌, ltb, ◌==◌, if◌then◌else◌, length,
}

module _ {ℓ} (D : Type ℓ) where
  -- A Go channel: its buffer, oldest value first, its capacity, whether it was closed, and the values
  -- that its readers have had, oldest first.
  pub record Channel : Type ℓ where
    pub buffer : List D
    pub capacity : ℕ
    pub closed : Bool
    pub received : List D

  abbrev pub Store : Type ℓ
  Store = ℕ → Channel

  -- What happens to a channel while a goroutine of `Push` waits to send: a reader takes a value and the
  -- goroutine's send completes, or another blocked sender's does, or the channel is closed.
  pub data Act : Type ℓ where
    takes : Act
    takes_for_other : D → Act
    closes : Act

  -- The acts within the 10 ms, and the value of another blocked sender that gets in when the oldest
  -- value is dropped.
  pub record Meanwhile : Type ℓ where
    pub acts : List Act
    pub rival : Option D

pub data Outcome : Type 0 where
  sent timed_out panicked : Outcome

module _ {ℓ} {D : Type ℓ} where
  unfoldable pub update : (ℕ → Channel D) → ℕ → Channel D → ℕ → Channel D
  update s i c j = if i == j then c else s j

  unfoldable pub has_room : Channel D → Bool
  has_room c = ltb (length c.buffer) c.capacity

  abbrev pub tail : List D → List D
  tail [] = []
  tail (x ∷ xs) = xs

  abbrev pub first : List D → List D
  first [] = []
  first (x ∷ xs) = x ∷ []

  -- A reader takes the oldest value and a blocked sender's `v` goes in behind the others; without a
  -- buffer the reader gets `v` itself.
  unfoldable pub pass : D → Channel D → Channel D
  pass v c = record c {
    buffer = tail (c.buffer ++ v ∷ []);
    received = c.received ++ first (c.buffer ++ v ∷ []);
  }

  -- `case c <- data:` blocked against `case <-time.After(10 * time.Millisecond):`
  unfoldable pub wait_to_send : List (Act D) → D → Channel D → Channel D × Outcome
  unfolding pass
  wait_to_send [] v c = (c, timed_out)
  wait_to_send (takes ∷ rest) v c = (pass v c, sent)
  wait_to_send (takes_for_other w ∷ rest) v c = wait_to_send rest v (pass w c)
  wait_to_send (closes ∷ rest) v c = (record c { closed = true }, panicked)

  -- `select { case <-c: …; default: }` after the time-out, with the send that follows it.
  replace_oldest : List D → Option D → D → Channel D → Channel D
  replace_oldest [] rival v c = c
  replace_oldest (x ∷ xs) none v c = record c { buffer = xs ++ v ∷ [] }
  replace_oldest (x ∷ xs) (some w) v c = record c { buffer = xs ++ w ∷ [] }

  after_wait : Option D → D → Channel D × Outcome → Channel D × Outcome
  unfolding replace_oldest
  after_wait rival v (c, timed_out) = (replace_oldest c.buffer rival v c, timed_out)
  after_wait rival v (c, o) = (c, o)

  -- The goroutine of `Push` for one channel. A send on a closed channel panics.
  unfoldable pub deliver : Meanwhile D → D → Channel D → Channel D × Outcome
  unfolding has_room wait_to_send after_wait
  deliver m v c =
      if c.closed
      then (c, panicked)
      else if has_room c
      then (record c { buffer = c.buffer ++ v ∷ [] }, sent)
      else after_wait m.rival v (wait_to_send m.acts v c)

  -- A sink is a channel or nil. A nil channel is never ready: its goroutine does nothing.
  unfoldable pub push_to : (ℕ → Meanwhile D) → D → Option ℕ → Store D → Store D × Bool
  unfolding deliver update
  push_to env v none s = (s, true)
  push_to env v (some i) s =
      let (c, o) = deliver (env i) v (s i) in (update s i c, elim o [ panicked ↦ false | _ ↦ true ])

  -- `Push`: false stands for a panic in one of the goroutines, which ends the process.
  unfoldable pub push : (ℕ → Meanwhile D) → D → List (Option ℕ) → Store D → Store D × Bool
  unfolding push_to
  push env v [] s = (s, true)
  push env v (k ∷ ks) s =
      let (s', fine) = push_to env v k s in
      let (s'', rest) = push env v ks s' in (s'', if fine then rest else false)

  -- `close(c)`, guarded by `c != nil`; false stands for the panic on a channel that is closed.
  unfoldable pub close : Option ℕ → Store D → Store D × Bool
  unfolding update
  close none s = (s, true)
  close (some i) s =
      if (s i).closed then (s, false) else (update s i (record (s i) { closed = true }), true)

-- `c != sink`, negated.
unfoldable pub same_sink : Option ℕ → Option ℕ → Bool
same_sink none none = true
same_sink (some i) (some j) = i == j
same_sink _ _ = false

-- The loop of `Off` over the slice: the sinks without the first match, or none without a match.
unfoldable pub remove : Option ℕ → List (Option ℕ) → Option (List (Option ℕ))
unfolding same_sink
remove c [] = none
remove c (k ∷ ks) =
    let rest = remove c ks in
    if same_sink c k then some ks else elim rest [ none ↦ none | some r ↦ some (k ∷ r) ]

module _ {ℓ} (D : Type ℓ) where
  pub record Pool : Type ℓ where
    pub sinks : List (Option ℕ)
    pub store : Store D

module _ {ℓ} {D : Type ℓ} where
  unfoldable pub on : Option ℕ → Pool D → Pool D
  on c p = record p { sinks = p.sinks ++ c ∷ [] }

  off_found : Option ℕ → Pool D → Option (List (Option ℕ)) → Pool D × Bool
  unfolding close
  off_found c p none = (p, true)
  off_found c p (some ks) =
      let (s, fine) = close c p.store in (record { sinks = ks; store = s }, fine)

  unfoldable pub off : Option ℕ → Pool D → Pool D × Bool
  unfolding remove off_found
  off c p = off_found c p (remove c p.sinks)

  -- The loop of `Destroy`; a panic ends it.
  unfoldable pub close_all : List (Option ℕ) → Store D → Store D × Bool
  unfolding close
  close_all [] s = (s, true)
  close_all (k ∷ ks) s =
      let (s', fine) = close k s in let rest = close_all ks s' in if fine then rest else (s', false)

  unfoldable pub destroy : Pool D → Pool D × Bool
  unfolding close_all
  destroy p =
      let (s, fine) = close_all p.sinks p.store in
      (record { sinks = if fine then [] else p.sinks; store = s }, fine)
