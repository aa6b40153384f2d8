-- ===== src/System/SinkPool/Delivery.antt =====
-- `Push` of system/sink_pool.go over all sinks of a pool.
use feathers.Prelude.{
  ℕ, ◌≡◌, ◌≢◌, refl, sym, ◌∙◌, ◌⊎◌, inl, inr, true, false, Option, none, some, List, [], ◌∷◌, arith,
}
use feathers.System.SinkPool.{
  Channel, Store, Act, takes, takes_for_other, closes, Meanwhile, Outcome, panicked, update, pass,
  wait_to_send, deliver, push,
}

-- A channel is among the sinks.
abbrev pub Holds : List (Option ℕ) → ℕ → Type 0
Holds [] i = ⊥
Holds (none ∷ ks) i = Holds ks i
Holds (some j ∷ ks) i = (j ≡ i) ⊎ Holds ks i

abbrev pub Lacks : List (Option ℕ) → ℕ → Type 0
Lacks [] i = Unit {0}
Lacks (none ∷ ks) i = Lacks ks i
Lacks (some j ∷ ks) i = (j ≢ i) × Lacks ks i

pub Lacks-ne : (ks : List (Option ℕ)) (i j : ℕ) → Holds ks i → Lacks ks j → j ≢ i
Lacks-ne [] i j h l = absurd h
Lacks-ne (none ∷ ks) i j h l = Lacks-ne ks i j h l
Lacks-ne (some k ∷ ks) i j (inl e) l = λ f. l.0 (e ∙ sym f)
Lacks-ne (some k ∷ ks) i j (inr h) l = Lacks-ne ks i j h l.1

push_to_fine : (o : Outcome) → o ≢ panicked → (elim o [ panicked ↦ false | _ ↦ true ]) ≡ true
push_to_fine o ne = ground arith

module _ {ℓ} {D : Type ℓ} where
  -- Every sink is an open channel or nil, and no channel is registered twice.
  abbrev pub Ready : List (Option ℕ) → Store D → Type 0
  Ready [] s = Unit {0}
  Ready (none ∷ ks) s = Ready ks s
  Ready (some i ∷ ks) s = ((s i).closed ≡ false) × Lacks ks i × Ready ks s

  pub update_self : (s : Store D) (i : ℕ) (c : Channel D) → update s i c i ≡ c
  unfolding update
  update_self s i c = ground arith

  pub update_other : (s : Store D) (i j : ℕ) (c : Channel D) → i ≢ j → update s i c j ≡ s j
  unfolding update
  update_other s i j c ne = ground arith

  pub Ready-update :
      (ks : List (Option ℕ)) (s : Store D) (i : ℕ) (c : Channel D)
      → Lacks ks i
      → Ready ks s
      → Ready ks (update s i c)
  Ready-update [] s i c l r = tt
  Ready-update (none ∷ ks) s i c l r = Ready-update ks s i c l r
  Ready-update (some j ∷ ks) s i c l r =
      (rw (update_other s i j c (λ e. l.0 (sym e))) r.0, r.1, Ready-update ks s i c l.1 r.2)

  -- `Push` touches no channel but its sinks.
  pub push-Lacks :
      (env : ℕ → Meanwhile D) (v : D) (ks : List (Option ℕ)) (s : Store D) (i : ℕ)
      → Lacks ks i
      → (push env v ks s).0 i ≡ s i
  unfolding push
  push-Lacks env v [] s i l = refl
  push-Lacks env v (none ∷ ks) s i l = push-Lacks env v ks s i l
  push-Lacks env v (some j ∷ ks) s i l = push-Lacks env v ks _ i l.1 ∙ update_other s j i _ l.0

  -- If no channel is registered twice, `Push` brings every sink to where its own goroutine brings it,
  -- whatever happens at the others.
  pub push_delivers :
      (env : ℕ → Meanwhile D) (v : D) (ks : List (Option ℕ)) (s : Store D) (i : ℕ)
      → Ready ks s
      → Holds ks i
      → (push env v ks s).0 i ≡ (deliver (env i) v (s i)).0
  unfolding push
  push_delivers env v [] s i r h = absurd h
  push_delivers env v (none ∷ ks) s i r h = push_delivers env v ks s i r h
  push_delivers env v (some j ∷ ks) s i r (inl e) =
      rw (← e) (push-Lacks env v ks _ j r.1 ∙ update_self s j _)
  push_delivers env v (some j ∷ ks) s i r (inr h) =
      let c = (deliver (env j) v (s j)).0 in
      let ne = Lacks-ne ks i j h r.1 in
      push_delivers env v ks (update s j c) i (Ready-update ks s j c r.1 r.2) h
      ∙ rw (update_other s j i c ne)

  -- No other goroutine closes a channel while `Push` waits on it.
  abbrev pub NoCloses : List (Act D) → Type 0
  NoCloses [] = Unit {0}
  NoCloses (takes ∷ rest) = NoCloses rest
  NoCloses (takes_for_other w ∷ rest) = NoCloses rest
  NoCloses (closes ∷ rest) = ⊥

  wait_to_send_open :
      (acts : List (Act D)) (v : D) (c : Channel D)
      → NoCloses acts
      → c.closed ≡ false
      → ((wait_to_send acts v c).0.closed ≡ false) × ((wait_to_send acts v c).1 ≢ panicked)
  unfolding wait_to_send
  wait_to_send_open [] v c n o = (o, λ e. cc)
  wait_to_send_open (takes ∷ rest) v c n o = (o, λ e. cc)
  wait_to_send_open (takes_for_other w ∷ rest) v c n o = wait_to_send_open rest v (pass w c) n o
  wait_to_send_open (closes ∷ rest) v c n o = absurd n

  pub deliver_open :
      (m : Meanwhile D) (v : D) (c : Channel D)
      → NoCloses m.acts
      → c.closed ≡ false
      → ((deliver m v c).0.closed ≡ false) × ((deliver m v c).1 ≢ panicked)
  unfolding deliver
  deliver_open m v c n o = ground (arith, wait_to_send_open m.acts v c n o)

  -- On a well-formed pool that nobody closes channels of meanwhile, `Push` does not panic, and leaves
  -- the pool well-formed.
  pub push-Ready :
      (env : ℕ → Meanwhile D) (v : D) (ks : List (Option ℕ)) (s : Store D)
      → ((i : ℕ) → NoCloses (env i).acts)
      → Ready ks s
      → ((push env v ks s).1 ≡ true) × Ready ks (push env v ks s).0
  unfolding push
  push-Ready env v [] s n r = (refl, tt)
  push-Ready env v (none ∷ ks) s n r = push-Ready env v ks s n r
  push-Ready env v (some i ∷ ks) s n r =
      let done = deliver (env i) v (s i) in
      let open_still = deliver_open (env i) v (s i) (n i) r.0 in
      let rest = push-Ready env v ks (update s i done.0) n (Ready-update ks s i done.0 r.1 r.2) in
      (
        rw (push_to_fine done.1 open_still.1) rest.0,
        (
          rw (push-Lacks env v ks (update s i done.0) i r.1 ∙ update_self s i done.0) open_still.0,
          r.1,
          rest.1,
        ),
      )
