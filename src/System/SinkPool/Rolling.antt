-- ===== src/System/SinkPool/Rolling.antt =====
-- One channel under `Push` of system/sink_pool.go: the rolling buffer.
use mathlib.Core.List.{append_assoc}
use feathers.Prelude.{
  ℕ, ◌+◌, ◌-◌, ◌≤◌, ◌<◌, ◌≡◌, refl, sym, ap, ◌∙◌, true, false, Option, none, some, List, [], ◌∷◌,
  ◌++◌, arith, length, length-append, drop, dec_lt, Bool-cases, inl, inr,
}
use feathers.System.SinkPool.{
  Channel, Act, takes, takes_for_other, closes, Meanwhile, Outcome, sent, timed_out, panicked,
  has_room, tail, first, pass, wait_to_send, replace_oldest, after_wait, deliver,
}

module _ {ℓ} {D : Type ℓ} where
  abbrev pub Fits : Channel D → Type 0
  Fits c = length c.buffer ≤ c.capacity

  -- Nothing else happens to the channel.
  abbrev pub calm : Meanwhile D
  calm = record { acts = []; rival = none }

  drop_none : (xs : List D) (n : ℕ) → n ≡ 0 → drop n xs ≡ xs
  drop_none xs n e = rw e

  drop_one : (x : D) (xs : List D) (n : ℕ) → n ≡ 1 → drop n (x ∷ xs) ≡ xs
  drop_one x xs n e = rw e

  length_snoc : (xs : List D) (v : D) → length (xs ++ v ∷ []) ≡ length xs + 1
  length_snoc xs v = omega (arith, length-append xs (v ∷ []))

  full_rolls :
      (xs : List D) (v : D) (c : Channel D)
      → 0 < c.capacity
      → length xs ≡ c.capacity
      → (replace_oldest xs none v c).buffer ≡ drop (length xs + 1 - c.capacity) (xs ++ v ∷ [])
  unfolding replace_oldest
  full_rolls [] v c p e = absurd (omega arith)
  full_rolls (x ∷ xs) v c p e = sym (drop_one x (xs ++ v ∷ []) _ (omega arith))

  -- With nothing else going on, an open channel with a buffer ends in the new value, behind as many of
  -- its latest values as there is room for.
  pub deliver_rolls :
      (v : D) (c : Channel D)
      → c.closed ≡ false
      → 0 < c.capacity
      → Fits c
      → (deliver calm v c).0.buffer ≡ drop (length c.buffer + 1 - c.capacity) (c.buffer ++ v ∷ [])
  unfolding deliver
  deliver_rolls v c o p f = elim (dec_lt (length c.buffer) c.capacity) [
    | yes room ↦ ground (arith, drop_none (c.buffer ++ v ∷ []) (length c.buffer + 1 - c.capacity))
    | no full ↦ ground (arith, full_rolls c.buffer v c)
  ]

  length-tail : (xs : List D) (v : D) → length (tail (xs ++ v ∷ [])) ≡ length xs
  length-tail [] v = refl
  length-tail (x ∷ xs) v = omega (arith, length_snoc xs v)

  first-append-tail : (xs : List D) → first xs ++ tail xs ≡ xs
  first-append-tail [] = refl
  first-append-tail (x ∷ xs) = refl

  pass-Fits : (v : D) (c : Channel D) → Fits c → Fits (pass v c)
  unfolding pass
  pass-Fits v c f = omega (arith, length-tail c.buffer v)

  wait_to_send-Fits :
      (acts : List (Act D)) (v : D) (c : Channel D) → Fits c → Fits (wait_to_send acts v c).0
  unfolding wait_to_send
  wait_to_send-Fits [] v c f = f
  wait_to_send-Fits (takes ∷ rest) v c f = pass-Fits v c f
  wait_to_send-Fits (takes_for_other w ∷ rest) v c f =
      wait_to_send-Fits rest v (pass w c) (pass-Fits w c f)
  wait_to_send-Fits (closes ∷ rest) v c f = f

  replace_oldest-Fits :
      (xs : List D) (rival : Option D) (v : D) (c : Channel D)
      → xs ≡ c.buffer
      → Fits c
      → Fits (replace_oldest xs rival v c)
  unfolding replace_oldest
  replace_oldest-Fits [] rival v c e f = f
  replace_oldest-Fits (x ∷ xs) none v c e f = omega (arith, length_snoc xs v, ap length e)
  replace_oldest-Fits (x ∷ xs) (some w) v c e f = omega (arith, length_snoc xs w, ap length e)

  after_wait-Fits :
      (rival : Option D) (v : D) (c : Channel D) (o : Outcome)
      → Fits c
      → Fits (after_wait rival v (c, o)).0
  unfolding after_wait
  after_wait-Fits rival v c timed_out f = replace_oldest-Fits c.buffer rival v c refl f
  after_wait-Fits rival v c sent f = f
  after_wait-Fits rival v c panicked f = f

  -- Whatever other goroutines do, a buffer within its capacity stays within it.
  pub deliver-Fits : (m : Meanwhile D) (v : D) (c : Channel D) → Fits c → Fits (deliver m v c).0
  unfolding deliver
  deliver-Fits m v c f =
      let waited = wait_to_send m.acts v c in
      ground (
        arith,
        length_snoc c.buffer v,
        after_wait-Fits m.rival v waited.0 waited.1 (wait_to_send-Fits m.acts v c f),
      )

  -- All values that went through a channel and are not lost, oldest first.
  abbrev pub history : Channel D → List D
  history c = c.received ++ c.buffer

  history-pass : (v : D) (c : Channel D) → history (pass v c) ≡ history c ++ v ∷ []
  unfolding pass
  history-pass v c =
      let all = c.buffer ++ v ∷ [] in
      append_assoc c.received (first all) (tail all)
      ∙ ap (◌++◌ c.received) (first-append-tail all)
      ∙ sym (append_assoc c.received c.buffer (v ∷ []))

  wait_to_send-history :
      (acts : List (Act D)) (v : D) (c : Channel D)
      → (wait_to_send acts v c).1 ≡ sent
      → (ws : List D) × (history (wait_to_send acts v c).0 ≡ history c ++ (ws ++ v ∷ []))
  unfolding wait_to_send
  wait_to_send-history [] v c e = cc
  wait_to_send-history (takes ∷ rest) v c e = ([], history-pass v c)
  wait_to_send-history (takes_for_other w ∷ rest) v c e =
      let (ws, h) = wait_to_send-history rest v (pass w c) e in
      (
        w ∷ ws,
        h
            ∙ ap (λ t. t ++ (ws ++ v ∷ [])) (history-pass w c)
            ∙ append_assoc (history c) (w ∷ []) (ws ++ v ∷ []),
      )
  wait_to_send-history (closes ∷ rest) v c e = cc

  after_wait_sent :
      (rival : Option D) (v : D) (c : Channel D) (o : Outcome)
      → (after_wait rival v (c, o)).1 ≡ sent
      → (o ≡ sent) × ((after_wait rival v (c, o)).0 ≡ c)
  unfolding after_wait
  after_wait_sent rival v c timed_out e = cc
  after_wait_sent rival v c sent e = (refl, refl)
  after_wait_sent rival v c panicked e = cc

  full_keeps_order :
      (rival : Option D) (acts : List (Act D)) (v : D) (c : Channel D)
      → (after_wait rival v (wait_to_send acts v c)).1 ≡ sent
      → (ws : List D) × (history (after_wait rival v (wait_to_send acts v c)).0
          ≡ history c ++ (ws ++ v ∷ []))
  full_keeps_order rival acts v c e =
      let waited = wait_to_send acts v c in
      let (through, same) = after_wait_sent rival v waited.0 waited.1 e in
      let (ws, h) = wait_to_send-history acts v c through in (ws, ap (λ d. history d) same ∙ h)

  deliver_closed :
      (m : Meanwhile D) (v : D) (c : Channel D) → c.closed ≡ true → deliver m v c ≡ (c, panicked)
  unfolding deliver
  deliver_closed m v c shut = ground arith

  deliver_room :
      (m : Meanwhile D) (v : D) (c : Channel D)
      → c.closed ≡ false
      → has_room c ≡ true
      → deliver m v c ≡ (record c { buffer = c.buffer ++ v ∷ [] }, sent)
  unfolding deliver
  deliver_room m v c live room = ground arith

  deliver_full :
      (m : Meanwhile D) (v : D) (c : Channel D)
      → c.closed ≡ false
      → has_room c ≡ false
      → deliver m v c ≡ after_wait m.rival v (wait_to_send m.acts v c)
  unfolding deliver
  deliver_full m v c live full = ground arith

  -- A value whose send went through is the last one of the channel, and none before it was lost or
  -- overtaken: between them there are only values of other senders.
  pub deliver_keeps_order :
      (m : Meanwhile D) (v : D) (c : Channel D)
      → (deliver m v c).1 ≡ sent
      → (ws : List D) × (history (deliver m v c).0 ≡ history c ++ (ws ++ v ∷ []))
  deliver_keeps_order m v c e = elim (Bool-cases c.closed) [
    | inl shut ↦ absurd (cc (deliver_closed m v c shut))
    | inr live ↦ elim (Bool-cases (has_room c)) [
      | inl room ↦
          ([], rw (deliver_room m v c live room) (sym (append_assoc c.received c.buffer (v ∷ []))))
      | inr full ↦
          let same = deliver_full m v c live full in
          rw same (full_keeps_order m.rival m.acts v c (rw same at e))
    ]
  ]
