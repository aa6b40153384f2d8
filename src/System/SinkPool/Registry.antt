-- ===== src/System/SinkPool/Registry.antt =====
-- `On`, `Off` and `Destroy` of system/sink_pool.go: which channels are sinks, and which are closed.
use feathers.Prelude.{
  ℕ, ◌≡◌, ◌≢◌, refl, sym, ap, subst, ◌∙◌, ◌⊎◌, inl, inr, true, false, Option, none, some, List, [],
  ◌∷◌, ◌++◌, arith, ℕ_discrete,
}
use feathers.System.SinkPool.{
  Channel, Store, Pool, update, close, remove, on, off_found, off, close_all, destroy,
}
use feathers.System.SinkPool.Delivery.{Holds, Lacks, Ready, update_self, update_other, Ready-update}

-- The slice after the loop of `Off` is the slice before it less the first entry that is `i`.
abbrev pub Splits : ℕ → List (Option ℕ) → List (Option ℕ) → Type 0
Splits i ks r =
    (xs : List (Option ℕ)) × (ys : List (Option ℕ)) × Lacks xs i
    × (ks ≡ xs ++ some i ∷ ys)
    × (r ≡ xs ++ ys)

remove-Holds :
    (i : ℕ) (ks : List (Option ℕ))
    → Holds ks i
    → (r : List (Option ℕ)) × (remove (some i) ks ≡ some r) × Splits i ks r
unfolding remove
remove-Holds i [] h = absurd h
remove-Holds i (none ∷ ks) h =
    let (r, e, (xs, ys, l, p, q)) = remove-Holds i ks h in
    (none ∷ r, rw e, (none ∷ xs, ys, l, ap (◌∷◌ none) p, ap (◌∷◌ none) q))
remove-Holds i (some j ∷ ks) h = elim (ℕ_discrete i j) [
  | yes same ↦ (ks, ground arith, ([], ks, tt, ground arith, refl))
  | no other ↦
      let (r, e, (xs, ys, l, p, q)) = remove-Holds i ks (still h other) in
      (
        some j ∷ r,
        ground arith,
        (some j ∷ xs, ys, (λ f. other (sym f), l), ap (◌∷◌ (some j)) p, ap (◌∷◌ (some j)) q),
      )
]
  where
    still : (j ≡ i) ⊎ Holds ks i → i ≢ j → Holds ks i
    still (inl e) ne = absurd (ne (sym e))
    still (inr k) ne = k

remove-Lacks : (i : ℕ) (ks : List (Option ℕ)) → Lacks ks i → remove (some i) ks ≡ none
unfolding remove
remove-Lacks i [] l = refl
remove-Lacks i (none ∷ ks) l = rw (remove-Lacks i ks l)
remove-Lacks i (some j ∷ ks) l = let rest = remove-Lacks i ks l.1 in ground (arith, l.0)

Lacks-remove :
    (i j : ℕ) (xs ys : List (Option ℕ)) → Lacks (xs ++ some i ∷ ys) j → Lacks (xs ++ ys) j
Lacks-remove i j [] ys l = l.1
Lacks-remove i j (none ∷ xs) ys l = Lacks-remove i j xs ys l
Lacks-remove i j (some k ∷ xs) ys l = (l.0, Lacks-remove i j xs ys l.1)

Lacks-middle : (i j : ℕ) (xs ys : List (Option ℕ)) → Lacks (xs ++ some i ∷ ys) j → i ≢ j
Lacks-middle i j [] ys l = l.0
Lacks-middle i j (none ∷ xs) ys l = Lacks-middle i j xs ys l
Lacks-middle i j (some k ∷ xs) ys l = Lacks-middle i j xs ys l.1

Lacks-snoc : (i j : ℕ) (ks : List (Option ℕ)) → Lacks ks j → i ≢ j → Lacks (ks ++ some i ∷ []) j
Lacks-snoc i j [] l ne = (ne, tt)
Lacks-snoc i j (none ∷ ks) l ne = Lacks-snoc i j ks l ne
Lacks-snoc i j (some k ∷ ks) l ne = (l.0, Lacks-snoc i j ks l.1 ne)

module _ {ℓ} {D : Type ℓ} where
  -- The pool's invariant: its sinks are distinct and open.
  abbrev pub IsValid : Pool D → Type 0
  IsValid p = Ready p.sinks p.store

  Ready-remove :
      (i : ℕ) (xs ys : List (Option ℕ)) (s : Store D)
      → Ready (xs ++ some i ∷ ys) s
      → Ready (xs ++ ys) s × Lacks (xs ++ ys) i × ((s i).closed ≡ false)
  Ready-remove i [] ys s r = (r.2, r.1, r.0)
  Ready-remove i (none ∷ xs) ys s r = Ready-remove i xs ys s r
  Ready-remove i (some j ∷ xs) ys s r =
      let (rest, l, o) = Ready-remove i xs ys s r.2 in
      ((r.0, Lacks-remove i j xs ys r.1, rest), ((λ e. Lacks-middle i j xs ys r.1 (sym e)), l), o)

  Ready-snoc :
      (i : ℕ) (ks : List (Option ℕ)) (s : Store D)
      → (s i).closed ≡ false
      → Lacks ks i
      → Ready ks s
      → Ready (ks ++ some i ∷ []) s
  Ready-snoc i [] s o l r = (o, tt, tt)
  Ready-snoc i (none ∷ ks) s o l r = Ready-snoc i ks s o l r
  Ready-snoc i (some j ∷ ks) s o l r =
      (r.0, Lacks-snoc i j ks r.1 (λ e. l.0 (sym e)), Ready-snoc i ks s o l.1 r.2)

  -- Registering an open channel that is no sink yet keeps the invariant.
  pub on-IsValid :
      (i : ℕ) (p : Pool D)
      → (p.store i).closed ≡ false
      → Lacks p.sinks i
      → IsValid p
      → IsValid (on (some i) p)
  unfolding on
  on-IsValid i p o l v = Ready-snoc i p.sinks p.store o l v

  close_open :
      (i : ℕ) (s : Store D)
      → (s i).closed ≡ false
      → close (some i) s ≡ (update s i (record (s i) { closed = true }), true)
  unfolding close
  close_open i s o = ground arith

  -- `Off` of a registered channel takes exactly that channel out, keeps the others in their order,
  -- closes it and no other, does not panic, and keeps the invariant.
  pub off_removes :
      (i : ℕ) (p : Pool D)
      → IsValid p
      → Holds p.sinks i
      → let (q, fine) = off (some i) p in
        (fine ≡ true)
        × Splits i p.sinks q.sinks
        × Lacks q.sinks i
        × ((q.store i).closed ≡ true)
        × ((j : ℕ) → i ≢ j → q.store j ≡ p.store j)
        × IsValid q
  unfolding off off_found
  off_removes i p v h =
      let (r, e, (xs, ys, l, split, rest)) = remove-Holds i p.sinks h in
      let shut = record (p.store i) { closed = true } in
      let (ready, lacks, live) =
        Ready-remove i xs ys p.store (subst (λ k. Ready k p.store) split v) in
      rw (e, off_found)
        (rw (close_open i p.store live) (
          refl,
          (xs, ys, l, split, rest),
          rw rest lacks,
          ap (λ (c : Channel D). c.closed) (update_self p.store i shut),
          (λ j ne. update_other p.store i j shut ne),
          rw rest (Ready-update (xs ++ ys) p.store i shut lacks ready),
        ))

  -- `Off` of a channel that is not registered changes nothing.
  pub off_absent : (i : ℕ) (p : Pool D) → Lacks p.sinks i → off (some i) p ≡ (p, true)
  unfolding off off_found
  off_absent i p l = rw (remove-Lacks i p.sinks l, off_found)

  close_all-cons :
      (j : ℕ) (ks : List (Option ℕ)) (s : Store D)
      → (s j).closed ≡ false
      → close_all (some j ∷ ks) s ≡ close_all ks (update s j (record (s j) { closed = true }))
  unfolding close_all
  close_all-cons j ks s o = ground arith

  close_all-nil : (ks : List (Option ℕ)) (s : Store D) → close_all (none ∷ ks) s ≡ close_all ks s
  unfolding close_all
  close_all-nil ks s = refl

  close_all-Lacks :
      (ks : List (Option ℕ)) (s : Store D) (i : ℕ)
      → Ready ks s
      → Lacks ks i
      → (close_all ks s).0 i ≡ s i
  close_all-Lacks [] s i r l = unfold close_all in refl
  close_all-Lacks (none ∷ ks) s i r l =
      ap (λ t. t.0 i) (close_all-nil ks s) ∙ close_all-Lacks ks s i r l
  close_all-Lacks (some j ∷ ks) s i r l =
      let shut = record (s j) { closed = true } in
      ap (λ t. t.0 i) (close_all-cons j ks s r.0)
      ∙ close_all-Lacks ks (update s j shut) i (Ready-update ks s j shut r.1 r.2) l.1
      ∙ update_other s j i shut l.0

  Holds-cases :
      (j : ℕ) (ks : List (Option ℕ)) (s : Store D)
      → ((close_all ks s).0 j).closed ≡ true
      → ((i : ℕ) → Holds ks i → ((close_all ks s).0 i).closed ≡ true)
      → (i : ℕ) → (j ≡ i) ⊎ Holds ks i
      → ((close_all ks s).0 i).closed ≡ true
  Holds-cases j ks s e f i (inl same) = rw (← same) e
  Holds-cases j ks s e f i (inr h) = f i h

  close_all-Holds :
      (ks : List (Option ℕ)) (s : Store D)
      → Ready ks s
      → ((close_all ks s).1 ≡ true) × ((i : ℕ) → Holds ks i → ((close_all ks s).0 i).closed ≡ true)
  close_all-Holds [] s r = (unfold close_all in refl, λ i h. absurd h)
  close_all-Holds (none ∷ ks) s r = rw (close_all-nil ks s) (close_all-Holds ks s r)
  close_all-Holds (some j ∷ ks) s r =
      let shut = record (s j) { closed = true } in
      let ready = Ready-update ks s j shut r.1 r.2 in
      let rest = close_all-Holds ks (update s j shut) ready in
      rw (close_all-cons j ks s r.0) (
        rest.0,
        Holds-cases j ks (update s j shut)
            (ap (λ (c : Channel D). c.closed)
              (close_all-Lacks ks (update s j shut) j ready r.1 ∙ update_self s j shut))
            rest.1,
      )

  -- `Destroy` of a well-formed pool does not panic, leaves no sink, closes every channel that was a
  -- sink, and touches no other.
  pub destroy_closes :
      (p : Pool D)
      → IsValid p
      → let (q, fine) = destroy p in
        (fine ≡ true)
        × (q.sinks ≡ [])
        × ((i : ℕ) → Holds p.sinks i → (q.store i).closed ≡ true)
        × ((i : ℕ) → Lacks p.sinks i → q.store i ≡ p.store i)
  unfolding destroy
  destroy_closes p v =
      let (fine, shut) = close_all-Holds p.sinks p.store v in
      (fine, rw fine, shut, (λ i l. close_all-Lacks p.sinks p.store i v l))
