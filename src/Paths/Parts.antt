-- ===== src/Paths/Parts.antt =====
-- A path that is put together from a directory and a base name, and its parts.
use mathlib.Core.List.{append_assoc, reverse-append, reverse-cons, reverse-reverse, cons≢nil}
use feathers.Prelude.{
  ap₂, ℕ, zero, suc, ◌≡◌, ◌≢◌, refl, sym, ap, subst, ◌∙◌, [], ◌∷◌, ◌++◌, reverse, arith, ◌==◌,
  replicate, Bool-cases, inl, inr,
}
use feathers.Prelude.Text.{Text, Without}
use feathers.Paths.{
  slash, trim, behind_slash, last_part, basename, trim_front, dir_before, split_at_slash,
  split_reversed, split_path,
}

-- Slashes in front of the reversed path are dropped.
trim_slashes : (k c : ℕ) (rest : Text) → c ≢ slash → trim (replicate k slash ++ c ∷ rest) ≡ c ∷ rest
unfolding trim
trim_slashes zero c [] ne = refl
trim_slashes zero c (d ∷ rest) ne = ground arith
trim_slashes (suc zero) c rest ne = trim_slashes zero c rest ne
trim_slashes (suc (suc k)) c rest ne = trim_slashes (suc k) c rest ne

-- The search passes over a part without a slash.
behind_part :
    (part acc rest : Text)
    → Without slash part
    → behind_slash acc (part ++ slash ∷ rest) ≡ reverse part ++ acc
unfolding behind_slash
behind_part [] acc rest free = refl
behind_part (c ∷ part) acc rest free = elim (Bool-cases (c == slash)) [
  | inl same ↦ absurd (ground (arith, free.0))
  | inr other ↦ rw other (
      behind_part part (c ∷ acc) rest free.1
      ∙ sym (append_assoc (reverse part) (c ∷ []) acc)
      ∙ ap (λ r. r ++ acc) (sym (reverse-cons c part)))
]

split_part :
    (part acc rest : Text)
    → Without slash part
    → split_at_slash acc (part ++ slash ∷ rest) ≡ (dir_before rest, reverse part ++ acc)
unfolding split_at_slash
split_part [] acc rest free = refl
split_part (c ∷ part) acc rest free = elim (Bool-cases (c == slash)) [
  | inl same ↦ absurd (ground (arith, free.0))
  | inr other ↦ rw other (
      split_part part (c ∷ acc) rest free.1
      ∙ ap (λ t. (dir_before rest, t))
          (sym (append_assoc (reverse part) (c ∷ []) acc)
            ∙ ap (λ r. r ++ acc) (sym (reverse-cons c part))))
]

Without-snoc :
    (part : Text) (c : ℕ) → Without slash part → c ≢ slash → Without slash (part ++ c ∷ [])
Without-snoc [] c free ne = (ne, tt)
Without-snoc (d ∷ part) c free ne = (free.0, Without-snoc part c free.1 ne)

reverse-Without : (part : Text) → Without slash part → Without slash (reverse part)
reverse-Without [] free = tt
reverse-Without (c ∷ part) free =
    subst (Without slash) (sym (reverse-cons c part))
      (Without-snoc (reverse part) c (reverse-Without part free.1) free.0)

replicate_snoc : (k : ℕ) → replicate k slash ++ slash ∷ [] ≡ slash ∷ replicate k slash
replicate_snoc zero = refl
replicate_snoc (suc k) = ap (λ l. slash ∷ l) (replicate_snoc k)

reverse-replicate : (k : ℕ) → reverse (replicate k slash) ≡ replicate k slash
reverse-replicate zero = refl
reverse-replicate (suc k) =
    reverse-cons slash (replicate k slash)
    ∙ ap (λ l. l ++ slash ∷ []) (reverse-replicate k)
    ∙ replicate_snoc k

-- A directory, a slash, a base name that ends in `c`, and more slashes.
abbrev pub joined : Text → Text → ℕ → ℕ → Text
joined dir front c k = dir ++ (slash ∷ (front ++ (c ∷ replicate k slash)))

regroup :
    (a b e : Text) (c : ℕ)
    → (((a ++ c ∷ []) ++ b) ++ slash ∷ []) ++ e ≡ a ++ (c ∷ (b ++ (slash ∷ e)))
regroup a b e c =
    append_assoc ((a ++ c ∷ []) ++ b) (slash ∷ []) e
    ∙ append_assoc (a ++ c ∷ []) b (slash ∷ e)
    ∙ append_assoc a (c ∷ []) (b ++ (slash ∷ e))

reverse-joined :
    (dir front : Text) (c k : ℕ)
    → reverse (joined dir front c k)
      ≡ replicate k slash ++ (c ∷ (reverse front ++ (slash ∷ reverse dir)))
reverse-joined dir front c k =
    let last : Text = c ∷ replicate k slash in
    let name : Text = slash ∷ (front ++ last) in
    reverse-append dir name
    ∙ ap (λ r. r ++ reverse dir)
        (reverse-cons slash (front ++ last)
          ∙ ap (λ r. r ++ slash ∷ [])
              (reverse-append front last
                ∙ ap (λ r. r ++ reverse front)
                    (reverse-cons c (replicate k slash)
                      ∙ ap (λ r. r ++ c ∷ []) (reverse-replicate k))))
    ∙ regroup (replicate k slash) (reverse front) (reverse dir) c

dir_of : (l : Text) → l ≢ [] → dir_before l ≡ reverse l
unfolding dir_before
dir_of [] ne = absurd (ne refl)
dir_of (c ∷ l) ne = refl

trim_front_plain : (c : ℕ) (cs : Text) → c ≢ slash → trim_front (c ∷ cs) ≡ c ∷ cs
unfolding trim_front
trim_front_plain c [] ne = refl
trim_front_plain c (d ∷ cs) ne = ground arith

-- The base name of a directory and a name without slashes is that name, whatever the directory and
-- however many slashes are behind.
pub basename-joined :
    (dir front : Text) (c k : ℕ)
    → Without slash front
    → c ≢ slash
    → basename (joined dir front c k) ≡ front ++ c ∷ []
unfolding basename last_part
basename-joined dir front c k free ne =
    ap (λ r. last_part (trim r)) (reverse-joined dir front c k)
    ∙ ap last_part (trim_slashes k c (reverse front ++ slash ∷ reverse dir) ne)
    ∙ behind_part (reverse front) (c ∷ []) (reverse dir) (reverse-Without front free)
    ∙ ap (λ r. r ++ c ∷ []) (reverse-reverse front)

-- A relative directory and a name without slashes come back from `splitPath`, however many slashes are
-- behind.
pub split_path-joined :
    (d : ℕ) (ds front : Text) (c k : ℕ)
    → d ≢ slash
    → Without slash front
    → c ≢ slash
    → split_path (joined (d ∷ ds) front c k) ≡ (d ∷ ds, front ++ c ∷ [])
unfolding split_path split_reversed
split_path-joined d ds front c k dn free ne =
    let dir : Text = d ∷ ds in
    let some_dir : reverse dir ≢ [] = λ e. cons≢nil (sym (reverse-reverse dir) ∙ ap reverse e) in
    ap (λ p. split_reversed (trim (reverse p))) (trim_front_plain d _ dn)
    ∙ ap (λ r. split_reversed (trim r)) (reverse-joined dir front c k)
    ∙ ap split_reversed (trim_slashes k c (reverse front ++ slash ∷ reverse dir) ne)
    ∙ split_part (reverse front) (c ∷ []) (reverse dir) (reverse-Without front free)
    ∙ ap₂ (λ a b. (a, b)) (dir_of (reverse dir) some_dir ∙ reverse-reverse dir)
        (ap (λ r. r ++ c ∷ []) (reverse-reverse front))
