-- ===== src/Server/Mounts/Allowed.antt =====
-- Which custom mounts of server/mounts.go are let through.
use feathers.Prelude.{
  ◌≡◌, refl, ap, inl, inr, ◌⊎◌, Bool, true, false, List, [], ◌∷◌, ◌++◌, arith, Bool-cases,
  if◌then◌else◌, length, drop,
}
use feathers.Prelude.Text.{Text, has_prefix, has_prefix_sound}
use feathers.Prelude.Filepath.{clean}
use feathers.Server.Mounts.{Mount, is_allowed, cleaned, custom_mounts}

has_prefix-append : (p x : Text) → has_prefix (p ++ x) p ≡ true
unfolding has_prefix
has_prefix-append [] x = refl
has_prefix-append (c ∷ p) x = ground (arith, has_prefix-append p x)

-- A source that begins with the text of an allowed path.
abbrev pub Begins : List Text → Text → Type 0
Begins allowed source =
    (before after : List Text) × (a x : Text) × (allowed ≡ before ++ a ∷ after)
    × (source ≡ clean a ++ x)

Begins-allowed :
    (before after : List Text) (a x : Text) → is_allowed (before ++ a ∷ after) (clean a ++ x) ≡ true
unfolding is_allowed
Begins-allowed [] after a x = rw (has_prefix-append (clean a) x) refl
Begins-allowed (b ∷ before) after a x = ground (arith, Begins-allowed before after a x)

is_allowed-Begins :
    (allowed : List Text) (source : Text) → is_allowed allowed source ≡ true → Begins allowed source
unfolding is_allowed
is_allowed-Begins [] source h = cc
is_allowed-Begins (a ∷ more) source h = elim (Bool-cases (has_prefix source (clean a))) [
  | inl first ↦
      ([], more, a, drop (length (clean a)) source, refl, has_prefix_sound source (clean a) first)
  | inr other ↦
      let (before, after, b, x, split, e) =
        is_allowed-Begins more source (ground (arith, other, h)) in
      (a ∷ before, after, b, x, ap (λ l. a ∷ l) split, e)
]

Begins-is_allowed :
    (allowed : List Text) (source : Text) → Begins allowed source → is_allowed allowed source ≡ true
Begins-is_allowed allowed source (before, after, a, x, split, e) =
    rw (split, e) (Begins-allowed before after a x)

if_true : {A : Type 0} (b : Bool) (x y : A) → b ≡ true → (if b then x else y) ≡ x
if_true true x y e = refl
if_true false x y e = absurd (ground (arith, e))

if_false : {A : Type 0} (b : Bool) (x y : A) → b ≡ false → (if b then x else y) ≡ y
if_false true x y e = absurd (ground (arith, e))
if_false false x y e = refl

-- A custom mount is made, with its paths cleaned, exactly if its clean source begins with the text of a clean
-- allowed path, whatever comes after that text: no separator is asked for, so a directory beside an allowed
-- one is mounted as well where its name only begins with the name of that one. The others are left out.
pub custom_mounts_exactly :
    (allowed : List Text) (m : Mount) (ms : List Mount)
    → (Begins allowed (clean m.source)
        × (custom_mounts allowed (m ∷ ms) ≡ cleaned m ∷ custom_mounts allowed ms))
      ⊎ (¬ Begins allowed (clean m.source)
          × (custom_mounts allowed (m ∷ ms) ≡ custom_mounts allowed ms))
unfolding custom_mounts
custom_mounts_exactly allowed m ms = elim (Bool-cases (is_allowed allowed (clean m.source))) [
  | inl allows ↦ inl (is_allowed-Begins allowed (clean m.source) allows, if_true _ _ _ allows)
  | inr refuses ↦ inr (
    (λ b. absurd (ground (arith, refuses, Begins-is_allowed allowed (clean m.source) b))),
    if_false _ _ _ refuses,
  )
]
