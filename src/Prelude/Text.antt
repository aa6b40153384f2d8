-- ===== src/Prelude/Text.antt =====
-- Texts as lists of code points: comparison, prefixes, splitting.
use Prim.Native.Char.{code}
use Prim.Native.String.{String}
use feathers.Prelude.{
  ap, ℕ, ◌≡◌, ◌≢◌, refl, Bool, true, false, ◌&&◌, List, [], ◌∷◌, ◌++◌, arith, ◌==◌, if◌then◌else◌,
  inl, inr, Bool-cases, ap₂, drop, length,
}

abbrev pub Text : Type 0
Text = List ℕ

-- The code points of a literal.
abbrev pub codes : String → Text
codes String.[] = []
codes (String.◌∷◌ c s) = code c ∷ codes s

unfoldable pub text_eq : Text → Text → Bool
text_eq [] [] = true
text_eq [] (d ∷ ds) = false
text_eq (c ∷ cs) [] = false
text_eq (c ∷ cs) (d ∷ ds) = c == d && text_eq cs ds

pub text_eq_refl : (s : Text) → text_eq s s ≡ true
unfolding text_eq
text_eq_refl [] = refl
text_eq_refl (c ∷ cs) = ground (arith, text_eq_refl cs)

pub text_eq_sound : (s t : Text) → text_eq s t ≡ true → s ≡ t
unfolding text_eq
text_eq_sound [] [] h = refl
text_eq_sound [] (d ∷ ds) h = cc
text_eq_sound (c ∷ cs) [] h = cc
text_eq_sound (c ∷ cs) (d ∷ ds) h = ground (arith, text_eq_sound cs ds)

pub text_eq_ne : (s t : Text) → s ≢ t → text_eq s t ≡ false
text_eq_ne s t ne = elim (Bool-cases (text_eq s t)) [
  | inl same ↦ absurd (ne (text_eq_sound s t same))
  | inr differs ↦ differs
]

-- A text that is one text is none of the others.
pub text_eq_other : (s t u : Text) → text_eq s t ≡ true → text_eq t u ≡ false → text_eq s u ≡ false
text_eq_other s t u same differs = rw (text_eq_sound s t same) differs

-- `strings.HasPrefix`
unfoldable pub has_prefix : Text → Text → Bool
has_prefix cs [] = true
has_prefix [] (p ∷ ps) = false
has_prefix (c ∷ cs) (p ∷ ps) = c == p && has_prefix cs ps

-- What a text with a prefix is made of.
pub has_prefix_sound : (cs ps : Text) → has_prefix cs ps ≡ true → cs ≡ ps ++ drop (length ps) cs
unfolding has_prefix
has_prefix_sound cs [] h = refl
has_prefix_sound [] (p ∷ ps) h = cc
has_prefix_sound (c ∷ cs) (p ∷ ps) h =
    let same : c ≡ p = ground (arith, h) in
    let more : has_prefix cs ps ≡ true = ground (arith, h) in
    ap₂ (λ a l. a ∷ l) same (has_prefix_sound cs ps more)

push_front : ℕ → List Text → List Text
push_front c [] = (c ∷ []) ∷ []
push_front c (w ∷ ws) = (c ∷ w) ∷ ws

-- `strings.Split` at one character: the pieces between its occurrences, empty ones included.
unfoldable pub split : ℕ → Text → List Text
unfolding push_front
split sep [] = [] ∷ []
split sep (c ∷ cs) = let rest = split sep cs in if c == sep then [] ∷ rest else push_front c rest

-- A text without a character.
abbrev pub Without : ℕ → Text → Type 0
Without c [] = Unit {0}
Without c (d ∷ ds) = (d ≢ c) × Without c ds

-- Two joins at a separator are equal only part by part, if the first parts lack the separator.
pub join_injective :
    (sep : ℕ) (a b c d : Text)
    → Without sep a
    → Without sep c
    → a ++ sep ∷ b ≡ c ++ sep ∷ d
    → (a ≡ c) × (b ≡ d)
join_injective sep [] b [] d wa wc e = (refl, cc)
join_injective sep [] b (x ∷ c) d wa wc e = absurd (ground (arith, wc.0))
join_injective sep (x ∷ a) b [] d wa wc e = absurd (ground (arith, wa.0))
join_injective sep (x ∷ a) b (y ∷ c) d wa wc e =
    let (p, q) = join_injective sep a b c d wa.1 wc.1 (cc) in (ground arith, q)

-- `strings.TrimPrefix`
unfoldable pub trim_prefix : Text → Text → Text
unfolding has_prefix
trim_prefix t p = if has_prefix t p then drop (length p) t else t

-- `strings.TrimSuffix` of one character.
unfoldable pub trim_suffix : ℕ → Text → Text
trim_suffix end [] = []
trim_suffix end (c ∷ []) = if c == end then [] else c ∷ []
trim_suffix end (c ∷ d ∷ rest) = c ∷ trim_suffix end (d ∷ rest)

push_front-some :
    (c : ℕ) (ws : List Text) → (w : Text) × (vs : List Text) × (push_front c ws ≡ w ∷ vs)
unfolding push_front
push_front-some c [] = (c ∷ [], [], refl)
push_front-some c (w ∷ ws) = (c ∷ w, ws, refl)

-- There is always a piece.
pub split-some : (sep : ℕ) (t : Text) → (w : Text) × (ws : List Text) × (split sep t ≡ w ∷ ws)
unfolding split
split-some sep [] = ([], [], refl)
split-some sep (c ∷ cs) = elim (Bool-cases (c == sep)) [
  | inl same ↦ ([], split sep cs, rw same refl)
  | inr other ↦ let (w, vs, e) = push_front-some c (split sep cs) in (w, vs, rw other e)
]

push_front-append :
    (c : ℕ) (w : Text) (ws vs : List Text)
    → push_front c ((w ∷ ws) ++ vs) ≡ push_front c (w ∷ ws) ++ vs
unfolding push_front
push_front-append c w ws vs = refl

-- Splitting at one separator.
pub split_at : (sep : ℕ) (a b : Text) → split sep (a ++ sep ∷ b) ≡ split sep a ++ split sep b
unfolding split
split_at sep [] b = ground arith
split_at sep (c ∷ cs) b = elim (Bool-cases (c == sep)) [
  | inl same ↦ rw same (ap (λ l. [] ∷ l) (split_at sep cs b))
  | inr other ↦
      let (w, ws, e) = split-some sep cs in
      rw (other, split_at sep cs b, e) (push_front-append c w ws (split sep b))
]

-- A text without the separator is one piece.
pub split_plain : (sep : ℕ) (w : Text) → Without sep w → split sep w ≡ w ∷ []
unfolding split
split_plain sep [] free = refl
split_plain sep (c ∷ w) free = elim (Bool-cases (c == sep)) [
  | inl same ↦ absurd (ground (arith, free.0))
  | inr other ↦ rw (other, split_plain sep w free.1) refl
]

abbrev pub AllWithout : ℕ → List Text → Type 0
AllWithout c [] = Unit {0}
AllWithout c (w ∷ ws) = Without c w × AllWithout c ws

push_front-AllWithout :
    (sep c : ℕ) (ws : List Text) → c ≢ sep → AllWithout sep ws → AllWithout sep (push_front c ws)
unfolding push_front
push_front-AllWithout sep c [] ne h = ((ne, tt), tt)
push_front-AllWithout sep c (w ∷ ws) ne h = ((ne, h.0), h.1)

pub split-AllWithout : (sep : ℕ) (t : Text) → AllWithout sep (split sep t)
unfolding split
split-AllWithout sep [] = (tt, tt)
split-AllWithout sep (c ∷ cs) = elim (Bool-cases (c == sep)) [
  | inl same ↦ rw same (tt, split-AllWithout sep cs)
  | inr other ↦
      rw other (
        push_front-AllWithout sep c (split sep cs) (ground (arith, other))
          (split-AllWithout sep cs))
]
