-- ===== src/Prelude/Filepath.antt =====
-- The standard library's strings.Join, and filepath.Clean, Join and Split, at Unix paths.
use feathers.Prelude.{
  ℕ, true, false, ◌==◌, ◌≡◌, refl, ap, ◌⊎◌, inl, inr, arith, Bool-cases, Bool, ◌||◌, List, [], ◌∷◌,
  ◌++◌, reverse, if◌then◌else◌,
}
use feathers.Prelude.Text.{Without, Text, codes, text_eq, has_prefix, split}

-- `strings.Join`
unfoldable pub join : Text → List Text → Text
join sep [] = []
join sep (w ∷ ws) = let rest = join sep ws in elim ws [ [] ↦ w | _ ∷ _ ↦ w ++ (sep ++ rest) ]

-- A part that goes up, after the parts so far, last first.
unfoldable pub go_up : Bool → List Text → List Text
go_up rooted [] = if rooted then [] else codes ".." ∷ []
go_up rooted (w ∷ ws) = if text_eq w (codes "..") then codes ".." ∷ w ∷ ws else ws

unfoldable pub clean_parts : Bool → List Text → List Text → List Text
unfolding go_up
clean_parts rooted acc [] = acc
clean_parts rooted acc (w ∷ ws) =
    let next =
      if text_eq w [] || text_eq w (codes ".")
      then acc
      else if text_eq w (codes "..")
      then go_up rooted acc
      else w ∷ acc in
    clean_parts rooted next ws

-- `filepath.Clean`
unfoldable pub clean : Text → Text
unfolding join clean_parts
clean path =
    let rooted = has_prefix path (codes "/") in
    let out = join (codes "/") (reverse (clean_parts rooted [] (split b'/' path))) in
    if rooted then codes "/" ++ out else if text_eq out [] then codes "." else out

-- `filepath.Join` of two elements: those that are empty are left out.
unfoldable pub join_two : Text → Text → Text
unfolding clean
join_two [] [] = []
join_two [] (d ∷ ds) = clean (d ∷ ds)
join_two (c ∷ cs) name = clean (c ∷ cs ++ (codes "/" ++ name))

place_front : ℕ → Text → Text → Text × Text
place_front c [] file = if c == b'/' then (c ∷ [], file) else ([], c ∷ file)
place_front c (d ∷ dir) file = (c ∷ d ∷ dir, file)

-- `filepath.Split`: the part up to the last slash, and what follows it.
unfoldable pub split_file : Text → Text × Text
unfolding place_front
split_file [] = ([], [])
split_file (c ∷ cs) = let rest = split_file cs in place_front c rest.0 rest.1

place_front-more :
    (c : ℕ) (d f : Text) → place_front c (d ++ b'/' ∷ []) f ≡ (c ∷ (d ++ b'/' ∷ []), f)
unfolding place_front
place_front-more c [] f = refl
place_front-more c (x ∷ d) f = refl

-- A path without a slash, or the part before its last slash, and the part behind it.
abbrev pub SplitOf : Text → Type 0
SplitOf t =
    ((split_file t ≡ ([], t)) × Without b'/' t)
    ⊎ ((d : Text) × (f : Text) × (split_file t ≡ (d ++ b'/' ∷ [], f))
        × (t ≡ d ++ b'/' ∷ f)
        × Without b'/' f)

place_front-slash : (c : ℕ) (f : Text) → c == b'/' ≡ true → place_front c [] f ≡ (b'/' ∷ [], f)
unfolding place_front
place_front-slash c f same = let is : c ≡ b'/' = ground (arith, same) in rw (same, is) refl

place_front-plain : (c : ℕ) (f : Text) → c == b'/' ≡ false → place_front c [] f ≡ ([], c ∷ f)
unfolding place_front
place_front-plain c f other = rw other refl

pub split_file-SplitOf : (t : Text) → SplitOf t
unfolding split_file
split_file-SplitOf [] = inl (refl, tt)
split_file-SplitOf (c ∷ cs) = elim (split_file-SplitOf cs) [
  | inl (e, free) ↦ elim (Bool-cases (c == b'/')) [
    | inl same ↦
        let is : c ≡ b'/' = ground (arith, same) in
        inr ([], cs, rw e (place_front-slash c cs same), ap (λ a. a ∷ cs) is, free)
    | inr other ↦ inl (rw e (place_front-plain c cs other), (ground (arith, other), free))
  ]
  | inr (d, f, e, whole, free) ↦
      inr (c ∷ d, f, rw e (place_front-more c d f), ap (λ l. c ∷ l) whole, free)
]
