-- ===== src/Ufs/Kept.antt =====
-- `unsafePath` of fs_unix.go on paths of proper parts, relative or below the base path.
use mathlib.Core.List.{append-nil, append_assoc, reverse-cons, reverse-append, reverse-reverse}
use feathers.Prelude.{
  ap₂, ◌||◌, ℕ, ◌≡◌, refl, ap, sym, ◌∙◌, ◌⊎◌, inl, inr, Bool, true, false, List, [], ◌∷◌, ◌++◌,
  reverse, arith, ◌==◌, if◌then◌else◌,
}
use feathers.Prelude.Text.{
  Text, text_eq, codes, split, has_prefix, trim_prefix, trim_suffix, split_at,
}
use feathers.Prelude.Filepath.{join, go_up, clean_parts, clean, join_two}
use feathers.Ufs.{
  UnixFs, is_path_inside_of_base, Failure, path_error, bad_path_resolution, or_dot, relative,
  unsafe_path,
}
use feathers.Ufs.Parts.{slash, Proper, AllProper, AllProper-append, split-join}
use feathers.Ufs.Resolve.{has_prefix-append, trim_prefix-append, trim_suffix-cases, no_slash_at_end}

clean_parts-proper :
    (acc ws : List Text) → AllProper ws → clean_parts true acc ws ≡ reverse ws ++ acc
unfolding clean_parts
clean_parts-proper acc [] h = refl
clean_parts-proper acc (w ∷ ws) h =
    rw (h.0.some_text, h.0.no_dot, h.0.no_dots)
      (clean_parts-proper (w ∷ acc) ws h.1
        ∙ sym (append_assoc (reverse ws) (w ∷ []) acc)
        ∙ ap (λ l. l ++ acc) (sym (reverse-cons w ws)))

clean_parts-append :
    (acc a b : List Text)
    → clean_parts true acc (a ++ b) ≡ clean_parts true (clean_parts true acc a) b
unfolding clean_parts
clean_parts-append acc [] b = refl
clean_parts-append acc (w ∷ ws) b =
    clean_parts-append
      (if text_eq w [] || text_eq w (codes ".")
        then acc
        else if text_eq w (codes "..")
        then go_up true acc
        else w ∷ acc)
      ws b

skip_empty : (acc ws : List Text) → clean_parts true acc ([] ∷ ws) ≡ clean_parts true acc ws
unfolding clean_parts text_eq
skip_empty acc ws = refl

-- What cleaning makes of proper parts, behind the empty part of the root.
clean_one : (a : List Text) → AllProper a → reverse (clean_parts true [] ([] ∷ a)) ≡ a
clean_one a ha =
    rw (skip_empty [] a, clean_parts-proper [] a ha, append-nil (reverse a)) (reverse-reverse a)

-- The same with an empty part in between.
clean_both :
    (a b : List Text)
    → AllProper a
    → AllProper b
    → reverse (clean_parts true [] ([] ∷ (a ++ [] ∷ b))) ≡ a ++ b
clean_both a b ha hb =
    rw
      (
        skip_empty [] (a ++ [] ∷ b),
        clean_parts-append [] a ([] ∷ b),
        clean_parts-proper [] a ha,
        append-nil (reverse a),
        skip_empty (reverse a) b,
        clean_parts-proper (reverse a) b hb,
        reverse-append (reverse b) (reverse a),
      )
      (ap₂ (λ x y. x ++ y) (reverse-reverse a) (reverse-reverse b))

join-append :
    (a : Text) (more : List Text) (b : Text) (bs : List Text)
    → join (codes "/") (a ∷ more ++ b ∷ bs)
      ≡ join (codes "/") (a ∷ more) ++ slash ∷ join (codes "/") (b ∷ bs)
unfolding join
join-append a [] b bs = refl
join-append a (x ∷ more) b bs =
    rw (join-append x more b bs) (
      sym
        (append_assoc a (slash ∷ join (codes "/") (x ∷ more)) (slash ∷ join (codes "/") (b ∷ bs))))

-- A clean path of proper parts, from the root.
abbrev pub rooted_path : List Text → Text
rooted_path ws = slash ∷ join (codes "/") ws

split-rooted_path :
    (w : Text) (ws : List Text)
    → AllProper (w ∷ ws)
    → split slash (rooted_path (w ∷ ws)) ≡ [] ∷ w ∷ ws
unfolding split
split-rooted_path w ws h =
    split_at slash [] (join (codes "/") (w ∷ ws)) ∙ ap (λ l. [] ∷ l) (split-join w ws h)

-- Cleaning a rooted path by its parts.
clean-parts :
    (t : Text) (ps ws : List Text)
    → has_prefix t (codes "/") ≡ true
    → split slash t ≡ ps
    → reverse (clean_parts true [] ps) ≡ ws
    → clean t ≡ rooted_path ws
unfolding clean
clean-parts t ps ws rooted e is = rw (rooted, e, is) refl

-- The first character of a relative path is no slash.
first_plain :
    (p : Text) (ps : List Text)
    → Proper p
    → (c : ℕ) × (rest : Text) × (join (codes "/") (p ∷ ps) ≡ c ∷ rest) × (c == slash ≡ false)
unfolding join text_eq
first_plain [] ps h = let no : true ≡ false = h.some_text in absurd (ground (arith, no))
first_plain (c ∷ cs) [] h = (c, cs, refl, ground (arith, h.no_slash))
first_plain (c ∷ cs) (q ∷ qs) h =
    (c, cs ++ (slash ∷ join (codes "/") (q ∷ qs)), refl, ground (arith, h.no_slash))

not_rooted :
    (p : Text) (ps : List Text) (base : Text)
    → Proper p
    → trim_prefix (join (codes "/") (p ∷ ps)) (slash ∷ base) ≡ join (codes "/") (p ∷ ps)
unfolding trim_prefix has_prefix
not_rooted p ps base h = let (c, rest, e, plain) = first_plain p ps h in rw (e, plain) refl

some_path :
    (p : Text) (ps : List Text)
    → Proper p
    → or_dot (join (codes "/") (p ∷ ps)) ≡ join (codes "/") (p ∷ ps)
unfolding or_dot
some_path p ps h = let (c, rest, e, plain) = first_plain p ps h in rw e refl

no_suffix :
    (w : Text) (ws : List Text)
    → AllProper (w ∷ ws)
    → trim_suffix slash (rooted_path (w ∷ ws)) ≡ rooted_path (w ∷ ws)
no_suffix w ws h = elim (trim_suffix-cases (rooted_path (w ∷ ws))) [
  | inl same ↦ same
  | inr slashed ↦ absurd (
      no_slash_at_end (trim_suffix slash (rooted_path (w ∷ ws))) w ws h
        (ap (split slash) (sym slashed) ∙ split-rooted_path w ws h))
]

module _ (b : Text) (bs : List Text) (p : Text) (ps : List Text) (hb : AllProper (b ∷ bs))
    (hp : AllProper (p ∷ ps)) (use_openat2 : Bool) where
  abbrev base : Text
  base = rooted_path (b ∷ bs)

  abbrev path : Text
  path = join (codes "/") (p ∷ ps)

  abbrev whole : Text
  whole = rooted_path (b ∷ bs ++ p ∷ ps)

  abbrev sandbox : UnixFs
  sandbox = record { base_path = base; use_openat2 = use_openat2 }

  both : AllProper (b ∷ bs ++ p ∷ ps)
  both = AllProper-append (b ∷ bs) (p ∷ ps) hb hp

  whole-is : whole ≡ base ++ slash ∷ path
  whole-is = ap (λ t. slash ∷ t) (join-append b bs p ps)

  clean-whole : clean whole ≡ whole
  unfolding has_prefix
  clean-whole =
      clean-parts whole ([] ∷ b ∷ bs ++ p ∷ ps) (b ∷ bs ++ p ∷ ps) refl
        (split-rooted_path b (bs ++ p ∷ ps) both) (clean_one (b ∷ bs ++ p ∷ ps) both)

  join-relative : join_two base path ≡ whole
  unfolding join_two
  join-relative = ap clean (sym whole-is) ∙ clean-whole

  join-absolute : join_two base (slash ∷ path) ≡ whole
  unfolding join_two has_prefix
  join-absolute =
      clean-parts (base ++ slash ∷ slash ∷ path) ([] ∷ (b ∷ bs ++ [] ∷ p ∷ ps)) (b ∷ bs ++ p ∷ ps)
        refl
        (split_at slash base (slash ∷ path)
          ∙ ap₂ (λ x y. x ++ y) (split-rooted_path b bs hb) (split-rooted_path p ps hp))
        (clean_both (b ∷ bs) (p ∷ ps) hb hp)

  whole-inside : is_path_inside_of_base sandbox whole ≡ true
  unfolding is_path_inside_of_base
  whole-inside =
      ap (λ t. has_prefix (t ++ codes "/") (base ++ codes "/"))
        (no_suffix b (bs ++ p ∷ ps) both ∙ whole-is)
      ∙ ap (λ t. has_prefix t (base ++ codes "/"))
          (append_assoc base (slash ∷ path) (codes "/")
            ∙ sym (append_assoc base (codes "/") (path ++ codes "/")))
      ∙ has_prefix-append (base ++ codes "/") (path ++ codes "/")

  rest-is : or_dot (trim_prefix (trim_prefix whole base) (codes "/")) ≡ path
  rest-is =
      ap (λ t. or_dot (trim_prefix (trim_prefix t base) (codes "/"))) whole-is
      ∙ ap (λ t. or_dot (trim_prefix t (codes "/"))) (trim_prefix-append base (slash ∷ path))
      ∙ ap or_dot (trim_prefix-append (codes "/") path)
      ∙ some_path p ps hp.0

  -- What becomes of the whole path, whatever was asked.
  whole-relative : (asked : Text) → relative sandbox asked whole ≡ inr path
  unfolding relative
  whole-relative asked = ap₂ (λ inside name. pick asked inside name) whole-inside rest-is
    where
      pick : Text → Bool → Text → Failure ⊎ Text
      pick asked inside name =
          if inside then inr name else inl (path_error asked bad_path_resolution)

  given :
      (x asked : Text)
      → trim_prefix asked base ≡ x
      → join_two base x ≡ whole
      → unsafe_path sandbox asked ≡ inr path
  unfolding unsafe_path
  given x asked e is =
      ap (λ y. relative sandbox asked (clean (join_two base y))) e
      ∙ ap (λ y. relative sandbox asked (clean y)) is
      ∙ ap (λ y. relative sandbox asked y) clean-whole
      ∙ whole-relative asked

  -- In a clean base path below the root, a path whose parts are neither empty nor dots nor two dots is
  -- resolved to itself, and so is the absolute path that it has below the base.
  pub unsafe_path_kept :
      (unsafe_path (record { base_path = base; use_openat2 = use_openat2 }) path ≡ inr path)
      × (unsafe_path (record { base_path = base; use_openat2 = use_openat2 }) (base ++ slash ∷ path)
          ≡ inr path)
  unsafe_path_kept = (
    given path path (not_rooted p ps (join (codes "/") (b ∷ bs)) hp.0) join-relative,
    given (slash ∷ path) (base ++ slash ∷ path) (trim_prefix-append base (slash ∷ path))
        join-absolute,
  )
