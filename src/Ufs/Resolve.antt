-- ===== src/Ufs/Resolve.antt =====
-- The names that `unsafePath` of fs_unix.go gives.
use mathlib.Core.List.{append-nil, append_assoc}
use feathers.Prelude.{
  ◌≡◌, ◌≢◌, refl, ap, ap₂, sym, ◌∙◌, subst, ◌⊎◌, inl, inr, Bool, true, false, List, [], ◌∷◌, ◌++◌,
  reverse, arith, Bool-cases, ◌==◌, if◌then◌else◌, drop, length,
}
use feathers.Prelude.Text.{
  Text, text_eq, codes, split, has_prefix, has_prefix_sound, trim_prefix, trim_suffix, split_at,
  split-AllWithout, split-some,
}
use feathers.Prelude.Filepath.{join, clean_parts, clean, join_two}
use feathers.Ufs.{
  UnixFs, Failure, path_error, bad_path_resolution, is_path_inside_of_base, or_dot, relative,
  unsafe_path,
}
use feathers.Ufs.Parts.{
  slash, AllProper, AllProper-tail, AllProper-reverse, clean_parts-Proper, split-join,
}

-- A path of a file below a directory, in proper parts, or the directory itself.
abbrev pub Confined : Text → Type 0
Confined name = (name ≡ codes ".") ⊎ AllProper (split slash name)

clean-rooted :
    (t : Text)
    → has_prefix t (codes "/") ≡ true
    → (ps : List Text) × AllProper ps × (clean t ≡ slash ∷ join (codes "/") ps)
unfolding clean
clean-rooted t rooted =
    let ps : List Text = reverse (clean_parts true [] (split slash t)) in
    (
      ps,
      AllProper-reverse (clean_parts true [] (split slash t))
          (clean_parts-Proper [] (split slash t) tt (split-AllWithout slash t)),
      rw rooted refl,
    )

-- The path that `unsafePath` looks at.
resolved-rooted :
    (base x : Text)
    → has_prefix base (codes "/") ≡ true
    → (ps : List Text) × AllProper ps × (clean (join_two base x) ≡ slash ∷ join (codes "/") ps)
unfolding join_two has_prefix
resolved-rooted [] x h = absurd (cc)
resolved-rooted (c ∷ cs) x h =
    let first : has_prefix (c ∷ cs ++ (codes "/" ++ x)) (codes "/") ≡ true = h in
    let (ps, proper, e) = clean-rooted (c ∷ cs ++ (codes "/" ++ x)) first in
    rw e (clean-rooted (slash ∷ join (codes "/") ps) refl)

pub has_prefix-append : (p u : Text) → has_prefix (p ++ u) p ≡ true
unfolding has_prefix
has_prefix-append [] u = refl
has_prefix-append (c ∷ p) u = ground (arith, has_prefix-append p u)

drop-append : (p u : Text) → drop (length p) (p ++ u) ≡ u
drop-append [] u = refl
drop-append (c ∷ p) u = drop-append p u

pub trim_prefix-append : (p u : Text) → trim_prefix (p ++ u) p ≡ u
unfolding trim_prefix
trim_prefix-append p u = rw (has_prefix-append p u) (drop-append p u)

trim_prefix_self : (p : Text) → trim_prefix p p ≡ []
trim_prefix_self p = ap (λ t. trim_prefix t p) (sym (append-nil p)) ∙ trim_prefix-append p []

-- What the root itself is called.
root_dot : (base : Text) → trim_prefix (trim_prefix (codes "/") base) (codes "/") ≡ []
unfolding trim_prefix has_prefix
root_dot [] = refl
root_dot (b ∷ []) = ground arith
root_dot (b ∷ c ∷ cs) = ground arith

-- Where a text with a slash behind it starts like the base with a slash behind it.
cut_base :
    (base r rest : Text)
    → r ++ slash ∷ [] ≡ base ++ slash ∷ rest
    → (r ≡ base) ⊎ ((u : Text) × (r ≡ base ++ slash ∷ u))
cut_base [] [] rest e = inl refl
cut_base [] (c ∷ cs) rest e = let head : c ≡ slash = cc in inr (cs, ap (λ a. a ∷ cs) head)
cut_base (b ∷ []) [] rest e = absurd (cc)
cut_base (b ∷ d ∷ bs) [] rest e = absurd (cc)
cut_base (b ∷ bs) (c ∷ cs) rest e =
    let head : c ≡ b = cc in
    elim (cut_base bs cs rest (cc)) [
      | inl same ↦ inl (ap₂ (λ a l. a ∷ l) head same)
      | inr (u, is) ↦ inr (u, ap₂ (λ a l. a ∷ l) head is)
    ]

below_base :
    (base r : Text) (ps : List Text)
    → AllProper ps
    → split slash r ≡ [] ∷ ps
    → (r ≡ base) ⊎ ((u : Text) × (r ≡ base ++ slash ∷ u))
    → Confined (or_dot (trim_prefix (trim_prefix r base) (codes "/")))
unfolding or_dot trim_prefix has_prefix
below_base base r ps proper e (inl same) = inl (rw (same, trim_prefix_self base) refl)
below_base base r ps proper e (inr ([], is)) =
    inl (rw (is, trim_prefix-append base (slash ∷ [])) refl)
below_base base r ps proper e (inr (c ∷ cs, is)) =
    let (s, ss, some_base) = split-some slash base in
    let parts : [] ∷ ps ≡ (s ∷ ss) ++ split slash (c ∷ cs) =
      sym e
      ∙ ap (split slash) is
      ∙ split_at slash base (c ∷ cs)
      ∙ ap (λ l. l ++ split slash (c ∷ cs)) some_base in
    let tail : ps ≡ ss ++ split slash (c ∷ cs) = cc in
    inr (
      rw (is, trim_prefix-append base (slash ∷ c ∷ cs))
        (AllProper-tail ss (split slash (c ∷ cs)) (subst AllProper tail proper)))

pub trim_suffix-cases :
    (r : Text) → (trim_suffix slash r ≡ r) ⊎ (r ≡ trim_suffix slash r ++ slash ∷ [])
unfolding trim_suffix
trim_suffix-cases [] = inl refl
trim_suffix-cases (c ∷ []) = elim (Bool-cases (c == slash)) [
  | inl same ↦ inr (rw same (ap (λ a. a ∷ []) (ground (arith, same))))
  | inr other ↦ inl (rw other refl)
]
trim_suffix-cases (c ∷ d ∷ rest) = elim (trim_suffix-cases (d ∷ rest)) [
  | inl e ↦ inl (ap (λ l. c ∷ l) e)
  | inr e ↦ inr (ap (λ l. c ∷ l) e)
]

empty_improper : AllProper (split slash []) → ⊥
unfolding split text_eq
empty_improper h = let no : true ≡ false = h.0.some_text in absurd (ground (arith, no))

pub no_slash_at_end :
    (v w : Text) (ws : List Text) → AllProper (w ∷ ws) → split slash (v ++ slash ∷ []) ≢ [] ∷ w ∷ ws
no_slash_at_end v w ws proper e =
    let (s, ss, some_v) = split-some slash v in
    let parts : [] ∷ w ∷ ws ≡ (s ∷ ss) ++ split slash [] =
      sym e ∙ split_at slash v [] ∙ ap (λ l. l ++ split slash []) some_v in
    let tail : w ∷ ws ≡ ss ++ split slash [] = cc in
    absurd (empty_improper (AllProper-tail ss (split slash []) (subst AllProper tail proper)))

inside_parts :
    (fs : UnixFs) (ps : List Text)
    → AllProper ps
    → is_path_inside_of_base fs (slash ∷ join (codes "/") ps) ≡ true
    → Confined
        (or_dot (trim_prefix (trim_prefix (slash ∷ join (codes "/") ps) fs.base_path) (codes "/")))
unfolding is_path_inside_of_base or_dot join split
inside_parts fs [] proper inside = inl (ap or_dot (root_dot fs.base_path))
inside_parts fs (w ∷ ws) proper inside =
    let r : Text = slash ∷ join (codes "/") (w ∷ ws) in
    let parts : split slash r ≡ [] ∷ w ∷ ws =
      split_at slash [] (join (codes "/") (w ∷ ws)) ∙ ap (λ l. [] ∷ l) (split-join w ws proper) in
    elim (trim_suffix-cases r) [
      | inl whole ↦
          let starts : has_prefix (r ++ codes "/") (fs.base_path ++ codes "/") ≡ true =
            subst (λ t. has_prefix (t ++ codes "/") (fs.base_path ++ codes "/") ≡ true) whole
              inside in
          below_base fs.base_path r (w ∷ ws) proper parts (
            cut_base fs.base_path r (drop (length (fs.base_path ++ codes "/")) (r ++ codes "/")) (
              has_prefix_sound (r ++ codes "/") (fs.base_path ++ codes "/") starts
              ∙ append_assoc fs.base_path (codes "/")
                  (drop (length (fs.base_path ++ codes "/")) (r ++ codes "/"))))
      | inr slashed ↦ absurd (
          no_slash_at_end (trim_suffix slash r) w ws proper
            (ap (split slash) (sym slashed) ∙ parts))
    ]

if_inside :
    (inside : Bool) (f : Failure) (n name : Text)
    → (inside ≡ true → Confined n)
    → (if inside then inr n else inl f) ≡ inr name
    → Confined name
if_inside true f n name h e = let same : n ≡ name = cc in subst Confined same (h refl)
if_inside false f n name h e = absurd (cc)

-- A path below a rooted base path is resolved to the dot, for the base itself, or to a path of which no
-- part is empty, a dot or two dots.
pub unsafe_path-Confined :
    (fs : UnixFs) (path name : Text)
    → has_prefix fs.base_path (codes "/") ≡ true
    → unsafe_path fs path ≡ inr name
    → Confined name
unfolding unsafe_path relative
unsafe_path-Confined fs path name rooted e =
    let (ps, proper, is) = resolved-rooted fs.base_path (trim_prefix path fs.base_path) rooted in
    if_inside
      (is_path_inside_of_base fs (clean (join_two fs.base_path (trim_prefix path fs.base_path))))
      (path_error path bad_path_resolution)
      (or_dot (
        trim_prefix
          (trim_prefix (clean (join_two fs.base_path (trim_prefix path fs.base_path))) fs.base_path)
          (codes "/")))
      name (rw is (inside_parts fs ps proper)) e
