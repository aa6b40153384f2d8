-- ===== src/Ufs/Parts.antt =====
-- The parts of paths: what splitting, cleaning and joining make of them.
use mathlib.Core.List.{reverse-cons}
use feathers.Prelude.{
  ℕ, ◌≡◌, refl, sym, ◌∙◌, subst, inl, inr, true, false, List, [], ◌∷◌, ◌++◌, reverse, Bool-cases,
}
use feathers.Prelude.Text.{Text, codes, text_eq, split, Without, AllWithout, split_at, split_plain}
use feathers.Prelude.Filepath.{join, go_up, clean_parts}

abbrev pub slash : ℕ
slash = b'/'

-- A name of a file in its directory: not empty, not a dot, not two dots, and without a slash.
pub record Proper (w : Text) : Type 0 where
  pub some_text : text_eq w [] ≡ false
  pub no_dot : text_eq w (codes ".") ≡ false
  pub no_dots : text_eq w (codes "..") ≡ false
  pub no_slash : Without slash w

abbrev pub AllProper : List Text → Type 0
AllProper [] = Unit {0}
AllProper (w ∷ ws) = Proper w × AllProper ws

pub AllProper-append : (a b : List Text) → AllProper a → AllProper b → AllProper (a ++ b)
AllProper-append [] b ha hb = hb
AllProper-append (w ∷ ws) b ha hb = (ha.0, AllProper-append ws b ha.1 hb)

pub AllProper-tail : (a b : List Text) → AllProper (a ++ b) → AllProper b
AllProper-tail [] b h = h
AllProper-tail (w ∷ ws) b h = AllProper-tail ws b h.1

pub AllProper-head : (a b : List Text) → AllProper (a ++ b) → AllProper a
AllProper-head [] b h = tt
AllProper-head (w ∷ ws) b h = (h.0, AllProper-head ws b h.1)

pub AllProper-reverse : (a : List Text) → AllProper a → AllProper (reverse a)
AllProper-reverse [] h = tt
AllProper-reverse (w ∷ ws) h =
    subst AllProper (sym (reverse-cons w ws))
      (AllProper-append (reverse ws) (w ∷ []) (AllProper-reverse ws h.1) (h.0, tt))

go_up-Proper : (acc : List Text) → AllProper acc → AllProper (go_up true acc)
unfolding go_up
go_up-Proper [] h = tt
go_up-Proper (w ∷ ws) h = rw h.0.no_dots h.1

-- Cleaning a rooted path leaves proper parts.
pub clean_parts-Proper :
    (acc ws : List Text) → AllProper acc → AllWithout slash ws → AllProper (clean_parts true acc ws)
unfolding clean_parts
clean_parts-Proper acc [] ha hw = ha
clean_parts-Proper acc (w ∷ ws) ha hw = elim (Bool-cases (text_eq w [])) [
  | inl empty ↦ rw empty (clean_parts-Proper acc ws ha hw.1)
  | inr filled ↦ elim (Bool-cases (text_eq w (codes "."))) [
    | inl dot ↦ rw (filled, dot) (clean_parts-Proper acc ws ha hw.1)
    | inr plain ↦ elim (Bool-cases (text_eq w (codes ".."))) [
      | inl dots ↦
          rw (filled, plain, dots)
            (clean_parts-Proper (go_up true acc) ws (go_up-Proper acc ha) hw.1)
      | inr name ↦
          let p : Proper w = record {
            some_text = filled;
            no_dot = plain;
            no_dots = name;
            no_slash = hw.0;
          } in
          rw (filled, plain, name) (clean_parts-Proper (w ∷ acc) ws (p, ha) hw.1)
    ]
  ]
]

-- The parts of a rooted path that is put together.
pub split-join :
    (w : Text) (ws : List Text)
    → AllProper (w ∷ ws)
    → split slash (join (codes "/") (w ∷ ws)) ≡ w ∷ ws
unfolding join
split-join w [] h = split_plain slash w h.0.no_slash
split-join w (v ∷ vs) h =
    split_at slash w (join (codes "/") (v ∷ vs))
    ∙ rw (split_plain slash w h.0.no_slash, split-join v vs h.1) refl
