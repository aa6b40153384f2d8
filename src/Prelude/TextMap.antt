-- ===== src/Prelude/TextMap.antt =====
-- Go's maps with text keys, as lists of pairs: lookup, assignment, delete.
use feathers.Prelude.{
  ◌≡◌, refl, ap, sym, ◌∙◌, Bool, true, false, Option, none, some, inl, inr, List, [], ◌∷◌,
  Bool-cases, if◌then◌else◌,
}
use feathers.Prelude.Text.{Text, text_eq, text_eq_sound, text_eq_refl}

pub text_ne_other : (i j k : Text) → text_eq i k ≡ true → text_eq i j ≡ false → text_eq j k ≡ false
text_ne_other i j k here other = elim (Bool-cases (text_eq j k)) [
  | inl same ↦
      let to_j : i ≡ j = text_eq_sound i k here ∙ sym (text_eq_sound j k same) in
      let yes : text_eq i j ≡ true = ap (λ x. text_eq i x) (sym to_j) ∙ text_eq_refl i in
      let no : true ≡ false = sym yes ∙ other in absurd (cc)
  | inr differs ↦ differs
]

module _ {ℓ} {A : Type ℓ} where
  unfoldable pub find_key : Text → List (Text × A) → Option A
  find_key k [] = none
  find_key k ((j, a) ∷ rest) = let found = find_key k rest in if text_eq j k then some a else found

  unfoldable pub delete_key : Text → List (Text × A) → List (Text × A)
  delete_key k [] = []
  delete_key k ((j, a) ∷ rest) =
      let others = delete_key k rest in if text_eq j k then others else (j, a) ∷ others

  unfoldable pub set_key : Text → A → List (Text × A) → List (Text × A)
  unfolding delete_key
  set_key k a m = (k, a) ∷ delete_key k m

  either :
      (b : Bool) (x y z : Option A) → (if b then x else y) ≡ (if b then x else if b then z else y)
  either true x y z = refl
  either false x y z = refl

  pub find_key-delete_key :
      (k j : Text) (m : List (Text × A))
      → find_key k (delete_key j m) ≡ (if text_eq j k then none else find_key k m)
  unfolding find_key delete_key
  find_key-delete_key k j [] = elim (Bool-cases (text_eq j k)) [
    | inl same ↦ rw same refl
    | inr other ↦ rw other refl
  ]
  find_key-delete_key k j ((i, a) ∷ rest) = elim (Bool-cases (text_eq i j)) [
    | inl gone ↦
        rw (gone, text_eq_sound i j gone, find_key-delete_key k j rest)
          (either (text_eq j k) none (find_key k rest) (some a))
    | inr stays ↦ elim (Bool-cases (text_eq i k)) [
      | inl here ↦ rw (stays, text_ne_other i j k here stays, here) refl
      | inr there ↦ rw (stays, there) (find_key-delete_key k j rest)
    ]
  ]

  pub find_key-set_key :
      (k j : Text) (a : A) (m : List (Text × A))
      → find_key k (set_key j a m) ≡ (if text_eq j k then some a else find_key k m)
  unfolding set_key find_key
  find_key-set_key k j a m = elim (Bool-cases (text_eq j k)) [
    | inl same ↦ rw same refl
    | inr other ↦ rw other (find_key-delete_key k j m ∙ rw other refl)
  ]
