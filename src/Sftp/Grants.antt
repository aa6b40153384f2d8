-- ===== src/Sftp/Grants.antt =====
-- The permissions of a user over SFTP: joined into one text at the login of sftp/server.go, and split again
-- by `NewHandler` of sftp/handler.go.
use feathers.Prelude.{
  ℕ, ◌≡◌, ◌≢◌, refl, sym, ap, ◌∙◌, inl, inr, Bool, List, [], ◌∷◌, ◌++◌, arith, Bool-cases, ◌==◌,
}
use feathers.Prelude.Text.{Text, text_eq, text_eq_ne, split, Without}
use feathers.Prelude.Filepath.{join}
use feathers.Sftp.{granted, extension, new_handler, ServerStatus}

-- No text has the character.
abbrev pub NoneWith : ℕ → List Text → Type 0
NoneWith c [] = Unit {0}
NoneWith c (w ∷ ws) = Without c w × NoneWith c ws

split_whole : (c : ℕ) (w : Text) → Without c w → split c w ≡ w ∷ []
unfolding split
split_whole c [] free = refl
split_whole c (d ∷ w) (other, free) = elim (Bool-cases (d == c)) [
  | inl same ↦ absurd (ground (arith, other))
  | inr differs ↦ rw (differs, split_whole c w free) refl
]

split_first : (c : ℕ) (w rest : Text) → Without c w → split c (w ++ c ∷ rest) ≡ w ∷ split c rest
unfolding split
split_first c [] rest free = ground arith
split_first c (d ∷ w) rest (other, free) = elim (Bool-cases (d == c)) [
  | inl same ↦ absurd (ground (arith, other))
  | inr differs ↦ rw (differs, split_first c w rest free) refl
]

split-join :
    (c : ℕ) (w : Text) (ws : List Text)
    → NoneWith c (w ∷ ws)
    → split c (join (c ∷ []) (w ∷ ws)) ≡ w ∷ ws
unfolding join
split-join c w [] (free, more) = split_whole c w free
split-join c w (v ∷ ws) (free, more) =
    split_first c w (join (c ∷ []) (v ∷ ws)) free ∙ ap (λ l. w ∷ l) (split-join c v ws more)

-- A handler gives a permission exactly if the panel's answer at the login holds it, or the wildcard: the text
-- between the two changes nothing, where no permission holds a comma.
pub login_grants :
    {S : Type 0} (answer : List Text) (permission : Text) (ro : Bool) (st : ServerStatus) (s : S)
    → NoneWith b',' answer
    → permission ≢ []
    → granted (new_handler (extension answer) ro st s).permissions permission
      ≡ granted answer permission
unfolding new_handler extension granted text_eq
login_grants [] permission ro st s free named =
    rw (text_eq_ne [] permission (λ e. named (sym e))) refl
login_grants (w ∷ ws) permission ro st s free named =
    ap (λ ps. granted ps permission) (split-join b',' w ws free)
