-- ===== src/Tokens/Permissions.antt =====
-- Which permissions a websocket token of router/tokens/websocket.go gives.
use feathers.Prelude.{◌≡◌, ◌↔◌, ◌⊎◌, inl, inr, refl, true, false, List, [], ◌∷◌, arith}
use feathers.Prelude.Text.{Text, codes, text_eq_refl, text_eq_sound, has_prefix}
use feathers.Tokens.{WebsocketPayload, Denials, denylisted, grants, has_permission}

abbrev pub Holds : List Text → Text → Type 0
Holds [] t = ⊥
Holds (k ∷ ks) t = (k ≡ t) ⊎ Holds ks t

-- The permission itself is in the list, or it is no admin permission and the list has the wildcard.
abbrev pub Granted : Text → List Text → Type 0
Granted permission ks =
    Holds ks permission ⊎ (has_prefix permission (codes "admin") ≡ false) × Holds ks (codes "*")

grants-Granted :
    (permission : Text) (ks : List Text) → grants permission ks ≡ true → Granted permission ks
unfolding grants
grants-Granted permission [] h = cc
grants-Granted permission (k ∷ ks) h =
    ground
      (arith, text_eq_sound k permission, text_eq_sound k (codes "*"), grants-Granted permission ks)

Granted-grants :
    (permission : Text) (ks : List Text) → Granted permission ks → grants permission ks ≡ true
unfolding grants
Granted-grants permission [] (inl h) = absurd h
Granted-grants permission [] (inr h) = absurd h.1
Granted-grants permission (k ∷ ks) (inl (inl e)) = rw e (ground (arith, text_eq_refl permission))
Granted-grants permission (k ∷ ks) (inl (inr h)) =
    ground (arith, Granted-grants permission ks (inl h))
Granted-grants permission (k ∷ ks) (inr (plain, inl e)) =
    rw (e, plain) (ground (arith, text_eq_refl (codes "*")))
Granted-grants permission (k ∷ ks) (inr (plain, inr h)) =
    ground (arith, Granted-grants permission ks (inr (plain, h)))

-- A token has a permission exactly when it is not revoked and grants it; the wildcard grants every
-- permission but those that begin with "admin".
pub has_permission-Granted :
    (d : Denials) (permission : Text) (p : WebsocketPayload)
    → has_permission d permission p ≡ true
      ↔ (denylisted d p ≡ false) × Granted permission p.permissions
unfolding has_permission
has_permission-Granted d permission p = (
  (λ h. (ground arith, grants-Granted permission p.permissions (ground arith))),
  (λ h. rw (Granted-grants permission p.permissions h.1, h.0) refl),
)
