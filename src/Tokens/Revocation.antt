-- ===== src/Tokens/Revocation.antt =====
-- What revokes a websocket token in router/tokens/websocket.go.
use feathers.Prelude.{
  ℕ, ◌≤◌, ◌<◌, ◌≡◌, ◌≢◌, refl, sym, ◌∙◌, ltb, ◌⊎◌, Bool, true, false, some, arith, if◌then◌else◌,
  inl, inr,
}
use feathers.Prelude.Text.{Text, text_eq, text_eq_refl, text_eq_ne, Without, join_injective}
use feathers.Tokens.{
  WebsocketPayload, Times, load, store, Denials, user_key, deny_for_server, before_denial,
  denylisted,
}

load-store :
    (k j : Text) (t : ℕ) (ts : Times)
    → load j (store k t ts) ≡ (if text_eq k j then some t else load j ts)
unfolding load store
load-store k j t ts = refl

user_key_ne :
    (s u s' u' : Text)
    → Without b':' s
    → Without b':' s'
    → (s' ≢ s) ⊎ (u' ≢ u)
    → text_eq (user_key s u) (user_key s' u') ≡ false
unfolding user_key
user_key_ne s u s' u' ws ws' ne = text_eq_ne _ _ (λ e.
    let (a, b) = join_injective b':' s u s' u' ws ws' e in
    elim ne [ inl x ↦ x (sym a) | inr y ↦ y (sym b) ])

denied_of_key :
    (now issued : ℕ) (s u : Text) (d : Denials) (p : WebsocketPayload) (same : Bool)
    → p.issued_at ≡ some issued
    → text_eq (user_key s u) (user_key p.server_uuid p.user_uuid) ≡ same
    → denylisted (deny_for_server now s u d) p ≡ (
        if ltb issued d.boot_time
        then true
        else if before_denial issued (load p.jwt_id d.denylist)
        then true
        else if same
        then ltb issued now
        else before_denial issued (load (user_key p.server_uuid p.user_uuid) d.user_denylist))
unfolding denylisted deny_for_server
denied_of_key now issued s u d p same e k = rw (e, k) (ground arith)

denied_before :
    (issued : ℕ) (d : Denials) (p : WebsocketPayload)
    → p.issued_at ≡ some issued
    → denylisted d p ≡ (
        if ltb issued d.boot_time
        then true
        else if before_denial issued (load p.jwt_id d.denylist)
        then true
        else before_denial issued (load (user_key p.server_uuid p.user_uuid) d.user_denylist))
unfolding denylisted
denied_before issued d p e = rw e

-- Denying a user on a server revokes every token of that user for that server that was issued before,
-- and none that was issued at that moment or later, unless it was revoked already. No token of another
-- user or for another server is touched: server identifiers hold no colon.
pub deny_for_server_revokes :
    (now issued : ℕ) (s u : Text) (d : Denials) (p : WebsocketPayload)
    → p.issued_at ≡ some issued
    → Without b':' s
    → Without b':' p.server_uuid
    → let after = deny_for_server now s u d in
      (p.server_uuid ≡ s → p.user_uuid ≡ u → issued < now → denylisted after p ≡ true)
      × (now ≤ issued → denylisted d p ≡ false → denylisted after p ≡ false)
      × ((p.server_uuid ≢ s) ⊎ (p.user_uuid ≢ u) → denylisted after p ≡ denylisted d p)
deny_for_server_revokes now issued s u d p e ws wp =
    let key = user_key p.server_uuid p.user_uuid in
    (
      (λ es eu late.
          let hit =
            denied_of_key now issued s u d p true e (rw (es, eu) (text_eq_refl (user_key s u))) in
          ground (arith, hit)),
      (λ early was.
          let now_denied = denied_of_key now issued s u d p (text_eq (user_key s u) key) e refl in
          ground (arith, now_denied, denied_before issued d p e)),
      (λ ne.
          denied_of_key now issued s u d p false e
            (user_key_ne s u p.server_uuid p.user_uuid ws wp ne)
          ∙ sym (denied_before issued d p e)),
    )
