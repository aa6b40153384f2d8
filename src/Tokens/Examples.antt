-- ===== src/Tokens/Examples.antt =====
-- A token cache and tokens, and the theorems at them.
use feathers.Prelude.{
  ℕ, ◌+◌, ◌≤◌, ◌<◌, ◌≡◌, ◌≢◌, ◌⊎◌, refl, true, false, some, [], ◌∷◌, arith, ltb, if◌then◌else◌,
}
use feathers.Prelude.Text.{Text, codes, text_eq, text_eq_refl, text_eq_ne, has_prefix}
use feathers.Tokens.{
  Cache, is_valid_token, WebsocketPayload, Denials, deny_for_server, denylisted, has_scope,
  has_permission,
}
use feathers.Tokens.OneTime.{after, is_valid_token_once}
use feathers.Tokens.Revocation.{deny_for_server_revokes}

-- Each key with the time at which its item ends.
abbrev Items : Type 0
Items = Text → ℕ

added : ℕ → Text → ℕ → Items → Items
added now k ttl c j =
    if text_eq k j
    then (if ltb now (c k) then c j else (if ltb (now + ttl) (c j) then c j else now + ttl))
    else c j

get_added :
    (now later ttl : ℕ) (k : Text) (c : Items)
    → ltb now (c k) ≡ false
    → now ≤ later
    → later < now + ttl
    → ltb later (added now k ttl c k) ≡ true
unfolding added
get_added now later ttl k c absent le lt = ground (arith, text_eq_refl k)

get_kept :
    (now later ttl : ℕ) (k j : Text) (c : Items)
    → ltb later (c j) ≡ true
    → ltb later (added now k ttl c j) ≡ true
unfolding added
get_kept now later ttl k j c h = ground arith

get_other :
    (now later ttl : ℕ) (k j : Text) (c : Items)
    → k ≢ j
    → ltb later (added now k ttl c j) ≡ ltb later (c j)
unfolding added
get_other now later ttl k j c ne = rw (text_eq_ne k j ne)

abbrev map_cache : Cache
map_cache = record {
  State = Items;
  get = λ now k c. ltb now (c k);
  add = added;
  get_added = get_added;
  get_kept = get_kept;
  get_other = get_other;
}

abbrev empty : Items
empty k = 0

is_valid_token_once_example :
    (is_valid_token map_cache 500
      (codes "t")
      (after map_cache ((7, codes "u") ∷ []) (is_valid_token map_cache 5 (codes "t") empty).0)).1
    ≡ false
unfolding is_valid_token
is_valid_token_once_example =
    is_valid_token_once map_cache 5 500 (codes "t") ((7, codes "u") ∷ []) empty refl (omega arith)
      (omega arith)

abbrev token : WebsocketPayload
token = record {
  issued_at = some 100;
  expires_at = some 900;
  jwt_id = codes "j";
  scope = codes "websocket";
  user_uuid = codes "u";
  server_uuid = codes "s";
  permissions = codes "websocket.connect" ∷ codes "*" ∷ [];
}

abbrev booted : Denials
booted = record { boot_time = 50; denylist = []; user_denylist = [] }

scoped : has_scope (codes "transfer websocket") (codes "websocket") ≡ true
unfolding has_scope text_eq
scoped = refl

no_admin : has_permission booted (codes "admin.websocket.install") token ≡ false
unfolding has_permission text_eq has_prefix
no_admin = refl

deny_for_server_revokes_example :
    let d = deny_for_server 120 (codes "s") (codes "u") booted in
    (codes "s" ≡ codes "s" → codes "u" ≡ codes "u" → 100 < 120 → denylisted d token ≡ true)
    × (120 ≤ 100 → denylisted booted token ≡ false → denylisted d token ≡ false)
    × ((codes "s" ≢ codes "s") ⊎ (codes "u" ≢ codes "u")
        → denylisted d token ≡ denylisted booted token)
deny_for_server_revokes_example =
    deny_for_server_revokes 120 100 (codes "s") (codes "u") booted token refl (omega arith)
      (omega arith)
