-- ===== src/Tokens.antt =====
-- router/tokens: one-time tokens, and the claims of a websocket token with what revokes it.
-- Times are arguments, in nanoseconds. Texts are lists of code points.
pub mod OneTime
pub mod Revocation
pub mod Permissions
mod Examples
use feathers.Prelude.{
  ℕ, ◌+◌, ◌≤◌, ◌<◌, ◌≡◌, ◌≢◌, Bool, true, false, not, ◌&&◌, ◌||◌, Option, none, some, List, [], ◌∷◌,
  ◌++◌, ltb, if◌then◌else◌,
}
use feathers.Prelude.Text.{Text, codes, text_eq, has_prefix, split}

-- The cache that the token store keeps (`github.com/patrickmn/go-cache`), with the documented
-- behaviour that the store relies on: an item that was absent and is added for a while is found until
-- that while is over, an item that is found stays, and adding changes nothing for other keys.
pub record Cache : Type 1 where
  pub State : Type 0
  pub get : ℕ → Text → State → Bool
  pub add : ℕ → Text → ℕ → State → State
  pub get_added :
      (now later ttl : ℕ) (k : Text) (c : State)
      → get now k c ≡ false
      → now ≤ later
      → later < now + ttl
      → get later k (add now k ttl c) ≡ true
  pub get_kept :
      (now later ttl : ℕ) (k j : Text) (c : State)
      → get later j c ≡ true
      → get later j (add now k ttl c) ≡ true
  pub get_other :
      (now later ttl : ℕ) (k j : Text) (c : State)
      → k ≢ j
      → get later j (add now k ttl c) ≡ get later j c

abbrev pub hour : ℕ
hour = 3600000000000

module _ (cache : Cache) where
  open cache use {State, get, add}

  -- `IsValidToken`, and so `IsUniqueRequest` of the payloads.
  pub is_valid_token : ℕ → Text → State → State × Bool
  is_valid_token now token c =
      let exists = get now token c in (if not exists then add now token hour c else c, not exists)

-- `Scoped`: the scopes are separated by spaces.
unfoldable pub scopes : Text → List Text
unfolding split
scopes scope = split b' ' scope

contains : List Text → Text → Bool
contains [] t = false
contains (s ∷ ss) t = text_eq s t || contains ss t

unfoldable pub has_scope : Text → Text → Bool
unfolding scopes contains
has_scope claim scope = contains (scopes claim) scope

pub record WebsocketPayload : Type 0 where
  pub issued_at : Option ℕ
  pub expires_at : Option ℕ
  pub jwt_id : Text
  pub scope : Text
  pub user_uuid : Text
  pub server_uuid : Text
  pub permissions : List Text

-- A `sync.Map` from texts to times, newest entry first.
abbrev pub Times : Type 0
Times = List (Text × ℕ)

unfoldable pub load : Text → Times → Option ℕ
load k [] = none
load k ((j, t) ∷ ts) = if text_eq j k then some t else load k ts

unfoldable pub store : Text → ℕ → Times → Times
store k t ts = (k, t) ∷ ts

-- The global state of the package: the time of the boot, and the two deny lists.
pub record Denials : Type 0 where
  pub boot_time : ℕ
  pub denylist : Times
  pub user_denylist : Times

unfoldable pub deny_jti : ℕ → Text → Denials → Denials
unfolding store
deny_jti now jti d = record d { denylist = store jti now d.denylist }

-- `strings.Join([]string{s, u}, ":")`
unfoldable pub user_key : Text → Text → Text
user_key s u = s ++ b':' ∷ u

unfoldable pub deny_for_server : ℕ → Text → Text → Denials → Denials
unfolding store
deny_for_server now s u d = record d { user_denylist = store (user_key s u) now d.user_denylist }

before_denial : ℕ → Option ℕ → Bool
before_denial issued none = false
before_denial issued (some t) = ltb issued t

denied_since : ℕ → Denials → WebsocketPayload → Bool
unfolding before_denial load
denied_since issued d p =
    if ltb issued d.boot_time
    then true
    else if before_denial issued (load p.jwt_id d.denylist)
    then true
    else before_denial issued (load (user_key p.server_uuid p.user_uuid) d.user_denylist)

unfoldable pub denylisted : Denials → WebsocketPayload → Bool
unfolding denied_since
denylisted d p = elim p.issued_at [ none ↦ true | some issued ↦ denied_since issued d p ]

-- The loop of `HasPermission` over the permissions: whether one of them grants it.
grants : Text → List Text → Bool
grants permission [] = false
grants permission (k ∷ ks) =
    (text_eq k permission || not (has_prefix permission (codes "admin")) && text_eq k (codes "*"))
    || grants permission ks

unfoldable pub has_permission : Denials → Text → WebsocketPayload → Bool
unfolding grants denylisted
has_permission d permission p =
    if grants permission p.permissions then not (denylisted d p) else false
