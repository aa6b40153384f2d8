-- ===== src/Websocket.antt =====
-- router/websocket: a websocket connection of a client, what it is sent and what it may cause.
pub mod Inbound
pub mod Gates
mod Kept
pub mod Session
pub mod Messages
mod Examples
use feathers.Prelude.{
  ◌⊎◌, inl, inr, ℕ, Bool, true, false, not, ◌&&◌, ◌||◌, Option, none, some, List, [], ◌∷◌, ◌++◌,
  if◌then◌else◌,
}
use feathers.Prelude.Text.{Text, codes, text_eq, has_prefix}
use feathers.Tokens.{WebsocketPayload, Denials, denylisted, has_permission, has_scope}
use feathers.Server.Power.{Server}
use feathers.Server.Power

-- A message; its event is a string, as is every `Event`.
pub record Message : Type 0 where
  pub event : Text
  pub args : List Text

abbrev pub message : Text → List Text → Message
message event args = record { event = event; args = args }

-- The errors about a token.
pub data JwtError : Type 0 where
  not_present no_connect_perm uuid_mismatch on_denylist expired : JwtError

pub data Error : Type 0 where
  jwt : JwtError → Error
  failed : Power.Error → Error
  other : Text → Error  -- an error of a library, with its text

-- `IsJwtError`
unfoldable pub is_jwt_error : Error → Bool
is_jwt_error (jwt x) = true
is_jwt_error _ = false

pub data WriteError : Type 0 where
  close_sent : WriteError
  broken : Text → WriteError

-- What a handler calls outside of the package: the connection (`WriteJSON`), the clock, the global
-- deny lists, the rate limiters of `golang.org/x/time/rate`, the validators of the jwt library, and
-- the server. `E` is the state of the world and `L` the type of a limiter.
pub record Node (E L : Type 0) : Type 0 where
  pub write_json : Message → E → E × Option WriteError
  pub clock : E → ℕ
  pub denials : E → Denials
  pub new_limiter : ℕ → ℕ → L  -- seconds between two events, and the burst
  pub allow : ℕ → L → L × Bool
  pub is_expired : ℕ → WebsocketPayload → Bool
  pub expired_text : Text
  pub parse_token : Text → E → Error ⊎ WebsocketPayload
  pub fresh_uuid : E → E × Text
  pub server_id : Text
  pub register_listeners : E → E
  pub proc : E → Text
  pub is_running : E → E × Bool
  pub readlog : E → E × (Text ⊎ List Text)
  pub is_attached : E → Option Bool
  pub send_command : Text → E → E × Option Text
  pub save_activity : Text → Text → Option Text → E → E

-- A handler with the server it serves, in whose rest the world is. `user` is that of the request
-- activity; a missing key of `throttles` is false.
pub record Handler (E L : Type 0) : Type 0 where
  pub token : Option WebsocketPayload
  pub user : Text
  pub limits : Text → Option L
  pub throttles : Text → Bool
  pub server : Server E

abbrev pub authentication_event : Text
authentication_event = codes "auth"

abbrev pub send_server_logs_event : Text
send_server_logs_event = codes "send logs"

abbrev pub send_command_event : Text
send_command_event = codes "send command"

abbrev pub throttled_event : Text
throttled_event = codes "throttled"

abbrev pub jwt_error_event : Text
jwt_error_event = codes "jwt error"

abbrev pub install_output_event : Text
install_output_event = codes "install output"

abbrev pub backup_completed_event : Text
backup_completed_event = codes "backup completed"

abbrev pub transfer_logs_event : Text
transfer_logs_event = codes "transfer logs"

-- `map[...] = v`
abbrev pub put {ℓ} : {A : Type ℓ} → Text → A → (Text → A) → Text → A
put k v f j = if text_eq k j then v else f j

unfoldable pub limiter_name : Text → Text
limiter_name e =
    if text_eq e authentication_event
      || text_eq e send_server_logs_event
      || text_eq e send_command_event
    then e
    else codes "_default"

-- The seconds between two events, and the burst.
unfoldable pub limit_values_for : Text → ℕ × ℕ
limit_values_for e =
    if text_eq e authentication_event || text_eq e send_server_logs_event
    then (5, 2)
    else if text_eq e send_command_event
    then (1, 10)
    else (1, 4)

-- The claims that both validations ask for.
unfoldable pub lacks_connect : Denials → WebsocketPayload → Bool
lacks_connect den p =
    not (has_permission den (codes "websocket.connect") p)
    || not (text_eq p.scope []) && not (has_scope p.scope (codes "websocket"))

-- Whether `SendJson` keeps a message from the holder of a token.
unfoldable pub is_hidden : Denials → WebsocketPayload → Text → Bool
is_hidden den p event =
    text_eq event install_output_event
      && not (has_permission den (codes "admin.websocket.install") p)
    || has_prefix event backup_completed_event && not (has_permission den (codes "backup.read") p)
    || text_eq event transfer_logs_event
      && not (has_permission den (codes "admin.websocket.transfer") p)

unfoldable pub check_payload : Denials → Error ⊎ WebsocketPayload → Error ⊎ WebsocketPayload
unfolding lacks_connect
check_payload den (inl err) = inl err
check_payload den (inr p) =
    if denylisted den p
    then inl (jwt on_denylist)
    else if lacks_connect den p
    then inl (jwt no_connect_perm)
    else inr p

module _ {E L : Type 0} (n : Node E L) where
  abbrev pub set_rest : E → Handler E L → Handler E L
  set_rest e h = record h { server = record h.server { rest = e } }

  -- `unsafeSendJson`
  unfoldable pub write : Message → Handler E L → Handler E L × Option WriteError
  write v h = let (e, r) = n.write_json v h.server.rest in (set_rest e h, r)

  -- `err.Error()`
  unfoldable pub jwt_text : JwtError → Text
  jwt_text not_present = codes "jwt: no jwt present"
  jwt_text no_connect_perm = codes "jwt: missing connect permission"
  jwt_text uuid_mismatch = codes "jwt: server uuid mismatch"
  jwt_text on_denylist = codes "jwt: created too far in past (denylist)"
  jwt_text expired = n.expired_text

  -- `For`: the limiter of an event and the limiters with it.
  unfoldable pub limiter_for : Text → (Text → Option L) → (Text → Option L) × L
  unfolding limiter_name limit_values_for
  limiter_for e limits = elim (limits (limiter_name e)) [
    | some l ↦ (limits, l)
    | none ↦
        let (seconds, burst) = limit_values_for e in
        let l = n.new_limiter seconds burst in (put (limiter_name e) (some l) limits, l)
  ]

  -- The end of `IsThrottled`: the first refusal of a throttling period is announced.
  announce : Text → Handler E L → Handler E L
  unfolding write
  announce e h =
      if h.throttles e
      then h
      else (write (message throttled_event (e ∷ []))
          (record h { throttles = put e true h.throttles })).0

  -- The limiter is a pointer in the source, so what `Allow` leaves of it is put back.
  pub is_throttled : Text → Handler E L → Handler E L × Bool
  unfolding limiter_for announce
  is_throttled e h =
      let (limits, l) = limiter_for e h.limits in
      let (l', allowed) = n.allow (n.clock h.server.rest) l in
      let h' = record h { limits = put (limiter_name e) (some l') limits } in
      if allowed
      then (record h' { throttles = put e false h.throttles }, false)
      else (announce e h', true)

  check_token : WebsocketPayload → E → Option JwtError
  unfolding lacks_connect
  check_token p e =
      if n.is_expired (n.clock e) p
      then some expired
      else if denylisted (n.denials e) p
      then some on_denylist
      else if lacks_connect (n.denials e) p
      then some no_connect_perm
      else if not (text_eq n.server_id p.server_uuid)
      then some uuid_mismatch
      else none

  -- `TokenValid`
  unfoldable pub token_valid : Handler E L → Option JwtError
  unfolding check_token
  token_valid h = elim h.token [ none ↦ some not_present | some p ↦ check_token p h.server.rest ]

  -- `NewTokenPayload`, an error or the token.
  unfoldable pub new_token_payload : Text → E → Error ⊎ WebsocketPayload
  unfolding check_payload
  new_token_payload token e = check_payload (n.denials e) (n.parse_token token e)

  masked : Option WriteError → Option WriteError
  masked (some close_sent) = none
  masked r = r

  unfoldable pub deliver : Message → Handler E L → Handler E L × Option WriteError
  unfolding masked write
  deliver v h = let (h', r) = write v h in (h', masked r)

  unfoldable pub complain : JwtError → Handler E L → Handler E L
  unfolding write jwt_text
  complain x h = (write (message jwt_error_event (jwt_text x ∷ [])) h).0

  -- The filters for the holder of a token.
  unfoldable pub emit :
      Message → Option WebsocketPayload → Handler E L → Handler E L × Option WriteError
  unfolding deliver
  emit v none h = deliver v h
  emit v (some p) h =
      if is_hidden (n.denials h.server.rest) p v.event then (h, none) else deliver v h

  unfoldable pub send_json : Message → Handler E L → Handler E L × Option WriteError
  unfolding token_valid complain emit
  send_json v h = elim (token_valid h) [ some x ↦ (complain x h, none) | none ↦ emit v h.token h ]
