-- ===== src/Websocket/Messages.antt =====
-- Which messages of router/websocket reach a client.
use feathers.Prelude.{
  ℕ, zero, suc, sym, subst, ◌≡◌, ◌⊎◌, inl, inr, refl, Bool, true, false, none, some, arith,
  Bool-cases, ◌∙◌, ◌||◌,
}
use feathers.Prelude.Text.{Text, codes, text_eq, text_eq_refl, has_prefix}
use feathers.Tokens.{WebsocketPayload, has_permission}
use feathers.Tokens.Permissions.{Granted, has_permission-Granted}
use feathers.Server.Power.{Daemon}
use feathers.Websocket.{
  emit, Message, Error, is_jwt_error, Node, Handler, write, is_throttled, announce, limiter_for,
  token_valid, send_json, is_hidden, install_output_event, backup_completed_event,
  transfer_logs_event,
}
use feathers.Websocket.Inbound.{send_error_json, permits}

-- The permission that the holder of a token needs to be sent an event.
abbrev pub Needs : Text → Text → Type 0
Needs event permission =
    (event ≡ install_output_event) × (permission ≡ codes "admin.websocket.install")
    ⊎ (has_prefix event backup_completed_event ≡ true) × (permission ≡ codes "backup.read")
    ⊎ (event ≡ transfer_logs_event) × (permission ≡ codes "admin.websocket.transfer")

module _ {E L : Type 0} (n : Node E L) where
  lacks :
      (h : Handler E L) (p : WebsocketPayload) (permission : Text)
      → ¬ Granted permission p.permissions
      → has_permission (n.denials h.server.rest) permission p ≡ false
  lacks h p permission lack =
      elim (Bool-cases (has_permission (n.denials h.server.rest) permission p)) [
        | inl granted ↦ absurd (lack ((has_permission-Granted _ permission p).0 granted).1)
        | inr refused ↦ refused
      ]

  or_true : (a b : Bool) → (a || true || b) ≡ true
  or_true true b = refl
  or_true false b = refl

  hidden_without :
      (h : Handler E L) (p : WebsocketPayload) (event permission : Text)
      → Needs event permission
      → has_permission (n.denials h.server.rest) permission p ≡ false
      → is_hidden (n.denials h.server.rest) p event ≡ true
  unfolding is_hidden text_eq has_prefix
  hidden_without h p event permission (inl (e, q)) no_grant =
      let refused = subst (λ q. has_permission (n.denials h.server.rest) q p ≡ false) q no_grant in
      rw (e, refused) refl
  hidden_without h p event permission (inr (inl (e, q))) no_grant =
      let refused = subst (λ q. has_permission (n.denials h.server.rest) q p ≡ false) q no_grant in
      rw (e, refused) (or_true _ _)
  hidden_without h p event permission (inr (inr (e, q))) no_grant =
      let refused = subst (λ q. has_permission (n.denials h.server.rest) q p ≡ false) q no_grant in
      rw (e, refused) refl

  -- A client whose token is valid but does not grant the permission for the output of an installation,
  -- for finished backups or for the output of a transfer is not sent such a message: nothing happens.
  pub send_json_hides :
      (v : Message) (h : Handler E L) (p : WebsocketPayload) (permission : Text)
      → Needs v.event permission
      → h.token ≡ some p
      → token_valid n h ≡ none
      → ¬ Granted permission p.permissions
      → send_json n v h ≡ (h, none)
  unfolding send_json
  send_json_hides v h p permission needs t fine lack =
      let hidden = hidden_without h p v.event permission needs (lacks h p permission lack) in
      rw (send_json, fine) (subst (λ o. emit n v o h ≡ (h, none)) (sym t) (rw (emit, hidden) refl))

  -- An error that is not about the token is not disclosed to a client whose token does not grant
  -- "admin.websocket.errors": what is sent does not depend on its text.
  pub send_error_json_conceals :
      (d : Daemon E) (err : Error) (text text' : Text) (h : Handler E L) (p : WebsocketPayload)
      → is_jwt_error err ≡ false
      → h.token ≡ some p
      → ¬ Granted (codes "admin.websocket.errors") p.permissions
      → send_error_json n d err text h ≡ send_error_json n d err text' h
  unfolding send_error_json permits write
  send_error_json_conceals d err text text' h p other t lack =
      rw (other, t, lacks h p (codes "admin.websocket.errors") lack) refl

  -- The handler after some attempts at an event.
  abbrev pub attempts : Text → ℕ → Handler E L → Handler E L
  attempts e zero h = h
  attempts e (suc k) h = attempts e k (is_throttled n e h).0

  -- All of these attempts are refused.
  abbrev pub AllThrottled : Text → ℕ → Handler E L → Type 0
  AllThrottled e zero h = Unit {0}
  AllThrottled e (suc k) h =
      ((is_throttled n e h).1 ≡ true) × AllThrottled e k (is_throttled n e h).0

  refused_again :
      (e : Text) (h : Handler E L)
      → h.throttles e ≡ true
      → (is_throttled n e h).1 ≡ true
      → ((is_throttled n e h).0.server ≡ h.server) × ((is_throttled n e h).0.throttles e ≡ true)
  unfolding is_throttled announce
  refused_again e h known late =
      elim (Bool-cases (n.allow (n.clock h.server.rest) (limiter_for n e h.limits).1).1) [
        | inl let_by ↦ absurd (ground arith)
        | inr over ↦ rw (over, known) (refl, known)
      ]

  known_after :
      (e : Text) (h : Handler E L)
      → (is_throttled n e h).1 ≡ true
      → (is_throttled n e h).0.throttles e ≡ true
  unfolding is_throttled announce write
  known_after e h late =
      elim (Bool-cases (n.allow (n.clock h.server.rest) (limiter_for n e h.limits).1).1) [
        | inl let_by ↦ absurd (ground arith)
        | inr over ↦ elim (Bool-cases (h.throttles e)) [
          | inl known ↦ rw (over, known) known
          | inr new ↦ rw (over, new, text_eq_refl e) refl
        ]
      ]

  quiet_after :
      (e : Text) (k : ℕ) (h : Handler E L)
      → h.throttles e ≡ true
      → AllThrottled e k h
      → (attempts e k h).server ≡ h.server
  quiet_after e zero h known all = refl
  quiet_after e (suc k) h known all =
      let (same, known') = refused_again e h known all.0 in quiet_after e k _ known' all.1 ∙ same

  -- However many attempts at an event are refused in a row, at most the first of them sends something:
  -- the connection is afterwards as the first of them left it.
  pub throttle_announced_once :
      (e : Text) (k : ℕ) (h : Handler E L)
      → AllThrottled e (suc k) h
      → (attempts e (suc k) h).server ≡ (is_throttled n e h).0.server
  throttle_announced_once e k h all = quiet_after e k _ (known_after e h all.0) all.1
