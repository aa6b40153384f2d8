-- ===== src/Websocket/Gates.antt =====
-- What a client causes over a connection of router/websocket without the token or the permission for
-- it.
use feathers.Prelude.{
  ◌≡◌, ◌≢◌, inl, inr, refl, true, false, Option, none, some, List, [], ◌∷◌, arith, Bool-cases,
  Option-cases, ◌∙◌, if◌then◌else◌,
}
use feathers.Prelude.Text.{Text, codes, text_eq, text_eq_ne, text_eq_other}
use feathers.Tokens.{WebsocketPayload, has_permission}
use feathers.Tokens.Permissions.{Granted, has_permission-Granted}
use feathers.Server.Power.{Server, Daemon, PowerAction, power_action}
use feathers.Websocket.{
  Message, Node, Handler, authentication_event, send_command_event, send_server_logs_event, write,
  complain, is_throttled, token_valid, announce, limiter_for,
}
use feathers.Websocket.Inbound.{
  handle_inbound, route, dispatch, set_state, send_command, permits, permission_for,
  set_state_event, send_stats_event, concat,
}

-- The permission that a message asks for.
unfoldable pub required : Message → Option Text
required m =
    if text_eq m.event set_state_event
    then permission_for (power_action (concat m.args))
    else if text_eq m.event send_command_event
    then some (codes "control.console")
    else none

module _ {E L : Type 0} (n : Node E L) (d : Daemon E) where
  -- The server after some messages to the client, and nothing else.
  pub data Writes : Server E → Server E → Type 0 where
    silent : {s : Server E} → Writes s s
    wrote :
        {s t : Server E} (v : Message)
        → Writes s t
        → Writes s (record t { rest = (n.write_json v t.rest).0 })

  abbrev pub run : List Message → Handler E L → Handler E L
  run [] h = h
  run (m ∷ ms) h = run ms (handle_inbound n d m h).0

  pub throttle-Writes :
      (e : Text) (s : Server E) (h : Handler E L)
      → Writes s h.server
      → Writes s (is_throttled n e h).0.server
  unfolding is_throttled announce write
  throttle-Writes e s h w =
      elim (Bool-cases (n.allow (n.clock h.server.rest) (limiter_for n e h.limits).1).1) [
        | inl granted ↦ rw granted w
        | inr lack ↦ elim (Bool-cases (h.throttles e)) [
          | inl known ↦ rw (lack, known) w
          | inr new ↦ rw (lack, new) (wrote _ w)
        ]
      ]

  pub throttle_token : (e : Text) (h : Handler E L) → (is_throttled n e h).0.token ≡ h.token
  unfolding is_throttled announce write
  throttle_token e h =
      elim (Bool-cases (n.allow (n.clock h.server.rest) (limiter_for n e h.limits).1).1) [
        | inl granted ↦ rw granted
        | inr lack ↦ elim (Bool-cases (h.throttles e)) [
          | inl known ↦ rw (lack, known)
          | inr new ↦ rw (lack, new)
        ]
      ]

  -- What is so of an untouched handler, and of a throttled and of a routed one, is so after a message.
  pub through :
      (P : Handler E L → Type 0) (m : Message) (h : Handler E L)
      → P h
      → P (is_throttled n m.event h).0
      → P (route n d m (is_throttled n m.event h).0).0
      → P (handle_inbound n d m h).0
  unfolding handle_inbound
  through P m h p q r = elim (Bool-cases (d.is_suspended h.server.rest)) [
    | inl granted ↦ rw granted p
    | inr lack ↦ elim (Bool-cases (is_throttled n m.event h).1) [
      | inl late ↦ rw (lack, late) q
      | inr early ↦ rw (lack, early) r
    ]
  ]

  unauthorized :
      (m : Message) (h : Handler E L)
      → m.event ≢ authentication_event
      → h.token ≡ none
      → Writes h.server (route n d m h).0.server × ((route n d m h).0.token ≡ none)
  unfolding route token_valid complain write
  unauthorized m h ne lack =
      rw (text_eq_ne m.event authentication_event ne, lack) (wrote _ silent, lack)

  pub Writes-trans : {s t u : Server E} → Writes s t → Writes t u → Writes s u
  Writes-trans w silent = w
  Writes-trans w (wrote v x) = wrote v (Writes-trans w x)

  abbrev pub NoneAuthenticates : List Message → Type 0
  NoneAuthenticates [] = Unit {0}
  NoneAuthenticates (m ∷ ms) = (m.event ≢ authentication_event) × NoneAuthenticates ms

  unauthorized_step :
      (m : Message) (h : Handler E L)
      → m.event ≢ authentication_event
      → h.token ≡ none
      → Writes h.server (handle_inbound n d m h).0.server
        × ((handle_inbound n d m h).0.token ≡ none)
  unauthorized_step m h ne lack =
      let h' = (is_throttled n m.event h).0 in
      let lack' = throttle_token m.event h ∙ lack in
      let w = throttle-Writes m.event h.server h silent in
      let (v, still) = unauthorized m h' ne lack' in
      through (λ k. Writes h.server k.server × (k.token ≡ none)) m h (silent, lack) (w, lack')
        (Writes-trans w v, still)

  -- Before a client has authenticated, no sequence of messages without the authentication event changes
  -- the server, its process or its power lock: it is at most answered, and there is still no token.
  pub unauthenticated_run :
      (ms : List Message) (h : Handler E L)
      → NoneAuthenticates ms
      → h.token ≡ none
      → Writes h.server (run ms h).server × ((run ms h).token ≡ none)
  unauthenticated_run [] h ok lack = (silent, lack)
  unauthenticated_run (m ∷ ms) h ok lack =
      let (w, lack') = unauthorized_step m h ok.0 lack in
      let (v, still) = unauthenticated_run ms _ ok.1 lack' in (Writes-trans w v, still)

  refused :
      (permission : Text) (p : WebsocketPayload) (h : Handler E L)
      → h.token ≡ some p
      → ¬ Granted permission p.permissions
      → permits n d permission h ≡ false
  unfolding permits
  refused permission p h e lack =
      rw e (elim (Bool-cases (has_permission (n.denials h.server.rest) permission p)) [
        | inl granted ↦ absurd (lack ((has_permission-Granted _ permission p).0 granted).1)
        | inr lack ↦ lack
      ])

  asked_of :
      (m : Message) (permission : Text)
      → text_eq m.event set_state_event ≡ true
      → required m ≡ some permission
      → permission_for (power_action (concat m.args)) ≡ some permission
  unfolding required
  asked_of m permission set e = ground arith

  typed_asks :
      (m : Message) (permission : Text)
      → text_eq m.event set_state_event ≡ false
      → text_eq m.event send_command_event ≡ true
      → required m ≡ some permission
      → codes "control.console" ≡ permission
  unfolding required
  typed_asks m permission other typed e = ground arith

  typed_only :
      (e : Text)
      → text_eq e send_command_event ≡ true
      → (text_eq e send_server_logs_event ≡ false) × (text_eq e send_stats_event ≡ false)
  unfolding text_eq
  typed_only e typed = (text_eq_other e _ _ typed refl, text_eq_other e _ _ typed refl)

  auth_asks :
      (m : Message) (permission : Text)
      → text_eq m.event authentication_event ≡ true
      → required m ≡ some permission
      → ⊥
  unfolding required text_eq
  auth_asks m permission auth e =
      let set = text_eq_other m.event _ set_state_event auth refl in
      let typed = text_eq_other m.event _ send_command_event auth refl in ground arith

  refused_state :
      (a : PowerAction) (h : Handler E L) (permission : Text)
      → permission_for a ≡ some permission
      → permits n d permission h ≡ false
      → (set_state n d a h).0 ≡ h
  unfolding set_state
  refused_state a h permission e lack = rw (set_state, e, lack) refl

  ungranted_dispatch :
      (m : Message) (h : Handler E L) (permission : Text)
      → required m ≡ some permission
      → permits n d permission h ≡ false
      → (dispatch n d m h).0 ≡ h
  unfolding required dispatch send_command
  ungranted_dispatch m h permission e lack = elim (Bool-cases (text_eq m.event set_state_event)) [
    | inl set ↦ rw set (refused_state _ h permission (asked_of m permission set e) lack)
    | inr other ↦ elim (Bool-cases (text_eq m.event send_command_event)) [
      | inl typed ↦
          let (logs, stats) = typed_only m.event typed in
          rw (other, logs, stats, typed, typed_asks m permission other typed e, lack) refl
      | inr odd ↦ absurd (ground arith)
    ]
  ]

  ungranted :
      (m : Message) (h : Handler E L) (p : WebsocketPayload) (permission : Text)
      → required m ≡ some permission
      → h.token ≡ some p
      → ¬ Granted permission p.permissions
      → Writes h.server (route n d m h).0.server
  unfolding route complain write
  ungranted m h p permission e t lack = elim (Bool-cases (text_eq m.event authentication_event)) [
    | inl auth ↦ absurd (auth_asks m permission auth e)
    | inr other ↦ elim (Option-cases (token_valid n h)) [
      | inl fine ↦
          rw (other, fine, ungranted_dispatch m h permission e (refused permission p h t lack))
            silent
      | inr (x, bad) ↦ rw (other, bad) (wrote _ silent)
    ]
  ]

  -- A power action that is known or a command, sent with a token that does not grant its permission,
  -- changes nothing of the server: at most something is written to the client.
  pub ungranted_message :
      (m : Message) (h : Handler E L) (p : WebsocketPayload) (permission : Text)
      → required m ≡ some permission
      → h.token ≡ some p
      → ¬ Granted permission p.permissions
      → Writes h.server (handle_inbound n d m h).0.server
  ungranted_message m h p permission e t lack =
      let w = throttle-Writes m.event h.server h silent in
      through (λ k. Writes h.server k.server) m h silent w
        (Writes-trans w (
          ungranted m (is_throttled n m.event h).0 p permission e (throttle_token m.event h ∙ t)
            lack))
