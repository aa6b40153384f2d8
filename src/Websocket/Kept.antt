-- ===== src/Websocket/Kept.antt =====
-- No message but an authentication changes the token of a connection of router/websocket.
use feathers.Prelude.{
  ◌≡◌, ◌⊎◌, inl, inr, refl, ◌∙◌, Option, none, some, List, [], ◌∷◌, Bool-cases, Option-cases, not,
  ◌&&◌,
}
use feathers.Prelude.Text.{Text, codes, text_eq}
use feathers.Tokens.{WebsocketPayload}
use feathers.Server.Power.{
  ProcessState, Server, Daemon, PowerAction, offline, starting, running, stopping, locker_locked,
}
use feathers.Server.Power
use feathers.Websocket.{
  Message, message, Node, Handler, write, complain, deliver, token_valid, send_json, is_hidden,
  set_rest, emit, send_server_logs_event, send_command_event,
}
use feathers.Websocket.Inbound.{
  dispatch, set_state, send_command, accept, greet, send_usage, set_jwt, act, conclude, state_text,
  send_lines, send_logs, welcome, send_usage_in, commanded, show_logs, takes_commands,
  set_state_event, send_stats_event, send, permission_for, get_error_message, permits,
}

module _ {E L : Type 0} (n : Node E L) (d : Daemon E) where
  emit_token :
      (v : Message) (o : Option WebsocketPayload) (h : Handler E L)
      → (emit n v o h).0.token ≡ h.token
  unfolding emit deliver write
  emit_token v none h = refl
  emit_token v (some p) h = elim (Bool-cases (is_hidden (n.denials h.server.rest) p v.event)) [
    | inl hidden ↦ rw hidden
    | inr shown ↦ rw shown
  ]

  send_json_token : (v : Message) (h : Handler E L) → (send_json n v h).0.token ≡ h.token
  unfolding send_json complain write
  send_json_token v h = elim (Option-cases (token_valid n h)) [
    | inr (x, bad) ↦ rw (send_json, bad) refl
    | inl fine ↦ rw (send_json, fine) (emit_token v h.token h)
  ]

  send_token :
      (event : Text) (args : List Text) (h : Handler E L) → (send n d event args h).token ≡ h.token
  unfolding send
  send_token event args h = send_json_token (message event args) h

  conclude_token :
      (a : PowerAction) (h : Handler E L) (r : Option Power.Error)
      → (conclude n d a h r).0.token ≡ h.token
  unfolding conclude get_error_message
  conclude_token a h none = refl
  conclude_token a h (some locker_locked) = send_token _ _ _
  conclude_token a h (some x) = refl

  act_token : (a : PowerAction) (h : Handler E L) → (act n d a h).0.token ≡ h.token
  unfolding act
  act_token a h = conclude_token a _ _

  set_state_token : (a : PowerAction) (h : Handler E L) → (set_state n d a h).0.token ≡ h.token
  unfolding set_state
  set_state_token a h = elim (Option-cases (permission_for a)) [
    | inl free ↦ rw (set_state, free) (act_token a h)
    | inr (p, asked) ↦ elim (Bool-cases (permits n d p h)) [
      | inl may ↦ rw (set_state, asked, may) (act_token a h)
      | inr not_so ↦ rw (set_state, asked, not_so) refl
    ]
  ]

  send_lines_token : (ls : List Text) (h : Handler E L) → (send_lines n d ls h).token ≡ h.token
  unfolding send_lines
  send_lines_token [] h = refl
  send_lines_token (l ∷ ls) h = send_lines_token ls _ ∙ send_token _ _ h

  show_logs_token :
      (logs : Text ⊎ List Text) (h : Handler E L) → (show_logs n d logs h).0.token ≡ h.token
  unfolding show_logs
  show_logs_token (inl err) h = refl
  show_logs_token (inr ls) h = send_lines_token ls h

  send_logs_token : (h : Handler E L) → (send_logs n d h).0.token ≡ h.token
  unfolding send_logs
  send_logs_token h = elim (Bool-cases (n.is_running h.server.rest).1) [
    | inr down ↦ rw down
    | inl runs ↦
        let (e, logs) = n.readlog (n.is_running h.server.rest).0 in
        rw runs (show_logs_token logs (set_rest n e h))
  ]

  commanded_token :
      (c : Text) (r : Option Text) (h : Handler E L) → (commanded n d c r h).0.token ≡ h.token
  unfolding commanded
  commanded_token c none h = refl
  commanded_token c (some err) h = refl

  send_command_token : (c : Text) (h : Handler E L) → (send_command n d c h).0.token ≡ h.token
  unfolding send_command
  send_command_token c h = elim (Bool-cases (permits n d (codes "control.console") h)) [
    | inr refused ↦ rw refused
    | inl may ↦ elim (Bool-cases (takes_commands n d h.server.rest)) [
      | inr idle ↦ rw (may, idle)
      | inl awake ↦
          let (e, r) = n.send_command c h.server.rest in
          rw (may, awake) (commanded_token c r (set_rest n e h))
    ]
  ]

  pub dispatch_token : (m : Message) (h : Handler E L) → (dispatch n d m h).0.token ≡ h.token
  unfolding dispatch
  dispatch_token m h = elim (Bool-cases (text_eq m.event set_state_event)) [
    | inl e ↦ rw e (set_state_token _ h)
    | inr e1 ↦ elim (Bool-cases (text_eq m.event send_server_logs_event)) [
      | inl e ↦ rw (e1, e) (send_logs_token h)
      | inr e2 ↦ elim (Bool-cases (text_eq m.event send_stats_event)) [
        | inl e ↦ rw (e1, e2, e) (send_token _ _ h)
        | inr e3 ↦ elim (Bool-cases (text_eq m.event send_command_event)) [
          | inl e ↦ rw (e1, e2, e3, e) (send_command_token _ h)
          | inr e4 ↦ rw (e1, e2, e3, e4)
        ]
      ]
    ]
  ]

  send_usage_token : (h : Handler E L) → (send_usage n d h).token ≡ h.token
  unfolding send_usage
  send_usage_token h = send_token _ _ _

  send_usage_in_token :
      (s : ProcessState) (h : Handler E L) → (send_usage_in n d s h).token ≡ h.token
  unfolding send_usage_in
  send_usage_in_token offline h =
      elim (Bool-cases (not h.server.installing && not h.server.transferring)) [
        | inl idle ↦ rw idle (send_usage_token h)
        | inr busy ↦ rw busy
      ]
  send_usage_in_token starting h = refl
  send_usage_in_token running h = refl
  send_usage_in_token stopping h = refl

  greet_token : (h : Handler E L) → (greet n d h).token ≡ h.token
  unfolding greet
  greet_token h =
      let h' = set_rest n (n.register_listeners h.server.rest) h in
      let state = d.state h'.server.rest in
      send_usage_in_token state (send n d (codes "status") (state_text state ∷ []) h')
      ∙ send_token (codes "status") (state_text state ∷ []) h'

  welcome_token :
      (o : Option WebsocketPayload) (h : Handler E L) → (welcome n d o h).token ≡ h.token
  unfolding welcome
  welcome_token none h = greet_token h
  welcome_token (some old) h = refl

  pub accept_token : (p : WebsocketPayload) (h : Handler E L) → (accept n d p h).token ≡ some p
  unfolding accept set_jwt write
  accept_token p h = welcome_token h.token _
