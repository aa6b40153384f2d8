-- ===== src/Websocket/Inbound.antt =====
-- `HandleInbound` and `SendErrorJson` of router/websocket/websocket.go.
use feathers.Prelude.{
  ◌⊎◌, Bool, true, false, not, ◌&&◌, ◌||◌, Option, none, some, List, [], ◌∷◌, ◌++◌, if◌then◌else◌,
  inl, inr,
}
use feathers.Prelude.Text.{Text, codes, text_eq}
use feathers.Tokens.{WebsocketPayload, has_permission}
use feathers.Server.Power.{
  Server, Daemon, PowerAction, start, stop, restart, terminate, unknown, power_action, action_text,
  ProcessState, offline, starting, running, stopping, handle_power_action, locker_locked, suspended,
  panics,
}
use feathers.Server.Power
use feathers.Websocket.{
  Message, message, Error, failed, other, is_jwt_error, Node, Handler, authentication_event,
  send_server_logs_event, send_command_event, set_rest, write, complain, is_throttled, token_valid,
  new_token_payload, send_json,
}

-- `strings.Join(args, "")`
unfoldable pub concat : List Text → Text
concat [] = []
concat (t ∷ ts) = t ++ concat ts

-- The strings of the states.
unfoldable pub state_text : ProcessState → Text
state_text offline = codes "offline"
state_text starting = codes "starting"
state_text running = codes "running"
state_text stopping = codes "stopping"

-- The map `actions`.
unfoldable pub permission_for : PowerAction → Option Text
permission_for start = some (codes "control.start")
permission_for stop = some (codes "control.stop")
permission_for restart = some (codes "control.restart")
permission_for terminate = some (codes "control.stop")
permission_for (unknown s) = none

abbrev pub set_state_event : Text
set_state_event = codes "set state"

abbrev pub send_stats_event : Text
send_stats_event = codes "send stats"

abbrev pub locked_text : Text
locked_text =
    codes
      "another power action is currently being processed for this server, please try again later"

module _ {E L : Type 0} (n : Node E L) (d : Daemon E) where
  -- A message of which the result is dropped.
  unfoldable pub send : Text → List Text → Handler E L → Handler E L
  send event args h = (send_json n (message event args) h).0

  -- `GetErrorMessage`
  unfoldable pub get_error_message : Text → Handler E L → Handler E L × Text
  get_error_message msg h =
      let (e, u) = n.fresh_uuid h.server.rest in
      (set_rest n e h, codes "Error Event [" ++ u ++ codes "]: " ++ msg)

  -- `HasPermission` of the token of the connection; there is one where this is asked.
  unfoldable pub permits : Text → Handler E L → Bool
  permits permission h = elim h.token [
    | none ↦ false
    | some p ↦ has_permission (n.denials h.server.rest) permission p
  ]

  -- `setJwt`
  unfoldable pub set_jwt : WebsocketPayload → Handler E L → Handler E L
  set_jwt p h = record h { token = some p; user = p.user_uuid }

  unfoldable pub send_usage : Handler E L → Handler E L
  unfolding send
  send_usage h =
      let h' = set_rest n (d.has_space h.server.rest).0 h in
      send (codes "stats") (n.proc h'.server.rest ∷ []) h'

  -- Only for a process that is offline.
  unfoldable pub send_usage_in : ProcessState → Handler E L → Handler E L
  unfolding send_usage
  send_usage_in offline h =
      if not h.server.installing && not h.server.transferring then send_usage h else h
  send_usage_in _ h = h

  -- What a first authentication starts and sends.
  unfoldable pub greet : Handler E L → Handler E L
  unfolding send_usage_in state_text
  greet h =
      let h' = set_rest n (n.register_listeners h.server.rest) h in
      let state = d.state h'.server.rest in
      send_usage_in state (send (codes "status") (state_text state ∷ []) h')

  -- A connection that had a token is not greeted again.
  unfoldable pub welcome : Option WebsocketPayload → Handler E L → Handler E L
  unfolding greet
  welcome none h = greet h
  welcome (some old) h = h

  unfoldable pub accept : WebsocketPayload → Handler E L → Handler E L
  unfolding welcome set_jwt
  accept p h = welcome h.token (write n (message (codes "auth success") []) (set_jwt p h)).0

  unfoldable pub authenticated : Error ⊎ WebsocketPayload → Handler E L → Handler E L × Option Error
  unfolding accept
  authenticated (inl err) h = (h, some err)
  authenticated (inr p) h = (accept p h, none)

  unfoldable pub authenticate : List Text → Handler E L → Handler E L × Option Error
  unfolding authenticated
  authenticate args h = authenticated (new_token_payload n (concat args) h.server.rest) h

  -- What the result of a power action causes.
  unfoldable pub conclude :
      PowerAction → Handler E L → Option Power.Error → Handler E L × Option Error
  unfolding send get_error_message action_text
  conclude a h (some locker_locked) =
      let (h', m) = get_error_message locked_text h in
      (send (codes "daemon error") (m ∷ []) h', none)
  conclude a h none = (
    set_rest n (n.save_activity h.user (codes "server:power." ++ action_text a) none h.server.rest)
        h,
    none,
  )
  conclude a h (some x) = (h, some (failed x))

  unfoldable pub act : PowerAction → Handler E L → Handler E L × Option Error
  unfolding conclude
  act a h =
      let (s, r) = handle_power_action d a 0 [] h.server in conclude a (record h { server = s }) r

  unfoldable pub set_state : PowerAction → Handler E L → Handler E L × Option Error
  unfolding act
  set_state a h = elim (permission_for a) [
    | none ↦ act a h
    | some p ↦ if permits p h then act a h else (h, none)
  ]

  unfoldable pub send_lines : List Text → Handler E L → Handler E L
  unfolding send
  send_lines [] h = h
  send_lines (l ∷ ls) h = send_lines ls (send (codes "console output") (l ∷ []) h)

  unfoldable pub show_logs : Text ⊎ List Text → Handler E L → Handler E L × Option Error
  unfolding send_lines
  show_logs (inl err) h = (h, some (other err))
  show_logs (inr lines) h = (send_lines lines h, none)

  unfoldable pub send_logs : Handler E L → Handler E L × Option Error
  unfolding show_logs
  send_logs h =
      let (e, up) = n.is_running h.server.rest in
      let (e', logs) = n.readlog e in
      if not up then (set_rest n e h, none) else show_logs logs (set_rest n e' h)

  -- Whether the process takes commands.
  unfoldable pub takes_commands : E → Bool
  takes_commands e = elim (d.state e) [
    | offline ↦ false
    | starting ↦ elim (n.is_attached e) [ some false ↦ false | _ ↦ true ]
    | _ ↦ true
  ]

  unfoldable pub commanded : Text → Option Text → Handler E L → Handler E L × Option Error
  commanded c (some err) h = (h, some (other err))
  commanded c none h = (
    set_rest n (n.save_activity h.user (codes "server:console.command") (some c) h.server.rest) h,
    none,
  )

  unfoldable pub send_command : Text → Handler E L → Handler E L × Option Error
  unfolding commanded takes_commands
  send_command c h =
      if not (permits (codes "control.console") h)
      then (h, none)
      else if not (takes_commands h.server.rest)
      then (h, none)
      else let (e, r) = n.send_command c h.server.rest in commanded c r (set_rest n e h)

  -- The switch on the event.
  unfoldable pub dispatch : Message → Handler E L → Handler E L × Option Error
  unfolding set_state send_logs send_command
  dispatch m h =
      if text_eq m.event set_state_event
      then set_state (power_action (concat m.args)) h
      else if text_eq m.event send_server_logs_event
      then send_logs h
      else if text_eq m.event send_stats_event
      then (send (codes "stats") (n.proc h.server.rest ∷ []) h, none)
      else if text_eq m.event send_command_event
      then send_command (concat m.args) h
      else (h, none)

  -- After the throttle: authentication, or the check of the token and the switch.
  unfoldable pub route : Message → Handler E L → Handler E L × Option Error
  unfolding authenticate dispatch
  route m h =
      if text_eq m.event authentication_event
      then authenticate m.args h
      else elim (token_valid n h) [ some x ↦ (complain n x h, none) | none ↦ dispatch m h ]

  unfoldable pub handle_inbound : Message → Handler E L → Handler E L × Option Error
  unfolding route
  handle_inbound m h =
      if d.is_suspended h.server.rest
      then (h, some (failed suspended))
      else let (h', throttled) = is_throttled n m.event h in
        if throttled then (h', none) else route m h'

  -- `SendErrorJson`: the text of the error goes to who may see it.
  unfoldable pub send_error_json : Error → Text → Handler E L → Handler E L
  unfolding is_jwt_error get_error_message
  send_error_json err text h =
      let shown = is_jwt_error err || permits (codes "admin.websocket.errors") h in
      let event = if is_jwt_error err then codes "jwt error" else codes "daemon error" in
      let msg =
        if shown
        then text
        else codes "an unexpected error was encountered while handling this request" in
      let (h', m) = get_error_message msg h in (write n (message event (m ∷ [])) h').0
