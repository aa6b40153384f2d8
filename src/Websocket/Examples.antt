-- ===== src/Websocket/Examples.antt =====
-- A small node, connections to it, and the theorems at them.
use feathers.Prelude.{
  ℕ, zero, suc, ◌≡◌, ◌≢◌, ◌⊎◌, inl, inr, refl, Bool, true, false, none, some, List, [], ◌∷◌, arith,
  if◌then◌else◌,
}
use feathers.Prelude.Int.{pos}
use feathers.Prelude.Text.{Text, codes, text_eq, has_prefix}
use feathers.Tokens.{WebsocketPayload, has_permission, has_scope, denylisted}
use feathers.Tokens.Permissions.{Granted}
use feathers.Server.Power.{power_action, Server, Daemon, offline, running}
use feathers.Websocket.{
  is_jwt_error, Message, message, Error, other, Node, Handler, is_throttled, token_valid,
}
use feathers.Websocket.Inbound.{permission_for, concat, handle_inbound}
use feathers.Websocket.Gates.{Writes, run, required, unauthenticated_run, ungranted_message}
use feathers.Websocket.Session.{Holds, run-Holds}
use feathers.Websocket.Messages.{AllThrottled}

-- Whether the process runs, and what was sent, newest message first.
record World : Type 0 where
  pub up : Bool
  pub sent : List Message

abbrev daemon : Daemon World
daemon = record {
  windows_node = true;
  state = λ w. if w.up then running else offline;
  start_process = λ w. (record w { up = true }, none);
  wait_for_stop = λ w. (record w { up = false }, none);
  terminate_process = λ w. (record w { up = false }, none);
  sync = λ w. (w, true);
  is_suspended = λ w. false;
  image = λ w. codes "windows/java";
  sync_with_environment = λ w. w;
  disk_limit = λ w. pos 0;
  refresh_usage = λ w. w;
  has_space = λ w. (w, false);
  update_configuration_files = λ w. w;
  check_permissions = false;
  chown = λ w. (w, false);
}

abbrev viewer : WebsocketPayload
viewer = record {
  issued_at = some 100;
  expires_at = some 900;
  jwt_id = codes "j";
  scope = codes "websocket";
  user_uuid = codes "u";
  server_uuid = codes "s";
  permissions = codes "websocket.connect" ∷ codes "control.start" ∷ [];
}

parse : Text → Error ⊎ WebsocketPayload
unfolding text_eq
parse text = if text_eq text (codes "good") then inr viewer else inl (other (codes "bad"))

-- A limiter is the number of events that it still lets through.
let_through : ℕ → ℕ × Bool
let_through zero = (zero, false)
let_through (suc k) = (k, true)

abbrev node : Node World ℕ
node = record {
  write_json = λ v w. (record w { sent = v ∷ w.sent }, none);
  clock = λ w. 500;
  denials = λ w. record { boot_time = 50; denylist = []; user_denylist = [] };
  new_limiter = λ seconds burst. burst;
  allow = λ now l. let_through l;
  is_expired = λ now p. false;
  expired_text = codes "jwt: exp claim is invalid";
  parse_token = λ text w. parse text;
  fresh_uuid = λ w. (w, codes "id");
  server_id = codes "s";
  register_listeners = λ w. w;
  proc = λ w. codes "{}";
  is_running = λ w. (w, w.up);
  readlog = λ w. (w, inr (codes "line" ∷ []));
  is_attached = λ w. none;
  send_command = λ c w. (w, none);
  save_activity = λ user event meta w. w;
}

abbrev quiet : Server World
quiet = record {
  installing = false;
  transferring = false;
  restoring = false;
  power_lock = record { queued = 0; closed = false };
  rest = record { up = false; sent = [] };
}

abbrev fresh : Handler World ℕ
fresh = record {
  token = none;
  user = [];
  limits = λ e. none;
  throttles = λ e. false;
  server = quiet;
}

abbrev seen : Handler World ℕ
seen = record fresh { token = some viewer; limits = λ e. some 0 }

abbrev sign_in : Message
sign_in = message (codes "auth") (codes "good" ∷ [])

abbrev to_start : Message
to_start = message (codes "set state") (codes "start" ∷ [])

abbrev to_stop : Message
to_stop = message (codes "set state") (codes "stop" ∷ [])

state_is_not_auth : codes "set state" ≢ codes "auth"
state_is_not_auth e = ground arith

unauthenticated_run_example :
    Writes node daemon quiet (run node daemon (to_start ∷ to_stop ∷ []) fresh).server
    × ((run node daemon (to_start ∷ to_stop ∷ []) fresh).token ≡ none)
unauthenticated_run_example =
    unauthenticated_run node daemon (to_start ∷ to_stop ∷ []) fresh
      (state_is_not_auth, (state_is_not_auth, tt)) refl

no_stop : ¬ Granted (codes "control.stop") viewer.permissions
no_stop g = ground arith

no_install : ¬ Granted (codes "admin.websocket.install") viewer.permissions
unfolding has_prefix
no_install g = ground arith

no_errors : ¬ Granted (codes "admin.websocket.errors") viewer.permissions
unfolding has_prefix
no_errors g = ground arith

three_refused : AllThrottled node (codes "set state") 3 seen
unfolding is_throttled let_through text_eq
three_refused = (refl, (refl, (refl, tt)))

unmarked : is_jwt_error (other (codes "x")) ≡ false
unfolding is_jwt_error
unmarked = refl

stop_asks : required to_stop ≡ some (codes "control.stop")
unfolding required text_eq permission_for power_action concat
stop_asks = refl

ungranted_message_example :
    Writes node daemon quiet (handle_inbound node daemon to_stop seen).0.server
ungranted_message_example =
    ungranted_message node daemon to_stop seen viewer (codes "control.stop") stop_asks refl no_stop

run-Holds_example : Holds node daemon (run node daemon (sign_in ∷ to_start ∷ []) fresh).token
run-Holds_example = run-Holds node daemon (sign_in ∷ to_start ∷ []) fresh tt

viewer_valid : token_valid node seen ≡ none
unfolding token_valid denylisted has_permission text_eq has_scope
viewer_valid = refl
