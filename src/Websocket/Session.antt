-- ===== src/Websocket/Session.antt =====
-- The token of a connection of router/websocket: what is known of it, and what a new one causes.
use feathers.Prelude.{
  ◌≡◌, ◌⊎◌, inl, inr, refl, sym, subst, ◌∙◌, true, false, Option, none, some, List, [], ◌∷◌, arith,
  Bool-cases, Option-cases,
}
use feathers.Prelude.Text.{Text, codes, text_eq, text_eq_sound, text_eq_refl}
use feathers.Tokens.{WebsocketPayload, Denials, has_permission, has_scope, denylisted}
use feathers.Tokens.Permissions.{Granted, has_permission-Granted}
use feathers.Server.Power.{Server, Daemon}
use feathers.Websocket.{
  Message, Error, Node, Handler, authentication_event, write, complain, is_throttled, token_valid,
  lacks_connect, check_payload, new_token_payload,
}
use feathers.Websocket.Inbound.{
  handle_inbound, route, authenticate, authenticated, welcome, accept, set_jwt, concat,
}
use feathers.Websocket.Kept.{dispatch_token, accept_token}
use feathers.Websocket.Gates.{
  Writes, silent, wrote, Writes-trans, through, throttle-Writes, throttle_token, run,
}

module _ {E L : Type 0} (n : Node E L) (d : Daemon E) where
  -- A token that came out of the library for some text, grants the connection and has no scope or the
  -- one of a websocket.
  abbrev pub Vetted : WebsocketPayload → Type 0
  Vetted p =
      ((text : Text) × (e : E) × (n.parse_token text e ≡ inr p))
      × Granted (codes "websocket.connect") p.permissions
      × ((p.scope ≡ []) ⊎ (has_scope p.scope (codes "websocket") ≡ true))

  -- There is no token, or it is vetted.
  abbrev pub Holds : Option WebsocketPayload → Type 0
  Holds none = Unit {0}
  Holds (some p) = Vetted p

  checked :
      (den : Denials) (r : Error ⊎ WebsocketPayload) (p : WebsocketPayload)
      → check_payload den r ≡ inr p
      → (r ≡ inr p) × (lacks_connect den p ≡ false)
  unfolding check_payload
  checked den (inl err) p h = absurd (cc)
  checked den (inr q) p h = elim (Bool-cases (denylisted den q)) [
    | inl denied ↦ absurd (ground arith)
    | inr fresh ↦ elim (Bool-cases (lacks_connect den q)) [
      | inl lacking ↦ absurd (ground arith)
      | inr fine ↦ (ground arith, ground arith)
    ]
  ]

  connects :
      (den : Denials) (p : WebsocketPayload)
      → lacks_connect den p ≡ false
      → Granted (codes "websocket.connect") p.permissions
        × ((p.scope ≡ []) ⊎ (has_scope p.scope (codes "websocket") ≡ true))
  unfolding lacks_connect
  connects den p fine =
      let granted : has_permission den (codes "websocket.connect") p ≡ true = ground arith in
      (
        ((has_permission-Granted den (codes "websocket.connect") p).0 granted).1,
        elim (Bool-cases (text_eq p.scope [])) [
          | inl empty ↦ inl (text_eq_sound p.scope [] empty)
          | inr scoped ↦ inr (ground arith)
        ],
      )

  vet : (text : Text) (e : E) (p : WebsocketPayload) → new_token_payload n text e ≡ inr p → Vetted p
  unfolding new_token_payload
  vet text e p h =
      let (parsed, fine) = checked (n.denials e) (n.parse_token text e) p h in
      let (granted, scoped) = connects (n.denials e) p fine in ((text, e, parsed), granted, scoped)

  authenticated-Holds :
      (r : Error ⊎ WebsocketPayload) (h : Handler E L)
      → ((p : WebsocketPayload) → r ≡ inr p → Vetted p)
      → Holds h.token
      → Holds (authenticated n d r h).0.token
  unfolding authenticated
  authenticated-Holds (inl err) h good holds = holds
  authenticated-Holds (inr p) h good holds = subst Holds (sym (accept_token n d p h)) (good p refl)

  authenticate-Holds :
      (args : List Text) (h : Handler E L) → Holds h.token → Holds (authenticate n d args h).0.token
  unfolding authenticate
  authenticate-Holds args h holds =
      authenticated-Holds (new_token_payload n (concat args) h.server.rest) h
        (vet (concat args) h.server.rest) holds

  route-Holds : (m : Message) (h : Handler E L) → Holds h.token → Holds (route n d m h).0.token
  unfolding route complain write
  route-Holds m h holds = elim (Bool-cases (text_eq m.event authentication_event)) [
    | inl auth ↦ rw auth (authenticate-Holds m.args h holds)
    | inr other ↦ elim (Option-cases (token_valid n h)) [
      | inl fine ↦ rw (other, fine) (subst Holds (sym (dispatch_token n d m h)) holds)
      | inr (x, bad) ↦ rw (other, bad) holds
    ]
  ]

  -- If a connection has no token or a vetted one, that is still so after any messages: every token that
  -- it takes over is one that the library accepted, that grants "websocket.connect" and whose scope, where
  -- it has one, is that of a websocket.
  pub run-Holds : (ms : List Message) (h : Handler E L) → Holds h.token → Holds (run n d ms h).token
  run-Holds [] h holds = holds
  run-Holds (m ∷ ms) h holds =
      let late = subst Holds (sym (throttle_token n d m.event h)) holds in
      run-Holds ms _ (
        through n d (λ k. Holds k.token) m h holds late
          (route-Holds m (is_throttled n m.event h).0 late))

  welcome-Writes :
      (o : Option WebsocketPayload) (s : Server E) (h : Handler E L) (old : WebsocketPayload)
      → o ≡ some old
      → Writes n d s h.server
      → Writes n d s (welcome n d o h).server
  unfolding welcome
  welcome-Writes none s h old t w = absurd (cc)
  welcome-Writes (some p) s h old t w = w

  renewed :
      (r : Error ⊎ WebsocketPayload) (h : Handler E L) (old : WebsocketPayload)
      → h.token ≡ some old
      → Writes n d h.server (authenticated n d r h).0.server
  unfolding authenticated accept write set_jwt
  renewed (inl err) h old t = silent
  renewed (inr p) h old t = welcome-Writes h.token h.server _ old t (wrote _ silent)

  renewed_route :
      (m : Message) (h : Handler E L) (old : WebsocketPayload)
      → text_eq m.event authentication_event ≡ true
      → h.token ≡ some old
      → Writes n d h.server (route n d m h).0.server
  unfolding route authenticate
  renewed_route m h old auth t =
      rw auth (renewed (new_token_payload n (concat m.args) h.server.rest) h old t)

  -- A connection that has a token and authenticates again gets at most messages: no listener is started
  -- a second time, and nothing of the server changes.
  pub renewal_only-Writes :
      (m : Message) (h : Handler E L) (old : WebsocketPayload)
      → m.event ≡ authentication_event
      → h.token ≡ some old
      → Writes n d h.server (handle_inbound n d m h).0.server
  renewal_only-Writes m h old auth t =
      let w = throttle-Writes n d m.event h.server h silent in
      let auth' : text_eq m.event authentication_event ≡ true =
        rw auth (text_eq_refl authentication_event) in
      through n d (λ k. Writes n d h.server k.server) m h silent w
        (Writes-trans n d w (
          renewed_route m (is_throttled n m.event h).0 old auth'
            (throttle_token n d m.event h ∙ t)))
