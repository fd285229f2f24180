-- ===== src/Server/Guard.antt =====
-- Whom a server lets open a connection after its start.
use mathlib.Core.Path.{◌≡◌, refl, ◌∙◌}
use mathlib.Core.Logic.{◌↔◌, ◌⊎◌, inl, inr}
use mathlib.Core.Bool.{Bool, true, false, ◌&&◌}
use mathlib.Core.Option.{Option, none, some}
use mathlib.Core.List.{List, [], ◌∷◌}
use gologger.Prelude.{if◌then◌else◌}
use gologger.Result.{Result, ok, err}
use gologger.Text.{Text, text_eq, is_empty, Unicode}
use gologger.Text.Laws.{text_eq_iff}
use gologger.Config.{Viper}
use gologger.Security.RateLimit.{Outcome, served, too_many_requests, client_key, middleware}
use gologger.Storage.Codec.{Codec}
use gologger.Storage.Files.{Directory}
use gologger.Websocket.Protocol.{Json}
use gologger.Websocket.Handler.{Session, Visit, serve_http}
use gologger.Websocket.Handler.Local.{IsLocal}
use gologger.Websocket.Handler.Admission.{IsConnected, serve_http-upgrades_iff}
use gologger.Server.Boot.{Server, open_locally, boot}
use gologger.Server.Started.{fresh_handler, boot-IsBooted}
use gologger.Server.Routes.{
  WebRequest, Endpoint, ws_events, health, health_live, health_ready, method_get, path_ws_events,
  routes, Library, first_match, IsLibrary, Exchange, Reply, visited, limiter_request,
  handler_request, reply, past_cors, past_limiter, serve, serve_all,
}

-- With an API key a request has to show it, and to have no origin; without one it has to come under a
-- local name.
abbrev pub IsGuest : Text → WebRequest → Type 0
IsGuest api_key request =
    ((is_empty api_key ≡ false) × (request.api_key ≡ api_key) × (is_empty request.origin ≡ true))
    ⊎ ((is_empty api_key ≡ true) × IsLocal request.host)

guests_iff :
    {D : Type 0} (json : Json) (dispatcher : D) (api_key : Text) (request : WebRequest)
    (session : Session)
    → IsConnected (
        serve_http json
          (open_locally (fresh_handler dispatcher api_key))
          (handler_request request)
          (some session))
      ↔ IsGuest api_key request
guests_iff json dispatcher [] request session =
    let known =
      serve_http-upgrades_iff json (open_locally (fresh_handler dispatcher []))
        (handler_request request) session in
    (
      λ h. elim (known.0 h).0 [
        | inl (key, shown) ↦ absurd (cc key)
        | inr (no_key, allowed, local) ↦ inr (refl, local)
      ],
      λ h. elim h [
        | inl (key, shown, absent) ↦ absurd (cc key)
        | inr (no_key, local) ↦ known.1 (inr (refl, refl, local), inr (inr (refl, local)), refl)
      ],
    )
guests_iff json dispatcher (c ∷ rest) request session =
    let known =
      serve_http-upgrades_iff json (open_locally (fresh_handler dispatcher (c ∷ rest)))
        (handler_request request) session in
    (
      λ h.
          let (identified, welcome, _) = known.0 h in
          elim identified [
            | inr (no_key, allowed, local) ↦ absurd (cc no_key)
            | inl (key, shown) ↦ elim welcome [
              | inl absent ↦ inl (refl, shown, absent)
              | inr (inl listed) ↦ absurd (cc listed)
              | inr (inr (allowed, local)) ↦ absurd (cc allowed)
            ]
          ],
      λ h. elim h [
        | inl (key, shown, absent) ↦ known.1 (inl (refl, shown), inl absent, refl)
        | inr (no_key, local) ↦ absurd (cc no_key)
      ],
    )

other_match :
    (b c d : Bool)
    → (if b
        then some health
        else if c
        then some health_live
        else if d
        then some health_ready
        else none)
      ≡ some ws_events
    → ⊥
other_match true c d h = cc h
other_match false true d h = cc h
other_match false false true h = cc h
other_match false false false h = cc h

match-if :
    (p m b c d : Bool) {P M : Type 0}
    → (p ≡ true) ↔ P
    → (m ≡ true) ↔ M
    → ((if p && m
          then some ws_events
          else if b
          then some health
          else if c
          then some health_live
          else if d
          then some health_ready
          else none)
        ≡ some ws_events)
      ↔ (P × M)
match-if true true b c d path method = (λ h. (path.0 refl, method.0 refl), λ h. refl)
match-if true false b c d path method = (λ h. absurd (other_match b c d h), λ h. cc (method.1 h.1))
match-if false m b c d path method = (λ h. absurd (other_match b c d h), λ h. cc (path.1 h.0))

-- The route of the WebSocket is the only one of its handler.
first_match-ws_events_iff :
    (request : WebRequest)
    → (first_match request routes ≡ some ws_events)
      ↔ ((request.path ≡ path_ws_events) × (request.method ≡ method_get))
first_match-ws_events_iff request =
    match-if (text_eq request.path path_ws_events) (text_eq request.method method_get) _ _ _
      (text_eq_iff request.path path_ws_events) (text_eq_iff request.method method_get)

-- The request has got a connection.
abbrev pub IsOpened : Reply → Type 0
IsOpened r = (visit : Visit) × (r ≡ visited visit) × IsConnected visit

module _ (json : Json) (library : Library) (server : Server) (x : Exchange)
    (request : WebRequest) where
  reply-IsOpened :
      (found : Result _ Endpoint)
      → IsOpened (reply json library server x request found) ↔ (
          (found ≡ ok ws_events)
          × IsConnected (serve_http json server.handler (handler_request request) x.session))
  reply-IsOpened (err status) = (λ h. cc h.1, λ h. cc h.0)
  reply-IsOpened (ok health) = (λ h. cc h.1, λ h. cc h.0)
  reply-IsOpened (ok health_live) = (λ h. cc h.1, λ h. cc h.0)
  reply-IsOpened (ok health_ready) = (λ h. cc h.1, λ h. cc h.0)
  reply-IsOpened (ok ws_events) = (
    λ h.
        let same : serve_http json server.handler (handler_request request) x.session ≡ h.0 =
          cc h.1 in
        (refl, rw same h.2),
    λ h. (_, refl, h.1),
  )

  past_cors-IsOpened :
      (answered : Option _)
      → IsOpened (past_cors json library server x request answered) ↔ (
          (answered ≡ none)
          × IsOpened (reply json library server x request (library.find routes request)))
  past_cors-IsOpened (some status) = (λ h. cc h.1, λ h. cc h.0)
  past_cors-IsOpened none = (λ h. (refl, h), λ h. h.1)

  past_limiter-IsOpened :
      (outcome : Outcome)
      → IsOpened (past_limiter json library server x request outcome) ↔ (
          (outcome ≡ served)
          × IsOpened (past_cors json library server x request (library.preflight request)))
  past_limiter-IsOpened too_many_requests = (λ h. cc h.1, λ h. cc h.0)
  past_limiter-IsOpened served = (λ h. (refl, h), λ h. h.1)

serve_all-handler :
    (json : Json) (library : Library) (earlier : List (Exchange × WebRequest)) (server : Server)
    → (serve_all json library earlier server).handler ≡ server.handler
unfolding serve
serve_all-handler json library [] server = refl
serve_all-handler json library ((x, request) ∷ rest) server =
    serve_all-handler json library rest (serve json library x request server).1

-- The limiter lets the request through, and cors does not answer it as a preflight.
abbrev pub IsPassed : Library → Server → Exchange → WebRequest → Type 0
IsPassed library server x request =
    ((middleware server.limiter x.arrived client_key (limiter_request request)).0 ≡ served)
    × (library.preflight request ≡ none)

-- Let a server have started. After whatever requests, a request that the websocket library can upgrade
-- gets a connection exactly when the limiter and cors let it through, it is a GET of /ws/events, and
-- it is a guest: with LOGGER_API_KEY set, it shows this key and has no Origin; without, its Host is a
-- local name.
pub serve-opens_iff :
    (u : Unicode) (codec : Codec) (viper : Viper) (json : Json) (library : Library) (api_key : Text)
    (mkdir_fails : Bool) (opens : Text → Bool) (files : Directory) (server : Server)
    (earlier : List (Exchange × WebRequest)) (x : Exchange) (request : WebRequest)
    (session : Session)
    → boot u codec viper api_key mkdir_fails opens files ≡ ok server
    → IsLibrary library
    → x.session ≡ some session
    → let now = serve_all json library earlier server in
      IsOpened (serve json library x request now).0 ↔ (
        IsPassed library now x request
        × (request.path ≡ path_ws_events)
        × (request.method ≡ method_get)
        × IsGuest api_key request)
unfolding serve
serve-opens_iff u codec viper json library api_key mkdir_fails opens files server earlier x request
      session booted lawful upgraded =
    let b = boot-IsBooted u codec viper api_key mkdir_fails opens files server booted in
    let now = serve_all json library earlier server in
    let outcome = (middleware now.limiter x.arrived client_key (limiter_request request)).0 in
    let limited = past_limiter-IsOpened json library now x request outcome in
    let crossed = past_cors-IsOpened json library now x request (library.preflight request) in
    let routed = reply-IsOpened json library now x request (library.find routes request) in
    let found = lawful.finds routes request ws_events in
    let matched = first_match-ws_events_iff request in
    let guests = guests_iff json b.dispatcher api_key request session in
    let same_handler : now.handler ≡ open_locally (fresh_handler b.dispatcher api_key) =
      serve_all-handler json library earlier server ∙ b.handler in
    let connects : IsConnected (serve_http json now.handler (handler_request request) x.session)
        ↔ IsGuest api_key request =
      rw (same_handler, upgraded) guests in
    (
      λ h.
          let (passes, past) = limited.0 h in
          let (crosses, answered) = crossed.0 past in
          let (reached, opened) = routed.0 answered in
          let (path, method) = matched.0 (found.0 reached) in
          ((passes, crosses), path, method, connects.0 opened),
      λ h.
          let ((passes, crosses), path, method, guest) = h in
          limited.1 (
            passes,
            crossed.1 (crosses, routed.1 (found.1 (matched.1 (path, method)), connects.1 guest)),
          ),
    )
