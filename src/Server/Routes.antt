-- ===== src/Server/Routes.antt =====
-- What the server of cmd/server/main.go does with a request. The package cors and the router are a
-- parameter.
use Prim.Native.Nat.{ℕ, ◌≤◌}
use mathlib.Core.Path.{◌≡◌}
use mathlib.Core.Logic.{◌↔◌}
use mathlib.Core.Bool.{Bool, ◌&&◌}
use mathlib.Core.Option.{Option, none, some}
use mathlib.Core.List.{List, [], ◌∷◌}
use gologger.Prelude.{if◌then◌else◌}
use gologger.Result.{Result, ok, err}
use gologger.Text.{Text, text_eq, codes}
use gologger.Clock.{Time}
use gologger.Security.RateLimit.{Outcome, served, too_many_requests, client_key, middleware}
use gologger.Security.RateLimit
use gologger.Storage.JsonFile.{FileError}
use gologger.Websocket.Protocol.{Json}
use gologger.Websocket.Handler.{Session, Visit, serve_http}
use gologger.Websocket.Handler
use gologger.Server.{Response, health_handler, liveness_handler, readiness_handler}
use gologger.Server.Boot.{Server}

-- A request, as far as the program reads it; `remote_host` is what net.SplitHostPort makes of the remote
-- address.
pub record WebRequest : Type 0 where
  pub method : Text
  pub path : Text
  pub api_key : Text
  pub origin : Text
  pub host : Text
  pub remote_addr : Text
  pub remote_host : Option Text

-- The handlers of the router.
pub data Endpoint : Type 0 where
  ws_events health health_live health_ready : Endpoint

pub record Route : Type 0 where
  pub path : Text
  pub method : Text
  pub endpoint : Endpoint

abbrev pub method_get : Text
method_get = codes "GET"

abbrev pub method_post : Text
method_post = codes "POST"

abbrev pub path_ws_events : Text
path_ws_events = codes "/ws/events"

abbrev pub routes : List Route
routes =
    record { path = path_ws_events; method = method_get; endpoint = ws_events }
    ∷ record { path = codes "/health"; method = method_get; endpoint = health }
    ∷ record { path = codes "/health/live"; method = method_get; endpoint = health_live }
    ∷ record { path = codes "/health/ready"; method = method_get; endpoint = health_ready }
    ∷ []

-- The package cors answers a preflight with a status of its own; the router finds the handler of a
-- request, or answers with a status.
pub record Library : Type 0 where
  pub preflight : WebRequest → Option ℕ
  pub find : List Route → WebRequest → Result ℕ Endpoint

abbrev pub matches_route : WebRequest → Route → Bool
matches_route request route = text_eq request.path route.path && text_eq request.method route.method

-- The first route with the path and the method.
abbrev pub first_match : WebRequest → List Route → Option Endpoint
first_match request [] = none
first_match request (route ∷ rest) =
    if matches_route request route then some route.endpoint else first_match request rest

-- A preflight has the method OPTIONS. The router takes the first route that matches; a request without
-- one is redirected, not found, or its method is not allowed.
pub record IsLibrary (library : Library) : Type 0 where
  pub preflights :
      (request : WebRequest) (status : ℕ)
      → library.preflight request ≡ some status
      → request.method ≡ codes "OPTIONS"
  pub finds :
      (l : List Route) (request : WebRequest) (endpoint : Endpoint)
      → (library.find l request ≡ ok endpoint) ↔ (first_match request l ≡ some endpoint)
  pub misses :
      (l : List Route) (request : WebRequest) (status : ℕ)
      → library.find l request ≡ err status
      → 300 ≤ status

-- What a request meets: the time at the limiter, what store.Health returns and when, and what happens on
-- the connection if the websocket library upgrades the request.
pub record Exchange : Type 0 where
  pub arrived : ℕ
  pub store_health : Result FileError (Unit {0})
  pub now : Time
  pub session : Option Session

pub data Reply : Type 0 where
  rate_limited : Reply
  by_library : ℕ → Reply
  responded : Response → Reply
  visited : Visit → Reply

abbrev pub limiter_request : WebRequest → RateLimit.Request
limiter_request request = record {
  api_key = request.api_key;
  remote_addr = request.remote_addr;
  host = request.remote_host;
}

abbrev pub handler_request : WebRequest → Handler.Request
handler_request request = record {
  api_key = request.api_key;
  origin = request.origin;
  host = request.host;
}

module _ (json : Json) (library : Library) where
  abbrev pub reply : Server → Exchange → WebRequest → Result ℕ Endpoint → Reply
  reply server x request (err status) = by_library status
  reply server x request (ok ws_events) =
      visited (serve_http json server.handler (handler_request request) x.session)
  reply server x request (ok health) = responded (health_handler x.store_health x.now)
  reply server x request (ok health_live) = responded (liveness_handler x.now)
  reply server x request (ok health_ready) = responded (readiness_handler x.store_health x.now)

  -- The handler of cors, before the router.
  abbrev pub past_cors : Server → Exchange → WebRequest → Option ℕ → Reply
  past_cors server x request (some status) = by_library status
  past_cors server x request none = reply server x request (library.find routes request)

  abbrev pub past_limiter : Server → Exchange → WebRequest → Outcome → Reply
  past_limiter server x request too_many_requests = rate_limited
  past_limiter server x request served = past_cors server x request (library.preflight request)

  unfoldable pub serve : Exchange → WebRequest → Server → Reply × Server
  serve x request server =
      let (outcome, limiter) =
        middleware server.limiter x.arrived client_key (limiter_request request) in
      (past_limiter server x request outcome, record server { limiter = limiter })

  -- The server after some requests.
  abbrev pub serve_all : List (Exchange × WebRequest) → Server → Server
  serve_all [] server = server
  serve_all ((x, request) ∷ rest) server = serve_all rest (serve x request server).1
