-- ===== src/Tests/Routes.antt =====
-- The routes of the server at concrete requests, and the client.
use mathlib.Core.Path.{◌≡◌, refl, ap}
use mathlib.Core.Bool.{Bool, true, false, ◌&&◌, ◌||◌, not}
use mathlib.Core.Option.{none, some}
use mathlib.Core.List.{[], ◌∷◌}
use gologger.Result.{ok}
use gologger.Text.{codes, is_space, trim_left, trim_right, trim_space}
use gologger.Tests.Samples.{ascii, noon}
use gologger.Tests.Files.{toy}
use gologger.Tests.Services.{viper}
use gologger.Tests.Requests.{session}
use gologger.Tests.Connections.{json}
use Prim.Native.Nat.{ℕ, zero, suc, ◌≤◌}
use mathlib.Core.Logic.{◌↔◌, ◌≢◌, ◌⊎◌, inl, inr}
use mathlib.Core.Option.{Option}
use gologger.Prelude.{◌==◌, if◌then◌else◌, Bool-cases}
use native.Mathlib.Omega.{arith}
use gologger.Result.{Result, err}
use gologger.Text.{Text, codes, trim_space, trim_left, trim_right, is_space}
use gologger.GoMap.{lookup}
use gologger.Security.RateLimit.{new_fixed_window_limiter, middleware, allow, client_key}
use gologger.Server.Routes.{
  WebRequest, Endpoint, routes, method_get, path_ws_events, Library, first_match, IsLibrary,
  Exchange, serve, serve_all,
}
use gologger.Server.Guard.{IsOpened, IsPassed, IsGuest, serve-opens_iff}
use gologger.Client.{Do, Post, Client, Network, LogEntry, returned_status, check_status, send}
use gologger.Client.Sent.{status_of, is_redirect, Follows, RedirectsToClean, send-fails}
use gologger.Tests.Server.{server, booted}

has_double_slash : Text → Bool
has_double_slash [] = false
has_double_slash (c ∷ []) = false
has_double_slash (c ∷ d ∷ rest) = c == 47 && d == 47 || has_double_slash (d ∷ rest)

abbrev is_clean : Text → Bool
is_clean path = not (has_double_slash path)

abbrev or_missing : Bool → Option Endpoint → Result ℕ Endpoint
or_missing true none = err 404
or_missing false none = err 301
or_missing clean (some endpoint) = ok endpoint

-- No preflight is answered; a request without a route is not found, or redirected if its path has a double
-- slash.
abbrev library : Library
library = record {
  preflight = λ request. none;
  find = λ l request. or_missing (is_clean request.path) (first_match request l);
}

found_iff :
    (clean : Bool) (o : Option Endpoint) (endpoint : Endpoint)
    → (or_missing clean o ≡ ok endpoint) ↔ (o ≡ some endpoint)
found_iff true none endpoint = (λ h. cc h, λ h. cc h)
found_iff false none endpoint = (λ h. cc h, λ h. cc h)
found_iff true (some other) endpoint = (λ h. cc h, λ h. cc h)
found_iff false (some other) endpoint = (λ h. cc h, λ h. cc h)

missed :
    (clean : Bool) (o : Option Endpoint) (status : ℕ)
    → or_missing clean o ≡ err status
    → (300 ≤ status) × (is_redirect status ≡ true → clean ≡ false)
missed true none status h =
    let same : 404 ≡ status = cc h in rw (← same) (omega arith, λ redirects. cc redirects)
missed false none status h = let same : 301 ≡ status = cc h in rw (← same) (omega arith, λ r. refl)
missed true (some endpoint) status h = cc h
missed false (some endpoint) status h = cc h

library-IsLibrary : IsLibrary library
library-IsLibrary = record {
  preflights = λ request status h. cc h;
  finds = λ l request endpoint. found_iff (is_clean request.path) (first_match request l) endpoint;
  misses =
      λ l request status h. (missed (is_clean request.path) (first_match request l) status h).0;
}

library-RedirectsToClean : RedirectsToClean library is_clean
library-RedirectsToClean request status h =
    (missed (is_clean request.path) (first_match request routes) status h).1

abbrev request : WebRequest
request = record {
  method = method_get;
  path = path_ws_events;
  api_key = codes "k1";
  origin = [];
  host = codes "logs.example:8080";
  remote_addr = codes "10.0.0.7:50000";
  remote_host = some (codes "10.0.0.7");
}

abbrev exchange : Exchange
exchange = record {
  arrived = noon.instant;
  store_health = ok tt;
  now = noon;
  session = some session;
}

-- It has met the limiter before.
serve-opens_iff_example :
    let now = serve_all json library ((exchange, request) ∷ []) server in
    IsOpened (serve json library exchange request now).0 ↔ (
      IsPassed library now exchange request
      × (request.path ≡ path_ws_events)
      × (request.method ≡ method_get)
      × IsGuest (codes "k1") request)
serve-opens_iff_example =
    serve-opens_iff ascii toy viper json library (codes "k1") false (λ n. true) [] server
      ((exchange, request) ∷ []) exchange request session booted library-IsLibrary refl

without_first : ℕ → Text → Text
without_first zero t = t
without_first (suc n) [] = []
without_first (suc n) (c ∷ rest) = without_first n rest

-- What follows http://logs.example:8080.
abbrev path_of : Text → Text
path_of = without_first 24

-- The server behind the URL of a client.
abbrev posted : Post → WebRequest
posted post = record request { method = post.method; path = path_of post.url }

-- A redirect leads to a page with the status 200.
abbrev followed : Option ℕ → Result Text ℕ
followed none = err (codes "EOF")
followed (some status) = ok (if is_redirect status then 200 else status)

abbrev http : Do
http post = followed (status_of (serve json library exchange (posted post) server).0)

followed-ok :
    (o : Option ℕ) (status : ℕ)
    → followed o ≡ ok status
    → (answer : ℕ) × (o ≡ some answer) × ((is_redirect answer ≡ true) ⊎ (status ≡ answer))
followed-ok none status h = cc h
followed-ok (some answer) status h = (
  answer,
  refl,
  elim (Bool-cases (is_redirect answer)) [
    | inl redirects ↦ inl redirects
    | inr last ↦ inr (cc (h, ap (λ b. if b then 200 else answer) last))
  ],
)

http-Follows : Follows json library path_of http
http-Follows post status h =
    let (answer, answered, last) = followed-ok _ status h in
    (server, exchange, posted post, answer, refl, refl, answered, last)

abbrev network : Network
network = record {
  marshal = λ entry. ok (codes "{}");
  new_request_error = λ url. none;
  new_http_client = http;
}

abbrev client : Client
client = record { base_url = codes "http://logs.example:8080"; api_key = codes "k1"; http = none }

abbrev entry : LogEntry
entry = record { level = codes "info"; service_name = codes "orders"; data_fields = none }

clean_logs : is_clean (path_of (codes "http://logs.example:8080/logs")) ≡ true
unfolding has_double_slash without_first
clean_logs = refl

send-fails_example : send network client entry ≢ ok tt
send-fails_example =
    send-fails json library network client entry path_of is_clean library-IsLibrary
      library-RedirectsToClean http-Follows clean_logs

-- It is told that there is no such route.
answered : send network client entry ≡ err (returned_status 404)
unfolding send check_status serve middleware allow client_key new_fixed_window_limiter lookup
    trim_space trim_left trim_right is_space has_double_slash without_first
answered = refl

-- With a base URL that leads to a redirect Send succeeds, and nothing is logged.
redirected :
    send network (record client { base_url = codes "http://logs.example:8080//health?" }) entry
    ≡ ok tt
unfolding send check_status serve middleware allow client_key new_fixed_window_limiter lookup
    trim_space trim_left trim_right is_space has_double_slash without_first
redirected = refl
