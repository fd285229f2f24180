-- ===== src/Tests/Requests.antt =====
-- Requests to open a connection.
use mathlib.Core.Path.{◌≡◌, refl}
use mathlib.Core.Logic.{◌↔◌}
use mathlib.Core.Bool.{true, false}
use mathlib.Core.List.{[], ◌∷◌}
use mathlib.Core.Option.{none, some}
use gologger.Text.{Text, codes}
use gologger.Tests.Samples.{noon}
use gologger.Tests.Connections.{json, first, actions}
use gologger.Websocket.Handler.{
  Request, Handler, before_last_colon, is_localhost, authenticate, origin_allowed, refuses,
  upgrades, serve_http, read_limit, Answer, admit, is_nil, Session,
}
use gologger.Websocket.Handler.Local.{is_localhost-bracket}
use gologger.Websocket.Handler.Admission.{
  IsConnected, IsIdentified, IsWelcome, serve_http-upgrades_iff,
}

abbrev guarded : Handler (Unit {0})
guarded = record {
  dispatcher = some tt;
  api_key = codes "k1";
  read_limit = 0;
  write_queue_size = 0;
  allowed_origins = codes "https://ops.example" ∷ [];
  allow_localhost = true;
}

abbrev request : Request
request = record {
  api_key = codes "k1";
  origin = codes "https://ops.example";
  host = codes "logs.example:8080";
}

abbrev from_ipv6 : Request
from_ipv6 = record { api_key = []; origin = []; host = codes "[::1]:8080" }

abbrev pub session : Session
session = record {
  first = first;
  opened = noon;
  now = noon;
  failure = none;
  writes = true;
  actions = actions;
}

-- What ServeHTTP answers before Upgrade.
abbrev code_of : Answer → Text
code_of (refuses e) = e.body.code
code_of upgrades = []

admitted :
    (admit guarded request ≡ upgrades)
    × (code_of (admit guarded (record request { api_key = codes "k2" })) ≡ codes "UNAUTHORIZED")
    × (code_of (admit guarded (record request { origin = codes "https://else.example" }))
        ≡ codes "FORBIDDEN")
    × (admit guarded (record request { origin = codes "http://x"; host = codes "localhost:8080" })
        ≡ upgrades)
unfolding before_last_colon is_localhost authenticate origin_allowed admit
admitted = (refl, refl, refl, refl)

default_limit : read_limit guarded ≡ 1048576
unfolding read_limit
default_limit = refl

serve_http-upgrades_iff_example : IsConnected (serve_http json guarded request (some session)) ↔ (
    IsIdentified guarded request × IsWelcome guarded request × (is_nil guarded.dispatcher ≡ false))
serve_http-upgrades_iff_example = serve_http-upgrades_iff json guarded request session

ipv6_not_local : is_localhost from_ipv6 ≡ false
ipv6_not_local = is_localhost-bracket from_ipv6 (codes "::1]:8080") refl
