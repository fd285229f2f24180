-- ===== src/Client/Sent.antt =====
-- When Send of client.go succeeds, and that it does not with the server of cmd/server.
use Prim.Native.Nat.{ℕ, ◌≤◌, ◌<◌}
use mathlib.Core.Path.{◌≡◌, refl, ap, ◌∙◌}
use mathlib.Core.Logic.{◌≢◌, ◌⊎◌, inl, inr}
use mathlib.Core.Bool.{Bool, true, false, ◌&&◌, ◌||◌}
use mathlib.Core.Option.{Option, none, some}
use mathlib.Core.List.{◌++◌}
use native.Mathlib.Omega.{arith}
use gologger.Prelude.{◌==◌, Bool-cases}
use gologger.Result.{Result, ok, err, >>=-eq-ok}
use gologger.Text.{Text, text_eq, codes}
use gologger.Security.RateLimit.{Outcome, served, too_many_requests}
use gologger.Storage.Codec.{Bytes}
use gologger.Websocket.Protocol.{Json}
use gologger.Websocket.Handler.{refused, not_upgraded, connected}
use gologger.Server.Boot.{Server}
use gologger.Server.Routes.{
  WebRequest, Endpoint, path_ws_events, method_post, routes, Library, first_match, IsLibrary,
  Exchange, Reply, rate_limited, by_library, responded, visited, reply, past_cors, past_limiter,
  serve,
}
use gologger.Client.{
  LogEntry, Post, Do, Client, Network, from_library, made_request, or_new, check_status, post_of,
  send,
}

from_library-eq-ok :
    {A : Type 0} (r : Result Text A) {value : A} → from_library r ≡ ok value → r ≡ ok value
from_library-eq-ok (err text) h = absurd (cc h)
from_library-eq-ok (ok value) h = cc h

made_request-eq-ok :
    (failure : Option Text) (post : Post) {made : Post}
    → made_request failure post ≡ ok made
    → (failure ≡ none) × (post ≡ made)
made_request-eq-ok none post h = (refl, cc h)
made_request-eq-ok (some text) post h = absurd (cc h)

check_status-eq-ok :
    (status : ℕ) {done : Unit {0}} → check_status status ≡ ok done → (200 ≤ status) × (status < 300)
unfolding check_status
check_status-eq-ok status h = ground arith

-- The entry is encoded, the URL is one, and the exchange has a status of success.
record IsSent (network : Network) (client : Client) (entry : LogEntry) : Type 0 where
  body : Bytes
  encoded : network.marshal entry ≡ ok body
  url : network.new_request_error (client.base_url ++ codes "/logs") ≡ none
  status : ℕ
  answered : or_new client.http network.new_http_client (post_of client body) ≡ ok status
  from : 200 ≤ status
  to : status < 300

send-IsSent :
    (network : Network) (client : Client) (entry : LogEntry)
    → send network client entry ≡ ok tt
    → IsSent network client entry
unfolding send
send-IsSent network client entry h =
    let (body, encoding, next) = >>=-eq-ok (from_library (network.marshal entry)) _ h in
    let (post, making, then') =
      >>=-eq-ok
        (made_request (network.new_request_error (client.base_url ++ codes "/logs"))
          (post_of client body))
        _ next in
    let (status, doing, last) =
      >>=-eq-ok (from_library (or_new client.http network.new_http_client post)) _ then' in
    let (url, same) = made_request-eq-ok _ (post_of client body) making in
    let (from', to') = check_status-eq-ok status last in
    record {
      body = body;
      encoded = from_library-eq-ok (network.marshal entry) encoding;
      url = url;
      status = status;
      answered =
          ap (λ p. or_new client.http network.new_http_client p) same
          ∙ from_library-eq-ok (or_new client.http network.new_http_client post) doing;
      from = from';
      to = to';
    }

-- The status of a reply, where that of an upgraded connection is not of the program.
abbrev pub status_of : Reply → Option ℕ
status_of rate_limited = some 429
status_of (by_library status) = some status
status_of (responded response) = some response.status
status_of (visited (refused e)) = some e.status
status_of (visited not_upgraded) = none
status_of (visited (connected c)) = none

-- The statuses of a reply to a POST whose redirect the HTTP client follows.
abbrev pub is_redirect : ℕ → Bool
is_redirect status =
    status == 301 || (status == 302 || (status == 303 || (status == 307 || status == 308)))

-- What is relied on of http.Client.Do: the request is answered by the server, at some time, with the
-- method and the path of the URL of the request that is sent; the status of the answer is the one that is
-- returned, unless it is that of a redirect, after which it is any. `path_of` is the path of a URL.
abbrev pub Follows : Json → Library → (Text → Text) → Do → Type 0
Follows json library path_of http =
    (post : Post) (status : ℕ)
    → http post ≡ ok status
    → (server : Server) × (x : Exchange) × (request : WebRequest) × (answer : ℕ) × (request.method
        ≡ post.method)
      × (request.path ≡ path_of post.url)
      × (status_of (serve json library x request server).0 ≡ some answer)
      × ((is_redirect answer ≡ true) ⊎ (status ≡ answer))

-- The router redirects requests to the cleaned path only; so it redirects none whose path is clean.
abbrev pub RedirectsToClean : Library → (Text → Bool) → Type 0
RedirectsToClean library is_clean =
    (request : WebRequest) (status : ℕ)
    → library.find routes request ≡ err status
    → is_redirect status ≡ true
    → is_clean request.path ≡ false

and_false : (b : Bool) → (b && false) ≡ false
and_false true = refl
and_false false = refl

-- No route has the method POST.
first_match-post :
    (request : WebRequest) → request.method ≡ method_post → first_match request routes ≡ none
first_match-post request posts =
    rw
      (
        posts,
        and_false (text_eq request.path path_ws_events),
        and_false (text_eq request.path (codes "/health")),
        and_false (text_eq request.path (codes "/health/live")),
        and_false (text_eq request.path (codes "/health/ready")),
      )
      refl

-- The statuses of replies with which Send fails.
abbrev IsFinal : ℕ → Type 0
IsFinal status = (300 ≤ status) × (is_redirect status ≡ false)

module _ (json : Json) (library : Library) (lawful : IsLibrary library) (is_clean : Text → Bool)
    (cleans : RedirectsToClean library is_clean) (server : Server) (x : Exchange)
    (request : WebRequest) (posts : request.method ≡ method_post)
    (clean : is_clean request.path ≡ true) where
  found-IsFinal :
      (found : Result ℕ Endpoint) (status : ℕ)
      → library.find routes request ≡ found
      → status_of (reply json library server x request found) ≡ some status
      → IsFinal status
  found-IsFinal (err missed) status finding same =
      let same_status : missed ≡ status = cc same in
      rw (← same_status) (
        lawful.misses routes request missed finding,
        elim (Bool-cases (is_redirect missed)) [
          | inl redirects ↦ absurd (cc (cleans request missed finding redirects, clean))
          | inr stays ↦ stays
        ],
      )
  found-IsFinal (ok endpoint) status finding same =
      cc ((lawful.finds routes request endpoint).0 finding, first_match-post request posts)

  past_cors-IsFinal :
      (answered : Option ℕ) (status : ℕ)
      → library.preflight request ≡ answered
      → status_of (past_cors json library server x request answered) ≡ some status
      → IsFinal status
  past_cors-IsFinal (some early) status preflight same =
      absurd (cc (lawful.preflights request early preflight, posts))
  past_cors-IsFinal none status preflight same =
      found-IsFinal (library.find routes request) status refl same

  past_limiter-IsFinal :
      (outcome : Outcome) (status : ℕ)
      → status_of (past_limiter json library server x request outcome) ≡ some status
      → IsFinal status
  past_limiter-IsFinal too_many_requests status same =
      let same_status : 429 ≡ status = cc same in rw (← same_status) (omega arith, refl)
  past_limiter-IsFinal served status same =
      past_cors-IsFinal (library.preflight request) status refl same

  post-IsFinal :
      (status : ℕ)
      → status_of (serve json library x request server).0 ≡ some status
      → IsFinal status
  unfolding serve
  post-IsFinal status same = past_limiter-IsFinal _ status same

-- Let the path of the URL of the logs, which is the base URL followed by /logs, be clean; let the router
-- redirect no request whose path is clean; and let the HTTP client return the status with which the
-- server, in whatever state, answers the POST to this path, save after a redirect, when it may return any.
-- Then Send returns an error, whatever the key and the entry.
pub send-fails :
    (json : Json) (library : Library) (network : Network) (client : Client) (entry : LogEntry)
    (path_of : Text → Text) (is_clean : Text → Bool)
    → IsLibrary library
    → RedirectsToClean library is_clean
    → Follows json library path_of (or_new client.http network.new_http_client)
    → is_clean (path_of (client.base_url ++ codes "/logs")) ≡ true
    → send network client entry ≢ ok tt
send-fails json library network client entry path_of is_clean lawful cleans follows clean sent =
    let s = send-IsSent network client entry sent in
    let (server, x, request, answer, posts, at, same, ends) =
      follows (post_of client s.body) s.status s.answered in
    let (failing, stays) =
      post-IsFinal json library lawful is_clean cleans server x request posts (rw at clean) answer
        same in
    elim ends [
      | inl redirects ↦ absurd (cc (redirects, stays))
      | inr last ↦ absurd (omega (arith, failing, last, s.to))
    ]
