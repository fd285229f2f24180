-- ===== src/Websocket/Handler/Admission.antt =====
-- The requests that ServeHTTP upgrades.
use mathlib.Core.Path.{◌≡◌, refl}
use mathlib.Core.Logic.{◌↔◌, ◌⊎◌, inl, inr}
use mathlib.Core.Bool.{Bool, true, false, ◌&&◌, not}
use mathlib.Core.Option.{Option, some}
use gologger.Prelude.{if◌then◌else◌}
use gologger.Text.{text_eq, is_empty, mem_text}
use gologger.Text.Laws.{text_eq_iff}
use gologger.Websocket.Protocol.{Json}
use gologger.Websocket.Connection.{Connection}
use gologger.Websocket.Handler.Local.{IsLocal, is_localhost_iff}
use gologger.Websocket.Handler.{
  Request, Handler, is_localhost, authenticate, origin_allowed, HttpError, Answer, refuses,
  upgrades, is_nil, admit, Session, Visit, connected, visit, serve_http,
}

module _ {D : Type 0} where
  -- With an API key the request has to show it; without one it has to come under a local name, if the
  -- handler allows that.
  abbrev pub IsIdentified : Handler D → Request → Type 0
  IsIdentified handler request =
      ((is_empty handler.api_key ≡ false) × (request.api_key ≡ handler.api_key))
      ⊎ ((is_empty handler.api_key ≡ true)
          × (handler.allow_localhost ≡ true)
          × IsLocal request.host)

  -- A request of a browser has to come from a listed origin, or under a local name.
  abbrev pub IsWelcome : Handler D → Request → Type 0
  IsWelcome handler request =
      (is_empty request.origin ≡ true)
      ⊎ ((mem_text request.origin handler.allowed_origins ≡ true)
          ⊎ ((handler.allow_localhost ≡ true) × IsLocal request.host))

-- A connection has run.
abbrev pub IsConnected : Visit → Type 0
IsConnected visit = (c : Option Connection) × (visit ≡ connected c)

identified-if :
    (no_key allow local shown same : Bool) {Local Same : Type 0}
    → (local ≡ true) ↔ Local
    → (same ≡ true) ↔ Same
    → (Same → no_key ≡ false → shown ≡ true)
    → ((if no_key then allow && local else shown && same) ≡ true)
      ↔ (((no_key ≡ false) × Same) ⊎ ((no_key ≡ true) × (allow ≡ true) × Local))
identified-if true true local shown same l m shows =
    (λ h. inr (refl, refl, l.0 h), λ h. elim h [ inl (key, x) ↦ cc key | inr (x, y, z) ↦ l.1 z ])
identified-if true false local shown same l m shows =
    (λ h. cc h, λ h. elim h [ inl (key, x) ↦ cc key | inr (x, y, z) ↦ cc y ])
identified-if false allow local true same l m shows =
    (λ h. inl (refl, m.0 h), λ h. elim h [ inl (key, x) ↦ m.1 x | inr (x, y, z) ↦ cc x ])
identified-if false allow local false same l m shows =
    (λ h. cc h, λ h. elim h [ inl (key, x) ↦ cc (shows x refl) | inr (x, y, z) ↦ cc x ])

welcome-if :
    (absent listed allow local : Bool) {Local : Type 0}
    → (local ≡ true) ↔ Local
    → ((if absent then true else if listed then true else allow && local) ≡ true)
      ↔ ((absent ≡ true) ⊎ ((listed ≡ true) ⊎ ((allow ≡ true) × Local)))
welcome-if true listed allow local l = (λ h. inl refl, λ h. refl)
welcome-if false true allow local l = (λ h. inr (inl refl), λ h. refl)
welcome-if false false true local l = (
  λ h. inr (inr (refl, l.0 h)),
  λ h. elim h [ inl x ↦ cc x | inr (inl x) ↦ cc x | inr (inr (x, y)) ↦ l.1 y ],
)
welcome-if false false false local l =
    (λ h. cc h, λ h. elim h [ inl x ↦ cc x | inr (inl x) ↦ cc x | inr (inr (x, y)) ↦ cc x ])

upgrades-if :
    (identified welcome missing : Bool) (u f t : HttpError) {Identified Welcome : Type 0}
    → (identified ≡ true) ↔ Identified
    → (welcome ≡ true) ↔ Welcome
    → ((if not identified
          then refuses u
          else if not welcome
          then refuses f
          else if missing
          then refuses t
          else upgrades)
        ≡ upgrades)
      ↔ (Identified × Welcome × (missing ≡ false))
upgrades-if false welcome missing u f t i w = (λ h. cc h, λ h. cc (i.1 h.0))
upgrades-if true false missing u f t i w = (λ h. cc h, λ h. cc (w.1 h.1))
upgrades-if true true true u f t i w = (λ h. cc h, λ h. cc h.2)
upgrades-if true true false u f t i w = (λ h. (i.0 refl, w.0 refl, refl), λ h. refl)

module _ {D : Type 0} where
  authenticate_iff :
      (handler : Handler D) (request : Request)
      → (authenticate handler request ≡ true) ↔ IsIdentified handler request
  unfolding authenticate
  authenticate_iff handler request =
      identified-if (is_empty handler.api_key) handler.allow_localhost (is_localhost request)
        (not (is_empty request.api_key)) (text_eq request.api_key handler.api_key)
        (is_localhost_iff request) (text_eq_iff request.api_key handler.api_key)
        (λ same some_key. rw (same, some_key) refl)

  origin_allowed_iff :
      (handler : Handler D) (request : Request)
      → (origin_allowed handler request ≡ true) ↔ IsWelcome handler request
  unfolding origin_allowed
  origin_allowed_iff handler request =
      welcome-if (is_empty request.origin) (mem_text request.origin handler.allowed_origins)
        handler.allow_localhost (is_localhost request) (is_localhost_iff request)

  pub admit-upgrades_iff :
      (handler : Handler D) (request : Request)
      → (admit handler request ≡ upgrades) ↔ (
          IsIdentified handler request
          × IsWelcome handler request
          × (is_nil handler.dispatcher ≡ false))
  unfolding admit
  admit-upgrades_iff handler request =
      upgrades-if (authenticate handler request) (origin_allowed handler request)
        (is_nil handler.dispatcher) _ _ _ (authenticate_iff handler request)
        (origin_allowed_iff handler request)

  visit-IsConnected :
      (json : Json) (handler : Handler D) (session : Session) (answer : Answer)
      → IsConnected (visit json handler (some session) answer) ↔ (answer ≡ upgrades)
  visit-IsConnected json handler session (refuses e) = (λ h. cc h.1, λ h. cc h)
  visit-IsConnected json handler session upgrades = (λ h. refl, λ h. (_, refl))

  -- A request that the websocket library can upgrade gets a connection exactly when it is identified,
  -- its origin is welcome, and the handler has a dispatcher. It is identified when it shows the API
  -- key of the handler, or, if there is none, when the handler allows local names and its Host is one.
  -- Its origin is welcome when it is absent or listed, or when the handler allows local names and its
  -- Host is one. A local name is "localhost" or "127.0.0.1", alone or followed by a colon and a port,
  -- or "::1" followed by a colon and a port.
  pub serve_http-upgrades_iff :
      (json : Json) (handler : Handler D) (request : Request) (session : Session)
      → IsConnected (serve_http json handler request (some session)) ↔ (
          IsIdentified handler request
          × IsWelcome handler request
          × (is_nil handler.dispatcher ≡ false))
  serve_http-upgrades_iff json handler request session =
      let through = visit-IsConnected json handler session (admit handler request) in
      let admitted = admit-upgrades_iff handler request in
      (λ h. admitted.0 (through.0 h), λ h. through.1 (admitted.1 h))
