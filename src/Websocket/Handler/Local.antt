-- ===== src/Websocket/Handler/Local.antt =====
-- The names that isLocalhost takes for those of this machine.
use Prim.Native.Nat.{ℕ}
use mathlib.Core.Path.{◌≡◌, refl, ap, sym}
use mathlib.Core.Logic.{◌↔◌, ◌⊎◌, inl, inr, ◌≢◌}
use mathlib.Core.Bool.{true, false}
use mathlib.Core.Option.{Option, none, some}
use mathlib.Core.List.{[], ◌∷◌, ◌++◌}
use native.Mathlib.Omega.{arith}
use gologger.Prelude.{◌==◌, if◌then◌else◌, All, Bool-cases, ==_iff}
use gologger.Text.{Text, codes}
use gologger.Text.Laws.{text_eq_iff}
use gologger.Websocket.Handler.{Request, before_last_colon, or_whole, is_loopback, is_localhost}

abbrev pub NoColon : Text → Type 0
NoColon = All λ c. c ≢ b':'

before_last_colon-NoColon : (s : Text) → NoColon s → before_last_colon s ≡ none
unfolding before_last_colon
before_last_colon-NoColon [] h = refl
before_last_colon-NoColon (c ∷ rest) h =
    rw (before_last_colon-NoColon rest h.1) (ground (arith, h.0))

before_last_colon-port :
    (name port : Text) → NoColon port → before_last_colon (name ++ b':' ∷ port) ≡ some name
unfolding before_last_colon
before_last_colon-port [] port h = rw (before_last_colon-NoColon port h) refl
before_last_colon-port (c ∷ rest) port h = rw (before_last_colon-port rest port h) refl

-- A text without a colon, or what stands before its last colon.
abbrev pub Cut : Text → Option Text → Type 0
Cut s none = NoColon s
Cut s (some name) = (port : Text) × NoColon port × (s ≡ name ++ b':' ∷ port)

Cut-cons :
    (c : ℕ) (rest : Text) (o : Option Text)
    → Cut rest o
    → Cut
        (c ∷ rest)
        (elim o [ some before ↦ some (c ∷ before) | none ↦ if c == b':' then some [] else none ])
Cut-cons c rest (some before) (port, h, same) = (port, h, ap (◌∷◌ c) same)
Cut-cons c rest none h = elim (Bool-cases (c == b':')) [
  | inl colon ↦ rw colon (rest, h, ap (λ x. x ∷ rest) ((==_iff c b':').0 colon))
  | inr other ↦ rw other (λ same. cc ((==_iff c b':').1 same, other), h)
]

before_last_colon-Cut : (s : Text) → Cut s (before_last_colon s)
unfolding before_last_colon
before_last_colon-Cut [] = tt
before_last_colon-Cut (c ∷ rest) =
    Cut-cons c rest (before_last_colon rest) (before_last_colon-Cut rest)

-- The host names of the same machine.
abbrev pub IsLoopback : Text → Type 0
IsLoopback name = (name ≡ codes "localhost") ⊎ ((name ≡ codes "127.0.0.1") ⊎ (name ≡ codes "::1"))

is_loopback_iff : (name : Text) → (is_loopback name ≡ true) ↔ IsLoopback name
is_loopback_iff name = ground (
  arith,
  text_eq_iff name (codes "localhost"),
  text_eq_iff name (codes "127.0.0.1"),
  text_eq_iff name (codes "::1"),
)

-- Such a name without a colon, or one followed by a port.
abbrev pub IsLocal : Text → Type 0
IsLocal host =
    (NoColon host × IsLoopback host)
    ⊎ ((name : Text) × (port : Text) × IsLoopback name
        × NoColon port
        × (host ≡ name ++ b':' ∷ port))

Cut-IsLocal :
    (host : Text) (o : Option Text)
    → Cut host o
    → is_loopback (or_whole host o) ≡ true
    → IsLocal host
Cut-IsLocal host none h same = inl (h, (is_loopback_iff host).0 same)
Cut-IsLocal host (some name) (port, h, cut) same =
    inr (name, port, (is_loopback_iff name).0 same, h, cut)

pub is_localhost_iff : (request : Request) → (is_localhost request ≡ true) ↔ IsLocal request.host
unfolding is_localhost
is_localhost_iff request = (
  Cut-IsLocal request.host (before_last_colon request.host) (before_last_colon-Cut request.host),
  λ local. elim local [
    | inl (h, name) ↦
        rw (before_last_colon-NoColon request.host h) ((is_loopback_iff request.host).1 name)
    | inr (name, port, loopback, h, cut) ↦
        rw (cut, before_last_colon-port name port h) ((is_loopback_iff name).1 loopback)
  ],
)

abbrev start : Text → ℕ
start [] = 0
start (c ∷ rest) = c

-- No loopback name begins with a bracket.
other_start : {c : ℕ} {rest other : Text} → b'[' ∷ rest ≡ c ∷ other → c ≢ b'[' → ⊥
other_start same apart = apart (ap start (sym same))

bracket_not_local : (rest : Text) → IsLocal (b'[' ∷ rest) → ⊥
bracket_not_local rest (inl (h, inl same)) = other_start same (omega arith)
bracket_not_local rest (inl (h, inr (inl same))) = other_start same (omega arith)
bracket_not_local rest (inl (h, inr (inr same))) = other_start same (omega arith)
bracket_not_local rest (inr (name, port, inl same, h, cut)) =
    other_start (rw same at cut) (omega arith)
bracket_not_local rest (inr (name, port, inr (inl same), h, cut)) =
    other_start (rw same at cut) (omega arith)
bracket_not_local rest (inr (name, port, inr (inr same), h, cut)) =
    other_start (rw same at cut) (omega arith)

-- The Host of an IPv6 address, which stands in brackets, is never taken for that of this machine.
pub is_localhost-bracket :
    (request : Request) (rest : Text) → request.host ≡ b'[' ∷ rest → is_localhost request ≡ false
is_localhost-bracket request rest h = elim (Bool-cases (is_localhost request)) [
  | inr other ↦ other
  | inl local ↦ absurd (bracket_not_local rest (rw h at ((is_localhost_iff request).0 local)))
]
