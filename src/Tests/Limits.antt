-- ===== src/Tests/Limits.antt =====
-- The limiters at concrete calls.
use Prim.Native.Nat.{ℕ, ◌+◌, ◌≤◌, ◌<◌}
use mathlib.Core.Path.{◌≡◌, refl}
use mathlib.Core.List.{List, [], ◌∷◌}
use native.Mathlib.Omega.{arith}
use gologger.Prelude.{ltb}
use mathlib.Core.Logic.{◌≢◌}
use mathlib.Core.Bool.{false}
use gologger.Text.Laws.{text_eq_iff}
use gologger.Text.{Text, text_eq, codes, trim_space, trim_left, trim_right, is_space}
use mathlib.Core.Option.{some}
use gologger.GoMap.{lookup, put}
use gologger.Clock.{zero_instant}
use gologger.Security.RateLimit.{new_fixed_window_limiter, allow, Request}
use gologger.Security.RateLimit.Rotation.{Rotates, Served, pass_all, rotating_keys-Served}
use gologger.Security.RateLimit.Burst.{Call, granted, granted-lt}
use gologger.Security.RateLimit.Connections.{
  new_connection_limiter, try_acquire, acquires, releases, Move, moved, connections_exact,
}
use gologger.Security.RateLimit.Connections

abbrev start : ℕ
start = zero_instant + 1

-- With a limit of 2 and a window of 10, three calls of "a" are allowed within 10 nanoseconds: the
-- last call of one window and two of the next.
abbrev calls : List Call
calls =
    (start, codes "a")
    ∷ (start + 9, codes "a")
    ∷ (start + 9, codes "a")
    ∷ (start + 10, codes "b")
    ∷ (start + 10, codes "a")
    ∷ (start + 11, codes "a")
    ∷ []

three_allowed : granted (codes "a") (start + 5) calls (new_fixed_window_limiter 2 10) ≡ 3
unfolding granted new_fixed_window_limiter allow lookup put
three_allowed = refl

granted-lt_example : granted (codes "a") (start + 5) calls (new_fixed_window_limiter 2 10) < 4
unfolding new_fixed_window_limiter
granted-lt_example = granted-lt (codes "a") (start + 5) 0 2 10 calls (omega arith) (omega arith)

abbrev moves : List Move
moves = acquires ∷ acquires ∷ acquires ∷ releases ∷ []

connections_exact_example :
    ((Connections.run moves (0, new_connection_limiter 2)).0 ≤ 2)
    × ((try_acquire (Connections.run moves (0, new_connection_limiter 2)).1).0
        ≡ ltb (Connections.run moves (0, new_connection_limiter 2)).0 2)
connections_exact_example = connections_exact 2 moves (omega arith)

-- One client, whose key is another each time, with a limit of one request a minute.
abbrev request : Request
request = record {
  api_key = codes "guess-1";
  remote_addr = codes "10.0.0.7:50000";
  host = some (codes "10.0.0.7");
}

abbrev guesses : List (ℕ × Request)
guesses =
    (start, request)
    ∷ (start, record request { api_key = codes " guess-2" })
    ∷ (start + 1, record request { api_key = codes "guess-3" })
    ∷ []

text_apart : (a b : Text) → text_eq a b ≡ false → a ≢ b
text_apart a b other same = cc ((text_eq_iff a b).1 same, other)

guesses-Rotates : Rotates guesses
unfolding trim_space trim_left trim_right is_space
guesses-Rotates = (
  refl,
  (text_apart _ _ refl, (text_apart _ _ refl, tt)),
  (refl, (text_apart _ _ refl, tt), (refl, tt, tt)),
)

rotating_keys-Served_example : Served 3 (pass_all guesses (some (new_fixed_window_limiter 1 60)))
rotating_keys-Served_example = rotating_keys-Served 1 60 guesses guesses-Rotates
