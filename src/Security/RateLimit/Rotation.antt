-- ===== src/Security/RateLimit/Rotation.antt =====
-- What the limiter does with a client that changes its X-API-Key, which nothing has checked yet.
use Prim.Native.Nat.{ℕ, suc, ◌+◌}
use mathlib.Core.Path.{◌≡◌, refl, sym, ◌∙◌}
use mathlib.Core.Logic.{◌≢◌, inl, inr}
use mathlib.Core.Bool.{true, false}
use mathlib.Core.Option.{Option, none, some}
use mathlib.Core.List.{List, [], ◌∷◌, ◌++◌, append_cancel_left}
use native.Mathlib.Omega.{arith}
use gologger.Prelude.{Bool-cases, All, length, length-append}
use gologger.Text.{Text, text_eq, codes, is_empty, trim_space}
use gologger.Text.Laws.{text_eq_iff}
use gologger.GoMap.{GoMap, lookup, put, lookup-put, put-append}
use gologger.Security.RateLimit.{
  WindowCounter, FixedWindowLimiter, new_fixed_window_limiter, allow, Request, client_key, Outcome,
  served, middleware,
}

-- Requests at their times, one after the other.
abbrev pub pass_all :
    List (ℕ × Request) → Option FixedWindowLimiter → List Outcome × Option FixedWindowLimiter
pass_all [] limiter = ([], limiter)
pass_all ((now, request) ∷ rest) limiter =
    let (outcome, limiter') = middleware limiter now client_key request in
    let (outcomes, after) = pass_all rest limiter' in (outcome ∷ outcomes, after)

-- Each shows some key, with blanks trimmed, that no later one shows.
abbrev pub Rotates : List (ℕ × Request) → Type 0
Rotates [] = Unit
Rotates ((now, request) ∷ rest) =
    (is_empty (trim_space request.api_key) ≡ false)
    × All (λ p. trim_space request.api_key ≢ trim_space p.1.api_key) rest
    × Rotates rest

-- Every request is served, and the limiter has so many counters.
pub record Served (counters : ℕ) (result : List Outcome × Option FixedWindowLimiter) : Type 0 where
  pub outcomes : All (λ o. o ≡ served) result.0
  pub limiter : FixedWindowLimiter
  pub left : result.1 ≡ some limiter
  pub counted : length limiter.items ≡ counters

abbrev key_prefix : Text
key_prefix = codes "api-key:"

client_key-shown :
    (request : Request)
    → is_empty (trim_space request.api_key) ≡ false
    → client_key request ≡ key_prefix ++ trim_space request.api_key
unfolding client_key
client_key-shown request shown = rw shown refl

client_key-apart :
    (a b : Request)
    → is_empty (trim_space a.api_key) ≡ false
    → is_empty (trim_space b.api_key) ≡ false
    → trim_space a.api_key ≢ trim_space b.api_key
    → text_eq (client_key a) (client_key b) ≡ false
client_key-apart a b shown shown' apart =
    elim (Bool-cases (text_eq (client_key a) (client_key b))) [
      | inr other ↦ other
      | inl same ↦ absurd (
          apart (
            append_cancel_left key_prefix _ _ (
              sym (client_key-shown a shown)
              ∙ (text_eq_iff (client_key a) (client_key b)).0 same
              ∙ client_key-shown b shown')))
    ]

allow-fresh :
    (now : ℕ) (key : Text) (limiter : FixedWindowLimiter)
    → lookup key limiter.items ≡ none
    → allow now key limiter ≡ (
      true,
      record limiter { items = put key (record { started = now; count = 1 }) limiter.items },
    )
unfolding allow
allow-fresh now key limiter fresh = rw fresh refl

-- The limiter has met none of the keys.
abbrev AreFresh : GoMap WindowCounter → List (ℕ × Request) → Type 0
AreFresh items = All λ p. lookup (client_key p.1) items ≡ none

AreFresh-put :
    (request : Request) (item : WindowCounter) (items : GoMap WindowCounter)
    (rest : List (ℕ × Request))
    → is_empty (trim_space request.api_key) ≡ false
    → All (λ p. trim_space request.api_key ≢ trim_space p.1.api_key) rest
    → Rotates rest
    → AreFresh items rest
    → AreFresh (put (client_key request) item items) rest
AreFresh-put request item items [] shown apart rotates fresh = tt
AreFresh-put request item items ((later, other) ∷ rest) shown apart rotates fresh = (
  lookup-put (client_key request) (client_key other) item items
      ∙ rw (client_key-apart request other shown rotates.0 apart.0) fresh.0,
  AreFresh-put request item items rest shown apart.1 rotates.2 fresh.1,
)

length-put :
    (key : Text) (item : WindowCounter) (items : GoMap WindowCounter)
    → lookup key items ≡ none
    → length (put key item items) ≡ suc (length items)
length-put key item items fresh =
    let more = length-append items ((key, item) ∷ []) in
    rw (put-append key item items fresh) (omega (arith, more))

pass_all-Served :
    (l : List (ℕ × Request)) (limiter : FixedWindowLimiter)
    → Rotates l
    → AreFresh limiter.items l
    → Served (length limiter.items + length l) (pass_all l (some limiter))
unfolding middleware
pass_all-Served [] limiter rotates fresh = record {
  outcomes = tt;
  limiter = limiter;
  left = refl;
  counted = omega arith;
}
pass_all-Served ((now, request) ∷ rest) limiter rotates fresh =
    let item : WindowCounter = record { started = now; count = 1 } in
    let next : FixedWindowLimiter = record limiter {
      items = put (client_key request) item limiter.items;
    } in
    let later =
      pass_all-Served rest next rotates.2
        (AreFresh-put request item limiter.items rest rotates.0 rotates.1 rotates.2 fresh.1) in
    rw (allow-fresh now (client_key request) limiter fresh.0) (record {
      outcomes = (refl, later.outcomes);
      limiter = later.limiter;
      left = later.left;
      counted =
          omega (arith, later.counted, length-put (client_key request) item limiter.items fresh.0);
    })

-- A new limiter serves every request of a client that shows another X-API-Key each time, whatever the
-- limit, the window and the times, and whether or not a key is the right one; and it keeps a counter for
-- each of them.
pub rotating_keys-Served :
    (limit window : ℕ) (l : List (ℕ × Request))
    → Rotates l
    → Served (length l) (pass_all l (some (new_fixed_window_limiter limit window)))
unfolding new_fixed_window_limiter lookup
rotating_keys-Served limit window l rotates =
    let s = pass_all-Served l (new_fixed_window_limiter limit window) rotates (all_fresh l) in
    record {
      outcomes = s.outcomes;
      limiter = s.limiter;
      left = s.left;
      counted = omega (arith, s.counted);
    }
  where
    all_fresh : (l : List (ℕ × Request)) → AreFresh [] l
    all_fresh [] = tt
    all_fresh (p ∷ rest) = (refl, all_fresh rest)
