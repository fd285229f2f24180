-- ===== src/Websocket/Publisher/Interleaved/Numbers.antt =====
-- The numbers of publications.
use Prim.Native.Nat.{ℕ, zero, suc, ◌<◌}
use mathlib.Core.Path.{◌≡◌, refl, ap}
use mathlib.Core.Logic.{inl, inr}
use mathlib.Core.Bool.{true, false}
use mathlib.Core.Option.{Option, none, some}
use mathlib.Core.List.{List, [], ◌∷◌, ◌++◌}
use native.Mathlib.Omega.{arith}
use gologger.Prelude.{◌==◌, ==_iff, Bool-cases, length, All, All-map}
use gologger.Contracts.{Event}
use gologger.Websocket.Publisher.Interleaved.{has_number}

-- The event of the publication with the number.
abbrev pub get_elem? : List Event → ℕ → Option Event
get_elem? [] n = none
get_elem? (e ∷ rest) zero = some e
get_elem? (e ∷ rest) (suc n) = get_elem? rest n

pub get_elem?-append :
    (h more : List Event) (n : ℕ) (e : Event)
    → get_elem? h n ≡ some e
    → get_elem? (h ++ more) n ≡ some e
get_elem?-append [] more n e there = cc there
get_elem?-append (d ∷ h) more zero e there = there
get_elem?-append (d ∷ h) more (suc n) e there = get_elem?-append h more n e there

pub get_elem?-last : (h : List Event) (e : Event) → get_elem? (h ++ e ∷ []) (length h) ≡ some e
get_elem?-last [] e = refl
get_elem?-last (d ∷ h) e = get_elem?-last h e

pub get_elem?-lt : (h : List Event) (n : ℕ) (e : Event) → get_elem? h n ≡ some e → n < length h
get_elem?-lt [] n e there = cc there
get_elem?-lt (d ∷ h) zero e there = omega arith
get_elem?-lt (d ∷ h) (suc n) e there = omega (arith, get_elem?-lt h n e there)

pub has_number-cons : (n m : ℕ) (l : List ℕ) → has_number n l ≡ true → has_number n (m ∷ l) ≡ true
unfolding has_number
has_number-cons n m l h = ground (arith, h)

pub has_number_self : (l : List ℕ) → All (λ n. has_number n l ≡ true) l
unfolding has_number
has_number_self [] = tt
has_number_self (m ∷ rest) =
    (ground arith, All-map _ _ rest (λ n h. has_number-cons n m rest h) (has_number_self rest))

-- A number that is not below the bound.
pub has_number-above : (n : ℕ) (l : List ℕ) → All (λ m. m < n) l → has_number n l ≡ false
unfolding has_number
has_number-above n [] k = refl
has_number-above n (m ∷ rest) (less, k) = ground (arith, less, has_number-above n rest k)

-- A number that is not among those of a list is not among some of them.
pub has_number-part :
    (n : ℕ) (l whole : List ℕ)
    → has_number n whole ≡ false
    → All (λ m. has_number m whole ≡ true) l
    → has_number n l ≡ false
unfolding has_number
has_number-part n [] whole out k = refl
has_number-part n (m ∷ rest) whole out (within, k) =
    let later = has_number-part n rest whole out k in
    elim (Bool-cases (n == m)) [
      | inl same ↦
          let same' = (==_iff n m).0 same in
          absurd (cc (ap (λ x. has_number x whole) same', out, within))
      | inr other ↦ rw (other, later) refl
    ]
