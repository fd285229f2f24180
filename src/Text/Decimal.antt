-- ===== src/Text/Decimal.antt =====
-- The verb %d of package fmt, for a number that is not negative, and %02d.
use Prim.Native.Nat.{ℕ, zero, suc, ◌+◌, ◌-◌, ◌*◌, ◌/◌, ◌%◌, ◌^◌, ◌<◌}
use mathlib.Core.Path.{◌≡◌, refl, sym, ap, ◌∙◌}
use mathlib.Core.Logic.{inl, inr}
use mathlib.Core.List.{[], ◌∷◌, ◌++◌}
use native.Mathlib.Omega.{arith}
use native.Mathlib.Nat.{pow-suc}
use gologger.Prelude.{ltb, ◌==◌, if◌then◌else◌, Bool-cases, ==_iff, ltb→lt}
use gologger.Text.{Text}

-- %d of a number below 10 ^ fuel.
unfoldable pub decimal : ℕ → ℕ → Text
decimal zero n = []
decimal (suc fuel) n =
    let front = decimal fuel (n / 10) in (if n / 10 == 0 then [] else front) ++ (b'0' + n % 10) ∷ []

-- %0kd: zeros up to k characters.
unfoldable pub padded : ℕ → ℕ → Text
padded zero n = []
padded (suc k) n = padded k (n / 10) ++ (b'0' + n % 10) ∷ []

-- %02d of a number below 10 ^ 19.
unfoldable pub two_digits : ℕ → Text
two_digits n = if ltb n 100 then padded 2 n else decimal 19 n

-- The number that digits stand for.
abbrev value_from : ℕ → Text → ℕ
value_from acc [] = acc
value_from acc (c ∷ rest) = value_from (acc * 10 + c - b'0') rest

abbrev value : Text → ℕ
value = value_from 0

value_from-append :
    (acc : ℕ) (front : Text) (c : ℕ)
    → value_from acc (front ++ c ∷ []) ≡ value_from acc front * 10 + c - b'0'
value_from-append acc [] c = refl
value_from-append acc (d ∷ front) c = value_from-append (acc * 10 + d - b'0') front c

tenth : (fuel n : ℕ) → n < 10 ^ suc fuel → n / 10 < 10 ^ fuel
tenth fuel n h = omega (arith, pow-suc 10 fuel)

value-decimal : (fuel n : ℕ) → n < 10 ^ fuel → value (decimal fuel n) ≡ n
unfolding decimal
value-decimal zero n h = omega arith
value-decimal (suc fuel) n h = elim (Bool-cases (n / 10 == 0)) [
  | inl small ↦ rw small (omega (arith, (==_iff (n / 10) 0).0 small))
  | inr big ↦
      rw
        (
          big,
          value_from-append 0 (decimal fuel (n / 10)) (b'0' + n % 10),
          value-decimal fuel (n / 10) (tenth fuel n h),
        )
        (omega arith)
]

value-two_digits : (n : ℕ) → n < 10 ^ 19 → value (two_digits n) ≡ n
unfolding two_digits padded
value-two_digits n h = elim (Bool-cases (ltb n 100)) [
  | inl small ↦ rw small (omega (arith, ltb→lt n 100 small))
  | inr big ↦ rw big (value-decimal 19 n h)
]

pub two_digits_inj : (a b : ℕ) → a < 10 ^ 19 → b < 10 ^ 19 → two_digits a ≡ two_digits b → a ≡ b
two_digits_inj a b ha hb same = sym (value-two_digits a ha) ∙ ap value same ∙ value-two_digits b hb
