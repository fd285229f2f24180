-- ===== src/Result.antt =====
-- The pair (value, error) that a Go function returns, as one value: never both.
use mathlib.Core.Path.{◌≡◌, refl}
use mathlib.Core.Bool.{Bool, true, false}

pub data Result {ℓ κ} (E : Type ℓ) (A : Type κ) : Type (ℓ ⊔ κ) where
  err : E → Result E A
  ok : A → Result E A

module _ {ℓ κ ι} {E : Type ℓ} {A : Type κ} {B : Type ι} where
  infixl 5 ◌>>=◌
  -- if err != nil { return err }, and on with the value
  abbrev pub ◌>>=◌ : Result E A → (A → Result E B) → Result E B
  ◌>>=◌ (err failure) next = err failure
  ◌>>=◌ (ok value) next = next value

  pub >>=-eq-ok :
      (first : Result E A) (next : A → Result E B) {last : B}
      → (first >>= next) ≡ ok last
      → (value : A) × (first ≡ ok value) × (next value ≡ ok last)
  >>=-eq-ok (err failure) next returned = cc
  >>=-eq-ok (ok value) next returned = (value, refl, returned)

module _ {ℓ} {E : Type ℓ} where
  infixl 5 ◌>>◌
  abbrev pub ◌>>◌ {κ} : {B : Type κ} → Result E (Unit {0}) → Result E B → Result E B
  check >> rest = check >>= (λ passed. rest)

  -- if test { return failure }
  abbrev pub fail_if : Bool → E → Result E (Unit {0})
  fail_if false failure = ok tt
  fail_if true failure = err failure

  pub fail_if-eq-ok :
      (test : Bool) (failure : E) {passed : Unit {0}}
      → fail_if test failure ≡ ok passed
      → test ≡ false
  fail_if-eq-ok false failure returned = refl
  fail_if-eq-ok true failure returned = cc

  pub ok_inj {κ} : {A : Type κ} {a b : A} → ◌≡◌ {A = Result E A} (ok a) (ok b) → a ≡ b
  ok_inj same = cc
