-- ===== src/Prelude/Partial.antt =====
-- Code that may panic, as an Option: `none` is a panic.
use mathlib.Core.Path.{◌≡◌, refl}
use mathlib.Core.Bool.{Bool, true, false}
use mathlib.Core.Option.{Option, none, some}
use gologger.Prelude.Tests.{if◌then◌else◌}

infixl 5 ◌>>=◌
abbrev pub ◌>>=◌ {ℓ κ} : {A : Type ℓ} {B : Type κ} → Option A → (A → Option B) → Option B
none >>= next = none
some value >>= next = next value

-- There is no panic, and what is returned satisfies the predicate.
abbrev pub Succeeds {ℓ} : {A : Type ℓ} (P : A → Type 0) → Option A → Type 0
Succeeds P none = ⊥
Succeeds P (some value) = P value

pub Succeeds-bind {ℓ κ} :
    {A : Type ℓ} {B : Type κ} (P : A → Type 0) (Q : B → Type 0) (run : Option A)
    (next : A → Option B)
    → Succeeds P run
    → ((value : A) → P value → Succeeds Q (next value))
    → Succeeds Q (run >>= next)
Succeeds-bind P Q none next h then_next = absurd h
Succeeds-bind P Q (some value) next h then_next = then_next value h

pub Succeeds-if {ℓ} :
    {A : Type ℓ} (P : A → Type 0) (test : Bool) (x y : Option A)
    → (test ≡ true → Succeeds P x)
    → (test ≡ false → Succeeds P y)
    → Succeeds P (if test then x else y)
Succeeds-if P true x y h k = h refl
Succeeds-if P false x y h k = k refl

pub Succeeds-eq_some {ℓ} :
    {A : Type ℓ} (P : A → Type 0) (run : Option A) (value : A)
    → Succeeds P run
    → run ≡ some value
    → P value
Succeeds-eq_some P run value h same = rw same at h

pub Succeeds-map {ℓ} :
    {A : Type ℓ} (P Q : A → Type 0) (run : Option A)
    → ((value : A) → P value → Q value)
    → Succeeds P run
    → Succeeds Q run
Succeeds-map P Q none f h = h
Succeeds-map P Q (some value) f h = f value h

pub Succeeds-both {ℓ} :
    {A : Type ℓ} (P Q : A → Type 0) (run : Option A)
    → Succeeds P run
    → Succeeds Q run
    → Succeeds (λ value. P value × Q value) run
Succeeds-both P Q none h k = h
Succeeds-both P Q (some value) h k = (h, k)

pub Succeeds-elim {ℓ} :
    {A : Type ℓ} (P : A → Type 0) (C : Type 0) (run : Option A)
    → Succeeds P run
    → ((value : A) → P value → C)
    → C
Succeeds-elim P C none h f = absurd h
Succeeds-elim P C (some value) h f = f value h

pub >>=-eq-some {ℓ κ} :
    {A : Type ℓ} {B : Type κ} (o : Option A) (f : A → Option B) {b : B}
    → (o >>= f) ≡ some b
    → (a : A) × (o ≡ some a) × (f a ≡ some b)
>>=-eq-some none f h = absurd (cc h)
>>=-eq-some (some a) f h = (a, refl, h)
