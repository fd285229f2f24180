-- ===== src/Prelude/Lists.antt =====
-- Lists measured by native numbers, under the library's names, and predicates by recursion.
use Prim.Native.Nat.{ℕ, zero, suc, ◌+◌, ◌≤◌}
use mathlib.Core.Path.{◌≡◌, refl}
use mathlib.Core.Logic.{inl, inr}
use mathlib.Core.Bool.{Bool, true}
use mathlib.Core.List.{List, [], ◌∷◌, ◌++◌}
use native.Mathlib.Omega.{arith}
use gologger.Prelude.Tests.{if◌then◌else◌, Bool-cases}

module _ {ℓ} {A : Type ℓ} where
  abbrev pub length : List A → ℕ
  length [] = 0
  length (x ∷ xs) = suc (length xs)

  -- l[:n]
  unfoldable pub take : ℕ → List A → List A
  take (suc n) (x ∷ xs) = x ∷ take n xs
  take zero xs = []
  take (suc n) [] = []

  pub length-append : (xs ys : List A) → length (xs ++ ys) ≡ length xs + length ys
  length-append [] ys = omega arith
  length-append (x ∷ xs) ys = omega (arith, length-append xs ys)

  -- `filter` by a Boolean test, as the loops of the program do it.
  abbrev pub select : (A → Bool) → List A → List A
  select p [] = []
  select p (x ∷ xs) = let rest = select p xs in if p x then x ∷ rest else rest

  pub select-append :
      (p : A → Bool) (xs ys : List A) → select p (xs ++ ys) ≡ select p xs ++ select p ys
  select-append p [] ys = refl
  select-append p (x ∷ xs) ys = ground (arith, select-append p xs ys)

  pub length-select-le : (p : A → Bool) (xs : List A) → length (select p xs) ≤ length xs
  length-select-le p [] = omega arith
  length-select-le p (x ∷ xs) = ground (arith, length-select-le p xs)

module _ {ℓ κ} {A : Type ℓ} (P : A → Type κ) where
  abbrev pub All : List A → Type κ
  All [] = Unit
  All (x ∷ xs) = P x × All xs

  pub All-append : (xs ys : List A) → All xs → All ys → All (xs ++ ys)
  All-append [] ys hx hy = hy
  All-append (x ∷ xs) ys hx hy = (hx.0, All-append xs ys hx.1 hy)

pub All-map {ℓ} :
    {A : Type ℓ} (P Q : A → Type 0) (l : List A) → ((x : A) → P x → Q x) → All P l → All Q l
All-map P Q [] f k = tt
All-map P Q (x ∷ rest) f k = (f x k.0, All-map P Q rest f k.1)

pub All-select {ℓ} :
    {A : Type ℓ} (P Q : A → Type 0) (p : A → Bool) (l : List A)
    → ((x : A) → p x ≡ true → P x → Q x)
    → All P l
    → All Q (select p l)
All-select P Q p [] f k = tt
All-select P Q p (x ∷ rest) f k = elim (Bool-cases (p x)) [
  | inl taken ↦ rw taken (f x taken k.0, All-select P Q p rest f k.1)
  | inr left ↦ rw left (All-select P Q p rest f k.1)
]

-- The first list is the second one with some of its elements left out.
pub data Subsequence {ℓ} {A : Type ℓ} : List A → List A → Type ℓ where
  end : Subsequence [] []
  keep : (x : A) {xs ys : List A} → Subsequence xs ys → Subsequence (x ∷ xs) (x ∷ ys)
  skip : (y : A) {xs ys : List A} → Subsequence xs ys → Subsequence xs (y ∷ ys)

module _ {ℓ} {A : Type ℓ} where
  pub nothing-Subsequence : (ys : List A) → Subsequence [] ys
  nothing-Subsequence [] = end
  nothing-Subsequence (y ∷ ys) = skip y (nothing-Subsequence ys)

  pub Subsequence-refl : (xs : List A) → Subsequence xs xs
  Subsequence-refl [] = end
  Subsequence-refl (x ∷ xs) = keep x (Subsequence-refl xs)

  pub Subsequence-trans :
      {ys zs : List A} → Subsequence ys zs → {xs : List A} → Subsequence xs ys → Subsequence xs zs
  Subsequence-trans end s = s
  Subsequence-trans (skip y t) s = skip y (Subsequence-trans t s)
  Subsequence-trans (keep x t) (keep x' s) = keep x (Subsequence-trans t s)
  Subsequence-trans (keep x t) (skip x' s) = skip x (Subsequence-trans t s)

  pub append-Subsequence :
      {xs ys xs' ys' : List A}
      → Subsequence xs ys
      → Subsequence xs' ys'
      → Subsequence (xs ++ xs') (ys ++ ys')
  append-Subsequence end k = k
  append-Subsequence (keep x h) k = keep x (append-Subsequence h k)
  append-Subsequence (skip y h) k = skip y (append-Subsequence h k)
