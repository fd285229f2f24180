-- ===== src/Prelude/Reordering.antt =====
-- Lists with the same elements, as often, in some order.
use mathlib.Core.Path.{◌≡◌}
use mathlib.Core.Logic.{inl, inr}
use mathlib.Core.Bool.{Bool}
use mathlib.Core.List.{List, [], ◌∷◌, ◌++◌, append-nil, append_assoc}
use gologger.Prelude.Tests.{Bool-cases}
use gologger.Prelude.Lists.{select}

pub data Reorder {ℓ} {A : Type ℓ} : List A → List A → Type ℓ where
  same : (xs : List A) → Reorder xs xs
  behind : (x : A) {xs ys : List A} → Reorder xs ys → Reorder (x ∷ xs) (x ∷ ys)
  swap : (x y : A) (xs : List A) → Reorder (x ∷ y ∷ xs) (y ∷ x ∷ xs)
  chain : {xs ys zs : List A} → Reorder xs ys → Reorder ys zs → Reorder xs zs

module _ {ℓ} {A : Type ℓ} where
  pub Reorder-sym : {xs ys : List A} → Reorder xs ys → Reorder ys xs
  Reorder-sym (same xs) = same xs
  Reorder-sym (behind x r) = behind x (Reorder-sym r)
  Reorder-sym (swap x y xs) = swap y x xs
  Reorder-sym (chain r s) = chain (Reorder-sym s) (Reorder-sym r)

  pub Reorder-eq : {xs ys : List A} → xs ≡ ys → Reorder xs ys
  Reorder-eq {xs} e = rw (← e) (same xs)

  pub Reorder-front :
      (front : List A) {xs ys : List A} → Reorder xs ys → Reorder (front ++ xs) (front ++ ys)
  Reorder-front [] r = r
  Reorder-front (x ∷ front) r = behind x (Reorder-front front r)

  pub Reorder-back :
      (back : List A) {xs ys : List A} → Reorder xs ys → Reorder (xs ++ back) (ys ++ back)
  Reorder-back back (same xs) = same (xs ++ back)
  Reorder-back back (behind x r) = behind x (Reorder-back back r)
  Reorder-back back (swap x y xs) = swap x y (xs ++ back)
  Reorder-back back (chain r s) = chain (Reorder-back back r) (Reorder-back back s)

  Reorder-head : (x : A) (xs ys : List A) → Reorder (x ∷ xs ++ ys) (xs ++ x ∷ ys)
  Reorder-head x [] ys = same (x ∷ ys)
  Reorder-head x (z ∷ xs) ys = chain (swap x z (xs ++ ys)) (behind z (Reorder-head x xs ys))

  -- Two neighbours in a chain of lists change places.
  pub Reorder-middle : (xs ys zs : List A) → Reorder (xs ++ (ys ++ zs)) (ys ++ (xs ++ zs))
  Reorder-middle [] ys zs = same (ys ++ zs)
  Reorder-middle (x ∷ xs) ys zs =
      chain (behind x (Reorder-middle xs ys zs)) (Reorder-head x ys (xs ++ zs))

  pub Reorder-last : (xs back ys : List A) → Reorder ((xs ++ back) ++ ys) ((xs ++ ys) ++ back)
  Reorder-last xs back ys =
      rw (append_assoc xs back ys, append_assoc xs ys back)
        (Reorder-front xs (rw (append-nil ys, append-nil back) at (Reorder-middle back ys [])))

  pub Reorder-select :
      (p : A → Bool) {xs ys : List A} → Reorder xs ys → Reorder (select p xs) (select p ys)
  Reorder-select p (same xs) = same (select p xs)
  Reorder-select p (behind x r) = elim (Bool-cases (p x)) [
    | inl chosen ↦ rw chosen (behind x (Reorder-select p r))
    | inr other ↦ rw other (Reorder-select p r)
  ]
  Reorder-select p (swap x y xs) = elim (Bool-cases (p x)) [
    | inl chosen ↦ elim (Bool-cases (p y)) [
      | inl chosen' ↦ rw (chosen, chosen') (swap x y (select p xs))
      | inr other' ↦ rw (chosen, other') (same (x ∷ select p xs))
    ]
    | inr other ↦ elim (Bool-cases (p y)) [
      | inl chosen' ↦ rw (other, chosen') (same (y ∷ select p xs))
      | inr other' ↦ rw (other, other') (same (select p xs))
    ]
  ]
  Reorder-select p (chain r s) = chain (Reorder-select p r) (Reorder-select p s)
