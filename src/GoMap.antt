-- ===== src/GoMap.antt =====
-- Maps with string keys, as the list of their entries. A write to a new key appends.
use mathlib.Core.Path.{◌≡◌, refl, ap}
use mathlib.Core.Logic.{inl, inr}
use mathlib.Core.Option.{Option, none, some}
use mathlib.Core.List.{List, [], ◌∷◌, ◌++◌}
use native.Mathlib.Omega.{arith}
use gologger.Prelude.{if◌then◌else◌, Bool-cases}
use gologger.Text.{Text, text_eq}
use gologger.Text.Laws.{text_eq_refl, text_eq_iff}

abbrev pub GoMap {ℓ} : Type ℓ → Type ℓ
GoMap V = List (Text × V)

module _ {ℓ} {V : Type ℓ} where
  -- v, ok := m[key]
  unfoldable pub lookup : Text → GoMap V → Option V
  lookup key [] = none
  lookup key ((k, v) ∷ rest) = if text_eq k key then some v else lookup key rest

  -- m[key] = value
  unfoldable pub put : Text → V → GoMap V → GoMap V
  put key value [] = (key, value) ∷ []
  put key value ((k, v) ∷ rest) =
      if text_eq k key then (k, value) ∷ rest else (k, v) ∷ put key value rest

  -- A write changes what is found under its key, and nothing else.
  pub lookup-put :
      (key j : Text) (v : V) (m : GoMap V)
      → lookup j (put key v m) ≡ (if text_eq key j then some v else lookup j m)
  unfolding lookup put
  lookup-put key j v [] = refl
  lookup-put key j v ((k, w) ∷ rest) =
      ground (arith, text_eq_iff k key, text_eq_iff k j, text_eq_iff key j, lookup-put key j v rest)

  pub put-append :
      (id : Text) (e : V) (m : GoMap V) → lookup id m ≡ none → put id e m ≡ m ++ (id, e) ∷ []
  unfolding lookup put
  put-append id e [] h = refl
  put-append id e ((k, x) ∷ rest) h = elim (Bool-cases (text_eq k id)) [
    | inl same ↦ cc (rw (same, lookup) at h)
    | inr other ↦ rw other (ap (◌∷◌ (k, x)) (put-append id e rest (rw (other, lookup) at h)))
  ]

  pub lookup-append :
      (id : Text) (m n : GoMap V) (e : V) → lookup id m ≡ some e → lookup id (m ++ n) ≡ some e
  unfolding lookup
  lookup-append id [] n e h = cc
  lookup-append id ((k, x) ∷ rest) n e h = elim (Bool-cases (text_eq k id)) [
    | inl same ↦ rw same (rw (same, lookup) at h)
    | inr other ↦ rw other (lookup-append id rest n e (rw (other, lookup) at h))
  ]

  pub lookup-append_self :
      (id : Text) (m : GoMap V) (e : V)
      → lookup id m ≡ none
      → lookup id (m ++ (id, e) ∷ []) ≡ some e
  unfolding lookup
  lookup-append_self id [] e h = rw (text_eq_refl id)
  lookup-append_self id ((k, x) ∷ rest) e h = elim (Bool-cases (text_eq k id)) [
    | inl same ↦ cc (rw (same, lookup) at h)
    | inr other ↦ rw other (lookup-append_self id rest e (rw (other, lookup) at h))
  ]
