-- ===== src/Text/Laws.antt =====
-- Laws of the string operations: what trimming removes, and that it does so once.
use Prim.Native.Nat.{ℕ}
use mathlib.Core.Path.{◌≡◌, refl}
use mathlib.Core.Logic.{◌↔◌, inl, inr}
use mathlib.Core.Bool.{Bool, true, false, ◌&&◌}
use mathlib.Core.List.{[], ◌∷◌}
use native.Mathlib.Omega.{arith}
use gologger.Prelude.{==_refl, if◌then◌else◌, Bool-cases, All}
use gologger.Text.{Text, text_eq, is_empty, is_space, trim_left, trim_right, trim_space}

pub text_eq_refl : (s : Text) → text_eq s s ≡ true
text_eq_refl [] = refl
text_eq_refl (c ∷ s) = rw (==_refl c) (text_eq_refl s)

pub eq_of_text_eq : (s t : Text) → text_eq s t ≡ true → s ≡ t
eq_of_text_eq [] [] h = refl
eq_of_text_eq [] (d ∷ t) h = cc
eq_of_text_eq (c ∷ s) [] h = cc
eq_of_text_eq (c ∷ s) (d ∷ t) h = ground (arith, eq_of_text_eq s t)

pub text_eq_iff : (s t : Text) → (text_eq s t ≡ true) ↔ (s ≡ t)
text_eq_iff s t = (eq_of_text_eq s t, λ e. rw e (text_eq_refl t))

-- A text whose first character, if it has one, is no white space.
abbrev pub StartsDark : Text → Type 0
StartsDark [] = Unit {0}
StartsDark (c ∷ cs) = is_space c ≡ false

-- A text whose last character, if it has one, is no white space.
abbrev pub EndsDark : Text → Type 0
EndsDark [] = Unit {0}
EndsDark (c ∷ []) = is_space c ≡ false
EndsDark (c ∷ d ∷ cs) = EndsDark (d ∷ cs)

pub trim_left_id : (s : Text) → StartsDark s → trim_left s ≡ s
unfolding trim_left
trim_left_id [] h = refl
trim_left_id (c ∷ cs) h = rw h

pub trim_left-StartsDark : (s : Text) → StartsDark (trim_left s)
unfolding trim_left
trim_left-StartsDark [] = tt
trim_left-StartsDark (c ∷ cs) = elim (Bool-cases (is_space c)) [
  | inl e ↦ rw e (trim_left-StartsDark cs)
  | inr e ↦ rw e e
]

pub trim_right_id : (s : Text) → EndsDark s → trim_right s ≡ s
unfolding trim_right
trim_right_id [] h = refl
trim_right_id (c ∷ []) h = rw h
trim_right_id (c ∷ d ∷ cs) h = rw (trim_right_id (d ∷ cs) h)

EndsDark-cons : (c : ℕ) (s : Text) → is_empty s ≡ false → EndsDark s → EndsDark (c ∷ s)
EndsDark-cons c [] e h = cc
EndsDark-cons c (d ∷ s) e h = h

trim_right-EndsDark_step :
    (c : ℕ) (rest : Text)
    → EndsDark rest
    → EndsDark (if is_empty rest && is_space c then [] else c ∷ rest)
trim_right-EndsDark_step c [] h = elim (Bool-cases (is_space c)) [
  | inl e ↦ rw e tt
  | inr e ↦ rw e e
]
trim_right-EndsDark_step c (d ∷ rest) h = h

pub trim_right-EndsDark : (s : Text) → EndsDark (trim_right s)
unfolding trim_right
trim_right-EndsDark [] = tt
trim_right-EndsDark (c ∷ cs) = trim_right-EndsDark_step c (trim_right cs) (trim_right-EndsDark cs)

trim_right-StartsDark_step :
    (c : ℕ) (rest : Text)
    → is_space c ≡ false
    → StartsDark (if is_empty rest && is_space c then [] else c ∷ rest)
trim_right-StartsDark_step c [] h = rw h h
trim_right-StartsDark_step c (d ∷ rest) h = h

pub trim_right-StartsDark : (s : Text) → StartsDark s → StartsDark (trim_right s)
unfolding trim_right
trim_right-StartsDark [] h = tt
trim_right-StartsDark (c ∷ cs) h = trim_right-StartsDark_step c (trim_right cs) h

pub trim_space-StartsDark : (s : Text) → StartsDark (trim_space s)
unfolding trim_space
trim_space-StartsDark s = trim_right-StartsDark (trim_left s) (trim_left-StartsDark s)

pub trim_space-EndsDark : (s : Text) → EndsDark (trim_space s)
unfolding trim_space
trim_space-EndsDark s = trim_right-EndsDark (trim_left s)

-- Trimming leaves a text that neither starts nor ends in white space.
pub trim_space_id : (s : Text) → StartsDark s → EndsDark s → trim_space s ≡ s
unfolding trim_space
trim_space_id s h k = rw (trim_left_id s h) (trim_right_id s k)

module _ {ℓ} (P : ℕ → Type ℓ) where
  trim_left-All : (s : Text) → All P s → All P (trim_left s)
  unfolding trim_left
  trim_left-All [] h = tt
  trim_left-All (c ∷ cs) h = elim (Bool-cases (is_space c)) [
    | inl e ↦ rw e (trim_left-All cs h.1)
    | inr e ↦ rw e h
  ]

  trim_right-All_step :
      (b : Bool) (c : ℕ) (rest : Text) → P c → All P rest → All P (if b then [] else c ∷ rest)
  trim_right-All_step true c rest p h = tt
  trim_right-All_step false c rest p h = (p, h)

  trim_right-All : (s : Text) → All P s → All P (trim_right s)
  unfolding trim_right
  trim_right-All [] h = tt
  trim_right-All (c ∷ cs) h =
      trim_right-All_step (is_empty (trim_right cs) && is_space c) c (trim_right cs) h.0
        (trim_right-All cs h.1)

  -- What holds of every character still does after trimming.
  pub trim_space-All : (s : Text) → All P s → All P (trim_space s)
  unfolding trim_space
  trim_space-All s h = trim_right-All (trim_left s) (trim_left-All s h)
