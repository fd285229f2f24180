-- ===== src/Storage/Log/Find.antt =====
-- Finding events by identifier in lists in which it occurs once.
use mathlib.Core.Path.{◌≡◌, refl, ap, ◌∙◌}
use mathlib.Core.Logic.{inl, inr}
use mathlib.Core.Bool.{Bool, true, false, ◌||◌}
use mathlib.Core.Option.{Option, none, some}
use mathlib.Core.List.{List, [], ◌∷◌, ◌++◌}
use native.Mathlib.Omega.{arith}
use gologger.Prelude.{if◌then◌else◌, Bool-cases, Reorder, same, behind, swap, chain}
use gologger.Text.{Text, text_eq}
use gologger.Text.Laws.{text_eq_iff}
use gologger.Contracts.{Event}
use gologger.Storage.Log.{find_event}

-- No two events have the same identifier.
abbrev pub Unique : List Event → Type 0
Unique [] = Unit
Unique (e ∷ rest) = (find_event e.event_id rest ≡ none) × Unique rest

-- The absence of an identifier does not depend on the order.
find_event-none :
    (id : Text) {xs ys : List Event}
    → Reorder xs ys
    → find_event id xs ≡ none
    → find_event id ys ≡ none
find_event-none id (same xs) h = h
find_event-none id (behind x {xs} {ys} r) h = elim (Bool-cases (text_eq x.event_id id)) [
  | inl match ↦ cc (rw match at h)
  | inr other ↦ rw other (find_event-none id r (rw other at h))
]
find_event-none id (swap x y xs) h = ground arith
find_event-none id (chain r s) h = find_event-none id s (find_event-none id r h)

text_eq_comm : (a b : Text) → text_eq a b ≡ text_eq b a
text_eq_comm a b = ground (arith, text_eq_iff a b, text_eq_iff b a)

-- Two events of a list without repetitions do not both have the identifier.
both :
    (x y : Event) (id : Text) (xs : List Event)
    → find_event x.event_id (y ∷ xs) ≡ none
    → text_eq x.event_id id ≡ true
    → text_eq y.event_id id ≡ true
    → ⊥
both x y id xs h mx my =
    ground (
      arith,
      text_eq_iff x.event_id id,
      text_eq_iff y.event_id id,
      text_eq_iff y.event_id x.event_id,
    )

pub Unique-Reorder : {xs ys : List Event} → Reorder xs ys → Unique xs → Unique ys
Unique-Reorder (same xs) u = u
Unique-Reorder (behind x r) u = (find_event-none x.event_id r u.0, Unique-Reorder r u.1)
Unique-Reorder (swap x y xs) (ux, (uy, u)) = elim (Bool-cases (text_eq y.event_id x.event_id)) [
  | inl match ↦ cc (rw match at ux)
  | inr other ↦
      let back = text_eq_comm x.event_id y.event_id ∙ other in (rw back uy, (rw other at ux, u))
]
Unique-Reorder (chain r s) u = Unique-Reorder s (Unique-Reorder r u)

pub find_event-Reorder :
    (id : Text) {xs ys : List Event}
    → Reorder xs ys
    → Unique xs
    → find_event id xs ≡ find_event id ys
find_event-Reorder id (same xs) u = refl
find_event-Reorder id (behind x r) u =
    ap (λ o. if text_eq x.event_id id then some x else o) (find_event-Reorder id r u.1)
find_event-Reorder id (swap x y xs) (ux, (uy, u)) = elim (Bool-cases (text_eq x.event_id id)) [
  | inr other ↦ rw other refl
  | inl match ↦ elim (Bool-cases (text_eq y.event_id id)) [
    | inr other ↦ rw (match, other) refl
    | inl match' ↦ absurd (both x y id xs ux match match')
  ]
]
find_event-Reorder id (chain r s) u =
    find_event-Reorder id r u ∙ find_event-Reorder id s (Unique-Reorder r u)

abbrev pub is_found : Option Event → Bool
is_found none = false
is_found (some event) = true

pub find_event-append :
    (id : Text) (back : Event) (entries : List Event)
    → is_found (find_event id (entries ++ back ∷ []))
      ≡ (text_eq back.event_id id || is_found (find_event id entries))
find_event-append id back [] = ground arith
find_event-append id back (x ∷ entries) = ground (arith, find_event-append id back entries)

find_event-append_none :
    (id : Text) (back : Event) (entries : List Event)
    → find_event id entries ≡ none
    → text_eq back.event_id id ≡ false
    → find_event id (entries ++ back ∷ []) ≡ none
find_event-append_none id back [] h other = rw other refl
find_event-append_none id back (x ∷ entries) h other = elim (Bool-cases (text_eq x.event_id id)) [
  | inl match ↦ cc (rw match at h)
  | inr apart ↦ rw apart (find_event-append_none id back entries (rw apart at h) other)
]

-- A new identifier at the end.
pub Unique-append :
    (back : Event) (entries : List Event)
    → Unique entries
    → find_event back.event_id entries ≡ none
    → Unique (entries ++ back ∷ [])
Unique-append back [] u h = (refl, tt)
Unique-append back (x ∷ entries) (first, u) h =
    elim (Bool-cases (text_eq x.event_id back.event_id)) [
      | inl match ↦ cc (rw match at h)
      | inr apart ↦ (
        find_event-append_none x.event_id back entries first
            (text_eq_comm back.event_id x.event_id ∙ apart),
        Unique-append back entries u (rw apart at h),
      )
    ]
