-- ===== src/Text/Clean.antt =====
-- The loop over the characters of a text that internal/security/redaction.go (sanitize) and
-- internal/domain/services/event_processor.go (sanitizeText) share, and what it leaves.
use Prim.Native.Nat.{ℕ, ◌≤◌, ◌<◌}
use mathlib.Core.Path.{◌≡◌, refl}
use mathlib.Core.Bool.{Bool, true, false, ◌&&◌, not}
use mathlib.Core.Logic.{inl, inr}
use mathlib.Core.List.{[], ◌∷◌}
use native.Mathlib.Omega.{arith}
use gologger.Prelude.{◌==◌, if◌then◌else◌, length, Bool-cases, All}
use gologger.Text.{Text, is_control, decoded, max_rune, valid_string, trim_space}
use gologger.Text.Laws.{
  StartsDark, EndsDark, trim_space-StartsDark, trim_space-EndsDark, trim_space_id, trim_space-All,
}

-- unicode.IsControl(character) && character != '\t'
abbrev pub is_dropped : ℕ → Bool
is_dropped c = is_control c && not (c == 9)

-- Characters are decoded and written back, so an invalid byte becomes U+FFFD.
unfoldable pub strip_controls : Text → Text
strip_controls [] = []
strip_controls (c ∷ cs) =
    let rest = strip_controls cs in if is_dropped (decoded c) then rest else decoded c ∷ rest

unfoldable pub sanitize_text : Text → Text
sanitize_text value = trim_space (strip_controls value)

-- A code point that the loop keeps.
abbrev pub IsKept : ℕ → Type 0
IsKept c = (c < max_rune) × (is_dropped c ≡ false)

pub record IsClean (s : Text) : Type 0 where
  pub kept : All IsKept s
  pub starts : StartsDark s
  pub ends : EndsDark s

decoded_lt : (c : ℕ) → decoded c < max_rune
decoded_lt c = ground arith

decoded_id : (c : ℕ) → c < max_rune → decoded c ≡ c
decoded_id c h = ground arith

strip_controls-IsKept_step :
    (b : Bool) (c : ℕ) (rest : Text)
    → (b ≡ false → IsKept c)
    → All IsKept rest
    → All IsKept (if b then rest else c ∷ rest)
strip_controls-IsKept_step true c rest k h = h
strip_controls-IsKept_step false c rest k h = (k refl, h)

strip_controls-IsKept : (s : Text) → All IsKept (strip_controls s)
unfolding strip_controls
strip_controls-IsKept [] = tt
strip_controls-IsKept (c ∷ cs) =
    strip_controls-IsKept_step (is_dropped (decoded c)) (decoded c) (strip_controls cs)
      (λ e. (decoded_lt c, e)) (strip_controls-IsKept cs)

pub strip_controls_id : (s : Text) → All IsKept s → strip_controls s ≡ s
unfolding strip_controls
strip_controls_id [] h = refl
strip_controls_id (c ∷ cs) h = rw (decoded_id c h.0.0, h.0.1, strip_controls_id cs h.1)

pub length-strip_controls-le : (s : Text) → length (strip_controls s) ≤ length s
unfolding strip_controls
length-strip_controls-le [] = omega arith
length-strip_controls-le (c ∷ cs) = elim (Bool-cases (is_dropped (decoded c))) [
  | inl e ↦ rw e (omega (arith, length-strip_controls-le cs))
  | inr e ↦ rw e (omega (arith, length-strip_controls-le cs))
]

-- Whatever goes in, what comes out is valid, has no control character but tabs, and is trimmed.
pub sanitize_text-IsClean : (s : Text) → IsClean (sanitize_text s)
unfolding sanitize_text
sanitize_text-IsClean s = record {
  kept = trim_space-All IsKept (strip_controls s) (strip_controls-IsKept s);
  starts = trim_space-StartsDark (strip_controls s);
  ends = trim_space-EndsDark (strip_controls s);
}

-- A clean text is left alone.
pub sanitize_text_id : (s : Text) → IsClean s → sanitize_text s ≡ s
unfolding sanitize_text
sanitize_text_id s h = rw (strip_controls_id s h.kept) (trim_space_id s h.starts h.ends)

pub IsClean-trim_space : (s : Text) → IsClean s → trim_space s ≡ s
IsClean-trim_space s h = trim_space_id s h.starts h.ends

valid_of_kept : (s : Text) → All IsKept s → valid_string s ≡ true
valid_of_kept [] h = refl
valid_of_kept (c ∷ cs) h = ground (arith, valid_of_kept cs h.1)

pub IsClean-valid_string : (s : Text) → IsClean s → valid_string s ≡ true
IsClean-valid_string s h = valid_of_kept s h.kept
