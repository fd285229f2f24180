-- ===== src/Tests/Overlong.antt =====
-- The store of files with a codec whose line is as long as the scanner's buffer.
use Prim.Native.Nat.{ℕ, zero, suc, ◌≤◌}
use mathlib.Core.Path.{◌≡◌, refl, ap}
use mathlib.Core.Logic.{inl, inr}
use mathlib.Core.Bool.{true, false}
use mathlib.Core.Option.{none, some}
use mathlib.Core.List.{[], ◌∷◌}
use native.Mathlib.Omega.{arith}
use gologger.Prelude.{ltb, ◌==◌, if◌then◌else◌, Bool-cases, All, length, length-append}
use gologger.Result.{ok, err}
use gologger.Contracts.{Event, EventFilter}
use gologger.Storage.Codec.{Bytes, Codec, IsCodec}
use gologger.Storage.Lines.{line_too_long, max_line}
use gologger.Storage.JsonFile.{JsonFileStorage, read_error, store, query}
use gologger.Storage.JsonFile.Sound.{no_faults}
use gologger.Storage.JsonFile.Refines.{opened}
use gologger.Storage.JsonFile.Overlong.{store-overlong}
use gologger.Tests.Samples.{noon, stored_order}
use gologger.Tests.Files.{looks_like, looks_like-IsSame, empty_store, settings, settings_named}

unfoldable spaces : ℕ → Bytes
spaces zero = []
spaces (suc n) = b' ' ∷ spaces n

length-spaces : (n : ℕ) → length (spaces n) ≡ n
unfolding spaces
length-spaces zero = refl
length-spaces (suc n) = omega (arith, length-spaces n)

spaces-plain : (n : ℕ) → All (λ c. 0x20 ≤ c) (spaces n)
unfolding spaces
spaces-plain zero = tt
spaces-plain (suc n) = (omega arith, spaces-plain n)

abbrev line : Bytes
line = b'{' ∷ spaces 1048575

line_long : length line ≡ 1048576
line_long = omega (arith, length-spaces 1048575)

-- A codec that accepts the stored order alone, with a line of this length.
abbrev wide : Codec
wide = record {
  encode = λ e. if looks_like stored_order e then some line else none;
  decode = λ bytes. if length bytes == 1048576 then some stored_order else none;
}

wide-line :
    (e : Event) (bytes : Bytes)
    → wide.encode e ≡ some bytes
    → (line ≡ bytes) × (looks_like stored_order e ≡ true)
wide-line e bytes h = elim (Bool-cases (looks_like stored_order e)) [
  | inl chosen ↦ (cc (rw chosen at h), chosen)
  | inr other ↦ cc (rw other at h)
]

wide-IsCodec : IsCodec wide
wide-IsCodec = record {
  plain = λ e bytes h. rw (← (wide-line e bytes h).0) (omega arith, spaces-plain 1048575);
  filled = λ e h. cc (wide-line e [] h).0;
  decodes = λ e bytes h valid.
      let (same_line, chosen) = wide-line e bytes h in
      (stored_order, rw (← same_line, line_long) refl, looks_like-IsSame stored_order e chosen);
  beginning_fails = λ e c d front rest h.
      let same_length = ap length (wide-line e _ h).0 in
      let sum = length-append (c ∷ front) (d ∷ rest) in
      let whole = line_long in
      let shorter : (length (c ∷ front) == 1048576) ≡ false = ground arith in rw shorter refl;
}

too_long : ltb (length line) max_line ≡ false
too_long = rw line_long refl

store-overlong_example :
    (after : JsonFileStorage) × (store wide none stored_order noon no_faults empty_store
      ≡ (ok tt, after))
    × ((filter : EventFilter)
        → query wide none filter (λ n. true) after ≡ err (read_error line_too_long))
    × (opened wide settings after.files ≡ err (read_error line_too_long))
store-overlong_example =
    store-overlong wide wide-IsCodec stored_order line refl too_long noon empty_store settings refl
      refl refl (omega arith) tt tt settings_named
