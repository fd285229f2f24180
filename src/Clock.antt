-- ===== src/Clock.antt =====
-- Times of package time, as the program uses them.
use Prim.Native.Nat.{ℕ, ◌+◌, ◌*◌, ◌^◌}
use mathlib.Core.Bool.{Bool}
use gologger.Prelude.{ltb, ◌==◌}

-- A `time.Time`: nanoseconds since 1 January of the year -1, UTC, and the location's offset from
-- UTC in seconds, to the east or to the west.
pub record Time : Type 0 where
  pub instant : ℕ
  pub east : ℕ
  pub west : ℕ

abbrev pub second : ℕ
second = 10 ^ 9

abbrev pub day : ℕ
day = 86400 * second

-- The zero Time, 1 January of the year 1, is 731 days after the instant 0.
abbrev pub zero_instant : ℕ
zero_instant = 731 * day

abbrev pub year_2000 : ℕ
year_2000 = zero_instant + 730119 * day

-- Time.IsZero
abbrev pub is_zero : Time → Bool
is_zero t = t.instant == zero_instant

-- t.Year() < 2000, in the location of t.
abbrev pub before_2000 : Time → Bool
before_2000 t = ltb (t.instant + t.east * second) (year_2000 + t.west * second)

-- Time.UTC
abbrev pub utc : Time → Time
utc t = record t { east = 0; west = 0 }
