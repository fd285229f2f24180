-- ===== src/Storage/Codec.antt =====
-- What internal/adapters/storage/json_file_storage.go uses of encoding/json: an encoder and a
-- decoder of events, over bytes, and what the documentation says of them.
use Prim.Native.Nat.{ℕ, ◌≤◌}
use mathlib.Core.Path.{◌≡◌}
use mathlib.Core.Logic.{◌≢◌}
use mathlib.Core.Bool.{Bool, true, ◌&&◌}
use mathlib.Core.Option.{Option, none, some}
use mathlib.Core.List.{List, [], ◌∷◌, ◌++◌}
use gologger.Prelude.{All}
use gologger.Text.{valid_string}
use gologger.Contracts.{Event}

abbrev pub Bytes : Type 0
Bytes = List ℕ

abbrev pub newline : ℕ
newline = b'\n'

-- json.Marshal and json.Unmarshal of an event, where `none` is an error.
pub record Codec : Type 0 where
  pub encode : Event → Option Bytes
  pub decode : Bytes → Option Event

-- The strings of an event by which the stores find it are UTF-8.
abbrev pub has_valid_strings : Event → Bool
has_valid_strings event =
    valid_string event.event_id
    && valid_string event.level
    && valid_string event.service
    && valid_string event.event_type

-- What a round trip keeps of an event. It may turn a number in a map into a float64.
pub record IsSame (event back : Event) : Type 0 where
  pub same_id : back.event_id ≡ event.event_id
  pub same_level : back.level ≡ event.level
  pub same_service : back.service ≡ event.service
  pub same_event_type : back.event_type ≡ event.event_type
  pub same_instant : back.timestamp.instant ≡ event.timestamp.instant

-- An object is encoded as a line that is not empty and has no control character, its newlines
-- included; what decodes from it has the strings that were UTF-8, and the time; and a proper
-- beginning of it is no JSON text.
pub record IsCodec (codec : Codec) : Type 0 where
  pub plain : (e : Event) (line : Bytes) → codec.encode e ≡ some line → All (λ c. 0x20 ≤ c) line
  pub filled : (e : Event) → codec.encode e ≢ some []
  pub decodes :
      (e : Event) (line : Bytes)
      → codec.encode e ≡ some line
      → has_valid_strings e ≡ true
      → (back : Event) × (codec.decode line ≡ some back) × IsSame e back
  pub beginning_fails :
      (e : Event) (c d : ℕ) (front rest : Bytes)
      → codec.encode e ≡ some (c ∷ front ++ d ∷ rest)
      → codec.decode (c ∷ front) ≡ none
