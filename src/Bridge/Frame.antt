-- ===== src/Bridge/Frame.antt =====
-- The binary events of HaskellAgentBridge.h (packages/agent-native-bridge/include): a host's
-- reading of a HAEV frame, and NativeLoopEvent.hs (ffi/Agent/CLI/MacOS of the same package), which
-- writes them. A text is the list of its characters; `encode_utf8` gives its bytes.
pub mod RoundTrip
pub mod Events
pub mod Flags
use haskell_agent.Base.{
  ℕ, zero, suc, ◌+◌, ◌-◌, ◌*◌, ◌/◌, ◌%◌, ◌^◌, ◌<◌, ◌&&◌, Bool, true, false, Option, none, some,
  List, [], ◌∷◌, ◌++◌, ◌==◌, ltb, if◌then◌else◌, length, take, drop,
}

abbrev pub Bytes : Type 0
Bytes = List ℕ

abbrev pub Text : Type 0
Text = List ℕ

-- Builder.word16BE and Builder.word32BE
unfoldable pub word16_be : ℕ → Bytes
word16_be n = n / 2 ^ 8 % 256 ∷ n % 256 ∷ []

unfoldable pub word32_be : ℕ → Bytes
word32_be n = n / 2 ^ 24 % 256 ∷ n / 2 ^ 16 % 256 ∷ n / 2 ^ 8 % 256 ∷ n % 256 ∷ []

abbrev pub max_word32 : ℕ
max_word32 = 2 ^ 32 - 1

-- maxNativeFieldBytes
abbrev pub max_field_bytes : ℕ
max_field_bytes = 16 * 1024 * 1024

-- "HAEV" and the version
abbrev pub prologue : Bytes
prologue = 72 ∷ 65 ∷ 69 ∷ 86 ∷ 1 ∷ []

-- Two results that are both needed: `<>` under the Maybe monad.
abbrev pub joined : Option Bytes → Option Bytes → Option Bytes
joined (some a) (some b) = some (a ++ b)
joined _ _ = none

module _ (encode_utf8 : Text → Bytes) where
  unfoldable pub field : Option Text → Option Bytes
  field none = some (word32_be max_word32)
  field (some value) =
      let bytes = encode_utf8 value in
      if ltb max_field_bytes (length bytes) then none else some (word32_be (length bytes) ++ bytes)

  -- traverse field, and the concatenation of what it gives
  unfoldable pub fields : List (Option Text) → Option Bytes
  fields [] = some []
  fields (f ∷ fs) = joined (field f) (fields fs)

  unfoldable pub frame : ℕ → ℕ → Text → List (Option Text) → Option Bytes
  frame kind flags turn_id rest =
      joined (some (prologue ++ (kind ∷ word16_be flags)))
        (joined (field (some turn_id)) (fields rest))

-- What a host reads from a frame.
pub record Frame : Type 0 where
  pub kind : ℕ
  pub flags : ℕ
  pub turn_id : Bytes
  pub fields : List (Option Bytes)

abbrev pub read_word16 : ℕ → ℕ → ℕ
read_word16 a b = 2 ^ 8 * a + b

abbrev pub read_word32 : ℕ → ℕ → ℕ → ℕ → ℕ
read_word32 a b c d = 2 ^ 24 * a + 2 ^ 16 * b + 2 ^ 8 * c + d

-- A length and the field that it announces, with the bytes after it.
unfoldable pub take_field : ℕ → Bytes → Option (Option Bytes × Bytes)
take_field n bytes =
    if n == max_word32
    then some (none, bytes)
    else (if ltb (length bytes) n then none else some (some (take n bytes), drop n bytes))

unfoldable pub read_field : Bytes → Option (Option Bytes × Bytes)
read_field (a ∷ b ∷ c ∷ d ∷ bytes) = take_field (read_word32 a b c d) bytes
read_field _ = none

abbrev pub put_first : Option Bytes → Option (List (Option Bytes)) → Option (List (Option Bytes))
put_first f none = none
put_first f (some fs) = some (f ∷ fs)

abbrev pub then_fields :
    Option (Option Bytes × Bytes)
    → (Bytes → Option (List (Option Bytes)))
    → Option (List (Option Bytes))
then_fields none more = none
then_fields (some (f, rest)) more = put_first f (more rest)

-- The fields up to the end of the frame; a field takes four bytes at least, so that as many rounds
-- as there are bytes are enough.
unfoldable pub read_fields : ℕ → Bytes → Option (List (Option Bytes))
read_fields fuel [] = some []
read_fields zero (b ∷ bytes) = none
read_fields (suc fuel) (b ∷ bytes) =
    then_fields (read_field (b ∷ bytes)) (λ rest. read_fields fuel rest)

abbrev pub framed : ℕ → ℕ → Option (List (Option Bytes)) → Option Frame
framed kind flags (some (some turn_id ∷ fields)) =
    some (record { kind = kind; flags = flags; turn_id = turn_id; fields = fields })
framed _ _ _ = none

unfoldable pub parse : Bytes → Option Frame
parse (h ∷ a ∷ e ∷ v ∷ version ∷ kind ∷ f ∷ g ∷ bytes) =
    if (h == 72) && (a == 65) && (e == 69) && (v == 86) && (version == 1)
    then framed kind (read_word16 f g) (read_fields (length bytes) bytes)
    else none
parse _ = none
