-- ===== src/Bridge/Frame/RoundTrip.antt =====
-- A frame that the runtime writes is read back with all its parts.
use haskell_agent.Base.{
  ℕ, zero, suc, ◌+◌, ◌/◌, ◌%◌, ◌^◌, ◌<◌, ◌≤◌, ◌≡◌, refl, sym, ap, ◌∙◌, Bool, true, false, Option,
  none, some, List, [], ◌∷◌, ◌++◌, ltb, if◌then◌else◌, length, take, drop, arith, map, of_some,
  length-append, append_assoc,
}
use mathlib.Core.Path.{subst}
use haskell_agent.Bridge.Frame.{
  Text, Bytes, prologue, word16_be, word32_be, max_word32, max_field_bytes, joined, field, fields,
  frame, read_word16, read_word32, take_field, read_field, put_first, then_fields, read_fields,
  framed, parse,
}

read_word16-word16_be : (n : ℕ) → n < 2 ^ 16 → read_word16 (n / 2 ^ 8 % 256) (n % 256) ≡ n
read_word16-word16_be n h = omega arith

read_word32-word32_be :
    (n : ℕ)
    → n < 2 ^ 32
    → read_word32 (n / 2 ^ 24 % 256) (n / 2 ^ 16 % 256) (n / 2 ^ 8 % 256) (n % 256) ≡ n
read_word32-word32_be n h = omega arith

take_append : (bytes rest : Bytes) → take (length bytes) (bytes ++ rest) ≡ bytes
take_append [] rest = refl
take_append (b ∷ bytes) rest = rw (take_append bytes rest)

drop_append : (bytes rest : Bytes) → drop (length bytes) (bytes ++ rest) ≡ rest
drop_append [] rest = refl
drop_append (b ∷ bytes) rest = drop_append bytes rest

read_field-word32_be :
    (n : ℕ) (rest : Bytes) → n < 2 ^ 32 → read_field (word32_be n ++ rest) ≡ take_field n rest
unfolding read_field word32_be
read_field-word32_be n rest h = ap (λ k. take_field k rest) (read_word32-word32_be n h)

take_field-length :
    (bytes rest : Bytes)
    → length bytes ≤ max_field_bytes
    → take_field (length bytes) (bytes ++ rest) ≡ some (some bytes, rest)
unfolding take_field
take_field-length bytes rest h =
    ground (arith, length-append bytes rest, take_append bytes rest, drop_append bytes rest)

-- The bytes of an optional text.
abbrev pub encoded : (Text → Bytes) → Option Text → Option Bytes
encoded encode_utf8 none = none
encoded encode_utf8 (some value) = some (encode_utf8 value)

if_some :
    {A : Type 0} {b : Bool} {x y : A}
    → (if b then none else some x) ≡ some y
    → (b ≡ false) × (x ≡ y)
if_some {b = true} e = cc
if_some {b = false} e = (refl, of_some e)

not_above : {n limit : ℕ} → ltb limit n ≡ false → n ≤ limit
not_above e = ground arith

joined-some :
    (a b : Option Bytes) (bytes : Bytes)
    → joined a b ≡ some bytes
    → (x y : Bytes) × (a ≡ some x) × (b ≡ some y) × (bytes ≡ x ++ y)
joined-some none b bytes e = cc
joined-some (some x) none bytes e = cc
joined-some (some x) (some y) bytes e = (x, y, refl, refl, sym (of_some e))

read_fields_step :
    (fuel : ℕ) (bytes rest : Bytes) (f : Option Bytes)
    → read_field bytes ≡ some (f, rest)
    → 4 ≤ length bytes
    → read_fields (suc fuel) bytes ≡ put_first f (read_fields fuel rest)
unfolding read_fields
read_fields_step fuel [] rest f e h = ground arith
read_fields_step fuel (b ∷ bytes) rest f e h = ap (λ o. then_fields o (read_fields fuel)) e

read_fields_none : (fuel : ℕ) → read_fields fuel [] ≡ some []
unfolding read_fields
read_fields_none zero = refl
read_fields_none (suc fuel) = refl

no_fuel : 4 ≤ 0 → ⊥
no_fuel h = omega arith

by_fuel :
    (P : ℕ → Type 0) (fuel : ℕ) → 4 ≤ fuel → ((less : ℕ) → fuel ≡ suc less → P (suc less)) → P fuel
by_fuel P zero h p = elim (no_fuel h) [ ]
by_fuel P (suc less) h p = p less refl

module _ (encode_utf8 : Text → Bytes) where
  read_field-field :
      (f : Option Text) (bytes rest : Bytes)
      → field encode_utf8 f ≡ some bytes
      → (read_field (bytes ++ rest) ≡ some (encoded encode_utf8 f, rest)) × (4 ≤ length bytes)
  unfolding field take_field word32_be
  read_field-field none bytes rest e =
      subst (λ bytes. (read_field (bytes ++ rest) ≡ some (none, rest)) × (4 ≤ length bytes))
        (of_some e) (read_field-word32_be max_word32 rest (omega arith), (omega arith))
  read_field-field (some value) bytes rest e =
      let (small, same) = if_some e in
      let written = encode_utf8 value in
      let fits = not_above small in
      subst (λ bytes. (read_field (bytes ++ rest) ≡ some (some written, rest)) × (4 ≤ length bytes))
        same
        (
          ap read_field (append_assoc (word32_be (length written)) written rest)
              ∙ read_field-word32_be (length written) (written ++ rest) (omega arith)
              ∙ take_field-length written rest fits,
          (omega arith),
        )

  read_fields-fields :
      (fs : List (Option Text)) (bytes : Bytes) (fuel : ℕ)
      → fields encode_utf8 fs ≡ some bytes
      → length bytes ≤ fuel
      → read_fields fuel bytes ≡ some (map (encoded encode_utf8) fs)
  unfolding fields
  read_fields-fields [] bytes fuel e h =
      subst (λ b. read_fields fuel b ≡ some []) (of_some e) (read_fields_none fuel)
  read_fields-fields (f ∷ fs) bytes fuel e h =
      let (x, y, at_f, at_fs, both) =
        joined-some (field encode_utf8 f) (fields encode_utf8 fs) bytes e in
      let (read, long) = read_field-field f x y at_f in
      let size : length bytes ≡ length x + length y = ap length both ∙ length-append x y in
      by_fuel (λ n. read_fields n bytes ≡ some (map (encoded encode_utf8) (f ∷ fs))) fuel
        (omega arith)
        (λ less enough.
          ap (read_fields (suc less)) both
          ∙ read_fields_step less (x ++ y) y (encoded encode_utf8 f) read
              (omega (arith, length-append x y))
          ∙ ap (put_first (encoded encode_utf8 f))
              (read_fields-fields fs y less at_fs (omega arith)))

  -- A host that parses a frame which the runtime wrote finds its kind, its flags, the turn and
  -- every field, absent ones included. The kind fits a byte and the flags two, as in the source.
  pub parse-frame :
      (kind flags : ℕ) (turn_id : Text) (fs : List (Option Text)) (bytes : Bytes)
      → kind < 2 ^ 8
      → flags < 2 ^ 16
      → frame encode_utf8 kind flags turn_id fs ≡ some bytes
      → parse bytes
        ≡ some (record {
          kind = kind;
          flags = flags;
          turn_id = encode_utf8 turn_id;
          fields = map (encoded encode_utf8) fs;
        })
  unfolding frame parse word16_be fields
  parse-frame kind flags turn_id fs bytes k g e =
      let (x, y, head, at_rest, both) =
        joined-some (some (prologue ++ (kind ∷ word16_be flags)))
          (fields encode_utf8 (some turn_id ∷ fs)) bytes e in
      let body = read_fields-fields (some turn_id ∷ fs) y (length y) at_rest (omega arith) in
      ap parse (both ∙ ap (λ x. x ++ y) (sym (of_some head)))
      ∙ ap (λ f. framed kind f (read_fields (length y) y)) (read_word16-word16_be flags g)
      ∙ ap (framed kind flags) body
