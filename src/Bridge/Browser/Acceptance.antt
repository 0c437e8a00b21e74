-- ===== src/Bridge/Browser/Acceptance.antt =====
-- Which browser results reach the tool's caller: those that the header allows, and no others.
use haskell_agent.Base.{
  ℕ, ◌≡◌, ◌⊎◌, inl, inr, refl, ap, ◌∙◌, Bool, true, false, not, ◌&&◌, Option, none, some, List, [],
  ◌∷◌, arith, none≢some, Option-cases, ◌≢◌, ◌==◌, if◌then◌else◌,
}
use haskell_agent.Base.Int.{pos, eqb_ℤ}
use haskell_agent.Bridge.Browser.Commands.{Command}
use haskell_agent.Bridge.Buffers.{Buffer, at_null, at_bytes, contents, is_empty}
use haskell_agent.Bridge.Browser.Result.{
  Result, field_valid, is_screenshot, dimension_valid, decodes, image_valid, result_valid,
  result_struct_size, text_result_max_bytes, image_result_max_bytes,
}
use haskell_agent.Bridge.Browser.Rendering.{
  Channel, Refusal, refused, accepted, is_accepted, ◌>>=◌, NativeResult, read_bytes, decode_utf8,
  decode_result, png_header_dimensions, same_dimensions, check_dimensions, has_image, validate_png,
  render_screenshot, when_valid, render_result, tool_result,
}

read_bytes_lem :
    (label : Channel) (limit : ℕ) (f : Buffer)
    → ((read_bytes label limit f ≡ accepted (contents f)) × (field_valid limit f ≡ true))
      ⊎ ((e : Refusal) × (read_bytes label limit f ≡ refused e) × (field_valid limit f ≡ false))
unfolding read_bytes field_valid
read_bytes_lem label limit (at_null n) = grind arith
read_bytes_lem label limit (at_bytes []) = inr (_, refl, refl)
read_bytes_lem label limit (at_bytes (b ∷ bytes)) = grind arith

abbrev is_none {ℓ} : {A : Type ℓ} → Option A → Bool
is_none none = true
is_none (some _) = false

check_dimensions_same :
    (d : ℕ × ℕ) → is_none (check_dimensions (some d) (some d)) ≡ decodes (some d)
unfolding check_dimensions decodes same_dimensions
check_dimensions_same (w, k) = ground arith

check_dimensions-none : (header : Option (ℕ × ℕ)) → is_none (check_dimensions header none) ≡ false
unfolding check_dimensions same_dimensions
check_dimensions-none none = refl
check_dimensions-none (some (w, k)) = ground arith

abbrev native : Result → NativeResult
native r = record {
  status = r.status;
  text = contents r.text;
  image_format = r.image_format;
  image_width = r.image_width;
  image_height = r.image_height;
  image_bytes = contents r.image;
}

abbrev readable : (List ℕ → Bool) → Result → Bool
readable is_utf8 r =
    r.struct_size == result_struct_size
    && eqb_ℤ r.reserved (pos 0)
    && field_valid text_result_max_bytes r.text
    && field_valid image_result_max_bytes r.image
    && is_utf8 (contents r.text)

decode_result_lem :
    (is_utf8 : List ℕ → Bool) (r : Result)
    → ((decode_result is_utf8 r ≡ accepted (native r)) × (readable is_utf8 r ≡ true))
      ⊎ ((e : Refusal) × (decode_result is_utf8 r ≡ refused e) × (readable is_utf8 r ≡ false))
unfolding decode_result decode_utf8
decode_result_lem is_utf8 r = ground (
  arith,
  read_bytes_lem Channel.text text_result_max_bytes r.text,
  read_bytes_lem Channel.image image_result_max_bytes r.image,
)

module _ (decode_png : List ℕ → Option (ℕ × ℕ))
    (header_decoded : (bytes : List ℕ) (d : ℕ × ℕ)
      → decode_png bytes ≡ some d
      → png_header_dimensions bytes ≡ some d) where
  validate_png-decodes :
      (bytes : List ℕ) → is_none (validate_png decode_png bytes) ≡ decodes (decode_png bytes)
  unfolding validate_png decodes
  validate_png-decodes bytes = elim (Option-cases (decode_png bytes)) [
    | inl missing ↦ simp (missing, check_dimensions-none)
    | inr (d, found) ↦ simp (found, header_decoded bytes d found, check_dimensions_same d)
  ]

  no_empty_picture : (d : ℕ × ℕ) → decode_png [] ≢ some d
  unfolding png_header_dimensions
  no_empty_picture d e = none≢some (header_decoded [] d e)

  when_valid-is_none :
      (n : NativeResult) (o : Option Refusal) → is_accepted (when_valid n o) ≡ is_none o
  when_valid-is_none n none = refl
  when_valid-is_none n (some e) = refl

  decodes-empty : (bytes : List ℕ) → is_empty bytes ≡ true → decodes (decode_png bytes) ≡ false
  unfolding decodes
  decodes-empty [] e = elim (Option-cases (decode_png [])) [
    | inl missing ↦ simp missing
    | inr (d, found) ↦ elim (no_empty_picture d found) [ ]
  ]
  decodes-empty (b ∷ bytes) e = cc

  render_screenshot_lem :
      (n : NativeResult)
      → is_accepted (render_screenshot decode_png n)
        ≡ eqb_ℤ n.image_format (pos 1)
          && dimension_valid n.image_width
          && dimension_valid n.image_height
          && decodes (decode_png n.image_bytes)
  unfolding render_screenshot
  render_screenshot_lem n = ground (
    arith,
    when_valid-is_none n (validate_png decode_png n.image_bytes),
    validate_png-decodes n.image_bytes,
    decodes-empty n.image_bytes,
  )

  render_result_lem :
      (c : Command) (n : NativeResult)
      → is_accepted (render_result decode_png c n)
        ≡ eqb_ℤ n.status (pos 0)
          && (if is_screenshot c
              then is_accepted (render_screenshot decode_png n)
              else not (has_image n))
  unfolding render_result
  render_result_lem c n = ground arith

  -- A result reaches the tool's caller exactly if it reports success, meets all that the header
  -- asks of the result of the command that it answers, and its text is valid UTF-8. The assumption
  -- is that a picture which the PNG decoder accepts has the dimensions of its header.
  pub tool_result-result_valid :
      (is_utf8 : List ℕ → Bool) (c : Command) (r : Result)
      → is_accepted (tool_result decode_png is_utf8 c (some r))
        ≡ eqb_ℤ r.status (pos 0) && result_valid decode_png c r && is_utf8 (contents r.text)
  unfolding tool_result result_valid image_valid
  tool_result-result_valid is_utf8 c r = elim (decode_result_lem is_utf8 r) [
    | inl (decoded, valid) ↦
        ap (λ o. is_accepted (o >>= render_result decode_png c)) decoded
        ∙ ground (arith, valid, render_result_lem c (native r), render_screenshot_lem (native r))
    | inr (e, decoded, valid) ↦
        ap (λ o. is_accepted (o >>= render_result decode_png c)) decoded ∙ ground (arith, valid)
  ]
