-- ===== src/Bridge/Browser/Rendering.antt =====
-- What BrowserBridge.hs (packages/agent-native-bridge/ffi/Agent/CLI/MacOS) reads from a browser
-- result and makes of it for the tool's caller.
use haskell_agent.Base.{
  ℕ, ◌+◌, ◌*◌, Bool, true, false, not, ◌&&◌, ◌||◌, Option, none, some, List, [], ◌∷◌, ltb, ◌==◌,
  if◌then◌else◌, length, take, drop,
}
use haskell_agent.Base.Int.{ℤ, pos, leb_ℤ, ltb_ℤ, eqb_ℤ}
use haskell_agent.Bridge.Browser.{Text}
use haskell_agent.Bridge.Browser.Commands.{Command}
use haskell_agent.Bridge.Buffers.{Buffer, at_null, at_bytes, is_empty}
use haskell_agent.Bridge.Browser.Result.{
  Result, is_screenshot, text_result_max_bytes, image_result_max_bytes, image_max_dimension,
  png_max_dimension, png_max_pixels, result_struct_size,
}

pub data Channel : Type 0 where
  text image : Channel

-- browserStatusMessage: one message for each status that the header names, and one that shows the
-- number of any other.
pub data StatusMessage : Type 0 where
  invalid_argument unavailable timeout permission_denied unsupported failed : StatusMessage
  output_too_large cancelled : StatusMessage
  other_status : ℤ → StatusMessage

unfoldable pub status_message : ℤ → StatusMessage
status_message s =
    if eqb_ℤ s (pos 1)
    then invalid_argument
    else (if eqb_ℤ s (pos 2)
        then unavailable
        else (if eqb_ℤ s (pos 3)
            then timeout
            else (if eqb_ℤ s (pos 4)
                then permission_denied
                else (if eqb_ℤ s (pos 5)
                    then unsupported
                    else (if eqb_ℤ s (pos 6)
                        then failed
                        else (if eqb_ℤ s (pos 7)
                            then output_too_large
                            else (if eqb_ℤ s (pos 8) then cancelled else other_status s)))))))

-- The messages of `Left`.
pub data Refusal : Type 0 where
  null_result incompatible_structure nonzero_reserved invalid_utf8 : Refusal
  above_limit non_null_empty null_pointer : Channel → Refusal
  image_with_failure no_png dimensions_invalid not_png png_dimensions_invalid : Refusal
  unexpected_image : Refusal
  host_message : Text → Refusal
  failed_with : StatusMessage → Refusal

pub data Outcome {ℓ} (A : Type ℓ) : Type ℓ where
  refused : Refusal → Outcome A
  accepted : A → Outcome A

abbrev pub is_accepted {ℓ} : {A : Type ℓ} → Outcome A → Bool
is_accepted (refused _) = false
is_accepted (accepted _) = true

infixl 5 ◌>>=◌
abbrev pub ◌>>=◌ {ℓ κ} : {A : Type ℓ} {B : Type κ} → Outcome A → (A → Outcome B) → Outcome B
refused e >>= f = refused e
accepted a >>= f = f a

-- BrowserNativeResult
pub record NativeResult : Type 0 where
  pub status : ℤ
  pub text : Text
  pub image_format : ℤ
  pub image_width : ℤ
  pub image_height : ℤ
  pub image_bytes : List ℕ

-- readBrowserBytes
unfoldable pub read_bytes : Channel → ℕ → Buffer → Outcome (List ℕ)
read_bytes label limit (at_null n) =
    if ltb limit n
    then refused (above_limit label)
    else (if n == 0 then accepted [] else refused (null_pointer label))
read_bytes label limit (at_bytes []) = refused (non_null_empty label)
read_bytes label limit (at_bytes (b ∷ bytes)) =
    if ltb limit (length (b ∷ bytes)) then refused (above_limit label) else accepted (b ∷ bytes)

-- decodeUtf8'
unfoldable pub decode_utf8 : (List ℕ → Bool) → List ℕ → Outcome Text
decode_utf8 is_utf8 bytes = if is_utf8 bytes then accepted bytes else refused invalid_utf8

-- decodeBrowserNativeResult, for a pointer that is not null.
unfoldable pub decode_result : (List ℕ → Bool) → Result → Outcome NativeResult
decode_result is_utf8 r =
    if not (r.struct_size == result_struct_size)
    then refused incompatible_structure
    else (if not (eqb_ℤ r.reserved (pos 0)) then refused nonzero_reserved else do
      text_bytes ← read_bytes text text_result_max_bytes r.text
      decoded ← decode_utf8 is_utf8 text_bytes
      image_bytes ← read_bytes image image_result_max_bytes r.image
      accepted (record {
        status = r.status;
        text = decoded;
        image_format = r.image_format;
        image_width = r.image_width;
        image_height = r.image_height;
        image_bytes = image_bytes;
      }))

-- The big-endian number that some bytes are.
abbrev from_bytes : ℕ → List ℕ → ℕ
from_bytes value [] = value
from_bytes value (b ∷ bytes) = from_bytes (value * 256 + b) bytes

-- browserPngWord32At
unfoldable pub png_word32_at : ℕ → List ℕ → ℕ
png_word32_at offset bytes = from_bytes 0 (take 4 (drop offset bytes))

abbrev pub same_bytes : List ℕ → List ℕ → Bool
same_bytes [] [] = true
same_bytes (x ∷ xs) (y ∷ ys) = (x == y) && same_bytes xs ys
same_bytes _ _ = false

abbrev png_signature : List ℕ
png_signature = 137 ∷ 80 ∷ 78 ∷ 71 ∷ 13 ∷ 10 ∷ 26 ∷ 10 ∷ []

-- "IHDR"
abbrev ihdr : List ℕ
ihdr = 73 ∷ 72 ∷ 68 ∷ 82 ∷ []

-- browserPngHeaderDimensions
unfoldable pub png_header_dimensions : List ℕ → Option (ℕ × ℕ)
png_header_dimensions bytes =
    if ltb (length bytes) 24
    then none
    else (if not (same_bytes (take 8 bytes) png_signature)
        then none
        else (if not (png_word32_at 8 bytes == 13)
            then none
            else (if not (same_bytes (take 4 (drop 12 bytes)) ihdr)
                then none
                else some (png_word32_at 16 bytes, png_word32_at 20 bytes))))

-- ToolHandlerResult: its text, and the pictures behind the data URLs of its images.
pub data Summary : Type 0 where
  host_text : Text → Summary
  captured : ℤ → ℤ → Summary

pub record ToolResult : Type 0 where
  pub text : Summary
  pub images : List (List ℕ)

-- The case of the decoder's answer in validateBrowserPng.
unfoldable pub same_dimensions : ℕ × ℕ → Option (ℕ × ℕ) → Option Refusal
same_dimensions size none = some not_png
same_dimensions (width, height) (some (w, h)) =
    if (w == width) && (h == height) then none else some not_png

unfoldable pub check_dimensions : Option (ℕ × ℕ) → Option (ℕ × ℕ) → Option Refusal
check_dimensions none decoded = some not_png
check_dimensions (some (width, height)) decoded =
    if (width == 0)
      || (height == 0)
      || ltb png_max_dimension width
      || ltb png_max_dimension height
      || ltb png_max_pixels (width * height)
    then some png_dimensions_invalid
    else same_dimensions (width, height) decoded

abbrev pub has_image : NativeResult → Bool
has_image r =
    not (eqb_ℤ r.image_format (pos 0))
    || not (is_empty r.image_bytes)
    || not (eqb_ℤ r.image_width (pos 0))
    || not (eqb_ℤ r.image_height (pos 0))

unfoldable pub render_failure : NativeResult → Refusal
render_failure r =
    if has_image r
    then image_with_failure
    else (if is_empty r.text then failed_with (status_message r.status) else host_message r.text)

abbrev pub when_valid : NativeResult → Option Refusal → Outcome ToolResult
when_valid r (some e) = refused e
when_valid r none = accepted (record {
  text = if is_empty r.text then captured r.image_width r.image_height else host_text r.text;
  images = r.image_bytes ∷ [];
})

module _ (decode_png : List ℕ → Option (ℕ × ℕ)) where
  -- validateBrowserPng, `none` for `Right ()`
  unfoldable pub validate_png : List ℕ → Option Refusal
  validate_png bytes = check_dimensions (png_header_dimensions bytes) (decode_png bytes)

  unfoldable pub render_screenshot : NativeResult → Outcome ToolResult
  render_screenshot r =
      if not (eqb_ℤ r.image_format (pos 1)) || is_empty r.image_bytes
      then refused no_png
      else (if leb_ℤ r.image_width (pos 0)
            || leb_ℤ r.image_height (pos 0)
            || ltb_ℤ (pos image_max_dimension) r.image_width
            || ltb_ℤ (pos image_max_dimension) r.image_height
          then refused dimensions_invalid
          else when_valid r (validate_png r.image_bytes))

  -- renderBrowserResult
  unfoldable pub render_result : Command → NativeResult → Outcome ToolResult
  render_result c r =
      if not (eqb_ℤ r.status (pos 0))
      then refused (render_failure r)
      else (if is_screenshot c
          then render_screenshot r
          else (if has_image r
              then refused unexpected_image
              else accepted (record { text = host_text r.text; images = [] })))

  -- What await makes of the result that a completion call points at (`none`: a null pointer).
  unfoldable pub tool_result : (List ℕ → Bool) → Command → Option Result → Outcome ToolResult
  tool_result is_utf8 c none = refused null_result
  tool_result is_utf8 c (some r) = decode_result is_utf8 r >>= render_result c
