-- ===== src/Bridge/Browser/Result.antt =====
-- The result of a browser command: what HaskellAgentBridge.h asks of ha_browser_result
-- (packages/agent-native-bridge/include), and what BrowserBridge.hs (ffi/Agent/CLI/MacOS of the
-- same package) reads from it and makes of it for the tool's caller.
use haskell_agent.Base.{
  ℕ, ◌*◌, Bool, true, false, ◌&&◌, Option, none, some, List, [], ◌∷◌, leb, ltb, ◌==◌, if◌then◌else◌,
  length,
}
use haskell_agent.Base.Int.{ℤ, pos, leb_ℤ, ltb_ℤ, eqb_ℤ}
use haskell_agent.Bridge.Buffers.{Buffer, at_null, at_bytes, contents, is_empty}
use haskell_agent.Bridge.Browser.Commands.{Command, screenshot}

-- The limits and codes of the header.
abbrev pub status_success : ℤ
status_success = pos 0

abbrev pub text_result_max_bytes : ℕ
text_result_max_bytes = 262144

abbrev pub image_result_max_bytes : ℕ
image_result_max_bytes = 16777216

abbrev pub image_max_dimension : ℕ
image_max_dimension = 100000

abbrev pub png_max_dimension : ℕ
png_max_dimension = 16384

abbrev pub png_max_pixels : ℕ
png_max_pixels = 67108864

abbrev pub result_struct_size : ℕ
result_struct_size = 56

abbrev pub image_none : ℤ
image_none = pos 0

abbrev pub image_png : ℤ
image_png = pos 1

-- ha_browser_result
pub record Result : Type 0 where
  pub struct_size : ℕ
  pub status : ℤ
  pub image_format : ℤ
  pub image_width : ℤ
  pub image_height : ℤ
  pub reserved : ℤ
  pub text : Buffer
  pub image : Buffer

-- Empty slices use NULL/zero, and nonempty slices a pointer that is not NULL.
unfoldable pub field_valid : ℕ → Buffer → Bool
field_valid limit (at_null n) = n == 0
field_valid limit (at_bytes []) = false
field_valid limit (at_bytes (b ∷ bytes)) = leb (length (b ∷ bytes)) limit

abbrev pub is_screenshot : Command → Bool
is_screenshot screenshot = true
is_screenshot _ = false

-- The fields that an image has, for a result with none.
abbrev pub no_image : Result → Bool
no_image r =
    eqb_ℤ r.image_format image_none
    && eqb_ℤ r.image_width (pos 0)
    && eqb_ℤ r.image_height (pos 0)
    && is_empty (contents r.image)

-- A logical dimension: positive and at most the limit.
abbrev pub dimension_valid : ℤ → Bool
dimension_valid n = ltb_ℤ (pos 0) n && leb_ℤ n (pos image_max_dimension)

-- Physical dimensions within their limits.
abbrev pub pixels_valid : ℕ × ℕ → Bool
pixels_valid (width, height) =
    ltb 0 width
    && ltb 0 height
    && leb width png_max_dimension
    && leb height png_max_dimension
    && leb (width * height) png_max_pixels

unfoldable pub decodes : Option (ℕ × ℕ) → Bool
decodes none = false
decodes (some size) = pixels_valid size

-- `decode_png`: the dimensions of the picture that a decoder finds in the bytes.
module _ (decode_png : List ℕ → Option (ℕ × ℕ)) where
  unfoldable pub image_valid : Result → Bool
  image_valid r =
      eqb_ℤ r.image_format image_png
      && dimension_valid r.image_width
      && dimension_valid r.image_height
      && decodes (decode_png (contents r.image))

  -- What the header asks of the result of a command.
  unfoldable pub result_valid : Command → Result → Bool
  result_valid c r =
      r.struct_size == result_struct_size
      && eqb_ℤ r.reserved (pos 0)
      && field_valid text_result_max_bytes r.text
      && field_valid image_result_max_bytes r.image
      && (if eqb_ℤ r.status status_success && is_screenshot c then image_valid r else no_image r)
