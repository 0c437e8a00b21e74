-- ===== src/Bridge/Browser.antt =====
-- The browser requests of HaskellAgentBridge.h (packages/agent-native-bridge/include): the
-- command codes, the limits, the structure ha_browser_request and what a host must reject; and
-- the runtime's side of it, BrowserTools.hs (packages/agent-native-bridge/src/Agent/CLI) and
-- BrowserBridge.hs (packages/agent-native-bridge/ffi/Agent/CLI/MacOS), which checks a tool's
-- arguments and fills the structure. A text is the list of its UTF-8 bytes.
pub mod Commands
pub mod Urls
pub mod Conformance
pub mod RoundTrip
pub mod Result
pub mod Rendering
pub mod Acceptance
pub mod Pending
use haskell_agent.Base.{
  ℕ, suc, ◌*◌, ◌^◌, Bool, true, false, not, ◌&&◌, ◌||◌, Option, none, some, List, [], ◌∷◌, leb, ltb,
  ◌==◌, if◌then◌else◌, length,
}
use haskell_agent.Bridge.Buffers.{is_empty, same_text}
use haskell_agent.Base.Int.{ℤ, pos, pos_part, neg_part, eqb_ℤ}

abbrev pub Text : Type 0
Text = List ℕ

-- A double: NaN, an infinity, or a finite value, which is a whole number of units of 2 ^ -1074.
-- The two zeros are one value here.
pub data Double : Type 0 where
  nan : Double
  infinite : Bool → Double
  finite : ℤ → Double

abbrev pub zero_double : Double
zero_double = finite (pos 0)

abbrev pub is_finite : Double → Bool
is_finite (finite _) = true
is_finite _ = false

-- `d == 0`
abbrev pub is_zero : Double → Bool
is_zero (finite z) = eqb_ℤ z (pos 0)
is_zero _ = false

-- `abs d <= limit`, for a limit in whole pixels.
unfoldable pub within : ℕ → Double → Bool
within limit (finite z) = leb (pos_part z) (limit * 2 ^ 1074) && leb (neg_part z) (limit * 2 ^ 1074)
within limit _ = false

-- The enum of commands, and the codes it gives them.
pub data Operation : Type 0 where
  navigate snapshot click type back forward reload key scroll screenshot : Operation
  list_tabs switch_tab list_downloads : Operation

abbrev pub code : Operation → ℕ
code navigate = 1
code snapshot = 2
code click = 3
code type = 4
code back = 5
code forward = 6
code reload = 7
code key = 8
code scroll = 9
code screenshot = 10
code list_tabs = 11
code switch_tab = 12
code list_downloads = 13

abbrev pub operations : List Operation
operations =
    navigate ∷ snapshot ∷ click ∷ type ∷ back ∷ forward ∷ reload ∷ key ∷ scroll ∷ screenshot
    ∷ list_tabs ∷ switch_tab ∷ list_downloads ∷ []

-- The command that a code stands for.
unfoldable pub find_operation : List Operation → ℤ → Option Operation
find_operation [] n = none
find_operation (o ∷ os) n =
    let rest = find_operation os n in if eqb_ℤ n (pos (code o)) then some o else rest

abbrev pub type_submit : ℕ
type_submit = 1

-- The enum of limits, as far as requests use it.
abbrev pub url_max_bytes : ℕ
url_max_bytes = 8192

abbrev pub ref_max_bytes : ℕ
ref_max_bytes = 4096

abbrev pub text_max_bytes : ℕ
text_max_bytes = 65536

abbrev pub key_max_bytes : ℕ
key_max_bytes = 128

abbrev pub tab_id_max_bytes : ℕ
tab_id_max_bytes = 512

abbrev pub scope_id_max_bytes : ℕ
scope_id_max_bytes = 1024

abbrev pub call_id_max_bytes : ℕ
call_id_max_bytes = 1024

abbrev pub scroll_max_abs_delta : ℕ
scroll_max_abs_delta = 10000

abbrev pub request_struct_size : ℕ
request_struct_size = 96

-- A pointer and a length: NULL with length zero, or the bytes at a pointer.
pub data Slice : Type 0 where
  null : Slice
  bytes_at : List ℕ → Slice

abbrev pub text_of : Slice → Text
text_of null = []
text_of (bytes_at bytes) = bytes

-- Empty slices use NULL/zero.
abbrev pub well_formed : Slice → Bool
well_formed null = true
well_formed (bytes_at []) = false
well_formed (bytes_at (b ∷ bytes)) = true

abbrev pub is_null : Slice → Bool
is_null null = true
is_null (bytes_at _) = false

-- ha_browser_request
pub record Request : Type 0 where
  pub struct_size : ℕ
  pub command : ℤ
  pub flags : ℤ
  pub reserved : ℤ
  pub scroll_delta_x : Double
  pub scroll_delta_y : Double
  pub scope_id : Slice
  pub call_id : Slice
  pub argument1 : Slice
  pub argument2 : Slice

-- A text of at most so many bytes; a nonempty one.
unfoldable pub at_most : ℕ → Slice → Bool
at_most limit s = well_formed s && leb (length (text_of s)) limit

unfoldable pub nonempty : ℕ → Slice → Bool
unfolding at_most
nonempty limit s = not (is_null s) && at_most limit s

abbrev no_flags : Request → Bool
no_flags r = eqb_ℤ r.flags (pos 0)

abbrev no_scroll : Request → Bool
no_scroll r = is_zero r.scroll_delta_x && is_zero r.scroll_delta_y

abbrev no_arguments : Request → Bool
no_arguments r = is_null r.argument1 && is_null r.argument2 && no_scroll r && no_flags r

abbrev one_argument : ℕ → Request → Bool
one_argument limit r =
    nonempty limit r.argument1 && is_null r.argument2 && no_scroll r && no_flags r

-- The parts of a URI, as Network.URI gives them: the scheme with its colon, and what stands between
-- the slashes and the path.
pub record Authority : Type 0 where
  pub user_info : Text
  pub reg_name : Text

pub record Uri : Type 0 where
  pub scheme : Text
  pub authority : Option Authority

-- Text.strip, Text.toCaseFold and parseURI.
pub record TextFunctions : Type 0 where
  pub strip : Text → Text
  pub fold_case : Text → Text
  pub parse_uri : Text → Option Uri

abbrev pub http : Text
http = 104 ∷ 116 ∷ 116 ∷ 112 ∷ 58 ∷ []

abbrev pub https : Text
https = 104 ∷ 116 ∷ 116 ∷ 112 ∷ 115 ∷ 58 ∷ []

-- A host, and no user information.
abbrev pub names_host : Option Authority → Bool
names_host none = false
names_host (some a) = not (is_empty a.reg_name) && is_empty a.user_info

abbrev pub is_http_uri : TextFunctions → Option Uri → Bool
is_http_uri t none = false
is_http_uri t (some u) =
    names_host u.authority
    && (same_text (t.fold_case u.scheme) http || same_text (t.fold_case u.scheme) https)

-- An absolute HTTP(S) URL without userinfo.
abbrev pub is_http_url : TextFunctions → Text → Bool
is_http_url t url = is_http_uri t (t.parse_uri url)

module _ (is_http_url : Text → Bool) where
  -- What the header asks of the fields that a command uses, and of those that it does not use.
  unfoldable pub fields_valid : Operation → Request → Bool
  fields_valid navigate r = one_argument url_max_bytes r && is_http_url (text_of r.argument1)
  fields_valid snapshot r = no_arguments r
  fields_valid click r = one_argument ref_max_bytes r
  fields_valid type r =
      nonempty ref_max_bytes r.argument1
      && at_most text_max_bytes r.argument2
      && no_scroll r
      && (no_flags r || eqb_ℤ r.flags (pos type_submit))
  fields_valid back r = no_arguments r
  fields_valid forward r = no_arguments r
  fields_valid reload r = no_arguments r
  fields_valid key r = one_argument key_max_bytes r
  fields_valid scroll r =
      is_null r.argument1
      && is_null r.argument2
      && within scroll_max_abs_delta r.scroll_delta_x
      && within scroll_max_abs_delta r.scroll_delta_y
      && not (no_scroll r)
      && no_flags r
  fields_valid screenshot r = no_arguments r
  fields_valid list_tabs r = no_arguments r
  fields_valid switch_tab r = one_argument tab_id_max_bytes r
  fields_valid list_downloads r = no_arguments r

  unfoldable pub operation_valid : Option Operation → Request → Bool
  operation_valid none r = false
  operation_valid (some o) r = fields_valid o r

  -- Whether a host may accept a request: it must reject the others with INVALID_ARGUMENT.
  unfoldable pub request_valid : Request → Bool
  request_valid r =
      r.struct_size == request_struct_size
      && eqb_ℤ r.reserved (pos 0)
      && nonempty scope_id_max_bytes r.scope_id
      && nonempty call_id_max_bytes r.call_id
      && operation_valid (find_operation operations r.command) r
