-- ===== src/Bridge/Browser/Commands.antt =====
-- The runtime's side of a browser request: the checks of a tool's arguments in BrowserTools.hs
-- (packages/agent-native-bridge/src/Agent/CLI), and the structure that invokeBrowserCommand of
-- BrowserBridge.hs (packages/agent-native-bridge/ffi/Agent/CLI/MacOS) fills from the command.
use haskell_agent.Base.{
  ℕ, Bool, false, not, ◌&&◌, ◌||◌, Option, none, some, [], ◌∷◌, ltb, leb, if◌then◌else◌, length,
  List,
}
use haskell_agent.Bridge.Buffers.{is_empty, same_text}
use haskell_agent.Base.Int.{pos}
use haskell_agent.Bridge.Browser.{
  Text, TextFunctions, Uri, Authority, http, https, Double, zero_double, is_finite, is_zero, within,
  Slice, null, bytes_at, Request, url_max_bytes, ref_max_bytes, text_max_bytes, key_max_bytes,
  tab_id_max_bytes, scroll_max_abs_delta, request_struct_size, scope_id_max_bytes,
  call_id_max_bytes,
}

-- BrowserCommand
pub data Command : Type 0 where
  navigate : Text → Command
  snapshot : Command
  click : Text → Command
  type : Text → Text → Bool → Command
  key : Text → Command
  scroll : Double → Double → Command
  back forward reload screenshot list_tabs : Command
  switch_tab : Text → Command
  list_downloads : Command

-- BrowserInvocation
pub record Invocation : Type 0 where
  pub scope_id : Text
  pub call_id : Text
  pub command : Command

-- The calls of the browser's tools, with the arguments that JSON decoding found.
pub data ToolCall : Type 0 where
  browser_navigate : Text → ToolCall
  browser_click : Text → ToolCall
  browser_type : Text → Text → Option Bool → ToolCall
  browser_key : Text → ToolCall
  browser_scroll : Double → Double → ToolCall
  browser_switch_tab : Text → ToolCall
  browser_snapshot browser_back browser_forward browser_reload browser_screenshot : ToolCall
  browser_list_tabs browser_list_downloads : ToolCall

-- `fail` is `none`.
abbrev check {ℓ} : {A : Type ℓ} → Bool → A → Option A
check ok a = if ok then some a else none

-- maybe False id
abbrev pub or_false : Option Bool → Bool
or_false none = false
or_false (some b) = b

-- validateByteLength
unfoldable pub fits : ℕ → Text → Bool
fits limit value = not (ltb limit (length value))

-- validateNonBlank. `is_blank`: nothing is left of the text when it is stripped.
unfoldable pub non_blank : (Text → Bool) → ℕ → Text → Bool
non_blank is_blank limit value = not (is_blank value) && fits limit value

-- scrollArgsDecoder
unfoldable pub scroll_command : Double → Double → Option Command
scroll_command x y =
    if not (is_finite x) || not (is_finite y)
    then none
    else (if not (within scroll_max_abs_delta x) || not (within scroll_max_abs_delta y)
        then none
        else (if is_zero x && is_zero y then none else some (scroll x y)))

abbrev pub is_blank : TextFunctions → Text → Bool
is_blank t value = is_empty (t.strip value)

abbrev pub elem_text : Text → List Text → Bool
elem_text value [] = false
elem_text value (v ∷ values) = same_text value v || elem_text value values

-- The case of validateHttpUrl on what parseURI gives.
abbrev pub accepted_authority : Text → Option Authority → Option Text
accepted_authority url none = none
accepted_authority url (some a) =
    if is_empty a.reg_name then none else (if is_empty a.user_info then some url else none)

abbrev pub accepted_uri : TextFunctions → Text → Option Uri → Option Text
accepted_uri t url none = none
accepted_uri t url (some u) =
    if elem_text (t.fold_case u.scheme) (http ∷ https ∷ [])
    then accepted_authority url u.authority
    else none

unfoldable pub validate_http_url : TextFunctions → Text → Option Text
validate_http_url t value =
    if not (non_blank (is_blank t) url_max_bytes value)
    then none
    else (if not (same_text (t.strip value) value)
        then none
        else accepted_uri t value (t.parse_uri value))

abbrev pub navigated : Option Text → Option Command
navigated none = none
navigated (some url) = some (navigate url)

module _ (t : TextFunctions) where
  -- The decoders of the tools' arguments, and the commands that the tools make of them.
  unfoldable pub command_of : ToolCall → Option Command
  command_of (browser_navigate url) = navigated (validate_http_url t url)
  command_of (browser_click ref) = check (non_blank (is_blank t) ref_max_bytes ref) (click ref)
  command_of (browser_type ref text submit) =
      check (non_blank (is_blank t) ref_max_bytes ref && fits text_max_bytes text)
        (type ref text (or_false submit))
  command_of (browser_key k) = check (non_blank (is_blank t) key_max_bytes k) (key k)
  command_of (browser_scroll x y) = scroll_command x y
  command_of (browser_switch_tab tab) =
      check (non_blank (is_blank t) tab_id_max_bytes tab) (switch_tab tab)
  command_of browser_snapshot = some snapshot
  command_of browser_back = some back
  command_of browser_forward = some forward
  command_of browser_reload = some reload
  command_of browser_screenshot = some screenshot
  command_of browser_list_tabs = some list_tabs
  command_of browser_list_downloads = some list_downloads

-- withBrowserTextBytes
unfoldable pub slice_of : Text → Slice
slice_of [] = null
slice_of (b ∷ bytes) = bytes_at (b ∷ bytes)

abbrev fill : ℕ → Text → Text → Double → Double → Bool → Text → Text → Request
fill code argument1 argument2 x y submit scope call = record {
  struct_size = request_struct_size;
  command = pos code;
  flags = pos (if submit then 1 else 0);
  reserved = pos 0;
  scroll_delta_x = x;
  scroll_delta_y = y;
  scope_id = bytes_at scope;
  call_id = bytes_at call;
  argument1 = slice_of argument1;
  argument2 = slice_of argument2;
}

-- browserCommandABI, and the structure filled from what it returns. The scope and call
-- identifiers go by withTextBytes, which points at them also when they are empty.
unfoldable pub request_of : Command → Text → Text → Request
request_of (navigate url) = fill 1 url [] zero_double zero_double false
request_of snapshot = fill 2 [] [] zero_double zero_double false
request_of (click ref) = fill 3 ref [] zero_double zero_double false
request_of (type ref text submit) = fill 4 ref text zero_double zero_double submit
request_of back = fill 5 [] [] zero_double zero_double false
request_of forward = fill 6 [] [] zero_double zero_double false
request_of reload = fill 7 [] [] zero_double zero_double false
request_of (key k) = fill 8 k [] zero_double zero_double false
request_of (scroll x y) = fill 9 [] [] x y false
request_of screenshot = fill 10 [] [] zero_double zero_double false
request_of list_tabs = fill 11 [] [] zero_double zero_double false
request_of (switch_tab tab) = fill 12 tab [] zero_double zero_double false
request_of list_downloads = fill 13 [] [] zero_double zero_double false

-- validBrowserIdentifier
unfoldable pub valid_identifier : ℕ → Text → Bool
valid_identifier limit [] = false
valid_identifier limit (b ∷ value) = leb (length (b ∷ value)) limit

-- The request that invokeBrowserCommand sends, if it sends one.
unfoldable pub sent : Invocation → Option Request
sent i =
    if not (valid_identifier scope_id_max_bytes i.scope_id)
      || not (valid_identifier call_id_max_bytes i.call_id)
    then none
    else some (request_of i.command i.scope_id i.call_id)
