-- ===== src/Tests/Browser.antt =====
-- Runs of the browser bridge's theorems: a click on "e1", a screenshot, and two requests that wait.
use haskell_agent.Base.{
  ℕ, ◌+◌, ◌≡◌, refl, Bool, true, false, ◌&&◌, none, some, List, [], ◌∷◌, arith, length, take, drop,
  none≢some,
}
use haskell_agent.Base.Int.{pos, eqb_ℤ}
use haskell_agent.Bridge.Buffers.{at_null, at_bytes, same_text}
use haskell_agent.Bridge.Browser.{
  Text, TextFunctions, is_http_url, Request, bytes_at, null, zero_double, request_valid,
}
use haskell_agent.Bridge.Browser.Commands.{
  Invocation, Command, ToolCall, command_of, validate_http_url, sent, request_of, slice_of,
  valid_identifier, non_blank, fits,
}
use haskell_agent.Bridge.Browser.Conformance.{sent-request_valid}
use haskell_agent.Bridge.Browser.RoundTrip.{invocation_in, invocation_in-sent}
use haskell_agent.Bridge.Browser.Result.{Result, result_valid}
use haskell_agent.Bridge.Browser.Rendering.{is_accepted, tool_result, png_header_dimensions}
use haskell_agent.Bridge.Browser.Acceptance.{tool_result-result_valid}
use haskell_agent.Bridge.Browser.Pending.{
  Registry, initial, lookup, delete, register, register_with, next_available, increment_pending_id,
  complete, is_some, max_bound,
}
use haskell_agent.Bridge.Browser.Pending.Search.{IsId, next_available-finds}
use haskell_agent.Bridge.Browser.Pending.Delivery.{IsConsistent, Call, run}
use haskell_agent.Bridge.Browser.Pending.Completion.{complete-delivers}

-- Texts without blanks and capitals, and a parser that finds the host "h" behind "http:".
abbrev texts : TextFunctions
texts = record {
  strip = λ t. t;
  fold_case = λ t. t;
  parse_uri = λ t. some (record {
    scheme = take 5 t;
    authority = some (record { user_info = []; reg_name = drop 7 t });
  });
}

-- "http://h"
abbrev url : Text
url = 104 ∷ 116 ∷ 116 ∷ 112 ∷ 58 ∷ 47 ∷ 47 ∷ 104 ∷ []

abbrev navigate : ToolCall
navigate = ToolCall.browser_navigate url

abbrev invocation : Invocation
invocation = record {
  scope_id = 116 ∷ [];
  call_id = 99 ∷ [];
  command = Command.click (101 ∷ 49 ∷ []);
}

abbrev request : Request
request = record {
  struct_size = 96;
  command = pos 3;
  flags = pos 0;
  reserved = pos 0;
  scroll_delta_x = zero_double;
  scroll_delta_y = zero_double;
  scope_id = bytes_at (116 ∷ []);
  call_id = bytes_at (99 ∷ []);
  argument1 = bytes_at (101 ∷ 49 ∷ []);
  argument2 = null;
}

invocation-sent : sent invocation ≡ some request
unfolding sent request_of slice_of valid_identifier
invocation-sent = refl

abbrev navigation : Request
navigation = record request { command = pos 1; argument1 = bytes_at url }

navigate-command_of : command_of texts navigate ≡ some (Command.navigate url)
unfolding command_of non_blank fits validate_http_url same_text
navigate-command_of = refl

navigation-sent :
    sent (record { scope_id = 116 ∷ []; call_id = 99 ∷ []; command = Command.navigate url })
    ≡ some navigation
unfolding sent request_of slice_of valid_identifier
navigation-sent = refl

sent-request_valid_example : request_valid (is_http_url texts) navigation ≡ true
sent-request_valid_example =
    sent-request_valid texts refl navigate (116 ∷ []) (99 ∷ []) navigate-command_of navigation-sent

invocation_in-sent_example : invocation_in request ≡ some invocation
invocation_in-sent_example = invocation_in-sent invocation request invocation-sent

-- A PNG header for 2 times 3 pixels, and a decoder that reads no more than the header.
abbrev png : List ℕ
png =
    137 ∷ 80 ∷ 78 ∷ 71 ∷ 13 ∷ 10 ∷ 26 ∷ 10 ∷ 0 ∷ 0 ∷ 0 ∷ 13 ∷ 73 ∷ 72 ∷ 68 ∷ 82 ∷ 0 ∷ 0 ∷ 0 ∷ 2 ∷ 0
    ∷ 0 ∷ 0 ∷ 3 ∷ []

abbrev shot : Result
shot = record {
  struct_size = 56;
  status = pos 0;
  image_format = pos 1;
  image_width = pos 2;
  image_height = pos 3;
  reserved = pos 0;
  text = at_null 0;
  image = at_bytes png;
}

tool_result-result_valid_example :
    is_accepted (tool_result png_header_dimensions (λ b. true) Command.screenshot (some shot))
    ≡ eqb_ℤ shot.status (pos 0)
      && result_valid png_header_dimensions Command.screenshot shot
      && true
tool_result-result_valid_example =
    tool_result-result_valid png_header_dimensions (λ b d e. e) (λ b. true) Command.screenshot shot

abbrev entries : List (ℕ × ℕ)
entries = (1, 10) ∷ (max_bound, 11) ∷ []

next_available-finds_example :
    (id : ℕ) × (next_available (length entries + 1) max_bound entries ≡ some id)
    × IsId id
    × (is_some (lookup id entries) ≡ false)
next_available-finds_example =
    next_available-finds entries max_bound (omega arith, omega arith) (omega arith)

abbrev empty : Registry Bool
empty = initial

empty-IsConsistent : IsConsistent Bool empty
unfolding lookup
empty-IsConsistent = record {
  waiting = λ id slot e. elim (none≢some e) [ ];
  made = λ slot h. refl;
  distinct = λ id other slot e f. elim (none≢some e) [ ];
}

abbrev one_waits : Registry Bool
one_waits = record { next_id = 2; pending = (1, 0) ∷ []; slots_made = 1; filled = [] }

empty-register : register empty ≡ some (1, 0, one_waits)
unfolding register register_with next_available lookup delete increment_pending_id
empty-register = refl

-- Another request is registered and completed in between.
abbrev others : List (Call Bool)
others = Call.registers ∷ Call.completes 2 true ∷ []

complete-delivers_example :
    (lookup 0 (run others one_waits).filled ≡ none)
    × (lookup 0 (complete 1 true (run others one_waits)).filled ≡ some true)
    × (complete 1 false (complete 1 true (run others one_waits))
        ≡ complete 1 true (run others one_waits))
complete-delivers_example =
    complete-delivers empty one_waits 1 0 others true false empty-IsConsistent empty-register
      (tt, (omega arith, tt))
