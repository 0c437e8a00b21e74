-- ===== src/Tests/Bridge.antt =====
-- Runs of the bridge's theorems on events, staging calls and highlighting.
use haskell_agent.Base.{
  ℕ, ◌+◌, ◌≡◌, ◌≢◌, refl, Bool, true, false, Option, none, some, List, [], ◌∷◌, arith, none≢some,
}
use haskell_agent.Base.Int.{pos}
use haskell_agent.Bridge.Buffers.{at_null, at_bytes}
use haskell_agent.Bridge.Frame.{Frame, frame, field, fields, word16_be, word32_be, parse}
use haskell_agent.Bridge.Frame.Events.{
  LoopEvent, Rendering, encode_event, event_contents, frame_of, started_contents,
  bounded_event_text,
}
use haskell_agent.Bridge.Frame.Flags.{Describes, encode_event-Describes}
use haskell_agent.Bridge.Staging.{Staged, null_array, traverse, valid_turn_id}
use haskell_agent.Bridge.Staging.Operations.{stage_turn_context, read_text}
use haskell_agent.Bridge.Staging.Preservation.{IsStaged}
use haskell_agent.Bridge.Staging.Calls
use haskell_agent.Bridge.Staging.Calls.{Call, call, call-failed, run-IsStaged}
use haskell_agent.Bridge.Syntax.{Token, keyword}

abbrev same : List ℕ → List ℕ
same bytes = bytes

abbrev two_fields : List (Option (List ℕ))
two_fields = some (104 ∷ 105 ∷ []) ∷ none ∷ []

abbrev two_fields_bytes : List ℕ
two_fields_bytes =
    72 ∷ 65 ∷ 69 ∷ 86 ∷ 1 ∷ 6 ∷ 0 ∷ 2 ∷ 0 ∷ 0 ∷ 0 ∷ 1 ∷ 116 ∷ 0 ∷ 0 ∷ 0 ∷ 2 ∷ 104 ∷ 105 ∷ 255 ∷ 255
    ∷ 255 ∷ 255 ∷ []

two_fields-frame : frame same 6 2 (116 ∷ []) two_fields ≡ some two_fields_bytes
unfolding frame fields field word16_be word32_be
two_fields-frame = refl

abbrev rendering : Rendering
rendering = record {
  redact = same;
  chart_summary = λ t. none;
  chart_document = λ t. none;
  decimal = λ n. (n + 48) ∷ [];
  is_chart_call = λ t. false;
}

-- An asynchronous call whose arguments are encrypted.
abbrev started : LoopEvent
started = LoopEvent.tool_started (record {
  call_id = 99 ∷ [];
  name = 110 ∷ [];
  summary = [];
  arguments = 120 ∷ [];
  arguments_encrypted = true;
  is_async = true;
})

abbrev started_bytes : List ℕ
started_bytes =
    72 ∷ 65 ∷ 69 ∷ 86 ∷ 1 ∷ 4 ∷ 0 ∷ 5 ∷ 0 ∷ 0 ∷ 0 ∷ 1 ∷ 116 ∷ 0 ∷ 0 ∷ 0 ∷ 1 ∷ 99 ∷ 0 ∷ 0 ∷ 0 ∷ 1
    ∷ 110 ∷ 0 ∷ 0 ∷ 0 ∷ 0 ∷ 0 ∷ 0 ∷ 0 ∷ 0 ∷ []

started-encode_event : encode_event same rendering (116 ∷ []) started ≡ some started_bytes
unfolding encode_event event_contents frame_of started_contents bounded_event_text frame fields
    field word16_be word32_be
started-encode_event = refl

encode_event-Describes_example :
    (f : Frame) × (parse started_bytes ≡ some f)
    × (f.turn_id ≡ 116 ∷ [])
    × Describes same rendering started f
encode_event-Describes_example =
    encode_event-Describes same rendering (116 ∷ []) started started_bytes started-encode_event

abbrev all_utf8 : List ℕ → Bool
all_utf8 bytes = true

abbrev nothing_staged : Staged
nothing_staged = record { images = λ id. none; options = λ id. none }

nothing_staged-IsStaged : IsStaged all_utf8 nothing_staged
nothing_staged-IsStaged = record {
  images_valid = λ id is e. elim (none≢some e) [ ];
  options_valid = λ id o e. elim (none≢some e) [ ];
}

-- Options for the turn "t", then its context: a window with a token and an application.
abbrev options_call : Call
options_call = Call.stages_options false (at_bytes (116 ∷ [])) (pos 0) (pos 1)

abbrev context_call : Call
context_call =
    Call.stages_context false (at_bytes (116 ∷ [])) 7 (at_bytes (97 ∷ [])) (at_null 0)
      (null_array 0)

run-IsStaged_example :
    IsStaged all_utf8 (Calls.run all_utf8 (options_call ∷ context_call ∷ []) nothing_staged)
run-IsStaged_example =
    run-IsStaged all_utf8 (options_call ∷ context_call ∷ []) nothing_staged nothing_staged-IsStaged

-- With no options the context is refused with status 5.
context_refused : (call all_utf8 context_call nothing_staged).0 ≢ 0
unfolding call stage_turn_context valid_turn_id read_text traverse
context_refused = omega arith

call-failed_example : (call all_utf8 context_call nothing_staged).1 ≡ some nothing_staged
call-failed_example = call-failed all_utf8 context_call nothing_staged context_refused

-- A highlighter that takes each source for one keyword.
abbrev one_token : List ℕ → List (List Token)
one_token source = (record { text = source; class = keyword } ∷ []) ∷ []
