-- ===== src/Bridge/Frame/Events.antt =====
-- The frames of the agent loop's events: encodeNativeLoopEventWithChartCalls and
-- encodeNativeUsageEvent of NativeLoopEvent.hs (packages/agent-native-bridge/ffi/Agent/CLI/MacOS).
use haskell_agent.Base.{
  ℕ, ◌+◌, Bool, true, false, not, ◌&&◌, Option, none, some, List, [], ◌∷◌, if◌then◌else◌, take,
  drop,
}
use haskell_agent.Bridge.Frame.{Text, Bytes, frame}

-- The parts of a ToolCall and of a ToolCallResult that the encoder reads; `summary` is
-- summarizeToolCall's.
pub record ToolCall : Type 0 where
  pub call_id : Text
  pub name : Text
  pub summary : Text
  pub arguments : Text
  pub arguments_encrypted : Bool
  pub is_async : Bool

pub record ToolCallResult : Type 0 where
  pub call_id : Text
  pub output : Text
  -- `tool_result_outcome`: whether the tool succeeded, if that is known
  pub succeeded : Option Bool
  pub is_computer : Bool
  pub is_async : Bool

pub record TokenUsage : Type 0 where
  pub input_tokens : ℕ
  pub output_tokens : ℕ
  pub cached_tokens : ℕ

pub data LoopEvent : Type 0 where
  reasoning_delta text_delta plan_delta activity_updated warning_raised : Text → LoopEvent
  response_restarted : Text → LoopEvent
  tool_started tool_updated tool_arguments_updated : ToolCall → LoopEvent
  tool_finished : ToolCallResult → LoopEvent
  turn_finished : TokenUsage → LoopEvent
  -- the events that have no frame
  other_event : LoopEvent

-- Code of other modules: redactComputerScreenshot, chartResultSummary, chartResultDocument, `show`
-- on numbers, and whether a call is among the chart calls.
pub record Rendering : Type 0 where
  pub redact : Text → Text
  pub chart_summary : Text → Option Text
  pub chart_document : Text → Option Text
  pub decimal : ℕ → Text
  pub is_chart_call : Text → Bool

abbrev pub max_event_characters : ℕ
max_event_characters = 8192

abbrev pub is_empty : Text → Bool
is_empty [] = true
is_empty (_ ∷ _) = false

-- boundedEventText
unfoldable pub bounded_event_text : Text → Text × Bool
bounded_event_text value =
    (take max_event_characters value, not (is_empty (drop max_event_characters value)))

abbrev pub when : Bool → ℕ → ℕ
when b n = if b then n else 0

abbrev pub from_maybe : Text → Option Text → Text
from_maybe default none = default
from_maybe default (some value) = value

-- maybe True (== ToolSucceeded)
abbrev pub not_failed : Option Bool → Bool
not_failed none = true
not_failed (some ok) = ok

abbrev pub is_just : Option Text → Bool
is_just none = false
is_just (some _) = true

-- What a frame is made of.
pub record Contents : Type 0 where
  pub kind : ℕ
  pub flags : ℕ
  pub fields : List (Option Text)

abbrev pub text_contents : ℕ → Text → Option Contents
text_contents kind text = some (record { kind = kind; flags = 0; fields = some text ∷ [] })

-- toolStartedEvent
unfoldable pub started_contents : ToolCall → Contents
started_contents call =
    let (arguments, truncated) =
      bounded_event_text (if call.arguments_encrypted then [] else call.arguments) in
    record {
      kind = 4;
      flags = when call.arguments_encrypted 1 + when truncated 2 + when call.is_async 4;
      fields = some call.call_id ∷ some call.name ∷ some call.summary ∷ some arguments ∷ [];
    }

module _ (r : Rendering) where
  -- the chart document of a result, if it is one
  unfoldable pub chart_of : ToolCallResult → Option Text
  chart_of result =
      if r.is_chart_call result.call_id && not_failed result.succeeded
      then r.chart_document result.output
      else none

  unfoldable pub event_output : ToolCallResult → Option Text → Text
  event_output result chart =
      if result.is_computer
      then r.redact result.output
      else (if is_just chart
          then from_maybe result.output (r.chart_summary result.output)
          else result.output)

  abbrev pub chart_field : Option Text → List (Option Text)
  chart_field none = []
  chart_field (some document) = some document ∷ []

  unfoldable pub finished_with : ToolCallResult → Option Text → Contents
  finished_with result chart =
      let (output, truncated) = bounded_event_text (event_output result chart) in
      record {
        kind = 5;
        flags = when truncated 2 + when result.is_async 4 + when (is_just chart) 8;
        fields = some result.call_id ∷ some output ∷ chart_field chart;
      }

  -- the ToolFinished branch
  unfoldable pub finished_contents : ToolCallResult → Contents
  finished_contents result = finished_with result (chart_of result)

  -- encodeNativeUsageEvent: `cost` is the provider's, as `show` writes it.
  unfoldable pub usage_contents : Bool → TokenUsage → Option Text → Contents
  usage_contents aggregate usage cost = record {
    kind = if aggregate then 7 else 6;
    flags = 0;
    fields =
        some (r.decimal usage.input_tokens)
        ∷ some (r.decimal usage.output_tokens)
        ∷ some (r.decimal usage.cached_tokens)
        ∷ cost
        ∷ [];
  }

  -- encodeNativeLoopEventWithChartCalls, before the frame is written
  unfoldable pub event_contents : LoopEvent → Option Contents
  event_contents (reasoning_delta text) = text_contents 1 text
  event_contents (text_delta text) = text_contents 2 text
  event_contents (plan_delta text) = text_contents 2 text
  event_contents (activity_updated status) = text_contents 3 status
  event_contents (warning_raised warning) = text_contents 3 warning
  event_contents (response_restarted message) = text_contents 3 message
  event_contents (tool_started call) = some (started_contents call)
  event_contents (tool_updated call) = some (started_contents call)
  event_contents (tool_arguments_updated call) = some (started_contents call)
  event_contents (tool_finished result) = some (finished_contents result)
  event_contents (turn_finished usage) = some (usage_contents false usage none)
  event_contents other_event = none

unfoldable pub frame_of : (Text → Bytes) → Text → Option Contents → Option Bytes
frame_of encode_utf8 turn_id none = none
frame_of encode_utf8 turn_id (some c) = frame encode_utf8 c.kind c.flags turn_id c.fields

unfoldable pub encode_event : (Text → Bytes) → Rendering → Text → LoopEvent → Option Bytes
encode_event encode_utf8 r turn_id event = frame_of encode_utf8 turn_id (event_contents r event)
