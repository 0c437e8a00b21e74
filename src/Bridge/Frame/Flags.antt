-- ===== src/Bridge/Frame/Flags.antt =====
-- What a host learns from the frame of a tool event: its flags, as the header names their bits, and
-- its fields.
use haskell_agent.Base.{
  ℕ, ◌+◌, ◌/◌, ◌%◌, ◌^◌, ◌<◌, ◌≡◌, refl, Bool, false, Option, none, some, List, [], ◌∷◌, ◌==◌, map,
  arith, if◌then◌else◌,
}
use haskell_agent.Bridge.Frame.{Text, Bytes, Frame, parse}
use haskell_agent.Bridge.Frame.RoundTrip.{encoded, parse-frame}
use haskell_agent.Bridge.Frame.Events.{
  ToolCall, ToolCallResult, LoopEvent, Rendering, Contents, bounded_event_text, when, is_just,
  text_contents, started_contents, usage_contents, finished_contents, finished_with, chart_of,
  chart_field, event_output, event_contents, frame_of, encode_event, TokenUsage,
}

-- Whether a bit is set.
unfoldable pub bit : ℕ → ℕ → Bool
bit n flags = flags / 2 ^ n % 2 == 1

started_flags :
    (a b c : Bool)
    → let flags = when a 1 + when b 2 + when c 4 in
      (bit 0 flags ≡ a) × (bit 1 flags ≡ b) × (bit 2 flags ≡ c) × (flags < 2 ^ 16)
unfolding bit
started_flags a b c = ground arith

finished_flags :
    (a b c : Bool)
    → let flags = when a 2 + when b 4 + when c 8 in
      (bit 1 flags ≡ a) × (bit 2 flags ≡ b) × (bit 3 flags ≡ c) × (flags < 2 ^ 16)
unfolding bit
finished_flags a b c = ground arith

abbrev pub texts : (Text → Bytes) → List Text → List (Option Bytes)
texts encode_utf8 values = map (λ v. some (encode_utf8 v)) values

module _ (encode_utf8 : Text → Bytes) (r : Rendering) where
  abbrev pub DescribesText : ℕ → Text → Frame → Type 0
  DescribesText kind text f =
      (f.kind ≡ kind) × (f.flags ≡ 0) × (f.fields ≡ texts encode_utf8 (text ∷ []))

  -- Kind 4: bit 0 for encrypted arguments, whose text is then left out, bit 1 for truncation, and
  -- bit 2 for an asynchronous call.
  abbrev pub DescribesCall : ToolCall → Frame → Type 0
  DescribesCall call f =
      (f.kind ≡ 4)
      × (bit 0 f.flags ≡ call.arguments_encrypted)
      × (bit 1 f.flags
          ≡ (bounded_event_text (if call.arguments_encrypted then [] else call.arguments)).1)
      × (bit 2 f.flags ≡ call.is_async)
      × (f.fields
          ≡ texts encode_utf8 (
              call.call_id
              ∷ call.name
              ∷ call.summary
              ∷ (bounded_event_text (if call.arguments_encrypted then [] else call.arguments)).0
              ∷ []))

  -- Kind 5: bit 1 for truncation, bit 2 for an asynchronous result, and bit 3 for a third field,
  -- which is a whole chart document.
  abbrev pub DescribesResult : ToolCallResult → Option Text → Frame → Type 0
  DescribesResult result chart f =
      (f.kind ≡ 5)
      × (bit 1 f.flags ≡ (bounded_event_text (event_output r result chart)).1)
      × (bit 2 f.flags ≡ result.is_async)
      × (bit 3 f.flags ≡ is_just chart)
      × (f.fields
          ≡ some (encode_utf8 result.call_id)
            ∷ some (encode_utf8 (bounded_event_text (event_output r result chart)).0)
            ∷ map (encoded encode_utf8) (chart_field r chart))

  -- Kind 6: the token counts, and no cost.
  abbrev pub DescribesUsage : TokenUsage → Frame → Type 0
  DescribesUsage usage f =
      (f.kind ≡ 6)
      × (f.flags ≡ 0)
      × (f.fields
          ≡ some (encode_utf8 (r.decimal usage.input_tokens))
            ∷ some (encode_utf8 (r.decimal usage.output_tokens))
            ∷ some (encode_utf8 (r.decimal usage.cached_tokens))
            ∷ none
            ∷ [])

  -- What the header says of the frame of an event.
  abbrev pub Describes : LoopEvent → Frame → Type 0
  Describes (LoopEvent.reasoning_delta text) f = DescribesText 1 text f
  Describes (LoopEvent.text_delta text) f = DescribesText 2 text f
  Describes (LoopEvent.plan_delta text) f = DescribesText 2 text f
  Describes (LoopEvent.activity_updated text) f = DescribesText 3 text f
  Describes (LoopEvent.warning_raised text) f = DescribesText 3 text f
  Describes (LoopEvent.response_restarted text) f = DescribesText 3 text f
  Describes (LoopEvent.tool_started call) f = DescribesCall call f
  Describes (LoopEvent.tool_updated call) f = DescribesCall call f
  Describes (LoopEvent.tool_arguments_updated call) f = DescribesCall call f
  Describes (LoopEvent.tool_finished result) f = DescribesResult result (chart_of r result) f
  Describes (LoopEvent.turn_finished usage) f = DescribesUsage usage f
  Describes LoopEvent.other_event f = ⊥

  abbrev Parsed : Text → Bytes → Contents → Type 0
  Parsed turn_id bytes c =
      parse bytes
      ≡ some (record {
        kind = c.kind;
        flags = c.flags;
        turn_id = encode_utf8 turn_id;
        fields = map (encoded encode_utf8) c.fields;
      })

  frame_of-parse :
      (turn_id : Text) (bytes : Bytes) (c : Contents)
      → c.kind < 2 ^ 8
      → c.flags < 2 ^ 16
      → frame_of encode_utf8 turn_id (some c) ≡ some bytes
      → Parsed turn_id bytes c
  unfolding frame_of
  frame_of-parse turn_id bytes c k g e =
      parse-frame encode_utf8 c.kind c.flags turn_id c.fields bytes k g e

  -- A parsed frame of the turn that an event's description fits.
  abbrev pub Tells : Text → Bytes → (Frame → Type 0) → Type 0
  Tells turn_id bytes Fits =
      (f : Frame) × (parse bytes ≡ some f) × (f.turn_id ≡ encode_utf8 turn_id) × Fits f

  started_contents-DescribesCall :
      (turn_id : Text) (call : ToolCall) (bytes : Bytes)
      → frame_of encode_utf8 turn_id (some (started_contents call)) ≡ some bytes
      → Tells turn_id bytes (DescribesCall call)
  unfolding started_contents
  started_contents-DescribesCall turn_id call bytes e =
      let (b0, b1, b2, small) =
        started_flags call.arguments_encrypted
          (bounded_event_text (if call.arguments_encrypted then [] else call.arguments)).1
          call.is_async in
      (
        _,
        frame_of-parse turn_id bytes (started_contents call) (omega arith) small e,
        refl,
        (refl, b0, b1, b2, refl),
      )

  finished_with-DescribesResult :
      (turn_id : Text) (result : ToolCallResult) (chart : Option Text) (bytes : Bytes)
      → frame_of encode_utf8 turn_id (some (finished_with r result chart)) ≡ some bytes
      → Tells turn_id bytes (DescribesResult result chart)
  unfolding finished_with
  finished_with-DescribesResult turn_id result chart bytes e =
      let (b1, b2, b3, small) =
        finished_flags (bounded_event_text (event_output r result chart)).1 result.is_async
          (is_just chart) in
      (
        _,
        frame_of-parse turn_id bytes (finished_with r result chart) (omega arith) small e,
        refl,
        (refl, b1, b2, b3, refl),
      )

  text_Tells :
      (turn_id : Text) (kind : ℕ) (text : Text) (bytes : Bytes)
      → kind < 2 ^ 8
      → frame_of encode_utf8 turn_id (text_contents kind text) ≡ some bytes
      → Tells turn_id bytes (DescribesText kind text)
  text_Tells turn_id kind text bytes k e = (
    _,
    frame_of-parse turn_id bytes (record { kind = kind; flags = 0; fields = some text ∷ [] }) k
        (omega arith) e,
    refl,
    (refl, refl, refl),
  )

  -- A host that parses the frame of an event finds the turn and what the header says of the event:
  -- its kind, its flags bit by bit, and its fields in order; the arguments of a call and the output
  -- of a tool are cut to 8192 characters, and bit 1 tells whether anything was cut.
  pub encode_event-Describes :
      (turn_id : Text) (event : LoopEvent) (bytes : Bytes)
      → encode_event encode_utf8 r turn_id event ≡ some bytes
      → (f : Frame) × (parse bytes ≡ some f) × (f.turn_id ≡ encode_utf8 turn_id) × Describes event f
  unfolding encode_event event_contents finished_contents usage_contents frame_of
  encode_event-Describes turn_id (LoopEvent.reasoning_delta text) bytes e =
      text_Tells turn_id 1 text bytes (omega arith) e
  encode_event-Describes turn_id (LoopEvent.text_delta text) bytes e =
      text_Tells turn_id 2 text bytes (omega arith) e
  encode_event-Describes turn_id (LoopEvent.plan_delta text) bytes e =
      text_Tells turn_id 2 text bytes (omega arith) e
  encode_event-Describes turn_id (LoopEvent.activity_updated text) bytes e =
      text_Tells turn_id 3 text bytes (omega arith) e
  encode_event-Describes turn_id (LoopEvent.warning_raised text) bytes e =
      text_Tells turn_id 3 text bytes (omega arith) e
  encode_event-Describes turn_id (LoopEvent.response_restarted text) bytes e =
      text_Tells turn_id 3 text bytes (omega arith) e
  encode_event-Describes turn_id (LoopEvent.tool_started call) bytes e =
      started_contents-DescribesCall turn_id call bytes e
  encode_event-Describes turn_id (LoopEvent.tool_updated call) bytes e =
      started_contents-DescribesCall turn_id call bytes e
  encode_event-Describes turn_id (LoopEvent.tool_arguments_updated call) bytes e =
      started_contents-DescribesCall turn_id call bytes e
  encode_event-Describes turn_id (LoopEvent.tool_finished result) bytes e =
      finished_with-DescribesResult turn_id result (chart_of r result) bytes e
  encode_event-Describes turn_id (LoopEvent.turn_finished usage) bytes e = (
    _,
    frame_of-parse turn_id bytes (usage_contents r false usage none) (omega arith) (omega arith) e,
    refl,
    (refl, refl, refl),
  )
  encode_event-Describes turn_id LoopEvent.other_event bytes e = cc
