-- ===== src/Media/Audio.antt =====
-- audio.c of packages/agent-webrtc/cbits: capture and playback. What GStreamer reports is an
-- argument of each call.
pub mod Capture
pub mod Resources
use haskell_agent.Base.{
  ℕ, zero, suc, ◌+◌, ◌-◌, ◌*◌, ◌/◌, ◌%◌, ◌^◌, ◌≡◌, Bool, true, false, not, ◌&&◌, ◌||◌, Option, none,
  some, List, [], ◌∷◌, ◌++◌, ltb, leb, ◌==◌, if◌then◌else◌, length,
}
use haskell_agent.Base.Int.{ℤ, pos, negsuc}
use haskell_agent.Base.Words.{to_i32}
use haskell_agent.Base.Owned.{Event, creates, releases}

-- struct AgentAudio, but for its handles: the queue of captured buffers from head to tail.
pub record Audio : Type 0 where
  pub captured : List (List ℕ)
  pub captured_bytes : ℕ
  pub failed : Bool
  pub capture : Bool

-- GstFlowReturn, as far as capture_sample returns it.
pub data Flow : Type 0 where
  flow_ok flow_error flow_eos : Flow

abbrev is_odd : ℕ → Bool
is_odd n = not (n % 2 == 0)

-- The test of capture_sample on a buffer's size.
unfoldable pub overflows : Audio → ℕ → Bool
overflows a size =
    size == 0
    || is_odd size
    || ltb 24000 size
    || ltb 24000 ((a.captured_bytes + size) % 2 ^ 64)
    || leb 100 (length a.captured)

abbrev pub buffer_or_empty : Option (List ℕ) → List ℕ
buffer_or_empty none = []
buffer_or_empty (some b) = b

abbrev flow_of : Bool → Flow
flow_of true = flow_error
flow_of false = flow_ok

-- The section of capture_sample under the mutex.
unfoldable pub enqueue : List ℕ → Audio → Audio
unfolding overflows
enqueue buffer a = if overflows a (length buffer) then record a { failed = true } else record a {
  captured = a.captured ++ buffer ∷ [];
  captured_bytes = (a.captured_bytes + length buffer) % 2 ^ 64;
}

-- capture_sample: no sample, a sample with no buffer, or a sample.
unfoldable pub capture_sample : Option (Option (List ℕ)) → Audio → Flow × Audio
unfolding enqueue
capture_sample none a = (flow_eos, a)
capture_sample (some sample) a =
    let a' = enqueue (buffer_or_empty sample) a in (flow_of a'.failed, a')

-- The type of a message on the bus.
pub data MessageType : Type 0 where
  error_message eos_message other_message : MessageType

unfoldable pub ends_stream : MessageType → Bool
ends_stream error_message = true
ends_stream eos_message = true
ends_stream other_message = false

-- The loop of agent_audio_state.
unfoldable pub drain : List MessageType → Audio → Audio
unfolding ends_stream
drain [] a = a
drain (m ∷ ms) a = drain ms (if ends_stream m then record a { failed = true } else a)

-- agent_audio_state, with the messages that it pops.
unfoldable pub audio_state : List MessageType → Audio → ℤ × Audio
unfolding drain
audio_state messages a = let a' = drain messages a in (if a'.failed then negsuc 0 else pos 1, a')

-- agent_audio_read from the locked section on: `extracted` tells whether gst_buffer_extract
-- copies the whole of a buffer.
unfoldable pub take_captured : (List ℕ → Bool) → ℕ → List (List ℕ) → Audio → ℤ × List ℕ × Audio
unfolding to_i32
take_captured extracted capacity [] a = (pos 0, [], a)
take_captured extracted capacity (buffer ∷ rest) a =
    let a' = record a {
      captured = rest;
      captured_bytes = (a.captured_bytes + 2 ^ 64 - length buffer) % 2 ^ 64;
    } in
    if leb (length buffer) capacity && extracted buffer
    then (to_i32 (length buffer), buffer, a')
    else (negsuc 0, [], a')

-- agent_audio_read: its value, the bytes that it stored, and the state.
unfoldable pub audio_read : (List ℕ → Bool) → List MessageType → ℕ → Audio → ℤ × List ℕ × Audio
unfolding audio_state take_captured
audio_read extracted messages capacity a =
    if not a.capture
    then (negsuc 0, [], a)
    else (let a' = (audio_state messages a).1 in
        if a'.failed then (negsuc 0, [], a') else take_captured extracted capacity a'.captured a')

-- What a write to the playback source meets: the bytes that are queued there, whether a buffer can
-- be allocated, and whether it is taken.
pub record Source : Type 0 where
  pub level : ℕ
  pub allocated : Bool
  pub pushed : Bool

-- gst_util_uint64_scale and GST_SECOND
pub record Timing : Type 0 where
  pub scale : ℕ → ℕ → ℕ → ℕ
  pub second : ℕ

-- agent_audio_write: its value, the buffer that is pushed with its duration, and the state.
unfoldable pub audio_write :
    Timing → List MessageType → Source → List ℕ → Audio → ℤ × Option (List ℕ × ℕ) × Audio
unfolding audio_state
audio_write t messages src bytes a =
    if a.capture || length bytes == 0 || is_odd (length bytes) || ltb 24000 (length bytes)
    then (negsuc 0, none, a)
    else (let a' = (audio_state messages a).1 in
        if a'.failed || ltb 24000 ((src.level + length bytes) % 2 ^ 64) || not src.allocated
        then (negsuc 0, none, a')
        else (
          if src.pushed then pos 1 else negsuc 0,
          some (bytes, t.scale (length bytes / 2) t.second 24000),
          a',
        ))

-- Handles that an AgentAudio owns.
pub data Handle : Type 0 where
  structure mutex pipeline endpoint : Handle

-- What starting up meets: gst_init_check, the pipeline that was parsed, an error beside it,
-- the endpoint, and whether the pipeline plays.
pub record Startup : Type 0 where
  pub initialized : Bool
  pub parsed : Bool
  pub error : Bool
  pub named : Bool
  pub plays : Bool

abbrev when : Bool → List (Event Handle) → List (Event Handle)
when true es = es
when false es = []

-- agent_audio_free, for the handles that were set.
unfoldable pub audio_free : Bool → Bool → List (Event Handle)
audio_free has_pipeline has_endpoint =
    when has_endpoint (releases endpoint ∷ [])
    ++ (when has_pipeline (releases pipeline ∷ []) ++ (releases mutex ∷ releases structure ∷ []))

-- audio_new: whether it returns an object, and what it creates and releases.
unfoldable pub audio_new : Startup → Bool × List (Event Handle)
unfolding audio_free
audio_new s =
    if not s.initialized
    then (false, [])
    else (let begun = creates structure ∷ creates mutex ∷ when s.parsed (creates pipeline ∷ []) in
        if s.error || not s.parsed
        then (false, begun ++ audio_free s.parsed false)
        else (let whole = begun ++ when s.named (creates endpoint ∷ []) in
            if not s.plays then (false, whole ++ audio_free true s.named) else (true, whole)))
