-- ===== src/Media/Peer.antt =====
-- peer.c of packages/agent-webrtc/cbits: one WebRTC connection. What GStreamer reports is an
-- argument of each call.
pub mod Promise
pub mod Resources
use haskell_agent.Base.{
  ℕ, zero, suc, ◌+◌, ◌*◌, ◌/◌, ◌%◌, ◌^◌, ◌≡◌, Bool, true, false, not, ◌&&◌, ◌||◌, Option, none,
  some, List, [], ◌∷◌, ◌++◌, ltb, leb, ◌==◌, if◌then◌else◌, length,
}
use haskell_agent.Base.Int.{ℤ, pos, negsuc}
use haskell_agent.Base.Words.{to_i32}
use haskell_agent.Base.Owned.{Event, creates, releases}
use haskell_agent.Media.Device.{Filled}
use haskell_agent.Media.Audio.{Timing}

-- The names of the reply's fields.
pub data Field : Type 0 where
  offer answer : Field

-- struct AgentPeer, but for its elements: the promise with its `operation_done` flag, the field
-- that its reply is to have, and `failed`.
pub record Peer : Type 0 where
  pub operation : Option Bool
  pub description_field : Option Field
  pub failed : Bool

-- Signals that are emitted on webrtcbin with the promise.
pub data Signal : Type 0 where
  create_offer create_answer : Signal
  set_local set_remote : Bool → List ℕ → Signal

abbrev pub is_pending : Option Bool → Bool
is_pending none = false
is_pending (some _) = true

unfoldable pub begin_operation : Option Field → Peer → Bool × Peer
begin_operation field p =
    if is_pending p.operation
    then (false, p)
    else (true, record p { description_field = field; operation = some false })

-- operation_done, which the promise calls when it changes.
unfoldable pub operation_done : Peer → Peer
operation_done p = elim p.operation [ none ↦ p | some _ ↦ record p { operation = some true } ]

-- agent_peer_create_description: its value, the signal, and the state.
unfoldable pub peer_create_description : Bool → Peer → ℤ × Option Signal × Peer
unfolding begin_operation
peer_create_description wants_offer p =
    let (begun, p') = begin_operation (some (if wants_offer then offer else answer)) p in
    if begun
    then (pos 1, some (if wants_offer then create_offer else create_answer), p')
    else (pos 0, none, p')

-- agent_peer_set_description: `parsed` tells whether an SDP message can be made and reads the text.
unfoldable pub peer_set_description :
    (List ℕ → Bool) → List ℕ → Bool → Bool → Peer → ℤ × Option Signal × Peer
unfolding begin_operation
peer_set_description parsed sdp is_offer is_local p =
    if ltb 65536 (length sdp) || length sdp == 0 || is_pending p.operation
    then (pos 0, none, p)
    else (if not (parsed sdp) then (pos 0, none, p) else (
      pos 1,
      some (if is_local then set_local is_offer sdp else set_remote is_offer sdp),
      (begin_operation none p).1,
    ))

-- A description object: the text of its SDP, where that can be printed.
abbrev pub Description : Type 0
Description = Option (List ℕ)

abbrev pub text_of : Description → List ℕ
text_of none = []
text_of (some t) = t

abbrev pub refused_copy : Filled
refused_copy = record { value = negsuc 0; stored = [] }

-- copy_description: `none` for NULL.
unfoldable pub copy_description : Option Description → ℕ → Filled
unfolding to_i32
copy_description none capacity = refused_copy
copy_description (some d) capacity =
    if not (length (text_of d) == 0)
      && leb (length (text_of d)) 65536
      && leb (length (text_of d)) capacity
    then record { value = to_i32 (length (text_of d)); stored = text_of d }
    else refused_copy

-- The structure that the promise is replied with.
pub record Reply : Type 0 where
  pub has_error : Bool
  pub description : Field → Option Description

-- gst_promise_wait and gst_promise_get_reply: `none` unless the promise was replied; then the
-- reply, where there is one.
abbrev pub Settled : Type 0
Settled = Option (Option Reply)

-- A completion with no description: `output[0] = 0; result = 1;`, given room.
unfoldable pub acknowledged : ℕ → Filled
acknowledged capacity =
    if capacity == 0 then refused_copy else record { value = pos 1; stored = 0 ∷ [] }

unfoldable pub settled : Settled → Option Field → ℕ → Filled
unfolding copy_description acknowledged
settled none field capacity = refused_copy
settled (some none) field capacity = acknowledged capacity
settled (some (some r)) none capacity = if r.has_error then refused_copy else acknowledged capacity
settled (some (some r)) (some f) capacity =
    if r.has_error then refused_copy else copy_description (r.description f) capacity

-- agent_peer_operation
unfoldable pub peer_operation : Settled → ℕ → Peer → Filled × Peer
unfolding settled
peer_operation outcome capacity p = elim p.operation [
  | none ↦ (refused_copy, p)
  | some done ↦
      if not done
      then (record { value = pos 0; stored = [] }, p)
      else (settled outcome p.description_field capacity, record p { operation = none })
]

-- agent_peer_local_description: whether gathering is complete, and the description.
unfoldable pub peer_local_description : Bool → Option Description → ℕ → Filled
unfolding copy_description
peer_local_description gathered description capacity =
    if not gathered
    then record { value = pos 0; stored = [] }
    else copy_description description capacity

-- GstWebRTCPeerConnectionState
pub data ConnectionState : Type 0 where
  fresh connecting connected disconnected connection_failed closed : ConnectionState

unfoldable pub state_value : ConnectionState → ℤ
state_value connection_failed = negsuc 0
state_value closed = negsuc 0
state_value disconnected = negsuc 0
state_value connected = pos 1
state_value fresh = pos 0
state_value connecting = pos 0

-- agent_peer_state: whether an error or the end of the stream is on the bus.
unfoldable pub peer_state : Bool → ConnectionState → Peer → ℤ × Peer
unfolding state_value
peer_state on_bus connection p =
    let p' = if on_bus then record p { failed = true } else p in
    if p'.failed then (negsuc 0, p') else (state_value connection, p')

-- `incoming`: a pad is linked to the receiver; a second one, or one that does not fit, is a failure.
unfoldable pub incoming : Bool → Bool → Bool → Peer → Peer
incoming is_source already_linked links p =
    if not is_source
    then p
    else (if already_linked || not links then record p { failed = true } else p)

-- What a write to the source meets.
pub record Source : Type 0 where
  pub level : ℕ
  pub allocated : Bool
  pub pushed : Bool

-- agent_peer_push: its value, and the buffer that is pushed, with its duration.
unfoldable pub peer_push : Timing → Source → List ℕ → ℤ × Option (List ℕ × ℕ)
peer_push t src pcm =
    if length pcm == 0
      || ltb 24000 (length pcm)
      || not (length pcm % 2 == 0)
      || ltb 48000 ((src.level + length pcm) % 2 ^ 64)
    then (pos 0, none)
    else (if not src.allocated then (pos 0, none) else (
      if src.pushed then pos 1 else pos 0,
      some (pcm, t.scale (length pcm / 2) t.second 24000),
    ))

abbrev pub sample_bytes : Option (List ℕ) → List ℕ
sample_bytes none = []
sample_bytes (some b) = b

-- agent_peer_pull: no sample, a sample with no buffer, or a sample. `extract`: what
-- gst_buffer_extract copies out of a buffer when it is asked for the whole of it; how much that was
-- is not looked at.
unfoldable pub peer_pull : (List ℕ → List ℕ) → Option (Option (List ℕ)) → ℕ → Filled
unfolding to_i32
peer_pull extract none capacity = record { value = pos 0; stored = [] }
peer_pull extract (some sample) capacity =
    let b = sample_bytes sample in
    if not (length b == 0) && leb (length b) capacity && length b % 2 == 0
    then record { value = to_i32 (length b); stored = extract b }
    else refused_copy

-- Objects that a peer owns.
pub data Handle : Type 0 where
  structure pipeline rtc ice agent source receiver sink promise : Handle

pub record Startup : Type 0 where
  pub initialized : Bool
  pub parsed : Bool
  pub pipeline_error : Bool
  pub has_rtc : Bool
  pub has_ice : Bool
  pub has_agent : Bool
  pub has_source : Bool
  pub received : Bool
  pub receiver_error : Bool
  pub has_sink : Bool
  pub added : Bool
  pub plays : Bool

abbrev when : Bool → List (Event Handle) → List (Event Handle)
when true es = es
when false es = []

-- agent_peer_free, for the handles that were set.
unfoldable pub peer_free : Bool → Bool → Bool → Bool → Bool → List (Event Handle)
peer_free has_operation has_rtc has_source has_sink has_pipeline =
    when has_operation (releases promise ∷ [])
    ++ (when has_rtc (releases rtc ∷ [])
        ++ (when has_source (releases source ∷ [])
            ++ (when has_sink (releases sink ∷ [])
                ++ (when has_pipeline (releases pipeline ∷ []) ++ (releases structure ∷ [])))))

-- The part of agent_peer_new behind the source: the receiver, which the pipeline takes over when it
-- is added to it.
unfoldable pub add_receiver : Startup → Bool × List (Event Handle)
unfolding peer_free
add_receiver s =
    if s.receiver_error || not s.received
    then (
      false,
      when s.received (creates receiver ∷ releases receiver ∷ [])
          ++ peer_free false s.has_rtc s.has_source false true,
    )
    else (let begun = creates receiver ∷ when s.has_sink (creates sink ∷ []) in
        if not s.added || not s.plays
        then (
          false,
          begun ++ (releases receiver ∷ peer_free false s.has_rtc s.has_source s.has_sink true),
        )
        else (true, begun ++ releases receiver ∷ []))

-- agent_peer_new: whether it returns a peer, and what it creates and releases.
unfoldable pub peer_new : Startup → Bool × List (Event Handle)
unfolding add_receiver
peer_new s =
    if not s.initialized
    then (false, [])
    else (if s.pipeline_error || not s.parsed
        then (
          false,
          creates structure
              ∷ (when s.parsed (creates pipeline ∷ [])
                  ++ peer_free false false false false s.parsed),
        )
        else (let (returned, rest) = add_receiver s in
            (
              returned,
              creates structure
                  ∷ creates pipeline
                  ∷ (when s.has_rtc (creates rtc ∷ [])
                      ++ (when s.has_ice (creates ice ∷ [])
                          ++ (when (s.has_ice && s.has_agent) (creates agent ∷ releases agent ∷ [])
                              ++ (when s.has_ice (releases ice ∷ [])
                                  ++ (when s.has_source (creates source ∷ []) ++ rest))))),
            )))
