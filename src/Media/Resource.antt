-- ===== src/Media/Resource.antt =====
-- The resource that helper.c of packages/agent-webrtc/cbits drives, made of peer.c and audio.c: they
-- respect what the helper relies on. GStreamer is a parameter.
use haskell_agent.Base.{
  ℕ, ◌≤◌, ◌≡◌, ◌⊎◌, refl, Bool, true, false, Bool-cases, inl, inr, Option, none, List, [], ◌∷◌,
  arith, length, if◌then◌else◌, leb, not, ◌&&◌,
}
use haskell_agent.Base.Int.{ℤ, pos}
use haskell_agent.Base.Words.{IsI32}
use haskell_agent.Media.Protocol.{media_limit}
use haskell_agent.Media.Device.{Device, Fits, Respects}
use haskell_agent.Media.Audio
use haskell_agent.Media.Audio.{
  Audio, MessageType, Timing, audio_new, audio_state, audio_read, audio_write, take_captured,
}
use haskell_agent.Media.Peer
use haskell_agent.Media.Peer.{
  Peer, Signal, Settled, Description, ConnectionState, state_value, peer_new,
  peer_create_description, peer_set_description, peer_operation, peer_local_description, peer_state,
  peer_push, peer_pull,
}
use haskell_agent.Media.Peer.Promise.{
  peer_operation-Fits, peer_local_description-Fits, peer_pull-Fits, refused-Fits, pending-Fits,
  counting,
}

-- What GStreamer answers, and what it is handed, over a state of its own.
pub record Gst (W : Type 0) : Type 0 where
  pub timing : Timing
  pub peer_startup : W → Peer.Startup × W
  pub audio_startup : Bool → W → Audio.Startup × W
  pub emit : Option Signal → W → W
  pub parses : List ℕ → W → Bool
  pub outcome : W → Settled × W
  pub gathering : W → (Bool × Option Description) × W
  pub on_bus : W → Bool × W
  pub connection : W → ConnectionState × W
  pub source : W → Peer.Source × W
  pub playback : W → Audio.Source × W
  pub push_buffer : Option (List ℕ × ℕ) → W → W
  pub sample : W → Option (Option (List ℕ)) × W
  pub extract : List ℕ → W → List ℕ
  pub messages : W → List MessageType × W
  pub extracts : List ℕ → W → Bool
  pub release : W → W

pub record Resource (W : Type 0) : Type 0 where
  pub peer : Peer
  pub audio : Audio
  pub world : W

abbrev pub new_peer : Peer
new_peer = record { operation = none; description_field = none; failed = false }

abbrev pub new_audio : Bool → Audio
new_audio capture = record { captured = []; captured_bytes = 0; failed = false; capture = capture }

module _ {W : Type 0} (g : Gst W) where
  abbrev pub resource_device : Device (Resource W)
  resource_device = record {
    peer_new = λ r.
        let (s, w) = g.peer_startup r.world in
        ((peer_new s).0, record r { peer = new_peer; world = w });
    audio_new = λ capture r.
        let (s, w) = g.audio_startup capture r.world in
        ((audio_new s).0, record r { audio = new_audio capture; world = w });
    peer_free = λ r. record r { world = g.release r.world };
    audio_free = λ r. record r { world = g.release r.world };
    create_description = λ offer r.
        let (z, s, p) = peer_create_description offer r.peer in
        (z, record r { peer = p; world = g.emit s r.world });
    set_description = λ sdp offer here r.
        let (z, s, p) = peer_set_description (λ t. g.parses t r.world) sdp offer here r.peer in
        (z, record r { peer = p; world = g.emit s r.world });
    operation = λ capacity r.
        let (o, w) = g.outcome r.world in
        let (f, p) = peer_operation o capacity r.peer in (f, record r { peer = p; world = w });
    local_description = λ capacity r.
        let ((done, d), w) = g.gathering r.world in
        (peer_local_description done d capacity, record r { world = w });
    peer_state = λ r.
        let (bus, w) = g.on_bus r.world in
        let (c, w') = g.connection w in
        let (z, p) = peer_state bus c r.peer in (z, record r { peer = p; world = w' });
    push = λ pcm r.
        let (s, w) = g.source r.world in
        let (z, b) = peer_push g.timing s pcm in (z, record r { world = g.push_buffer b w });
    pull = λ capacity r.
        let (s, w) = g.sample r.world in
        (peer_pull (λ b. g.extract b w) s capacity, record r { world = w });
    audio_read = λ capacity r.
        let (ms, w) = g.messages r.world in
        let (z, bytes, a) = audio_read (λ b. g.extracts b w) ms capacity r.audio in
        (record { value = z; stored = bytes }, record r { audio = a; world = w });
    audio_write = λ pcm r.
        let (ms, w) = g.messages r.world in
        let (s, w') = g.playback w in
        let (z, b, a) = audio_write g.timing ms s pcm r.audio in
        (z, record r { audio = a; world = g.push_buffer b w' });
    audio_state = λ r.
        let (ms, w) = g.messages r.world in
        let (z, a) = audio_state ms r.audio in (z, record r { audio = a; world = w });
  }

take_captured-Fits :
    (extracted : List ℕ → Bool) (capacity : ℕ) (q : List (List ℕ)) (a : Audio)
    → capacity ≤ media_limit
    → let (z, bytes, _) = take_captured extracted capacity q a in
      Fits capacity (record { value = z; stored = bytes })
unfolding take_captured
take_captured-Fits extracted capacity [] a le = pending-Fits capacity
take_captured-Fits extracted capacity (b ∷ q) a le =
    elim (Bool-cases (leb (length b) capacity && extracted b)) [
      | inl fits ↦ rw fits (counting (length b) b capacity refl (ground arith) (ground arith))
      | inr short ↦ rw short (refused-Fits capacity)
    ]

-- The value and the bytes of such a result fit.
abbrev FitsTaken : ℕ → ℤ × List ℕ × Audio → Type 0
FitsTaken capacity t = Fits capacity (record { value = t.0; stored = t.1 })

if-FitsTaken :
    (capacity : ℕ) (b : Bool) (x y : ℤ × List ℕ × Audio)
    → FitsTaken capacity x
    → FitsTaken capacity y
    → FitsTaken capacity (if b then x else y)
if-FitsTaken capacity true x y p q = p
if-FitsTaken capacity false x y p q = q

-- What agent_audio_read stores fits its buffer.
pub audio_read-Fits :
    (extracted : List ℕ → Bool) (ms : List MessageType) (capacity : ℕ) (a : Audio)
    → capacity ≤ media_limit
    → FitsTaken capacity (audio_read extracted ms capacity a)
unfolding audio_read
audio_read-Fits extracted ms capacity a le =
    if-FitsTaken capacity (not a.capture) _ _ (refused-Fits capacity) (
      if-FitsTaken capacity (audio_state ms a).1.failed _ _ (refused-Fits capacity) (
        take_captured-Fits extracted capacity (audio_state ms a).1.captured (audio_state ms a).1
          le))

create_int : (offer : Bool) (p : Peer) → IsI32 (peer_create_description offer p).0
unfolding peer_create_description
create_int offer p = ground arith

set_int :
    (parses : List ℕ → Bool) (sdp : List ℕ) (offer here : Bool) (p : Peer)
    → IsI32 (peer_set_description parses sdp offer here p).0
unfolding peer_set_description
set_int parses sdp offer here p = ground arith

state_int : (bus : Bool) (c : ConnectionState) (p : Peer) → IsI32 (peer_state bus c p).0
unfolding peer_state state_value
state_int bus c p = ground arith

push_int : (t : Timing) (s : Peer.Source) (pcm : List ℕ) → IsI32 (peer_push t s pcm).0
unfolding peer_push
push_int t s pcm = ground arith

push_bit :
    (t : Timing) (s : Peer.Source) (pcm : List ℕ)
    → ((peer_push t s pcm).0 ≡ pos 0) ⊎ ((peer_push t s pcm).0 ≡ pos 1)
unfolding peer_push
push_bit t s pcm = ground arith

write_int :
    (t : Timing) (ms : List MessageType) (s : Audio.Source) (pcm : List ℕ) (a : Audio)
    → IsI32 (audio_write t ms s pcm a).0
unfolding audio_write
write_int t ms s pcm a = ground arith

audio_state_int : (ms : List MessageType) (a : Audio) → IsI32 (audio_state ms a).0
unfolding audio_state
audio_state_int ms a = ground arith

pub resource_device-Respects :
    {W : Type 0} (g : Gst W)
    → ((b : List ℕ) (w : W) → g.extract b w ≡ b)
    → Respects (resource_device g)
resource_device-Respects g whole = record {
  operation_fits = λ capacity r le. peer_operation-Fits (g.outcome r.world).0 capacity r.peer;
  local_fits = λ capacity r le.
      peer_local_description-Fits (g.gathering r.world).0.0 (g.gathering r.world).0.1 capacity;
  pull_fits = λ capacity r le.
      peer_pull-Fits (λ b. g.extract b (g.sample r.world).1) (g.sample r.world).0 capacity
        (λ b. whole b (g.sample r.world).1) le;
  audio_read_fits = λ capacity r le.
      audio_read-Fits (λ b. g.extracts b (g.messages r.world).1) (g.messages r.world).0 capacity
        r.audio le;
  create_int = λ offer r. create_int offer r.peer;
  set_int = λ sdp offer here r. set_int (λ t. g.parses t r.world) sdp offer here r.peer;
  peer_state_int = λ r. state_int (g.on_bus r.world).0 (g.connection (g.on_bus r.world).1).0 r.peer;
  push_int = λ pcm r. push_int g.timing (g.source r.world).0 pcm;
  push_bit = λ pcm r. push_bit g.timing (g.source r.world).0 pcm;
  audio_write_int = λ pcm r.
      write_int g.timing (g.messages r.world).0 (g.playback (g.messages r.world).1).0 pcm r.audio;
  audio_state_int = λ r. audio_state_int (g.messages r.world).0 r.audio;
}
