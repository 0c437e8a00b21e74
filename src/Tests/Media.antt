-- ===== src/Tests/Media.antt =====
-- Runs of the media helper's theorems on a peer and a capture over a fixed GStreamer.
use haskell_agent.Base.{
  ℕ, suc, ◌+◌, ◌≡◌, ◌≢◌, refl, Bool, true, false, Option, none, some, List, [], ◌∷◌, ◌++◌, arith,
  if◌then◌else◌, replicate, length-replicate,
}
use haskell_agent.Base.Owned.{settle, creates, releases}
use haskell_agent.Media.Protocol.{Operation, Message, media_limit}
use haskell_agent.Media.Client.{request_message}
use haskell_agent.Media.Device.{Device, Respects}
use haskell_agent.Media.Helper.{Helper, handle, dispatch, operation_of, serve_peer, map_some, serve}
use haskell_agent.Media.Helper.Handle.{IsHeld, Handles, handle-Handles}
use haskell_agent.Media.Helper.Lifetime.{serve-returns}
use haskell_agent.Media.Remote.{local_peer, observed, reported, handle-local}
use haskell_agent.Media.Delivery.{delivered as given, agreed}
use haskell_agent.Media.Call.{PeerCall, Request, request_of, applied, value_of, handle-request_of}
use haskell_agent.Media.AudioCall.{
  AudioCall, audio_request_of, audio_applied, handle-audio_request_of,
}
use haskell_agent.Media.Launch
use haskell_agent.Media.Launch.{
  media_open, media_open-settles, closed, media_close, media_close-kills, kills, is_gone,
}
use haskell_agent.Media.Audio
use haskell_agent.Media.Audio.{Audio, audio_new, audio_free, audio_read, capture_sample}
use haskell_agent.Media.Audio.Capture
use haskell_agent.Media.Audio.Capture.{
  IsBounded, run-IsBounded, Happening, flat, entered, delivered, run-flat,
}
use haskell_agent.Media.Peer
use haskell_agent.Media.Peer.{Peer, peer_new, peer_free}
use haskell_agent.Media.Peer.Promise
use haskell_agent.Media.Peer.Promise.{in_flight, started, started-reported}
use haskell_agent.Media.Peer.Resources.{same as peer_same, peer_new-settles}
use haskell_agent.Media.Resource.{
  Gst, Resource, resource_device, new_peer, new_audio, resource_device-Respects,
}
use haskell_agent.Tests.Wire.{Wire, wire_socket, wire_stream}

abbrev peer_startup : Peer.Startup
peer_startup = record {
  initialized = true;
  parsed = true;
  pipeline_error = false;
  has_rtc = true;
  has_ice = true;
  has_agent = true;
  has_source = true;
  received = true;
  receiver_error = false;
  has_sink = true;
  added = true;
  plays = false;
}

abbrev audio_startup : Audio.Startup
audio_startup = record {
  initialized = true;
  parsed = true;
  error = false;
  named = true;
  plays = false;
}

-- A GStreamer whose world is the list of the signals' count.
abbrev gst : Gst ℕ
gst = record {
  timing = record { scale = λ a b c. a; second = 1000000000 };
  peer_startup = λ w. (peer_startup, w);
  audio_startup = λ capture w. (audio_startup, w);
  emit = λ s w. suc w;
  parses = λ sdp w. true;
  outcome = λ w. (none, w);
  gathering = λ w. ((false, none), w);
  on_bus = λ w. (false, w);
  connection = λ w. (Peer.connected, w);
  source = λ w. (record { level = 0; allocated = true; pushed = true }, w);
  playback = λ w. (record { level = 0; allocated = true; pushed = true }, w);
  push_buffer = λ b w. w;
  sample = λ w. (some (some (1 ∷ 2 ∷ [])), w);
  messages = λ w. ([], w);
  extract = λ b w. b;
  extracts = λ b w. true;
  release = λ w. w;
}

abbrev device : Device (Resource ℕ)
device = resource_device gst

respects : Respects device
respects = resource_device-Respects gst (λ b w. refl)

abbrev resource : Resource ℕ
resource = record { peer = new_peer; audio = new_audio true; world = 0 }

abbrev helper : Helper (Resource ℕ)
helper = record {
  initialized = true;
  peer = true;
  audio = false;
  device = resource;
  buffer = replicate (media_limit + 1) 0;
}

helper-IsHeld : IsHeld helper
helper-IsHeld = record {
  single = refl;
  fresh = λ e. cc;
  sized = length-replicate {A = ℕ} (media_limit + 1) 0;
}

-- A pull of two bytes.
abbrev pull_request : Request
pull_request = record { operation = Operation.pull; argument = 480; input = []; capacity = 480 }

pulls : request_of (PeerCall.pull 480) ≡ some pull_request
unfolding request_of
pulls = refl

handle-request_of_example :
    map_some
      (given device (value_of (PeerCall.pull 480)) Operation.pull 480)
      (handle device (request_message Operation.pull 480 []) [] helper)
    ≡ some (agreed device (applied device (PeerCall.pull 480) resource))
handle-request_of_example =
    handle-request_of device respects (PeerCall.pull 480) pull_request helper (omega arith) pulls
      (omega arith) helper-IsHeld refl refl

handle-local_example :
    map_some (observed device) (
      handle device
        (request_message Operation.set_description 3 (118 ∷ 61 ∷ []))
        (118 ∷ 61 ∷ [])
        helper)
    ≡ map_some
        (reported device)
        (local_peer device Operation.set_description 3 (118 ∷ 61 ∷ []) resource)
handle-local_example =
    handle-local device respects Operation.set_description 3 (118 ∷ 61 ∷ []) helper refl refl

-- A helper that captures.
abbrev recorder : Helper (Resource ℕ)
recorder = record helper { peer = false; audio = true }

recorder-IsHeld : IsHeld recorder
recorder-IsHeld = record {
  single = refl;
  fresh = λ e. cc;
  sized = length-replicate {A = ℕ} (media_limit + 1) 0;
}

abbrev read_request : Request
read_request = record {
  operation = Operation.audio_read;
  argument = 480;
  input = [];
  capacity = 480;
}

reads : audio_request_of (AudioCall.read 480) ≡ some read_request
unfolding audio_request_of
reads = refl

handle-audio_request_of_example :
    map_some
      (given device (λ z. z) Operation.audio_read 480)
      (handle device (request_message Operation.audio_read 480 []) [] recorder)
    ≡ some (agreed device (audio_applied device (AudioCall.read 480) resource))
handle-audio_request_of_example =
    handle-audio_request_of device respects (AudioCall.read 480) read_request recorder (omega arith)
      reads (omega arith) recorder-IsHeld refl refl refl

abbrev state_message : Message
state_message = request_message Operation.peer_state 0 []

abbrev next_of :
    Option (Helper (Resource ℕ) × (Message × List ℕ)) → Helper (Resource ℕ) × (Message × List ℕ)
next_of none = (helper, (state_message, []))
next_of (some next) = next

abbrev answer : Helper (Resource ℕ) × (Message × List ℕ)
answer = next_of (handle device state_message [] helper)

answers : handle device state_message [] helper ≡ some answer
unfolding handle dispatch operation_of serve_peer
answers = refl

handle-Handles_example : Handles device respects state_message answer
handle-Handles_example =
    handle-Handles device respects state_message [] helper helper-IsHeld (omega arith) answers

abbrev quiet : Wire
quiet = record { inbox = 1 ∷ []; outbox = []; signals = 1 }

serve-returns_example : serve wire_socket device 2 300000 helper quiet ≢ none
serve-returns_example =
    serve-returns wire_socket wire_stream device respects 2 300000 helper quiet helper-IsHeld
      (omega arith) (omega arith)

-- The spawn fails.
abbrev no_spawn : Launch.Startup
no_spawn = record {
  absolute = true;
  paired = true;
  duplicated = true;
  actions_made = true;
  near_closed = true;
  remote_placed = true;
  remote_closed = true;
  spawned = false;
  reply = none;
}

media_open-settles_example :
    settle Launch.same
      ((media_open no_spawn).1
        ++ (if (media_open no_spawn).0
            then (if false then releases Launch.near ∷ closed false else closed true)
            else []))
      []
    ≡ some []
media_open-settles_example = media_open-settles no_spawn false

abbrev never : ℕ → Launch.Wait
never i = Launch.other

abbrev chunk : List ℕ
chunk = 1 ∷ 2 ∷ 3 ∷ 4 ∷ []

abbrev capturing : Audio
capturing = record (new_audio true) { captured = chunk ∷ []; captured_bytes = 4 }

capturing-IsBounded : IsBounded capturing
capturing-IsBounded = record {
  counted = refl;
  brief = omega arith;
  few = omega arith;
  chunks = ((omega arith, refl, omega arith), tt);
}

abbrev copies : List ℕ → Bool
copies b = true

abbrev happenings : List Happening
happenings =
    Happening.reads [] ∷ Happening.arrives (some (some chunk)) ∷ Happening.arrives none ∷ []

run-flat_example :
    flat capturing.captured ++ entered copies 24000 happenings capturing
    ≡ delivered copies 24000 happenings capturing
      ++ flat (Capture.run copies 24000 happenings capturing).captured
run-flat_example =
    run-flat copies 24000 (omega arith) (λ b. refl) happenings capturing capturing-IsBounded

run-IsBounded_example : IsBounded (Capture.run copies 480 happenings capturing)
run-IsBounded_example = run-IsBounded copies 480 happenings capturing capturing-IsBounded

abbrev calls : List Promise.Call
calls =
    Promise.creates true
    ∷ Promise.sets (λ t. true) (118 ∷ []) true true
    ∷ Promise.completes
    ∷ Promise.asks none 480
    ∷ []

started-reported_example :
    in_flight new_peer + started calls new_peer
    ≡ Promise.reported calls new_peer + in_flight (Promise.run calls new_peer)
started-reported_example = started-reported calls new_peer

peer_new-settles_example :
    settle peer_same
      ((peer_new peer_startup).1
        ++ (if (peer_new peer_startup).0
            then (if true then creates Peer.promise ∷ [] else [])
              ++ peer_free true true true true true
            else []))
      []
    ≡ some []
peer_new-settles_example = peer_new-settles peer_startup true
