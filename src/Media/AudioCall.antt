-- ===== src/Media/AudioCall.antt =====
-- The API of a remote capture or playback, agent_audio_* in helper-client.c of
-- packages/agent-webrtc/cbits: which request each call makes, and that it comes out at the resource
-- as the same call.
use haskell_agent.Base.{
  ℕ, ◌%◌, ◌^◌, ◌≤◌, ◌≡◌, refl, sym, ap, ◌∙◌, arith, Bool, true, false, Option, none, some, List, [],
  length, take, if◌then◌else◌, Bool-cases, inl, inr, of_some,
}
use mathlib.Core.Path.{subst}
use haskell_agent.Base.Int.{ℤ, negsuc}
use haskell_agent.Media.Protocol.{Operation, media_limit, Socket}
use haskell_agent.Media.Client.{Child, media_request, request_message}
use haskell_agent.Media.Device.{Device, Filled, Respects}
use haskell_agent.Media.Helper.{Helper, handle, dispatch, serve_audio, map_some, reply_served}
use haskell_agent.Media.Helper.Reply.{operation_of-code, serve_audio-IsFit}
use haskell_agent.Media.Remote.{
  silent, observed, reported, stored_payload, observed-plain, observed-filling,
}
use haskell_agent.Media.Helper.Handle.{IsHeld}
use haskell_agent.Media.Delivery.{delivered, agreed, handle-delivered}
use haskell_agent.Media.Call.{Request, bad_pcm, offered-pull}

-- A call of the API, with its arguments; a NULL `pcm` is `none`.
pub data AudioCall : Type 0 where
  read : ℕ → AudioCall
  write : Option (List ℕ) → AudioCall
  state : AudioCall

-- What a call sends; `none` where it sends nothing.
unfoldable pub audio_request_of : AudioCall → Option Request
unfolding bad_pcm
audio_request_of (read size) = some (record {
  operation = Operation.audio_read;
  argument = size % 2 ^ 32;
  input = [];
  capacity = size;
})
audio_request_of (write none) = none
audio_request_of (write (some pcm)) =
    if bad_pcm pcm
    then none
    else some
        (record { operation = Operation.audio_write; argument = 0; input = pcm; capacity = 0 })
audio_request_of state =
    some (record { operation = Operation.audio_state; argument = 0; input = []; capacity = 0 })

module _ {W : Type 0} (s : Socket W) (close : W → W) where
  abbrev ask : ℕ → Child → W → Option Request → Option (ℤ × List ℕ × Child × W)
  ask fuel child w none = some (negsuc 0, [], child, w)
  ask fuel child w (some r) =
      media_request s close fuel child r.operation r.argument r.input r.capacity w

  -- agent_audio_read, agent_audio_write and agent_audio_state
  unfoldable pub agent_audio : ℕ → AudioCall → Child → W → Option (ℤ × List ℕ × Child × W)
  unfolding audio_request_of
  agent_audio fuel call child w = ask fuel child w (audio_request_of call)

-- The same call on a resource in this process.
module _ {D : Type 0} (dev : Device D) where
  abbrev pub audio_applied : AudioCall → D → Filled × D
  audio_applied (read size) d = dev.audio_read size d
  audio_applied (write none) d = silent dev (negsuc 0, d)
  audio_applied (write (some pcm)) d = silent dev (dev.audio_write pcm d)
  audio_applied state d = silent dev (dev.audio_state d)

-- Calls whose buffer is within the protocol's limit.
abbrev pub FittingAudio : AudioCall → Type 0
FittingAudio (read n) = n ≤ media_limit
FittingAudio _ = Unit {0}

module _ {D : Type 0} (dev : Device D) (laws : Respects dev) where
  serve_audio-request_of :
      (call : AudioCall) (r : Request) (h : Helper D)
      → FittingAudio call
      → audio_request_of call ≡ some r
      → take (length r.input) h.buffer ≡ r.input
      → let m = request_message r.operation r.argument r.input in
        map_some
          (observed dev)
          (map_some (reply_served m h) (serve_audio dev (some r.operation) m h.buffer h.device))
        ≡ some (reported dev (audio_applied dev call h.device))
  unfolding audio_request_of serve_audio
  serve_audio-request_of (read size) r h fit e front = rw (← of_some e) (
      ap some (
        observed-filling dev Operation.audio_read _ h _ (
          serve_audio-IsFit dev laws Operation.audio_read
            (request_message Operation.audio_read (size % 2 ^ 32) []) h.buffer h.device refl))
      ∙ ap (λ n. some (reported dev (dev.audio_read n h.device))) (offered-pull size fit))
  serve_audio-request_of (write none) r h fit e front = cc
  serve_audio-request_of (write (some pcm)) r h fit e front = elim (Bool-cases (bad_pcm pcm)) [
    | inl bad ↦ let impossible = rw (bad, audio_request_of) at e in cc
    | inr good ↦
        let q = of_some (rw (good, audio_request_of) at e) in
        let here : take (length pcm) h.buffer ≡ pcm =
          subst (λ x. take (length x.input) h.buffer ≡ x.input) (sym q) front in
        rw (← q) (rw here (ap some (observed-plain dev _ h _ (laws.audio_write_int _ _))))
  ]
  serve_audio-request_of state r h fit e front =
      rw (← of_some e) (ap some (observed-plain dev _ h _ (laws.audio_state_int _)))

  -- The dispatch on a buffer that holds the input.
  dispatch-audio_request_of :
      (initialized peer audio : Bool) (call : AudioCall) (r : Request) (h : Helper D)
      → FittingAudio call
      → audio_request_of call ≡ some r
      → initialized ≡ true
      → peer ≡ false
      → audio ≡ true
      → take (length r.input) h.buffer ≡ r.input
      → map_some
          (observed dev)
          (dispatch dev initialized peer audio (request_message r.operation r.argument r.input) h)
        ≡ some (reported dev (audio_applied dev call h.device))
  unfolding dispatch audio_request_of
  dispatch-audio_request_of true false true call r h fit e i p a front =
      rw (operation_of-code r.operation) (serve_audio-request_of call r h fit e front)
  dispatch-audio_request_of false peer audio call r h fit e i p a front = cc
  dispatch-audio_request_of true true audio call r h fit e i p a front = cc
  dispatch-audio_request_of true false false call r h fit e i p a front = cc

  handle-audio_observed :
      (call : AudioCall) (r : Request) (h : Helper D)
      → FittingAudio call
      → audio_request_of call ≡ some r
      → h.initialized ≡ true
      → h.peer ≡ false
      → h.audio ≡ true
      → map_some
          (observed dev)
          (handle dev (request_message r.operation r.argument r.input) r.input h)
        ≡ some (reported dev (audio_applied dev call h.device))
  unfolding handle
  handle-audio_observed call r h fit e started no_peer owned =
      dispatch-audio_request_of h.initialized h.peer h.audio call r _ fit e started no_peer owned
        (stored_payload r.input h.buffer)

  -- The caller's buffer holds what the call on the resource stores.
  stored-capacity :
      (call : AudioCall) (r : Request) (d : D)
      → FittingAudio call
      → audio_request_of call ≡ some r
      → length (audio_applied dev call d).0.stored ≤ r.capacity
  unfolding audio_request_of
  stored-capacity (read size) r d fit e = rw (← of_some e) ((laws.audio_read_fits size d fit).1)
  stored-capacity (write none) r d fit e = omega arith
  stored-capacity (write (some pcm)) r d fit e = omega arith
  stored-capacity state r d fit e = omega arith

  -- The API over the socket is the API in the process: when a helper that owns a capture or a
  -- playback, which respects its buffers, serves the request that a call sends, the client accepts
  -- the response, the value that the call returns and the bytes that it leaves in the caller's
  -- buffer are those of the same call on the resource, with a buffer of the same size, and the
  -- resource is left in the same state. The buffer of a read and the input are within the protocol's
  -- limit.
  pub handle-audio_request_of :
      (call : AudioCall) (r : Request) (h : Helper D)
      → FittingAudio call
      → audio_request_of call ≡ some r
      → length r.input ≤ media_limit
      → IsHeld h
      → h.initialized ≡ true
      → h.peer ≡ false
      → h.audio ≡ true
      → map_some
          (delivered dev (λ z. z) r.operation r.capacity)
          (handle dev (request_message r.operation r.argument r.input) r.input h)
        ≡ some (agreed dev (audio_applied dev call h.device))
  handle-audio_request_of call r h fit e small held started no_peer owned =
      handle-delivered dev laws (λ z. z) r.operation r.argument r.input r.capacity h
        (audio_applied dev call h.device) held small
        (handle-audio_observed call r h fit e started no_peer owned)
        (stored-capacity call r h.device fit e) refl
