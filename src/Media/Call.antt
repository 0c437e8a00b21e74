-- ===== src/Media/Call.antt =====
-- The API of a remote peer, agent_peer_* in helper-client.c of packages/agent-webrtc/cbits: which
-- request each call makes, and that it comes out at the peer as the same call.
use haskell_agent.Base.{
  ℕ, zero, suc, ◌+◌, ◌*◌, ◌%◌, ◌^◌, ◌≤◌, ◌≡◌, refl, sym, ap, ◌∙◌, Bool, true, false, not, ◌||◌,
  Option, none, some, List, [], ◌∷◌, ltb, inl, inr, ◌==◌, length, arith, if◌then◌else◌, Bool-cases,
  of_some,
}
use haskell_agent.Base.Int.{ℤ, pos, negsuc}
use haskell_agent.Media.Protocol.{Operation, media_limit, Socket}
use haskell_agent.Media.Client.{Child, media_request, request_message}
use haskell_agent.Media.Device.{Device, Filled, Respects}
use haskell_agent.Media.Helper.{Helper, handle, map_some, has_nul, c_string, offered}
use haskell_agent.Media.Helper.Handle.{IsHeld}
use haskell_agent.Media.Remote.{local_peer, reported, handle-local}
use haskell_agent.Media.Delivery.{delivered, agreed, handle-delivered}

-- A call of the API, with its arguments; `sdp` is the memory that its pointer names, and a NULL
-- `pcm` is `none`.
pub data PeerCall : Type 0 where
  create_description : ℤ → PeerCall
  set_description : List ℕ → ℤ → ℤ → PeerCall
  operation : ℕ → PeerCall
  local_description : ℕ → PeerCall
  state : PeerCall
  push : Option (List ℕ) → PeerCall
  pull : ℕ → PeerCall

-- The arguments of media_request.
pub record Request : Type 0 where
  pub operation : Operation
  pub argument : ℕ
  pub input : List ℕ
  pub capacity : ℕ

-- `x != 0`
unfoldable pub is_set : ℤ → Bool
is_set (pos zero) = false
is_set (pos (suc n)) = true
is_set (negsuc n) = true

abbrev bit : Bool → ℕ
bit true = 1
bit false = 0

-- The test of agent_peer_push and of agent_audio_write.
unfoldable pub bad_pcm : List ℕ → Bool
bad_pcm pcm = length pcm == 0 || not (length pcm % 2 == 0) || ltb 24000 (length pcm)

-- What a call sends; `none` where it sends nothing.
unfoldable pub request_of : PeerCall → Option Request
unfolding is_set bad_pcm c_string
request_of (create_description offer) = some (record {
  operation = Operation.create;
  argument = bit (is_set offer);
  input = [];
  capacity = 0;
})
request_of (set_description sdp offer here) = some (record {
  operation = Operation.set_description;
  argument = bit (is_set offer) + 2 * bit (is_set here);
  input = c_string sdp;
  capacity = 0;
})
request_of (operation size) =
    some (record { operation = Operation.operation; argument = 0; input = []; capacity = size })
request_of (local_description size) =
    some (record {
      operation = Operation.local_description;
      argument = 0;
      input = [];
      capacity = size;
    })
request_of state =
    some (record { operation = Operation.peer_state; argument = 0; input = []; capacity = 0 })
request_of (push none) = none
request_of (push (some pcm)) =
    if bad_pcm pcm
    then none
    else some (record { operation = Operation.push; argument = 0; input = pcm; capacity = 0 })
request_of (pull size) =
    some
      (record { operation = Operation.pull; argument = size % 2 ^ 32; input = []; capacity = size })

-- How a call turns media_request's value into its own.
unfoldable pub value_of : PeerCall → ℤ → ℤ
value_of (push _) (pos (suc zero)) = pos 1
value_of (push _) _ = pos 0
value_of _ z = z

module _ {W : Type 0} (s : Socket W) (close : W → W) where
  abbrev finish : PeerCall → Option (ℤ × List ℕ × Child × W) → Option (ℤ × List ℕ × Child × W)
  finish call none = none
  finish call (some (z, out, child, w)) = some (value_of call z, out, child, w)

  abbrev ask : ℕ → PeerCall → Child → W → Option Request → Option (ℤ × List ℕ × Child × W)
  ask fuel call child w none = some (pos 0, [], child, w)
  ask fuel call child w (some r) =
      finish call (media_request s close fuel child r.operation r.argument r.input r.capacity w)

  -- agent_peer_create_description to agent_peer_pull
  unfoldable pub agent_peer : ℕ → PeerCall → Child → W → Option (ℤ × List ℕ × Child × W)
  unfolding request_of value_of
  agent_peer fuel call child w = ask fuel call child w (request_of call)

pub offered-pull : (n : ℕ) → n ≤ media_limit → offered (n % 2 ^ 32) ≡ n
unfolding offered
offered-pull n h = ground arith

-- The same call on a peer in this process.
module _ {D : Type 0} (dev : Device D) where
  abbrev silent : ℤ × D → Filled × D
  silent (r, d) = (record { value = r; stored = [] }, d)

  abbrev pub applied : PeerCall → D → Filled × D
  applied (create_description offer) d = silent (dev.create_description (is_set offer) d)
  applied (set_description sdp offer here) d =
      silent (dev.set_description (c_string sdp) (is_set offer) (is_set here) d)
  applied (operation size) d = dev.operation size d
  applied (local_description size) d = dev.local_description size d
  applied state d = silent (dev.peer_state d)
  applied (push none) d = silent (pos 0, d)
  applied (push (some pcm)) d = silent (dev.push pcm d)
  applied (pull size) d = dev.pull size d

  -- Buffers within the protocol's limit; for a description the helper always offers the whole of it.
  abbrev pub Fitting : PeerCall → Type 0
  Fitting (operation n) = n ≡ media_limit
  Fitting (local_description n) = n ≡ media_limit
  Fitting (pull n) = n ≤ media_limit
  Fitting _ = Unit {0}

  has_nul-c_string : (sdp : List ℕ) → has_nul (c_string sdp) ≡ false
  unfolding has_nul c_string
  has_nul-c_string [] = refl
  has_nul-c_string (b ∷ sdp) = ground (arith, has_nul-c_string sdp)

  local_peer-request_of :
      (call : PeerCall) (r : Request) (d : D)
      → Fitting call
      → request_of call ≡ some r
      → local_peer dev r.operation r.argument r.input d ≡ some (applied call d)
  unfolding request_of local_peer
  local_peer-request_of (create_description (pos zero)) r d fit e = rw (← of_some e) refl
  local_peer-request_of (create_description (pos (suc n))) r d fit e = rw (← of_some e) refl
  local_peer-request_of (create_description (negsuc n)) r d fit e = rw (← of_some e) refl
  local_peer-request_of (set_description sdp offer here) r d fit e =
      rw (← of_some e) (set_bits (is_set offer) (is_set here))
    where
      set_bits :
          (o h : Bool)
          → local_peer dev Operation.set_description (bit o + 2 * bit h) (c_string sdp) d
            ≡ some (silent (dev.set_description (c_string sdp) o h d))
      set_bits true true = rw (has_nul-c_string sdp) refl
      set_bits true false = rw (has_nul-c_string sdp) refl
      set_bits false true = rw (has_nul-c_string sdp) refl
      set_bits false false = rw (has_nul-c_string sdp) refl
  local_peer-request_of (operation size) r d fit e =
      rw (← of_some e) (ap (λ n. some (dev.operation n d)) (sym fit))
  local_peer-request_of (local_description size) r d fit e =
      rw (← of_some e) (ap (λ n. some (dev.local_description n d)) (sym fit))
  local_peer-request_of state r d fit e = rw (← of_some e) refl
  local_peer-request_of (push none) r d fit e = cc
  local_peer-request_of (push (some pcm)) r d fit e = elim (Bool-cases (bad_pcm pcm)) [
    | inl bad ↦ let impossible = rw (bad, request_of) at e in cc
    | inr good ↦ rw (← of_some (rw (good, request_of) at e)) refl
  ]
  local_peer-request_of (pull size) r d fit e =
      rw (← of_some e) (ap (λ n. some (dev.pull n d)) (offered-pull size fit))

module _ {D : Type 0} (dev : Device D) (laws : Respects dev) where
  -- The caller's buffer holds what the call on the peer stores.
  stored-capacity :
      (call : PeerCall) (r : Request) (d : D)
      → Fitting dev call
      → request_of call ≡ some r
      → length (applied dev call d).0.stored ≤ r.capacity
  unfolding request_of
  stored-capacity (create_description offer) r d fit e = omega arith
  stored-capacity (set_description sdp offer here) r d fit e = omega arith
  stored-capacity (operation size) r d fit e =
      rw (← of_some e) ((laws.operation_fits size d (omega (arith, fit))).1)
  stored-capacity (local_description size) r d fit e =
      rw (← of_some e) ((laws.local_fits size d (omega (arith, fit))).1)
  stored-capacity state r d fit e = omega arith
  stored-capacity (push none) r d fit e = omega arith
  stored-capacity (push (some pcm)) r d fit e = omega arith
  stored-capacity (pull size) r d fit e = rw (← of_some e) ((laws.pull_fits size d fit).1)

  -- A call hands on the value of the same call on the peer.
  value_of-applied :
      (call : PeerCall) (d : D)
      → value_of call (applied dev call d).0.value ≡ (applied dev call d).0.value
  unfolding value_of
  value_of-applied (create_description offer) d = refl
  value_of-applied (set_description sdp offer here) d = refl
  value_of-applied (operation size) d = refl
  value_of-applied (local_description size) d = refl
  value_of-applied state d = refl
  value_of-applied (push none) d = refl
  value_of-applied (push (some pcm)) d = elim (laws.push_bit pcm d) [
    | inl zero_bytes ↦ rw zero_bytes refl
    | inr one ↦ rw one refl
  ]
  value_of-applied (pull size) d = refl

  -- The API over the socket is the API in the process: when a helper that owns a peer, which
  -- respects its buffers, serves the request that a call sends, the client accepts the response, the
  -- value that the call returns and the bytes that it leaves in the caller's buffer are those of the
  -- same call on the peer, with a buffer of the same size, and the peer is left in the same state. A
  -- pull has a buffer within the protocol's limit, and the two calls that return a description have
  -- one of exactly that limit; the input is within it too.
  pub handle-request_of :
      (call : PeerCall) (r : Request) (h : Helper D)
      → Fitting dev call
      → request_of call ≡ some r
      → length r.input ≤ media_limit
      → IsHeld h
      → h.initialized ≡ true
      → h.peer ≡ true
      → map_some
          (delivered dev (value_of call) r.operation r.capacity)
          (handle dev (request_message r.operation r.argument r.input) r.input h)
        ≡ some (agreed dev (applied dev call h.device))
  handle-request_of call r h fit e small held started owned =
      handle-delivered dev laws (value_of call) r.operation r.argument r.input r.capacity h
        (applied dev call h.device) held small
        (handle-local dev laws r.operation r.argument r.input h started owned
          ∙ ap (map_some (reported dev)) (local_peer-request_of dev call r h.device fit e))
        (stored-capacity call r h.device fit e) (value_of-applied call h.device)
