-- ===== src/Media/Delivery.antt =====
-- A response of helper.c of packages/agent-webrtc/cbits as media_request of helper-client.c gives it
-- to the caller, who gets nothing if the client does not accept it.
use haskell_agent.Base.{
  ℕ, ◌≤◌, ◌≡◌, refl, ap, inl, inr, true, Option, Option-cases, none, some, List, arith,
  if◌then◌else◌, length, take, length-take, of_some,
}
use haskell_agent.Base.Int.{ℤ}
use haskell_agent.Base.Words.{to_i32}
use haskell_agent.Media.Protocol.{Operation, Message, media_limit}
use haskell_agent.Media.Client.{accepts, request_message}
use haskell_agent.Media.Device.{Device, Filled, Respects}
use haskell_agent.Media.Helper.{Helper, positive, handle, map_some}
use haskell_agent.Media.Helper.Reply.{IsReply}
use haskell_agent.Media.Helper.Handle.{IsHeld, handle-Handles}
use haskell_agent.Media.Remote.{observed, reported}

module _ {D : Type 0} (dev : Device D) where
  -- What a call gives to its caller: its value, made of media_request's by `value_of`, and the bytes
  -- in the buffer of `capacity` bytes, or nothing where the client breaks the exchange off; and the
  -- state of the resource.
  abbrev pub delivered :
      (ℤ → ℤ) → Operation → ℕ → Helper D × (Message × List ℕ) → Option (ℤ × List ℕ) × D
  delivered value_of op capacity (h, (reply, out)) = (
    if accepts op capacity reply then some (value_of (to_i32 reply.argument), out) else none,
    h.device,
  )

  -- What the same call on the resource gives.
  abbrev pub agreed : Filled × D → Option (ℤ × List ℕ) × D
  agreed (f, d) = (some (f.value, take (positive f.value) f.stored), d)

  accepted-delivered :
      (value_of : ℤ → ℤ) (op : Operation) (capacity : ℕ) (m : Message)
      (next : Helper D × (Message × List ℕ)) (c : Filled × D)
      → accepts op capacity next.1.0 ≡ true
      → observed dev next ≡ reported dev c
      → value_of c.0.value ≡ c.0.value
      → delivered value_of op capacity next ≡ agreed c
  accepted-delivered value_of op capacity m next c ok seen same =
      rw (ok, ap (λ p. p.0) seen, ap (λ p. p.1) seen, ap (λ p. p.2) seen, same) refl

  module _ (laws : Respects dev) where
    pub handle-delivered :
        (value_of : ℤ → ℤ) (op : Operation) (argument : ℕ) (input : List ℕ) (capacity : ℕ)
        (h : Helper D) (c : Filled × D)
        → IsHeld h
        → length input ≤ media_limit
        → map_some (observed dev) (handle dev (request_message op argument input) input h)
          ≡ some (reported dev c)
        → length c.0.stored ≤ capacity
        → value_of c.0.value ≡ c.0.value
        → map_some
            (delivered value_of op capacity)
            (handle dev (request_message op argument input) input h)
          ≡ some (agreed c)
    handle-delivered value_of op argument input capacity h c held small seen fits same =
        let m = request_message op argument input in
        elim (Option-cases (handle dev m input h)) [
          | inl stopped ↦ let impossible = rw stopped at seen in cc
          | inr (next, found) ↦
              let reply : IsReply m next.1.0 next.1.1 =
                (handle-Handles dev laws m input h held small found).1 in
              let same_reply = of_some (rw found at seen) in
              let ok = reply.acceptable op capacity refl (
                omega (
                  arith,
                  reply.measured,
                  ap (λ p. length p.1) same_reply,
                  length-take (positive c.0.value) c.0.stored,
                )) in
              rw found
                (ap some (accepted-delivered value_of op capacity m next c ok same_reply same))
        ]
