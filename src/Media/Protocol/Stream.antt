-- ===== src/Media/Protocol/Stream.antt =====
-- media_transfer over a byte stream: what socket (2), send (2) and recv (2) promise of a connected
-- SOCK_STREAM socket, and the loop's correctness and termination under it.
use haskell_agent.Base.{
  ℕ, zero, suc, ◌+◌, ◌-◌, ◌≤◌, ◌<◌, ◌≡◌, ◌≢◌, refl, sym, ◌∙◌, Bool, true, Option, none, some, List,
  [], ◌∷◌, ◌++◌, length, take, drop, arith, append_assoc, append-nil, take-append-drop,
  length-append, length-drop,
}
use haskell_agent.Media.Protocol.{
  Socket, Received, Sent, after_recv, after_send, media_receive, media_send,
}

-- A view of the connection: the bytes that have yet to be received, in order, the bytes that were
-- accepted for the other side, and how many signals are still to interrupt a call.
pub record Stream {W : Type 0} (s : Socket W) : Type 0 where
  pub incoming : W → List ℕ
  pub outgoing : W → List ℕ
  pub signals : W → ℕ
  -- No more than was asked for, from the front of the stream.
  pub recv_bytes :
      (n : ℕ) (w w' : W) (bs : List ℕ)
      → s.recv n w ≡ (Received.bytes bs, w')
      → (length bs ≤ n)
        × (incoming w ≡ bs ++ incoming w')
        × (outgoing w' ≡ outgoing w)
        × (signals w' ≤ signals w)
  pub recv_interrupted :
      (n : ℕ) (w w' : W)
      → s.recv n w ≡ (Received.interrupted, w')
      → (incoming w' ≡ incoming w) × (outgoing w' ≡ outgoing w) × (signals w' < signals w)
  pub recv_failed :
      (n : ℕ) (w w' : W) → s.recv n w ≡ (Received.failed, w') → outgoing w' ≡ outgoing w
  -- A prefix of what was offered.
  pub send_moved :
      (buffer : List ℕ) (w w' : W) (n : ℕ)
      → s.send buffer w ≡ (Sent.moved n, w')
      → (n ≤ length buffer)
        × (outgoing w' ≡ outgoing w ++ take n buffer)
        × (incoming w' ≡ incoming w)
        × (signals w' ≤ signals w)
  pub send_interrupted :
      (buffer : List ℕ) (w w' : W)
      → s.send buffer w ≡ (Sent.interrupted, w')
      → (outgoing w' ≡ outgoing w) × (incoming w' ≡ incoming w) × (signals w' < signals w)
  pub send_failed :
      (buffer : List ℕ) (w w' : W)
      → s.send buffer w ≡ (Sent.failed, w')
      → (outgoing w' ≡ outgoing w) × (incoming w' ≡ incoming w)

module _ {W : Type 0} (s : Socket W) (laws : Stream s) where
  open laws use {incoming, outgoing, signals}

  -- What a call that began at `w` with the buffer `filled` has done when it returns 1.
  abbrev pub Filled : W → ℕ → List ℕ → List ℕ → W → Type 0
  Filled w wanted filled buffer w' =
      (new : List ℕ) × (buffer ≡ filled ++ new)
      × (length new ≡ wanted)
      × (incoming w ≡ new ++ incoming w')
      × (outgoing w' ≡ outgoing w)
      × (signals w' ≤ signals w)

  Filled-more :
      (w w' w'' : W) (wanted : ℕ) (filled buffer bs : List ℕ)
      → length bs ≤ wanted
      → (incoming w ≡ bs ++ incoming w') × (outgoing w' ≡ outgoing w) × (signals w' ≤ signals w)
      → Filled w' (wanted - length bs) (filled ++ bs) buffer w''
      → Filled w wanted filled buffer w''
  Filled-more w w' w'' wanted filled buffer bs le (i, o, g) (new, b, l, i', o', g') = (
    bs ++ new,
    rw (b, append_assoc) refl,
    rw (length-append bs new) (omega arith),
    rw (i, i') (rw append_assoc refl),
    rw (o', o) refl,
    omega arith,
  )

  after_recv-Filled :
      (again : ℕ → List ℕ → W → Option (Bool × List ℕ × W))
      → ((n : ℕ) (filled buffer : List ℕ) (w w' : W)
          → again n filled w ≡ some (true, buffer, w')
          → Filled w n filled buffer w')
      → (wanted : ℕ) (filled buffer : List ℕ) (w w' : W) (p : Received × W) → s.recv wanted w ≡ p
      → after_recv again wanted filled p ≡ some (true, buffer, w')
      → Filled w wanted filled buffer w'
  unfolding after_recv
  after_recv-Filled again ih wanted filled buffer w w' (Received.bytes [], v) q e = cc
  after_recv-Filled again ih wanted filled buffer w w' (Received.bytes (b ∷ bs), v) q e =
      let law = laws.recv_bytes wanted w v (b ∷ bs) q in
      Filled-more w v w' wanted filled buffer (b ∷ bs) law.0 (law.1, law.2, law.3)
        (ih (wanted - length (b ∷ bs)) (filled ++ (b ∷ bs)) buffer v w' e)
  after_recv-Filled again ih wanted filled buffer w w' (Received.interrupted, v) q e =
      let law = laws.recv_interrupted wanted w v q in
      let (new, b, l, i, o, g) = ih wanted filled buffer v w' e in
      (new, b, l, sym law.0 ∙ i, o ∙ law.1, omega arith)
  after_recv-Filled again ih wanted filled buffer w w' (Received.failed, v) q e = cc

  -- When media_transfer returns 1 for a read, the buffer has exactly the next `wanted` bytes of
  -- the stream behind what it held, and nothing was sent.
  pub media_receive-Filled :
      (fuel wanted : ℕ) (filled buffer : List ℕ) (w w' : W)
      → media_receive s fuel wanted filled w ≡ some (true, buffer, w')
      → Filled w wanted filled buffer w'
  unfolding media_receive
  media_receive-Filled zero wanted filled buffer w w' e = cc
  media_receive-Filled (suc fuel) zero filled buffer w w' e =
      ([], ground (arith, append-nil filled), refl, ground arith, ground arith, ground arith)
  media_receive-Filled (suc fuel) (suc wanted) filled buffer w w' e =
      after_recv-Filled (media_receive s fuel) (media_receive-Filled fuel) (suc wanted) filled
        buffer w w' (s.recv (suc wanted) w) refl e

  after_recv-returns :
      (again : ℕ → List ℕ → W → Option (Bool × List ℕ × W)) (fuel : ℕ)
      → ((n : ℕ) (filled : List ℕ) (w : W) → n + signals w < fuel → again n filled w ≢ none)
      → (wanted : ℕ) (filled : List ℕ) (w : W) (p : Received × W) → wanted + signals w < suc fuel
      → 0 < wanted
      → s.recv wanted w ≡ p
      → after_recv again wanted filled p ≢ none
  unfolding after_recv
  after_recv-returns again fuel ih wanted filled w (Received.bytes [], v) h pos q e = cc
  after_recv-returns again fuel ih wanted filled w (Received.bytes (b ∷ bs), v) h pos q e =
      let law = laws.recv_bytes wanted w v (b ∷ bs) q in
      ih (wanted - length (b ∷ bs)) (filled ++ (b ∷ bs)) v (omega arith) e
  after_recv-returns again fuel ih wanted filled w (Received.interrupted, v) h pos q e =
      let law = laws.recv_interrupted wanted w v q in ih wanted filled v (omega arith) e
  after_recv-returns again fuel ih wanted filled w (Received.failed, v) h pos q e = cc

  -- With more fuel than the bytes that are wanted and the signals that are to come, the reading
  -- loop ends.
  pub media_receive-returns :
      (fuel wanted : ℕ) (filled : List ℕ) (w : W)
      → wanted + signals w < fuel
      → media_receive s fuel wanted filled w ≢ none
  unfolding media_receive
  media_receive-returns zero wanted filled w h = elim h [ ]
  media_receive-returns (suc fuel) zero filled w h = ground arith
  media_receive-returns (suc fuel) (suc wanted) filled w h =
      after_recv-returns (media_receive s fuel) fuel (media_receive-returns fuel) (suc wanted)
        filled w (s.recv (suc wanted) w) h (omega arith) refl

  -- What a writing call that began at `w` has done when it returns 1.
  abbrev pub Flushed : W → List ℕ → W → Type 0
  Flushed w buffer w' =
      (outgoing w' ≡ outgoing w ++ buffer) × (incoming w' ≡ incoming w) × (signals w' ≤ signals w)

  after_send-Flushed :
      (again : List ℕ → W → Option (Bool × W))
      → ((buffer : List ℕ) (w w' : W) → again buffer w ≡ some (true, w') → Flushed w buffer w')
      → (buffer : List ℕ) (w w' : W) (p : Sent × W) → s.send buffer w ≡ p
      → after_send again buffer p ≡ some (true, w')
      → Flushed w buffer w'
  unfolding after_send
  after_send-Flushed again ih buffer w w' (Sent.moved zero, v) q e = cc
  after_send-Flushed again ih buffer w w' (Sent.moved (suc n), v) q e =
      let law = laws.send_moved buffer w v (suc n) q in
      let (o, i, g) = ih (drop (suc n) buffer) v w' e in
      (o ∙ rw law.1 (rw (append_assoc, take-append-drop (suc n) buffer)), i ∙ law.2, omega arith)
  after_send-Flushed again ih buffer w w' (Sent.interrupted, v) q e =
      let law = laws.send_interrupted buffer w v q in
      let (o, i, g) = ih buffer v w' e in (rw (o, law.0) refl, i ∙ law.1, omega arith)
  after_send-Flushed again ih buffer w w' (Sent.failed, v) q e = cc

  -- When media_transfer returns 1 for a write, exactly the buffer was added to what was sent, and
  -- nothing was received.
  pub media_send-Flushed :
      (fuel : ℕ) (buffer : List ℕ) (w w' : W)
      → media_send s fuel buffer w ≡ some (true, w')
      → Flushed w buffer w'
  unfolding media_send
  media_send-Flushed zero buffer w w' e = cc
  media_send-Flushed (suc fuel) [] w w' e = ground (arith, append-nil (outgoing w))
  media_send-Flushed (suc fuel) (b ∷ buffer) w w' e =
      after_send-Flushed (media_send s fuel) (media_send-Flushed fuel) (b ∷ buffer) w w'
        (s.send (b ∷ buffer) w) refl e

  after_send-returns :
      (again : List ℕ → W → Option (Bool × W)) (fuel : ℕ)
      → ((buffer : List ℕ) (w : W) → length buffer + signals w < fuel → again buffer w ≢ none)
      → (buffer : List ℕ) (w : W) (p : Sent × W) → length buffer + signals w < suc fuel
      → s.send buffer w ≡ p
      → after_send again buffer p ≢ none
  unfolding after_send
  after_send-returns again fuel ih buffer w (Sent.moved zero, v) h q e = cc
  after_send-returns again fuel ih buffer w (Sent.moved (suc n), v) h q e =
      let law = laws.send_moved buffer w v (suc n) q in
      ih (drop (suc n) buffer) v (rw length-drop (omega arith)) e
  after_send-returns again fuel ih buffer w (Sent.interrupted, v) h q e =
      let law = laws.send_interrupted buffer w v q in ih buffer v (omega arith) e
  after_send-returns again fuel ih buffer w (Sent.failed, v) h q e = cc

  -- With more fuel than the bytes that are to be sent and the signals that are to come, the writing
  -- loop ends.
  pub media_send-returns :
      (fuel : ℕ) (buffer : List ℕ) (w : W)
      → length buffer + signals w < fuel
      → media_send s fuel buffer w ≢ none
  unfolding media_send
  media_send-returns zero buffer w h = elim h [ ]
  media_send-returns (suc fuel) [] w h = ground arith
  media_send-returns (suc fuel) (b ∷ buffer) w h =
      after_send-returns (media_send s fuel) fuel (media_send-returns fuel) (b ∷ buffer) w
        (s.send (b ∷ buffer) w) h refl
