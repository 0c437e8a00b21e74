-- ===== src/Tests/Wire.antt =====
-- A socket over lists, for the tests: what comes in, what went out, and the signals that are still
-- to interrupt a call.
use haskell_agent.Base.{
  ℕ, zero, suc, ◌≤◌, ◌<◌, ◌≡◌, refl, sym, ap, ◌∙◌, List, [], ◌∷◌, ◌++◌, length, take, drop, arith,
  take-append-drop, length-take, append-nil,
}
use haskell_agent.Media.Protocol.{Socket, Received, Sent}
use haskell_agent.Media.Protocol.Stream.{Stream}

pub record Wire : Type 0 where
  pub inbox : List ℕ
  pub outbox : List ℕ
  pub signals : ℕ

abbrev receives : ℕ → ℕ → Wire → Received × Wire
receives n zero w =
    (Received.bytes (take n w.inbox), record w { inbox = drop n w.inbox; signals = 0 })
receives n (suc k) w = (Received.interrupted, record w { signals = k })

-- A send takes two bytes at most.
abbrev sends : List ℕ → ℕ → Wire → Sent × Wire
sends [] zero w = (Sent.moved 0, record w { signals = 0 })
sends (b ∷ []) zero w = (Sent.moved 1, record w { outbox = w.outbox ++ b ∷ []; signals = 0 })
sends (b ∷ c ∷ bs) zero w =
    (Sent.moved 2, record w { outbox = w.outbox ++ b ∷ c ∷ []; signals = 0 })
sends bs (suc k) w = (Sent.interrupted, record w { signals = k })

abbrev pub wire_socket : Socket Wire
wire_socket = record { recv = λ n w. receives n w.signals w; send = λ bs w. sends bs w.signals w }

pub receives_bytes :
    (n k : ℕ) (w w' : Wire) (bs : List ℕ)
    → w.signals ≡ k
    → receives n k w ≡ (Received.bytes bs, w')
    → (length bs ≤ n)
      × (w.inbox ≡ bs ++ w'.inbox)
      × (w'.outbox ≡ w.outbox)
      × (w'.signals ≤ w.signals)
receives_bytes n zero w w' bs h e =
    let same : take n w.inbox ≡ bs = cc in
    rw (← same) (
      omega (arith, length-take n w.inbox),
      sym (take-append-drop n w.inbox) ∙ ap (λ l. take n w.inbox ++ l) (cc),
      cc,
      ground arith,
    )
receives_bytes n (suc k) w w' bs h e = cc

pub receives_interrupted :
    (n k : ℕ) (w w' : Wire)
    → w.signals ≡ k
    → receives n k w ≡ (Received.interrupted, w')
    → (w'.inbox ≡ w.inbox) × (w'.outbox ≡ w.outbox) × (w'.signals < w.signals)
receives_interrupted n zero w w' h e = cc
receives_interrupted n (suc k) w w' h e = (cc, cc, ground arith)

pub receives_failed :
    (n k : ℕ) (w w' : Wire) → receives n k w ≡ (Received.failed, w') → w'.outbox ≡ w.outbox
receives_failed n zero w w' e = cc
receives_failed n (suc k) w w' e = cc

pub sends_moved :
    (bs : List ℕ) (k : ℕ) (w w' : Wire) (n : ℕ)
    → w.signals ≡ k
    → sends bs k w ≡ (Sent.moved n, w')
    → (n ≤ length bs)
      × (w'.outbox ≡ w.outbox ++ take n bs)
      × (w'.inbox ≡ w.inbox)
      × (w'.signals ≤ w.signals)
sends_moved [] zero w w' n h e =
    let same : 0 ≡ n = cc in
    let still : w'.outbox ≡ w.outbox = cc in
    rw (← same) (ground arith, still ∙ sym (append-nil w.outbox), cc, ground arith)
sends_moved (b ∷ []) zero w w' n h e =
    let same : 1 ≡ n = cc in rw (← same) (ground arith, cc, cc, ground arith)
sends_moved (b ∷ c ∷ bs) zero w w' n h e =
    let same : 2 ≡ n = cc in rw (← same) (ground arith, cc, cc, ground arith)
sends_moved [] (suc k) w w' n h e = cc
sends_moved (b ∷ []) (suc k) w w' n h e = cc
sends_moved (b ∷ c ∷ bs) (suc k) w w' n h e = cc

pub sends_interrupted :
    (bs : List ℕ) (k : ℕ) (w w' : Wire)
    → w.signals ≡ k
    → sends bs k w ≡ (Sent.interrupted, w')
    → (w'.outbox ≡ w.outbox) × (w'.inbox ≡ w.inbox) × (w'.signals < w.signals)
sends_interrupted [] zero w w' h e = cc
sends_interrupted (b ∷ []) zero w w' h e = cc
sends_interrupted (b ∷ c ∷ bs) zero w w' h e = cc
sends_interrupted bs (suc k) w w' h e = (cc, cc, ground arith)

pub sends_failed :
    (bs : List ℕ) (k : ℕ) (w w' : Wire)
    → sends bs k w ≡ (Sent.failed, w')
    → (w'.outbox ≡ w.outbox) × (w'.inbox ≡ w.inbox)
sends_failed [] zero w w' e = cc
sends_failed (b ∷ []) zero w w' e = cc
sends_failed (b ∷ c ∷ bs) zero w w' e = cc
sends_failed bs (suc k) w w' e = cc

abbrev pub wire_stream : Stream wire_socket
wire_stream = record {
  incoming = λ w. w.inbox;
  outgoing = λ w. w.outbox;
  signals = λ w. w.signals;
  recv_bytes = λ n w w' bs e. receives_bytes n w.signals w w' bs refl e;
  recv_interrupted = λ n w w' e. receives_interrupted n w.signals w w' refl e;
  recv_failed = λ n w w' e. receives_failed n w.signals w w' e;
  send_moved = λ bs w w' n e. sends_moved bs w.signals w w' n refl e;
  send_interrupted = λ bs w w' e. sends_interrupted bs w.signals w w' refl e;
  send_failed = λ bs w w' e. sends_failed bs w.signals w w' e;
}
