-- ===== src/Media/Client/Exchange.antt =====
-- What media_request sends and takes from the stream when it succeeds, and that it returns.
use haskell_agent.Base.{
  ℕ, ◌+◌, ◌≤◌, ◌<◌, ◌≡◌, ◌≢◌, sym, ap, ◌∙◌, Bool, true, false, Option, none, some, List, [], ◌++◌,
  length, arith,
}
use mathlib.Core.Path.{subst₃}
use haskell_agent.Media.Protocol.{
  length-encode, Operation, Message, media_limit, message_size, encode, decode, Socket,
}
use haskell_agent.Media.Protocol.Stream.{
  Stream, media_receive-Filled, media_receive-returns, media_send-Flushed, media_send-returns,
}
use haskell_agent.Media.Io.{
  require, require_some, read, write, >>=-eq-some, >>=-returns, received-eq-some, received-eq-none,
  sent-eq-some, sent-eq-none,
}
use haskell_agent.Media.Client.{accepts, request_message, exchange}

module _ {W : Type 0} (s : Socket W) (laws : Stream s) where
  open laws use {incoming, outgoing, signals}

  pub read-eq-some :
      (fuel wanted : ℕ) (w : W) {buffer : List ℕ} {w' : W}
      → read s fuel wanted w ≡ some (some buffer, w')
      → (length buffer ≡ wanted)
        × (incoming w ≡ buffer ++ incoming w')
        × (outgoing w' ≡ outgoing w)
        × (signals w' ≤ signals w)
  unfolding read
  read-eq-some fuel wanted w {buffer} {w'} e =
      let (new, b, l, i, o, g) =
        media_receive-Filled s laws fuel wanted [] buffer w w' (received-eq-some s _ e) in
      (rw b l, rw b i, o, g)

  pub write-eq-some :
      (fuel : ℕ) (buffer : List ℕ) (w : W) {w' : W}
      → write s fuel buffer w ≡ some (some tt, w')
      → (outgoing w' ≡ outgoing w ++ buffer) × (incoming w' ≡ incoming w) × (signals w' ≤ signals w)
  unfolding write
  write-eq-some fuel buffer w {w'} e =
      media_send-Flushed s laws fuel buffer w w' (sent-eq-some s _ e)

  pub read-returns :
      (fuel wanted : ℕ) (w : W) → wanted + signals w < fuel → read s fuel wanted w ≢ none
  unfolding read
  read-returns fuel wanted w h e =
      media_receive-returns s laws fuel wanted [] w h (received-eq-none s _ e)

  pub write-returns :
      (fuel : ℕ) (buffer : List ℕ) (w : W)
      → length buffer + signals w < fuel
      → write s fuel buffer w ≢ none
  unfolding write
  write-returns fuel buffer w h e = media_send-returns s laws fuel buffer w h (sent-eq-none s _ e)

-- A condition that held, and one on a value.
pub require-eq-some :
    {W : Type 0} (b : Bool) (w : W) {u : Unit {0}} {w' : W}
    → require b w ≡ some (some u, w')
    → (b ≡ true) × (w' ≡ w)
require-eq-some true w e = ground arith
require-eq-some false w e = cc

pub require_some-eq-some :
    {W A : Type 0} (o : Option A) (w : W) {a : A} {w' : W}
    → require_some o w ≡ some (some a, w')
    → (o ≡ some a) × (w' ≡ w)
require_some-eq-some none w e = cc
require_some-eq-some (some b) w e = ground arith

pub require-returns : {W : Type 0} (b : Bool) (w : W) → require b w ≢ none
require-returns true w e = cc
require-returns false w e = cc

pub require_some-returns : {W A : Type 0} (o : Option A) (w : W) → require_some o w ≢ none
require_some-returns none w e = cc
require_some-returns (some a) w e = cc

-- A reply that is accepted fits the caller's buffer.
pub accepts-length :
    (op : Operation) (capacity : ℕ) (reply : Message)
    → accepts op capacity reply ≡ true
    → reply.length ≤ capacity
unfolding accepts
accepts-length op capacity reply e = ground arith

-- The parts of two equal results.
pub results :
    {W : Type 0} (m reply : Message) (bs output : List ℕ) (v w : W)
    → ◌≡◌ {A = Option (Option (Message × List ℕ) × W)}
        (some (some (m, bs), v))
        (some (some (reply, output), w))
    → (m ≡ reply) × (bs ≡ output) × (v ≡ w)
results m reply bs output v w e = (cc, cc, cc)

module _ {W : Type 0} (s : Socket W) (laws : Stream s) where
  open laws use {incoming, outgoing, signals}

  -- A reply that was accepted, behind the request on the wire.
  pub record Answered (op : Operation) (argument : ℕ) (input : List ℕ) (capacity : ℕ) (w : W)
      (reply : Message) (output : List ℕ) (w' : W) : Type 0 where
    pub header : List ℕ
    pub decoded : decode header ≡ some reply
    pub accepted : accepts op capacity reply ≡ true
    pub measured : length output ≡ reply.length
    pub took : incoming w ≡ header ++ (output ++ incoming w')
    pub gave : outgoing w' ≡ outgoing w ++ encode (request_message op argument input) ++ input

  -- The six steps of an exchange that went through.
  steps-Answered :
      (fuel : ℕ) (op : Operation) (argument : ℕ) (input : List ℕ) (capacity : ℕ)
      (w w₁ w₂ w₃ w₄ w₅ w₆ : W) (header : List ℕ) (reply : Message) (output : List ℕ)
      → write s fuel (encode (request_message op argument input)) w ≡ some (some tt, w₁)
      → write s fuel input w₁ ≡ some (some tt, w₂)
      → read s fuel message_size w₂ ≡ some (some header, w₃)
      → (decode header ≡ some reply) × (w₄ ≡ w₃)
      → (accepts op capacity reply ≡ true) × (w₅ ≡ w₄)
      → read s fuel reply.length w₅ ≡ some (some output, w₆)
      → Answered op argument input capacity w reply output w₆
  steps-Answered fuel op argument input capacity w w₁ w₂ w₃ w₄ w₅ w₆ header reply output e₁ e₂ e₃ d
        a e₆ =
      let r₁ = write-eq-some s laws fuel _ w e₁ in
      let r₂ = write-eq-some s laws fuel input w₁ e₂ in
      let r₃ = read-eq-some s laws fuel message_size w₂ e₃ in
      let r₆ = read-eq-some s laws fuel reply.length w₅ e₆ in
      let same : w₅ ≡ w₃ = a.1 ∙ d.1 in
      record {
        header = header;
        decoded = d.0;
        accepted = a.0;
        measured = r₆.0;
        took = sym r₁.1 ∙ sym r₂.1 ∙ r₃.1 ∙ ap (◌++◌ header) (sym (ap incoming same) ∙ r₆.1);
        gave = r₆.2 ∙ ap outgoing same ∙ r₃.2 ∙ r₂.0 ∙ ap (λ o. o ++ input) r₁.0;
      }

  -- When the exchange goes through, the request and its input were sent, and the header and the
  -- output of an acceptable reply were the next bytes of the stream.
  pub exchange-Answered :
      (fuel : ℕ) (op : Operation) (argument : ℕ) (input : List ℕ) (capacity : ℕ) (w : W)
      {reply : Message} {output : List ℕ} {w' : W}
      → exchange s fuel op argument input capacity w ≡ some (some (reply, output), w')
      → Answered op argument input capacity w reply output w'
  unfolding exchange
  exchange-Answered fuel op argument input capacity w {reply} {output} {w'} e =
      let (_, w₁, e₁, k₁) = >>=-eq-some (write s fuel _) _ w e in
      let (_, w₂, e₂, k₂) = >>=-eq-some (write s fuel input) _ w₁ k₁ in
      let (header, w₃, e₃, k₃) = >>=-eq-some (read s fuel message_size) _ w₂ k₂ in
      let (m, w₄, e₄, k₄) = >>=-eq-some (require_some (decode header)) _ w₃ k₃ in
      let (_, w₅, e₅, k₅) = >>=-eq-some (require (accepts op capacity m)) _ w₄ k₄ in
      let (bs, w₆, e₆, k₆) = >>=-eq-some (read s fuel m.length) _ w₅ k₅ in
      let d = require_some-eq-some (decode header) w₃ e₄ in
      let a = require-eq-some (accepts op capacity m) w₄ e₅ in
      let answer =
        steps-Answered fuel op argument input capacity w w₁ w₂ w₃ w₄ w₅ w₆ header m bs e₁ e₂ e₃ d a
          e₆ in
      let (p, q, r) = results m reply bs output w₆ w' k₆ in
      subst₃ (λ m' bs' v. Answered op argument input capacity w m' bs' v) p q r answer

-- Whatever the size of the request, it is at most this much to move.
abbrev pub enough : ℕ
enough = media_limit + message_size

module _ {W : Type 0} (s : Socket W) (laws : Stream s) where
  open laws use {signals}

  pub exchange-returns :
      (fuel : ℕ) (op : Operation) (argument : ℕ) (input : List ℕ) (capacity : ℕ) (w : W)
      → length input ≤ media_limit
      → capacity ≤ media_limit
      → enough + signals w < fuel
      → exchange s fuel op argument input capacity w ≢ none
  unfolding exchange
  exchange-returns fuel op argument input capacity w hi hc h =
      >>=-returns (write s fuel _) _ w
        (write-returns s laws fuel _ w (rw length-encode (omega arith)))
        λ _ w₁ e₁.
          let r₁ = write-eq-some s laws fuel _ w e₁ in
          >>=-returns (write s fuel input) _ w₁ (write-returns s laws fuel input w₁ (omega arith))
            λ _ w₂ e₂.
              let r₂ = write-eq-some s laws fuel input w₁ e₂ in
              >>=-returns (read s fuel message_size) _ w₂
                (read-returns s laws fuel message_size w₂ (omega arith))
                λ header w₃ e₃.
                  let r₃ = read-eq-some s laws fuel message_size w₂ e₃ in
                  >>=-returns (require_some (decode header)) _ w₃
                    (require_some-returns (decode header) w₃)
                    λ reply w₄ e₄.
                      let r₄ = require_some-eq-some (decode header) w₃ e₄ in
                      >>=-returns (require (accepts op capacity reply)) _ w₄ (require-returns _ w₄)
                        λ _ w₅ e₅.
                          let r₅ = require-eq-some (accepts op capacity reply) w₄ e₅ in
                          let fits : reply.length ≤ capacity =
                            accepts-length op capacity reply r₅.0 in
                          let still : signals w₅ ≤ signals w =
                            rw (r₅.1, r₄.1) (omega (arith, r₁.2, r₂.2, r₃.3)) in
                          >>=-returns (read s fuel reply.length) _ w₅
                            (read-returns s laws fuel reply.length w₅ (omega arith))
                            λ output w₆ e₆. ground arith
