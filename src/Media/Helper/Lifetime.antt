-- ===== src/Media/Helper/Lifetime.antt =====
-- The helper's loop ends: it exits once the stream that its parent wrote has been used up.
use haskell_agent.Base.{
  ℕ, zero, suc, ◌+◌, ◌≤◌, ◌<◌, ◌≡◌, ◌≢◌, refl, sym, ap, ◌∙◌, true, ◌&&◌, Option, none, some, List,
  ◌==◌, leb, leb→le, inl, inr, Bool-cases, length, arith, length-append,
}
use haskell_agent.Media.Protocol.{
  Message, media_limit, media_magic, message_size, encode, decode, length-encode, Socket,
}
use haskell_agent.Media.Protocol.Stream.{Stream}
use haskell_agent.Media.Io.{require, require_some, read, write, >>=-eq-some, >>=-returns}
use haskell_agent.Media.Client.Exchange.{
  read-eq-some, write-eq-some, read-returns, write-returns, require-eq-some, require_some-eq-some,
  require-returns, require_some-returns, enough, results,
}
use haskell_agent.Media.Device.{Device, Respects}
use haskell_agent.Media.Helper.{
  Helper, handle, owns, take_request, send_reply, after_reply, respond, after_request, serve,
}
use haskell_agent.Media.Helper.Handle.{IsHeld, Handles, handle-Handles}

module _ {W : Type 0} (s : Socket W) (laws : Stream s) where
  open laws use {incoming, signals}

  -- A request that was taken is within the limit, and its bytes are gone from the stream.
  pub record Taken (w : W) (m : Message) (payload : List ℕ) (w' : W) : Type 0 where
    pub measured : length payload ≤ media_limit
    pub shorter : length (incoming w') < length (incoming w)
    pub calmer : signals w' ≤ signals w

  within :
      (m : Message)
      → (m.magic == media_magic && leb m.length media_limit) ≡ true
      → m.length ≤ media_limit
  within m e = ground arith

  take_request-Taken :
      (fuel : ℕ) (w : W) {m : Message} {payload : List ℕ} {w' : W}
      → take_request s fuel w ≡ some (some (m, payload), w')
      → Taken w m payload w'
  unfolding take_request
  take_request-Taken fuel w {m} {payload} {w'} e =
      let (header, w₁, e₁, k₁) = >>=-eq-some (read s fuel message_size) _ w e in
      let (n, w₂, e₂, k₂) = >>=-eq-some (require_some (decode header)) _ w₁ k₁ in
      let (_, w₃, e₃, k₃) = >>=-eq-some (require _) _ w₂ k₂ in
      let (bs, w₄, e₄, k₄) = >>=-eq-some (read s fuel n.length) _ w₃ k₃ in
      let r₁ = read-eq-some s laws fuel message_size w e₁ in
      let r₂ = require_some-eq-some (decode header) w₁ e₂ in
      let r₃ = require-eq-some _ w₂ e₃ in
      let r₄ = read-eq-some s laws fuel n.length w₃ e₄ in
      let (p, q, r) = results n m bs payload w₄ w' k₄ in
      let same : w₃ ≡ w₁ = r₃.1 ∙ r₂.1 in
      let fits : n.length ≤ media_limit = within n r₃.0 in
      let first = ap length r₁.1 ∙ length-append header (incoming w₁) in
      let second =
        ap length (ap incoming (sym same)) ∙ ap length r₄.1 ∙ length-append bs (incoming w₄) in
      let third = ap (λ v. length (incoming v)) r in
      let quiet = ap signals same in
      let last = ap signals r in
      record {
        measured = rw (← q) (omega (arith, r₄.0));
        shorter = omega (arith, first, second, third, r₁.0);
        calmer = omega (arith, quiet, last, r₁.3, r₄.3);
      }

  take_request-returns :
      (fuel : ℕ) (w : W) → enough + signals w < fuel → take_request s fuel w ≢ none
  unfolding take_request
  take_request-returns fuel w h =
      >>=-returns (read s fuel message_size) _ w
        (read-returns s laws fuel message_size w (omega arith))
        λ header w₁ e₁.
          let r₁ = read-eq-some s laws fuel message_size w e₁ in
          >>=-returns (require_some (decode header)) _ w₁ (require_some-returns (decode header) w₁)
            λ m w₂ e₂.
              let r₂ = require_some-eq-some (decode header) w₁ e₂ in
              >>=-returns (require _) _ w₂ (require-returns _ w₂) λ _ w₃ e₃.
                let r₃ = require-eq-some _ w₂ e₃ in
                let fits : m.length ≤ media_limit = within m r₃.0 in
                let still : signals w₃ ≤ signals w = rw (r₃.1, r₂.1) (omega (arith, r₁.3)) in
                >>=-returns (read s fuel m.length) _ w₃
                  (read-returns s laws fuel m.length w₃ (omega arith)) λ bs w₄ e₄. ground arith

module _ {W D : Type 0} (s : Socket W) (laws : Stream s) (dev : Device D)
    (respects : Respects dev) where
  open laws use {incoming, signals}

  send_reply-returns :
      (fuel : ℕ) (reply : Message) (out : List ℕ) (w : W)
      → length out ≡ reply.length
      → enough + signals w < fuel
      → send_reply s fuel (reply, out) w ≢ none
  unfolding send_reply
  send_reply-returns fuel reply out w e h =
      >>=-returns (require (leb reply.length media_limit)) _ w (require-returns _ w) λ _ w₁ e₁.
        let r₁ = require-eq-some _ w e₁ in
        let fits : reply.length ≤ media_limit = leb→le reply.length media_limit r₁.0 in
        let still = ap signals r₁.1 in
        >>=-returns (write s fuel (encode reply)) _ w₁
          (write-returns s laws fuel (encode reply) w₁ (rw length-encode (omega (arith, still))))
          λ _ w₂ e₂.
            let r₂ = write-eq-some s laws fuel (encode reply) w₁ e₂ in
            write-returns s laws fuel out w₂ (omega (arith, still, r₂.2, e))

  -- Sending takes nothing from the stream.
  send_reply-keeps :
      (fuel : ℕ) (reply : Message) (out : List ℕ) (w : W) {u : Unit {0}} {w' : W}
      → send_reply s fuel (reply, out) w ≡ some (some u, w')
      → (length (incoming w') ≡ length (incoming w)) × (signals w' ≤ signals w)
  unfolding send_reply
  send_reply-keeps fuel reply out w {u} {w'} e =
      let (_, w₁, e₁, k₁) = >>=-eq-some (require (leb reply.length media_limit)) _ w e in
      let (_, w₂, e₂, k₂) = >>=-eq-some (write s fuel (encode reply)) _ w₁ k₁ in
      let r₁ = require-eq-some _ w e₁ in
      let r₂ = write-eq-some s laws fuel (encode reply) w₁ e₂ in
      let r₃ = write-eq-some s laws fuel out w₂ k₂ in
      (ap length (r₃.1 ∙ r₂.1 ∙ ap incoming r₁.1), omega (arith, ap signals r₁.1, r₂.2, r₃.2))

  -- What is known of the rounds that are left.
  abbrev Goes : (Helper D → W → Option (D × W)) → ℕ → ℕ → Type 0
  Goes again rounds fuel =
      (h : Helper D) (w : W)
      → IsHeld h
      → length (incoming w) < rounds
      → enough + signals w < fuel
      → again h w ≢ none

  after_reply-returns :
      (again : Helper D → W → Option (D × W)) (rounds fuel : ℕ) (h : Helper D) (reply : Message)
      (out : List ℕ) (w : W) (p : Option (Option (Unit {0}) × W))
      → Goes again rounds fuel
      → IsHeld h
      → length out ≡ reply.length
      → length (incoming w) < rounds
      → enough + signals w < fuel
      → send_reply s fuel (reply, out) w ≡ p
      → after_reply s dev again h p ≢ none
  unfolding after_reply
  after_reply-returns again rounds fuel h reply out w none goes held e r f q =
      absurd (send_reply-returns fuel reply out w e f q)
  after_reply-returns again rounds fuel h reply out w (some (none, w')) goes held e r f q = cc
  after_reply-returns again rounds fuel h reply out w (some (some u, w')) goes held e r f q =
      let kept = send_reply-keeps fuel reply out w q in
      let more = goes h w' held (omega (arith, kept.0)) (omega (arith, kept.1)) in
      elim (Bool-cases (owns h)) [
        | inl o ↦ rw (o, after_reply) more
        | inr o ↦ rw (o, after_reply) (ground arith)
      ]

  respond-returns :
      (again : Helper D → W → Option (D × W)) (rounds fuel : ℕ) (h : Helper D) (m : Message)
      (p : Option (Helper D × (Message × List ℕ))) (w : W)
      → Goes again rounds fuel
      → ((next : Helper D × (Message × List ℕ)) → p ≡ some next → Handles dev respects m next)
      → length (incoming w) < rounds
      → enough + signals w < fuel
      → respond s dev again fuel h p w ≢ none
  unfolding respond
  respond-returns again rounds fuel h m none w goes good r f = ground arith
  respond-returns again rounds fuel h m (some (h', (reply, out))) w goes good r f =
      let (held, sound) = good (h', (reply, out)) refl in
      after_reply-returns again rounds fuel h' reply out w (send_reply s fuel (reply, out) w) goes
        held sound.measured r f refl

  after_request-returns :
      (again : Helper D → W → Option (D × W)) (rounds fuel : ℕ) (h : Helper D) (w : W)
      (p : Option (Option (Message × List ℕ) × W))
      → Goes again rounds fuel
      → IsHeld h
      → length (incoming w) < suc rounds
      → enough + signals w < fuel
      → take_request s fuel w ≡ p
      → after_request s dev again fuel h p ≢ none
  unfolding after_request
  after_request-returns again rounds fuel h w none goes held r f q =
      absurd (take_request-returns s laws fuel w f q)
  after_request-returns again rounds fuel h w (some (none, w')) goes held r f q = cc
  after_request-returns again rounds fuel h w (some (some (m, payload), w')) goes held r f q =
      let t = take_request-Taken s laws fuel w q in
      respond-returns again rounds fuel h m (handle dev m payload h) w' goes
        (λ next e. handle-Handles dev respects m payload h held t.measured e)
        (omega (arith, t.shorter)) (omega (arith, t.calmer))

  -- Over a stream, and a resource that respects its buffers, the loop ends when its rounds outnumber
  -- the bytes that are left and each transfer has fuel for the largest request and every signal.
  pub serve-returns :
      (rounds fuel : ℕ) (h : Helper D) (w : W)
      → IsHeld h
      → length (incoming w) < rounds
      → enough + signals w < fuel
      → serve s dev rounds fuel h w ≢ none
  unfolding serve
  serve-returns zero fuel h w held r f = elim r [ ]
  serve-returns (suc rounds) fuel h w held r f =
      after_request-returns (serve s dev rounds fuel) rounds fuel h w (take_request s fuel w)
        (serve-returns rounds fuel) held r f refl
