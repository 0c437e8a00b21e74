-- ===== src/Media/Client/Request.antt =====
-- The contract of media_request: what each of its ends leaves behind, what its value tells of the
-- output, and that it returns.
use haskell_agent.Base.{
  ℕ, ◌+◌, ◌≤◌, ◌<◌, ◌≡◌, ◌≢◌, refl, sym, ap, ◌∙◌, ◌⊎◌, inl, inr, Bool, true, false, Bool-cases,
  Option, none, some, List, length, arith, ◌==◌, leb, leb→le, ==_iff, not, ◌&&◌,
}
use haskell_agent.Base.Int.{ℤ, pos, negsuc, ltb_ℤ, leb_ℤ, ◌≤ℤ◌, ◌<ℤ◌}
use haskell_agent.Base.Words.{to_i32, to_i32-small}
use haskell_agent.Media.Protocol.{Operation, code, media_magic, Message, media_limit, Socket}
use haskell_agent.Media.Protocol.Stream.{Stream}
use haskell_agent.Media.Client.{
  Child, refuses, returns_bytes, accepts, exchange, after_exchange, media_request,
}
use haskell_agent.Media.Client.Exchange.{Answered, exchange-Answered, enough, exchange-returns}

abbrev pub broken_child : Child → Child
broken_child child = record child { fd = negsuc 0 }

pub refuses_cases :
    (child : Child) (input : List ℕ) (capacity : ℕ)
    → refuses child input capacity ≡ true
    → (child.fd <ℤ pos 0) ⊎ ((media_limit < length input) ⊎ (media_limit < capacity))
unfolding refuses
refuses_cases child input capacity e = ground arith

fits_cases :
    (child : Child) (input : List ℕ) (capacity : ℕ)
    → refuses child input capacity ≡ false
    → (length input ≤ media_limit) × (capacity ≤ media_limit)
unfolding refuses
fits_cases child input capacity e = ground arith

-- What an accepted reply with a positive argument says, over an abstract reading of it.
accepts_cases :
    (magic_ok code_ok fits returns equal empty : Bool) (z : ℤ)
    → magic_ok
        && code_ok
        && fits
        && not (returns && ltb_ℤ (pos 0) z && not equal)
        && not (returns && leb_ℤ z (pos 0) && not empty)
      ≡ true
    → returns ≡ true
    → ((pos 0 <ℤ z) → equal ≡ true) × ((z ≤ℤ pos 0) → empty ≡ true) × (fits ≡ true)
accepts_cases m c f r q e (pos n) h g = ground arith
accepts_cases m c f r q e (negsuc n) h g = ground arith

-- A positive argument of an accepted reply that carries bytes is its length.
accepts-bytes :
    (op : Operation) (capacity : ℕ) (reply : Message)
    → returns_bytes op ≡ true
    → capacity ≤ media_limit
    → accepts op capacity reply ≡ true
    → pos 0 <ℤ to_i32 reply.argument
    → (to_i32 reply.argument ≡ pos reply.length) × (reply.length ≤ capacity)
unfolding accepts
accepts-bytes op capacity reply r le a h =
    let (full, none_left, fits) =
      accepts_cases (reply.magic == media_magic) (reply.operation == code op)
        (leb reply.length capacity) (returns_bytes op) (reply.argument == reply.length)
        (reply.length == 0) (to_i32 reply.argument) a r in
    let same : reply.argument ≡ reply.length = (==_iff reply.argument reply.length).0 (full h) in
    let small : reply.length ≤ capacity = leb→le reply.length capacity fits in
    (ap to_i32 same ∙ to_i32-small reply.length (omega arith), small)

module _ {W : Type 0} (s : Socket W) (laws : Stream s) (close : W → W) where
  open laws use {signals}

  -- How one request can end. The child's `fd` is negative exactly when it has been given up.
  pub data Ends (child : Child) (op : Operation) (argument : ℕ) (input : List ℕ) (capacity : ℕ)
      (w : W) (result : ℤ) (output : List ℕ) (child' : Child) (w' : W) : Type 0 where
    refused :
        (child.fd <ℤ pos 0) ⊎ ((media_limit < length input) ⊎ (media_limit < capacity))
        → result ≡ negsuc 0
        → child' ≡ child
        → w' ≡ w
        → Ends child op argument input capacity w result output child' w'
    broken :
        (v : W)
        → result ≡ negsuc 0
        → child' ≡ broken_child child
        → w' ≡ close v
        → Ends child op argument input capacity w result output child' w'
    answered :
        (reply : Message)
        → capacity ≤ media_limit
        → Answered s laws op argument input capacity w reply output w'
        → result ≡ to_i32 reply.argument
        → child' ≡ child
        → Ends child op argument input capacity w result output child' w'

  after_exchange-Ends :
      (fuel : ℕ) (child : Child) (op : Operation) (argument : ℕ) (input : List ℕ) (capacity : ℕ)
      (w : W) {result : ℤ} {output : List ℕ} {child' : Child} {w' : W}
      (p : Option (Option (Message × List ℕ) × W))
      → capacity ≤ media_limit
      → exchange s fuel op argument input capacity w ≡ p
      → after_exchange s close child p ≡ some (result, output, child', w')
      → Ends child op argument input capacity w result output child' w'
  unfolding after_exchange
  after_exchange-Ends fuel child op argument input capacity w none le q e = cc
  after_exchange-Ends fuel child op argument input capacity w (some (none, v)) le q e =
      broken v (cc) (cc) (cc)
  after_exchange-Ends fuel child op argument input capacity w {result} {output} {child'} {w'}
        (some (some (reply, bs), v)) le q e =
      let out : bs ≡ output = cc in
      let world : v ≡ w' = cc in
      answered reply le
        (exchange-Answered s laws fuel op argument input capacity w (rw (← out, ← world) q)) (cc)
        (cc)

  -- A call of media_request refuses its arguments and touches nothing, or breaks and closes the
  -- socket for good, or was answered.
  pub media_request-Ends :
      (fuel : ℕ) (child : Child) (op : Operation) (argument : ℕ) (input : List ℕ) (capacity : ℕ)
      (w : W) {result : ℤ} {output : List ℕ} {child' : Child} {w' : W}
      → media_request s close fuel child op argument input capacity w
        ≡ some (result, output, child', w')
      → Ends child op argument input capacity w result output child' w'
  unfolding media_request
  media_request-Ends fuel child op argument input capacity w e =
      elim (Bool-cases (refuses child input capacity)) [
        | inl r ↦
            let refused_e = rw (r, media_request) at e in
            refused (refuses_cases child input capacity r) (cc) (cc) (cc)
        | inr r ↦
            after_exchange-Ends fuel child op argument input capacity w
              (exchange s fuel op argument input capacity w) (fits_cases child input capacity r).1
              refl (rw (r, media_request) at e)
      ]

  after_exchange-eq-none :
      (child : Child) (p : Option (Option (Message × List ℕ) × W))
      → after_exchange s close child p ≡ none
      → p ≡ none
  unfolding after_exchange
  after_exchange-eq-none child none e = refl
  after_exchange-eq-none child (some (none, v)) e = cc
  after_exchange-eq-none child (some (some (reply, bs), v)) e = cc

  -- With fuel for the bytes of the largest request and for every signal, media_request returns.
  pub media_request-returns :
      (fuel : ℕ) (child : Child) (op : Operation) (argument : ℕ) (input : List ℕ) (capacity : ℕ)
      (w : W)
      → enough + signals w < fuel
      → media_request s close fuel child op argument input capacity w ≢ none
  unfolding media_request
  media_request-returns fuel child op argument input capacity w h e =
      elim (Bool-cases (refuses child input capacity)) [
        | inl r ↦ let absurd_e = rw (r, media_request) at e in cc
        | inr r ↦
            let fits = fits_cases child input capacity r in
            exchange-returns s laws fuel op argument input capacity w fits.0 fits.1 h
              (after_exchange-eq-none child _ (rw (r, media_request) at e))
      ]

  -- A positive value of a request for bytes is how many bytes of the output the reply filled, they
  -- fit the caller's buffer, and the child stays usable.
  pub media_request-bytes :
      (fuel : ℕ) (child : Child) (op : Operation) (argument : ℕ) (input : List ℕ) (capacity : ℕ)
      (w : W) {result : ℤ} {output : List ℕ} {child' : Child} {w' : W}
      → returns_bytes op ≡ true
      → media_request s close fuel child op argument input capacity w
        ≡ some (result, output, child', w')
      → pos 0 <ℤ result
      → (result ≡ pos (length output)) × (length output ≤ capacity) × (child' ≡ child)
  media_request-bytes fuel child op argument input capacity w {result} {output} {child'} {w'} r e
        h =
      bytes_of (media_request-Ends fuel child op argument input capacity w e)
    where
      bytes_of :
          Ends child op argument input capacity w result output child' w'
          → (result ≡ pos (length output)) × (length output ≤ capacity) × (child' ≡ child)
      bytes_of (refused why minus same same_world) =
          let bad : pos 0 <ℤ negsuc 0 = rw minus at h in absurd (omega arith)
      bytes_of (broken v minus gone closed) =
          let bad : pos 0 <ℤ negsuc 0 = rw minus at h in absurd (omega arith)
      bytes_of (answered reply le a value same) =
          let (p, q) = accepts-bytes op capacity reply r le a.accepted (rw value at h) in
          (value ∙ p ∙ ap pos (sym a.measured), rw a.measured q, same)
