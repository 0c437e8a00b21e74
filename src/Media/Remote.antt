-- ===== src/Media/Remote.antt =====
-- The helper as a remote resource: what a client reads off a response is what the operation of the
-- resource reports, for every operation of helper.c's switch on a peer.
use haskell_agent.Base.{
  ℕ, zero, suc, ◌/◌, ◌%◌, ◌≤◌, ◌≡◌, refl, ap, ◌∙◌, Bool, true, false, not, Option, none, some, List,
  [], ◌∷◌, ◌++◌, ◌==◌, inl, inr, length, take, arith, if◌then◌else◌, Bool-cases, append_assoc,
}
use haskell_agent.Base.Int.{ℤ, negsuc}
use haskell_agent.Base.Words.{IsI32, to_i32, to_i32-to_u32}
use haskell_agent.Media.Protocol.{Operation, Message, media_limit}
use haskell_agent.Media.Client.{request_message}
use haskell_agent.Media.Device.{Device, Filled, Respects}
use haskell_agent.Media.Helper.{
  Helper, Served, positive, plain, filling, offered, overwrite, has_nul, c_string, serve_peer,
  reply_served, dispatch, handle, map_some,
}
use haskell_agent.Media.Helper.Reply.{operation_of-code, IsFit, serve_peer-IsFit}

-- What an operation means on the resource itself: its value, the bytes that it returns, and the
-- state that it leaves. `none`: the operation is not one of a peer.
module _ {D : Type 0} (dev : Device D) where
  abbrev pub silent : ℤ × D → Filled × D
  silent (r, d) = (record { value = r; stored = [] }, d)

  unfoldable pub local_peer : Operation → ℕ → List ℕ → D → Option (Filled × D)
  unfolding has_nul offered
  local_peer Operation.create argument input d =
      some (silent (dev.create_description (not (argument == 0)) d))
  local_peer Operation.set_description argument input d = some (
      if has_nul input
      then silent (negsuc 0, d)
      else silent (dev.set_description input (argument % 2 == 1) (argument / 2 % 2 == 1) d))
  local_peer Operation.operation argument input d = some (dev.operation media_limit d)
  local_peer Operation.local_description argument input d =
      some (dev.local_description media_limit d)
  local_peer Operation.peer_state argument input d = some (silent (dev.peer_state d))
  local_peer Operation.push argument input d = some (silent (dev.push input d))
  local_peer Operation.pull argument input d = some (dev.pull (offered argument) d)
  local_peer _ argument input d = none

  -- What the caller of a local operation sees.
  abbrev pub reported : Filled × D → ℤ × List ℕ × D
  reported (f, d) = (f.value, take (positive f.value) f.stored, d)

  -- What the client reads off a response, and the state behind it.
  abbrev pub observed : Helper D × (Message × List ℕ) → ℤ × List ℕ × D
  observed (h, (reply, out)) = (to_i32 reply.argument, out, h.device)

take-length-append : (xs ys : List ℕ) → take (length xs) (xs ++ ys) ≡ xs
take-length-append [] ys = refl
take-length-append (x ∷ xs) ys = ap (◌∷◌ x) (take-length-append xs ys)

take-append : (n : ℕ) (xs ys : List ℕ) → n ≤ length xs → take n (xs ++ ys) ≡ take n xs
take-append zero xs ys h = refl
take-append (suc n) [] ys h = absurd (omega arith)
take-append (suc n) (x ∷ xs) ys h = ap (◌∷◌ x) (take-append n xs ys (omega arith))

c_string-append : (xs ys : List ℕ) → has_nul xs ≡ false → c_string (xs ++ 0 ∷ [] ++ ys) ≡ xs
unfolding has_nul c_string
c_string-append [] ys h = refl
c_string-append (x ∷ xs) ys h = ground (arith, c_string-append xs ys)

-- The payload as the operations find it in the buffer.
pub stored_payload :
    (payload buffer : List ℕ)
    → take (length payload) (overwrite (payload ++ 0 ∷ []) buffer) ≡ payload
unfolding overwrite
stored_payload payload buffer = rw append_assoc (take-length-append payload _)

stored_string :
    (payload buffer : List ℕ)
    → has_nul payload ≡ false
    → c_string (overwrite (payload ++ 0 ∷ []) buffer) ≡ payload
unfolding overwrite
stored_string payload buffer h = c_string-append payload _ h

take-nil : (n : ℕ) → take {A = ℕ} n [] ≡ []
take-nil zero = refl
take-nil (suc n) = refl

observed-served :
    {D : Type 0} (dev : Device D) (m : Message) (h : Helper D) (s : Served D)
    → IsI32 s.result
    → s.length ≤ length s.stored
    → observed dev (reply_served m h s) ≡ (s.result, take s.length s.stored, s.after)
unfolding reply_served overwrite
observed-served dev m h s int backed =
    rw (to_i32-to_u32 s.result int, take-append s.length s.stored _ backed)

pub observed-plain :
    {D : Type 0} (dev : Device D) (m : Message) (h : Helper D) (c : ℤ × D)
    → IsI32 c.0
    → observed dev (reply_served m h (plain c)) ≡ reported dev (silent dev c)
unfolding plain
observed-plain dev m h (r, d) int =
    observed-served dev m h _ int (omega arith) ∙ rw (take-nil (positive r))

pub observed-filling :
    {D : Type 0} (dev : Device D) (op : Operation) (m : Message) (h : Helper D) (c : Filled × D)
    → IsFit op (filling c)
    → observed dev (reply_served m h (filling c)) ≡ reported dev c
unfolding filling
observed-filling dev op m h (f, d) fit = observed-served dev m h _ fit.int fit.backed

module _ {D : Type 0} (dev : Device D) (laws : Respects dev) where
  fills :
      (op : Operation) (argument : ℕ) (input : List ℕ) (h : Helper D) (c : Filled × D)
      → serve_peer dev (some op) (request_message op argument input) h.buffer h.device
        ≡ some (filling c)
      → ◌≡◌ {A = Option (ℤ × List ℕ × D)}
          (some (observed dev (reply_served (request_message op argument input) h (filling c))))
          (some (reported dev c))
  fills op argument input h c e = ap some (
      observed-filling dev op _ h c
        (serve_peer-IsFit dev laws op (request_message op argument input) h.buffer h.device e))

  -- The switch on a buffer that holds the input.
  serve_peer-local :
      (op : Operation) (argument : ℕ) (input : List ℕ) (h : Helper D)
      → take (length input) h.buffer ≡ input
      → (has_nul input ≡ false → c_string h.buffer ≡ input)
      → let m = request_message op argument input in
        map_some
          (observed dev)
          (map_some (reply_served m h) (serve_peer dev (some op) m h.buffer h.device))
        ≡ map_some (reported dev) (local_peer dev op argument input h.device)
  unfolding serve_peer local_peer
  serve_peer-local Operation.create argument input h front string =
      ap some (observed-plain dev _ h _ (laws.create_int _ _))
  serve_peer-local Operation.set_description argument input h front string =
      rw front (elim (Bool-cases (has_nul input)) [
        | inl nul ↦ rw nul (ap some (observed-plain dev _ h _ (omega arith)))
        | inr text ↦
            rw (text, string text) (ap some (observed-plain dev _ h _ (laws.set_int _ _ _ _)))
      ])
  serve_peer-local Operation.operation argument input h front string =
      fills Operation.operation argument input h _ refl
  serve_peer-local Operation.local_description argument input h front string =
      fills Operation.local_description argument input h _ refl
  serve_peer-local Operation.peer_state argument input h front string =
      ap some (observed-plain dev _ h _ (laws.peer_state_int _))
  serve_peer-local Operation.push argument input h front string =
      rw front (ap some (observed-plain dev _ h _ (laws.push_int _ _)))
  serve_peer-local Operation.pull argument input h front string =
      fills Operation.pull argument input h _ refl
  serve_peer-local _ argument input h front string = refl

  dispatch-local :
      (initialized peer audio : Bool) (op : Operation) (argument : ℕ) (input : List ℕ)
      (h : Helper D)
      → initialized ≡ true
      → peer ≡ true
      → take (length input) h.buffer ≡ input
      → (has_nul input ≡ false → c_string h.buffer ≡ input)
      → map_some
          (observed dev)
          (dispatch dev initialized peer audio (request_message op argument input) h)
        ≡ map_some (reported dev) (local_peer dev op argument input h.device)
  unfolding dispatch
  dispatch-local true true audio op argument input h i p front string =
      rw (operation_of-code op) (serve_peer-local op argument input h front string)
  dispatch-local false peer audio op argument input h i p front string = cc
  dispatch-local true false audio op argument input h i p front string = cc

  -- Remoting is transparent: for a helper that owns a peer which respects its buffers, the value
  -- and the bytes that the client reads off the response to an operation are those that the
  -- operation reports when it is applied to the input in place, the peer is left in the same
  -- state, and there is no response exactly if the operation is not one of a peer.
  pub handle-local :
      (op : Operation) (argument : ℕ) (input : List ℕ) (h : Helper D)
      → h.initialized ≡ true
      → h.peer ≡ true
      → map_some (observed dev) (handle dev (request_message op argument input) input h)
        ≡ map_some (reported dev) (local_peer dev op argument input h.device)
  unfolding handle
  handle-local op argument input h started owned =
      dispatch-local h.initialized h.peer h.audio op argument input _ started owned
        (stored_payload input h.buffer) (stored_string input h.buffer)
