-- ===== src/Media/Helper/Handle.antt =====
-- One request of the helper, from the bytes that were read to the response: what holds of the
-- helper's variables, and of every response.
use mathlib.Core.Path.{subst}
use haskell_agent.Base.{
  ℕ, ◌+◌, ◌≤◌, ◌≡◌, refl, sym, ap, ◌∙◌, inl, inr, Bool, true, false, ◌&&◌, Option, none, some, List,
  [], ◌∷◌, ◌++◌, ◌==◌, length, take, drop, arith, Bool-cases, of_some, length-append, length-drop,
  length-take,
}
use haskell_agent.Base.Int.{pos, negsuc}
use haskell_agent.Base.Words.{IsI32, to_u32-pos}
use haskell_agent.Media.Protocol.{Operation, code, Message, media_limit}
use haskell_agent.Media.Client.{returns_bytes}
use haskell_agent.Media.Device.{Device, Respects}
use haskell_agent.Media.Helper.{
  Helper, Served, operation_of, positive, plain, overwrite, serve_peer, serve_audio, opened_status,
  opened_peer, opened_audio, open_resource, reply_opened, reply_served, dispatch, handle, map_some,
  response, owns,
}
use haskell_agent.Media.Helper.Reply.{
  IsReply, IsFit, operation_of-code, serve_peer-IsFit, serve_audio-IsFit, accepts-response,
}

-- One resource at most, none before the first request, and a buffer of its full size.
pub record IsHeld {D : Type 0} (h : Helper D) : Type 0 where
  pub single : h.peer && h.audio ≡ false
  pub fresh : h.initialized ≡ false → owns h ≡ false
  pub sized : length h.buffer ≡ media_limit + 1

length-overwrite :
    (bs buffer : List ℕ) → length bs ≤ length buffer → length (overwrite bs buffer) ≡ length buffer
unfolding overwrite
length-overwrite bs buffer h =
    omega (arith, length-append bs (drop (length bs) buffer), length-drop (length bs) buffer)

-- The front of a buffer after a store has at least the stored bytes.
length-take-overwrite :
    (n : ℕ) (bs buffer : List ℕ) → n ≤ length bs → length (take n (overwrite bs buffer)) ≡ n
unfolding overwrite
length-take-overwrite n bs buffer h = omega (
  arith,
  length-take n (bs ++ drop (length bs) buffer),
  length-append bs (drop (length bs) buffer),
)

-- The number of the request names this case of the switch, if it names any.
abbrev Names : Message → Option Operation → Type 0
Names m o = (op : Operation) → code op ≡ m.operation → o ≡ some op

Names-operation_of : (m : Message) → Names m (operation_of m.operation)
Names-operation_of m op e = ap operation_of (sym e) ∙ operation_of-code op

opened_status-IsI32 : (b : Bool) → IsI32 (opened_status b)
opened_status-IsI32 true = omega arith
opened_status-IsI32 false = omega arith

opened-IsReply : (m : Message) (b : Bool) → IsReply m (response m (opened_status b) 0) []
unfolding positive
opened-IsReply m true = record {
  measured = refl;
  bounded = omega arith;
  acceptable = λ op capacity e le.
      accepts-response op capacity m (pos 0) 0 e le (omega arith) (omega arith)
        (λ _. sym (to_u32-pos 0 (omega arith)));
}
opened-IsReply m false = record {
  measured = refl;
  bounded = omega arith;
  acceptable = λ op capacity e le.
      accepts-response op capacity m (negsuc 0) 0 e le (omega arith) (omega arith) (λ _. refl);
}

opened_peer-IsHeld :
    {D : Type 0} (h : Helper D) (found : Bool × D)
    → IsHeld h
    → h.initialized ≡ false
    → IsHeld (opened_peer h found).0
unfolding opened_peer
opened_peer-IsHeld h found held start = record {
  single = ground (arith, held.fresh start);
  fresh = λ f. cc;
  sized = held.sized;
}

opened_audio-IsHeld :
    {D : Type 0} (h : Helper D) (found : Bool × D)
    → IsHeld h
    → h.initialized ≡ false
    → IsHeld (opened_audio h found).0
unfolding opened_audio
opened_audio-IsHeld h found held start = record {
  single = ground (arith, held.fresh start);
  fresh = λ f. cc;
  sized = held.sized;
}

served-IsHeld :
    {D : Type 0} (m : Message) (h : Helper D) (s : Served D)
    → IsHeld h
    → length s.stored ≤ media_limit + 1
    → IsHeld (reply_served m h s).0
unfolding reply_served
served-IsHeld m h s held le = record {
  single = held.single;
  fresh = held.fresh;
  sized = length-overwrite s.stored h.buffer (omega (arith, held.sized)) ∙ held.sized;
}

served-IsReply :
    {D : Type 0} (m : Message) (h : Helper D) (s : Served D)
    → length s.stored ≤ media_limit
    → s.length ≤ length s.stored
    → IsI32 s.result
    → ((op : Operation)
        → code op ≡ m.operation
        → returns_bytes op ≡ true
        → s.length ≡ positive s.result)
    → IsReply m (reply_served m h s).1.0 (reply_served m h s).1.1
unfolding reply_served
served-IsReply m h s small backed int counts = record {
  measured = length-take-overwrite s.length s.stored h.buffer backed;
  bounded = omega arith;
  acceptable = λ op capacity e le.
      accepts-response op capacity m s.result s.length e le (omega arith) int (counts op e);
}

module _ {D : Type 0} (dev : Device D) (laws : Respects dev) where
  -- What a request leaves: the helper's variables are well formed, and the response is one that
  -- the client takes.
  abbrev pub Handles : Message → Helper D × (Message × List ℕ) → Type 0
  Handles m next = IsHeld next.0 × IsReply m next.1.0 next.1.1

  idle_reply :
      (m : Message) (h : Helper D)
      → IsHeld h
      → Handles m (reply_served m h (plain (negsuc 0, h.device)))
  unfolding plain positive
  idle_reply m h held = (
    served-IsHeld m h _ held (omega arith),
    served-IsReply m h _ (omega arith) (omega arith) (omega arith) λ op e r. refl,
  )

  stored-IsHeld :
      (payload : List ℕ) (h : Helper D)
      → IsHeld h
      → length payload ≤ media_limit
      → IsHeld (record h { buffer = overwrite (payload ++ 0 ∷ []) h.buffer })
  stored-IsHeld payload h held le = record {
    single = held.single;
    fresh = held.fresh;
    sized =
        length-overwrite (payload ++ 0 ∷ []) h.buffer
          (omega (arith, held.sized, length-append payload (0 ∷ [])))
        ∙ held.sized;
  }

  open_resource-Handles :
      (m : Message) (h : Helper D) (o : Option Operation) {next : Helper D × (Message × List ℕ)}
      → IsHeld h
      → h.initialized ≡ false
      → map_some (reply_opened m) (open_resource dev o h) ≡ some next
      → Handles m next
  unfolding open_resource reply_opened
  open_resource-Handles m h (some Operation.open_peer) held fresh e =
      subst (Handles m) (of_some e) (opened_peer-IsHeld h _ held fresh, opened-IsReply m _)
  open_resource-Handles m h (some Operation.open_capture) held fresh e =
      subst (Handles m) (of_some e) (opened_audio-IsHeld h _ held fresh, opened-IsReply m _)
  open_resource-Handles m h (some Operation.open_playback) held fresh e =
      subst (Handles m) (of_some e) (opened_audio-IsHeld h _ held fresh, opened-IsReply m _)
  open_resource-Handles m h _ held fresh e = cc

  served-Handles :
      (m : Message) (h : Helper D) (op : Operation) (s : Served D)
      → IsHeld h
      → Names m (some op)
      → IsFit op s
      → Handles m (reply_served m h s)
  served-Handles m h op s held names fit = (
    served-IsHeld m h s held (omega (arith, fit.bounded)),
    served-IsReply m h s fit.bounded fit.backed fit.int
        λ op' e r. fit.counted (rw (of_some (names op' e)) r),
  )

  serve_peer-Handles :
      (m : Message) (bytes : List ℕ) (h : Helper D) (o : Option Operation) (p : Option (Served D))
      {next : Helper D × (Message × List ℕ)}
      → IsHeld h
      → Names m o
      → serve_peer dev o m bytes h.device ≡ p
      → map_some (reply_served m h) p ≡ some next
      → Handles m next
  unfolding serve_peer
  serve_peer-Handles m bytes h o none held names q e = cc
  serve_peer-Handles m bytes h none (some s) held names q e = cc
  serve_peer-Handles m bytes h (some op) (some s) held names q e =
      subst (Handles m) (of_some e)
        (served-Handles m h op s held names (serve_peer-IsFit dev laws op m bytes h.device q))

  serve_audio-Handles :
      (m : Message) (bytes : List ℕ) (h : Helper D) (o : Option Operation) (p : Option (Served D))
      {next : Helper D × (Message × List ℕ)}
      → IsHeld h
      → Names m o
      → serve_audio dev o m bytes h.device ≡ p
      → map_some (reply_served m h) p ≡ some next
      → Handles m next
  unfolding serve_audio
  serve_audio-Handles m bytes h o none held names q e = cc
  serve_audio-Handles m bytes h none (some s) held names q e = cc
  serve_audio-Handles m bytes h (some op) (some s) held names q e =
      subst (Handles m) (of_some e)
        (served-Handles m h op s held names (serve_audio-IsFit dev laws op m bytes h.device q))

  dispatch-Handles :
      (initialized peer audio : Bool) (m : Message) (h : Helper D)
      {next : Helper D × (Message × List ℕ)}
      → IsHeld h
      → h.initialized ≡ initialized
      → dispatch dev initialized peer audio m h ≡ some next
      → Handles m next
  unfolding dispatch
  dispatch-Handles false peer audio m h held start e = elim (Bool-cases (m.length == 0)) [
    | inl empty ↦
        open_resource-Handles m h (operation_of m.operation) held start (rw (empty, dispatch) at e)
    | inr more ↦ let impossible = rw (more, dispatch) at e in cc
  ]
  dispatch-Handles true true audio m h held start e =
      serve_peer-Handles m h.buffer h _ _ held (Names-operation_of m) refl e
  dispatch-Handles true false true m h held start e =
      serve_audio-Handles m h.buffer h _ _ held (Names-operation_of m) refl e
  dispatch-Handles true false false m h held start e =
      subst (Handles m) (of_some e) (idle_reply m h held)

  -- Over a resource that respects its buffers, and from variables that are sound: every request
  -- within the limit that gets a response leaves the variables sound, with at most one resource
  -- and a whole buffer, and a response of the announced length that the client accepts.
  pub handle-Handles :
      (m : Message) (payload : List ℕ) (h : Helper D) {next : Helper D × (Message × List ℕ)}
      → IsHeld h
      → length payload ≤ media_limit
      → handle dev m payload h ≡ some next
      → Handles m next
  unfolding handle
  handle-Handles m payload h held le e =
      dispatch-Handles h.initialized h.peer h.audio m _ (stored-IsHeld payload h held le) refl e
