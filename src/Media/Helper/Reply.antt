-- ===== src/Media/Helper/Reply.antt =====
-- Every response of the helper is one that the client accepts, within the limits of the protocol.
use haskell_agent.Base.{
  ℕ, ◌≤◌, ◌≡◌, refl, inl, inr, Bool, true, false, some, List, length, take, arith, if◌then◌else◌,
  Bool-cases, of_some,
}
use mathlib.Core.Path.{subst}
use haskell_agent.Base.Int.{ℤ, pos, negsuc}
use haskell_agent.Base.Words.{IsI32, to_u32, to_i32-to_u32, to_u32-pos}
use haskell_agent.Media.Protocol.{Operation, code, Message, media_limit}
use haskell_agent.Media.Client.{returns_bytes, accepts}
use haskell_agent.Media.Device.{Device, Filled, Fits, Respects}
use haskell_agent.Media.Helper.{
  Served, operation_of, positive, plain, filling, offered, has_nul, serve_peer, serve_audio,
  response,
}

-- A number stands for an operation exactly if it is the operation's enumerator.
pub operation_of-code : (op : Operation) → operation_of (code op) ≡ some op
unfolding operation_of
operation_of-code Operation.open_peer = refl
operation_of-code Operation.open_capture = refl
operation_of-code _ = refl

-- What the switch leaves is fit to be sent: the length is that of the bytes that were stored, and
-- for an operation that returns bytes it is the positive part of the result.
pub record IsFit (op : Operation) {D : Type 0} (s : Served D) : Type 0 where
  pub int : IsI32 s.result
  pub counted : returns_bytes op ≡ true → s.length ≡ positive s.result
  pub backed : s.length ≤ length s.stored
  pub bounded : length s.stored ≤ media_limit

plain-IsFit :
    {D : Type 0} (op : Operation) (c : ℤ × D)
    → returns_bytes op ≡ false
    → IsI32 c.0
    → IsFit op (plain c)
unfolding plain
plain-IsFit op (r, d) no_bytes int = record {
  int = int;
  counted = λ e. cc;
  backed = omega arith;
  bounded = omega arith;
}

positive-le : (z : ℤ) (n : ℕ) → IsI32 z → ((k : ℕ) → z ≡ pos k → k ≡ n) → positive z ≤ n
unfolding positive
positive-le (pos k) n int h = omega (arith, h k refl)
positive-le (negsuc k) n int h = omega arith

filling-IsFit :
    {D : Type 0} (op : Operation) (capacity : ℕ) (c : Filled × D)
    → capacity ≤ media_limit
    → Fits capacity c.0
    → IsFit op (filling c)
unfolding filling
filling-IsFit op capacity (f, d) le (int, fits, counts) = record {
  int = int;
  counted = λ _. refl;
  backed = positive-le f.value (length f.stored) int counts;
  bounded = omega arith;
}

offered-le : (n : ℕ) → offered n ≤ media_limit
unfolding offered
offered-le n = ground arith

if-IsFit :
    {D : Type 0} {op : Operation} (b : Bool) (x y : Served D)
    → IsFit op x
    → IsFit op y
    → IsFit op (if b then x else y)
if-IsFit true x y p q = p
if-IsFit false x y p q = q

pub serve_peer-IsFit :
    {D : Type 0} (dev : Device D)
    → Respects dev
    → (op : Operation) (m : Message) (bytes : List ℕ) (d : D) {s : Served D}
    → serve_peer dev (some op) m bytes d ≡ some s
    → IsFit op s
unfolding serve_peer returns_bytes
serve_peer-IsFit dev laws Operation.create m bytes d e =
    subst (IsFit Operation.create) (of_some e)
      (plain-IsFit Operation.create _ refl (laws.create_int _ d))
serve_peer-IsFit dev laws Operation.set_description m bytes d e =
    subst (IsFit Operation.set_description) (of_some e) (
      if-IsFit (has_nul (take m.length bytes)) _ _
        (plain-IsFit Operation.set_description (negsuc 0, d) refl (omega arith))
        (plain-IsFit Operation.set_description _ refl (laws.set_int _ _ _ d)))
serve_peer-IsFit dev laws Operation.operation m bytes d e =
    subst (IsFit Operation.operation) (of_some e) (
      filling-IsFit Operation.operation media_limit _ (omega arith)
        (laws.operation_fits _ d (omega arith)))
serve_peer-IsFit dev laws Operation.local_description m bytes d e =
    subst (IsFit Operation.local_description) (of_some e) (
      filling-IsFit Operation.local_description media_limit _ (omega arith)
        (laws.local_fits _ d (omega arith)))
serve_peer-IsFit dev laws Operation.peer_state m bytes d e =
    subst (IsFit Operation.peer_state) (of_some e)
      (plain-IsFit Operation.peer_state _ refl (laws.peer_state_int d))
serve_peer-IsFit dev laws Operation.push m bytes d e =
    subst (IsFit Operation.push) (of_some e) (plain-IsFit Operation.push _ refl (laws.push_int _ d))
serve_peer-IsFit dev laws Operation.pull m bytes d e = subst (IsFit Operation.pull) (of_some e) (
    filling-IsFit Operation.pull (offered m.argument) _ (offered-le m.argument)
      (laws.pull_fits _ d (offered-le m.argument)))
serve_peer-IsFit dev laws _ m bytes d e = cc

pub serve_audio-IsFit :
    {D : Type 0} (dev : Device D)
    → Respects dev
    → (op : Operation) (m : Message) (bytes : List ℕ) (d : D) {s : Served D}
    → serve_audio dev (some op) m bytes d ≡ some s
    → IsFit op s
unfolding serve_audio returns_bytes
serve_audio-IsFit dev laws Operation.audio_read m bytes d e =
    subst (IsFit Operation.audio_read) (of_some e) (
      filling-IsFit Operation.audio_read (offered m.argument) _ (offered-le m.argument)
        (laws.audio_read_fits _ d (offered-le m.argument)))
serve_audio-IsFit dev laws Operation.audio_write m bytes d e =
    subst (IsFit Operation.audio_write) (of_some e)
      (plain-IsFit Operation.audio_write _ refl (laws.audio_write_int _ d))
serve_audio-IsFit dev laws Operation.audio_state m bytes d e =
    subst (IsFit Operation.audio_state) (of_some e)
      (plain-IsFit Operation.audio_state _ refl (laws.audio_state_int d))
serve_audio-IsFit dev laws _ m bytes d e = cc

-- A response that the client takes, whatever buffer of that size it offered.
pub record IsReply (m reply : Message) (out : List ℕ) : Type 0 where
  pub measured : length out ≡ reply.length
  pub bounded : reply.length ≤ media_limit
  pub acceptable :
      (op : Operation) (capacity : ℕ)
      → code op ≡ m.operation
      → reply.length ≤ capacity
      → accepts op capacity reply ≡ true

-- The conditions of the client on the fields that the helper fills in.
pub accepts-response :
    (op : Operation) (capacity : ℕ) (m : Message) (result : ℤ) (n : ℕ)
    → code op ≡ m.operation
    → n ≤ capacity
    → n ≤ media_limit
    → IsI32 result
    → (returns_bytes op ≡ true → n ≡ positive result)
    → accepts op capacity (response m result n) ≡ true
unfolding accepts positive
accepts-response op capacity m (pos k) n same le lim int counts =
    let u : to_u32 (pos k) ≡ k = to_u32-pos k int in
    rw (to_i32-to_u32 (pos k) int, u)
      (elim (Bool-cases (returns_bytes op)) [
        | inl r ↦ let exact : n ≡ to_u32 (pos k) = counts r in rw r (ground (arith, u))
        | inr r ↦ rw r (ground arith)
      ])
accepts-response op capacity m (negsuc k) n same le lim int counts =
    rw (to_i32-to_u32 (negsuc k) int) (elim (Bool-cases (returns_bytes op)) [
      | inl r ↦ let exact : n ≡ 0 = counts r in rw r (ground arith)
      | inr r ↦ rw r (ground arith)
    ])
