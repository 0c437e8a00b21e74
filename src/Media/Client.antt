-- ===== src/Media/Client.antt =====
-- helper-client.c of packages/agent-webrtc/cbits: one request over the helper's socket.
pub mod Exchange
pub mod Request
use haskell_agent.Base.{
  ℕ, ◌≡◌, Bool, true, false, not, ◌&&◌, ◌||◌, Option, none, some, List, [], ltb, leb, ◌==◌,
  if◌then◌else◌, length,
}
use haskell_agent.Base.Int.{ℤ, pos, negsuc, ltb_ℤ, leb_ℤ}
use haskell_agent.Base.Words.{to_i32}
use haskell_agent.Media.Protocol.{
  Operation, code, Message, media_limit, media_magic, message_size, encode, decode, Socket,
}
use haskell_agent.Media.Io.{Io, pure, ◌>>=◌, ◌>>◌, require, require_some, read, write}

-- AgentMediaChild
pub record Child : Type 0 where
  pub fd : ℤ
  pub pid : ℤ

-- The operations whose replies carry bytes.
unfoldable pub returns_bytes : Operation → Bool
returns_bytes Operation.operation = true
returns_bytes Operation.local_description = true
returns_bytes Operation.pull = true
returns_bytes Operation.audio_read = true
returns_bytes _ = false

-- The conditions on a reply, in the source's order.
unfoldable pub accepts : Operation → ℕ → Message → Bool
unfolding returns_bytes
accepts op capacity reply =
    (reply.magic == media_magic)
    && (reply.operation == code op)
    && leb reply.length capacity
    && not (
        returns_bytes op
        && ltb_ℤ (pos 0) (to_i32 reply.argument)
        && not (reply.argument == reply.length))
    && not (returns_bytes op && leb_ℤ (to_i32 reply.argument) (pos 0) && not (reply.length == 0))

-- media_request's first condition.
unfoldable pub refuses : Child → List ℕ → ℕ → Bool
refuses child input capacity =
    ltb_ℤ child.fd (pos 0) || ltb media_limit (length input) || ltb media_limit capacity

abbrev pub request_message : Operation → ℕ → List ℕ → Message
request_message op argument input = record {
  magic = media_magic;
  operation = code op;
  argument = argument;
  length = length input;
}

module _ {W : Type 0} (s : Socket W) where
  -- The long condition of media_request: the request and its input go out, a reply comes back.
  unfoldable pub exchange : ℕ → Operation → ℕ → List ℕ → ℕ → Io W (Message × List ℕ)
  unfolding accepts
  exchange fuel op argument input capacity = do
    write s fuel (encode (request_message op argument input))
    write s fuel input
    header ← read s fuel message_size
    reply ← require_some (decode header)
    require (accepts op capacity reply)
    output ← read s fuel reply.length
    pure (reply, output)

module _ {W : Type 0} (s : Socket W) (close : W → W) where
  -- How media_request ends: its value, the bytes in `output` that the value stands for, and the
  -- child. What a broken exchange has left in `output` stands for nothing.
  unfoldable pub after_exchange :
      Child → Option (Option (Message × List ℕ) × W) → Option (ℤ × List ℕ × Child × W)
  after_exchange child none = none
  after_exchange child (some (none, w)) =
      some (negsuc 0, [], record child { fd = negsuc 0 }, close w)
  after_exchange child (some (some (reply, output), w)) =
      some (to_i32 reply.argument, output, child, w)

  unfoldable pub media_request :
      ℕ → Child → Operation → ℕ → List ℕ → ℕ → W → Option (ℤ × List ℕ × Child × W)
  unfolding exchange after_exchange
  media_request fuel child op argument input capacity w =
      if refuses child input capacity
      then some (negsuc 0, [], child, w)
      else after_exchange child (exchange s fuel op argument input capacity w)
