-- ===== src/Media/Protocol.antt =====
-- helper-protocol.h of packages/agent-webrtc/cbits: the messages between the client library and
-- its media helper, and the loop that moves bytes over their socket.
pub mod Stream
use haskell_agent.Base.{
  ℕ, zero, suc, ◌+◌, ◌-◌, ◌*◌, ◌≡◌, refl, Bool, true, false, Option, none, some, List, [], ◌∷◌,
  ◌++◌, ◌==◌, if◌then◌else◌, length, drop, arith,
}
use haskell_agent.Base.Words.{IsU32, bytes_u32, read_u32, read_u32-bytes}

-- AGENT_MEDIA_LIMIT and AGENT_MEDIA_MAGIC
abbrev pub media_limit : ℕ
media_limit = 256 * 1024

abbrev pub media_magic : ℕ
media_magic = 0x414d4431

-- enum AgentMediaOperation
pub data Operation : Type 0 where
  open_peer open_capture open_playback : Operation
  create set_description operation local_description peer_state : Operation
  push pull audio_read audio_write audio_state : Operation

-- The enumerators' values.
abbrev pub code : Operation → ℕ
code open_peer = 1
code open_capture = 2
code open_playback = 3
code create = 4
code set_description = 5
code operation = 6
code local_description = 7
code peer_state = 8
code push = 9
code pull = 10
code audio_read = 11
code audio_write = 12
code audio_state = 13

pub record Message : Type 0 where
  pub magic : ℕ
  pub operation : ℕ
  pub argument : ℕ
  pub length : ℕ

-- sizeof (AgentMediaMessage)
abbrev pub message_size : ℕ
message_size = 16

-- The bytes of the structure, as `send` reads them.
unfoldable pub encode : Message → List ℕ
unfolding bytes_u32
encode m = bytes_u32 m.magic ++ bytes_u32 m.operation ++ bytes_u32 m.argument ++ bytes_u32 m.length

-- The structure that `recv` has filled, from exactly sixteen bytes.
unfoldable pub decode : List ℕ → Option Message
unfolding read_u32
decode (a ∷ b ∷ c ∷ d ∷ e ∷ f ∷ g ∷ h ∷ i ∷ j ∷ k ∷ l ∷ m ∷ n ∷ o ∷ p ∷ []) = some (record {
  magic = read_u32 a b c d;
  operation = read_u32 e f g h;
  argument = read_u32 i j k l;
  length = read_u32 m n o p;
})
decode _ = none

-- What one recv reports: the bytes that it put into the buffer (none at the end of the stream),
-- EINTR, or another error.
pub data Received : Type 0 where
  bytes : List ℕ → Received
  interrupted failed : Received

-- What one send reports: how many bytes went, EINTR, or another error.
pub data Sent : Type 0 where
  moved : ℕ → Sent
  interrupted failed : Sent

-- The kernel's side of one stream socket, over a state of the world.
pub record Socket (W : Type 0) : Type 0 where
  pub recv : ℕ → W → Received × W
  pub send : List ℕ → W → Sent × W

module _ {W : Type 0} where
  -- The rest of a round of media_transfer's loop once `recv` has reported; `again` is the loop.
  unfoldable pub after_recv :
      (ℕ → List ℕ → W → Option (Bool × List ℕ × W))
      → ℕ
      → List ℕ
      → Received × W
      → Option (Bool × List ℕ × W)
  after_recv again wanted filled (Received.bytes [], w) = some (false, filled, w)
  after_recv again wanted filled (Received.bytes (b ∷ bs), w) =
      again (wanted - length (b ∷ bs)) (filled ++ (b ∷ bs)) w
  after_recv again wanted filled (Received.interrupted, w) = again wanted filled w
  after_recv again wanted filled (Received.failed, w) = some (false, filled, w)

  -- The same once `send` has reported.
  unfoldable pub after_send :
      (List ℕ → W → Option (Bool × W)) → List ℕ → Sent × W → Option (Bool × W)
  after_send again pending (Sent.moved zero, w) = some (false, w)
  after_send again pending (Sent.moved (suc n), w) = again (drop (suc n) pending) w
  after_send again pending (Sent.interrupted, w) = again pending w
  after_send again pending (Sent.failed, w) = some (false, w)

module _ {W : Type 0} (s : Socket W) where
  -- media_transfer (fd, buffer, length, 0): its result, the bytes that the buffer then begins
  -- with, and the world. `none` means that the loop is still running when the fuel is spent.
  unfoldable pub media_receive : ℕ → ℕ → List ℕ → W → Option (Bool × List ℕ × W)
  unfolding after_recv
  media_receive zero wanted filled w = none
  media_receive (suc fuel) zero filled w = some (true, filled, w)
  media_receive (suc fuel) (suc wanted) filled w =
      after_recv (media_receive fuel) (suc wanted) filled (s.recv (suc wanted) w)

  -- media_transfer (fd, buffer, length, 1), over the bytes still to be sent.
  unfoldable pub media_send : ℕ → List ℕ → W → Option (Bool × W)
  unfolding after_send
  media_send zero pending w = none
  media_send (suc fuel) [] w = some (true, w)
  media_send (suc fuel) (b ∷ pending) w =
      after_send (media_send fuel) (b ∷ pending) (s.send (b ∷ pending) w)

-- A message of four 32-bit words comes back from its bytes.
pub decode-encode :
    (m : Message)
    → IsU32 m.magic
    → IsU32 m.operation
    → IsU32 m.argument
    → IsU32 m.length
    → decode (encode m) ≡ some m
unfolding encode decode
decode-encode m p q r t = ground (
  arith,
  read_u32-bytes m.magic p,
  read_u32-bytes m.operation q,
  read_u32-bytes m.argument r,
  read_u32-bytes m.length t,
)

pub length-encode : (m : Message) → length (encode m) ≡ message_size
unfolding encode
length-encode m = refl
