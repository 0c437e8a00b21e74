-- ===== src/Media/Helper.antt =====
-- helper.c of packages/agent-webrtc/cbits: the loop of a helper process, which owns one resource.
pub mod Reply
pub mod Handle
pub mod Lifetime
use haskell_agent.Base.{
  ℕ, zero, suc, ◌+◌, ◌/◌, ◌%◌, ◌≡◌, Bool, true, false, not, ◌&&◌, ◌||◌, Option, none, some, List,
  [], ◌∷◌, ◌++◌, ltb, leb, ◌==◌, if◌then◌else◌, length, take, drop,
}
use haskell_agent.Base.Int.{ℤ, pos, negsuc}
use haskell_agent.Base.Words.{to_u32}
use haskell_agent.Media.Protocol.{
  Operation, Message, media_limit, media_magic, message_size, encode, decode, Socket,
}
use haskell_agent.Media.Io.{Io, pure, stop, ◌>>=◌, ◌>>◌, require, require_some, read, write}
use haskell_agent.Media.Device.{Device, Filled}

-- The enumerator that a `switch` finds for an operation's number; `none` is the default case.
unfoldable pub operation_of : ℕ → Option Operation
operation_of n =
    if n == 1
    then some Operation.open_peer
    else if n == 2
    then some Operation.open_capture
    else if n == 3
    then some Operation.open_playback
    else if n == 4
    then some Operation.create
    else if n == 5
    then some Operation.set_description
    else if n == 6
    then some Operation.operation
    else if n == 7
    then some Operation.local_description
    else if n == 8
    then some Operation.peer_state
    else if n == 9
    then some Operation.push
    else if n == 10
    then some Operation.pull
    else if n == 11
    then some Operation.audio_read
    else if n == 12
    then some Operation.audio_write
    else if n == 13
    then some Operation.audio_state
    else none

-- main's variables: whether `peer` and `audio` are set, the resource, and the `bytes` buffer.
pub record Helper (D : Type 0) : Type 0 where
  pub initialized : Bool
  pub peer : Bool
  pub audio : Bool
  pub device : D
  pub buffer : List ℕ

-- Bytes stored at the front of a buffer.
unfoldable pub overwrite : List ℕ → List ℕ → List ℕ
overwrite bs buffer = bs ++ drop (length bs) buffer

-- memchr (bytes, 0, n) != NULL, over the n bytes.
unfoldable pub has_nul : List ℕ → Bool
has_nul [] = false
has_nul (b ∷ bs) = b == 0 || has_nul bs

-- The C string that begins at a buffer.
unfoldable pub c_string : List ℕ → List ℕ
c_string [] = []
c_string (b ∷ bs) = if b == 0 then [] else b ∷ c_string bs

-- What the `switch` statements leave: `result`, `length` and the bytes stored into the buffer.
pub record Served (D : Type 0) : Type 0 where
  pub result : ℤ
  pub length : ℕ
  pub stored : List ℕ
  pub after : D

-- `if (result > 0) length = (uint32_t)result;`, from a length of 0.
unfoldable pub positive : ℤ → ℕ
unfolding to_u32
positive (pos n) = to_u32 (pos n)
positive (negsuc n) = 0

abbrev pub opened_status : Bool → ℤ
opened_status true = pos 0
opened_status false = negsuc 0

abbrev pub response : Message → ℤ → ℕ → Message
response m result n = record {
  magic = media_magic;
  operation = m.operation;
  argument = to_u32 result;
  length = n;
}

abbrev pub map_some : {A B : Type 0} → (A → B) → Option A → Option B
map_some f none = none
map_some f (some a) = some (f a)

module _ {D : Type 0} where
  -- Whether the loop goes on after a response: `if (!peer && !audio) break;`
  abbrev pub owns : Helper D → Bool
  owns h = h.peer || h.audio

  -- A call with no output.
  unfoldable pub plain : ℤ × D → Served D
  plain (r, d) = record { result = r; length = 0; stored = []; after = d }

  unfoldable pub filling : Filled × D → Served D
  unfolding positive
  filling (f, d) = record {
    result = f.value;
    length = positive f.value;
    stored = f.stored;
    after = d;
  }

module _ {D : Type 0} where
  -- The first request: it opens the resource.
  unfoldable pub opened_peer : Helper D → Bool × D → Helper D × ℤ
  opened_peer h (found, d) =
      (record h { initialized = true; peer = found; device = d }, opened_status found)

  unfoldable pub opened_audio : Helper D → Bool × D → Helper D × ℤ
  opened_audio h (found, d) =
      (record h { initialized = true; audio = found; device = d }, opened_status found)

  unfoldable pub reply_opened : Message → Helper D × ℤ → Helper D × (Message × List ℕ)
  reply_opened m (h, result) = (h, (response m result 0, []))

  unfoldable pub reply_served : Message → Helper D → Served D → Helper D × (Message × List ℕ)
  unfolding overwrite
  reply_served m h s =
      let buffer = overwrite s.stored h.buffer in
      (
        record h { device = s.after; buffer = buffer },
        (response m s.result s.length, take s.length buffer),
      )

-- `argument <= AGENT_MEDIA_LIMIT ? argument : 0`
unfoldable pub offered : ℕ → ℕ
offered argument = if leb argument media_limit then argument else 0

module _ {D : Type 0} (dev : Device D) where
  -- The switch for a helper that owns a peer; `none` is `goto done`.
  unfoldable pub serve_peer : Option Operation → Message → List ℕ → D → Option (Served D)
  unfolding plain filling offered has_nul c_string
  serve_peer (some Operation.create) m bytes d =
      some (plain (dev.create_description (not (m.argument == 0)) d))
  serve_peer (some Operation.set_description) m bytes d = some (
      if has_nul (take m.length bytes)
      then plain (negsuc 0, d)
      else plain
          (dev.set_description (c_string bytes) (m.argument % 2 == 1) (m.argument / 2 % 2 == 1) d))
  serve_peer (some Operation.operation) m bytes d = some (filling (dev.operation media_limit d))
  serve_peer (some Operation.local_description) m bytes d =
      some (filling (dev.local_description media_limit d))
  serve_peer (some Operation.peer_state) m bytes d = some (plain (dev.peer_state d))
  serve_peer (some Operation.push) m bytes d = some (plain (dev.push (take m.length bytes) d))
  serve_peer (some Operation.pull) m bytes d = some (filling (dev.pull (offered m.argument) d))
  serve_peer _ m bytes d = none

  unfoldable pub serve_audio : Option Operation → Message → List ℕ → D → Option (Served D)
  unfolding plain filling offered
  serve_audio (some Operation.audio_read) m bytes d =
      some (filling (dev.audio_read (offered m.argument) d))
  serve_audio (some Operation.audio_write) m bytes d =
      some (plain (dev.audio_write (take m.length bytes) d))
  serve_audio (some Operation.audio_state) m bytes d = some (plain (dev.audio_state d))
  serve_audio _ m bytes d = none

  unfoldable pub open_resource : Option Operation → Helper D → Option (Helper D × ℤ)
  unfolding opened_peer opened_audio
  open_resource (some Operation.open_peer) h = some (opened_peer h (dev.peer_new h.device))
  open_resource (some Operation.open_capture) h =
      some (opened_audio h (dev.audio_new true h.device))
  open_resource (some Operation.open_playback) h =
      some (opened_audio h (dev.audio_new false h.device))
  open_resource _ h = none

  -- The branches on `initialized`, `peer` and `audio`; `none` leaves the loop with no response.
  unfoldable pub dispatch :
      Bool → Bool → Bool → Message → Helper D → Option (Helper D × (Message × List ℕ))
  unfolding operation_of open_resource reply_opened reply_served serve_peer serve_audio
  dispatch false peer audio m h =
      if m.length == 0
      then map_some (reply_opened m) (open_resource (operation_of m.operation) h)
      else none
  dispatch true true audio m h =
      map_some (reply_served m h) (serve_peer (operation_of m.operation) m h.buffer h.device)
  dispatch true false true m h =
      map_some (reply_served m h) (serve_audio (operation_of m.operation) m h.buffer h.device)
  dispatch true false false m h = some (reply_served m h (plain (negsuc 0, h.device)))

  -- From a whole request to its response: the payload stands in the buffer, with a NUL behind it.
  unfoldable pub handle : Message → List ℕ → Helper D → Option (Helper D × (Message × List ℕ))
  unfolding overwrite dispatch
  handle m payload h =
      dispatch h.initialized h.peer h.audio m
        (record h { buffer = overwrite (payload ++ 0 ∷ []) h.buffer })

  -- After the loop.
  unfoldable pub release : Helper D → D
  release h =
      let d = if h.peer then dev.peer_free h.device else h.device in
      if h.audio then dev.audio_free d else d

module _ {W : Type 0} (s : Socket W) where
  -- The head of the loop: a whole request, within the limit.
  unfoldable pub take_request : ℕ → Io W (Message × List ℕ)
  take_request fuel = do
    header ← read s fuel message_size
    request ← require_some (decode header)
    require (request.magic == media_magic && leb request.length media_limit)
    payload ← read s fuel request.length
    pure (request, payload)

  unfoldable pub send_reply : ℕ → Message × List ℕ → Io W (Unit {0})
  send_reply fuel (response, out) = do
    require (leb response.length media_limit)
    write s fuel (encode response)
    write s fuel out

module _ {W D : Type 0} (s : Socket W) (dev : Device D) where
  -- The resource's last state and the world when the process exits.
  abbrev pub Exit : Type 0
  Exit = Option (D × W)

  unfoldable pub after_reply :
      (Helper D → W → Exit) → Helper D → Option (Option (Unit {0}) × W) → Exit
  after_reply again h none = none
  after_reply again h (some (none, w)) = some (release dev h, w)
  after_reply again h (some (some _, w)) = elim (owns h) [
    | true ↦ again h w
    | false ↦ some (release dev h, w)
  ]

  unfoldable pub respond :
      (Helper D → W → Exit) → ℕ → Helper D → Option (Helper D × (Message × List ℕ)) → W → Exit
  unfolding after_reply send_reply
  respond again fuel h none w = some (release dev h, w)
  respond again fuel h (some (h', reply)) w = after_reply again h' (send_reply s fuel reply w)

  unfoldable pub after_request :
      (Helper D → W → Exit) → ℕ → Helper D → Option (Option (Message × List ℕ) × W) → Exit
  unfolding respond handle
  after_request again fuel h none = none
  after_request again fuel h (some (none, w)) = some (release dev h, w)
  after_request again fuel h (some (some (request, payload), w)) =
      respond again fuel h (handle dev request payload h) w

  -- The loop, for `rounds` requests at most; `fuel` serves each of their transfers.
  unfoldable pub serve : ℕ → ℕ → Helper D → W → Exit
  unfolding after_request take_request
  serve zero fuel h w = none
  serve (suc rounds) fuel h w = after_request (serve rounds fuel) fuel h (take_request s fuel w)

  -- main, once the descriptor is set up and the buffer allocated.
  unfoldable pub helper_main : ℕ → ℕ → D → List ℕ → W → Exit
  unfolding serve
  helper_main rounds fuel d buffer w =
      serve rounds fuel
        (record { initialized = false; peer = false; audio = false; device = d; buffer = buffer }) w
