-- ===== src/Tests/Transfer.antt =====
-- Runs of the theorems on transfers, requests and the helper's loop over a concrete socket.
use haskell_agent.Base.{
  ℕ, ◌≡◌, ◌≢◌, ◌≤◌, refl, true, none, some, List, [], ◌∷◌, ◌++◌, arith, length,
}
use haskell_agent.Base.Int.{pos}
use haskell_agent.Media.Protocol.{
  Operation, Message, media_magic, encode, decode, media_receive, media_send,
}
use haskell_agent.Media.Protocol.Stream.{Filled, media_receive-Filled}
use haskell_agent.Media.Client.{Child, refuses, media_request, returns_bytes}
use haskell_agent.Media.Io.{read, write}
use haskell_agent.Base.Words.{to_i32}
use haskell_agent.Media.Client.Request.{
  Ends, media_request-Ends, media_request-returns, media_request-bytes,
}
use haskell_agent.Tests.Wire.{Wire, wire_socket, wire_stream}

-- Two signals interrupt, and five bytes wait.
abbrev wire : Wire
wire = record { inbox = 1 ∷ 2 ∷ 3 ∷ 4 ∷ 5 ∷ []; outbox = []; signals = 2 }

media_receive-Filled_example :
    Filled wire_socket wire_stream wire 3
      (9 ∷ [])
      (9 ∷ 1 ∷ 2 ∷ 3 ∷ [])
      (record { inbox = 4 ∷ 5 ∷ []; outbox = []; signals = 0 })
unfolding media_receive
media_receive-Filled_example =
    media_receive-Filled wire_socket wire_stream 6 3 (9 ∷ []) (9 ∷ 1 ∷ 2 ∷ 3 ∷ []) wire
      (record { inbox = 4 ∷ 5 ∷ []; outbox = []; signals = 0 }) refl

-- The reply to a request for audio: two bytes.
abbrev reply : Message
reply = record { magic = media_magic; operation = 11; argument = 2; length = 2 }

abbrev child : Child
child = record { fd = pos 5; pid = pos 77 }

abbrev answering : Wire
answering = record { inbox = encode reply ++ 40 ∷ 41 ∷ []; outbox = []; signals = 1 }

abbrev sound : List ℕ
sound = 40 ∷ 41 ∷ []

abbrev kept : Wire → Wire
kept w = w

abbrev request_bytes : List ℕ
request_bytes = encode (record { magic = media_magic; operation = 11; argument = 480; length = 0 })

abbrev answered : Wire
answered = record { inbox = []; outbox = [] ++ request_bytes; signals = 0 }

goes_through :
    media_request wire_socket kept 40 child Operation.audio_read 480 [] 480 answering
    ≡ some (pos 2, 40 ∷ 41 ∷ [], child, answered)
unfolding media_request encode decode refuses write media_send read media_receive to_i32
goes_through = refl

media_request-Ends_example :
    Ends wire_socket wire_stream kept child Operation.audio_read 480 [] 480 answering
      (pos 2)
      (40 ∷ 41 ∷ [])
      child
      answered
media_request-Ends_example =
    media_request-Ends wire_socket wire_stream kept 40 child Operation.audio_read 480 [] 480
      answering goes_through

is_bytes : returns_bytes Operation.audio_read ≡ true
unfolding returns_bytes
is_bytes = refl

media_request-bytes_example : (pos 2 ≡ pos (length sound)) × (length sound ≤ 480) × (child ≡ child)
media_request-bytes_example =
    media_request-bytes wire_socket wire_stream kept 40 child Operation.audio_read 480 [] 480
      answering is_bytes goes_through (omega arith)

media_request-returns_example :
    media_request wire_socket kept 300000 child Operation.audio_read 480 [] 480 answering ≢ none
media_request-returns_example =
    media_request-returns wire_socket wire_stream kept 300000 child Operation.audio_read 480 [] 480
      answering (omega arith)
