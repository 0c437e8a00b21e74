-- ===== src/Media/Device.antt =====
-- The resources behind the helper, as peer.h and audio.h of packages/agent-webrtc/cbits declare
-- them: the helper calls these operations, and peer.c and audio.c implement them.
use haskell_agent.Base.{ℕ, ◌≤◌, ◌≡◌, ◌⊎◌, Bool, List, length}
use haskell_agent.Base.Int.{ℤ, pos}
use haskell_agent.Base.Words.{IsI32}
use haskell_agent.Media.Protocol.{media_limit}

-- What a call that fills a buffer reports: its value and the bytes that it stored there.
pub record Filled : Type 0 where
  pub value : ℤ
  pub stored : List ℕ

-- Over the state `D` of the one resource that a helper holds.
pub record Device (D : Type 0) : Type 0 where
  pub peer_new : D → Bool × D
  pub audio_new : Bool → D → Bool × D
  pub peer_free : D → D
  pub audio_free : D → D
  pub create_description : Bool → D → ℤ × D
  pub set_description : List ℕ → Bool → Bool → D → ℤ × D
  pub operation : ℕ → D → Filled × D
  pub local_description : ℕ → D → Filled × D
  pub peer_state : D → ℤ × D
  pub push : List ℕ → D → ℤ × D
  pub pull : ℕ → D → Filled × D
  pub audio_read : ℕ → D → Filled × D
  pub audio_write : List ℕ → D → ℤ × D
  pub audio_state : D → ℤ × D

-- A buffer of `capacity` bytes was respected: a value that is not negative is the number of the
-- bytes that were stored from its front.
abbrev pub Fits : ℕ → Filled → Type 0
Fits capacity f =
    IsI32 f.value × (length f.stored ≤ capacity) × ((n : ℕ) → f.value ≡ pos n → n ≡ length f.stored)

-- What the helper relies on, for buffers within the protocol's limit.
pub record Respects {D : Type 0} (dev : Device D) : Type 0 where
  pub operation_fits :
      (capacity : ℕ) (d : D) → capacity ≤ media_limit → Fits capacity (dev.operation capacity d).0
  pub local_fits :
      (capacity : ℕ) (d : D)
      → capacity ≤ media_limit
      → Fits capacity (dev.local_description capacity d).0
  pub pull_fits :
      (capacity : ℕ) (d : D) → capacity ≤ media_limit → Fits capacity (dev.pull capacity d).0
  pub audio_read_fits :
      (capacity : ℕ) (d : D) → capacity ≤ media_limit → Fits capacity (dev.audio_read capacity d).0
  pub create_int : (offer : Bool) (d : D) → IsI32 (dev.create_description offer d).0
  pub set_int :
      (sdp : List ℕ) (offer local : Bool) (d : D) → IsI32 (dev.set_description sdp offer local d).0
  pub peer_state_int : (d : D) → IsI32 (dev.peer_state d).0
  pub push_int : (pcm : List ℕ) (d : D) → IsI32 (dev.push pcm d).0
  pub push_bit :
      (pcm : List ℕ) (d : D) → ((dev.push pcm d).0 ≡ pos 0) ⊎ ((dev.push pcm d).0 ≡ pos 1)
  pub audio_write_int : (pcm : List ℕ) (d : D) → IsI32 (dev.audio_write pcm d).0
  pub audio_state_int : (d : D) → IsI32 (dev.audio_state d).0
