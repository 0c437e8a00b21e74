-- ===== src/Bridge/Computer/Exchange.antt =====
-- One call of the computer callback of HaskellAgentBridge.h (packages/agent-native-bridge/include):
-- its operations and capacities, and what ComputerBridge.hs (ffi/Agent/CLI/MacOS of the same
-- package) reads from its outputs; and the opening and closing of a session.
use haskell_agent.Base.{
  ℕ, Bool, true, false, not, ◌&&◌, Option, none, some, List, [], ◌∷◌, ltb, ◌==◌, if◌then◌else◌,
  length, take,
}
use haskell_agent.Base.Int.{ℤ, pos, eqb_ℤ}
use haskell_agent.Bridge.Buffers.{is_empty}

-- The enum of operations and its codes.
pub data Operation : Type 0 where
  open_session list_targets bind observe_or_act close open_attached capabilities : Operation

abbrev pub code : Operation → ℕ
code open_session = 1
code list_targets = 2
code bind = 3
code observe_or_act = 4
code close = 5
code open_attached = 6
code capabilities = 7

-- The enum of capacities.
abbrev pub request_max_bytes : ℕ
request_max_bytes = 1048576

abbrev pub result_capacity : ℕ
result_capacity = 1048576

abbrev pub error_capacity : ℕ
error_capacity = 65536

abbrev pub image_capacity : ℕ
image_capacity = 16777216

abbrev pub accessibility_capacity : ℕ
accessibility_capacity = 524288

-- HA_COMPUTER_IMAGE_NONE
abbrev pub image_none : ℤ
image_none = pos 0

-- An output channel when the callback returns: what the buffer holds, and the reported length.
pub record Channel : Type 0 where
  pub buffer : List ℕ
  pub reported : ℕ

pub record Answer : Type 0 where
  pub status : ℤ
  pub result : Channel
  pub accessibility : Channel
  pub image : Channel
  pub error : Channel
  pub session_token : ℕ
  pub image_format : ℤ

-- RawComputerResponse
pub record Response : Type 0 where
  pub result : List ℕ
  pub accessibility : List ℕ
  pub image : List ℕ
  pub session_token : ℕ
  pub image_format : ℤ

-- readOutput, where the buffer has the channel's capacity, or none is passed; `none` for `Left`.
unfoldable pub read_output : ℕ → Bool → Channel → Option (List ℕ)
read_output capacity has_buffer c =
    if ltb capacity c.reported
    then none
    else (if c.reported == 0
        then some []
        else (if not has_buffer then none else some (take c.reported c.buffer)))

-- The case of invokeComputerRaw.
unfoldable pub response_of :
    Answer → Option (List ℕ) → Option (List ℕ) → Option (List ℕ) → Option (List ℕ) → Option Response
response_of a (some result) (some accessibility) (some image) (some error) =
    if not (eqb_ℤ a.status (pos 0))
    then none
    else (if not (is_empty error)
        then none
        else some (record {
          result = result;
          accessibility = accessibility;
          image = image;
          session_token = a.session_token;
          image_format = a.image_format;
        }))
response_of a _ _ _ _ = none

-- invokeComputerRaw: `none` for a request that is too long to send, and for each `Left`.
unfoldable pub invoke : Bool → List ℕ → Answer → Option Response
invoke include_screenshot request a =
    if ltb request_max_bytes (length request)
    then none
    else response_of a (read_output result_capacity true a.result)
        (read_output accessibility_capacity true a.accessibility)
        (read_output (if include_screenshot then image_capacity else 0) include_screenshot a.image)
        (read_output error_capacity true a.error)

-- rawChannelsEmpty
unfoldable pub channels_empty : Response → Bool
channels_empty r =
    is_empty r.result
    && is_empty r.accessibility
    && is_empty r.image
    && eqb_ℤ r.image_format image_none

-- What a session does to the host: a call of the callback with a token, and the release of a
-- generation.
pub data Effect : Type 0 where
  calls : Operation → ℕ → Effect
  releases : ℕ → Effect

-- How the OPEN call ended: by an exception, or with what the host answered.
pub data Opened : Type 0 where
  throws : Opened
  answers : Answer → Opened

-- ComputerSession; ComputerSessionClosed is `none`.
pub record Session : Type 0 where
  pub generation : ℕ
  pub state : Option ℕ

-- The branches on a response. `interrupted`: an exception while the session is made.
unfoldable pub opened_with : Bool → ℕ → Response → List Effect × Option Session
opened_with interrupted g r =
    if r.session_token == 0
    then (releases g ∷ [], none)
    else (if not (channels_empty r)
        then (calls close r.session_token ∷ releases g ∷ [], none)
        else (if interrupted
            then (calls close r.session_token ∷ releases g ∷ [], none)
            else ([], some (record { generation = g; state = some r.session_token }))))

-- What follows invokeComputerRaw.
abbrev pub after_invoke : Bool → ℕ → Option Response → List Effect × Option Session
after_invoke interrupted g none = (releases g ∷ [], none)
after_invoke interrupted g (some r) = opened_with interrupted g r

unfoldable pub after_open : Bool → ℕ → Opened → List Effect × Option Session
after_open interrupted g throws = (releases g ∷ [], none)
after_open interrupted g (answers a) = after_invoke interrupted g (invoke false [] a)

-- openComputerSession, for the generation that acquireCurrentGeneration gave.
unfoldable pub open_computer_session : Bool → ℕ → Option ℕ → Opened → List Effect × Option Session
open_computer_session interrupted attachment none o = ([], none)
open_computer_session interrupted attachment (some g) o =
    let (effects, session) = after_open interrupted g o in
    (calls (if attachment == 0 then open_session else open_attached) attachment ∷ effects, session)

-- closeComputerSession
abbrev pub closed_by : ℕ → Option ℕ → List Effect
closed_by g none = []
closed_by g (some token) = calls close token ∷ releases g ∷ []

unfoldable pub close_computer_session : Session → List Effect × Session
close_computer_session s = (closed_by s.generation s.state, record s { state = none })
