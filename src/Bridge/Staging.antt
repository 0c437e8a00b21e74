-- ===== src/Bridge/Staging.antt =====
-- What a host stages for a turn before it starts: ha_engine_stage_turn_images, _options and
-- _context and ha_engine_discard_turn_staging of HaskellAgentBridge.h
-- (packages/agent-native-bridge/include), as EngineStaging.hs and TurnState.hs (ffi/Agent/CLI/MacOS
-- of the same package) implement them. A text is the list of its UTF-8 bytes; `throws` tells
-- whether an exception ends the body that tryAny runs.
pub mod Operations
pub mod Invariant
pub mod Preservation
pub mod Context
pub mod Calls
use haskell_agent.Base.{
  ℕ, zero, suc, ◌+◌, ◌-◌, ◌^◌, Bool, true, false, not, ◌&&◌, ◌||◌, Option, none, some, List, [],
  ◌∷◌, ltb, leb, ◌==◌, if◌then◌else◌, length,
}
use haskell_agent.Base.Int.{ℤ, pos, eqb_ℤ}
use haskell_agent.Bridge.Buffers.{Buffer, contents, size, is_null, is_empty}

abbrev pub Text : Type 0
Text = List ℕ

-- The codes of HA_INTERACTION_MODE and HA_SHELL_MODE, and the modes of the runtime.
pub data InteractionMode : Type 0 where
  ask plan yolo : InteractionMode

pub data ShellMode : Type 0 where
  no_shell bash ghci both_shells : ShellMode

-- interactionModeFromCode
unfoldable pub interaction_mode_from_code : ℤ → Option InteractionMode
interaction_mode_from_code n =
    if eqb_ℤ n (pos 0)
    then some ask
    else (if eqb_ℤ n (pos 1) then some plan else (if eqb_ℤ n (pos 2) then some yolo else none))

-- shellModeFromCode
unfoldable pub shell_mode_from_code : ℤ → Option ShellMode
shell_mode_from_code n =
    if eqb_ℤ n (pos 0)
    then some no_shell
    else (if eqb_ℤ n (pos 1)
        then some bash
        else (if eqb_ℤ n (pos 2)
            then some ghci
            else (if eqb_ℤ n (pos 3) then some both_shells else none)))

-- ha_image_attachment, and what is copied of it.
pub record ImageAttachment : Type 0 where
  pub mime : Buffer
  pub bytes : Buffer

pub record Image : Type 0 where
  pub mime : Text
  pub bytes : List ℕ

-- ha_integration_attachment
pub record IntegrationAttachment : Type 0 where
  pub connection_id : Buffer
  pub server_name : Buffer
  pub display_name : Buffer

-- NativeIntegrationAttachment
pub record Integration : Type 0 where
  pub connection_id : Text
  pub server_name : Text
  pub display_name : Text

-- NativePromptContext
pub record PromptContext : Type 0 where
  pub window_token : ℕ
  pub application_name : Text
  pub window_title : Text
  pub integrations : List Integration

abbrev pub empty_context : PromptContext
empty_context = record {
  window_token = 0;
  application_name = [];
  window_title = [];
  integrations = [];
}

-- NativeTurnOptions; the voice callback and its context are addresses.
pub record TurnOptions : Type 0 where
  pub interaction_mode : InteractionMode
  pub shell_mode : ShellMode
  pub voice : Option (ℕ × ℕ)
  pub prompt_context : PromptContext

-- Equality of texts.
unfoldable pub same_text : Text → Text → Bool
same_text [] [] = true
same_text (x ∷ xs) (y ∷ ys) = (x == y) && same_text xs ys
same_text _ _ = false

-- A Map Text, by its lookup.
abbrev pub TextMap : Type 0 → Type 0
TextMap A = Text → Option A

abbrev pub updated : {A : Type 0} → Text → Option A → TextMap A → TextMap A
updated k entry m = λ j. if same_text j k then entry else m j

-- The staged maps of an Engine.
pub record Staged : Type 0 where
  pub images : TextMap (List Image)
  pub options : TextMap TurnOptions

-- The array arguments: NULL with a count, or the elements.
pub data Array (A : Type 0) : Type 0 where
  null_array : ℕ → Array A
  elements : List A → Array A

abbrev pub count : {A : Type 0} → Array A → ℕ
count (null_array n) = n
count (elements xs) = length xs

abbrev pub is_null_array : {A : Type 0} → Array A → Bool
is_null_array (null_array _) = true
is_null_array (elements _) = false

abbrev pub items : {A : Type 0} → Array A → List A
items (null_array _) = []
items (elements xs) = xs

abbrev pub max_int : ℕ
max_int = 2 ^ 63 - 1

-- validNativeTurnIDLength and the test of the pointer before it
unfoldable pub valid_turn_id : Buffer → Bool
valid_turn_id id =
    not (is_null id) && (ltb 0 (size id) && leb (size id) max_int && leb (size id) 1024)

-- sequence . map f
abbrev pub put_first : {B : Type 0} → Option B → Option (List B) → Option (List B)
put_first (some b) (some bs) = some (b ∷ bs)
put_first _ _ = none

unfoldable pub traverse : {A B : Type 0} → (A → Option B) → List A → Option (List B)
traverse f [] = some []
traverse f (x ∷ xs) = put_first (f x) (traverse f xs)
