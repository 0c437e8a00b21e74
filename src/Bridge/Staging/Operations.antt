-- ===== src/Bridge/Staging/Operations.antt =====
-- The exported functions of EngineStaging.hs (packages/agent-native-bridge/ffi/Agent/CLI/MacOS):
-- each gives its status and the engine's staged maps afterwards.
use haskell_agent.Base.{
  ℕ, Bool, false, not, ◌&&◌, ◌||◌, Option, none, some, List, [], ◌∷◌, ltb, ◌==◌, if◌then◌else◌,
}
use haskell_agent.Base.Int.{ℤ}
use haskell_agent.Bridge.Buffers.{Buffer, contents, size, is_null, is_empty}
use haskell_agent.Bridge.Staging.{
  Text, InteractionMode, ShellMode, interaction_mode_from_code, shell_mode_from_code,
  ImageAttachment, Image, IntegrationAttachment, Integration, PromptContext, empty_context,
  TurnOptions, updated, Staged, Array, count, is_null_array, items, max_int, valid_turn_id,
  traverse,
}

-- A status, and the maps: `none` for an engine that is null.
abbrev pub Outcome : Type 0
Outcome = ℕ × Option Staged

abbrev pub has_nul : Text → Bool
has_nul [] = false
has_nul (b ∷ bytes) = (b == 0) || has_nul bytes

abbrev pub replace_images : Text → List Image → Staged → Staged
replace_images id [] s = record s { images = updated id none s.images }
replace_images id (i ∷ is) s = record s { images = updated id (some (i ∷ is)) s.images }

abbrev pub new_options : InteractionMode → ShellMode → TurnOptions
new_options mode shell = record {
  interaction_mode = mode;
  shell_mode = shell;
  voice = none;
  prompt_context = empty_context;
}

-- The body of ha_engine_stage_turn_images, on the decoded turn and images.
abbrev pub staged_images : Staged → Option Text → Option (List Image) → Outcome
staged_images s (some id) (some images) = (0, some (replace_images id images s))
staged_images s _ _ = (4, some s)

abbrev pub staged_options : Staged → InteractionMode → ShellMode → Option Text → Outcome
staged_options s mode shell none = (2, some s)
staged_options s mode shell (some []) = (2, some s)
staged_options s mode shell (some (b ∷ id)) =
    (0, some (record s { options = updated (b ∷ id) (some (new_options mode shell)) s.options }))

abbrev pub integration_of : Option Text → Option Text → Option Text → Option Integration
integration_of (some c) (some s) (some d) =
    if not (is_empty c) && not (is_empty s) && not (is_empty d)
    then some (record { connection_id = c; server_name = s; display_name = d })
    else none
integration_of _ _ _ = none

-- The transaction of ha_engine_stage_turn_context.
abbrev pub attach : Staged → Text → PromptContext → Option TurnOptions → Outcome
attach s key context none = (5, some s)
attach s key context (some o) = (
  0,
  some
      (record s { options = updated key (some (record o { prompt_context = context })) s.options }),
)

abbrev pub window_valid : ℕ → Text → Text → Bool
window_valid token application title =
    (not (token == 0) && not (is_empty application))
    || ((token == 0) && is_empty application && is_empty title)

abbrev pub staged_context :
    Staged → ℕ → Option Text → Option Text → Option Text → Option (List Integration) → Outcome
staged_context s token (some key) (some application) (some title) (some references) =
    if not (is_empty key) && window_valid token application title
    then attach s key
        (record {
          window_token = token;
          application_name = application;
          window_title = title;
          integrations = references;
        })
        (s.options key)
    else (4, some s)
staged_context s token _ _ _ _ = (4, some s)

-- discardStagedTurnById
abbrev pub discard : Text → Staged → Staged
discard id s = record { images = updated id none s.images; options = updated id none s.options }

abbrev pub discarded : Staged → Option Text → Outcome
discarded s none = (2, some s)
discarded s (some []) = (2, some s)
discarded s (some (b ∷ id)) = (0, some (discard (b ∷ id) s))

module _ (is_utf8 : List ℕ → Bool) where
  -- decodeUtf8'
  unfoldable pub decode_utf8 : List ℕ → Option Text
  decode_utf8 bytes = if is_utf8 bytes then some bytes else none

  -- peekImage
  unfoldable pub peek_image : ImageAttachment → Option Image
  peek_image a =
      if (is_null a.mime && ltb 0 (size a.mime))
        || (is_null a.bytes && ltb 0 (size a.bytes))
        || (size a.mime == 0)
        || (size a.bytes == 0)
      then none
      else (if is_utf8 (contents a.mime)
          then some (record { mime = contents a.mime; bytes = contents a.bytes })
          else none)

  unfoldable pub stage_turn_images : Bool → Option Staged → Buffer → Array ImageAttachment → Outcome
  stage_turn_images throws none id images = (1, none)
  stage_turn_images throws (some s) id images =
      if not (valid_turn_id id)
      then (2, some s)
      else (if is_null_array images && ltb 0 (count images)
          then (4, some s)
          else (if ltb max_int (count images)
              then (4, some s)
              else (if throws
                  then (3, some s)
                  else staged_images s (decode_utf8 (contents id))
                      (traverse peek_image (items images)))))

  abbrev pub with_modes :
      Bool → Staged → Buffer → Option InteractionMode → Option ShellMode → Outcome
  with_modes throws s id (some mode) (some shell) =
      if throws then (3, some s) else staged_options s mode shell (decode_utf8 (contents id))
  with_modes throws s id _ _ = (4, some s)

  unfoldable pub stage_turn_options : Bool → Option Staged → Buffer → ℤ → ℤ → Outcome
  stage_turn_options throws none id raw_mode raw_shell = (1, none)
  stage_turn_options throws (some s) id raw_mode raw_shell =
      if not (valid_turn_id id)
      then (2, some s)
      else with_modes throws s id (interaction_mode_from_code raw_mode)
          (shell_mode_from_code raw_shell)

  -- readText
  unfoldable pub read_text : ℕ → Buffer → Option Text
  read_text limit b =
      if ltb limit (size b)
      then none
      else (if is_null b && not (size b == 0)
          then none
          else (if size b == 0
              then some []
              else (if is_utf8 (contents b) && not (has_nul (contents b))
                  then some (contents b)
                  else none)))

  -- readIntegration
  unfoldable pub read_integration : IntegrationAttachment → Option Integration
  read_integration a =
      integration_of (read_text 4096 a.connection_id) (read_text 4096 a.server_name)
        (read_text 4096 a.display_name)

  unfoldable pub stage_turn_context :
      Bool → Option Staged → Buffer → ℕ → Buffer → Buffer → Array IntegrationAttachment → Outcome
  stage_turn_context throws none id token application title integrations = (1, none)
  stage_turn_context throws (some s) id token application title integrations =
      if not (valid_turn_id id)
      then (2, some s)
      else (if ltb 32 (count integrations)
            || (is_null_array integrations && not (count integrations == 0))
          then (4, some s)
          else (if throws
              then (3, some s)
              else staged_context s token (read_text 1024 id) (read_text 4096 application)
                  (read_text 4096 title) (traverse read_integration (items integrations))))

  unfoldable pub discard_turn_staging : Bool → Option Staged → Buffer → Outcome
  discard_turn_staging throws none id = (1, none)
  discard_turn_staging throws (some s) id =
      if not (valid_turn_id id)
      then (2, some s)
      else (if throws then (3, some s) else discarded s (decode_utf8 (contents id)))
