-- ===== src/Clipboard.antt =====
-- ClipboardTypes.c of packages/agent-cli/cbits: whether the clipboard advertises images, and the
-- cached snapshot behind the image-paste tip. The Pasteboard Manager's answers and the type tests
-- of LaunchServices and CoreFoundation are parameters.
pub mod Scan
pub mod Classify
pub mod Generation
use haskell_agent.Base.{
  ℕ, zero, suc, ◌+◌, ◌%◌, ◌^◌, ◌≡◌, Bool, true, false, not, ◌&&◌, ◌||◌, Option, none, some, List,
  [], ◌∷◌, if◌then◌else◌,
}
use haskell_agent.Base.Int.{ℤ, pos, negsuc, eqb_ℤ}

-- The type identifiers that the source names.
pub data Identifier : Type 0 where
  image file_url filenames promised_file_url promised_file_content_type finder_node : Identifier
  png tiff jpeg : Identifier

-- UTTypeConformsTo and CFEqual on a flavor that is not NULL.
pub record Flavors (F : Type 0) : Type 0 where
  pub conforms : F → Identifier → Bool
  pub equals : F → Identifier → Bool

-- What one inspection of a pasteboard gets: the number of items, and for each index from 1 the
-- flavors of its item (NULL entries are `none`). `none` stands for a call that failed: of
-- PasteboardGetItemCount; of PasteboardGetItemIdentifier or PasteboardCopyItemFlavors.
pub record Pasteboard (F : Type 0) : Type 0 where
  pub item_count : Option ℕ
  pub flavors : ℕ → Option (List (Option F))

abbrev to_int : Bool → ℤ
to_int true = pos 1
to_int false = pos 0

-- C's reading of an int as a condition.
abbrev pub holds : ℤ → Bool
holds z = not (eqb_ℤ z (pos 0))

-- The two flags of clipboard_snapshot_classify.
pub record Seen : Type 0 where
  pub file_url : Bool
  pub raster : Bool

abbrev pub nothing_seen : Seen
nothing_seen = record { file_url = false; raster = false }

abbrev pub verdict : Option Seen → Option Bool
verdict none = none
verdict (some seen) = some (seen.raster && not seen.file_url)

module _ {F : Type 0} (types : Flavors F) where
  open types use {conforms, equals}

  -- agent_cli_clipboard_flavor_may_contain_images
  unfoldable pub flavor_may_contain_images : Option F → ℤ
  flavor_may_contain_images none = negsuc 0
  flavor_may_contain_images (some f) = to_int (
      conforms f image
      || conforms f file_url
      || equals f filenames
      || equals f promised_file_url
      || equals f promised_file_content_type
      || equals f finder_node)

  -- The inner loop: whether a flavor of the item stops it with `result = 1`.
  unfoldable pub any_candidate : List (Option F) → Bool
  unfolding flavor_may_contain_images
  any_candidate [] = false
  any_candidate (f ∷ fs) =
      let rest = any_candidate fs in if holds (flavor_may_contain_images f) then true else rest

  -- The outer loop, from an index on, with the number of items that are left.
  unfoldable pub inspect_items : (ℕ → Option (List (Option F))) → ℕ → ℕ → ℤ
  unfolding any_candidate
  inspect_items flavors index zero = pos 0
  inspect_items flavors index (suc left) = elim (flavors index) [
    | none ↦ negsuc 0
    | some fs ↦ elim (any_candidate fs) [
      | true ↦ pos 1
      | false ↦ inspect_items flavors (suc index) left
    ]
  ]

  unfoldable pub inspect : Pasteboard F → ℤ
  unfolding inspect_items
  inspect p = elim p.item_count [ none ↦ negsuc 0 | some n ↦ inspect_items p.flavors 1 n ]

  -- agent_cli_pasteboard_may_contain_images: `none` is a NULL name, or a pasteboard that could not
  -- be created.
  unfoldable pub pasteboard_may_contain_images : Option (Pasteboard F) → ℤ
  unfolding inspect
  pasteboard_may_contain_images none = negsuc 0
  pasteboard_may_contain_images (some p) = inspect p

  unfoldable pub flavor_is_file_url : Option F → Bool
  flavor_is_file_url none = false
  flavor_is_file_url (some f) =
      conforms f file_url
      || equals f file_url
      || equals f filenames
      || equals f promised_file_url
      || equals f promised_file_content_type
      || equals f finder_node

  unfoldable pub flavor_is_raster : Option F → Bool
  flavor_is_raster none = false
  flavor_is_raster (some f) =
      conforms f png
      || conforms f tiff
      || conforms f jpeg
      || equals f png
      || equals f tiff
      || equals f jpeg

  unfoldable pub see_flavors : List (Option F) → Seen → Seen
  unfolding flavor_is_file_url flavor_is_raster
  see_flavors [] seen = seen
  see_flavors (f ∷ fs) seen = see_flavors fs (record {
    file_url = flavor_is_file_url f || seen.file_url;
    raster = flavor_is_raster f || seen.raster;
  })

  unfoldable pub see_items : (ℕ → Option (List (Option F))) → ℕ → ℕ → Seen → Option Seen
  unfolding see_flavors
  see_items flavors index zero seen = some seen
  see_items flavors index (suc left) seen = elim (flavors index) [
    | none ↦ none
    | some fs ↦
        let seen' = see_flavors fs seen in
        elim (seen'.file_url && seen'.raster) [
          | true ↦ some seen'
          | false ↦ see_items flavors (suc index) left seen'
        ]
  ]

  -- clipboard_snapshot_classify: `none` for 0, else the value for *out_has_image.
  unfoldable pub classify : Pasteboard F → Option Bool
  unfolding see_items
  classify p = elim p.item_count [
    | none ↦ none
    | some n ↦ verdict (see_items p.flavors 1 n nothing_seen)
  ]

-- The static variables of the snapshot; `locked` is the mutex.
pub record Snapshot : Type 0 where
  pub locked : Bool
  pub has_ref : Bool
  pub generation : ℕ
  pub generation_initialized : Bool

abbrev pub lock : Snapshot → Snapshot
lock s = record s { locked = true }

abbrev pub unlock : Snapshot → Snapshot
unlock s = record s { locked = false }

-- clipboard_snapshot_pasteboard: `created` tells whether PasteboardCreate would succeed.
unfoldable pub snapshot_pasteboard : Bool → Snapshot → Bool × Snapshot
snapshot_pasteboard created s =
    if not s.has_ref && not created then (false, s) else (true, record s { has_ref = true })

-- clipboard_snapshot_sync_generation: `modified` is kPasteboardModified in the flags.
unfoldable pub sync_generation : Bool → Snapshot → ℕ × Snapshot
sync_generation modified s =
    if not s.generation_initialized
    then (1, record s { generation = 1; generation_initialized = true })
    else (if modified
        then ((s.generation + 1) % 2 ^ 64, record s { generation = (s.generation + 1) % 2 ^ 64 })
        else (s.generation, s))

-- What the Pasteboard Manager would answer during one call.
pub record Answers (F : Type 0) : Type 0 where
  pub created : Bool
  pub modified : Bool
  pub contents : Pasteboard F

-- agent_cli_clipboard_change_count: `none` for 0, else *out_count; `wanted` tells that the pointer
-- is not NULL.
unfoldable pub change_count : {F : Type 0} → Bool → Answers F → Snapshot → Option ℕ × Snapshot
unfolding snapshot_pasteboard sync_generation
change_count false a s = (none, s)
change_count true a s =
    let (found, s₁) = snapshot_pasteboard a.created (lock s) in
    if found
    then (let (n, s₂) = sync_generation a.modified s₁ in (some n, unlock s₂))
    else (none, unlock s₁)

-- agent_cli_clipboard_image_snapshot: `none` for 0, else *out_count and *out_has_image.
unfoldable pub image_snapshot :
    {F : Type 0} → Flavors F → Bool → Answers F → Snapshot → Option (ℕ × Bool) × Snapshot
unfolding snapshot_pasteboard sync_generation classify
image_snapshot types false a s = (none, s)
image_snapshot types true a s =
    let (found, s₁) = snapshot_pasteboard a.created (lock s) in
    if found
    then (let (n, s₂) = sync_generation a.modified s₁ in
        elim (classify types a.contents) [
          | none ↦ (none, unlock s₂)
          | some has_image ↦ (some (n, has_image), unlock s₂)
        ])
    else (none, unlock s₁)
