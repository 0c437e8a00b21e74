-- ===== src/Tests/Clipboard.antt =====
-- Runs of the clipboard's theorems on a pasteboard with one image.
use haskell_agent.Base.{ℕ, ◌+◌, ◌≡◌, ◌≤◌, ◌<◌, ◌↔◌, refl, Bool, true, false, some, [], ◌∷◌, arith}
use haskell_agent.Base.Int.{pos}
use haskell_agent.Clipboard.{
  Flavors, Pasteboard, Answers, Snapshot, pasteboard_may_contain_images, classify, nothing_seen,
  change_count, image_snapshot,
}
use haskell_agent.Clipboard.Scan.{IsPlainItem, pasteboard_may_contain_images-zero}
use haskell_agent.Clipboard.Classify.{ShowsImage, classify-image}
use haskell_agent.Clipboard.Generation
use haskell_agent.Clipboard.Generation.{
  IsSound, Call, changes, changed, after-IsSound, reported-changes,
}

-- A flavor is an image or not.
abbrev types : Flavors Bool
types = record { conforms = λ f i. f; equals = λ f i. false }

abbrev board : Pasteboard Bool
board = record { item_count = some 1; flavors = λ i. some (some true ∷ []) }

pasteboard_may_contain_images-zero_example :
    (pasteboard_may_contain_images types (some board) ≡ pos 0) ↔ (
      (n : ℕ) × (board.item_count ≡ some n)
      × ((i : ℕ) → 1 ≤ i → i < 1 + n → IsPlainItem types (board.flavors i)))
pasteboard_may_contain_images-zero_example = pasteboard_may_contain_images-zero types board

classify-image_example :
    (classify types board ≡ some true)
    ↔ ((n : ℕ) × (board.item_count ≡ some n) × ShowsImage types board.flavors 1 n nothing_seen)
classify-image_example = classify-image types board

abbrev answers : Bool → Answers Bool
answers modified = record { created = true; modified = modified; contents = board }

abbrev inspects : Bool → Call Bool
inspects modified = Call.inspects true (answers modified)

abbrev start : Snapshot
start = Generation.initial

start-IsSound : IsSound start
start-IsSound = record { free = refl; unset = λ e. refl; bounded = omega arith }

-- One inspection, an unchanged count, and an inspection after a change.
reported-changes_example :
    2 ≡ 1 + (changes types (Call.counts true (answers false) ∷ []) + changed types (inspects true))
unfolding image_snapshot change_count Generation.run
reported-changes_example =
    reported-changes types (inspects true) (inspects true) (Call.counts true (answers false) ∷ [])
      start 1 2 refl refl (omega arith)
