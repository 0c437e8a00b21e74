-- ===== src/Clipboard/Scan.antt =====
-- What agent_cli_pasteboard_may_contain_images answers, over the items in their order.
use haskell_agent.Base.{
  ℕ, zero, suc, ◌+◌, ◌≤◌, ◌<◌, ◌≡◌, ◌↔◌, refl, sym, ◌∙◌, inl, inr, true, false, Bool-cases,
  Option-cases, Option, none, some, List, [], ◌∷◌, arith, of_some,
}
use native.Mathlib.Decide.{ℕ_discrete as dec_eq}
use mathlib.Core.Path.{subst}
use haskell_agent.Base.Int.{ℤ, pos, negsuc}
use haskell_agent.Clipboard.{
  Flavors, image, file_url, filenames, promised_file_url, promised_file_content_type, finder_node,
  flavor_may_contain_images, Pasteboard, any_candidate, inspect_items, inspect,
  pasteboard_may_contain_images,
}

module _ {F : Type 0} (types : Flavors F) (flavors : ℕ → Option (List (Option F))) where
  -- An item that was read and advertises no image and no file.
  abbrev pub IsClear : ℕ → Type 0
  IsClear i = (fs : List (Option F)) × (flavors i ≡ some fs) × (any_candidate types fs ≡ false)

  -- An item that was read and advertises one.
  abbrev pub IsCandidate : ℕ → Type 0
  IsCandidate i = (fs : List (Option F)) × (flavors i ≡ some fs) × (any_candidate types fs ≡ true)

  -- The first item in a range that is not clear decides.
  pub data Answer (index left : ℕ) : ℤ → Type 0 where
    all_clear :
        {z : ℤ}
        → z ≡ pos 0
        → ((i : ℕ) → index ≤ i → i < index + left → IsClear i)
        → Answer index left z
    candidate :
        {z : ℤ} (i : ℕ)
        → z ≡ pos 1
        → index ≤ i
        → i < index + left
        → ((j : ℕ) → index ≤ j → j < i → IsClear j)
        → IsCandidate i
        → Answer index left z
    unreadable :
        {z : ℤ} (i : ℕ)
        → z ≡ negsuc 0
        → index ≤ i
        → i < index + left
        → ((j : ℕ) → index ≤ j → j < i → IsClear j)
        → flavors i ≡ none
        → Answer index left z

  extend :
      (index : ℕ) (P : ℕ → Type 0)
      → P index
      → (i : ℕ) → ((j : ℕ) → suc index ≤ j → j < i → P j)
      → (j : ℕ) → index ≤ j
      → j < i
      → P j
  extend index P now i later j lo hi = elim (dec_eq index j) [
    | yes same ↦ subst P same now
    | no other ↦ later j (omega arith) hi
  ]

  extend-Answer :
      (index left : ℕ) {z : ℤ}
      → IsClear index
      → Answer (suc index) left z
      → Answer index (suc left) z
  extend-Answer index left clear (all_clear e all) = all_clear e (λ i lo hi.
      extend index IsClear clear (index + suc left) (λ j jlo jhi. all j jlo (omega arith)) i lo hi)
  extend-Answer index left clear (candidate i e lo hi before it) =
      candidate i e (omega arith) (omega arith) (extend index IsClear clear i before) it
  extend-Answer index left clear (unreadable i e lo hi before it) =
      unreadable i e (omega arith) (omega arith) (extend index IsClear clear i before) it

  pub inspect_items-Answer :
      (index left : ℕ) → Answer index left (inspect_items types flavors index left)
  unfolding inspect_items
  inspect_items-Answer index zero = all_clear refl (λ i lo hi. absurd (omega arith))
  inspect_items-Answer index (suc left) = elim (Option-cases (flavors index)) [
    | inl missing ↦
        unreadable index (rw (missing, inspect_items)) (omega arith) (omega arith)
          (λ j lo hi. absurd (omega arith)) missing
    | inr (fs, found) ↦ elim (Bool-cases (any_candidate types fs)) [
      | inl hit ↦
          candidate index (rw (found, inspect_items) (rw hit)) (omega arith) (omega arith)
            (λ j lo hi. absurd (omega arith)) (fs, found, hit)
      | inr miss ↦
          rw (found, inspect_items)
            (rw miss
              (extend-Answer index left (fs, found, miss) (inspect_items-Answer (suc index) left)))
    ]
  ]

module _ {F : Type 0} (types : Flavors F) where
  Answer-zero :
      {flavors : ℕ → Option (List (Option F))} {index left : ℕ} {z : ℤ}
      → Answer types flavors index left z
      → z ≡ pos 0
      → (i : ℕ) → index ≤ i
      → i < index + left
      → IsClear types flavors i
  Answer-zero (all_clear e all) h = all
  Answer-zero (candidate i e lo hi before it) h = let impossible = sym e ∙ h in cc
  Answer-zero (unreadable i e lo hi before it) h = let impossible = sym e ∙ h in cc

  Answer-of_clear :
      {flavors : ℕ → Option (List (Option F))} {index left : ℕ} {z : ℤ}
      → Answer types flavors index left z
      → ((i : ℕ) → index ≤ i → i < index + left → IsClear types flavors i)
      → z ≡ pos 0
  Answer-of_clear (all_clear e all) h = e
  Answer-of_clear (candidate i e lo hi before (fs, found, hit)) h =
      let (gs, found', miss) = h i lo hi in
      let same : gs ≡ fs = of_some (sym found' ∙ found) in let clash = rw same at miss in cc
  Answer-of_clear (unreadable i e lo hi before missing) h = let (gs, found, miss) = h i lo hi in cc

  -- The same with the code's own reading of an item.
  counted-IsClear :
      (p : Pasteboard F)
      → (pasteboard_may_contain_images types (some p) ≡ pos 0) ↔ (
          (n : ℕ) × (p.item_count ≡ some n)
          × ((i : ℕ) → 1 ≤ i → i < 1 + n → IsClear types p.flavors i))
  unfolding pasteboard_may_contain_images inspect
  counted-IsClear p = elim (Option-cases p.item_count) [
    | inl failed ↦ (λ e. let impossible = rw (failed, inspect) at e in cc, λ (n, counted, all). cc)
    | inr (n, counted) ↦ (
      λ e. (
        n,
        counted,
        Answer-zero (inspect_items-Answer types p.flavors 1 n) (rw (counted, inspect) at e),
      ),
      λ (m, counted', all).
          let same : m ≡ n = of_some (sym counted' ∙ counted) in
          rw (counted, inspect)
            (Answer-of_clear (inspect_items-Answer types p.flavors 1 n)
              (λ i lo hi. all i lo (omega (arith, same)))),
    )
  ]

  -- A type that is there, and is neither an image nor one of the types that stand for files.
  abbrev pub IsPlain : Option F → Type 0
  IsPlain none = ⊥
  IsPlain (some f) =
      (types.conforms f image ≡ false)
      × (types.conforms f file_url ≡ false)
      × (types.equals f filenames ≡ false)
      × (types.equals f promised_file_url ≡ false)
      × (types.equals f promised_file_content_type ≡ false)
      × (types.equals f finder_node ≡ false)

  abbrev pub AllPlain : List (Option F) → Type 0
  AllPlain [] = Unit {0}
  AllPlain (f ∷ fs) = IsPlain f × AllPlain fs

  -- An item that could be read and advertises only such types.
  abbrev pub IsPlainItem : Option (List (Option F)) → Type 0
  IsPlainItem o = (fs : List (Option F)) × (o ≡ some fs) × AllPlain fs

  any_candidate-AllPlain : (fs : List (Option F)) → (any_candidate types fs ≡ false) ↔ AllPlain fs
  unfolding any_candidate flavor_may_contain_images
  any_candidate-AllPlain [] = (λ e. tt, λ a. refl)
  any_candidate-AllPlain (none ∷ fs) = (λ e. ground arith, λ a. elim a.0 [ ])
  any_candidate-AllPlain (some f ∷ fs) =
      let (to, from) = any_candidate-AllPlain fs in
      (λ e. (ground (arith, e), to (ground (arith, e))), λ a. ground (arith, a.0, from a.1))

  -- The answer is 0 exactly if the items could be counted, and every one of them could be read and
  -- has only entries that name a type which conforms neither to images nor to file URLs and equals
  -- none of the four other types that stand for files.
  pub pasteboard_may_contain_images-zero :
      (p : Pasteboard F)
      → (pasteboard_may_contain_images types (some p) ≡ pos 0) ↔ (
          (n : ℕ) × (p.item_count ≡ some n)
          × ((i : ℕ) → 1 ≤ i → i < 1 + n → IsPlainItem (p.flavors i)))
  pasteboard_may_contain_images-zero p =
      let (to, from) = counted-IsClear p in
      (
        λ e.
            let (n, counted, all) = to e in
            (
              n,
              counted,
              λ i lo hi.
                  let (fs, found, clear) = all i lo hi in
                  (fs, found, (any_candidate-AllPlain fs).0 clear),
            ),
        λ (n, counted, all). from (
          n,
          counted,
          λ i lo hi.
              let (fs, found, plain) = all i lo hi in
              (fs, found, (any_candidate-AllPlain fs).1 plain),
        ),
      )
