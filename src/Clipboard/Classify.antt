-- ===== src/Clipboard/Classify.antt =====
-- What clipboard_snapshot_classify reports as a pasteable image, over all items: the early exit
-- from its loop loses nothing.
use native.Mathlib.Decide.{ℕ_discrete as dec_eq}
use mathlib.Core.Path.{subst}
use haskell_agent.Base.{
  ℕ, zero, suc, ◌+◌, ◌≤◌, ◌<◌, ◌≡◌, ◌↔◌, refl, sym, ap, ◌∙◌, ◌⊎◌, inl, inr, Bool, true, false, not,
  ◌&&◌, ◌||◌, Bool-cases, Option-cases, Option, some, List, [], ◌∷◌, arith, of_some,
}
use haskell_agent.Clipboard.{
  Flavors, Pasteboard, Seen, flavor_is_file_url, flavor_is_raster, see_flavors, see_items,
  nothing_seen, verdict, classify,
}

module _ {F : Type 0} (types : Flavors F) where
  -- Whether an item advertises a file URL, and whether a raster image.
  pub has_file_url : List (Option F) → Bool
  has_file_url [] = false
  has_file_url (f ∷ fs) = flavor_is_file_url types f || has_file_url fs

  pub has_raster : List (Option F) → Bool
  has_raster [] = false
  has_raster (f ∷ fs) = flavor_is_raster types f || has_raster fs

  see_flavors_lem :
      (fs : List (Option F)) (seen : Seen)
      → ((see_flavors types fs seen).file_url ≡ has_file_url fs || seen.file_url)
        × ((see_flavors types fs seen).raster ≡ has_raster fs || seen.raster)
  unfolding see_flavors has_file_url has_raster
  see_flavors_lem [] seen = (refl, refl)
  see_flavors_lem (f ∷ fs) seen = ground (
    arith,
    see_flavors_lem fs (record {
      file_url = flavor_is_file_url types f || seen.file_url;
      raster = flavor_is_raster types f || seen.raster;
    }),
  )

or-false : (a b : Bool) → (a || b) ≡ false → (a ≡ false) × (b ≡ false)
or-false true b e = cc
or-false false b e = (refl, e)

not_both :
    (seen : Seen)
    → seen.file_url && seen.raster ≡ true
    → ◌≡◌ {A = Option Bool} (some (seen.raster && not seen.file_url)) (some true)
    → ⊥
not_both seen e h = ground arith

module _ {F : Type 0} (types : Flavors F) (flavors : ℕ → Option (List (Option F))) where
  -- An item that was read and has no file URL; one that has a raster image besides.
  abbrev pub IsPlain : ℕ → Type 0
  IsPlain i = (fs : List (Option F)) × (flavors i ≡ some fs) × (has_file_url types fs ≡ false)

  abbrev pub ShowsRaster : ℕ → Type 0
  ShowsRaster i = (fs : List (Option F)) × (flavors i ≡ some fs) × (has_raster types fs ≡ true)

  -- Every item from `index` on is plain, and a raster was seen before or is among them.
  abbrev pub ShowsImage : ℕ → ℕ → Seen → Type 0
  ShowsImage index left seen =
      (seen.file_url ≡ false)
      × ((i : ℕ) → index ≤ i → i < index + left → IsPlain i)
      × ((seen.raster ≡ true) ⊎ ((i : ℕ) × (index ≤ i) × (i < index + left) × ShowsRaster i))

  extend :
      (index : ℕ) (P : ℕ → Type 0) (left : ℕ)
      → P index
      → ((j : ℕ) → suc index ≤ j → j < suc index + left → P j)
      → (j : ℕ) → index ≤ j
      → j < index + suc left
      → P j
  extend index P left now later j lo hi = elim (dec_eq index j) [
    | yes same ↦ subst P same now
    | no other ↦ later j (omega arith) (omega arith)
  ]

  abbrev pub RasterFrom : ℕ → ℕ → Seen → Type 0
  RasterFrom index left seen =
      (seen.raster ≡ true) ⊎ ((i : ℕ) × (index ≤ i) × (i < index + left) × ShowsRaster i)

  from_shown :
      (index left : ℕ) (seen seen' : Seen) (fs : List (Option F))
      → flavors index ≡ some fs
      → seen'.raster ≡ has_raster types fs || seen.raster
      → RasterFrom (suc index) left seen'
      → RasterFrom index (suc left) seen
  from_shown index left seen seen' fs found raster (inl r) =
      elim (Bool-cases (has_raster types fs)) [
        | inl own ↦ inr (index, omega arith, omega arith, (fs, found, own))
        | inr other ↦ inl (ground arith)
      ]
  from_shown index left seen seen' fs found raster (inr (i, lo, hi, r)) =
      inr (i, omega arith, omega arith, r)

  to_shown :
      (index left : ℕ) (seen seen' : Seen) (fs : List (Option F))
      → flavors index ≡ some fs
      → seen'.raster ≡ has_raster types fs || seen.raster
      → RasterFrom index (suc left) seen
      → RasterFrom (suc index) left seen'
  to_shown index left seen seen' fs found raster (inl r) = inl (ground arith)
  to_shown index left seen seen' fs found raster (inr (i, lo, hi, (gs, found', r))) =
      elim (dec_eq index i) [
        | yes same ↦
            let own : gs ≡ fs = of_some (sym found' ∙ ap flavors (sym same) ∙ found) in
            let here_raster : has_raster types fs ≡ true = rw own at r in inl (ground arith)
        | no other ↦ inr (i, omega arith, omega arith, (gs, found', r))
      ]

  -- One item in front.
  ShowsImage-step :
      (index left : ℕ) (seen seen' : Seen) (fs : List (Option F))
      → flavors index ≡ some fs
      → (seen'.file_url ≡ has_file_url types fs || seen.file_url)
        × (seen'.raster ≡ has_raster types fs || seen.raster)
      → ShowsImage (suc index) left seen'
      → ShowsImage index (suc left) seen
  ShowsImage-step index left seen seen' fs found (file, raster) (clean, plain, shown) =
      let (here_plain, before) = or-false _ _ (sym file ∙ clean) in
      (
        before,
        extend index IsPlain left (fs, found, here_plain) plain,
        from_shown index left seen seen' fs found raster shown,
      )

  see_items_sound :
      (index left : ℕ) (seen : Seen)
      → seen.file_url && seen.raster ≡ false
      → verdict (see_items types flavors index left seen) ≡ some true
      → ShowsImage index left seen
  unfolding see_items
  see_items_sound index zero seen apart e =
      (ground arith, λ i lo hi. absurd (omega arith), inl (ground arith))
  see_items_sound index (suc left) seen apart e = elim (Option-cases (flavors index)) [
    | inl missing ↦ let impossible = rw (missing, see_items) at e in cc
    | inr (fs, found) ↦
        let e' = rw (found, see_items) at e in
        let seen' = see_flavors types fs seen in
        elim (Bool-cases (seen'.file_url && seen'.raster)) [
          | inl both ↦ absurd (not_both seen' both (rw both at e'))
          | inr more ↦
              ShowsImage-step index left seen seen' fs found (see_flavors_lem types fs seen)
                (see_items_sound (suc index) left seen' more (rw more at e'))
        ]
  ]

  see_items_complete :
      (index left : ℕ) (seen : Seen)
      → ShowsImage index left seen
      → verdict (see_items types flavors index left seen) ≡ some true
  unfolding see_items
  see_items_complete index zero seen (clean, plain, inl shown) = ground arith
  see_items_complete index zero seen (clean, plain, inr (i, lo, hi, r)) = absurd (omega arith)
  see_items_complete index (suc left) seen (clean, plain, shown) =
      let (fs, found, no_file) = plain index (omega arith) (omega arith) in
      let seen' = see_flavors types fs seen in
      let (file, raster) = see_flavors_lem types fs seen in
      let still : seen'.file_url ≡ false = ground arith in
      let rest = see_items_complete (suc index) left seen' (
        still,
        (λ i lo hi. plain i (omega arith) (omega arith)),
        to_shown index left seen seen' fs found raster shown,
      ) in
      rw (found, see_items) (rw still rest)

module _ {F : Type 0} (types : Flavors F) where
  -- An image is reported exactly if the items could be counted and every one of them read, none
  -- advertises a file URL, and some item advertises a raster image.
  pub classify-image :
      (p : Pasteboard F)
      → (classify types p ≡ some true)
        ↔ ((n : ℕ) × (p.item_count ≡ some n) × ShowsImage types p.flavors 1 n nothing_seen)
  unfolding classify
  classify-image p = elim (Option-cases p.item_count) [
    | inl failed ↦ (λ e. let impossible = rw (failed, classify) at e in cc, λ (n, counted, all). cc)
    | inr (n, counted) ↦ (
      λ e. (
        n,
        counted,
        see_items_sound types p.flavors 1 n nothing_seen refl (rw (counted, classify) at e),
      ),
      λ (m, counted', all).
          let same : m ≡ n = of_some (sym counted' ∙ counted) in
          rw (counted, classify)
            (see_items_complete types p.flavors 1 n nothing_seen
              (subst (λ k. ShowsImage types p.flavors 1 k nothing_seen) same all)),
    )
  ]
