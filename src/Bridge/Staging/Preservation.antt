-- ===== src/Bridge/Staging/Preservation.antt =====
-- Each staging call keeps what is staged valid, and a call that fails changes nothing.
use mathlib.Core.Path.{subst}
use haskell_agent.Base.{
  ℕ, ◌≡◌, ◌≢◌, ◌⊎◌, inl, inr, refl, Bool, true, not, ◌&&◌, Option, none, some, List, [], ◌∷◌, ltb,
  ◌==◌, length, arith, of_some, if_both, of_not, none≢some,
}
use haskell_agent.Base.Int.{ℤ}
use haskell_agent.Bridge.Buffers.{Buffer, contents, at_null, at_bytes}
use haskell_agent.Bridge.Staging.{
  Text, InteractionMode, ShellMode, ImageAttachment, Image, TurnOptions, updated, Staged, Array,
  count, is_null_array, items, max_int, valid_turn_id,
}
use haskell_agent.Bridge.Staging.Operations.{
  Outcome, replace_images, new_options, decode_utf8, peek_image, staged_images, stage_turn_images,
  staged_options, with_modes, stage_turn_options, discarded, discard_turn_staging,
}
use haskell_agent.Bridge.Staging.Invariant.{
  all, updated_all, traverse-all, text_valid, id_valid, image_valid, context_valid,
  peek_image-image_valid,
}

-- What is staged: images for valid turns, one at least and each valid; options for valid turns,
-- with a valid context.
pub record IsStaged (is_utf8 : List ℕ → Bool) (s : Staged) : Type 0 where
  pub images_valid :
      (id : Text) (is : List Image)
      → s.images id ≡ some is
      → id_valid is_utf8 id && (not (length is == 0) && all (image_valid is_utf8) is) ≡ true
  pub options_valid :
      (id : Text) (o : TurnOptions)
      → s.options id ≡ some o
      → id_valid is_utf8 id && context_valid is_utf8 o.prompt_context ≡ true

module _ (is_utf8 : List ℕ → Bool) where
  -- An outcome that leaves the maps valid, and as they were if it is a failure.
  abbrev pub Keeps : Staged → Outcome → Type 0
  Keeps s (code, none) = ⊥
  Keeps s (code, some s') =
      ((s' ≡ s) × (code ≢ 0)) ⊎ ((code ≡ 0) × (IsStaged is_utf8 s → IsStaged is_utf8 s'))

  decode_utf8-id_valid :
      (id : Buffer) (t : Text)
      → valid_turn_id id ≡ true
      → decode_utf8 is_utf8 (contents id) ≡ some t
      → id_valid is_utf8 t ≡ true
  unfolding decode_utf8 id_valid valid_turn_id
  decode_utf8-id_valid (at_null n) t v e = cc
  decode_utf8-id_valid (at_bytes []) t v e = ground arith
  decode_utf8-id_valid (at_bytes (b ∷ bytes)) t v e = grind arith

  abbrev pub ImagesValid : Text → List Image → Type 0
  ImagesValid id is =
      id_valid is_utf8 id && (not (length is == 0) && all (image_valid is_utf8) is) ≡ true

  abbrev pub OptionsValid : Text → TurnOptions → Type 0
  OptionsValid id o = id_valid is_utf8 id && context_valid is_utf8 o.prompt_context ≡ true

  cut :
      (id : Text) (i : Image) (is : List Image)
      → id_valid is_utf8 id ≡ true
      → all (image_valid is_utf8) (i ∷ is) ≡ true
      → ImagesValid id (i ∷ is)
  cut id i is v h = ground (arith, v, h)

  replace_images-IsStaged :
      (id : Text) (images : List Image) (s : Staged)
      → id_valid is_utf8 id ≡ true
      → all (image_valid is_utf8) images ≡ true
      → IsStaged is_utf8 s
      → IsStaged is_utf8 (replace_images id images s)
  replace_images-IsStaged id [] s v h inv = record {
    images_valid =
        updated_all ImagesValid id none s.images (λ is e. elim (none≢some e) [ ]) inv.images_valid;
    options_valid = inv.options_valid;
  }
  replace_images-IsStaged id (i ∷ is) s v h inv = record {
    images_valid =
        updated_all ImagesValid id (some (i ∷ is)) s.images
          (λ js e. subst (ImagesValid id) (of_some e) (cut id i is v h)) inv.images_valid;
    options_valid = inv.options_valid;
  }

  staged_images-Keeps :
      (s : Staged) (id : Option Text) (images : Option (List Image))
      → ((t : Text) → id ≡ some t → id_valid is_utf8 t ≡ true)
      → ((is : List Image) → images ≡ some is → all (image_valid is_utf8) is ≡ true)
      → Keeps s (staged_images s id images)
  staged_images-Keeps s none images h k = inl (refl, (omega arith))
  staged_images-Keeps s (some id) none h k = inl (refl, (omega arith))
  staged_images-Keeps s (some id) (some is) h k =
      inr (refl, replace_images-IsStaged id is s (h id refl) (k is refl))

  pub stage_turn_images-Keeps :
      (throws : Bool) (s : Staged) (id : Buffer) (images : Array ImageAttachment)
      → Keeps s (stage_turn_images is_utf8 throws (some s) id images)
  unfolding stage_turn_images
  stage_turn_images-Keeps throws s id images =
      if_both (Keeps s) (not (valid_turn_id id)) (λ _. inl (refl, (omega arith)))
        (λ valid.
          if_both (Keeps s) (is_null_array images && ltb 0 (count images))
            (λ _. inl (refl, (omega arith)))
            (λ _.
              if_both (Keeps s) (ltb max_int (count images)) (λ _. inl (refl, (omega arith)))
                (λ _.
                  if_both (Keeps s) throws (λ _. inl (refl, (omega arith)))
                    (λ _.
                      staged_images-Keeps s _ _ (λ t e. decode_utf8-id_valid id t (of_not valid) e)
                        (λ is e.
                          (traverse-all (peek_image is_utf8) (image_valid is_utf8) (items images) is
                            (peek_image-image_valid is_utf8) e).0)))))

  new_options-OptionsValid :
      (id : Text) (mode : InteractionMode) (shell : ShellMode)
      → id_valid is_utf8 id ≡ true
      → OptionsValid id (new_options mode shell)
  unfolding context_valid text_valid all
  new_options-OptionsValid id mode shell v = ground (arith, v)

  pub replace_options-IsStaged :
      (id : Text) (o : TurnOptions) (s : Staged)
      → OptionsValid id o
      → IsStaged is_utf8 s
      → IsStaged is_utf8 (record s { options = updated id (some o) s.options })
  replace_options-IsStaged id o s v inv = record {
    images_valid = inv.images_valid;
    options_valid =
        updated_all OptionsValid id (some o) s.options
          (λ p e. subst (OptionsValid id) (of_some e) v) inv.options_valid;
  }

  staged_options-Keeps :
      (s : Staged) (mode : InteractionMode) (shell : ShellMode) (id : Option Text)
      → ((t : Text) → id ≡ some t → id_valid is_utf8 t ≡ true)
      → Keeps s (staged_options s mode shell id)
  staged_options-Keeps s mode shell none h = inl (refl, (omega arith))
  staged_options-Keeps s mode shell (some []) h = inl (refl, (omega arith))
  staged_options-Keeps s mode shell (some (b ∷ id)) h = inr (
    refl,
    replace_options-IsStaged (b ∷ id) (new_options mode shell) s
        (new_options-OptionsValid (b ∷ id) mode shell (h (b ∷ id) refl)),
  )

  with_modes-Keeps :
      (throws : Bool) (s : Staged) (id : Buffer) (mode : Option InteractionMode)
      (shell : Option ShellMode)
      → valid_turn_id id ≡ true
      → Keeps s (with_modes is_utf8 throws s id mode shell)
  with_modes-Keeps throws s id none shell v = inl (refl, (omega arith))
  with_modes-Keeps throws s id (some mode) none v = inl (refl, (omega arith))
  with_modes-Keeps throws s id (some mode) (some shell) v =
      if_both (Keeps s) throws (λ _. inl (refl, (omega arith)))
        (λ _. staged_options-Keeps s mode shell _ (λ t e. decode_utf8-id_valid id t v e))

  pub stage_turn_options-Keeps :
      (throws : Bool) (s : Staged) (id : Buffer) (mode shell : ℤ)
      → Keeps s (stage_turn_options is_utf8 throws (some s) id mode shell)
  unfolding stage_turn_options
  stage_turn_options-Keeps throws s id mode shell =
      if_both (Keeps s) (not (valid_turn_id id)) (λ _. inl (refl, (omega arith)))
        (λ valid. with_modes-Keeps throws s id _ _ (of_not valid))

  discarded-Keeps : (s : Staged) (id : Option Text) → Keeps s (discarded s id)
  discarded-Keeps s none = inl (refl, (omega arith))
  discarded-Keeps s (some []) = inl (refl, (omega arith))
  discarded-Keeps s (some (b ∷ id)) = inr (
    refl,
    λ inv. record {
      images_valid =
          updated_all ImagesValid (b ∷ id) none s.images (λ is e. elim (none≢some e) [ ])
            inv.images_valid;
      options_valid =
          updated_all OptionsValid (b ∷ id) none s.options (λ o e. elim (none≢some e) [ ])
            inv.options_valid;
    },
  )

  pub discard_turn_staging-Keeps :
      (throws : Bool) (s : Staged) (id : Buffer)
      → Keeps s (discard_turn_staging is_utf8 throws (some s) id)
  unfolding discard_turn_staging
  discard_turn_staging-Keeps throws s id =
      if_both (Keeps s) (not (valid_turn_id id)) (λ _. inl (refl, (omega arith)))
        (λ _. if_both (Keeps s) throws (λ _. inl (refl, (omega arith))) (λ _. discarded-Keeps s _))
