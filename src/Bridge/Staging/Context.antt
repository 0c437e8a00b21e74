-- ===== src/Bridge/Staging/Context.antt =====
-- The context that a host attaches to a turn's staged options.
use haskell_agent.Base.{
  ℕ, ◌≤◌, ◌≡◌, inl, inr, refl, Bool, true, false, not, ◌&&◌, ◌||◌, Option, none, some, List, ltb,
  ◌==◌, length, arith, if_both, both_true,
}
use haskell_agent.Bridge.Buffers.{Buffer, is_empty}
use haskell_agent.Bridge.Staging.{
  Text, IntegrationAttachment, Integration, PromptContext, TurnOptions, Staged, Array, count,
  is_null_array, items, null_array, elements, valid_turn_id, traverse,
}
use haskell_agent.Bridge.Staging.Operations.{
  read_text, read_integration, attach, window_valid, staged_context, stage_turn_context,
}
use haskell_agent.Bridge.Staging.Invariant.{
  all, traverse-all, text_valid, id_valid, integration_valid, context_valid, read_text-text_valid,
  read_integration-valid,
}
use haskell_agent.Bridge.Staging.Preservation.{Keeps, replace_options-IsStaged}

not-true : {b : Bool} → not b ≡ true → b ≡ false
not-true {b = true} e = cc
not-true {b = false} e = refl

length-items : {A : Type 0} (xs : Array A) → length (items xs) ≤ count xs
length-items (null_array n) = omega arith
length-items (elements xs) = omega arith

within_limit : {A : Type 0} {n : ℕ} (xs : Array A) → count xs ≤ 32 → n ≡ length (items xs) → n ≤ 32
within_limit xs few long = omega (arith, length-items xs)

module _ (is_utf8 : List ℕ → Bool) where
  context_valid_made :
      (token : ℕ) (application title : Text) (references : List Integration)
      → length references ≤ 32
      → all (integration_valid is_utf8) references ≡ true
      → text_valid is_utf8 4096 application ≡ true
      → text_valid is_utf8 4096 title ≡ true
      → window_valid token application title ≡ true
      → context_valid is_utf8 (record {
        window_token = token;
        application_name = application;
        window_title = title;
        integrations = references;
      })
        ≡ true
  unfolding context_valid
  context_valid_made token application title references few valid a t w =
      ground (arith, few, valid, a, t, w)

  read_text-id_valid :
      (id : Buffer) (key : Text)
      → read_text is_utf8 1024 id ≡ some key
      → is_empty key ≡ false
      → id_valid is_utf8 key ≡ true
  unfolding id_valid text_valid
  read_text-id_valid id key e full =
      ground (arith, read_text-text_valid is_utf8 1024 id key e, full)

  attach-Keeps :
      (s : Staged) (key : Text) (context : PromptContext) (o : Option TurnOptions)
      → id_valid is_utf8 key ≡ true
      → context_valid is_utf8 context ≡ true
      → Keeps is_utf8 s (attach s key context o)
  attach-Keeps s key context none v c = inl (refl, (omega arith))
  attach-Keeps s key context (some o) v c = inr (
    refl,
    replace_options-IsStaged is_utf8 key (record o { prompt_context = context }) s
        (ground (arith, v, c)),
  )

  staged_context-Keeps :
      (s : Staged) (token : ℕ) (id application title : Buffer)
      (references : Array IntegrationAttachment)
      → count references ≤ 32
      → Keeps is_utf8 s (
          staged_context s token
            (read_text is_utf8 1024 id)
            (read_text is_utf8 4096 application)
            (read_text is_utf8 4096 title)
            (traverse (read_integration is_utf8) (items references)))
  staged_context-Keeps s token id application title references few =
      by_texts _ _ _ _ (read_text-id_valid id) (read_text-text_valid is_utf8 4096 application)
        (read_text-text_valid is_utf8 4096 title)
        (λ xs e.
          let (valid, long) =
            traverse-all (read_integration is_utf8) (integration_valid is_utf8) (items references)
              xs (read_integration-valid is_utf8) e in
          (valid, within_limit references few long))
    where
      by_texts :
          (k a t : Option Text) (is : Option (List Integration))
          → ((key : Text) → k ≡ some key → is_empty key ≡ false → id_valid is_utf8 key ≡ true)
          → ((x : Text) → a ≡ some x → text_valid is_utf8 4096 x ≡ true)
          → ((x : Text) → t ≡ some x → text_valid is_utf8 4096 x ≡ true)
          → ((xs : List Integration)
              → is ≡ some xs
              → (all (integration_valid is_utf8) xs ≡ true) × (length xs ≤ 32))
          → Keeps is_utf8 s (staged_context s token k a t is)
      by_texts none a t is hk ha ht hi = inl (refl, (omega arith))
      by_texts (some k) none t is hk ha ht hi = inl (refl, (omega arith))
      by_texts (some k) (some a) none is hk ha ht hi = inl (refl, (omega arith))
      by_texts (some k) (some a) (some t) none hk ha ht hi = inl (refl, (omega arith))
      by_texts (some k) (some a) (some t) (some is) hk ha ht hi =
          if_both (Keeps is_utf8 s) (not (is_empty k) && window_valid token a t)
            (λ ok.
              let (full, window) = both_true (not (is_empty k)) (window_valid token a t) ok in
              let (valid, few') = hi is refl in
              attach-Keeps s k _ (s.options k) (hk k refl (not-true full))
                (context_valid_made token a t is few' valid (ha a refl) (ht t refl) window))
            (λ _. inl (refl, (omega arith)))

  pub stage_turn_context-Keeps :
      (throws : Bool) (s : Staged) (id : Buffer) (token : ℕ) (application title : Buffer)
      (references : Array IntegrationAttachment)
      → Keeps is_utf8 s
          (stage_turn_context is_utf8 throws (some s) id token application title references)
  unfolding stage_turn_context
  stage_turn_context-Keeps throws s id token application title references =
      if_both (Keeps is_utf8 s) (not (valid_turn_id id)) (λ _. inl (refl, (omega arith)))
        (λ _.
          if_both (Keeps is_utf8 s)
            (ltb 32 (count references) || (is_null_array references && not (count references == 0)))
            (λ _. inl (refl, (omega arith)))
            (λ few.
              if_both (Keeps is_utf8 s) throws (λ _. inl (refl, (omega arith)))
                (λ _.
                  staged_context-Keeps s token id application title references
                    (ground (arith, few)))))
