-- ===== src/Bridge/Staging/Calls.antt =====
-- The staging functions together: what any sequence of their calls keeps, and what a call that
-- fails leaves.
use mathlib.Core.Path.{subst}
use haskell_agent.Base.{ℕ, ◌≡◌, ◌≢◌, inl, inr, sym, ap, Bool, Option, none, some, List, [], ◌∷◌}
use haskell_agent.Base.Int.{ℤ}
use haskell_agent.Bridge.Buffers.{Buffer}
use haskell_agent.Bridge.Staging.{ImageAttachment, IntegrationAttachment, Staged, Array}
use haskell_agent.Bridge.Staging.Operations.{
  Outcome, stage_turn_images, stage_turn_options, stage_turn_context, discard_turn_staging,
}
use haskell_agent.Bridge.Staging.Preservation.{
  IsStaged, Keeps, stage_turn_images-Keeps, stage_turn_options-Keeps, discard_turn_staging-Keeps,
}
use haskell_agent.Bridge.Staging.Context.{stage_turn_context-Keeps}

-- A call of one of the functions, on an engine that is not null.
pub data Call : Type 0 where
  stages_images : Bool → Buffer → Array ImageAttachment → Call
  stages_options : Bool → Buffer → ℤ → ℤ → Call
  stages_context : Bool → Buffer → ℕ → Buffer → Buffer → Array IntegrationAttachment → Call
  discards : Bool → Buffer → Call

module _ (is_utf8 : List ℕ → Bool) where
  abbrev pub after : Option Staged → Staged → Staged
  after none s = s
  after (some s') s = s'

  unfoldable pub call : Call → Staged → Outcome
  call (stages_images throws id images) s = stage_turn_images is_utf8 throws (some s) id images
  call (stages_options throws id mode shell) s =
      stage_turn_options is_utf8 throws (some s) id mode shell
  call (stages_context throws id token application title integrations) s =
      stage_turn_context is_utf8 throws (some s) id token application title integrations
  call (discards throws id) s = discard_turn_staging is_utf8 throws (some s) id

  abbrev pub maps : Staged → Outcome → Staged
  maps s (_, o) = after o s

  unfoldable pub run : List Call → Staged → Staged
  run [] s = s
  run (c ∷ cs) s = run cs (maps s (call c s))

  call-Keeps : (c : Call) (s : Staged) → Keeps is_utf8 s (call c s)
  unfolding call
  call-Keeps (stages_images throws id images) s = stage_turn_images-Keeps is_utf8 throws s id images
  call-Keeps (stages_options throws id mode shell) s =
      stage_turn_options-Keeps is_utf8 throws s id mode shell
  call-Keeps (stages_context throws id token application title integrations) s =
      stage_turn_context-Keeps is_utf8 throws s id token application title integrations
  call-Keeps (discards throws id) s = discard_turn_staging-Keeps is_utf8 throws s id

  -- A call whose status is not 0 leaves what is staged as it was, of whatever turn.
  pub call-failed : (c : Call) (s : Staged) → (call c s).0 ≢ 0 → (call c s).1 ≡ some s
  call-failed c s failed = by_outcome (call c s) (call-Keeps c s) failed
    where
      by_outcome : (o : Outcome) → Keeps is_utf8 s o → o.0 ≢ 0 → o.1 ≡ some s
      by_outcome (code, none) k f = elim k [ ]
      by_outcome (code, some s') (inl (same, _)) f = ap some same
      by_outcome (code, some s') (inr (accepted, _)) f = elim (f accepted) [ ]

  maps-IsStaged :
      (s : Staged) (o : Outcome)
      → Keeps is_utf8 s o
      → IsStaged is_utf8 s
      → IsStaged is_utf8 (maps s o)
  maps-IsStaged s (code, none) k inv = elim k [ ]
  maps-IsStaged s (code, some s') (inl (same, _)) inv = subst (IsStaged is_utf8) (sym same) inv
  maps-IsStaged s (code, some s') (inr (_, keeps)) inv = keeps inv

  -- After any calls of the staging functions, whatever their arguments, all that is staged is what
  -- the header lets a host stage: for turns with an identifier of 1 to 1024 bytes; images with a
  -- MIME type and bytes, one at least; and contexts of at most 32 whole integrations and texts of
  -- at most 4096 bytes with no NUL, where a window has a token exactly if it has an application.
  pub run-IsStaged :
      (calls : List Call) (s : Staged) → IsStaged is_utf8 s → IsStaged is_utf8 (run calls s)
  unfolding run
  run-IsStaged [] s inv = inv
  run-IsStaged (c ∷ cs) s inv =
      run-IsStaged cs (maps s (call c s)) (maps-IsStaged s (call c s) (call-Keeps c s) inv)
