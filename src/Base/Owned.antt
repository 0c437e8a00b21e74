-- ===== src/Base/Owned.antt =====
-- Objects that native code creates and has to release: an account of what is held after a list of
-- such events.
use haskell_agent.Base.{Bool, Option, none, some, List, [], ◌∷◌, if◌then◌else◌}

pub data Event (O : Type 0) : Type 0 where
  creates : O → Event O
  releases : O → Event O

abbrev pub kept : {O : Type 0} → O → Option (List O) → Option (List O)
kept o none = none
kept o (some held) = some (o ∷ held)

module _ {O : Type 0} (same : O → O → Bool) where
  -- One object out of those that are held; `none` where it is not held.
  unfoldable pub give_up : O → List O → Option (List O)
  give_up o [] = none
  give_up o (p ∷ held) = let rest = kept p (give_up o held) in if same o p then some held else rest

  -- The objects that are held after the events; `none` if one was released that was not held.
  unfoldable pub settle : List (Event O) → List O → Option (List O)
  unfolding give_up
  settle [] held = some held
  settle (creates o ∷ es) held = settle es (o ∷ held)
  settle (releases o ∷ es) held = elim (give_up o held) [ none ↦ none | some rest ↦ settle es rest ]
