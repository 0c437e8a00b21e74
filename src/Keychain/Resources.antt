-- ===== src/Keychain/Resources.antt =====
-- What the keychain's calls own, on every path.
use haskell_agent.Base.{ℕ, ◌≡◌, refl, Bool, true, false, Option, none, some, List, [], ◌∷◌, arith}
use haskell_agent.Base.Owned.{settle}
use haskell_agent.Keychain.{
  item_not_found, Query, Security, Object, account, query, result, value, attributes, copy, Outcome,
  next, return, keychain_read, keychain_write, keychain_delete,
}

-- Which objects are one.
unfoldable pub same : Object → Object → Bool
same account account = true
same query query = true
same result result = true
same value value = true
same attributes attributes = true
same copy copy = true
same _ _ = false

module _ {W : Type 0} (sec : Security W) where
  -- agent_mcp_keychain_write releases, on every path, exactly what it has created.
  pub keychain_write-settles :
      (identifier secret : Option (List ℕ)) (w : W)
      → settle same (keychain_write sec identifier secret w).1 [] ≡ some []
  unfolding keychain_write settle same
  keychain_write-settles identifier secret w = ground arith

  -- agent_mcp_keychain_delete releases, on every path, exactly what it has created.
  pub keychain_delete-settles :
      (identifier : Option (List ℕ)) (w : W)
      → settle same (keychain_delete sec identifier w).1 [] ≡ some []
  unfolding keychain_delete settle same
  keychain_delete-settles identifier w = ground arith

  -- What the caller is left to release.
  abbrev pub handed_over : Outcome (List ℕ) → List Object
  handed_over (next _) = copy ∷ []
  handed_over (return _) = []

  -- agent_mcp_keychain_read leaves the copy that it returns, and otherwise nothing, if a search
  -- that reports no item hands back no object.
  pub keychain_read-settles :
      (identifier : Option (List ℕ)) (wanted : Bool) (w : W)
      → ((q : Query) (v : W)
          → (sec.copy_matching q v).0.0 ≡ item_not_found
          → (sec.copy_matching q v).0.1 ≡ none)
      → settle same (keychain_read sec identifier wanted w).1 []
        ≡ some (handed_over (keychain_read sec identifier wanted w).0)
  unfolding keychain_read settle same
  keychain_read-settles identifier true w h = grind (arith, h)
  keychain_read-settles identifier false w h = refl
