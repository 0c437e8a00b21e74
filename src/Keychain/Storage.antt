-- ===== src/Keychain/Storage.antt =====
-- The keychain as a table of records by account: what a write stores, a read returns, and a
-- deletion removes.
use haskell_agent.Base.{
  ℕ, ◌≡◌, ◌≢◌, refl, sym, ◌∙◌, Bool, true, false, Option, ◌⊎◌, inl, inr, of_some, none, some, List,
  arith,
}
use haskell_agent.Base.Owned.{Event}
use haskell_agent.Keychain.{
  success, Status, ok, item_not_found, Item, bytes, foreign, Query, Security, Outcome, next, return,
  credential_query, Object, and_then, plain_query, returning_query, examine, search_or, read_result,
  keychain_read, keychain_write, keychain_delete,
}

-- What the Security framework documents of the generic password items of one service.
pub record Table {W : Type 0} (sec : Security W) : Type 0 where
  pub stored : W → List ℕ → Option (List ℕ)
  -- Making an object leaves the keychain alone.
  pub string_keeps : (name : List ℕ) (w : W) → stored (sec.create_string name w).1 ≡ stored w
  pub dictionary_keeps : (w : W) → stored (sec.create_dictionary w).1 ≡ stored w
  pub data_keeps : (secret : List ℕ) (w : W) → stored (sec.create_data secret w).1 ≡ stored w
  pub attributes_keep :
      (secret : List ℕ) (w : W) → stored (sec.create_attributes secret w).1 ≡ stored w
  pub allocate_keeps : (n : ℕ) (w : W) → stored (sec.allocate n w).1 ≡ stored w
  -- A search changes nothing and finds the record of the account.
  pub copy_keeps : (q : Query) (w : W) → stored (sec.copy_matching q w).1 ≡ stored w
  pub copy_ok :
      (q : Query) (w : W) (b : List ℕ)
      → (sec.copy_matching q w).0 ≡ (ok, some (bytes b))
      → stored w q.account ≡ some b
  pub copy_absent :
      (q : Query) (w : W) → (sec.copy_matching q w).0.0 ≡ item_not_found → stored w q.account ≡ none
  -- An update of the query's account, whose query holds no value.
  pub update_ok :
      (q : Query) (secret : List ℕ) (w : W)
      → q.value ≡ none
      → (sec.update q secret w).0 ≡ ok
      → stored (sec.update q secret w).1 q.account ≡ some secret
  -- An addition of the query's own value.
  pub add_ok :
      (q : Query) (w : W) → (sec.add q w).0 ≡ ok → stored (sec.add q w).1 q.account ≡ q.value
  pub delete_ok :
      (q : Query) (w : W) → (sec.delete q w).0 ≡ ok → stored (sec.delete q w).1 q.account ≡ none
  pub delete_absent :
      (q : Query) (w : W)
      → (sec.delete q w).0 ≡ item_not_found
      → stored (sec.delete q w).1 q.account ≡ none
  -- No call touches the record of another account.
  pub update_other :
      (q : Query) (secret : List ℕ) (w : W) (j : List ℕ)
      → j ≢ q.account
      → stored (sec.update q secret w).1 j ≡ stored w j
  pub add_other :
      (q : Query) (w : W) (j : List ℕ) → j ≢ q.account → stored (sec.add q w).1 j ≡ stored w j
  pub delete_other :
      (q : Query) (w : W) (j : List ℕ) → j ≢ q.account → stored (sec.delete q w).1 j ≡ stored w j

module _ {W : Type 0} (sec : Security W) (table : Table sec) where
  open table use {stored}

  -- A write that reports success has stored exactly the value that it was given.
  pub keychain_write-stored :
      (name secret : List ℕ) (w : W)
      → (keychain_write sec (some name) (some secret) w).0 ≡ return success
      → stored (keychain_write sec (some name) (some secret) w).2 name ≡ some secret
  unfolding keychain_write
  keychain_write-stored name secret w e = grind (arith, table.update_ok, table.add_ok)

  -- Whatever it reports, a write leaves every other account as it was.
  pub keychain_write-other :
      (name secret j : List ℕ) (w : W)
      → j ≢ name
      → stored (keychain_write sec (some name) (some secret) w).2 j ≡ stored w j
  unfolding keychain_write
  keychain_write-other name secret j w h = grind (
    arith, table.update_other, table.add_other, table.string_keeps, table.dictionary_keeps,
    table.data_keeps, table.attributes_keep,
  )

  read_result-next :
      (status : Status) (item : Option Item) (w : W) (b : List ℕ)
      → (read_result sec status item w).0 ≡ next b
      → (status ≡ ok) × (item ≡ some (bytes b))
  unfolding read_result
  read_result-next ok (some (bytes c)) w b e = ground arith
  read_result-next ok (some foreign) w b e = cc
  read_result-next item_not_found item w b e = cc
  read_result-next status none w b e = ground arith
  read_result-next status (some i) w b e = ground arith

  examine-next :
      (answer : Status × Option Item) (w : W) (b : List ℕ)
      → (examine sec answer w).0 ≡ next b
      → answer ≡ (ok, some (bytes b))
  unfolding examine
  examine-next (status, none) w b e = let fits = read_result-next status none w b e in cc
  examine-next (status, some item) w b e =
      let (p, q) = read_result-next status (some item) w b e in λ i. (p i, q i)

  -- The query that credential_query makes, and that it leaves the keychain alone.
  credential_query-cases :
      (name : List ℕ) (w : W)
      → let (r, _, w') = credential_query sec (some name) w in
        (stored w' ≡ stored w) × ((r ≡ next none) ⊎ (r ≡ next (some (plain_query sec name))))
  unfolding credential_query
  credential_query-cases name w = grind (arith, table.string_keeps, table.dictionary_keeps)

  read_from :
      (name : List ℕ) (w : W) (b : List ℕ) (p : Outcome (Option Query) × List (Event Object) × W)
      → stored p.2 ≡ stored w
      → (p.0 ≡ next none) ⊎ (p.0 ≡ next (some (plain_query sec name)))
      → (and_then (search_or sec) p).0 ≡ next b
      → stored w name ≡ some b
  unfolding search_or
  read_from name w b (next none, log, v) same (inl r) e = cc
  read_from name w b (next none, log, v) same (inr r) e = cc
  read_from name w b (next (some q), log, v) same (inl r) e = cc
  read_from name w b (next (some q), log, v) same (inr r) e =
      let hit = table.copy_ok (returning_query sec q) v b (examine-next _ _ b e) in
      let named : q.account ≡ name = cc in rw (← same, ← named) hit
  read_from name w b (return c, log, v) same r e = cc

  -- A read that returns bytes returns those of the stored record.
  pub keychain_read-stored :
      (name : List ℕ) (wanted : Bool) (w : W) (b : List ℕ)
      → (keychain_read sec (some name) wanted w).0 ≡ next b
      → stored w name ≡ some b
  unfolding keychain_read
  keychain_read-stored name true w b e =
      let (same, cases) = credential_query-cases name w in
      read_from name w b (credential_query sec (some name) w) same cases e
  keychain_read-stored name false w b e = cc

  read_result-keeps :
      (status : Status) (item : Option Item) (w : W)
      → stored (read_result sec status item w).2 ≡ stored w
  unfolding read_result
  read_result-keeps ok (some (bytes c)) w = grind (arith, table.allocate_keeps)
  read_result-keeps ok (some foreign) w = refl
  read_result-keeps item_not_found item w = refl
  read_result-keeps status none w = ground arith
  read_result-keeps status (some i) w = ground arith

  examine-keeps :
      (answer : Status × Option Item) (w : W) → stored (examine sec answer w).2 ≡ stored w
  unfolding examine
  examine-keeps (status, none) w = read_result-keeps status none w
  examine-keeps (status, some item) w = read_result-keeps status (some item) w

  null_keeps : (w : W) → stored (credential_query sec none w).2 ≡ stored w
  unfolding credential_query
  null_keeps w = refl

  kept_from :
      (w : W) (p : Outcome (Option Query) × List (Event Object) × W)
      → stored p.2 ≡ stored w
      → stored (and_then (search_or sec) p).2 ≡ stored w
  unfolding search_or
  kept_from w (next none, log, v) same = same
  kept_from w (next (some q), log, v) same =
      examine-keeps (sec.copy_matching (returning_query sec q) v).0 _
      ∙ table.copy_keeps (returning_query sec q) v
      ∙ same
  kept_from w (return c, log, v) same = same

  -- A read changes nothing, whatever it reports.
  pub keychain_read-keeps :
      (identifier : Option (List ℕ)) (wanted : Bool) (w : W)
      → stored (keychain_read sec identifier wanted w).2 ≡ stored w
  unfolding keychain_read
  keychain_read-keeps none true w = kept_from w (credential_query sec none w) (null_keeps w)
  keychain_read-keeps (some name) true w =
      kept_from w (credential_query sec (some name) w) (credential_query-cases name w).0
  keychain_read-keeps identifier false w = refl

  -- After a deletion that reports success the account has no record, also if it had none before.
  pub keychain_delete-gone :
      (name : List ℕ) (w : W)
      → (keychain_delete sec (some name) w).0 ≡ return success
      → stored (keychain_delete sec (some name) w).2 name ≡ none
  unfolding keychain_delete
  keychain_delete-gone name w e = grind (arith, table.delete_ok, table.delete_absent)

  -- What was written is read back: a read that follows a successful write of the account, and that
  -- returns bytes, returns the written ones.
  pub keychain_read-write :
      (name secret : List ℕ) (w : W) (b : List ℕ)
      → (keychain_write sec (some name) (some secret) w).0 ≡ return success
      → (keychain_read sec (some name) true (keychain_write sec (some name) (some secret) w).2).0
        ≡ next b
      → b ≡ secret
  keychain_read-write name secret w b e h =
      of_some (sym (keychain_read-stored name true _ b h) ∙ keychain_write-stored name secret w e)
