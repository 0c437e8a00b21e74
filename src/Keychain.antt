-- ===== src/Keychain.antt =====
-- HaskellAgentMcpKeychain.c of packages/agent-native-bridge/cbits: credential records in the
-- platform's keychain. CoreFoundation, the Security framework and malloc are the parameter
-- `Security`.
pub mod Release
pub mod Resources
pub mod Storage
use haskell_agent.Base.{
  ℕ, ◌*◌, ◌≡◌, Bool, true, false, not, ◌&&◌, ◌||◌, Option, none, some, List, [], ◌∷◌, ◌++◌, ltb,
  ◌==◌, if◌then◌else◌, length,
}
use haskell_agent.Base.Owned.{Event, creates, releases}

-- The four results.
pub data Code : Type 0 where
  success not_found invalid_input failure : Code

abbrev pub maximum_identifier_bytes : ℕ
maximum_identifier_bytes = 4096

abbrev pub maximum_credential_bytes : ℕ
maximum_credential_bytes = 1024 * 1024

-- OSStatus, as far as the source tells its values apart.
pub data Status : Type 0 where
  ok item_not_found duplicate_item other : Status

-- What SecItemCopyMatching hands back: a CFData, or an object of another type.
pub data Item : Type 0 where
  bytes : List ℕ → Item
  foreign : Item

-- The query dictionary: the account, and the keys that are added to it. The class, the service and
-- the key that switches synchronization off are the same in every query.
pub record Query : Type 0 where
  pub account : List ℕ
  pub returns_data : Bool
  pub value : Option (List ℕ)
  pub label : Bool

-- Whether the objects could be made, and what the keychain did.
pub record Security (W : Type 0) : Type 0 where
  -- CFStringCreateWithBytes, with UTF-8
  pub create_string : List ℕ → W → Bool × W
  pub create_dictionary : W → Bool × W
  pub create_data : List ℕ → W → Bool × W
  -- CFDictionaryCreate, with the value
  pub create_attributes : List ℕ → W → Bool × W
  pub allocate : ℕ → W → Bool × W
  pub copy_matching : Query → W → (Status × Option Item) × W
  pub update : Query → List ℕ → W → Status × W
  pub add : Query → W → Status × W
  pub delete : Query → W → Status × W

-- Objects that a call owns.
pub data Object : Type 0 where
  account query result value attributes copy : Object

-- A call either goes on with a value or returns a code.
pub data Outcome (A : Type 0) : Type 0 where
  next : A → Outcome A
  return : Code → Outcome A

abbrev pub M : Type 0 → Type 0 → Type 0
M W A = W → Outcome A × List (Event Object) × W

module _ {W : Type 0} where
  abbrev logged :
      {A : Type 0}
      → List (Event Object)
      → Outcome A × List (Event Object) × W
      → Outcome A × List (Event Object) × W
  logged log (r, log', w) = (r, log ++ log', w)

  abbrev pub and_then :
      {A B : Type 0}
      → (A → M W B)
      → Outcome A × List (Event Object) × W
      → Outcome B × List (Event Object) × W
  and_then f (next a, log, w) = logged log (f a w)
  and_then f (return c, log, w) = (return c, log, w)

  infixl 5 ◌>>=◌ ◌>>◌
  abbrev pub ◌>>=◌ : {A B : Type 0} → M W A → (A → M W B) → M W B
  ◌>>=◌ m f w = and_then f (m w)

  abbrev pub ◌>>◌ : {A B : Type 0} → M W A → M W B → M W B
  m >> k = m >>= λ _. k

  abbrev pub pure : {A : Type 0} → A → M W A
  pure a w = (next a, [], w)

  abbrev pub exit : {A : Type 0} → Code → M W A
  exit c w = (return c, [], w)

  abbrev pub emit : Event Object → M W (Unit {0})
  emit e w = (next tt, e ∷ [], w)

  -- A call of the platform that reports a value.
  abbrev pub call : {A : Type 0} → (W → A × W) → M W A
  call f w = let (a, w') = f w in (next a, [], w')

  -- `if (condition) return code;`
  abbrev pub return_if : Bool → Code → M W (Unit {0})
  return_if true c = exit c
  return_if false c = pure tt

  -- A call that makes an object, or reports NULL.
  abbrev pub made : Bool → Object → M W Bool
  made true o w = (next true, creates o ∷ [], w)
  made false o w = (next false, [], w)

-- memchr (identifier, 0, length) != NULL
unfoldable pub has_nul : List ℕ → Bool
has_nul [] = false
has_nul (b ∷ bs) = b == 0 || has_nul bs

abbrev is_empty : List ℕ → Bool
is_empty [] = true
is_empty (_ ∷ _) = false

-- The first test of credential_query.
unfoldable pub bad_identifier : List ℕ → Bool
unfolding has_nul
bad_identifier identifier =
    is_empty identifier || ltb maximum_identifier_bytes (length identifier) || has_nul identifier

module _ {W : Type 0} (sec : Security W) where
  abbrev pub plain_query : List ℕ → Query
  plain_query name = record { account = name; returns_data = false; value = none; label = false }

  -- The end of credential_query: the dictionary, and the release of the account's string.
  abbrev query_made : List ℕ → Bool → M W (Option Query)
  query_made name found = do
    emit (releases account)
    pure (if found then some (plain_query name) else none)

  abbrev with_account : List ℕ → Bool → M W (Option Query)
  with_account name false = pure none
  with_account name true = do
    found ← call sec.create_dictionary
    filled ← made found query
    query_made name filled

  -- credential_query: `none` for NULL; so is the argument.
  unfoldable pub credential_query : Option (List ℕ) → M W (Option Query)
  unfolding bad_identifier
  credential_query none = pure none
  credential_query (some name) = if bad_identifier name then pure none else (do
    converted ← call (sec.create_string name)
    named ← made converted account
    with_account name named)

  -- `if (!query) return code;`
  abbrev query_or : Code → Option Query → M W Query
  query_or c none = exit c
  query_or c (some q) = pure q

  abbrev owned_result : Option Item → M W (Option Item)
  owned_result none = pure none
  owned_result (some i) = do emit (creates result); pure (some i)

  -- `CFRelease(result); return code;`
  abbrev drop_result : {A : Type 0} → Code → M W A
  drop_result c = do emit (releases result); exit c

  abbrev copied : List ℕ → Bool → M W (List ℕ)
  copied stored false = drop_result failure
  copied stored true = do emit (creates copy); emit (releases result); pure stored

  -- From the type test of the result on.
  unfoldable pub copy_item : Item → M W (List ℕ)
  copy_item foreign = drop_result failure
  copy_item (bytes stored) =
      if is_empty stored || ltb maximum_credential_bytes (length stored)
      then drop_result failure
      else (do room ← call (sec.allocate (length stored)); copied stored room)

  -- The tests of the status.
  unfoldable pub read_result : Status → Option Item → M W (List ℕ)
  unfolding copy_item
  read_result item_not_found found = exit not_found
  read_result ok (some item) = copy_item item
  read_result _ none = exit failure
  read_result _ (some _) = drop_result failure

  -- The end of agent_mcp_keychain_read, once the search has answered.
  unfoldable pub examine : Status × Option Item → M W (List ℕ)
  unfolding read_result
  examine (status, found) = do
    item ← owned_result found
    emit (releases query)
    read_result status item

  abbrev pub returning_query : Query → Query
  returning_query q = record q { returns_data = true }

  -- The search, with the keys that ask for one record's data.
  unfoldable pub search_item : Query → M W (List ℕ)
  unfolding examine
  search_item q = do answer ← call (sec.copy_matching (returning_query q)); examine answer

  -- What agent_mcp_keychain_read does with credential_query's result.
  unfoldable pub search_or : Option Query → M W (List ℕ)
  unfolding search_item
  search_or none = exit invalid_input
  search_or (some q) = search_item q

  -- agent_mcp_keychain_read; `wanted` tells whether both output pointers were given.
  unfoldable pub keychain_read : Option (List ℕ) → Bool → M W (List ℕ)
  unfolding credential_query search_or
  keychain_read identifier true = do q ← credential_query identifier; search_or q
  keychain_read identifier false = exit invalid_input

  -- Another process may have added the account after the update: update once more.
  abbrev retry : Query → List ℕ → Status → M W Status
  retry q secret duplicate_item = call (sec.update q secret)
  retry q secret status = pure status

  -- SecItemAdd where there was nothing to update. The two keys are taken off the query again.
  unfoldable pub add_if_absent : Query → List ℕ → Status → M W Status
  add_if_absent q secret item_not_found = do
    status ← call (sec.add (record q { value = some secret; label = true }))
    retry q secret status
  add_if_absent q secret status = pure status

  abbrev ended : Status → M W (Unit {0})
  ended ok = exit success
  ended _ = exit failure

  -- From the dictionary of attributes on.
  unfoldable pub update_record : Query → List ℕ → Bool → M W (Unit {0})
  unfolding add_if_absent
  update_record q secret false = do emit (releases value); emit (releases query); exit failure
  update_record q secret true = do
    updated ← call (sec.update q secret)
    status ← add_if_absent q secret updated
    emit (releases attributes)
    emit (releases value)
    emit (releases query)
    ended status

  -- From the CFData on.
  unfoldable pub store_value : Query → List ℕ → Bool → M W (Unit {0})
  unfolding update_record
  store_value q secret false = do emit (releases query); exit failure
  store_value q secret true = do
    filled ← call (sec.create_attributes secret)
    found ← made filled attributes
    update_record q secret found

  -- agent_mcp_keychain_write. It returns a code on every path.
  unfoldable pub keychain_write : Option (List ℕ) → Option (List ℕ) → M W (Unit {0})
  unfolding credential_query store_value
  keychain_write identifier none = exit invalid_input
  keychain_write identifier (some secret) =
      if is_empty secret || ltb maximum_credential_bytes (length secret)
      then exit invalid_input
      else (do
        q ← query_or invalid_input (← credential_query identifier)
        converted ← call (sec.create_data secret)
        found ← made converted value
        store_value q secret found)

  abbrev deleted : Status → M W (Unit {0})
  deleted ok = exit success
  deleted item_not_found = exit success
  deleted _ = exit failure

  -- agent_mcp_keychain_delete
  unfoldable pub keychain_delete : Option (List ℕ) → M W (Unit {0})
  unfolding credential_query
  keychain_delete identifier = do
    q ← query_or invalid_input (← credential_query identifier)
    status ← call (sec.delete q)
    emit (releases query)
    deleted status
