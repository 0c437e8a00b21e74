-- ===== src/Bridge/Browser/Pending.antt =====
-- The requests that wait for their completion: the registry of BrowserBridge.hs
-- (packages/agent-native-bridge/ffi/Agent/CLI/MacOS). A host completes a request by the number
-- that the runtime gave it as completion_context.
pub mod Entries
pub mod Search
pub mod Delivery
pub mod Completion
use haskell_agent.Base.{
  ℕ, zero, suc, ◌+◌, ◌-◌, ◌^◌, ◌<◌, Bool, true, false, Option, none, some, List, [], ◌∷◌, ◌==◌,
  if◌then◌else◌, length,
}

abbrev pub max_bound : ℕ
max_bound = 2 ^ 64 - 1

-- incrementBrowserPendingId
unfoldable pub increment_pending_id : ℕ → ℕ
increment_pending_id id = if id == max_bound then 1 else id + 1

-- Map.lookup and Map.delete on the entries of a map.
unfoldable pub lookup {ℓ} : {A : Type ℓ} → ℕ → List (ℕ × A) → Option A
lookup k [] = none
lookup k ((j, a) ∷ entries) = let rest = lookup k entries in if j == k then some a else rest

unfoldable pub delete {ℓ} : {A : Type ℓ} → ℕ → List (ℕ × A) → List (ℕ × A)
delete k [] = []
delete k ((j, a) ∷ entries) =
    let rest = delete k entries in if j == k then rest else ((j, a) ∷ rest)

abbrev pub is_some {ℓ} : {A : Type ℓ} → Option A → Bool
is_some none = false
is_some (some _) = true

-- nextAvailableBrowserPendingId, with fuel.
unfoldable pub next_available {ℓ} : {A : Type ℓ} → ℕ → ℕ → List (ℕ × A) → Option ℕ
next_available zero candidate pending = none
next_available (suc fuel) candidate pending =
    let later = next_available fuel (increment_pending_id candidate) pending in
    if is_some (lookup candidate pending) then later else some candidate

-- The registry, and the MVars: how many were made, and the contents of those that were filled.
pub record Registry (R : Type 0) : Type 0 where
  pub next_id : ℕ
  pub pending : List (ℕ × ℕ)
  pub slots_made : ℕ
  pub filled : List (ℕ × R)

abbrev pub initial : {R : Type 0} → Registry R
initial = record { next_id = 1; pending = []; slots_made = 0; filled = [] }

module _ {R : Type 0} where
  abbrev insert_at : Registry R → ℕ → Registry R
  insert_at s id = record s {
    next_id = increment_pending_id id;
    pending = (id, s.slots_made) ∷ delete id s.pending;
    slots_made = s.slots_made + 1;
  }

  -- registerBrowserPending: the number, the MVar and the registry afterwards. One more round than
  -- there are entries is enough to find a number.
  unfoldable pub register_with : Registry R → Option ℕ → Option (ℕ × ℕ × Registry R)
  register_with s none = none
  register_with s (some id) = some (id, s.slots_made, insert_at s id)

  unfoldable pub register : Registry R → Option (ℕ × ℕ × Registry R)
  register s = register_with s (next_available (length s.pending + 1) s.next_id s.pending)

  -- unregisterBrowserPending
  unfoldable pub unregister : ℕ → Registry R → Registry R
  unregister id s = record s { pending = delete id s.pending }

  -- browserPendingIsRegistered
  unfoldable pub is_registered : ℕ → Registry R → Bool
  is_registered id s = is_some (lookup id s.pending)

  -- tryPutMVar
  unfoldable pub try_put : ℕ → R → Registry R → Registry R
  try_put slot result s =
      if is_some (lookup slot s.filled) then s else record s { filled = (slot, result) ∷ s.filled }

  unfoldable pub put_found : Option ℕ → R → Registry R → Registry R
  put_found none result s = s
  put_found (some slot) result s = try_put slot result s

  -- completeBrowserPending
  unfoldable pub complete : ℕ → R → Registry R → Registry R
  complete id result s =
      put_found (lookup id s.pending) result (record s { pending = delete id s.pending })
