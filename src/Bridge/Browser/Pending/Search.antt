-- ===== src/Bridge/Browser/Pending/Search.antt =====
-- The search for a free number of nextAvailableBrowserPendingId ends: it meets each entry at most
-- once before it finds one.
use haskell_agent.Base.{
  ℕ, zero, suc, ◌+◌, ◌-◌, ◌≤◌, ◌<◌, ◌≡◌, ◌⊎◌, inl, inr, true, false, some, List, [], ◌∷◌, ltb,
  if◌then◌else◌, length, arith, Bool-cases, sym,
}
use mathlib.Core.Path.{subst}
use haskell_agent.Bridge.Browser.Pending.{
  max_bound, increment_pending_id, lookup, is_some, next_available,
}

abbrev pub IsId : ℕ → Type 0
IsId id = (1 ≤ id) × (id ≤ max_bound)

-- How many steps lead from one number to another.
distance : ℕ → ℕ → ℕ
distance from to = if ltb to from then (to + max_bound) - from else to - from

-- The entries that are less than so many steps away.
count {ℓ} : {A : Type ℓ} → ℕ → ℕ → List (ℕ × A) → ℕ
count from steps [] = 0
count from steps ((j, _) ∷ entries) =
    (if ltb (distance from j) steps then 1 else 0) + count from steps entries

increment_pending_id-IsId : (to : ℕ) → IsId to → IsId (increment_pending_id to)
unfolding increment_pending_id
increment_pending_id-IsId to (low, high) = (ground arith, ground arith)

distance_self : (from : ℕ) → distance from from ≡ 0
unfolding distance
distance_self from = ground arith

distance_next :
    (from to : ℕ)
    → IsId from
    → IsId to
    → distance from to + 1 < max_bound
    → distance from (increment_pending_id to) ≡ distance from to + 1
unfolding distance increment_pending_id
distance_next from to (f1, f2) (t1, t2) h = ground arith

count-length {ℓ} :
    {A : Type ℓ} (from steps : ℕ) (entries : List (ℕ × A))
    → count from steps entries ≤ length entries
unfolding count
count-length from steps [] = omega arith
count-length from steps ((j, _) ∷ entries) = ground (arith, count-length from steps entries)

count_grows {ℓ} :
    {A : Type ℓ} (from steps : ℕ) (entries : List (ℕ × A))
    → count from steps entries ≤ count from (steps + 1) entries
unfolding count
count_grows from steps [] = omega arith
count_grows from steps ((j, _) ∷ entries) = ground (arith, count_grows from steps entries)

count_member {ℓ} :
    {A : Type ℓ} (from to : ℕ) (entries : List (ℕ × A))
    → is_some (lookup to entries) ≡ true
    → count from (distance from to) entries + 1 ≤ count from (distance from to + 1) entries
unfolding count lookup
count_member from to [] h = cc
count_member from to ((j, _) ∷ entries) h =
    ground (arith, count_member from to entries, count_grows from (distance from to) entries)

abbrev Met {ℓ} : {A : Type ℓ} → List (ℕ × A) → ℕ → ℕ → Type 0
Met entries from steps = steps ≤ count from steps entries

-- A search that starts so many steps on finds a free number, or has met as many entries as it
-- made steps.
search_lem {ℓ} :
    {A : Type ℓ} (entries : List (ℕ × A)) (fuel from to : ℕ)
    → IsId from
    → IsId to
    → distance from to + fuel < max_bound
    → distance from to ≤ count from (distance from to) entries
    → ((id : ℕ) × (next_available fuel to entries ≡ some id)
        × IsId id
        × (is_some (lookup id entries) ≡ false))
      ⊎ (distance from to + fuel ≤ count from (distance from to + fuel) entries)
unfolding next_available
search_lem entries zero from to f t h met = inr (subst (Met entries from) (omega arith) met)
search_lem entries (suc fuel) from to f t h met = elim (Bool-cases (is_some (lookup to entries))) [
  | inr unused ↦ inl (to, (simp unused), t, unused)
  | inl used ↦
      let next = distance_next from to f t (omega arith) in
      let seen = count_member from to entries used in
      let rest =
        search_lem entries fuel from (increment_pending_id to) f (increment_pending_id-IsId to t)
          (omega arith) (subst (Met entries from) (sym next) (omega arith)) in
      elim rest [
        | inl (id, found, valid, free) ↦ inl (id, (simp (used, found)), valid, free)
        | inr more ↦ inr (subst (Met entries from) (omega arith) more)
      ]
]

impossible : {n c d : ℕ} → d + (n + 1) ≤ c → c ≤ n → d ≡ 0 → ⊥
impossible a b e = omega arith

too_many {ℓ κ} :
    {A : Type ℓ} {B : Type κ} (entries : List (ℕ × A)) (start : ℕ)
    → Met entries start (distance start start + (length entries + 1))
    → B
too_many entries start more =
    let self = distance_self start in
    let bound = count-length start (distance start start + (length entries + 1)) entries in
    elim (impossible more bound self) [ ]

-- The search ends within one more round than there are entries, whatever number it starts from:
-- it gives a number that is not 0, fits 64 bits and is not registered. The condition is that fewer
-- than 2 ^ 64 - 2 requests are registered.
pub next_available-finds {ℓ} :
    {A : Type ℓ} (entries : List (ℕ × A)) (start : ℕ)
    → IsId start
    → length entries + 1 < max_bound
    → (id : ℕ) × (next_available (length entries + 1) start entries ≡ some id)
      × IsId id
      × (is_some (lookup id entries) ≡ false)
next_available-finds entries start valid few =
    let self = distance_self start in
    elim (search_lem entries (length entries + 1) start start valid valid (omega arith)
      (omega arith)) [ inl found ↦ found | inr more ↦ too_many entries start more ]
