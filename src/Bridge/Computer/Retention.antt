-- ===== src/Bridge/Computer/Retention.antt =====
-- The histories of ComputerHostState in ComputerBridge.hs
-- (packages/agent-native-bridge/ffi/Agent/CLI/MacOS), and what a host holds while registrations
-- are replaced and sessions open and close.
use mathlib.Core.Path.{subst}
use native.Mathlib.Decide.{ℕ_discrete as dec_eq}
use haskell_agent.Base.{
  ℕ, ◌+◌, ◌^◌, ◌≤◌, ◌<◌, ◌≡◌, ◌≢◌, ◌⊎◌, inl, inr, refl, sym, ap, ◌∙◌, Option, none, some, List, [],
  ◌∷◌, ◌++◌, ◌==◌, if◌then◌else◌, arith, none≢some, of_some,
}
use haskell_agent.Bridge.Computer.{
  Generation, Host, new_host, Generations, updated, unless_unused, without_unused, replace, acquire,
  release,
}

-- A session from its lease of a generation to the release.
pub record Lease : Type 0 where
  pub generation : ℕ
  pub registration : ℕ

-- How many sessions hold a generation.
unfoldable pub count : ℕ → List Lease → ℕ
count g [] = 0
count g (l ∷ ls) = (if l.generation == g then 1 else 0) + count g ls

-- What can happen to a host: a registration is replaced or disabled, a session leases the current
-- generation, or one releases its own. A host lives for fewer than 2 ^ 64 replacements.
pub data Step : Host → List Lease → Host → List Lease → Type 0 where
  replaces :
      (h : Host) (ls : List Lease) (r : Option ℕ) → h.next + 1 < 2 ^ 64 → Step h ls (replace r h) ls
  leases :
      (h h' : Host) (ls : List Lease) (g r : ℕ)
      → acquire h ≡ (h', some (g, r))
      → Step h ls h' (record { generation = g; registration = r } ∷ ls)
  releases :
      (h : Host) (before after : List Lease) (l : Lease)
      → Step h (before ++ l ∷ after) (release l.generation h) (before ++ after)

pub data Reach : Host → List Lease → Type 0 where
  starts : Reach new_host []
  steps : {h h' : Host} {ls ls' : List Lease} → Reach h ls → Step h ls h' ls' → Reach h' ls'

-- A generation is kept with its registration, and used by as many sessions as are counted.
abbrev pub IsKept : Generations → Lease → Type 0
IsKept m l = (e : Generation) × (m l.generation ≡ some e) × (e.registration ≡ l.registration)

abbrev pub AllKept : Generations → List Lease → Type 0
AllKept m [] = Unit
AllKept m (l ∷ ls) = IsKept m l × AllKept m ls

pub record IsSound (h : Host) (ls : List Lease) : Type 0 where
  pub kept : AllKept h.generations ls
  pub counted : (g : ℕ) (e : Generation) → h.generations g ≡ some e → e.sessions ≡ count g ls
  pub used :
      (g : ℕ) (e : Generation) → h.generations g ≡ some e → (h.current ≡ some g) ⊎ (0 < e.sessions)
  pub fresh : (g : ℕ) → h.next ≤ g → h.generations g ≡ none

pub updated_self :
    (g : ℕ) (entry : Option Generation) (m : Generations) → updated g entry m g ≡ entry
updated_self g entry m = ground arith

pub updated_other :
    (g j : ℕ) (entry : Option Generation) (m : Generations) → j ≢ g → updated g entry m j ≡ m j
updated_other g j entry m h = ground arith

pub count-append : (g : ℕ) (xs ys : List Lease) → count g (xs ++ ys) ≡ count g xs + count g ys
unfolding count
count-append g [] ys = omega arith
count-append g (x ∷ xs) ys = omega (arith, count-append g xs ys)

pub AllKept-append :
    (m : Generations) (xs ys : List Lease)
    → (AllKept m (xs ++ ys) → AllKept m xs × AllKept m ys)
      × (AllKept m xs → AllKept m ys → AllKept m (xs ++ ys))
AllKept-append m [] ys = ((λ k. (tt, k)), (λ _ k. k))
AllKept-append m (x ∷ xs) ys =
    let (apart, joined) = AllKept-append m xs ys in
    ((λ k. let (a, b) = apart k.1 in ((k.0, a), b)), (λ a b. (a.0, joined a.1 b)))

-- Leases stay kept in a map that changes no generation that they hold.
pub AllKept-map :
    (m n : Generations) (ls : List Lease)
    → ((g : ℕ) (e : Generation)
        → 0 < count g ls
        → m g ≡ some e
        → (f : Generation) × (n g ≡ some f) × (f.registration ≡ e.registration))
    → AllKept m ls
    → AllKept n ls
unfolding count
AllKept-map m n [] h k = tt
AllKept-map m n (l ∷ ls) h ((e, found, same), k) =
    let (f, at, alike) = h l.generation e (ground arith) found in
    (
      (f, at, alike ∙ same),
      AllKept-map m n ls (λ g e held found. h g e (ground (arith, held)) found) k,
    )

pub updated_found :
    (g j : ℕ) (entry : Option Generation) (m : Generations) (e : Generation)
    → updated g entry m j ≡ some e
    → ((j ≡ g) × (entry ≡ some e)) ⊎ ((j ≢ g) × (m j ≡ some e))
updated_found g j entry m e h = elim (dec_eq j g) [
  | yes same ↦ inl (same, sym (updated_self g entry m) ∙ sym (ap (updated g entry m) same) ∙ h)
  | no other ↦ inr (other, sym (updated_other g j entry m other) ∙ h)
]

unless_unused_found :
    (o : Option Generation) (e : Generation)
    → unless_unused o ≡ some e
    → (o ≡ some e) × (0 < e.sessions)
unless_unused_found none e h = cc
unless_unused_found (some f) e h = grind arith

unless_unused-used :
    (o : Option Generation) (e : Generation)
    → o ≡ some e
    → 0 < e.sessions
    → unless_unused o ≡ some e
unless_unused-used none e h used = cc
unless_unused-used (some f) e h used = grind arith

without_unused_found :
    (c : Option ℕ) (m : Generations) (g : ℕ) (e : Generation)
    → without_unused c m g ≡ some e
    → (m g ≡ some e) × ((c ≢ some g) ⊎ (0 < e.sessions))
without_unused_found none m g e h = (h, inl (λ s. none≢some s))
without_unused_found (some c) m g e h = elim (updated_found c g (unless_unused (m c)) m e h) [
  | inl (same, kept) ↦
      let (found, used) = unless_unused_found (m c) e kept in (ap m same ∙ found, inr used)
  | inr (other, found) ↦ (found, inl (λ s. other (sym (of_some s))))
]

without_unused-used :
    (c : Option ℕ) (m : Generations) (g : ℕ) (e : Generation)
    → m g ≡ some e
    → 0 < e.sessions
    → without_unused c m g ≡ some e
without_unused-used none m g e h used = h
without_unused-used (some c) m g e h used = elim (dec_eq g c) [
  | yes same ↦
      ap (updated c (unless_unused (m c)) m) same
      ∙ updated_self c (unless_unused (m c)) m
      ∙ unless_unused-used (m c) e (ap m (sym same) ∙ h) used
  | no other ↦ updated_other c g (unless_unused (m c)) m other ∙ h
]

-- A generation that is not in the map is held by no session.
count-missing :
    (m : Generations) (g : ℕ) (ls : List Lease) → m g ≡ none → AllKept m ls → count g ls ≡ 0
unfolding count
count-missing m g [] e k = refl
count-missing m g (l ∷ ls) e ((f, found, same), k) = elim (dec_eq l.generation g) [
  | yes same ↦ elim (none≢some (sym e ∙ sym (ap m same) ∙ found)) [ ]
  | no other ↦ ground (arith, other, count-missing m g ls e k)
]

pub of_found : {A : Type 0} (o : Option A) → ((a : A) → o ≡ some a → ⊥) → o ≡ none
of_found none h = refl
of_found (some a) h = elim (h a refl) [ ]

module _ (h : Host) (ls : List Lease) (inv : IsSound h ls) where
  abbrev rest : Generations
  rest = without_unused h.current h.generations

  rest_fresh : (g : ℕ) → h.next ≤ g → rest g ≡ none
  rest_fresh g low = of_found (rest g) (λ e found.
      none≢some
        (sym (inv.fresh g low) ∙ (without_unused_found h.current h.generations g e found).0))

  rest_used : (g : ℕ) (e : Generation) → rest g ≡ some e → 0 < e.sessions
  rest_used g e found =
      let (old, unless) = without_unused_found h.current h.generations g e found in
      elim unless [
        | inr used ↦ used
        | inl idle ↦ elim (inv.used g e old) [
          | inl current ↦ elim (idle current) [ ]
          | inr used ↦ used
        ]
      ]

  rest_kept : AllKept rest ls
  rest_kept =
      AllKept-map h.generations rest ls
        (λ g e held found. (
          e,
          without_unused-used h.current h.generations g e found
              (subst (λ n. 0 < n) (sym (inv.counted g e found)) held),
          refl,
        ))
        inv.kept

  rest_counted : (g : ℕ) (e : Generation) → rest g ≡ some e → e.sessions ≡ count g ls
  rest_counted g e found =
      inv.counted g e (without_unused_found h.current h.generations g e found).0

  -- No session holds a generation that is still to come.
  fresh_uncounted : (g : ℕ) (e : Generation) → 0 < count g ls → rest g ≡ some e → g ≢ h.next
  fresh_uncounted g e held found same = none≢some (sym (rest_fresh g (omega arith)) ∙ found)

  pub replace-IsSound : (r : Option ℕ) → h.next + 1 < 2 ^ 64 → IsSound (replace r h) ls
  unfolding replace
  replace-IsSound none small = record {
    kept = rest_kept;
    counted = rest_counted;
    used = λ g e found. inr (rest_used g e found);
    fresh = rest_fresh;
  }
  replace-IsSound (some r) small =
      let new : Generation = record { registration = r; sessions = 0 } in
      record {
        kept =
            AllKept-map rest (updated h.next (some new) rest) ls
              (λ g e held found. (
                e,
                updated_other h.next g (some new) rest (fresh_uncounted g e held found) ∙ found,
                refl,
              ))
              rest_kept;
        counted = λ g e found. elim (updated_found h.next g (some new) rest e found) [
          | inl (same, made) ↦
              ap (λ e. e.sessions) (sym (of_some made))
              ∙ sym (
                  count-missing rest g ls (ap rest same ∙ rest_fresh h.next (omega arith))
                    rest_kept)
          | inr (other, old) ↦ rest_counted g e old
        ];
        used = λ g e found. elim (updated_found h.next g (some new) rest e found) [
          | inl (same, made) ↦ inl (ap some (sym same))
          | inr (other, old) ↦ inr (rest_used g e old)
        ];
        fresh = λ g low.
            updated_other h.next g (some new) rest (λ same. omega arith)
            ∙ rest_fresh g (omega arith);
      }
