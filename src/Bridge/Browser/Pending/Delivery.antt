-- ===== src/Bridge/Browser/Pending/Delivery.antt =====
-- Each completion of a waiting request reaches the MVar that was made for it, once.
use mathlib.Core.Path.{subst}
use haskell_agent.Base.{
  ℕ, ◌+◌, ◌≤◌, ◌<◌, ◌≡◌, ◌⊎◌, inl, inr, sym, ap, ◌∙◌, Option, none, some, List, [], ◌∷◌, length,
  arith, Option-cases,
}
use haskell_agent.Bridge.Browser.Pending.Entries.{lookup_tail, lookup_cons, lookup-delete_sub}
use haskell_agent.Bridge.Browser.Pending.{
  Registry, lookup, delete, register, register_with, unregister, try_put, put_found, complete,
  next_available, insert_at,
}

-- What holds of the registry between two calls: an MVar that waits is one that was made and not
-- filled, and no two numbers lead to the same one.
pub record IsConsistent (R : Type 0) (s : Registry R) : Type 0 where
  pub waiting :
      (id slot : ℕ)
      → lookup id s.pending ≡ some slot
      → (slot < s.slots_made) × (lookup slot s.filled ≡ none)
  pub made : (slot : ℕ) → s.slots_made ≤ slot → lookup slot s.filled ≡ none
  pub distinct :
      (id other slot : ℕ)
      → lookup id s.pending ≡ some slot
      → lookup other s.pending ≡ some slot
      → id ≡ other

-- A call of the registry's operations.
pub data Call (R : Type 0) : Type 0 where
  registers : Call R
  unregisters : ℕ → Call R
  completes : ℕ → R → Call R

module _ {R : Type 0} where
  abbrev pub registered : Registry R → Option (ℕ × ℕ × Registry R) → Registry R
  registered s none = s
  registered s (some (_, _, s')) = s'

  unfoldable pub after : Call R → Registry R → Registry R
  after registers s = registered s (register s)
  after (unregisters id) s = unregister id s
  after (completes id result) s = complete id result s

  unfoldable pub run : List (Call R) → Registry R → Registry R
  run [] s = s
  run (c ∷ cs) s = run cs (after c s)

  pub delete-IsConsistent :
      (id : ℕ) (s : Registry R)
      → IsConsistent R s
      → IsConsistent R (record s { pending = delete id s.pending })
  delete-IsConsistent id s inv = record {
    waiting = λ i slot e. inv.waiting i slot (lookup-delete_sub i id slot s.pending e).1;
    made = inv.made;
    distinct = λ i j slot e f.
        inv.distinct i j slot (lookup-delete_sub i id slot s.pending e).1
          (lookup-delete_sub j id slot s.pending f).1;
  }

  -- The entries after a registration: the new one, or one from before.
  insert_at_entry :
      (id : ℕ) (s : Registry R) (i slot : ℕ)
      → lookup i (insert_at s id).pending ≡ some slot
      → ((i ≡ id) × (s.slots_made ≡ slot)) ⊎ (lookup i s.pending ≡ some slot)
  insert_at_entry id s i slot e =
      elim (lookup_cons i id s.slots_made slot (delete id s.pending) e) [
        | inl new ↦ inl new
        | inr (_, old) ↦ inr (lookup-delete_sub i id slot s.pending old).1
      ]

  insert_at-IsConsistent :
      (id : ℕ) (s : Registry R) → IsConsistent R s → IsConsistent R (insert_at s id)
  insert_at-IsConsistent id s inv = record {
    waiting = λ i slot e. elim (insert_at_entry id s i slot e) [
      | inl (_, new) ↦ ((omega arith), inv.made slot (omega arith))
      | inr old ↦ let (low, empty) = inv.waiting i slot old in ((omega arith), empty)
    ];
    made = λ slot h. inv.made slot (omega arith);
    distinct = λ i j slot e f. elim (insert_at_entry id s i slot e) [
      | inl (new, at) ↦ elim (insert_at_entry id s j slot f) [
        | inl (new', _) ↦ new ∙ sym new'
        | inr old ↦ let (low, _) = inv.waiting j slot old in omega arith
      ]
      | inr old ↦ elim (insert_at_entry id s j slot f) [
        | inl (_, at) ↦ let (low, _) = inv.waiting i slot old in omega arith
        | inr old' ↦ inv.distinct i j slot old old'
      ]
    ];
  }

  abbrev pub deleted : ℕ → Registry R → Registry R
  deleted id s = record s { pending = delete id s.pending }

  abbrev pub delivered : ℕ → ℕ → R → Registry R → Registry R
  delivered id slot r s = record s { pending = delete id s.pending; filled = (slot, r) ∷ s.filled }

  try_put_empty :
      (id slot : ℕ) (r : R) (s : Registry R)
      → lookup slot s.filled ≡ none
      → try_put slot r (deleted id s) ≡ delivered id slot r s
  unfolding try_put
  try_put_empty id slot r s e = simp e

  delivered-IsConsistent :
      (id slot : ℕ) (r : R) (s : Registry R)
      → IsConsistent R s
      → lookup id s.pending ≡ some slot
      → IsConsistent R (delivered id slot r s)
  delivered-IsConsistent id slot r s inv found = record {
    waiting = λ i other e.
        let (i≢id, old) = lookup-delete_sub i id other s.pending e in
        let (low, empty) = inv.waiting i other old in
        (
          low,
          lookup_tail other slot r s.filled (λ same.
                i≢id (
                  inv.distinct i id slot (subst (λ o. lookup i s.pending ≡ some o) same old) found))
              ∙ empty,
        );
    made = λ other h.
        let (low, _) = inv.waiting id slot found in
        lookup_tail other slot r s.filled (λ same. omega arith) ∙ inv.made other h;
    distinct = (delete-IsConsistent id s inv).distinct;
  }

  pub complete_found :
      (id slot : ℕ) (r : R) (s : Registry R)
      → IsConsistent R s
      → lookup id s.pending ≡ some slot
      → complete id r s ≡ delivered id slot r s
  unfolding complete put_found
  complete_found id slot r s inv found =
      ap (λ o. put_found o r (deleted id s)) found
      ∙ try_put_empty id slot r s (inv.waiting id slot found).1

  pub complete_missing :
      (id : ℕ) (r : R) (s : Registry R)
      → lookup id s.pending ≡ none
      → complete id r s ≡ deleted id s
  unfolding complete put_found
  complete_missing id r s missing = ap (λ o. put_found o r (deleted id s)) missing

  pub complete-IsConsistent :
      (id : ℕ) (r : R) (s : Registry R) → IsConsistent R s → IsConsistent R (complete id r s)
  complete-IsConsistent id r s inv = elim (Option-cases (lookup id s.pending)) [
    | inl missing ↦
        subst (IsConsistent R) (sym (complete_missing id r s missing))
          (delete-IsConsistent id s inv)
    | inr (slot, found) ↦
        subst (IsConsistent R) (sym (complete_found id slot r s inv found))
          (delivered-IsConsistent id slot r s inv found)
  ]

  pub register-IsConsistent :
      (s : Registry R) → IsConsistent R s → IsConsistent R (registered s (register s))
  unfolding register register_with
  register-IsConsistent s inv =
      by_number (next_available (length s.pending + 1) s.next_id s.pending)
    where
      by_number : (o : Option ℕ) → IsConsistent R (registered s (register_with s o))
      by_number none = inv
      by_number (some id) = insert_at-IsConsistent id s inv

  -- The registry is consistent after any calls of its operations: an MVar that waits was made and
  -- is not filled, and no two numbers lead to the same one.
  pub run-IsConsistent :
      (calls : List (Call R)) (s : Registry R) → IsConsistent R s → IsConsistent R (run calls s)
  unfolding run after unregister
  run-IsConsistent [] s inv = inv
  run-IsConsistent (Call.registers ∷ cs) s inv = run-IsConsistent cs _ (register-IsConsistent s inv)
  run-IsConsistent (Call.unregisters id ∷ cs) s inv =
      run-IsConsistent cs _ (delete-IsConsistent id s inv)
  run-IsConsistent (Call.completes id r ∷ cs) s inv =
      run-IsConsistent cs _ (complete-IsConsistent id r s inv)
