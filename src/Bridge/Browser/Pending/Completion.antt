-- ===== src/Bridge/Browser/Pending/Completion.antt =====
-- From the registration of a browser request to its completion, whatever other requests do in
-- between.
use mathlib.Core.Path.{subst}
use haskell_agent.Base.{
  ℕ, zero, suc, ◌+◌, ◌≡◌, ◌≢◌, refl, sym, ap, ◌∙◌, Option, none, some, List, [], ◌∷◌, length, arith,
  of_some, none≢some,
}
use haskell_agent.Bridge.Browser.Pending.{
  Registry, lookup, delete, register, register_with, unregister, try_put, put_found, complete,
  next_available, increment_pending_id, insert_at,
}
use haskell_agent.Bridge.Browser.Pending.Entries.{
  lookup-delete, lookup-delete_other, delete-delete, lookup_head, lookup_tail,
}
use haskell_agent.Bridge.Browser.Pending.Delivery.{
  IsConsistent, Call, registers, unregisters, completes, registered, after, run, run-IsConsistent,
  register-IsConsistent, complete_found, complete_missing, deleted,
}

-- A number that the search gives is not registered.
next_available-unused {ℓ} :
    {A : Type ℓ} (fuel start id : ℕ) (entries : List (ℕ × A))
    → next_available fuel start entries ≡ some id
    → lookup id entries ≡ none
unfolding next_available
next_available-unused zero start id entries e = cc
next_available-unused (suc fuel) start id entries e =
    grind (arith, next_available-unused fuel (increment_pending_id start) id entries)

-- Whether a call is for another request than the one with this number.
abbrev pub Spares : (R : Type 0) → ℕ → Call R → Type 0
Spares R id registers = Unit
Spares R id (unregisters other) = id ≢ other
Spares R id (completes other _) = id ≢ other

abbrev pub AllSpare : (R : Type 0) → ℕ → List (Call R) → Type 0
AllSpare R id [] = Unit
AllSpare R id (c ∷ cs) = Spares R id c × AllSpare R id cs

module _ {R : Type 0} where
  try_put_pending : (slot : ℕ) (r : R) (s : Registry R) → (try_put slot r s).pending ≡ s.pending
  unfolding try_put
  try_put_pending slot r s = ground arith

  complete_pending :
      (id : ℕ) (r : R) (s : Registry R) → (complete id r s).pending ≡ delete id s.pending
  unfolding complete put_found
  complete_pending id r s = by_slot (lookup id s.pending)
    where
      by_slot : (o : Option ℕ) → (put_found o r (deleted id s)).pending ≡ delete id s.pending
      by_slot none = refl
      by_slot (some slot) = try_put_pending slot r (deleted id s)

  register_keeps :
      (id slot : ℕ) (s : Registry R)
      → lookup id s.pending ≡ some slot
      → lookup id (registered s (register s)).pending ≡ some slot
  unfolding register register_with
  register_keeps id slot s found =
      by_number (next_available (length s.pending + 1) s.next_id s.pending) refl
    where
      by_number :
          (o : Option ℕ)
          → next_available (length s.pending + 1) s.next_id s.pending ≡ o
          → lookup id (registered s (register_with s o)).pending ≡ some slot
      by_number none e = found
      by_number (some new) e =
          let id≢new : id ≢ new = λ same. none≢some (
            sym (next_available-unused _ _ new s.pending e)
            ∙ sym (ap (λ i. lookup i s.pending) same)
            ∙ found) in
          lookup_tail id new s.slots_made (delete new s.pending) id≢new
          ∙ lookup-delete_other id new s.pending id≢new
          ∙ found

  -- A call for another request leaves a registered one registered.
  after_keeps :
      (id slot : ℕ) (c : Call R) (s : Registry R)
      → Spares R id c
      → lookup id s.pending ≡ some slot
      → lookup id (after c s).pending ≡ some slot
  unfolding after unregister
  after_keeps id slot registers s spares found = register_keeps id slot s found
  after_keeps id slot (unregisters other) s spares found =
      lookup-delete_other id other s.pending spares ∙ found
  after_keeps id slot (completes other r) s spares found =
      ap (lookup id) (complete_pending other r s)
      ∙ lookup-delete_other id other s.pending spares
      ∙ found

  run_keeps :
      (id slot : ℕ) (cs : List (Call R)) (s : Registry R)
      → AllSpare R id cs
      → lookup id s.pending ≡ some slot
      → lookup id (run cs s).pending ≡ some slot
  unfolding run
  run_keeps id slot [] s spare found = found
  run_keeps id slot (c ∷ cs) s (spares, spare) found =
      run_keeps id slot cs (after c s) spare (after_keeps id slot c s spares found)

  register_found :
      (s s' : Registry R) (id slot : ℕ)
      → register s ≡ some (id, slot, s')
      → (s' ≡ insert_at s id) × (lookup id s'.pending ≡ some slot)
  unfolding register register_with
  register_found s s' id slot e =
      by_number (next_available (length s.pending + 1) s.next_id s.pending) e
    where
      by_number :
          (o : Option ℕ)
          → register_with s o ≡ some (id, slot, s')
          → (s' ≡ insert_at s id) × (lookup id s'.pending ≡ some slot)
      by_number none e = elim (none≢some e) [ ]
      by_number (some new) e =
          let number : new ≡ id = ap (λ p. p.0) (of_some e) in
          let place : s.slots_made ≡ slot = ap (λ p. p.1) (of_some e) in
          let next : insert_at s new ≡ s' = ap (λ p. p.2) (of_some e) in
          let built : s' ≡ insert_at s id = sym next ∙ ap (insert_at s) number in
          (
            built,
            ap (λ t. lookup id t.pending) built
                ∙ lookup_head id s.slots_made (delete id s.pending)
                ∙ ap some place,
          )

  delivers_found :
      (id slot : ℕ) (r later : R) (s : Registry R)
      → IsConsistent R s
      → lookup id s.pending ≡ some slot
      → (lookup slot s.filled ≡ none)
        × (lookup slot (complete id r s).filled ≡ some r)
        × (complete id later (complete id r s) ≡ complete id r s)
  delivers_found id slot r later s inv found =
      let done = complete_found id slot r s inv found in
      let gone = ap (λ t. lookup id t.pending) done ∙ lookup-delete id s.pending in
      (
        (inv.waiting id slot found).1,
        ap (λ t. lookup slot t.filled) done ∙ lookup_head slot r s.filled,
        complete_missing id later (complete id r s) gone
            ∙ ap (deleted id) done
            ∙ ap (λ m. record s { pending = m; filled = (slot, r) ∷ s.filled })
                (delete-delete id s.pending)
            ∙ sym done,
      )

  -- A request that is registered waits until it is completed, and its completion reaches the MVar
  -- that was made for it, whatever calls for other requests come in between; another completion
  -- with its number then changes nothing.
  pub complete-delivers :
      (s s' : Registry R) (id slot : ℕ) (calls : List (Call R)) (r later : R)
      → IsConsistent R s
      → register s ≡ some (id, slot, s')
      → AllSpare R id calls
      → (lookup slot (run calls s').filled ≡ none)
        × (lookup slot (complete id r (run calls s')).filled ≡ some r)
        × (complete id later (complete id r (run calls s')) ≡ complete id r (run calls s'))
  complete-delivers s s' id slot calls r later inv e spare =
      let (built, found') = register_found s s' id slot e in
      let inv' =
        run-IsConsistent calls s'
          (subst (IsConsistent R) (ap (registered s) e) (register-IsConsistent s inv)) in
      let found = run_keeps id slot calls s' spare found' in
      delivers_found id slot r later (run calls s') inv' found
