-- ===== src/Bridge/Computer/Sessions.antt =====
-- A registration is held exactly as long as it is the current one or a session that opened with it
-- is not released.
use mathlib.Core.Path.{subst}
use native.Mathlib.Decide.{ℕ_discrete as dec_eq}
use haskell_agent.Base.{
  ℕ, ◌+◌, ◌-◌, ◌<◌, ◌≡◌, ◌⊎◌, inl, inr, refl, sym, ap, ◌∙◌, Bool, true, false, Option, none, some,
  List, [], ◌∷◌, ◌++◌, ◌==◌, if◌then◌else◌, arith, none≢some, of_some,
}
use haskell_agent.Bridge.Computer.{
  Generation, Host, new_host, updated, acquire, acquire_at, acquire_from, is_current,
  released_entry, release,
}
use haskell_agent.Bridge.Computer.Retention.{
  Lease, count, Step, replaces, leases, releases, Reach, starts, steps, IsKept, AllKept, IsSound,
  updated_found, updated_self, updated_other, AllKept-map, AllKept-append, count-append,
  replace-IsSound,
}

abbrev pub leased : Host → ℕ → Generation → Host
leased h g e = record h {
  generations = updated g (some (record e { sessions = e.sessions + 1 })) h.generations;
}

-- What a lease found, and the host afterwards.
acquire_found :
    (h h' : Host) (g r : ℕ)
    → acquire h ≡ (h', some (g, r))
    → (e : Generation) × (h.current ≡ some g)
      × (h.generations g ≡ some e)
      × (e.registration ≡ r)
      × (h' ≡ leased h g e)
unfolding acquire
acquire_found h h' g r e = by_current h.current refl e
  where
    by_entry :
        (c : ℕ) (o : Option Generation)
        → h.current ≡ some c
        → h.generations c ≡ o
        → acquire_at h c o ≡ (h', some (g, r))
        → (e : Generation) × (h.current ≡ some g)
          × (h.generations g ≡ some e)
          × (e.registration ≡ r)
          × (h' ≡ leased h g e)
    by_entry c none at found eq = elim (none≢some (ap (λ p. p.1) eq)) [ ]
    by_entry c (some e) at found eq =
        let pair = of_some (ap (λ p. p.1) eq) in
        let same : c ≡ g = ap (λ p. p.0) pair in
        (
          e,
          at ∙ ap some same,
          sym (ap h.generations same) ∙ found,
          ap (λ p. p.1) pair,
          sym (ap (λ p. p.0) eq) ∙ ap (λ k. leased h k e) same,
        )

    by_current :
        (c : Option ℕ)
        → h.current ≡ c
        → acquire_from h c ≡ (h', some (g, r))
        → (e : Generation) × (h.current ≡ some g)
          × (h.generations g ≡ some e)
          × (e.registration ≡ r)
          × (h' ≡ leased h g e)
    by_current none at eq = elim (none≢some (ap (λ p. p.1) eq)) [ ]
    by_current (some c) at eq = by_entry c (h.generations c) at refl eq

leased-IsSound :
    (h : Host) (ls : List Lease) (g : ℕ) (e : Generation)
    → IsSound h ls
    → h.generations g ≡ some e
    → IsSound (leased h g e) (record { generation = g; registration = e.registration } ∷ ls)
unfolding count
leased-IsSound h ls g e inv at =
    let more = record e { sessions = e.sessions + 1 } in
    record {
      kept = (
        (more, updated_self g (some more) h.generations, refl),
        AllKept-map h.generations (updated g (some more) h.generations) ls
            (λ j f held found. elim (dec_eq j g) [
              | yes same ↦ (
                more,
                ap (updated g (some more) h.generations) same
                    ∙ updated_self g (some more) h.generations,
                ap (λ e. e.registration) (of_some (sym at ∙ sym (ap h.generations same) ∙ found)),
              )
              | no other ↦ (f, updated_other g j (some more) h.generations other ∙ found, refl)
            ])
            inv.kept,
      );
      counted = λ j f found. elim (updated_found g j (some more) h.generations f found) [
        | inl (same, made) ↦
            let old = inv.counted g e at in
            ap (λ e. e.sessions) (sym (of_some made)) ∙ counted_new j same old
        | inr (other, old) ↦ inv.counted j f old ∙ ground (arith, other)
      ];
      used = λ j f found. elim (updated_found g j (some more) h.generations f found) [
        | inl (same, made) ↦ inr (subst (λ f. 0 < f.sessions) (of_some made) (omega arith))
        | inr (other, old) ↦ inv.used j f old
      ];
      fresh = λ j low.
          updated_other g j (some more) h.generations
            (λ same. none≢some (sym (inv.fresh j low) ∙ ap h.generations same ∙ at))
          ∙ inv.fresh j low;
    }
  where
    counted_new :
        (j : ℕ)
        → j ≡ g
        → e.sessions ≡ count g ls
        → e.sessions + 1 ≡ (if g == j then 1 else 0) + count j ls
    counted_new j same old =
        subst (λ j. e.sessions + 1 ≡ (if g == j then 1 else 0) + count j ls) (sym same)
          (ground (arith, old))

if_else :
    {A : Type 0} {b : Bool} {x y : A}
    → (if b then none else some x) ≡ some y
    → (b ≡ false) × (x ≡ y)
if_else {b = true} e = elim (none≢some e) [ ]
if_else {b = false} e = (refl, of_some e)

released_entry_found :
    (current : Bool) (o : Option Generation) (f : Generation)
    → released_entry current o ≡ some f
    → (e : Generation) × (o ≡ some e)
      × (f.registration ≡ e.registration)
      × (f.sessions ≡ e.sessions - 1)
      × ((current ≡ true) ⊎ (0 < f.sessions))
released_entry_found current none f h = cc
released_entry_found current (some e) f h =
    let (kept, same) = if_else h in
    let fewer = ap (λ f. f.sessions) (sym same) in
    (e, refl, ap (λ f. f.registration) (sym same), fewer, ground (arith, kept, fewer))

released_entry-used :
    (current : Bool) (e : Generation)
    → 1 < e.sessions
    → released_entry current (some e) ≡ some (record e { sessions = e.sessions - 1 })
released_entry-used current e used = ground arith

is_current-true : (c : Option ℕ) (g : ℕ) → is_current c g ≡ true → c ≡ some g
is_current-true none g h = cc
is_current-true (some c) g h = ap some (ground (arith, h))

module _ (h : Host) (before after : List Lease) (l : Lease)
    (inv : IsSound h (before ++ l ∷ after)) where
  abbrev entry : Option Generation
  entry = released_entry (is_current h.current l.generation) (h.generations l.generation)

  counted_rest :
      (g : ℕ)
      → count g (before ++ l ∷ after)
        ≡ (if l.generation == g then 1 else 0) + count g (before ++ after)
  unfolding count
  counted_rest g = omega (arith, count-append g before (l ∷ after), count-append g before after)

  rest_kept : AllKept h.generations (before ++ after)
  rest_kept =
      let (b, k) = (AllKept-append h.generations before (l ∷ after)).0 inv.kept in
      (AllKept-append h.generations before after).1 b k.1

  own-IsKept : IsKept h.generations l
  own-IsKept = let (_, k) = (AllKept-append h.generations before (l ∷ after)).0 inv.kept in k.0

  more_than_one :
      (g : ℕ) (e : Generation)
      → g ≡ l.generation
      → 0 < count g (before ++ after)
      → h.generations g ≡ some e
      → 1 < e.sessions
  more_than_one g e same held found =
      ground (arith, same, held, inv.counted g e found, counted_rest g)

  fewer_counted :
      (g : ℕ) (e f : Generation)
      → g ≡ l.generation
      → h.generations l.generation ≡ some e
      → f.sessions ≡ e.sessions - 1
      → f.sessions ≡ count g (before ++ after)
  fewer_counted g e f same at fewer =
      ground (arith, same, fewer, inv.counted g e (ap h.generations same ∙ at), counted_rest g)

  release-IsSound : IsSound (release l.generation h) (before ++ after)
  unfolding release
  release-IsSound = record {
    kept =
        AllKept-map h.generations (updated l.generation entry h.generations) (before ++ after)
          (λ g e held found. elim (dec_eq g l.generation) [
            | yes same ↦
                let at : h.generations l.generation ≡ some e =
                  ap h.generations (sym same) ∙ found in
                (
                  record e { sessions = e.sessions - 1 },
                  ap (updated l.generation entry h.generations) same
                      ∙ updated_self l.generation entry h.generations
                      ∙ ap (released_entry (is_current h.current l.generation)) at
                      ∙ released_entry-used (is_current h.current l.generation) e
                          (more_than_one g e same held found),
                  refl,
                )
            | no other ↦ (e, updated_other l.generation g entry h.generations other ∙ found, refl)
          ])
          rest_kept;
    counted = λ g f found. elim (updated_found l.generation g entry h.generations f found) [
      | inl (same, made) ↦
          let (e, at, _, fewer, _) = released_entry_found _ (h.generations l.generation) f made in
          fewer_counted g e f same at fewer
      | inr (other, old) ↦ inv.counted g f old ∙ counted_rest g ∙ ground (arith, other)
    ];
    used = λ g f found. elim (updated_found l.generation g entry h.generations f found) [
      | inl (same, made) ↦
          let (e, at, _, _, why) = released_entry_found _ (h.generations l.generation) f made in
          elim why [
            | inl current ↦
                inl (is_current-true h.current l.generation current ∙ ap some (sym same))
            | inr used ↦ inr used
          ]
      | inr (other, old) ↦ inv.used g f old
    ];
    fresh = λ g low.
        updated_other l.generation g entry h.generations (λ same.
          let (e, at, _) = own-IsKept in
          none≢some (sym (inv.fresh g low) ∙ ap h.generations same ∙ at))
        ∙ inv.fresh g low;
  }

new_host-IsSound : IsSound new_host []
new_host-IsSound = record {
  kept = tt;
  counted = λ g e found. elim (none≢some found) [ ];
  used = λ g e found. elim (none≢some found) [ ];
  fresh = λ g low. refl;
}

Step-IsSound :
    {h h' : Host} {ls ls' : List Lease} → Step h ls h' ls' → IsSound h ls → IsSound h' ls'
Step-IsSound (replaces h ls r small) inv = replace-IsSound h ls inv r small
Step-IsSound (leases h h' ls g r found) inv =
    let (e, _, at, registered, built) = acquire_found h h' g r found in
    subst (λ h'. IsSound h' (record { generation = g; registration = r } ∷ ls)) (sym built)
      (subst (λ r. IsSound (leased h g e) (record { generation = g; registration = r } ∷ ls))
        registered (leased-IsSound h ls g e inv at))
Step-IsSound (releases h before after l) inv = release-IsSound h before after l inv

-- In whatever order registrations are replaced and sessions open and close, a session that is not
-- released finds its generation with the registration that it opened with; the number of sessions
-- of each generation is the number of those that hold it; and a generation that is neither the
-- current one nor held by a session is gone. The condition, in each step, is that a host lives for
-- fewer than 2 ^ 64 replacements.
pub Reach-IsSound : {h : Host} {ls : List Lease} → Reach h ls → IsSound h ls
Reach-IsSound starts = new_host-IsSound
Reach-IsSound (steps r s) = Step-IsSound s (Reach-IsSound r)
