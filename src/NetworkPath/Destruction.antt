-- ===== src/NetworkPath/Destruction.antt =====
-- What haskell_agent_network_path_monitor_destroy of NetworkPathMonitor.c
-- (packages/agent-connectivity/cbits) guarantees to the handlers and to its caller.
use mathlib.Core.Path.{subst}
use haskell_agent.Base.{
  ℕ, zero, suc, ◌+◌, ◌*◌, ◌<◌, ◌≡◌, ◌≢◌, ◌⊎◌, inl, inr, refl, Bool, true, Option, none, some, List,
  [], ◌∷◌, length, length-append, arith,
}
use haskell_agent.NetworkPath.Teardown.{
  Block, update, cancellation, barrier, Running, updating, cancelling, signalled, passing, Phase,
  live, waiting, waited, in_sync, synced, released, System, Turn, cancels, cancelled, reports,
  begins, proceeds, destroys, turn, sound, at, Reach, turns-IsSound,
}

no_turn : (t : Turn) (n : ℕ) (c : List Bool) → turn t (at released none [] n c) ≡ none
unfolding turn
no_turn (reports b) n c = refl
no_turn cancels n c = refl
no_turn begins n c = refl
no_turn proceeds n c = refl
no_turn destroys n c = refl

freed_turns :
    (ph : Phase) (r : Option Running) (p : List Block) (n : ℕ) (c : List Bool)
    → sound ph r p n ≡ true
    → ph ≡ released
    → (r ≡ none) × (p ≡ []) × ((t : Turn) → turn t (at ph r p n c) ≡ none)
unfolding sound
freed_turns released none [] n c h e = (refl, refl, λ t. no_turn t n c)
freed_turns ph r p n c h e = ground arith

-- In whatever order the framework, the queue and the destroying thread take their turns, once the
-- wrapper is freed no block that uses it runs or waits on the queue, and no turn is left.
pub Reach-released :
    {s : System}
    → Reach s
    → s.phase ≡ released
    → (s.running ≡ none) × (s.pending ≡ []) × ((t : Turn) → turn t s ≡ none)
Reach-released {s} r e =
    freed_turns s.phase s.running s.pending s.signals s.calls (turns-IsSound r) e

-- How many turns are left at most, from the cancellation on.
abbrev pub of_phase : Phase → ℕ
of_phase live = 12
of_phase cancelled = 11
of_phase waiting = 7
of_phase waited = 6
of_phase in_sync = 2
of_phase synced = 1
of_phase released = 0

abbrev pub of_running : Option Running → ℕ
of_running none = 0
of_running (some cancelling) = 2
of_running (some _) = 1

abbrev pub turns_left : System → ℕ
turns_left s = 3 * length s.pending + of_running s.running + of_phase s.phase

abbrev Lower : ℕ → Option System → Type 0
Lower n none = Unit
Lower n (some s) = turns_left s < n

turn-Lower :
    (t : Turn) (ph : Phase) (r : Option Running) (p : List Block) (n : ℕ) (c : List Bool)
    → sound ph r p n ≡ true
    → ph ≢ live
    → Lower (turns_left (at ph r p n c)) (turn t (at ph r p n c))
unfolding sound turn
turn-Lower t live r p n c h begun = elim (begun refl) [ ]
turn-Lower cancels cancelled r p n c h begun = ground (arith, length-append p (cancellation ∷ []))
turn-Lower begins ph none (update _ ∷ p) n c h begun = ground arith
turn-Lower begins ph none (cancellation ∷ p) n c h begun = ground arith
turn-Lower begins ph none (barrier ∷ p) n c h begun = ground arith
turn-Lower destroys waiting r p (suc n) c h begun = ground arith
turn-Lower destroys waited none [] n c h begun = ground arith
turn-Lower destroys waited (some signalled) [] n c h begun = ground arith
turn-Lower t ph r p n c h begun = ground arith

abbrev Possible : System → Type 0
Possible s = (t : Turn) × (s' : System) × (turn t s ≡ some s')

turn-Possible :
    (ph : Phase) (r : Option Running) (p : List Block) (n : ℕ) (c : List Bool)
    → sound ph r p n ≡ true
    → ph ≢ live
    → (ph ≡ released) ⊎ Possible (at ph r p n c)
unfolding sound turn
turn-Possible ph (some (updating b)) p n c h begun = inr (proceeds, _, refl)
turn-Possible ph (some cancelling) p n c h begun = inr (proceeds, _, refl)
turn-Possible ph (some signalled) p n c h begun = inr (proceeds, _, refl)
turn-Possible ph (some passing) p n c h begun = inr (proceeds, _, refl)
turn-Possible ph none (b ∷ p) n c h begun = inr (begins, _, refl)
turn-Possible waiting none [] (suc n) c h begun = inr (destroys, _, refl)
turn-Possible waited none [] n c h begun = inr (destroys, _, refl)
turn-Possible synced none [] n c h begun = inr (destroys, _, refl)
turn-Possible released none [] n c h begun = inl refl
turn-Possible cancelled none [] n c h begun = inr (cancels, _, refl)
turn-Possible live none [] n c h begun = elim (begun refl) [ ]
turn-Possible waiting none [] zero c h begun = cc
turn-Possible in_sync none [] n c h begun = cc

-- Once the destruction has begun, either the wrapper is freed or some turn is possible, and every
-- turn that is possible leaves fewer turns, so that the destruction ends in whatever order they are
-- taken.
pub Reach-advances :
    {s : System}
    → Reach s
    → s.phase ≢ live
    → ((s.phase ≡ released) ⊎ ((t : Turn) × (s' : System) × (turn t s ≡ some s')))
      × ((t : Turn) (s' : System) → turn t s ≡ some s' → turns_left s' < turns_left s)
Reach-advances {s} r begun = (
  turn-Possible s.phase s.running s.pending s.signals s.calls (turns-IsSound r) begun,
  λ t s' e.
      subst (Lower (turns_left s)) e
        (turn-Lower t s.phase s.running s.pending s.signals s.calls (turns-IsSound r) begun),
)
