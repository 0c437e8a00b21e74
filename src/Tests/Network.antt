-- ===== src/Tests/Network.antt =====
-- Runs of the network path monitor's theorems on one history.
use haskell_agent.Base.{◌<◌, ◌≡◌, ◌≢◌, ◌⊎◌, refl, true, none, some, [], ◌∷◌}
use haskell_agent.NetworkPath.Teardown.{
  update, cancellation, live, waiting, released, System, Turn, reports, cancels, begins, proceeds,
  destroys, turn, Reach, starts, turns,
}
use haskell_agent.NetworkPath.Destruction.{turns_left, Reach-released, Reach-advances}

-- An update waits when the destruction begins.
abbrev begun : System
begun = record {
  phase = waiting;
  running = none;
  pending = update true ∷ cancellation ∷ [];
  signals = 0;
  calls = [];
}

begun-Reach : Reach begun
unfolding turn
begun-Reach = turns (turns (turns starts (reports true) refl) destroys refl) cancels refl

abbrev freed : System
freed = record { phase = released; running = none; pending = []; signals = 0; calls = true ∷ [] }

-- The update is reported, and the cancel handler returns after the wait does.
freed-Reach : Reach freed
unfolding turn
freed-Reach =
    let updated = turns (turns begun-Reach begins refl) proceeds refl in
    let signalled = turns (turns updated begins refl) proceeds refl in
    let waited = turns (turns signalled destroys refl) destroys refl in
    let passed = turns (turns (turns waited proceeds refl) begins refl) proceeds refl in
    turns passed destroys refl

Reach-released_example :
    (freed.running ≡ none) × (freed.pending ≡ []) × ((t : Turn) → turn t freed ≡ none)
Reach-released_example = Reach-released freed-Reach refl

waiting≢live : waiting ≢ live
waiting≢live e = cc

Reach-advances_example :
    ((begun.phase ≡ released) ⊎ ((t : Turn) × (s' : System) × (turn t begun ≡ some s')))
    × ((t : Turn) (s' : System) → turn t begun ≡ some s' → turns_left s' < turns_left begun)
Reach-advances_example = Reach-advances begun-Reach waiting≢live
