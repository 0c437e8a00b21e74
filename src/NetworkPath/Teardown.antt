-- ===== src/NetworkPath/Teardown.antt =====
-- The handlers of NetworkPathMonitor.c (packages/agent-connectivity/cbits) and the order of
-- haskell_agent_network_path_monitor_destroy, run against the monitor's queue as it is documented:
-- a serial queue runs the blocks one at a time in the order of submission, a monitor that is
-- cancelled submits its cancel handler and no further update, and a wait lasts until a signal.
use mathlib.Core.Path.{subst}
use haskell_agent.Base.{
  ℕ, zero, suc, ◌+◌, ◌≡◌, refl, Bool, true, false, Option, none, some, List, [], ◌∷◌, ◌++◌, arith,
}

-- What is submitted to the queue: the update handler with the status of a path, the cancel handler,
-- and the empty block of dispatch_sync.
pub data Block : Type 0 where
  update : Bool → Block
  cancellation : Block
  barrier : Block

-- A block that runs; the cancel handler before and after it signalled.
pub data Running : Type 0 where
  updating : Bool → Running
  cancelling : Running
  signalled : Running
  passing : Running

-- Before nw_path_monitor_cancel; behind it, while the framework has not submitted the cancel handler,
-- and while it has; before dispatch_sync; in it; before the release and free; after them.
pub data Phase : Type 0 where
  live cancelled waiting waited in_sync synced released : Phase

pub record System : Type 0 where
  pub phase : Phase
  pub running : Option Running
  pub pending : List Block
  pub signals : ℕ
  pub calls : List Bool

-- After nw_path_monitor_start.
abbrev pub started : System
started = record { phase = live; running = none; pending = []; signals = 0; calls = [] }

-- The framework submits an update or the cancel handler, the queue takes its next block, the block that runs goes on, or
-- the thread that destroys the monitor does.
pub data Turn : Type 0 where
  reports : Bool → Turn
  cancels begins proceeds destroys : Turn

-- A monitor that is cancelled submits no update.
abbrev pub submit : Phase → Bool → System → Option System
submit live satisfied s = some (record s { pending = s.pending ++ (update satisfied ∷ []) })
submit _ satisfied s = none

-- The cancel handler is submitted once, some time after the cancellation.
abbrev pub submit_cancellation : Phase → System → Option System
submit_cancellation cancelled s =
    some (record s { phase = waiting; pending = s.pending ++ (cancellation ∷ []) })
submit_cancellation _ s = none

abbrev pub running_of : Block → Running
running_of (update satisfied) = updating satisfied
running_of cancellation = cancelling
running_of barrier = passing

-- A serial queue runs one block at a time, in the order in which they were submitted.
abbrev pub begin : Option Running → List Block → System → Option System
begin none (b ∷ rest) s = some (record s { running = some (running_of b); pending = rest })
begin _ _ s = none

-- The handlers of haskell_agent_network_path_monitor_create.
abbrev pub proceed : Option Running → System → Option System
proceed none s = none
proceed (some (updating satisfied)) s =
    some (record s { running = none; calls = s.calls ++ (satisfied ∷ []) })
proceed (some cancelling) s = some (record s { running = some signalled; signals = s.signals + 1 })
proceed (some signalled) s = some (record s { running = none })
proceed (some passing) s = some (record s { running = none; phase = synced })

-- dispatch_semaphore_wait
abbrev pub wait : ℕ → System → Option System
wait zero s = none
wait (suc n) s = some (record s { phase = waited; signals = n })

-- haskell_agent_network_path_monitor_destroy
abbrev pub destroy_on : Phase → System → Option System
destroy_on live s = some (record s { phase = cancelled })
destroy_on cancelled s = wait s.signals s
destroy_on waiting s = wait s.signals s
destroy_on waited s = some (record s { phase = in_sync; pending = s.pending ++ (barrier ∷ []) })
destroy_on in_sync s = none
destroy_on synced s = some (record s { phase = released })
destroy_on released s = none

unfoldable pub turn : Turn → System → Option System
turn (reports satisfied) s = submit s.phase satisfied s
turn cancels s = submit_cancellation s.phase s
turn begins s = begin s.running s.pending s
turn proceeds s = proceed s.running s
turn destroys s = destroy_on s.phase s

-- What is left on the queue before and after nw_path_monitor_cancel.
abbrev pub only_updates : List Block → Bool
only_updates [] = true
only_updates (update _ ∷ rest) = only_updates rest
only_updates (_ ∷ rest) = false

abbrev pub ends_cancelled : List Block → Bool
ends_cancelled [] = false
ends_cancelled (update _ ∷ rest) = ends_cancelled rest
ends_cancelled (cancellation ∷ []) = true
ends_cancelled (_ ∷ rest) = false

unfoldable pub sound : Phase → Option Running → List Block → ℕ → Bool
sound live none p zero = only_updates p
sound live (some (updating _)) p zero = only_updates p
sound cancelled none p zero = only_updates p
sound cancelled (some (updating _)) p zero = only_updates p
sound waiting none p zero = ends_cancelled p
sound waiting (some (updating _)) p zero = ends_cancelled p
sound waiting (some cancelling) [] zero = true
sound waiting (some signalled) [] (suc zero) = true
sound waiting none [] (suc zero) = true
sound waited (some signalled) [] zero = true
sound waited none [] zero = true
sound in_sync (some signalled) (barrier ∷ []) zero = true
sound in_sync none (barrier ∷ []) zero = true
sound in_sync (some passing) [] zero = true
sound synced none [] zero = true
sound released none [] zero = true
sound _ _ _ _ = false

abbrev pub IsSound : System → Type 0
IsSound s = sound s.phase s.running s.pending s.signals ≡ true

only_updates-append :
    (p : List Block) (b : Bool)
    → only_updates p ≡ true
    → (only_updates (p ++ (update b ∷ [])) ≡ true)
      × (ends_cancelled (p ++ (cancellation ∷ [])) ≡ true)
only_updates-append [] b h = (refl, refl)
only_updates-append (update _ ∷ rest) b h = only_updates-append rest b h
only_updates-append (cancellation ∷ rest) b h = cc
only_updates-append (barrier ∷ rest) b h = cc

abbrev Kept : Option System → Type 0
Kept none = Unit
Kept (some s) = IsSound s

abbrev pub at : Phase → Option Running → List Block → ℕ → List Bool → System
at phase running pending signals calls = record {
  phase = phase;
  running = running;
  pending = pending;
  signals = signals;
  calls = calls;
}

reports-Kept :
    (b : Bool) (ph : Phase) (r : Option Running) (p : List Block) (n : ℕ) (c : List Bool)
    → sound ph r p n ≡ true
    → Kept (submit ph b (at ph r p n c))
unfolding sound
reports-Kept b live none p zero c h = (only_updates-append p b h).0
reports-Kept b live (some (updating _)) p zero c h = (only_updates-append p b h).0
reports-Kept b ph r p n c h = ground arith

begins-Kept :
    (ph : Phase) (r : Option Running) (p : List Block) (n : ℕ) (c : List Bool)
    → sound ph r p n ≡ true
    → Kept (begin r p (at ph r p n c))
unfolding sound
begins-Kept ph none (update b ∷ p) zero c h = ground arith
begins-Kept ph none (cancellation ∷ []) zero c h = ground arith
begins-Kept ph r p n c h = ground arith

cancels-Kept :
    (ph : Phase) (r : Option Running) (p : List Block) (n : ℕ) (c : List Bool)
    → sound ph r p n ≡ true
    → Kept (submit_cancellation ph (at ph r p n c))
unfolding sound
cancels-Kept cancelled none p zero c h = (only_updates-append p true h).1
cancels-Kept cancelled (some (updating _)) p zero c h = (only_updates-append p true h).1
cancels-Kept ph r p n c h = ground arith

proceeds-Kept :
    (ph : Phase) (r : Option Running) (p : List Block) (n : ℕ) (c : List Bool)
    → sound ph r p n ≡ true
    → Kept (proceed r (at ph r p n c))
unfolding sound
proceeds-Kept ph r p n c h = ground arith

destroys-Kept :
    (ph : Phase) (r : Option Running) (p : List Block) (n : ℕ) (c : List Bool)
    → sound ph r p n ≡ true
    → Kept (destroy_on ph (at ph r p n c))
unfolding sound
destroys-Kept ph r p n c h = ground arith

turn-Kept : (t : Turn) (s : System) → IsSound s → Kept (turn t s)
unfolding turn
turn-Kept (reports b) s h = reports-Kept b s.phase s.running s.pending s.signals s.calls h
turn-Kept cancels s h = cancels-Kept s.phase s.running s.pending s.signals s.calls h
turn-Kept begins s h = begins-Kept s.phase s.running s.pending s.signals s.calls h
turn-Kept proceeds s h = proceeds-Kept s.phase s.running s.pending s.signals s.calls h
turn-Kept destroys s h = destroys-Kept s.phase s.running s.pending s.signals s.calls h

-- Every order of turns.
pub data Reach : System → Type 0 where
  starts : Reach started
  turns : {s s' : System} → Reach s → (t : Turn) → turn t s ≡ some s' → Reach s'

pub turn-IsSound : (t : Turn) (s s' : System) → IsSound s → turn t s ≡ some s' → IsSound s'
turn-IsSound t s s' h e = subst Kept e (turn-Kept t s h)

pub turns-IsSound : {s : System} → Reach s → IsSound s
unfolding sound
turns-IsSound starts = refl
turns-IsSound (turns {s} {s'} r t e) = turn-IsSound t s s' (turns-IsSound r) e
