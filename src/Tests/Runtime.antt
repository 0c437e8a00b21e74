-- ===== src/Tests/Runtime.antt =====
-- Runs of the theorems on the Haskell runtime's state and on the network path monitor.
use haskell_agent.Base.{zero, suc, ◌≡◌, ◌≤◌, refl, true, false, none, some, [], ◌∷◌, ◌++◌}
use haskell_agent.Base.Int.{pos}
use haskell_agent.Base.Owned.{settle}
use haskell_agent.Runtime.{
  initial, runtime_init, Arguments, cli_admit, admitted, success, cli_run, ExitCodes,
}
use haskell_agent.Runtime.Lifecycle.{
  Process, started, Step, Reach, initializations, embeddings, Reach-once, Reach-exclusive,
}
use haskell_agent.NetworkPath
use haskell_agent.NetworkPath.{create, destroy, create-settles}

abbrev codes : ExitCodes
codes = record {
  exit_success = pos 0;
  exit_failure = pos 1;
  exit_killed = pos 250;
  exit_interrupted = pos 1;
  exit_heap_overflow = pos 251;
}

-- One argument, and a NULL behind it.
abbrev argv : Arguments
argv zero = some (104 ∷ 97 ∷ [])
argv (suc n) = none

admits : (cli_admit (pos 1) (some argv) initial).0 ≡ admitted
unfolding cli_admit
admits = refl

abbrev running : Process
running = record started {
  runtime = (cli_admit (pos 1) (some argv) initial).1;
  pending = [] ++ cli_run codes success;
}

runs : Reach codes started running
runs = Reach.next Reach.here (Step.admit started (pos 1) (some argv) success admits)

cli_is_started : running.runtime.cli_started ≡ true
unfolding cli_admit
cli_is_started = refl

-- A host that comes later is refused.
abbrev tried : Process
tried = record running {
  runtime = (runtime_init running.runtime).1;
  done = running.done ++ (runtime_init running.runtime).2;
}

tries : Reach codes running tried
tries = Reach.next Reach.here (Step.embed running)

Reach-once_example : initializations running.done ≤ 1
Reach-once_example = Reach-once codes runs

Reach-exclusive_example : (embeddings running.done ≡ 0) × (running.runtime.references ≡ 0)
Reach-exclusive_example = Reach-exclusive codes runs cli_is_started

abbrev no_queue : NetworkPath.Startup
no_queue = record {
  has_callback = true;
  allocated = true;
  has_monitor = true;
  has_queue = false;
  has_semaphore = true;
}

create-settles_example :
    settle NetworkPath.same ((create true no_queue).1 ++ destroy true (create true no_queue).0) []
    ≡ some []
create-settles_example = create-settles no_queue
