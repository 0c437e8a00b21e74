-- ===== src/Runtime.antt =====
-- HaskellAgentBridgeRuntime.c of packages/agent-native-bridge/cbits: the process-wide state of the
-- Haskell runtime, which either a host embeds or the command line owns.
pub mod Lifecycle
pub mod Arguments
use haskell_agent.Base.{
  ℕ, zero, suc, ◌+◌, ◌-◌, ◌%◌, ◌^◌, Bool, true, false, not, ◌||◌, Option, none, some, List, [], ◌∷◌,
  ◌++◌, ltb, ◌==◌, if◌then◌else◌,
}
use haskell_agent.Base.Int.{ℤ, pos, negsuc, ltb_ℤ}

-- Calls that leave this file, in order.
pub data Effect : Type 0 where
  -- hs_init with the product name of a desktop host, and hs_init_ghc with the command line's
  init_embedded init_command_line : Effect
  set_build_commit : Effect
  -- one evaluation of the command line's action, and its stable pointer's release
  evaluate free_action : Effect
  -- shutdownHaskellAndExit
  shut_down : ℤ → Effect

-- The static variables. `runtime_references` is an unsigned int.
pub record Runtime : Type 0 where
  pub references : ℕ
  pub initialized : Bool
  pub cli_started : Bool

abbrev pub initial : Runtime
initial = record { references = 0; initialized = false; cli_started = false }

-- ha_runtime_init: its value, the state, and what was called, under the lock.
unfoldable pub runtime_init : Runtime → ℤ × Runtime × List Effect
runtime_init r = if r.cli_started then (negsuc 0, r, []) else (
  pos 0,
  record r { initialized = true; references = (r.references + 1) % 2 ^ 32 },
  (if r.initialized then [] else init_embedded ∷ set_build_commit ∷ []),
)

-- ha_runtime_exit
unfoldable pub runtime_exit : Runtime → Runtime
runtime_exit r = if ltb 0 r.references then record r { references = r.references - 1 } else r

-- `argv` as ha_cli_main reads it: at each index a NULL or a string.
abbrev pub Arguments : Type 0
Arguments = ℕ → Option (List ℕ)

abbrev pub is_null {ℓ} : {A : Type ℓ} → Option A → Bool
is_null none = true
is_null (some _) = false

-- The loop that looks for a NULL among the first `argc` arguments.
unfoldable pub has_null : Arguments → ℕ → ℕ → Bool
has_null argv index zero = false
has_null argv index (suc left) =
    let rest = has_null argv (suc index) left in if is_null (argv index) then true else rest

-- Whether ha_cli_main returns 64: `argv` is `none` for a NULL array.
unfoldable pub rejects : ℤ → Option Arguments → Bool
unfolding has_null
rejects (negsuc n) argv = true
rejects (pos zero) argv = true
rejects (pos (suc n)) none = true
rejects (pos (suc n)) (some argv) = not (is_null (argv (suc n))) || has_null argv 0 (suc n)

-- What ha_cli_main decides before it starts the runtime.
pub data Admission : Type 0 where
  refused : ℤ → Admission
  admitted : Admission

-- The part of ha_cli_main that ends when it releases the lock.
unfoldable pub cli_admit : ℤ → Option Arguments → Runtime → Admission × Runtime
unfolding rejects
cli_admit argc argv r =
    if rejects argc argv
    then (refused (pos 64), r)
    else (if r.initialized
        then (refused (pos 70), r)
        else (admitted, record r { initialized = true; cli_started = true }))

-- SchedulerStatus of the runtime's Rts.h; `other` is any value without a case.
pub data SchedulerStatus : Type 0 where
  success killed interrupted heap_exhausted other : SchedulerStatus

-- The process statuses of stdlib.h and Rts.h.
pub record ExitCodes : Type 0 where
  pub exit_success : ℤ
  pub exit_failure : ℤ
  pub exit_killed : ℤ
  pub exit_interrupted : ℤ
  pub exit_heap_overflow : ℤ

unfoldable pub exit_status : ExitCodes → SchedulerStatus → ℤ
exit_status c success = c.exit_success
exit_status c killed = c.exit_killed
exit_status c interrupted = c.exit_interrupted
exit_status c heap_exhausted = c.exit_heap_overflow
exit_status c other = c.exit_failure

-- The rest of ha_cli_main, without the lock. It does not return.
unfoldable pub cli_run : ExitCodes → SchedulerStatus → List Effect
unfolding exit_status
cli_run c status =
    init_command_line
    ∷ set_build_commit
    ∷ evaluate
    ∷ free_action
    ∷ shut_down (exit_status c status)
    ∷ []
