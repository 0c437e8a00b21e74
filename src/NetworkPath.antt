-- ===== src/NetworkPath.antt =====
-- NetworkPathMonitor.c of packages/agent-connectivity/cbits: the objects that a monitor owns, from
-- its creation to its destruction. What the frameworks report is an argument.
pub mod Teardown
pub mod Destruction
use haskell_agent.Base.{
  ◌≡◌, Bool, true, false, not, ◌&&◌, ◌||◌, List, [], ◌∷◌, ◌++◌, some, if◌then◌else◌, arith,
}
use haskell_agent.Base.Owned.{Event, creates, releases, settle}

pub data Object : Type 0 where
  wrapper monitor queue semaphore : Object

-- Whether there is a callback, and what could be made.
pub record Startup : Type 0 where
  pub has_callback : Bool
  pub allocated : Bool
  pub has_monitor : Bool
  pub has_queue : Bool
  pub has_semaphore : Bool

abbrev when : Bool → List (Event Object) → List (Event Object)
when true es = es
when false es = []

-- haskell_agent_network_path_monitor_create: whether it returns a wrapper, and what it creates and
-- releases. `counted`: OS_OBJECT_USE_OBJC is off, so that dispatch objects are released here.
unfoldable pub create : Bool → Startup → Bool × List (Event Object)
create counted s =
    if not s.has_callback || not s.allocated
    then (false, [])
    else (let begun =
          creates wrapper
          ∷ (when s.has_monitor (creates monitor ∷ [])
              ++ (when s.has_queue (creates queue ∷ [])
                  ++ when s.has_semaphore (creates semaphore ∷ []))) in
        if not s.has_monitor || not s.has_queue || not s.has_semaphore
        then (
          false,
          begun
              ++ (when s.has_monitor (releases monitor ∷ [])
                  ++ (when (counted && s.has_queue) (releases queue ∷ [])
                      ++ (when (counted && s.has_semaphore) (releases semaphore ∷ [])
                          ++ (releases wrapper ∷ [])))),
        )
        else (true, begun))

-- haskell_agent_network_path_monitor_destroy, for a wrapper or for NULL.
unfoldable pub destroy : Bool → Bool → List (Event Object)
destroy counted false = []
destroy counted true =
    releases monitor
    ∷ (when counted (releases queue ∷ releases semaphore ∷ []) ++ (releases wrapper ∷ []))

unfoldable pub same : Object → Object → Bool
same wrapper wrapper = true
same monitor monitor = true
same queue queue = true
same semaphore semaphore = true
same _ _ = false

-- Where dispatch objects are released by hand, a creation that fails releases everything that it
-- made, and a creation followed by the destruction of what it returned releases every object once.
pub create-settles :
    (s : Startup)
    → let (returned, events) = create true s in
      settle same (events ++ destroy true returned) [] ≡ some []
unfolding create destroy settle same
create-settles s = ground arith
