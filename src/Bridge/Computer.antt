-- ===== src/Bridge/Computer.antt =====
-- The registrations of the computer callback of HaskellAgentBridge.h
-- (packages/agent-native-bridge/include), as ComputerBridge.hs (ffi/Agent/CLI/MacOS of the same
-- package) keeps them: a session holds the generation of the registration that it opened with.
pub mod Retention
pub mod Sessions
pub mod Exchange
pub mod Lifetime
pub mod Reports
use haskell_agent.Base.{
  ℕ, suc, ◌+◌, ◌-◌, ◌%◌, ◌^◌, Bool, true, false, not, ◌&&◌, Option, none, some, ◌==◌, if◌then◌else◌,
}

-- RegistrationGeneration; a ComputerRegistration is a number here.
pub record Generation : Type 0 where
  pub registration : ℕ
  pub sessions : ℕ

-- ComputerHostState, with its map by lookup.
pub record Host : Type 0 where
  pub current : Option ℕ
  pub generations : ℕ → Option Generation
  pub next : ℕ

-- newComputerHost
abbrev pub new_host : Host
new_host = record { current = none; generations = λ g. none; next = 1 }

abbrev pub Generations : Type 0
Generations = ℕ → Option Generation

abbrev pub updated : ℕ → Option Generation → Generations → Generations
updated g entry m = λ j. if j == g then entry else m j

-- Nothing, for a generation that no session uses.
abbrev pub unless_unused : Option Generation → Option Generation
unless_unused none = none
unless_unused (some e) = if e.sessions == 0 then none else some e

abbrev pub without_unused : Option ℕ → Generations → Generations
without_unused none m = m
without_unused (some g) m = updated g (unless_unused (m g)) m

-- replaceComputerRegistration
unfoldable pub replace : Option ℕ → Host → Host
replace none h = record h { current = none; generations = without_unused h.current h.generations }
replace (some registration) h = record {
  current = some h.next;
  generations =
      updated h.next (some (record { registration = registration; sessions = 0 }))
        (without_unused h.current h.generations);
  next = (h.next + 1) % 2 ^ 64;
}

-- acquireCurrentGeneration: the host afterwards, and the generation with its registration.
abbrev pub acquire_at : Host → ℕ → Option Generation → Host × Option (ℕ × ℕ)
acquire_at h g none = (h, none)
acquire_at h g (some e) = (
  record h {
    generations = updated g (some (record e { sessions = e.sessions + 1 })) h.generations;
  },
  some (g, e.registration),
)

abbrev pub acquire_from : Host → Option ℕ → Host × Option (ℕ × ℕ)
acquire_from h none = (h, none)
acquire_from h (some g) = acquire_at h g (h.generations g)

unfoldable pub acquire : Host → Host × Option (ℕ × ℕ)
acquire h = acquire_from h h.current

abbrev pub is_current : Option ℕ → ℕ → Bool
is_current none g = false
is_current (some c) g = c == g

-- releaseGeneration; `-` stops at 0, as `max 0` does.
abbrev pub released_entry : Bool → Option Generation → Option Generation
released_entry current none = none
released_entry current (some e) =
    if (e.sessions - 1 == 0) && not current
    then none
    else some (record e { sessions = e.sessions - 1 })

unfoldable pub release : ℕ → Host → Host
release g h = record h {
  generations = updated g (released_entry (is_current h.current g) (h.generations g)) h.generations;
}
