-- ===== src/Tests/Computer.antt =====
-- Runs of the computer callback's theorems on registrations, sessions and answers.
use haskell_agent.Base.{ℕ, ◌≡◌, refl, false, some, [], ◌∷◌, arith, length-replicate, replicate}
use haskell_agent.Base.Int.{pos}
use haskell_agent.Bridge.Computer.{Host, new_host, replace, acquire, release}
use haskell_agent.Bridge.Computer.Retention.{
  Lease, replaces, leases, releases, Reach, starts, steps, IsSound,
}
use haskell_agent.Bridge.Computer.Sessions.{Reach-IsSound}
use haskell_agent.Bridge.Computer.Exchange.{Answer, Channel, error_capacity, invoke, answers}
use haskell_agent.Bridge.Computer.Lifetime.{lifetime, releases_in, closes_in, lifetime-settles}
use haskell_agent.Bridge.Computer.Reports.{invoke-answer_valid}

-- A session opens with the registration 10, which 20 replaces; another opens, and the first closes.
abbrev registered : Host
registered = replace (some 10) new_host

abbrev first : Host
first = (acquire registered).0

abbrev replaced : Host
replaced = replace (some 20) first

abbrev both : Host
both = (acquire replaced).0

abbrev old_lease : Lease
old_lease = record { generation = 1; registration = 10 }

abbrev new_lease : Lease
new_lease = record { generation = 2; registration = 20 }

both_open : Reach both (new_lease ∷ old_lease ∷ [])
unfolding acquire replace
both_open =
    steps
      (steps
        (steps (steps starts (replaces new_host [] (some 10) (omega arith)))
          (leases registered first [] 1 10 refl))
        (replaces first (old_lease ∷ []) (some 20) (omega arith)))
      (leases replaced both (old_lease ∷ []) 2 20 refl)

abbrev closed : Host
closed = release 1 both

old_closed : Reach closed (new_lease ∷ [])
old_closed = steps both_open (releases both (new_lease ∷ []) [] old_lease)

Reach-IsSound_example : IsSound closed (new_lease ∷ [])
Reach-IsSound_example = Reach-IsSound old_closed

-- An answer to a request for targets.
abbrev text : Channel
text = record { buffer = 123 ∷ 125 ∷ 0 ∷ []; reported = 2 }

abbrev nothing : Channel
nothing = record { buffer = []; reported = 0 }

abbrev error_buffer : Channel
error_buffer = record { buffer = replicate error_capacity 0; reported = 0 }

abbrev answer : Answer
answer = record {
  status = pos 0;
  result = text;
  accessibility = nothing;
  image = nothing;
  error = error_buffer;
  session_token = 0;
  image_format = pos 0;
}

invoke-answer_valid_example :
    invoke false (123 ∷ 125 ∷ []) answer
    ≡ some (record {
      result = 123 ∷ 125 ∷ [];
      accessibility = [];
      image = [];
      session_token = 0;
      image_format = pos 0;
    })
invoke-answer_valid_example =
    invoke-answer_valid false (123 ∷ 125 ∷ []) answer (length-replicate {A = ℕ} error_capacity 0)

-- A host that opens the session 77.
abbrev opens : Answer
opens = record answer { result = nothing; session_token = 77 }

lifetime-settles_example :
    (releases_in (lifetime false 0 3 (answers opens) 2) ≡ 1)
    × (closes_in (lifetime false 0 3 (answers opens) 2) ≡ 1)
lifetime-settles_example =
    lifetime-settles false 0 3 (answers opens) 1 (length-replicate {A = ℕ} error_capacity 0)
