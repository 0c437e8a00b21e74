-- ===== src/Bridge/Computer/Lifetime.antt =====
-- One computer session of ComputerBridge.hs (packages/agent-native-bridge/ffi/Agent/CLI/MacOS)
-- from its opening on: its CLOSE call, which HaskellAgentBridge.h asks for once, and the release of
-- its generation.
use haskell_agent.Base.{
  ℕ, zero, suc, ◌+◌, ◌≡◌, refl, Bool, true, false, not, ◌&&◌, Bool-cases, inl, inr, length, Option,
  none, some, List, [], ◌∷◌, ◌++◌, ◌==◌, if◌then◌else◌, arith,
}
use haskell_agent.Bridge.Computer.Reports.{answer_valid, reported_response, invoke-answer_valid}
use haskell_agent.Bridge.Computer.Exchange.{
  Response, opened_with, after_open, error_capacity, Operation, open_session, close, open_attached,
  Effect, calls, releases, Opened, throws, answers, Session, open_computer_session,
  close_computer_session,
}

-- How often a session's generation is released, and how often CLOSE is called.
abbrev pub is_close : Operation → Bool
is_close close = true
is_close _ = false

abbrev pub releases_in : List Effect → ℕ
releases_in [] = 0
releases_in (releases g ∷ es) = 1 + releases_in es
releases_in (calls o t ∷ es) = releases_in es

abbrev pub closes_in : List Effect → ℕ
closes_in [] = 0
closes_in (releases g ∷ es) = closes_in es
closes_in (calls o t ∷ es) = (if is_close o then 1 else 0) + closes_in es

-- Closing again and again.
unfoldable pub close_times : ℕ → Session → List Effect
close_times zero s = []
close_times (suc n) s = let (effects, s') = close_computer_session s in effects ++ close_times n s'

abbrev pub closed_times : ℕ → Option Session → List Effect
closed_times n none = []
closed_times n (some s) = close_times n s

-- Whether OPEN was answered with a session: an answer that a call accepts, with a token that is not
-- 0.
abbrev pub host_opened : Opened → Bool
host_opened throws = false
host_opened (answers a) = answer_valid false a && not (a.session_token == 0)

-- The error buffer of an answer has its capacity.
abbrev pub IsFilled : Opened → Type 0
IsFilled throws = Unit {0}
IsFilled (answers a) = length a.error.buffer ≡ error_capacity

-- A session from its opening to its last closing.
abbrev pub lifetime : Bool → ℕ → ℕ → Opened → ℕ → List Effect
lifetime interrupted attachment g o n =
    let (effects, session) = open_computer_session interrupted attachment (some g) o in
    effects ++ closed_times n session

close_times_closed : (n g : ℕ) → close_times n (record { generation = g; state = none }) ≡ []
unfolding close_times close_computer_session
close_times_closed zero g = refl
close_times_closed (suc n) g = close_times_closed n g

opening_is_not_close : (b : Bool) → is_close (if b then open_session else open_attached) ≡ false
opening_is_not_close true = refl
opening_is_not_close false = refl

-- What a response with a token leads to.
opened_with-settles :
    (interrupted : Bool) (g : ℕ) (r : Response) (n : ℕ)
    → let (effects, session) = opened_with interrupted g r in
      let es = effects ++ closed_times (suc n) session in
      (releases_in es ≡ 1) × (closes_in es ≡ (if not (r.session_token == 0) then 1 else 0))
unfolding opened_with close_times close_computer_session
opened_with-settles interrupted g r n = ground (arith, close_times_closed n g)

after_open-settles :
    (interrupted : Bool) (g : ℕ) (o : Opened) (n : ℕ)
    → IsFilled o
    → let (effects, session) = after_open interrupted g o in
      let es = effects ++ closed_times (suc n) session in
      (releases_in es ≡ 1) × (closes_in es ≡ (if host_opened o then 1 else 0))
unfolding after_open
after_open-settles interrupted g throws n filled = (refl, refl)
after_open-settles interrupted g (answers a) n filled = elim (Bool-cases (answer_valid false a)) [
  | inl valid ↦
      rw (invoke-answer_valid false [] a filled, valid)
        (opened_with-settles interrupted g (reported_response a) n)
  | inr refused ↦ rw (invoke-answer_valid false [] a filled, refused) (refl, refl)
]

-- However the opening of a session with a leased generation ends, once the session, if there is
-- one, was closed at least once, its generation was released exactly once, and CLOSE was called
-- exactly once if the host answered with a token that is not 0 and with success, no error text,
-- lengths within the capacities and no image; otherwise CLOSE was never called, even if an answer
-- that was refused for its error text or a length had a token. The host's error buffer has its
-- capacity.
pub lifetime-settles :
    (interrupted : Bool) (attachment g : ℕ) (o : Opened) (n : ℕ)
    → IsFilled o
    → (releases_in (lifetime interrupted attachment g o (suc n)) ≡ 1)
      × (closes_in (lifetime interrupted attachment g o (suc n)) ≡ (if host_opened o then 1 else 0))
unfolding open_computer_session
lifetime-settles interrupted attachment g o n filled =
    let (released, closed) = after_open-settles interrupted g o n filled in
    (released, ground (arith, closed, opening_is_not_close (attachment == 0)))
