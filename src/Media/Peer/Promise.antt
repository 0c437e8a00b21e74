-- ===== src/Media/Peer/Promise.antt =====
-- The one asynchronous operation of a peer, from the signal that starts it to the call that reports
-- its outcome.
use haskell_agent.Base.{
  ℕ, ◌+◌, ◌≤◌, ◌<◌, ◌^◌, ◌≡◌, refl, ap, Bool, true, false, Option, none, some, List, [], ◌∷◌, ◌==◌,
  not, ◌&&◌, arith, if◌then◌else◌, length,
}
use haskell_agent.Base.Int.{ℤ, pos, negsuc}
use haskell_agent.Base.Words.{to_i32, to_i32-small}
use haskell_agent.Media.Protocol.{media_limit}
use haskell_agent.Media.Device.{Filled, Fits}
use haskell_agent.Media.Peer.{
  Peer, Field, Signal, Description, Settled, operation_done, peer_create_description,
  peer_set_description, copy_description, acknowledged, settled, refused_copy, peer_operation,
  peer_local_description, peer_pull, is_pending, text_of, sample_bytes,
}

-- A value that counts stored bytes.
pub counting :
    (n : ℕ) (b : List ℕ) (capacity : ℕ)
    → length b ≡ n
    → n ≤ capacity
    → n < 2 ^ 31
    → Fits capacity (record { value = to_i32 n; stored = b })
counting n b capacity e le small =
    rw (to_i32-small n small) (omega arith, omega arith, λ k h. ground arith)

pub refused-Fits : (capacity : ℕ) → Fits capacity refused_copy
refused-Fits capacity = (omega arith, omega arith, λ k h. cc)

pub pending-Fits : (capacity : ℕ) → Fits capacity (record { value = pos 0; stored = [] })
pending-Fits capacity = (omega arith, omega arith, λ k h. ground arith)

pub if-Fits :
    (capacity : ℕ) (b : Bool) (x y : Filled)
    → (b ≡ true → Fits capacity x)
    → (b ≡ false → Fits capacity y)
    → Fits capacity (if b then x else y)
if-Fits capacity true x y p q = p refl
if-Fits capacity false x y p q = q refl

copy_description-Fits :
    (d : Option Description) (capacity : ℕ) → Fits capacity (copy_description d capacity)
unfolding copy_description
copy_description-Fits none capacity = refused-Fits capacity
copy_description-Fits (some d) capacity =
    if-Fits capacity _ _ refused_copy
      (λ e. counting (length (text_of d)) (text_of d) capacity refl (ground arith) (ground arith))
      (λ e. refused-Fits capacity)

acknowledged-Fits : (capacity : ℕ) → Fits capacity (acknowledged capacity)
unfolding acknowledged
acknowledged-Fits capacity =
    if-Fits capacity (capacity == 0) refused_copy _ (λ e. refused-Fits capacity)
      (λ e. (omega arith, ground arith, λ k h. ground arith))

settled-Fits :
    (s : Settled) (field : Option Field) (capacity : ℕ) → Fits capacity (settled s field capacity)
unfolding settled
settled-Fits none field capacity = refused-Fits capacity
settled-Fits (some none) field capacity = acknowledged-Fits capacity
settled-Fits (some (some r)) none capacity =
    if-Fits capacity r.has_error _ _ (λ e. refused-Fits capacity) (λ e. acknowledged-Fits capacity)
settled-Fits (some (some r)) (some f) capacity =
    if-Fits capacity r.has_error _ _ (λ e. refused-Fits capacity)
      (λ e. copy_description-Fits (r.description f) capacity)

-- Whatever the promise was replied with, agent_peer_operation stores no more than its buffer
-- holds, and a positive value counts bytes that it stored.
pub peer_operation-Fits :
    (s : Settled) (capacity : ℕ) (p : Peer) → Fits capacity (peer_operation s capacity p).0
unfolding peer_operation
peer_operation-Fits s capacity p = by_state p.operation refl
  where
    by_state : (o : Option Bool) → p.operation ≡ o → Fits capacity (peer_operation s capacity p).0
    by_state none e = rw (e, peer_operation) (refused-Fits capacity)
    by_state (some false) e = rw (e, peer_operation) (pending-Fits capacity)
    by_state (some true) e = rw (e, peer_operation) (settled-Fits s p.description_field capacity)

pub peer_local_description-Fits :
    (gathered : Bool) (d : Option Description) (capacity : ℕ)
    → Fits capacity (peer_local_description gathered d capacity)
unfolding peer_local_description
peer_local_description-Fits true d capacity = copy_description-Fits d capacity
peer_local_description-Fits false d capacity = pending-Fits capacity

pub peer_pull-Fits :
    (extract : List ℕ → List ℕ) (sample : Option (Option (List ℕ))) (capacity : ℕ)
    → ((b : List ℕ) → extract b ≡ b)
    → capacity ≤ media_limit
    → Fits capacity (peer_pull extract sample capacity)
unfolding peer_pull
peer_pull-Fits extract none capacity whole le = pending-Fits capacity
peer_pull-Fits extract (some sample) capacity whole le =
    if-Fits capacity _ _ refused_copy
      (λ e.
        counting (length (sample_bytes sample)) (extract (sample_bytes sample)) capacity
          (ap length (whole (sample_bytes sample))) (ground arith) (ground arith))
      (λ e. refused-Fits capacity)

-- What a session can do with a peer's operation: start one, have it complete, and ask for it.
pub data Call : Type 0 where
  creates : Bool → Call
  sets : (List ℕ → Bool) → List ℕ → Bool → Bool → Call
  completes : Call
  asks : Settled → ℕ → Call

abbrev count_signal : Option Signal → ℕ
count_signal none = 0
count_signal (some s) = 1

abbrev pub after : Call → Peer → Peer
after (creates o) p = (peer_create_description o p).2
after (sets parsed sdp o l) p = (peer_set_description parsed sdp o l p).2
after completes p = operation_done p
after (asks s capacity) p = (peer_operation s capacity p).1

-- Operations that a call starts: the signals that it emits.
abbrev pub starts : Call → Peer → ℕ
starts (creates o) p = count_signal (peer_create_description o p).1
starts (sets parsed sdp o l) p = count_signal (peer_set_description parsed sdp o l p).1
starts _ p = 0

abbrev is_zero : ℤ → Bool
is_zero (pos n) = n == 0
is_zero (negsuc n) = false

-- Outcomes that a call reports: with an operation in flight agent_peer_operation returned something
-- else than 0, the length of a description or -1.
abbrev pub reports : Call → Peer → ℕ
reports (asks s capacity) p =
    if is_pending p.operation && not (is_zero (peer_operation s capacity p).0.value) then 1 else 0
reports _ p = 0

abbrev pub in_flight : Peer → ℕ
in_flight p = if is_pending p.operation then 1 else 0

after-in_flight :
    (c : Call) (p : Peer) → in_flight p + starts c p ≡ reports c p + in_flight (after c p)
unfolding peer_create_description peer_set_description operation_done peer_operation
after-in_flight (creates o) p = ground arith
after-in_flight (sets parsed sdp o l) p = ground arith
after-in_flight completes p = ground arith
after-in_flight (asks s capacity) p = ground arith

pub run : List Call → Peer → Peer
run [] p = p
run (c ∷ cs) p = run cs (after c p)

pub started : List Call → Peer → ℕ
started [] p = 0
started (c ∷ cs) p = starts c p + started cs (after c p)

pub reported : List Call → Peer → ℕ
reported [] p = 0
reported (c ∷ cs) p = reports c p + reported cs (after c p)

-- Over any history of a peer each operation that was started, by a signal, is reported once, by a
-- value of agent_peer_operation other than 0, but for one that may still be in flight: two are never
-- in flight at a time, and none is reported twice.
pub started-reported :
    (cs : List Call) (p : Peer) → in_flight p + started cs p ≡ reported cs p + in_flight (run cs p)
unfolding run started reported
started-reported [] p = omega arith
started-reported (c ∷ cs) p = omega (arith, after-in_flight c p, started-reported cs (after c p))
