-- ===== src/Media/Peer/Resources.antt =====
-- What an AgentPeer owns from agent_peer_new to agent_peer_free.
use haskell_agent.Base.{◌≡◌, Bool, true, false, some, [], ◌∷◌, ◌++◌, arith, if◌then◌else◌}
use haskell_agent.Base.Owned.{creates, settle}
use haskell_agent.Media.Peer.{
  Handle, structure, pipeline, rtc, ice, agent, source, receiver, sink, promise, Startup, peer_new,
  peer_free,
}

pub same : Handle → Handle → Bool
same structure structure = true
same pipeline pipeline = true
same rtc rtc = true
same ice ice = true
same agent agent = true
same source source = true
same receiver receiver = true
same sink sink = true
same promise promise = true
same _ _ = false

-- A start that fails releases all that it has created, and a peer that was returned holds just
-- what agent_peer_free releases, with an operation in flight or without.
pub peer_new-settles :
    (s : Startup) (in_flight : Bool)
    → let (returned, events) = peer_new s in
      settle same
        (events
          ++ (if returned
              then (if in_flight then creates promise ∷ [] else [])
                ++ peer_free in_flight s.has_rtc s.has_source s.has_sink true
              else []))
        []
      ≡ some []
unfolding peer_new settle same
peer_new-settles s in_flight = ground arith
