-- ===== src/Media/Audio/Resources.antt =====
-- What an AgentAudio owns from agent_audio_new to agent_audio_free.
use haskell_agent.Base.{◌≡◌, Bool, true, false, some, [], ◌++◌, arith, if◌then◌else◌}
use haskell_agent.Base.Owned.{settle}
use haskell_agent.Media.Audio.{
  Handle, structure, mutex, pipeline, endpoint, Startup, audio_new, audio_free,
}

pub same : Handle → Handle → Bool
same structure structure = true
same mutex mutex = true
same pipeline pipeline = true
same endpoint endpoint = true
same _ _ = false

-- A start that fails releases all that it has created, and an object that was returned holds just
-- what agent_audio_free releases.
pub audio_new-settles :
    (s : Startup)
    → let (returned, events) = audio_new s in
      settle same (events ++ (if returned then audio_free true s.named else [])) [] ≡ some []
unfolding audio_new settle same
audio_new-settles s = ground arith
