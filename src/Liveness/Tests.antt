-- ===== src/Liveness/Tests.antt =====
-- A session whose peer falls silent, on which the theorems are used.
use distributed_audio_system.Liveness.{
  RecoveryConfig, SessionLiveness, failed, session_liveness, should_retry, streaming, update,
}
use distributed_audio_system.Liveness.Attempts.{
  Call, calls, calls-retries, passing, retries, retrying,
}
use distributed_audio_system.Prelude.{List, [], arith, refl, some, true, ◌+◌, ◌∷◌, ◌≡◌, ◌≤◌}
use distributed_audio_system.Prelude.Int.{pos, ◌+ℤ◌, ◌-ℤ◌}

abbrev sample_config : RecoveryConfig
sample_config = record {
  warning_timeout = pos 50;
  disconnect_timeout = pos 150;
  retry_interval = pos 20;
  maximum_attempts = 2;
}

abbrev fresh : SessionLiveness
fresh = record {
  config = sample_config;
  last_valid = pos 0;
  next_retry = pos 0;
  state = streaming;
  attempts = 0;
  peer_is_available = true;
}

built : session_liveness sample_config ≡ some fresh
unfolding session_liveness
built = refl

abbrev sample_calls : List Call
sample_calls =
    passing (pos 200)
    ∷ retrying (pos 200)
    ∷ retrying (pos 210)
    ∷ retrying (pos 220)
    ∷ retrying (pos 300)
    ∷ []

gives_up : (calls fresh sample_calls).state ≡ failed
unfolding calls update should_retry ◌-ℤ◌ ◌+ℤ◌
gives_up = refl

calls-retries_example :
    ((calls fresh sample_calls).attempts ≡ retries fresh sample_calls + 0)
    × (retries fresh sample_calls + 0 ≤ 2)
calls-retries_example =
    calls-retries fresh sample_calls (refl, (refl, (refl, (refl, (refl, tt))))) (omega arith)
