-- ===== src/Session/Manager/Expiry.antt =====
-- `expire` and `device_unavailable` of AudioSessionManager, of src/audio_session.cpp.
use distributed_audio_system.Identity.{DeviceId, SessionId, device_eq}
use distributed_audio_system.Prelude.{Bool, [], if◌then◌else◌, not, ℕ, ◌&&◌, ◌+◌, ◌∷◌}
use distributed_audio_system.Prelude.Int.{ltb_ℤ, ℤ, ◌-ℤ◌}
use distributed_audio_system.Prelude.Map.{Map}
use distributed_audio_system.Session.Manager.{AudioSessionManager, SessionInfo, transition}
use distributed_audio_system.Session.Message.{remote_unavailable, timeout}
use distributed_audio_system.Session.State.{closed, failed, negotiating, state_eq}

abbrev pub is_overdue : ℤ → ℤ → SessionInfo → Bool
is_overdue timeout_ now info =
    state_eq info.state negotiating && not (ltb_ℤ (now -ℤ info.last_activity) timeout_)

abbrev pub expire_session : ℤ → ℤ → SessionInfo → SessionInfo
expire_session timeout_ now info =
    if is_overdue timeout_ now info
    then transition (record info { failure_reason = timeout }) failed
    else info

-- The loops of `expire` and `device_unavailable`: each session in turn.
unfoldable pub update_all :
    (SessionInfo → SessionInfo) → Map SessionId SessionInfo → Map SessionId SessionInfo
update_all f [] = []
update_all f ((k, info) ∷ m) = (k, f info) ∷ update_all f m

unfoldable pub count_overdue : ℤ → ℤ → Map SessionId SessionInfo → ℕ
count_overdue timeout_ now [] = 0
count_overdue timeout_ now ((k, info) ∷ m) =
    let rest = count_overdue timeout_ now m in
    if is_overdue timeout_ now info then rest + 1 else rest

unfoldable pub expire : AudioSessionManager → ℤ → AudioSessionManager × ℕ
expire m now = (
  record m { sessions = update_all (expire_session m.negotiation_timeout now) m.sessions },
  count_overdue m.negotiation_timeout now m.sessions,
)

abbrev pub lose_session : DeviceId → ℤ → SessionInfo → SessionInfo
lose_session id now info =
    if device_eq info.remote_device id && not (state_eq info.state closed)
    then transition (record info { failure_reason = remote_unavailable; last_activity = now })
        failed
    else info

unfoldable pub device_unavailable : AudioSessionManager → DeviceId → ℤ → AudioSessionManager
device_unavailable m id now = record m { sessions = update_all (lose_session id now) m.sessions }
