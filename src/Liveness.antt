-- ===== src/Liveness.antt =====
-- `SessionLiveness` of src/network_resilience.cpp: when a silent peer is given up. A time point is an
-- integer of nanoseconds.
pub mod Attempts
mod Tests
use distributed_audio_system.Prelude.{
  Bool, Option, false, if◌then◌else◌, leb, none, not, some, true, ℕ, ◌+◌, ◌==◌, ◌||◌,
}
use distributed_audio_system.Prelude.Int.{ltb_ℤ, pos, ℤ, ◌+ℤ◌, ◌-ℤ◌}

pub data ResilienceState : Type 0 where
  streaming interrupted recovering failed stopped : ResilienceState

pub record RecoveryConfig : Type 0 where
  pub warning_timeout : ℤ
  pub disconnect_timeout : ℤ
  pub retry_interval : ℤ
  pub maximum_attempts : ℕ

pub record SessionLiveness : Type 0 where
  pub config : RecoveryConfig
  pub last_valid : ℤ
  pub next_retry : ℤ
  pub state : ResilienceState
  pub attempts : ℕ
  pub peer_is_available : Bool

-- The constructor; `none` is its exception.
unfoldable pub session_liveness : RecoveryConfig → Option SessionLiveness
session_liveness c =
    if not (ltb_ℤ (pos 0) c.warning_timeout)
      || not (ltb_ℤ c.warning_timeout c.disconnect_timeout)
      || c.maximum_attempts == 0
    then none
    else some (record {
      config = c;
      last_valid = pos 0;
      next_retry = pos 0;
      state = streaming;
      attempts = 0;
      peer_is_available = true;
    })

abbrev pub is_broken : ResilienceState → Bool
is_broken interrupted = true
is_broken recovering = true
is_broken _ = false

abbrev pub is_final : ResilienceState → Bool
is_final failed = true
is_final ResilienceState.stopped = true
is_final _ = false

unfoldable pub valid_traffic : SessionLiveness → ℤ → SessionLiveness
valid_traffic l now =
    if is_broken l.state
    then record l { last_valid = now; state = streaming; attempts = 0 }
    else record l { last_valid = now }

-- `now - last_valid_ >= timeout`.
abbrev pub silent_for : SessionLiveness → ℤ → ℤ → Bool
silent_for l now limit = not (ltb_ℤ (now -ℤ l.last_valid) limit)

unfoldable pub update : SessionLiveness → ℤ → SessionLiveness
update l now =
    if is_final l.state
    then l
    else if not l.peer_is_available || silent_for l now l.config.disconnect_timeout
    then record l { state = interrupted }
    else if silent_for l now l.config.warning_timeout
    then record l { state = recovering }
    else l

unfoldable pub peer_available : SessionLiveness → Bool → ℤ → SessionLiveness
peer_available l available now =
    let l = record l { peer_is_available = available } in
    if available then valid_traffic l now else update l now

unfoldable pub stop : SessionLiveness → SessionLiveness
stop l = record l { state = ResilienceState.stopped }

unfoldable pub should_retry : SessionLiveness → ℤ → SessionLiveness × Bool
should_retry l now =
    let spent = leb l.config.maximum_attempts l.attempts in
    if not (is_broken l.state)
    then (l, false)
    else if spent || ltb_ℤ now l.next_retry
    then (if spent then record l { state = failed } else l, false)
    else (
      record l {
        attempts = l.attempts + 1;
        next_retry = now +ℤ l.config.retry_interval;
        state = recovering;
      },
      true,
    )
