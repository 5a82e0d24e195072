-- ===== src/Clock/Scheduler.antt =====
-- src/playback_scheduler.cpp. The scheduler refers to the estimator of its owner, which is an argument here.
use distributed_audio_system.Clock.Estimator.{ClockEstimator, map_remote_to_local}
use distributed_audio_system.Float.{Floats}
use distributed_audio_system.Jitter.{int_eq}
use distributed_audio_system.Prelude.{Option, if◌then◌else◌, none, some, ℕ}
use distributed_audio_system.Prelude.Int.{ltb_ℤ, pos, ℤ, ◌+ℤ◌}

pub data ScheduleDecision : Type 0 where
  not_ready too_early : ScheduleDecision
  ready late : ScheduleDecision

pub record ScheduledPlayback : Type 0 where
  pub sequence_number : ℕ
  pub local_play_time : ℤ

pub record PlaybackScheduler : Type 0 where
  pub playout_delay : ℤ

-- The constructor; `none` is its exception.
unfoldable pub playback_scheduler : ℤ → Option PlaybackScheduler
playback_scheduler delay =
    if ltb_ℤ delay (pos 0) then none else some (record { playout_delay = delay })

unfoldable pub decide : ScheduledPlayback → ℤ → ScheduleDecision
decide scheduled now =
    if ltb_ℤ now scheduled.local_play_time
    then too_early
    else if int_eq now scheduled.local_play_time
    then ScheduleDecision.ready
    else ScheduleDecision.late

module _ {ℓ} {D : Type ℓ} ⦃m : Floats D⦄ where
  unfoldable pub schedule : PlaybackScheduler → ClockEstimator D → ℕ → ℤ → Option ScheduledPlayback
  schedule p estimator sequence_number remote_timestamp =
      elim (map_remote_to_local estimator remote_timestamp) [
        | none ↦ none
        | some mapped ↦ some (record {
          sequence_number = sequence_number;
          local_play_time = mapped +ℤ p.playout_delay;
        })
      ]
