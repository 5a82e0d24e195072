-- ===== src/Stream/Receiver/Playback.antt =====
-- `AudioStreamReceiver::playback_step` of src/audio_stream.cpp.
use distributed_audio_system.Audio.{AudioFrame, bytes_per_frame}
use distributed_audio_system.Clock.Scheduler.{ScheduleDecision, decide, schedule}
use distributed_audio_system.Clock.Simulated.{SimulatedPlayback, consume}
use distributed_audio_system.Float.{Float, Floats}
use distributed_audio_system.Jitter.{PlaybackItem, pop}
use distributed_audio_system.Jitter.Playback.{is_played}
use distributed_audio_system.Prelude.{
  Option, Result, err, if◌then◌else◌, length, none, not, ok, some, ℕ, ◌*◌, ◌/◌,
}
use distributed_audio_system.Prelude.Int.{ℤ}
use distributed_audio_system.Samples.{SampleError}
use distributed_audio_system.Sequence.{add_u64}
use distributed_audio_system.Stream.{is_running}
use distributed_audio_system.Stream.Receiver.{AudioStreamReceiver, count_if, is_too_early}

module _ {ℓ κ} {F : Type ℓ} {D : Type κ} ⦃f : Float F⦄ ⦃m : Floats D⦄ where
  -- What the scheduler says of an item, if it can tell.
  abbrev pub decision_of : AudioStreamReceiver F D → PlaybackItem → ℤ → Option ScheduleDecision
  decision_of r item now = elim item.frame [
    | none ↦ none
    | some frame ↦
        elim (schedule r.scheduler r.clock_estimator item.sequence_number frame.timestamp) [
          | none ↦ none
          | some scheduled ↦ some (decide scheduled now)
        ]
  ]

  -- The samples of all channels of an item.
  abbrev pub item_samples : AudioStreamReceiver F D → Option AudioFrame → ℕ
  item_samples r none = 0
  item_samples r (some frame) =
      length frame.payload / bytes_per_frame r.config.format * r.config.format.channel_count

  -- `playback_step` after the playback consumed the item.
  abbrev pub played_item :
      AudioStreamReceiver F D → SimulatedPlayback F → PlaybackItem → AudioStreamReceiver F D
  played_item r playback item = record r {
    playback = playback;
    statistics = record r.statistics {
      frames_played = add_u64 r.statistics.frames_played 1;
      samples_played = add_u64 r.statistics.samples_played (item_samples r item.frame);
      concealed_frames = count_if item.concealed r.statistics.concealed_frames;
      peak_level = playback.peak_level;
      jitter_buffer_depth = length r.jitter_buffer.frames;
    };
  }

  -- `err` is the exception of the conversion of the samples.
  unfoldable pub playback_step :
      AudioStreamReceiver F D → ℤ → Result SampleError (AudioStreamReceiver F D × ℕ)
  playback_step r now =
      let (buffer, item) = pop r.jitter_buffer now in
      let taken = record r { jitter_buffer = buffer } in
      if not (is_running r.state)
      then ok (r, 0)
      else if not (is_played item.status)
      then ok (taken, 0)
      else if is_too_early (decision_of taken item now)
      then ok (taken, 0)
      else elim (consume taken.playback item) [
        | err e ↦ err e
        | ok playback ↦ ok (played_item taken playback item, 1)
      ]
