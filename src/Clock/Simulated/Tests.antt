-- ===== src/Clock/Simulated/Tests.antt =====
-- A frame, a substitute and an underrun, with numbers with a fixed point.
use distributed_audio_system.Audio.{AudioFrame, format_is_valid}
use distributed_audio_system.Clock.Simulated.{
  SimulatedPlayback, checksum, consume, new_playback, peak_of, play_frame,
}
use distributed_audio_system.Clock.Simulated.Totals.{Totals, consume_all, consume_all-Totals}
use distributed_audio_system.Float.Fixed.{fixed_float}
use distributed_audio_system.Jitter.{PlaybackItem, PullStatus}
use distributed_audio_system.Prelude.{List, [], arith, false, none, ok, refl, some, true, ◌∷◌, ◌≡◌}
use distributed_audio_system.Prelude.Int.{pos, ℤ, ◌*ℤ◌, ◌-ℤ◌}
use distributed_audio_system.Samples.{pcm16_to_float, samples_of}

abbrev loud : AudioFrame
loud = record {
  format = record { sample_rate = 48_000; channel_count = 1; bits_per_sample = 16 };
  sequence_number = 5;
  timestamp = pos 0;
  payload = 0 ∷ 64 ∷ 0 ∷ 128 ∷ [];
}

abbrev items : List PlaybackItem
items =
    record {
      status = PullStatus.playing;
      sequence_number = 5;
      frame = some loud;
      concealed = false;
    }
    ∷ record { status = PullStatus.not_ready; sequence_number = 6; frame = none; concealed = false }
    ∷ record {
      status = PullStatus.missing;
      sequence_number = 6;
      frame = some loud;
      concealed = true;
    }
    ∷ []

abbrev heard : SimulatedPlayback ℤ
heard = record {
  real_frames_played = 1;
  concealed_frames_played = 1;
  late_frames = 0;
  underruns = 1;
  total_frames_processed = 2;
  samples_played = 4;
  first_sequence = 5;
  last_sequence = 6;
  peak_level = pos 32_768_000;
  payload_checksum = checksum (checksum 0 loud.payload) loud.payload;
  has_sequence = true;
  playback_sequence = 5 ∷ 6 ∷ [];
}

consumed : consume_all new_playback items ≡ ok heard
unfolding consume_all consume play_frame pcm16_to_float samples_of peak_of format_is_valid ◌*ℤ◌ ◌-ℤ◌
consumed = refl

consume_all-Totals_example : Totals new_playback heard items
consume_all-Totals_example = consume_all-Totals new_playback heard items consumed (record {
  total_range = omega arith;
  starved_range = omega arith;
  substituted_range = omega arith;
})
