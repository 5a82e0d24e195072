-- ===== src/Audio/Tests.antt =====
-- A frame of src/audio_frame.cpp on which the theorems are used.
use distributed_audio_system.Audio.{
  AudioFormat, AudioFrame, audio_frame, bytes_per_frame, format_is_valid,
}
use distributed_audio_system.Audio.Laws.{IsFrame, audio_frame-IsFrame}
use distributed_audio_system.Prelude.{arith, ok, refl, replicate, ◌≡◌}
use distributed_audio_system.Prelude.Int.{pos}

abbrev cd_format : AudioFormat
cd_format = record { sample_rate = 44_100; channel_count = 2; bits_per_sample = 16 }

-- Two samples for each channel.
abbrev cd_frame : AudioFrame
cd_frame = record {
  format = cd_format;
  sequence_number = 3;
  timestamp = pos 0;
  payload = replicate 8 0;
}

cd_frame-IsFrame : IsFrame cd_frame
unfolding format_is_valid bytes_per_frame
cd_frame-IsFrame = record { valid = refl; whole = λ e. omega arith; aligned = refl }

build_cd_frame : audio_frame cd_format 3 (pos 0) (replicate 8 0) ≡ ok cd_frame
unfolding audio_frame
build_cd_frame = refl

audio_frame-IsFrame_example : IsFrame cd_frame
audio_frame-IsFrame_example =
    audio_frame-IsFrame cd_format 3 (pos 0) (replicate 8 0) cd_frame build_cd_frame
