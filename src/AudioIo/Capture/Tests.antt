-- ===== src/AudioIo/Capture/Tests.antt =====
-- A run of a capture buffer of one frame.
use distributed_audio_system.Audio.{AudioFrame, bytes_per_frame}
use distributed_audio_system.AudioIo.Capture.{CaptureBuffer, capture_buffer, close, pop, push}
use distributed_audio_system.AudioIo.Capture.Accounts.{capture_accounts}
use distributed_audio_system.AudioIo.Capture.Calls.{Call, calls, closing, offers, popping, pushing}
use distributed_audio_system.Prelude.{
  List, [], false, length, refl, some, ℕ, ◌%◌, ◌++◌, ◌+◌, ◌^◌, ◌∷◌, ◌≡◌, ◌≤◌,
}
use distributed_audio_system.Prelude.Int.{pos}

abbrev short_frame : ℕ → AudioFrame
short_frame n = record {
  format = record { sample_rate = 48_000; channel_count = 1; bits_per_sample = 16 };
  sequence_number = n;
  timestamp = pos 0;
  payload = 1 ∷ 2 ∷ [];
}

abbrev fresh_buffer : CaptureBuffer
fresh_buffer = record {
  capacity = 1;
  frames = [];
  statistics = record { captured_frames = 0; dropped_frames = 0; captured_samples = 0 };
  closed = false;
}

built : capture_buffer 1 ≡ some fresh_buffer
unfolding capture_buffer
built = refl

-- The second frame finds the buffer full, the last one finds it closed.
abbrev capture_run : List Call
capture_run =
    pushing (short_frame 1)
    ∷ pushing (short_frame 2)
    ∷ popping
    ∷ pushing (short_frame 3)
    ∷ closing
    ∷ pushing (short_frame 4)
    ∷ []

run-statistics :
    (calls fresh_buffer capture_run).0.statistics
    ≡ record { captured_frames = 2; dropped_frames = 2; captured_samples = 2 }
unfolding calls push pop close bytes_per_frame
run-statistics = refl

capture_accounts_example :
    ((calls fresh_buffer capture_run).1.accepted
      ≡ (calls fresh_buffer capture_run).1.delivered
        ++ ((calls fresh_buffer capture_run).1.discarded
            ++ (calls fresh_buffer capture_run).0.frames))
    × (length (calls fresh_buffer capture_run).0.frames ≤ 1)
    × ((calls fresh_buffer capture_run).0.statistics.captured_frames
        ≡ length (calls fresh_buffer capture_run).1.accepted % 2 ^ 64)
    × ((calls fresh_buffer capture_run).0.statistics.dropped_frames
        ≡ (calls fresh_buffer capture_run).1.refused % 2 ^ 64)
    × (length (calls fresh_buffer capture_run).1.accepted
          + (calls fresh_buffer capture_run).1.refused
        ≡ offers capture_run)
capture_accounts_example = capture_accounts 1 fresh_buffer capture_run built
