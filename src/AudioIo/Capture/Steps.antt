-- ===== src/AudioIo/Capture/Steps.antt =====
-- What one call of the capture buffer of src/audio_io.cpp does to the frames and the counters.
use mathlib.Core.List.{append-nil}
use distributed_audio_system.Audio.{AudioFrame}
use distributed_audio_system.AudioIo.Capture.{CaptureBuffer, close, pop, push}
use distributed_audio_system.AudioIo.Capture.Calls.{
  Call, Flow, call, closing, frame_in, frame_out, no_flow, popping, pushing,
}
use distributed_audio_system.Prelude.{
  Bool-cases, List, [], arith, false, inl, inr, leb, length, length-append, refl, true, ◌++◌, ◌<◌,
  ◌^◌, ◌||◌, ◌∷◌, ◌≡◌, ◌≤◌,
}
use distributed_audio_system.Sequence.{add_u64}

-- A buffer within its capacity, with counters of 64 bits, that is empty once it is closed.
pub record CaptureInv (b : CaptureBuffer) : Type 0 where
  pub bound : length b.frames ≤ b.capacity
  pub emptied : b.closed ≡ true → b.frames ≡ []
  pub captured_range : b.statistics.captured_frames < 2 ^ 64
  pub dropped_range : b.statistics.dropped_frames < 2 ^ 64

-- The frames are accounted for, in order, and counted.
pub record Accounted (a b : CaptureBuffer) (x : Flow) : Type 0 where
  pub order : a.frames ++ x.accepted ≡ x.delivered ++ (x.discarded ++ b.frames)
  pub captured_count :
      b.statistics.captured_frames ≡ add_u64 a.statistics.captured_frames (length x.accepted)
  pub dropped_count : b.statistics.dropped_frames ≡ add_u64 a.statistics.dropped_frames x.refused
  pub shut : a.closed ≡ true → x.accepted ≡ []
  pub unshut : b.closed ≡ false → x.discarded ≡ []
  pub stays : a.closed ≡ true → b.closed ≡ true
  pub kept_capacity : b.capacity ≡ a.capacity

push-Accounted :
    (b : CaptureBuffer) (f : AudioFrame)
    → CaptureInv b
    → CaptureInv (push b f).0 × Accounted b (push b f).0 (frame_in f (push b f).1)
unfolding push
push-Accounted b f v = elim (Bool-cases (b.closed || leb b.capacity (length b.frames))) [
  | inl full ↦ simp full (
    record {
      bound = v.bound;
      emptied = v.emptied;
      captured_range = v.captured_range;
      dropped_range = omega arith;
    },
    record {
      order = append-nil b.frames;
      captured_count = omega (arith, v.captured_range);
      dropped_count = refl;
      shut = λ _. refl;
      unshut = λ _. refl;
      stays = λ e. e;
      kept_capacity = refl;
    },
  )
  | inr room ↦ simp room (
    record {
      bound = ground (arith, length-append b.frames (f ∷ []), room);
      emptied = λ shut. absurd (ground (arith, room, shut));
      captured_range = omega arith;
      dropped_range = v.dropped_range;
    },
    record {
      order = refl;
      captured_count = refl;
      dropped_count = omega (arith, v.dropped_range);
      shut = λ shut. absurd (ground (arith, room, shut));
      unshut = λ _. refl;
      stays = λ e. e;
      kept_capacity = refl;
    },
  )
]

pop-Accounted :
    (b : CaptureBuffer)
    → CaptureInv b
    → CaptureInv (pop b).0 × Accounted b (pop b).0 (frame_out (pop b).1)
unfolding pop
pop-Accounted b v = go b.frames refl
  where
    go :
        (fs : List AudioFrame)
        → b.frames ≡ fs
        → CaptureInv (pop b).0 × Accounted b (pop b).0 (frame_out (pop b).1)
    go [] e = ground (arith, e, v.captured_range)
    go (f ∷ fs) e = ground (arith, e, v.captured_range, append-nil fs)

close-Accounted :
    (b : CaptureBuffer)
    → CaptureInv b
    → CaptureInv (close b) × Accounted b (close b) (record no_flow { discarded = b.frames })
unfolding close
close-Accounted b v = (
  record {
    bound = omega arith;
    emptied = λ _. refl;
    captured_range = v.captured_range;
    dropped_range = v.dropped_range;
  },
  record {
    order = refl;
    captured_count = omega (arith, v.captured_range);
    dropped_count = omega (arith, v.dropped_range);
    shut = λ _. refl;
    unshut = λ e. cc;
    stays = λ _. refl;
    kept_capacity = refl;
  },
)

pub call-Accounted :
    (b : CaptureBuffer) (c : Call)
    → CaptureInv b
    → CaptureInv (call b c).0 × Accounted b (call b c).0 (call b c).1
call-Accounted b (pushing f) v = push-Accounted b f v
call-Accounted b popping v = pop-Accounted b v
call-Accounted b closing v = close-Accounted b v
