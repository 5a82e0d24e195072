-- ===== src/AudioIo/Playback/Equivalence.antt =====
-- `PlaybackBuffer` of src/audio_io.cpp beside `AudioBuffer` of src/audio_buffer.cpp.
use distributed_audio_system.Audio.{AudioFrame}
use distributed_audio_system.AudioIo.Playback.{PlaybackBuffer, pop, push}
use distributed_audio_system.Prelude.{
  Bool, Bool-cases, List, Option, [], ap₂, arith, inl, inr, leb, length, none, refl, some, ℕ, ◌+◌,
  ◌<◌, ◌^◌, ◌||◌, ◌∷◌, ◌≡◌,
}
use distributed_audio_system.Queue.{AudioBuffer, try_pop, try_push}
use distributed_audio_system.Sequence.{add_u64}

pub data Call : Type 0 where
  pushing : AudioFrame → Call
  popping : Call

pub data Answer : Type 0 where
  pushed : Bool → Answer
  popped : Option AudioFrame → Answer

abbrev pub playback_call : PlaybackBuffer → Call → PlaybackBuffer × Answer
playback_call b (pushing f) = let (c, ok_) = push b f in (c, pushed ok_)
playback_call b popping = let (c, f) = pop b in (c, popped f)

abbrev pub queue_call : AudioBuffer → Call → AudioBuffer × Answer
queue_call q (pushing f) = let (r, ok_) = try_push q f in (r, pushed ok_)
queue_call q popping = let (r, f) = try_pop q in (r, popped f)

unfoldable pub playback_calls : PlaybackBuffer → List Call → PlaybackBuffer × List Answer
playback_calls b [] = (b, [])
playback_calls b (c ∷ cs) =
    let one = playback_call b c in let rest = playback_calls one.0 cs in (rest.0, one.1 ∷ rest.1)

pub queue_calls : AudioBuffer → List Call → AudioBuffer × List Answer
queue_calls q [] = (q, [])
queue_calls q (c ∷ cs) =
    let one = queue_call q c in let rest = queue_calls one.0 cs in (rest.0, one.1 ∷ rest.1)

-- The answers that hand out a frame, and those that have none.
abbrev pub frames_out : List Answer → ℕ
frames_out [] = 0
frames_out (popped (some f) ∷ xs) = 1 + frames_out xs
frames_out (popped none ∷ xs) = frames_out xs
frames_out (pushed ok_ ∷ xs) = frames_out xs

abbrev pub nothing_out : List Answer → ℕ
nothing_out [] = 0
nothing_out (popped none ∷ xs) = 1 + nothing_out xs
nothing_out (popped (some f) ∷ xs) = nothing_out xs
nothing_out (pushed ok_ ∷ xs) = nothing_out xs

-- The two hold the same frames in the same way.
pub record Same (b : PlaybackBuffer) (q : AudioBuffer) : Type 0 where
  pub capacity : b.capacity ≡ q.capacity
  pub frames : b.frames ≡ q.frames
  pub closed : b.closed ≡ q.closed

-- The counters after some answers.
pub record Counts (a b : PlaybackBuffer) (xs : List Answer) : Type 0 where
  pub played : b.statistics.played_frames ≡ add_u64 a.statistics.played_frames (frames_out xs)
  pub starved : b.statistics.underruns ≡ add_u64 a.statistics.underruns (nothing_out xs)

abbrev pub InRange : PlaybackBuffer → Type 0
InRange b = (b.statistics.played_frames < 2 ^ 64) × (b.statistics.underruns < 2 ^ 64)

pub record Agrees (a : PlaybackBuffer) (x : PlaybackBuffer × Answer) (y : AudioBuffer × Answer)
    : Type 0 where
  pub same : Same x.0 y.0
  pub answer : x.1 ≡ y.1
  pub counts : Counts a x.0 (x.1 ∷ [])
  pub range : InRange x.0

call-Agrees :
    (b : PlaybackBuffer) (q : AudioBuffer) (c : Call)
    → Same b q
    → InRange b
    → Agrees b (playback_call b c) (queue_call q c)
unfolding push try_push pop try_pop
call-Agrees b q (pushing f) s r = elim (Bool-cases (b.closed || leb b.capacity (length b.frames))) [
  | inl full ↦ ground (arith, full, s.capacity, s.frames, s.closed)
  | inr room ↦ ground (arith, room, s.capacity, s.frames, s.closed)
]
call-Agrees b q popping s r = go b.frames refl
  where
    go :
        (fs : List AudioFrame)
        → b.frames ≡ fs
        → Agrees b (playback_call b popping) (queue_call q popping)
    go [] e = ground (arith, e, s.capacity, s.frames, s.closed)
    go (f ∷ fs) e = ground (arith, e, s.capacity, s.frames, s.closed)

then-Counts :
    (a b c : PlaybackBuffer) (x : Answer) (xs : List Answer)
    → Counts a b (x ∷ [])
    → Counts b c xs
    → Counts a c (x ∷ xs)
then-Counts a b c (pushed ok_) xs p q = record {
  played = omega (arith, p.played, q.played);
  starved = omega (arith, p.starved, q.starved);
}
then-Counts a b c (popped none) xs p q = record {
  played = omega (arith, p.played, q.played);
  starved = omega (arith, p.starved, q.starved);
}
then-Counts a b c (popped (some f)) xs p q = record {
  played = omega (arith, p.played, q.played);
  starved = omega (arith, p.starved, q.starved);
}

-- Until it is closed, a playback buffer answers every call as a queue with the same capacity and the same frames
-- does, and holds the same frames afterwards; its counters are the frames that were handed out and the times that
-- there was none, modulo 2 ^ 64. The counters start in 64 bits.
pub playback_calls-queue_calls :
    (b : PlaybackBuffer) (q : AudioBuffer) (cs : List Call)
    → Same b q
    → InRange b
    → ((playback_calls b cs).1 ≡ (queue_calls q cs).1)
      × Same (playback_calls b cs).0 (queue_calls q cs).0
      × Counts b (playback_calls b cs).0 (playback_calls b cs).1
unfolding playback_calls queue_calls
playback_calls-queue_calls b q [] s r =
    (refl, s, record { played = omega arith; starved = omega arith })
playback_calls-queue_calls b q (c ∷ cs) s r =
    let one = call-Agrees b q c s r in
    let (same, after_, counted) =
      playback_calls-queue_calls (playback_call b c).0 (queue_call q c).0 cs one.same one.range in
    (
      ap₂ ◌∷◌ one.answer same,
      after_,
      then-Counts b (playback_call b c).0 (playback_calls (playback_call b c).0 cs).0 _ _ one.counts
          counted,
    )
