-- ===== src/AudioIo/Mock/Loopback.antt =====
-- The calls of a mock input of src/audio_io.cpp, and a mock output that plays what it captures.
use native.Mathlib.Nat.{mul-mod_left}
use distributed_audio_system.Audio.{
  AudioFormat, AudioFrame, FrameError, audio_frame, bytes_per_frame, format_is_valid,
}
use distributed_audio_system.Audio.Laws.{format_eq_refl}
use distributed_audio_system.AudioIo.{AudioDeviceInfo, AudioIoError, no_error, supports_format}
use distributed_audio_system.AudioIo.Mock.{
  MockInput, MockOutput, capture, mock_input, open_input, open_output, start_input, start_output,
  stop_input, write,
}
use distributed_audio_system.Prelude.{
  All, Bool-cases, List, Option, Option-cases, Result, [], arith, if◌then◌else◌, inl, inr, length,
  length-replicate, none, not, ok, refl, replicate, some, subst, sym, true, ℕ, ◌%◌, ◌*◌, ◌/◌, ◌∙◌,
  ◌∷◌, ◌≡◌,
}
use distributed_audio_system.Prelude.Int.{pos}
use distributed_audio_system.Sequence.{add_u64}

-- The calls of an input device.
pub data Call : Type 0 where
  opening : AudioFormat → Call
  starting : Call
  capturing : Call
  stopping : Call

-- The device after a call, and what was captured.
abbrev pub call : MockInput → Call → MockInput × Option (Result FrameError AudioFrame)
call d (opening format) = ((open_input d format).0, none)
call d starting = ((start_input d).0, none)
call d capturing = capture d
call d stopping = ((stop_input d).0, none)

-- What is captured in a sequence of calls is put before what is captured later.
abbrev pub with_capture :
    Option (Result FrameError AudioFrame)
    → List (Result FrameError AudioFrame)
    → List (Result FrameError AudioFrame)
with_capture none later = later
with_capture (some x) later = x ∷ later

unfoldable pub calls : MockInput → List Call → MockInput × List (Result FrameError AudioFrame)
calls d [] = (d, [])
calls d (c ∷ cs) =
    let one = call d c in let rest = calls one.0 cs in (rest.0, with_capture one.1 rest.1)

-- A frame is written to a device that is opened in a format and started.
unfoldable pub play_one : MockOutput → AudioFormat → AudioFrame → MockOutput × AudioIoError
play_one d format frame = write (start_output (open_output d format).0).0 frame

-- A frame of the given format that is silent for 240 samples a channel.
abbrev pub silence : AudioFormat → ℕ → AudioFrame
silence format sequence = record {
  format = format;
  sequence_number = sequence;
  timestamp = pos (sequence * 5_000_000);
  payload = replicate (format.channel_count * 2 * 240) 0;
}

supports_format_lem :
    (d : AudioDeviceInfo) (f : AudioFormat)
    → supports_format d f ≡ true
    → (format_is_valid f ≡ true) × (f.bits_per_sample ≡ 16)
unfolding supports_format
supports_format_lem d f h = (ground arith, ground arith)

silent_frame :
    (format : AudioFormat) (sequence : ℕ)
    → format_is_valid format ≡ true
    → format.bits_per_sample ≡ 16
    → audio_frame format sequence
        (pos (sequence * 5_000_000))
        (replicate (format.channel_count * 2 * 240) 0)
      ≡ ok (silence format sequence)
unfolding audio_frame format_is_valid bytes_per_frame
silent_frame format sequence valid bits =
    let size : length {A = ℕ} (replicate (format.channel_count * 2 * 240) 0)
        ≡ 240 * (format.channel_count * 2) =
      length-replicate {A = ℕ} (format.channel_count * 2 * 240) 0 ∙ omega arith in
    let two : format.bits_per_sample / 8 ≡ 2 = rw bits refl in
    let whole : 240 * (format.channel_count * 2) % (format.channel_count * 2) ≡ 0 =
      mul-mod_left 240 (format.channel_count * 2) in
    ground (arith, valid, bits, size, two, whole)

-- A frame of a format that the input device supports, silent and with the given number; and an output device that
-- supports the format too, opened in it and started, plays it and counts it.
abbrev pub IsCaptured : AudioDeviceInfo → ℕ → Result FrameError AudioFrame → Type 0
IsCaptured info sequence x =
    (format : AudioFormat) × (supports_format info format ≡ true)
    × (x ≡ ok (silence format sequence))
    × ((o : MockOutput)
        → supports_format o.info format ≡ true
        → ((play_one o format (silence format sequence)).1 ≡ no_error)
          × ((play_one o format (silence format sequence)).0.played_frames
              ≡ add_u64 o.played_frames 1))

-- A device runs only when it is open, and is open in a format that it supports.
record Ready (d : MockInput) : Type 0 where
  opens : d.running ≡ true → d.opened ≡ true
  suits : d.opened ≡ true → supports_format d.info d.format ≡ true

play_one_lem :
    (o : MockOutput) (format : AudioFormat) (sequence : ℕ)
    → supports_format o.info format ≡ true
    → ((play_one o format (silence format sequence)).1 ≡ no_error)
      × ((play_one o format (silence format sequence)).0.played_frames ≡ add_u64 o.played_frames 1)
unfolding play_one write start_output open_output
play_one_lem o format sequence so =
    let same = format_eq_refl format in (ground (arith, so, same), ground (arith, so, same))

call-Ready :
    (d : MockInput) (c : Call)
    → Ready d
    → Ready (call d c).0 × ((call d c).0.info ≡ d.info) × ((call d c).0.sequence ≡ d.sequence)
unfolding capture open_input start_input stop_input
call-Ready d (opening format) v = elim (Bool-cases (supports_format d.info format)) [
  | inr other ↦ rw other (v, refl, refl)
  | inl fits ↦ rw fits (record { opens = λ h. refl; suits = λ h. fits }, refl, refl)
]
call-Ready d starting v = elim (Bool-cases d.opened) [
  | inr shut ↦ simp shut (v, refl, refl)
  | inl open_ ↦ simp open_ (record { opens = λ h. refl; suits = λ h. v.suits open_ }, refl, refl)
]
call-Ready d capturing v = elim (Bool-cases d.running) [
  | inr idle ↦ simp idle (v, refl, refl)
  | inl runs ↦ simp runs (v, refl, refl)
]
call-Ready d stopping v = (record { opens = λ h. absurd cc; suits = λ h. absurd cc }, refl, refl)

capture-silence :
    (d : MockInput)
    → Ready d
    → d.running ≡ true
    → (capture d).1 ≡ some (ok (silence d.format d.sequence))
unfolding capture
capture-silence d v runs =
    let (valid, bits) = supports_format_lem d.info d.format (v.suits (v.opens runs)) in
    rw (runs, silent_frame d.format d.sequence valid bits) refl

capture_lem :
    (d : MockInput)
    → Ready d
    → d.sequence ≡ 0
    → (capture d).1 ≡ (if not d.running then none else some (ok (silence d.format 0)))
unfolding capture
capture_lem d v number = elim (Bool-cases d.running) [
  | inr idle ↦ rw idle refl
  | inl runs ↦
      let gives = capture-silence d v runs in
      let when_running : (if not d.running then none else some (ok (silence d.format 0)))
          ≡ some (ok (silence d.format d.sequence)) =
        rw (runs, number) refl in
      gives ∙ sym when_running
]

call-IsCaptured :
    (d : MockInput) (c : Call) (x : Result FrameError AudioFrame)
    → Ready d
    → (call d c).1 ≡ some x
    → IsCaptured d.info d.sequence x
unfolding capture
call-IsCaptured d (opening format) x v e = absurd cc
call-IsCaptured d starting x v e = absurd cc
call-IsCaptured d stopping x v e = absurd cc
call-IsCaptured d capturing x v e = elim (Bool-cases d.running) [
  | inr idle ↦ let nothing : (capture d).1 ≡ none = rw idle refl in absurd cc
  | inl runs ↦
      let one = capture-silence d v runs in
      let format_fits = v.suits (v.opens runs) in
      (d.format, format_fits, cc, λ o. play_one_lem o d.format d.sequence)
]

calls-Ready :
    (d : MockInput) (cs : List Call)
    → Ready d
    → All (IsCaptured d.info d.sequence) (calls d cs).1
      × Ready (calls d cs).0
      × ((calls d cs).0.info ≡ d.info)
      × ((calls d cs).0.sequence ≡ d.sequence)
unfolding calls
calls-Ready d [] v = (tt, v, refl, refl)
calls-Ready d (c ∷ cs) v =
    let (w, info, number) = call-Ready d c v in
    let (all, ready_, info', number') = calls-Ready (call d c).0 cs w in
    let later : All (IsCaptured d.info d.sequence) (calls (call d c).0 cs).1 =
      subst (λ i. All (IsCaptured i d.sequence) (calls (call d c).0 cs).1) info
        (subst (λ n. All (IsCaptured (call d c).0.info n) (calls (call d c).0 cs).1) number all) in
    (
      elim (Option-cases (call d c).1) [
        | inl nothing ↦ rw nothing later
        | inr (x, one) ↦ rw one (call-IsCaptured d c x v one, later)
      ],
      ready_,
      info' ∙ info,
      number' ∙ number,
    )

-- From a new mock input of a device, for all calls of open, start, capture and stop: none of the captures throws; each
-- captured frame has the number 0, a format that the device supports and silence for samples, and every mock output that
-- supports this format, opened in it and started, plays the frame and counts it. The number of the device is 0 after the
-- calls, and the next capture gives nothing when the device does not run and a silent frame of the device's format with
-- the number 0 when it runs.
pub calls-capture :
    (info : AudioDeviceInfo) (cs : List Call)
    → All (IsCaptured info 0) (calls (mock_input info) cs).1
      × ((calls (mock_input info) cs).0.sequence ≡ 0)
      × ((capture (calls (mock_input info) cs).0).1 ≡ (
          if not (calls (mock_input info) cs).0.running
          then none
          else some (ok (silence (calls (mock_input info) cs).0.format 0))))
calls-capture info cs =
    let new : Ready (mock_input info) = record { opens = λ h. absurd cc; suits = λ h. absurd cc } in
    let (all, ready_, same, number) = calls-Ready (mock_input info) cs new in
    (all, number, capture_lem (calls (mock_input info) cs).0 ready_ number)
