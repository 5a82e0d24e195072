-- ===== src/AudioIo/Mock/Tests.antt =====
-- The mock devices with no names, in a stereo format.
use distributed_audio_system.Audio.{AudioFormat, audio_frame, bytes_per_frame, format_is_valid}
use distributed_audio_system.AudioIo.{supports_format}
use distributed_audio_system.AudioIo.Mock.{
  capture, create_input, initialize, input_device, input_id, mock_backend, mock_input, open_input,
  start_input, stop_input,
}
use distributed_audio_system.AudioIo.Mock.Loopback.{
  Call, IsCaptured, calls, calls-capture, capturing, opening, silence, starting, stopping,
}
use distributed_audio_system.Impairment.{contains}
use distributed_audio_system.Prelude.{
  All, List, [], if◌then◌else◌, list_eq, none, not, ok, refl, some, true, ◌∷◌, ◌≡◌,
}

abbrev stereo : AudioFormat
stereo = record { sample_rate = 48_000; channel_count = 2; bits_per_sample = 16 }

-- The input is opened and started, gives two frames and is stopped.
abbrev session : List Call
session = opening stereo ∷ starting ∷ capturing ∷ capturing ∷ stopping ∷ capturing ∷ []

supports : supports_format (input_device []) stereo ≡ true
unfolding supports_format format_is_valid contains
supports = refl

made :
    create_input (initialize (mock_backend [] [])).0 input_id ≡ some (mock_input (input_device []))
unfolding create_input initialize list_eq
made = refl

opened : (calls (mock_input (input_device [])) (opening stereo ∷ starting ∷ [])).0.running ≡ true
unfolding calls open_input start_input supports_format format_is_valid contains
opened = refl

two_frames :
    (calls (mock_input (input_device [])) session).1
    ≡ ok (silence stereo 0) ∷ ok (silence stereo 0) ∷ []
unfolding calls open_input start_input capture stop_input supports_format format_is_valid contains
    audio_frame bytes_per_frame
two_frames = refl

calls-capture_example :
    All (IsCaptured (input_device []) 0) (calls (mock_input (input_device [])) session).1
    × ((calls (mock_input (input_device [])) session).0.sequence ≡ 0)
    × ((capture (calls (mock_input (input_device [])) session).0).1 ≡ (
        if not (calls (mock_input (input_device [])) session).0.running
        then none
        else some (ok (silence (calls (mock_input (input_device [])) session).0.format 0))))
calls-capture_example = calls-capture (input_device []) session
