-- ===== src/AudioIo/Capture/Calls.antt =====
-- Sequences of calls of the capture buffer of src/audio_io.cpp, and the frames that go through them.
use distributed_audio_system.Audio.{AudioFrame}
use distributed_audio_system.AudioIo.Capture.{CaptureBuffer, close, pop, push}
use distributed_audio_system.Prelude.{
  Bool, List, Option, [], false, none, some, true, ℕ, ◌++◌, ◌+◌, ◌∷◌,
}

pub data Call : Type 0 where
  pushing : AudioFrame → Call
  popping : Call
  closing : Call

-- The frames of a run: what went in, what came out, and what was thrown away by `close`; and the number of
-- frames that were refused.
pub record Flow : Type 0 where
  pub accepted : List AudioFrame
  pub delivered : List AudioFrame
  pub discarded : List AudioFrame
  pub refused : ℕ

abbrev pub no_flow : Flow
no_flow = record { accepted = []; delivered = []; discarded = []; refused = 0 }

abbrev pub frame_in : AudioFrame → Bool → Flow
frame_in f true = record no_flow { accepted = f ∷ [] }
frame_in f false = record no_flow { refused = 1 }

abbrev pub frame_out : Option AudioFrame → Flow
frame_out none = no_flow
frame_out (some f) = record no_flow { delivered = f ∷ [] }

abbrev pub call : CaptureBuffer → Call → CaptureBuffer × Flow
call b (pushing f) = ((push b f).0, frame_in f (push b f).1)
call b popping = ((pop b).0, frame_out (pop b).1)
call b closing = (close b, record no_flow { discarded = b.frames })

abbrev pub then_flow : Flow → Flow → Flow
then_flow x y = record {
  accepted = x.accepted ++ y.accepted;
  delivered = x.delivered ++ y.delivered;
  discarded = x.discarded ++ y.discarded;
  refused = x.refused + y.refused;
}

unfoldable pub calls : CaptureBuffer → List Call → CaptureBuffer × Flow
calls b [] = (b, no_flow)
calls b (c ∷ cs) =
    let one = call b c in let rest = calls one.0 cs in (rest.0, then_flow one.1 rest.1)

unfoldable pub offers : List Call → ℕ
offers [] = 0
offers (pushing f ∷ cs) = 1 + offers cs
offers (popping ∷ cs) = offers cs
offers (closing ∷ cs) = offers cs
