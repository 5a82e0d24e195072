-- ===== src/Receiver.antt =====
-- src/udp_receiver.cpp: what the receiver of audio packets makes of an answer of the socket. The
-- answer of recvfrom is a parameter.
pub mod Counts
mod Tests
use distributed_audio_system.Audio.{AudioFrame}
use distributed_audio_system.Packet.{deserialize_audio_frame, max_packet_size}
use distributed_audio_system.Prelude.{
  List, Option, Result, err, if◌then◌else◌, length, ltb, none, ok, some, ℕ,
}
use distributed_audio_system.Sequence.{SequenceTracker, observe, record_malformed, record_received}

-- What recvfrom answers: an error that is tried again, another error, or a datagram. With MSG_TRUNC the
-- number of bytes that it returns is that of the whole datagram.
pub data Answer : Type 0 where
  try_again broken : Answer
  datagram : List ℕ → Answer

-- The exception of `receive`.
pub data ReceiveError : Type 0 where
  receive_failed : ReceiveError

-- `receive` from the line where the packet is counted.
unfoldable pub receive_packet :
    SequenceTracker → List ℕ → Option (SequenceTracker × Option AudioFrame)
receive_packet t packet = elim (deserialize_audio_frame packet) [
  | none ↦ none
  | some r ↦ elim r.frame [
    | none ↦ some (record_malformed t, none)
    | some f ↦ some ((observe t f.sequence_number).0, some f)
  ]
]

-- The outer `none` is a read out of bounds.
unfoldable pub receive :
    SequenceTracker → Answer → Option (Result ReceiveError (SequenceTracker × Option AudioFrame))
unfolding receive_packet
receive t try_again = some (ok (t, none))
receive t broken = some (err receive_failed)
receive t (datagram bytes) =
    if ltb max_packet_size (length bytes)
    then some (ok (record_malformed (record_received t), none))
    else elim (receive_packet (record_received t) bytes) [ none ↦ none | some r ↦ some (ok r) ]
