-- ===== src/Receiver/Tests.antt =====
-- Datagrams at a new receiver of src/udp_receiver.cpp.
use distributed_audio_system.Audio.{AudioFrame}
use distributed_audio_system.Prelude.{List, [], arith, length, some, ◌∷◌, ◌≡◌}
use distributed_audio_system.Receiver.Counts.{Counted, receive_all, receive_all-Counted}
use distributed_audio_system.Sequence.{SequenceTracker, new_tracker}

receive_all-Counted_example :
    (u : SequenceTracker) × (fs : List AudioFrame) × (receive_all new_tracker ((7 ∷ []) ∷ [] ∷ [])
      ≡ some (u, fs))
    × Counted new_tracker u 2 (length fs)
receive_all-Counted_example =
    receive_all-Counted new_tracker ((7 ∷ []) ∷ [] ∷ []) (ground arith)
      ((ground arith, tt), (tt, tt))
