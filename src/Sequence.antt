-- ===== src/Sequence.antt =====
-- src/sequence_tracker.cpp: the receiver's view of the sequence numbers, with 64-bit wrap-around.
pub mod Laws
mod Tests
use distributed_audio_system.Prelude.{
  ℕ, ◌+◌, ◌-◌, ◌%◌, ◌^◌, Bool, true, false, not, ltb, ◌==◌, if◌then◌else◌,
}

pub data SequenceDisposition : Type 0 where
  first expected duplicate gap out_of_order : SequenceDisposition

pub record SequenceStatistics : Type 0 where
  pub packets_received : ℕ
  pub packets_accepted : ℕ
  pub malformed_packets : ℕ
  pub duplicate_packets : ℕ
  pub out_of_order_packets : ℕ
  pub estimated_missing_packets : ℕ

pub record SequenceTracker : Type 0 where
  pub statistics : SequenceStatistics
  pub has_last_sequence : Bool
  pub last_sequence : ℕ

abbrev pub zero_statistics : SequenceStatistics
zero_statistics = record {
  packets_received = 0;
  packets_accepted = 0;
  malformed_packets = 0;
  duplicate_packets = 0;
  out_of_order_packets = 0;
  estimated_missing_packets = 0;
}

abbrev pub new_tracker : SequenceTracker
new_tracker = record { statistics = zero_statistics; has_last_sequence = false; last_sequence = 0 }

-- `++counter` and `counter += n` of a std::uint64_t.
abbrev pub add_u64 : ℕ → ℕ → ℕ
add_u64 counter n = (counter + n) % 2 ^ 64

-- `a - b` of two std::uint64_t.
abbrev pub sub_u64 : ℕ → ℕ → ℕ
sub_u64 a b = (a + 2 ^ 64 - b) % 2 ^ 64

-- The rest of `observe` when there is a last sequence number; `s` has the packet counted.
unfoldable pub observe_next :
    SequenceTracker → SequenceStatistics → ℕ → SequenceTracker × SequenceDisposition
observe_next t s sequence =
    let delta = sub_u64 sequence t.last_sequence in
    if delta == 0
    then (
      record t { statistics = record s { duplicate_packets = add_u64 s.duplicate_packets 1 } },
      duplicate,
    )
    else if ltb delta (2 ^ 63)
    then if delta == 1 then (record t { statistics = s; last_sequence = sequence }, expected) else (
      record t {
        statistics = record s {
          estimated_missing_packets = add_u64 s.estimated_missing_packets (delta - 1);
        };
        last_sequence = sequence;
      },
      gap,
    )
    else (
      record t {
        statistics = record s { out_of_order_packets = add_u64 s.out_of_order_packets 1 };
      },
      out_of_order,
    )

unfoldable pub observe : SequenceTracker → ℕ → SequenceTracker × SequenceDisposition
unfolding observe_next
observe t sequence =
    let s = record t.statistics { packets_accepted = add_u64 t.statistics.packets_accepted 1 } in
    if not t.has_last_sequence
    then (record t { statistics = s; has_last_sequence = true; last_sequence = sequence }, first)
    else observe_next t s sequence

unfoldable pub record_received : SequenceTracker → SequenceTracker
record_received t = record t {
  statistics = record t.statistics { packets_received = add_u64 t.statistics.packets_received 1 };
}

unfoldable pub record_malformed : SequenceTracker → SequenceTracker
record_malformed t = record t {
  statistics = record t.statistics { malformed_packets = add_u64 t.statistics.malformed_packets 1 };
}
