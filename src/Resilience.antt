-- ===== src/Resilience.antt =====
-- The rest of src/network_resilience.cpp: the counters of a network, the buffer that adapts to its jitter, and the
-- run of the simulated network. `SessionLiveness` is in Liveness. A `double` is of a type that is a parameter.
pub mod Depth
pub mod Run
pub mod Frames
pub mod Arrivals
pub mod Outcome
mod Tests
use distributed_audio_system.Audio.{AudioFrame}
use distributed_audio_system.Float.{Float, number, zero_float}
use distributed_audio_system.Jitter.{
  InsertResult, JitterBuffer, JitterConfig, PlaybackItem, insert, jitter_buffer, pop, reset,
  silence,
}
use distributed_audio_system.Prelude.{
  Bool, Option, if◌then◌else◌, ltb, none, not, some, ℕ, ◌&&◌, ◌+◌, ◌-◌, ◌==◌, ◌||◌,
}
use distributed_audio_system.Prelude.Int.{pos, ℤ}
use distributed_audio_system.Sequence.{add_u64, sub_u64}

-- The fields that no code counts, `playback_underruns` and `capture_overflows`, are left out.
pub record NetworkStatistics {ℓ} (D : Type ℓ) : Type ℓ where
  pub packets_sent : ℕ
  pub packets_received : ℕ
  pub packets_accepted : ℕ
  pub packets_rejected : ℕ
  pub malformed_packets : ℕ
  pub duplicate_packets : ℕ
  pub late_packets : ℕ
  pub out_of_order_packets : ℕ
  pub missing_packets : ℕ
  pub recovered_packets : ℕ
  pub unrecoverable_packets : ℕ
  pub concealed_frames : ℕ
  pub bytes_sent : ℕ
  pub bytes_received : ℕ
  pub reconnect_count : ℕ
  pub session_interruptions : ℕ
  pub loss_percentage : D
  pub jitter_ms : D
  pub jitter_buffer_depth : ℕ

module _ {ℓ} {D : Type ℓ} where
  abbrev pub packet_sent : NetworkStatistics D → ℕ → NetworkStatistics D
  packet_sent s bytes = record s {
    packets_sent = add_u64 s.packets_sent 1;
    bytes_sent = add_u64 s.bytes_sent bytes;
  }

  abbrev pub packet_received : NetworkStatistics D → ℕ → NetworkStatistics D
  packet_received s bytes = record s {
    packets_received = add_u64 s.packets_received 1;
    bytes_received = add_u64 s.bytes_received bytes;
  }

  abbrev pub packet_accepted : NetworkStatistics D → NetworkStatistics D
  packet_accepted s = record s { packets_accepted = add_u64 s.packets_accepted 1 }

  abbrev pub packet_rejected : NetworkStatistics D → NetworkStatistics D
  packet_rejected s = record s { packets_rejected = add_u64 s.packets_rejected 1 }

  abbrev pub count_malformed : NetworkStatistics D → NetworkStatistics D
  count_malformed s = record s { malformed_packets = add_u64 s.malformed_packets 1 }

  abbrev pub count_duplicate : NetworkStatistics D → NetworkStatistics D
  count_duplicate s = record s { duplicate_packets = add_u64 s.duplicate_packets 1 }

  abbrev pub count_late : NetworkStatistics D → NetworkStatistics D
  count_late s = record s { late_packets = add_u64 s.late_packets 1 }

  abbrev pub count_out_of_order : NetworkStatistics D → NetworkStatistics D
  count_out_of_order s = record s { out_of_order_packets = add_u64 s.out_of_order_packets 1 }

  abbrev pub count_missing : NetworkStatistics D → NetworkStatistics D
  count_missing s = record s { missing_packets = add_u64 s.missing_packets 1 }

  abbrev pub count_recovered : NetworkStatistics D → NetworkStatistics D
  count_recovered s = record s { recovered_packets = add_u64 s.recovered_packets 1 }

  abbrev pub count_unrecoverable : NetworkStatistics D → NetworkStatistics D
  count_unrecoverable s = record s { unrecoverable_packets = add_u64 s.unrecoverable_packets 1 }

  abbrev pub count_concealed : NetworkStatistics D → NetworkStatistics D
  count_concealed s = record s { concealed_frames = add_u64 s.concealed_frames 1 }

  abbrev pub count_reconnect : NetworkStatistics D → NetworkStatistics D
  count_reconnect s = record s { reconnect_count = add_u64 s.reconnect_count 1 }

  abbrev pub count_interrupted : NetworkStatistics D → NetworkStatistics D
  count_interrupted s = record s { session_interruptions = add_u64 s.session_interruptions 1 }

  abbrev pub set_jitter : NetworkStatistics D → D → NetworkStatistics D
  set_jitter s value = record s { jitter_ms = value }

  abbrev pub set_buffer_depth : NetworkStatistics D → ℕ → NetworkStatistics D
  set_buffer_depth s value = record s { jitter_buffer_depth = value }

-- std::clamp on std::size_t.
abbrev pub clamp_size : ℕ → ℕ → ℕ → ℕ
clamp_size n low high = if ltb n low then low else if ltb high n then high else n

pub record AdaptiveJitterConfig : Type 0 where
  pub capacity : ℕ
  pub minimum_depth : ℕ
  pub initial_depth : ℕ
  pub maximum_depth : ℕ
  pub missing_wait : ℤ

-- The arguments of the buffer's constructor.
abbrev pub buffer_settings : AdaptiveJitterConfig → JitterConfig
buffer_settings c = record {
  capacity = c.capacity;
  prebuffer_target = c.initial_depth;
  missing_wait = c.missing_wait;
  concealment = silence;
}

-- The test of the constructor.
abbrev pub invalid_depths : AdaptiveJitterConfig → Bool
invalid_depths c =
    c.capacity == 0
    || c.minimum_depth == 0
    || ltb c.initial_depth c.minimum_depth
    || ltb c.maximum_depth c.initial_depth
    || ltb c.capacity c.maximum_depth

pub record AdaptiveJitterBuffer {ℓ} (D : Type ℓ) : Type ℓ where
  pub config : AdaptiveJitterConfig
  pub target_depth : ℕ
  pub stable_jitter_ms : D
  pub buffer : JitterBuffer

module _ {ℓ} {D : Type ℓ} ⦃d : Float D⦄ where
  unfoldable pub new_statistics : NetworkStatistics D
  new_statistics = record {
    packets_sent = 0;
    packets_received = 0;
    packets_accepted = 0;
    packets_rejected = 0;
    malformed_packets = 0;
    duplicate_packets = 0;
    late_packets = 0;
    out_of_order_packets = 0;
    missing_packets = 0;
    recovered_packets = 0;
    unrecoverable_packets = 0;
    concealed_frames = 0;
    bytes_sent = 0;
    bytes_received = 0;
    reconnect_count = 0;
    session_interruptions = 0;
    loss_percentage = zero_float;
    jitter_ms = zero_float;
    jitter_buffer_depth = 0;
  }

  unfoldable pub loss_percent : NetworkStatistics D → D
  loss_percent s =
      if s.packets_sent == 0
      then zero_float
      else d.over
          (d.times (number 100) (d.of_int (pos (sub_u64 s.packets_sent s.packets_accepted))))
          (d.of_int (pos s.packets_sent))

  abbrev pub snapshot : NetworkStatistics D → NetworkStatistics D
  snapshot s = record s { loss_percentage = loss_percent s }

  -- The constructor; `none` is its exception, or that of the buffer in it.
  unfoldable pub adaptive_jitter_buffer : AdaptiveJitterConfig → Option (AdaptiveJitterBuffer D)
  adaptive_jitter_buffer c = elim (jitter_buffer (buffer_settings c)) [
    | none ↦ none
    | some buffer ↦
        if invalid_depths c
        then none
        else some (record {
          config = c;
          target_depth = c.initial_depth;
          stable_jitter_ms = zero_float;
          buffer = buffer;
        })
  ]

  abbrev pub insert_frame :
      AdaptiveJitterBuffer D → AudioFrame → AdaptiveJitterBuffer D × InsertResult
  insert_frame b frame =
      let (buffer, result) = insert b.buffer frame in (record b { buffer = buffer }, result)

  abbrev pub pop_item : AdaptiveJitterBuffer D → ℤ → AdaptiveJitterBuffer D × PlaybackItem
  pop_item b now = let (buffer, item) = pop b.buffer now in (record b { buffer = buffer }, item)

  unfoldable pub observe_jitter : AdaptiveJitterBuffer D → D → AdaptiveJitterBuffer D
  observe_jitter b milliseconds =
      let stable =
        d.plus (d.times (d.literal (pos 875) 3) b.stable_jitter_ms)
          (d.times (d.literal (pos 125) 3) milliseconds) in
      let desired =
        if d.below (number 2) stable
        then b.target_depth + 1
        else if d.below stable (d.literal (pos 5) 1) && ltb 1 b.target_depth
        then b.target_depth - 1
        else b.target_depth in
      if not (d.is_finite milliseconds) || d.below milliseconds zero_float then b else record b {
        stable_jitter_ms = stable;
        target_depth = clamp_size desired b.config.minimum_depth b.config.maximum_depth;
      }

  unfoldable pub reset_adaptive : AdaptiveJitterBuffer D → AdaptiveJitterBuffer D
  reset_adaptive b = record b {
    target_depth = b.config.initial_depth;
    stable_jitter_ms = zero_float;
    buffer = reset b.buffer;
  }
