-- ===== src/Jitter.antt =====
-- src/jitter_buffer.cpp: frames wait in the order of their sequence numbers, and `pop` plays them,
-- or a substitute for one that does not come. A time point is an integer of nanoseconds.
pub mod Invariant
pub mod Insert
pub mod Pop
pub mod Playback
pub mod Trace
pub mod Pcm
mod Tests
use distributed_audio_system.Prelude.{
  ℕ, ◌+◌, ◌-◌, ◌%◌, ◌^◌, ◌≤◌, max, Bool, true, false, not, ◌&&◌, ◌||◌, Option, none, some, List, [],
  length, replicate, ltb, leb, ◌==◌, if◌then◌else◌,
}
use distributed_audio_system.Prelude.Int.{ℤ, pos, ◌+ℤ◌, ltb_ℤ}
use distributed_audio_system.Prelude.Map.{Map, find, emplace, erase, nat_key}
use distributed_audio_system.Audio.{AudioFormat, AudioFrame, format_eq, frame_duration}
use distributed_audio_system.Sequence.{add_u64, sub_u64}

pub data BufferState : Type 0 where
  buffering ready draining stopped : BufferState

pub data ConcealmentPolicy : Type 0 where
  silence repeat_previous : ConcealmentPolicy

pub data InsertResult : Type 0 where
  inserted duplicate late overflow incompatible stopped : InsertResult

-- `playing` is the source's `frame`.
pub data PullStatus : Type 0 where
  playing missing not_ready stopped : PullStatus

pub record PlaybackItem : Type 0 where
  pub status : PullStatus
  pub sequence_number : ℕ
  pub frame : Option AudioFrame
  pub concealed : Bool

pub record JitterBufferStatistics : Type 0 where
  pub packets_inserted : ℕ
  pub packets_reordered : ℕ
  pub duplicates_rejected : ℕ
  pub late_packets_rejected : ℕ
  pub overflow_rejects : ℕ
  pub incompatible_rejects : ℕ
  pub missing_frames_declared : ℕ
  pub concealed_frames_generated : ℕ
  pub current_depth : ℕ
  pub maximum_depth : ℕ

pub record JitterConfig : Type 0 where
  pub capacity : ℕ
  pub prebuffer_target : ℕ
  pub missing_wait : ℤ
  pub concealment : ConcealmentPolicy

pub record JitterBuffer : Type 0 where
  pub config : JitterConfig
  pub open config use *
  pub frames : Map ℕ AudioFrame
  pub format : Option AudioFormat
  pub duration : Option ℤ
  pub previous_frame : Option AudioFrame
  pub next_sequence : ℕ
  pub sequence_initialized : Bool
  pub waiting_for_missing : Bool
  pub missing_deadline : ℤ
  pub state : BufferState
  pub statistics : JitterBufferStatistics

abbrev pub zero_statistics : JitterBufferStatistics
zero_statistics = record {
  packets_inserted = 0;
  packets_reordered = 0;
  duplicates_rejected = 0;
  late_packets_rejected = 0;
  overflow_rejects = 0;
  incompatible_rejects = 0;
  missing_frames_declared = 0;
  concealed_frames_generated = 0;
  current_depth = 0;
  maximum_depth = 0;
}

abbrev pub empty_buffer : JitterConfig → JitterBuffer
empty_buffer c = record {
  config = c;
  frames = [];
  format = none;
  duration = none;
  previous_frame = none;
  next_sequence = 0;
  sequence_initialized = false;
  waiting_for_missing = false;
  missing_deadline = pos 0;
  state = buffering;
  statistics = zero_statistics;
}

-- The constructor; `none` is its exception.
unfoldable pub jitter_buffer : JitterConfig → Option JitterBuffer
jitter_buffer c =
    if c.capacity == 0
      || c.prebuffer_target == 0
      || ltb c.capacity c.prebuffer_target
      || ltb_ℤ c.missing_wait (pos 0)
    then none
    else some (empty_buffer c)

abbrev pub is_stopped : BufferState → Bool
is_stopped BufferState.stopped = true
is_stopped _ = false

abbrev pub is_buffering : BufferState → Bool
is_buffering buffering = true
is_buffering _ = false

abbrev pub is_draining : BufferState → Bool
is_draining draining = true
is_draining _ = false

-- `duration.has_value()` and `duration->count() != 0`.
abbrev pub positive_duration : Option ℤ → Option ℤ
positive_duration none = none
positive_duration (some (pos n)) = if n == 0 then none else some (pos n)
positive_duration (some d) = some d

abbrev pub int_eq : ℤ → ℤ → Bool
int_eq a b = not (ltb_ℤ a b) && not (ltb_ℤ b a)

-- The format and the duration of the first frame bind all later ones. They are set together, so the
-- case of a format without a duration does not arise (Invariant, `paired`).
unfoldable pub matches_stream : JitterBuffer → AudioFormat → ℤ → Bool
matches_stream b format duration = elim b.format [
  | none ↦ true
  | some f ↦ elim b.duration [ none ↦ false | some d ↦ format_eq f format && int_eq d duration ]
]

abbrev pub reject_incompatible : JitterBuffer → JitterBuffer
reject_incompatible b = record b {
  statistics = record b.statistics {
    incompatible_rejects = add_u64 b.statistics.incompatible_rejects 1;
  };
}

-- `forward_distance`.
abbrev pub forward_distance : ℕ → ℕ → ℕ
forward_distance from to = sub_u64 to from

-- The end of `insert`: the frame goes into the map.
unfoldable pub store_frame : JitterBuffer → AudioFrame → ℕ → JitterBuffer
store_frame b frame distance =
    let s = b.statistics in
    let reordered = not (distance == length b.frames) && not (length b.frames == 0) in
    let frames = emplace frame.sequence_number frame b.frames in
    let depth = length frames in
    record b {
      frames = frames;
      statistics = record s {
        packets_reordered =
            if reordered then add_u64 s.packets_reordered 1 else s.packets_reordered;
        packets_inserted = add_u64 s.packets_inserted 1;
        current_depth = depth;
        maximum_depth = max s.maximum_depth depth;
      };
      state = if is_buffering b.state && leb b.prebuffer_target depth then ready else b.state;
    }

-- The tests of `insert` once the buffer has a format and a sequence number.
unfoldable pub insert_checked : JitterBuffer → AudioFrame → JitterBuffer × InsertResult
insert_checked b frame =
    let s = b.statistics in
    let distance = forward_distance b.next_sequence frame.sequence_number in
    if leb (2 ^ 63) distance
    then (
      record b {
        statistics = record s { late_packets_rejected = add_u64 s.late_packets_rejected 1 };
      },
      late,
    )
    else elim (find frame.sequence_number b.frames) [
      | some _ ↦ (
        record b {
          statistics = record s { duplicates_rejected = add_u64 s.duplicates_rejected 1 };
        },
        duplicate,
      )
      | none ↦
          if leb b.capacity (length b.frames)
          then (
            record b { statistics = record s { overflow_rejects = add_u64 s.overflow_rejects 1 } },
            overflow,
          )
          else (store_frame b frame distance, inserted)
    ]

-- The format and the duration, and then the sequence number, are taken from the first frame.
abbrev pub adopt : JitterBuffer → AudioFrame → ℤ → JitterBuffer
adopt b frame duration = record b {
  format = elim b.format [ none ↦ some frame.format | some f ↦ some f ];
  duration = elim b.format [ none ↦ some duration | some f ↦ b.duration ];
  next_sequence = if b.sequence_initialized then b.next_sequence else frame.sequence_number;
  sequence_initialized = true;
}

unfoldable pub insert : JitterBuffer → AudioFrame → JitterBuffer × InsertResult
insert b frame =
    if is_stopped b.state
    then (b, InsertResult.stopped)
    else elim (positive_duration (frame_duration frame)) [
      | none ↦ (reject_incompatible b, incompatible)
      | some duration ↦
          if not (matches_stream b frame.format duration)
          then (reject_incompatible b, incompatible)
          else insert_checked (adopt b frame duration) frame
    ]

unfoldable pub refresh_state : JitterBuffer → JitterBuffer
refresh_state b =
    let depth = length b.frames in
    record b {
      statistics = record b.statistics { current_depth = depth };
      state =
          if is_draining b.state && depth == 0
          then BufferState.stopped
          else if is_buffering b.state && leb b.prebuffer_target depth
          then ready
          else b.state;
    }

-- The substitute for the frame with the number `next_sequence_`. Format and size are those of the
-- previous frame, so the constructor of a frame lets it through (Pop, `concealed-IsFrame`).
unfoldable pub make_concealed_frame : JitterBuffer → Option AudioFrame
make_concealed_frame b = elim b.previous_frame [
  | none ↦ none
  | some previous ↦ elim b.duration [
    | none ↦ none
    | some d ↦ some (record {
      format = previous.format;
      sequence_number = b.next_sequence;
      timestamp = previous.timestamp +ℤ d;
      payload = elim b.concealment [
        | silence ↦ replicate (length previous.payload) 0
        | repeat_previous ↦ previous.payload
      ];
    })
  ]
]

-- An item with no frame.
abbrev pub no_item : PullStatus → JitterBuffer → PlaybackItem
no_item status b = record {
  status = status;
  sequence_number = b.next_sequence;
  frame = none;
  concealed = false;
}

-- `pop` when the next frame is in the map.
unfoldable pub pop_found : JitterBuffer → AudioFrame → JitterBuffer × PlaybackItem
pop_found b frame = (
  refresh_state (record b {
    frames = erase b.next_sequence b.frames;
    previous_frame = some frame;
    next_sequence = add_u64 b.next_sequence 1;
    waiting_for_missing = false;
  }),
  record {
    status = playing;
    sequence_number = frame.sequence_number;
    frame = some frame;
    concealed = false;
  },
)

-- `pop` when the next frame is not there.
unfoldable pub pop_missing : JitterBuffer → ℤ → JitterBuffer × PlaybackItem
pop_missing b now =
    if not b.waiting_for_missing
    then (
      record b { waiting_for_missing = true; missing_deadline = now +ℤ b.missing_wait },
      no_item not_ready b,
    )
    else if ltb_ℤ now b.missing_deadline
    then (b, no_item not_ready b)
    else elim (make_concealed_frame b) [
      | none ↦ (record b { state = BufferState.stopped }, no_item PullStatus.stopped b)
      | some concealed ↦ (
        refresh_state (record b {
          next_sequence = add_u64 b.next_sequence 1;
          waiting_for_missing = false;
          statistics = record b.statistics {
            missing_frames_declared = add_u64 b.statistics.missing_frames_declared 1;
            concealed_frames_generated = add_u64 b.statistics.concealed_frames_generated 1;
          };
        }),
        record {
          status = missing;
          sequence_number = concealed.sequence_number;
          frame = some concealed;
          concealed = true;
        },
      )
    ]

unfoldable pub pop : JitterBuffer → ℤ → JitterBuffer × PlaybackItem
pop b now =
    if is_stopped b.state && length b.frames == 0
    then (b, no_item PullStatus.stopped b)
    else if not b.sequence_initialized
        || is_buffering b.state && ltb (length b.frames) b.prebuffer_target
    then (b, no_item not_ready b)
    else elim (find b.next_sequence b.frames) [
      | some frame ↦ pop_found b frame
      | none ↦ pop_missing b now
    ]

unfoldable pub close : JitterBuffer → JitterBuffer
close b =
    refresh_state
      (record b { state = if is_stopped b.state then BufferState.stopped else draining })

unfoldable pub reset : JitterBuffer → JitterBuffer
reset b = record (empty_buffer b.config) { missing_deadline = b.missing_deadline }
