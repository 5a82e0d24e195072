-- ===== src/Jitter/Insert.antt =====
-- `insert` of src/jitter_buffer.cpp, and the invariant.
use distributed_audio_system.Audio.{AudioFormat, AudioFrame, format_eq, frame_duration}
use distributed_audio_system.Audio.Laws.{IsFrame, format_eq→eq}
use distributed_audio_system.Jitter.{
  InsertResult, JitterBuffer, JitterBufferStatistics, adopt, forward_distance, insert,
  insert_checked, inserted, int_eq, is_stopped, matches_stream, positive_duration, store_frame,
}
use distributed_audio_system.Jitter.Invariant.{
  HasFormat, InWindow, Inv, MapInv, Paired, SizeInv, recount-Inv,
}
use distributed_audio_system.Prelude.{
  All, Bool, Bool-cases, Option, Option-cases, [], ap, arith, false, if◌then◌else◌, inl, inr, leb,
  length, none, refl, some, true, ℕ, ◌%◌, ◌&&◌, ◌+◌, ◌<◌, ◌==◌, ◌^◌, ◌↔◌, ◌∷◌, ◌≡◌,
}
use distributed_audio_system.Prelude.Int.{ℤ}
use distributed_audio_system.Prelude.Map.{
  All-place, Distinct-place, Map, emplace, find, find-place, length-place, nat_key, place,
}
use distributed_audio_system.Sequence.{add_u64}

emplace_absent :
    (f : AudioFrame) (m : Map ℕ AudioFrame)
    → find f.sequence_number m ≡ none
    → emplace f.sequence_number f m ≡ place f.sequence_number f m
unfolding emplace
emplace_absent f m h = rw (h, emplace)

store_frame-SizeInv :
    (b : JitterBuffer) (f : AudioFrame) (d : ℕ)
    → SizeInv b
    → find f.sequence_number b.frames ≡ none
    → length b.frames < b.capacity
    → SizeInv (store_frame b f d)
unfolding store_frame
store_frame-SizeInv b f d v h room =
    let n = length-place f.sequence_number f b.frames in
    rw (emplace_absent f b.frames h) (record {
      valid = v.valid;
      room = omega (arith, n);
      filling = ground (arith, n, v.filling);
      drains = ground (arith, n, v.drains);
      depth = refl;
      deepest = omega (arith, n);
      bounded = omega (arith, n, v.bounded);
    })

store_frame-MapInv :
    (b : JitterBuffer) (f : AudioFrame) (d : ℕ)
    → MapInv b
    → IsFrame f
    → f.sequence_number < 2 ^ 64
    → forward_distance b.next_sequence f.sequence_number < 2 ^ 63
    → find f.sequence_number b.frames ≡ none
    → b.format ≡ some f.format
    → b.sequence_initialized ≡ true
    → MapInv (store_frame b f d)
unfolding store_frame
store_frame-MapInv b f d v frame fits near h e init = rw (emplace_absent f b.frames h) (record {
  next_fits = v.next_fits;
  distinct = Distinct-place f.sequence_number f b.frames h v.distinct;
  window = All-place _ f.sequence_number f b.frames (refl, fits, near, frame) v.window;
  formats = All-place _ f.sequence_number f b.frames e v.formats;
  paired = v.paired;
  previous = v.previous;
  started = λ u. cc;
})

insert_checked-Inv :
    (b : JitterBuffer) (f : AudioFrame)
    → Inv b
    → IsFrame f
    → f.sequence_number < 2 ^ 64
    → b.format ≡ some f.format
    → b.sequence_initialized ≡ true
    → Inv (insert_checked b f).0
unfolding insert_checked
insert_checked-Inv b f v frame fits e init =
    let distance = forward_distance b.next_sequence f.sequence_number in
    elim (Bool-cases (leb (2 ^ 63) distance)) [
      | inl far ↦ rw far (recount-Inv b _ refl refl v)
      | inr near ↦ elim (Option-cases (find f.sequence_number b.frames)) [
        | inl absent ↦ elim (Bool-cases (leb b.capacity (length b.frames))) [
          | inl full ↦ rw (near, absent, full) (recount-Inv b _ refl refl v)
          | inr room ↦
              rw (near, absent, room)
                (record {
                  map_inv =
                      store_frame-MapInv b f distance v.map_inv frame fits (ground arith) absent e
                        init;
                  size_inv = store_frame-SizeInv b f distance v.size_inv absent (ground arith);
                })
        ]
        | inr (g, present) ↦ rw (near, present) (recount-Inv b _ refl refl v)
      ]
    ]

adopt_window :
    (b : JitterBuffer) (n : ℕ)
    → MapInv b
    → All (InWindow (if b.sequence_initialized then b.next_sequence else n)) b.frames
adopt_window b n v = elim (Bool-cases b.sequence_initialized) [
  | inl init ↦ rw init v.window
  | inr fresh ↦ rw (fresh, v.started fresh) tt
]

adopt_formats :
    (o : Option AudioFormat) (format : AudioFormat) (m : Map ℕ AudioFrame)
    → All (HasFormat o) m
    → All (HasFormat (elim o [ none ↦ some format | some f ↦ some f ])) m
adopt_formats o format [] a = tt
adopt_formats none format ((k, f) ∷ m) a = (absurd (cc (a.0)), adopt_formats none format m a.1)
adopt_formats (some g) format ((k, f) ∷ m) a = (a.0, adopt_formats (some g) format m a.1)

adopt-Paired :
    (o : Option AudioFormat) (d : Option ℤ) (format : AudioFormat) (duration : ℤ)
    → Paired o d
    → Paired
        (elim o [ none ↦ some format | some f ↦ some f ])
        (elim o [ none ↦ some duration | some f ↦ d ])
adopt-Paired none d format duration p = tt
adopt-Paired (some g) d format duration p = p

adopt_format :
    (o : Option AudioFormat) (d : Option ℤ) (format : AudioFormat) (duration : ℤ)
    → elim o [
      | none ↦ true
      | some f ↦ elim d [ none ↦ false | some e ↦ format_eq f format && int_eq e duration ]
    ]
      ≡ true
    → elim o [ none ↦ some format | some f ↦ some f ] ≡ some format
adopt_format none d format duration h = refl
adopt_format (some g) none format duration h = cc
adopt_format (some g) (some e) format duration h = ap some (format_eq→eq g format (ground arith))

adopt-Inv :
    (b : JitterBuffer) (f : AudioFrame) (d : ℤ)
    → Inv b
    → f.sequence_number < 2 ^ 64
    → Inv (adopt b f d)
adopt-Inv b f d v fits = record {
  map_inv = record {
    next_fits = ground (arith, v.map_inv.next_fits);
    distinct = v.map_inv.distinct;
    window = adopt_window b f.sequence_number v.map_inv;
    formats = adopt_formats b.format f.format b.frames v.map_inv.formats;
    paired = adopt-Paired b.format b.duration f.format d v.map_inv.paired;
    previous = v.map_inv.previous;
    started = λ e. cc;
  };
  size_inv = record {
    valid = v.size_inv.valid;
    room = v.size_inv.room;
    filling = v.size_inv.filling;
    drains = v.size_inv.drains;
    depth = v.size_inv.depth;
    deepest = v.size_inv.deepest;
    bounded = v.size_inv.bounded;
  };
}

-- Every branch of `insert` keeps the invariant.
pub insert-Inv :
    (b : JitterBuffer) (f : AudioFrame)
    → Inv b
    → IsFrame f
    → f.sequence_number < 2 ^ 64
    → Inv (insert b f).0
unfolding insert
insert-Inv b f v frame fits = elim (Bool-cases (is_stopped b.state)) [
  | inl stop ↦ rw stop v
  | inr open_ ↦ elim (Option-cases (positive_duration (frame_duration f))) [
    | inl nothing ↦ rw (open_, nothing) (recount-Inv b _ refl refl v)
    | inr (d, some_duration) ↦ elim (Bool-cases (matches_stream b f.format d)) [
      | inl same ↦
          rw (open_, some_duration, same)
            (insert_checked-Inv (adopt b f d) f (adopt-Inv b f d v fits) frame fits
              (adopt_format b.format b.duration f.format d (unfold matches_stream in same)) refl)
      | inr other ↦ rw (open_, some_duration, other) (recount-Inv b _ refl refl v)
    ]
  ]
]

abbrev pub is_inserted : InsertResult → Bool
is_inserted inserted = true
is_inserted _ = false

insert_checked-find :
    (b : JitterBuffer) (f : AudioFrame) (j : ℕ)
    → find j (insert_checked b f).0.frames ≡ (
        if is_inserted (insert_checked b f).1 && f.sequence_number == j
        then some f
        else find j b.frames)
unfolding insert_checked store_frame emplace
insert_checked-find b f j = ground (arith, find-place f.sequence_number j f b.frames)

-- `insert` changes the map exactly when it answers `inserted`, and then at the frame's number only.
insert-find :
    (b : JitterBuffer) (f : AudioFrame) (j : ℕ)
    → find j (insert b f).0.frames
      ≡ (if is_inserted (insert b f).1 && f.sequence_number == j then some f else find j b.frames)
unfolding insert
insert-find b f j = elim (Option-cases (positive_duration (frame_duration f))) [
  | inl nothing ↦ ground (arith, nothing)
  | inr (d, e) ↦ ground (arith, e, insert_checked-find (adopt b f d) f j)
]

-- All the outcomes that `insert` counts.
abbrev pub outcomes : JitterBufferStatistics → ℕ
outcomes s =
    (s.packets_inserted + s.duplicates_rejected + s.late_packets_rejected + s.overflow_rejects
      + s.incompatible_rejects)
    % 2 ^ 64

insert_checked-outcomes :
    (b : JitterBuffer) (f : AudioFrame)
    → outcomes (insert_checked b f).0.statistics ≡ add_u64 (outcomes b.statistics) 1
unfolding insert_checked store_frame
insert_checked-outcomes b f = ground arith

-- Every frame offered to a buffer that is not stopped is counted under one outcome.
insert-outcomes :
    (b : JitterBuffer) (f : AudioFrame)
    → outcomes (insert b f).0.statistics
      ≡ (if is_stopped b.state then outcomes b.statistics else add_u64 (outcomes b.statistics) 1)
unfolding insert
insert-outcomes b f = elim (Option-cases (positive_duration (frame_duration f))) [
  | inl nothing ↦ ground (arith, nothing)
  | inr (d, e) ↦ ground (arith, e, insert_checked-outcomes (adopt b f d) f)
]

-- A buffer that has its first frame and is not stopped takes a frame of the stream's format and
-- duration exactly when the frame is less than 2 ^ 63 ahead of the next number, is not there
-- already, and the buffer is not full.
insert_accepts :
    (b : JitterBuffer) (f : AudioFrame) (d : ℤ)
    → positive_duration (frame_duration f) ≡ some d
    → is_stopped b.state ≡ false
    → matches_stream b f.format d ≡ true
    → b.sequence_initialized ≡ true
    → ((insert b f).1 ≡ inserted) ↔ (
        (forward_distance b.next_sequence f.sequence_number < 2 ^ 63)
        × (find f.sequence_number b.frames ≡ none)
        × (length b.frames < b.capacity))
unfolding insert insert_checked
insert_accepts b f d e open_ same init = (ground arith, ground arith)
