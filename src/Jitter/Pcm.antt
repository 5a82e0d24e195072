-- ===== src/Jitter/Pcm.antt =====
-- The frames of the buffer of src/jitter_buffer.cpp are such as the conversion of samples takes.
use distributed_audio_system.Audio.{AudioFrame, format_is_valid, frame_duration}
use distributed_audio_system.Jitter.{
  JitterBuffer, adopt, forward_distance, insert, insert_checked, is_buffering, is_stopped,
  make_concealed_frame, matches_stream, pop, pop_found, pop_missing, positive_duration,
  refresh_state, store_frame,
}
use distributed_audio_system.Prelude.{
  All, Bool-cases, OfOption, Option-cases, arith, inl, inr, leb, length, length-replicate, ltb, not,
  some, subst, true, ℕ, ◌%◌, ◌&&◌, ◌==◌, ◌^◌, ◌||◌, ◌≡◌,
}
use distributed_audio_system.Prelude.Int.{ltb_ℤ, ℤ}
use distributed_audio_system.Prelude.Map.{All-erase, All-find, All-place, emplace, find, nat_key}

pub record PcmFrame (f : AudioFrame) : Type 0 where
  pub pcm_valid : format_is_valid f.format ≡ true
  pub pcm_bits : f.format.bits_per_sample ≡ 16
  pub pcm_even : length f.payload % 2 ≡ 0

abbrev pub PcmEntry : ℕ × AudioFrame → Type 0
PcmEntry e = PcmFrame e.1

pub record PcmBuffer (b : JitterBuffer) : Type 0 where
  pub entries : All PcmEntry b.frames
  pub previous_pcm : OfOption PcmFrame b.previous_frame

insert_checked-PcmBuffer :
    (b : JitterBuffer) (f : AudioFrame)
    → PcmBuffer b
    → PcmFrame f
    → PcmBuffer (insert_checked b f).0
unfolding insert_checked store_frame emplace
insert_checked-PcmBuffer b f v p =
    let distance = forward_distance b.next_sequence f.sequence_number in
    elim (Bool-cases (leb (2 ^ 63) distance)) [
      | inl behind ↦ rw behind (record { entries = v.entries; previous_pcm = v.previous_pcm })
      | inr not_behind ↦ elim (Option-cases (find f.sequence_number b.frames)) [
        | inr (g, present) ↦
            rw (not_behind, present) (record { entries = v.entries; previous_pcm = v.previous_pcm })
        | inl absent ↦ elim (Bool-cases (leb b.capacity (length b.frames))) [
          | inl full_up ↦
              rw (not_behind, absent, full_up)
                (record { entries = v.entries; previous_pcm = v.previous_pcm })
          | inr room ↦
              rw (not_behind, absent, room)
                (record {
                  entries =
                      rw (absent, emplace)
                        (All-place PcmEntry f.sequence_number f b.frames p v.entries);
                  previous_pcm = v.previous_pcm;
                })
        ]
      ]
    ]

pub insert-PcmBuffer :
    (b : JitterBuffer) (f : AudioFrame) → PcmBuffer b → PcmFrame f → PcmBuffer (insert b f).0
unfolding insert
insert-PcmBuffer b f v p = elim (Bool-cases (is_stopped b.state)) [
  | inl stop ↦ rw stop v
  | inr open_ ↦ elim (Option-cases (positive_duration (frame_duration f))) [
    | inl nothing ↦
        rw (open_, nothing) (record { entries = v.entries; previous_pcm = v.previous_pcm })
    | inr (d, some_duration) ↦ elim (Bool-cases (matches_stream b f.format d)) [
      | inl same ↦
          rw (open_, some_duration, same)
            (insert_checked-PcmBuffer (adopt b f d) f
              (record { entries = v.entries; previous_pcm = v.previous_pcm }) p)
      | inr other ↦
          rw (open_, some_duration, other)
            (record { entries = v.entries; previous_pcm = v.previous_pcm })
    ]
  ]
]

concealed-PcmFrame :
    (b : JitterBuffer) (f : AudioFrame)
    → OfOption PcmFrame b.previous_frame
    → make_concealed_frame b ≡ some f
    → PcmFrame f
unfolding make_concealed_frame
concealed-PcmFrame b f v e = elim (Option-cases b.previous_frame) [
  | inl nothing ↦ absurd (ground (arith, nothing))
  | inr (g, before) ↦
      let p : PcmFrame g = subst (OfOption PcmFrame) before v in
      let n = length-replicate {A = ℕ} (length g.payload) 0 in
      ground (arith, before, n, p.pcm_valid, p.pcm_bits, p.pcm_even)
]

pop_found-PcmBuffer :
    (b : JitterBuffer) (f : AudioFrame)
    → PcmBuffer b
    → PcmFrame f
    → PcmBuffer (pop_found b f).0 × OfOption PcmFrame (pop_found b f).1.frame
unfolding pop_found refresh_state
pop_found-PcmBuffer b f v p = (
  record { entries = All-erase PcmEntry b.next_sequence b.frames v.entries; previous_pcm = p },
  p,
)

pop_missing-PcmBuffer :
    (b : JitterBuffer) (now : ℤ)
    → PcmBuffer b
    → PcmBuffer (pop_missing b now).0 × OfOption PcmFrame (pop_missing b now).1.frame
unfolding pop_missing refresh_state
pop_missing-PcmBuffer b now v = elim (Bool-cases b.waiting_for_missing) [
  | inr starts ↦ simp starts (record { entries = v.entries; previous_pcm = v.previous_pcm }, tt)
  | inl waits ↦ elim (Bool-cases (ltb_ℤ now b.missing_deadline)) [
    | inl early ↦
        simp (waits, early) (record { entries = v.entries; previous_pcm = v.previous_pcm }, tt)
    | inr due ↦ elim (Option-cases (make_concealed_frame b)) [
      | inl nothing ↦
          simp (waits, due, nothing)
            (record { entries = v.entries; previous_pcm = v.previous_pcm }, tt)
      | inr (f, e) ↦
          simp (waits, due, e)
            (
              record { entries = v.entries; previous_pcm = v.previous_pcm },
              concealed-PcmFrame b f v.previous_pcm e,
            )
    ]
  ]
]

pub pop-PcmBuffer :
    (b : JitterBuffer) (now : ℤ)
    → PcmBuffer b
    → PcmBuffer (pop b now).0 × OfOption PcmFrame (pop b now).1.frame
unfolding pop
pop-PcmBuffer b now v = elim (Bool-cases (is_stopped b.state && length b.frames == 0)) [
  | inl over_ ↦ rw over_ (v, tt)
  | inr open_ ↦
      elim (Bool-cases (
        not b.sequence_initialized
        || is_buffering b.state && ltb (length b.frames) b.prebuffer_target)) [
          | inl waits ↦ rw (open_, waits) (v, tt)
          | inr ready_ ↦ elim (Option-cases (find b.next_sequence b.frames)) [
            | inl absent ↦ rw (open_, ready_, absent) (pop_missing-PcmBuffer b now v)
            | inr (f, present) ↦
                rw (open_, ready_, present)
                  (pop_found-PcmBuffer b f v
                    (All-find PcmEntry b.next_sequence b.frames v.entries present))
          ]
        ]
]
