-- ===== src/Stream/Totality.antt =====
-- Every packet of bytes has an answer from `deserialize_media_frame` of src/audio_stream.cpp.
use distributed_audio_system.Audio.{AudioFrame, bytes_per_frame, format_is_valid}
use distributed_audio_system.Audio.Laws.{IsFrame}
use distributed_audio_system.Bytes.{IsByte, read_n}
use distributed_audio_system.Bytes.Codec.{read_n_split}
use distributed_audio_system.Bytes.Reads.{All-rest, read_n_total}
use distributed_audio_system.Identity.{SessionId, session_eq, session_valid}
use distributed_audio_system.Jitter.Pcm.{PcmFrame}
use distributed_audio_system.Packet.{ParseResult, deserialize_audio_frame, serialize_audio_frame}
use distributed_audio_system.Packet.Limits.{samples_exact, serialize-InLimits}
use distributed_audio_system.Packet.Parse.{deserialize_total, serialize-deserialize}
use distributed_audio_system.Prelude.{
  All, Bool-cases, List, OfOption, Option, ap, arith, false, inl, inr, leb, length, none, not, ok,
  refl, some, sym, ℕ, ◌%◌, ◌*◌, ◌/◌, ◌<◌, ◌^◌, ◌||◌, ◌∙◌, ◌≡◌, ◌≤◌,
}
use distributed_audio_system.Stream.{deserialize_media_frame, session_envelope_size}

-- The packets with a frame are those of a sender, so that the frame has whole samples and a number of 64 bits.
abbrev pub Decoded : Option AudioFrame → Type 0
Decoded = OfOption (λ f. IsFrame f × (f.sequence_number < 2 ^ 64) × PcmFrame f)

serialize-IsFrame : (f : AudioFrame) (p : List ℕ) → serialize_audio_frame f ≡ ok p → IsFrame f
unfolding format_is_valid bytes_per_frame
serialize-IsFrame f p e =
    let (v, q) = serialize-InLimits f p e in
    let two : f.format.bits_per_sample / 8 ≡ 2 = ap (λ b. b / 8) v.bits in
    record {
      valid = ground (arith, v.rate_positive, v.channels_positive, v.bits);
      whole = λ e.
          let none_at_all : f.format.channel_count * 2 ≡ 0 =
            ap (λ b. f.format.channel_count * b) (sym two) ∙ e in
          omega (arith, none_at_all, v.channels_positive);
      aligned = ap (λ b. length f.payload % (f.format.channel_count * b)) two ∙ v.aligned;
    }

serialize-PcmFrame : (f : AudioFrame) (p : List ℕ) → serialize_audio_frame f ≡ ok p → PcmFrame f
serialize-PcmFrame f p e =
    let (v, q) = serialize-InLimits f p e in
    record {
      pcm_valid = (serialize-IsFrame f p e).valid;
      pcm_bits = v.bits;
      pcm_even = omega (arith, samples_exact f v);
    }

deserialize-Decoded :
    (packet : List ℕ) (r : ParseResult)
    → All IsByte packet
    → deserialize_audio_frame packet ≡ some r
    → Decoded r.frame
deserialize-Decoded packet r bytes e = go r.frame refl
  where
    go : (o : Option AudioFrame) → r.frame ≡ o → Decoded o
    go none h = tt
    go (some f) h =
        let (written, fits) = serialize-deserialize packet r f bytes e h in
        (
          serialize-IsFrame f packet written,
          fits.sequence_fits,
          serialize-PcmFrame f packet written,
        )

-- The same once the id is read.
media_rest :
    (id : SessionId) (packet name rest : List ℕ)
    → (not (session_valid id) || leb (length packet) session_envelope_size) ≡ false
    → read_n session_envelope_size packet ≡ some (name, rest)
    → All IsByte rest
    → (o : Option AudioFrame) × (deserialize_media_frame id packet ≡ some o) × Decoded o
unfolding deserialize_media_frame
media_rest id packet name rest long read bytes =
    elim (Bool-cases (session_eq (record { bytes = name }) id)) [
      | inl own ↦
          let (r, answer) = deserialize_total rest bytes in
          (r.frame, rw (long, read, own, answer) refl, deserialize-Decoded rest r bytes answer)
      | inr other ↦ (none, rw (long, read, other) refl, tt)
    ]

pub deserialize_media_total :
    (id : SessionId) (packet : List ℕ)
    → All IsByte packet
    → (o : Option AudioFrame) × (deserialize_media_frame id packet ≡ some o) × Decoded o
unfolding deserialize_media_frame
deserialize_media_total id packet bytes =
    elim (Bool-cases (not (session_valid id) || leb (length packet) session_envelope_size)) [
      | inl refused ↦ (none, rw refused refl, tt)
      | inr long ↦
          let enough : 16 ≤ length packet = ground (arith, long) in
          let (name, rest, read, size) = read_n_total 16 packet enough in
          let (whole, sized) = read_n_split 16 packet name rest bytes read in
          media_rest id packet name rest long read (All-rest name rest packet whole bytes)
    ]
