-- ===== src/Session/Message/Totality.antt =====
-- Where `deserialize_session_message` (src/audio_session.cpp) reads in a packet.

use distributed_audio_system.Prelude.{
  Bool-cases, List, Option-cases, arith, has_value, has_value-some, inl, inr, length, ltb, refl,
  some, true, ℕ, ◌+◌, ◌≡◌, ◌≢◌,
}
use distributed_audio_system.Session.Message.{
  Body, Header, SessionParseResult, check_body, check_header, deserialize_session_message,
  parse_config, read_body, read_config, session_header_size,
}
use distributed_audio_system.Session.Message.Layout.{body_codec, config_codec, header_codec}

check_body_total : (h : Header) (b : Body) (rest : List ℕ) → has_value (check_body h b rest) ≡ true
unfolding check_body parse_config
check_body_total h b rest = elim (Option-cases (read_config rest)) [
  | inl nothing ↦
      let short : length rest ≢ 48 =
        λ e. let (c, after, found, size) = config_codec.total rest (omega arith) in cc in
      ground (arith, nothing, short)
  | inr ((c, after), e) ↦ ground (arith, e)
]

check_header_total :
    (packet : List ℕ) (h : Header) (rest : List ℕ)
    → 12 + length rest ≡ length packet
    → has_value (check_header packet h rest) ≡ true
unfolding check_header
check_header_total packet h rest size = elim (Option-cases (read_body rest)) [
  | inl nothing ↦
      let short : ltb (length rest) 50 ≡ true = elim (Bool-cases (ltb (length rest) 50)) [
        | inl e ↦ e
        | inr long ↦ let (b, after, found, left) = body_codec.total rest (ground arith) in cc
      ] in
      ground (arith, nothing, short)
  | inr ((b, after), e) ↦ ground (arith, e, check_body_total h b after)
]

-- On every packet, whatever its bytes, the parser gives an answer: no read is out of bounds.
pub session_parse_total :
    (packet : List ℕ) → (r : SessionParseResult) × (deserialize_session_message packet ≡ some r)
unfolding deserialize_session_message
session_parse_total packet =
    has_value-some (deserialize_session_message packet)
      (elim (Bool-cases (ltb (length packet) session_header_size)) [
        | inl short ↦ rw short refl
        | inr long ↦
            let (h, rest, e, size) = header_codec.total packet (ground arith) in
            ground (arith, e, check_header_total packet h rest size)
      ])
