-- ===== src/Session/Message/RoundTrip.antt =====
-- `serialize_session_message` before and after `deserialize_session_message` (src/audio_session.cpp).
use mathlib.Core.List.{append-nil}
use distributed_audio_system.Bytes.{IsByte}
use distributed_audio_system.Prelude.{
  All, List, OfOption, Option-cases, [], ap, arith, bool_eq, bool_eq_refl, has_value, if◌then◌else◌,
  inl, inr, length, not, ok, some, subst, sym, true, ℕ, ◌++◌, ◌==◌, ◌||◌, ◌∙◌, ◌≡◌,
}
use distributed_audio_system.Session.Config.{config_is_valid}
use distributed_audio_system.Session.Message.{
  SessionControlMessage, check_body, check_header, deserialize_session_message, is_accept, is_offer,
  parse_config, read_body, read_config, read_header, serialize_session_message,
}
use distributed_audio_system.Session.Message.Accept.{accepted}
use distributed_audio_system.Session.Message.Layout.{body_codec, config_codec, header_codec}
use distributed_audio_system.Session.Message.Parse.{parsed}
use distributed_audio_system.Session.Message.Serialize.{
  MessageValid-serialize, serialize-MessageValid,
}
use distributed_audio_system.Session.Message.Shape.{
  ConfigFits, MessageFits, MessageValid, body-Fits, config-Fits, config_bytes, config_size,
  config_size-lt, has_reason, header-Fits, length-config_bytes, length-packet_of, message_body,
  message_header, packet_of, reason_code-lt, reason_of_code-code, type_code-lt, type_of_code-code,
}

-- A message that the parser accepts from a packet of bytes is serialized to that very packet,
-- unless it is a rejection that gives no reason.
pub session_serialize-parse :
    (packet : List ℕ) (m : SessionControlMessage)
    → All IsByte packet
    → deserialize_session_message packet ≡ some (parsed m)
    → has_reason m ≡ true
    → serialize_session_message m ≡ ok packet
session_serialize-parse packet m bytes e r =
    let (valid, fits, same) = accepted packet m bytes e in
    MessageValid-serialize m fits valid r ∙ ap ok (sym same)

check_body-built :
    (m : SessionControlMessage)
    → MessageValid m
    → parse_config (message_header m) (message_body m) (config_bytes m.configuration)
      ≡ some (parsed m)
    → check_body (message_header m) (message_body m) (config_bytes m.configuration)
      ≡ some (parsed m)
unfolding check_body
check_body-built m v e =
    let flag : not ((if has_value m.configuration then 1 else 0) == 0) ≡ has_value m.configuration =
      ground arith in
    let same : bool_eq (is_offer m.type_ || is_accept m.type_)
          (not ((if has_value m.configuration then 1 else 0) == 0))
        ≡ true =
      ap (bool_eq (is_offer m.type_ || is_accept m.type_)) (flag ∙ sym v.presence)
      ∙ bool_eq_refl (is_offer m.type_ || is_accept m.type_) in
    ground (
      arith,
      type_of_code-code m.type_,
      reason_code-lt m.reason,
      same,
      e,
      v.session_id_valid,
      v.source_valid,
      v.destination_valid,
    )

parse_config-built :
    (m : SessionControlMessage)
    → MessageFits m
    → MessageValid m
    → parse_config (message_header m) (message_body m) (config_bytes m.configuration)
      ≡ some (parsed m)
unfolding parse_config config_bytes
parse_config-built m f v =
    let type_same = type_of_code-code m.type_ in
    let reason_same = reason_of_code-code m.reason in
    elim (Option-cases m.configuration) [
      | inl e ↦ ground (arith, e, ap config_bytes e, type_same, reason_same)
      | inr (c, e) ↦
          let c_fits : ConfigFits c = subst (OfOption ConfigFits) e f.config_fits in
          let c_valid : config_is_valid c ≡ true =
            subst (OfOption (λ c. config_is_valid c ≡ true)) e v.config_valid in
          let size : length (config_bytes m.configuration) ≡ 48 =
            length-config_bytes m.configuration f.config_fits ∙ ap config_size e in
          let read : read_config (config_bytes m.configuration) ≡ some (c, []) =
            ap read_config (ap config_bytes e ∙ sym (append-nil _))
            ∙ config_codec.reads c [] (config-Fits c c_fits) in
          ground (arith, e, c_valid, size, read, type_same, reason_same)
    ]

parse-packet_of :
    (m : SessionControlMessage)
    → MessageFits m
    → MessageValid m
    → deserialize_session_message (packet_of m) ≡ some (parsed m)
unfolding deserialize_session_message check_header packet_of
parse-packet_of m f v =
    let rest = body_codec.write (message_body m) ++ config_bytes m.configuration in
    let header_read : read_header (packet_of m) ≡ some (message_header m, rest) =
      header_codec.reads (message_header m) rest (header-Fits m) in
    let body_read : read_body rest ≡ some (message_body m, config_bytes m.configuration) =
      body_codec.reads (message_body m) (config_bytes m.configuration) (body-Fits m f) in
    let (lo, hi) = type_code-lt m.type_ in
    ground (
      arith,
      header_read,
      body_read,
      length-packet_of m f,
      config_size-lt m.configuration,
      check_body-built m v (parse_config-built m f v),
    )

-- A message with every field in the range of its type that is serialized is parsed back from its
-- packet.
pub session_parse-serialize :
    (m : SessionControlMessage) (p : List ℕ)
    → MessageFits m
    → serialize_session_message m ≡ ok p
    → deserialize_session_message p ≡ some (parsed m)
session_parse-serialize m p f e =
    let (valid, reason, same) = serialize-MessageValid m p f e in
    ap deserialize_session_message same ∙ parse-packet_of m f valid
