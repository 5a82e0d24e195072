-- ===== src/Session/Message/Serialize.antt =====
-- What `serialize_session_message` writes, and for which messages.
use mathlib.Core.List.{append-nil, append_assoc}
use distributed_audio_system.Bytes.{append_u8}
use distributed_audio_system.Bytes.Codec.{
  bytes_codec, done, then_field, u16_codec, u32_codec, u8_codec,
}
use distributed_audio_system.Bytes.Laws.{append_u16-big_endian, append_u32-big_endian}
use distributed_audio_system.Prelude.{
  List, OfOption, Option-cases, ap, arith, bool_eq, bool_eq_refl, bool_eq→eq, false, has_value, inl,
  inr, length, ltb, none, ok, some, subst, sym, true, ℕ, ◌%◌, ◌++◌, ◌+◌, ◌^◌, ◌||◌, ◌∙◌, ◌≡◌, ◌≤◌,
}
use distributed_audio_system.Session.Config.{AudioSessionConfig, config_is_valid}
use distributed_audio_system.Session.Message.{
  Header, SessionControlMessage, append_config, finish_packet, is_accept, is_offer, message_payload,
  serialize_session_message, session_header_size, session_magic, session_max_packet_size,
  session_protocol_version, type_code,
}
use distributed_audio_system.Session.Message.Layout.{body_codec, config_codec, header_codec}
use distributed_audio_system.Session.Message.Shape.{
  MessageFits, MessageValid, config_bytes, config_size, config_size-lt, has_reason, length-payload,
  message_body, packet_of,
}

message_payload_lem :
    (m : SessionControlMessage) → message_payload m ≡ body_codec.write (message_body m)
unfolding message_payload append_u8 body_codec u8_codec bytes_codec done then_field
message_payload_lem m = simp (append_assoc, append-nil)

append_config_lem :
    (payload : List ℕ) (c : AudioSessionConfig)
    → append_config payload c ≡ payload ++ config_codec.write c
unfolding append_config config_codec u16_codec u32_codec bytes_codec done then_field
append_config_lem payload c =
    simp (append_u16-big_endian, append_u32-big_endian, append_assoc, append-nil)

-- The header of a payload.
header_of : SessionControlMessage → ℕ → Header
header_of m size = record {
  magic = session_magic;
  version = session_protocol_version;
  raw_type = type_code m.type_;
  reserved = 0;
  payload_size = size;
}

finish_packet_lem :
    (m : SessionControlMessage) (payload : List ℕ) (size : ℕ)
    → length payload ≡ size
    → size ≤ 244
    → finish_packet m payload ≡ ok (header_codec.write (header_of m size) ++ payload)
unfolding finish_packet append_u8 header_codec header_of u8_codec u16_codec u32_codec done
    then_field
finish_packet_lem m payload size e h =
    let small : length payload % 2 ^ 32 ≡ size = omega arith in
    let fits : ltb session_max_packet_size (length payload + session_header_size) ≡ false =
      ground arith in
    rw fits
      (rw small (simp (append_u16-big_endian, append_u32-big_endian, append_assoc, append-nil)))

finish_packet_of :
    (m : SessionControlMessage)
    → MessageFits m
    → finish_packet m (body_codec.write (message_body m) ++ config_bytes m.configuration)
      ≡ ok (packet_of m)
unfolding packet_of header_of
finish_packet_of m f =
    finish_packet_lem m _ (50 + config_size m.configuration) (length-payload m f)
      (omega (arith, config_size-lt m.configuration))

written_none :
    (m : SessionControlMessage)
    → MessageFits m
    → m.configuration ≡ none
    → finish_packet m (message_payload m) ≡ ok (packet_of m)
unfolding config_bytes
written_none m f e =
    ap (finish_packet m) (
      message_payload_lem m
      ∙ sym (append-nil _)
      ∙ ap (λ o. body_codec.write (message_body m) ++ config_bytes o) (sym e))
    ∙ finish_packet_of m f

written_some :
    (m : SessionControlMessage) (c : AudioSessionConfig)
    → MessageFits m
    → m.configuration ≡ some c
    → finish_packet m (append_config (message_payload m) c) ≡ ok (packet_of m)
unfolding config_bytes
written_some m c f e =
    ap (finish_packet m) (
      append_config_lem (message_payload m) c
      ∙ ap (λ bs. bs ++ config_codec.write c) (message_payload_lem m)
      ∙ ap (λ o. body_codec.write (message_body m) ++ config_bytes o) (sym e))
    ∙ finish_packet_of m f

-- Every valid message with a reason for a rejection is written.
pub MessageValid-serialize :
    (m : SessionControlMessage)
    → MessageFits m
    → MessageValid m
    → has_reason m ≡ true
    → serialize_session_message m ≡ ok (packet_of m)
unfolding serialize_session_message
MessageValid-serialize m f v r =
    let same : bool_eq (is_offer m.type_ || is_accept m.type_) (has_value m.configuration) ≡ true =
      ap (bool_eq (is_offer m.type_ || is_accept m.type_)) (sym v.presence)
      ∙ bool_eq_refl (is_offer m.type_ || is_accept m.type_) in
    elim (Option-cases m.configuration) [
      | inl e ↦ ground (
        arith,
        e,
        same,
        written_none m f e,
        v.session_id_valid,
        v.source_valid,
        v.destination_valid,
      )
      | inr (c, e) ↦
          let valid : config_is_valid c ≡ true =
            subst (OfOption (λ c. config_is_valid c ≡ true)) e v.config_valid in
          ground (
            arith,
            e,
            same,
            written_some m c f e,
            v.session_id_valid,
            v.source_valid,
            v.destination_valid,
          )
    ]

pub serialize-MessageValid :
    (m : SessionControlMessage) (p : List ℕ)
    → MessageFits m
    → serialize_session_message m ≡ ok p
    → MessageValid m × (has_reason m ≡ true) × (p ≡ packet_of m)
unfolding serialize_session_message
serialize-MessageValid m p f e = elim (Option-cases m.configuration) [
  | inl none_lem ↦ (
    record {
      session_id_valid = ground (arith, none_lem);
      source_valid = ground (arith, none_lem);
      destination_valid = ground (arith, none_lem);
      presence = bool_eq→eq _ _ (ground (arith, none_lem));
      config_valid = subst (OfOption (λ c. config_is_valid c ≡ true)) (sym none_lem) tt;
    },
    ground (arith, none_lem),
    ground (arith, none_lem, written_none m f none_lem),
  )
  | inr (c, some_lem) ↦ (
    record {
      session_id_valid = ground (arith, some_lem);
      source_valid = ground (arith, some_lem);
      destination_valid = ground (arith, some_lem);
      presence = bool_eq→eq _ _ (ground (arith, some_lem));
      config_valid =
          subst (OfOption (λ c. config_is_valid c ≡ true)) (sym some_lem)
            (ground (arith, some_lem));
    },
    ground (arith, some_lem),
    ground (arith, some_lem, written_some m c f some_lem),
  )
]
