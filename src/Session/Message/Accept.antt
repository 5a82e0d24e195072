-- ===== src/Session/Message/Accept.antt =====
-- The packets that `deserialize_session_message` accepts, and their messages.
use distributed_audio_system.Bytes.{IsByte}
use distributed_audio_system.Bytes.Codec.{bytes_codec, done, then_field, u8_codec}
use distributed_audio_system.Bytes.Reads.{All-rest}
use distributed_audio_system.Prelude.{
  All, List, OfOption, Option, Option-cases, ap, ap₂, arith, has_value, if◌then◌else◌, inl, inr,
  length, length-append, some, subst, sym, true, ℕ, ◌++◌, ◌+◌, ◌∙◌, ◌≡◌,
}
use distributed_audio_system.Session.Config.{AudioSessionConfig, config_is_valid}
use distributed_audio_system.Session.Message.{
  Body, Header, SessionControlMessage, build_message, check_body, check_header,
  deserialize_session_message, read_body, reason_code, reason_of_code, type_code, type_of_code,
}
use distributed_audio_system.Session.Message.Layout.{body_codec, header_codec}
use distributed_audio_system.Session.Message.Parse.{
  BodyPasses, HeaderPasses, check_body-passes, parse_config-parsed, parsed,
}
use distributed_audio_system.Session.Message.Shape.{
  ConfigFits, MessageFits, MessageValid, config_bytes, config_size, length-config_bytes,
  message_body, message_header, packet_of, reason_code-of_code, type_code-of_code,
}

check_header-passes :
    (packet : List ℕ) (h : Header) (rest : List ℕ) (m : SessionControlMessage)
    → check_header packet h rest ≡ some (parsed m)
    → HeaderPasses h (length packet)
      × (b : Body) × (after : List ℕ) × (read_body rest ≡ some (b, after))
      × (check_body h b after ≡ some (parsed m))
unfolding check_header
check_header-passes packet h rest m e = elim (Option-cases (read_body rest)) [
  | inl nothing ↦ absurd (ground (arith, nothing))
  | inr ((b, after), found) ↦ (
    record {
      magic = ground arith;
      version = ground arith;
      reserved = ground arith;
      type_positive = ground arith;
      type_bounded = ground arith;
      payload = ground arith;
    },
    b,
    after,
    found,
    ground (arith, found),
  )
]

module _ (packet : List ℕ) (h : Header) (b : Body) (o : Option AudioSessionConfig)
    (rest after : List ℕ) (hp : HeaderPasses h (length packet)) (bp : BodyPasses h b)
    (flag : b.has_config ≡ (if has_value o then 1 else 0)) (size : 12 + length rest ≡ length packet)
    (rest_size : length rest ≡ 50 + config_size o) where
  header_same : h ≡ message_header (build_message h b o)
  header_same =
      let type_same : type_code (type_of_code h.raw_type) ≡ h.raw_type =
        type_code-of_code h.raw_type hp.type_positive hp.type_bounded in
      let payload_same : h.payload_size ≡ 50 + config_size o = omega (arith, hp.payload) in
      ground (arith, hp.magic, hp.version, hp.reserved, type_same, payload_same)

  body_same : b ≡ message_body (build_message h b o)
  body_same =
      let reason_same : reason_code (reason_of_code b.reason) ≡ b.reason =
        reason_code-of_code b.reason bp.reason in
      ground (arith, reason_same, flag)

  built-MessageValid :
      OfOption (λ c. config_is_valid c ≡ true) o → MessageValid (build_message h b o)
  built-MessageValid v = record {
    session_id_valid = bp.session_id_valid;
    source_valid = bp.source_valid;
    destination_valid = bp.destination_valid;
    presence = bp.presence ∙ ground (arith, flag);
    config_valid = v;
  }

  built_packet :
      packet ≡ header_codec.write h ++ rest
      → rest ≡ body_codec.write b ++ after
      → after ≡ config_bytes o
      → packet ≡ packet_of (build_message h b o)
  unfolding packet_of
  built_packet front middle back =
      front
      ∙ ap₂ ◌++◌ (ap header_codec.write header_same)
          (middle ∙ ap₂ ◌++◌ (ap body_codec.write body_same) back)

body_fits :
    (h : Header) (b : Body) (o : Option AudioSessionConfig)
    → body_codec.Fits b
    → OfOption ConfigFits o
    → MessageFits (build_message h b o)
unfolding body_codec u8_codec bytes_codec done then_field
body_fits h b o (session, (source, (destination, more))) f = record {
  session_fits = session;
  source_fits = source;
  destination_fits = destination;
  config_fits = f;
}

abbrev pub Accepted : List ℕ → SessionControlMessage → Type 0
Accepted packet m = MessageValid m × MessageFits m × (packet ≡ packet_of m)

Accepted-body :
    (packet : List ℕ) (h : Header) (b : Body) (rest after : List ℕ) (m : SessionControlMessage)
    → HeaderPasses h (length packet)
    → 12 + length rest ≡ length packet
    → packet ≡ header_codec.write h ++ rest
    → (rest ≡ body_codec.write b ++ after) × body_codec.Fits b
    → All IsByte after
    → check_body h b after ≡ some (parsed m)
    → Accepted packet m
Accepted-body packet h b rest after m hp size split (split', b_fits) bytes checked =
    let (bp, parsed_config) = check_body-passes h b after m checked in
    let (o, built, after_lem, o_fits, o_valid, flag) =
      parse_config-parsed h b after m bytes bp.flag parsed_config in
    let rest_size : length rest ≡ 50 + config_size o =
      ap length split'
      ∙ length-append (body_codec.write b) after
      ∙ ap₂ ◌+◌ (body_codec.length_write b b_fits)
          (ap length after_lem ∙ length-config_bytes o o_fits) in
    subst (Accepted packet) {x = build_message h b o} (sym built) (
      built-MessageValid packet h b o rest after hp bp flag size rest_size o_valid,
      body_fits h b o b_fits o_fits,
      built_packet packet h b o rest after hp bp flag size rest_size split split' after_lem,
    )

Accepted-header :
    (packet : List ℕ) (h : Header) (rest : List ℕ) (m : SessionControlMessage)
    → All IsByte packet
    → packet ≡ header_codec.write h ++ rest
    → 12 + length rest ≡ length packet
    → check_header packet h rest ≡ some (parsed m)
    → Accepted packet m
Accepted-header packet h rest m bytes split size e =
    let rest_bytes = All-rest (header_codec.write h) rest packet split bytes in
    let (hp, b, after, found, checked) = check_header-passes packet h rest m e in
    let body_split = body_codec.splits rest b after rest_bytes found in
    Accepted-body packet h b rest after m hp size split body_split
      (All-rest (body_codec.write b) after rest body_split.0 rest_bytes) checked

-- What the parser accepts is the packet of the message that it returns, which is valid.
pub accepted :
    (packet : List ℕ) (m : SessionControlMessage)
    → All IsByte packet
    → deserialize_session_message packet ≡ some (parsed m)
    → Accepted packet m
unfolding deserialize_session_message
accepted packet m bytes e =
    let (h, rest, found, size) = header_codec.total packet (ground arith) in
    Accepted-header packet h rest m bytes (header_codec.splits packet h rest bytes found).0 size
      (ground (arith, found))
