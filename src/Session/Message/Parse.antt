-- ===== src/Session/Message/Parse.antt =====
-- What a packet is that the parser accepts.
use mathlib.Core.List.{append-nil}
use distributed_audio_system.Bytes.{IsByte}
use distributed_audio_system.Identity.{device_valid, session_valid}
use distributed_audio_system.Prelude.{
  All, Bool-cases, List, OfOption, Option, Option-cases, [], ap, arith, bool_eq→eq, has_value,
  if◌then◌else◌, inl, inr, length, length-append, none, not, refl, some, true, ℕ, ◌++◌, ◌+◌, ◌-◌,
  ◌<◌, ◌==◌, ◌||◌, ◌∙◌, ◌∷◌, ◌≡◌, ◌≤◌,
}
use distributed_audio_system.Session.Config.{AudioSessionConfig, config_is_valid}
use distributed_audio_system.Session.Message.{
  Body, Header, SessionControlMessage, SessionParseResult, build_message, check_body, is_accept,
  is_offer, no_error, parse_config, read_config, session_header_size, session_magic,
  session_protocol_version, type_of_code,
}
use distributed_audio_system.Session.Message.Layout.{config_codec}
use distributed_audio_system.Session.Message.Shape.{ConfigFits, Fits-config, config_bytes}

-- The parser's answer for a message that it accepts.
abbrev pub parsed : SessionControlMessage → SessionParseResult
parsed m = record { message = some m; error = no_error }

-- The tests of the header.
pub record HeaderPasses (h : Header) (size : ℕ) : Type 0 where
  pub magic : h.magic ≡ session_magic
  pub version : h.version ≡ session_protocol_version
  pub reserved : h.reserved ≡ 0
  pub type_positive : 0 < h.raw_type
  pub type_bounded : h.raw_type ≤ 6
  pub payload : h.payload_size ≡ size - session_header_size

-- The tests of the body.
pub record BodyPasses (h : Header) (b : Body) : Type 0 where
  pub session_id_valid : session_valid b.session_id ≡ true
  pub source_valid : device_valid b.source ≡ true
  pub destination_valid : device_valid b.destination ≡ true
  pub reason : b.reason ≤ 9
  pub flag : b.has_config ≤ 1
  pub presence :
      (is_offer (type_of_code h.raw_type) || is_accept (type_of_code h.raw_type))
      ≡ not (b.has_config == 0)

pub check_body-passes :
    (h : Header) (b : Body) (rest : List ℕ) (m : SessionControlMessage)
    → check_body h b rest ≡ some (parsed m)
    → BodyPasses h b × (parse_config h b rest ≡ some (parsed m))
unfolding check_body
check_body-passes h b rest m e = (
  record {
    session_id_valid = ground arith;
    source_valid = ground arith;
    destination_valid = ground arith;
    reason = ground arith;
    flag = ground arith;
    presence = bool_eq→eq _ _ (ground arith);
  },
  ground arith,
)

length_zero : {A : Type 0} (xs : List A) → length xs ≡ 0 → xs ≡ []
length_zero [] h = refl
length_zero (x ∷ xs) h = absurd (omega arith)

-- The configuration that follows the body.
pub parse_config-parsed :
    (h : Header) (b : Body) (rest : List ℕ) (m : SessionControlMessage)
    → All IsByte rest
    → b.has_config ≤ 1
    → parse_config h b rest ≡ some (parsed m)
    → (o : Option AudioSessionConfig) × (m ≡ build_message h b o)
      × (rest ≡ config_bytes o)
      × OfOption ConfigFits o
      × OfOption (λ c. config_is_valid c ≡ true) o
      × (b.has_config ≡ (if has_value o then 1 else 0))
unfolding parse_config config_bytes
parse_config-parsed h b rest m bytes flag e = elim (Bool-cases (b.has_config == 0)) [
  | inl absent ↦ (none, ground arith, length_zero rest (ground arith), tt, tt, ground arith)
  | inr present ↦ elim (Option-cases (read_config rest)) [
    | inl nothing ↦ absurd (ground (arith, nothing))
    | inr ((c, after), found) ↦
        let (split, fits) = config_codec.splits rest c after bytes found in
        let whole : length rest ≡ 48 = ground (arith, found) in
        let written : length rest ≡ 48 + length after =
          ap length split
          ∙ length-append (config_codec.write c) after
          ∙ ap (λ (n : ℕ). n + length after) (config_codec.length_write c fits) in
        (
          some c,
          ground (arith, found),
          split ∙ ap (◌++◌ (config_codec.write c)) (length_zero after (omega arith)) ∙ append-nil _,
          Fits-config c fits,
          ground (arith, found),
          ground arith,
        )
  ]
]
