-- ===== src/Discovery/Message/Totality.antt =====
-- Where `deserialize_discovery_message` (src/device_discovery.cpp) reads in a packet.
use distributed_audio_system.Bytes.Reads.{read_n_total}
use distributed_audio_system.Discovery.Message.{
  DiscoveryParseResult, Header, MessageType, Ports, discovery_header_size,
  discovery_max_address_length, discovery_max_name_length, type_of_code,
}
use distributed_audio_system.Discovery.Message.Bounds.{
  in_bounds, read_lists-in_bounds, read_strings-in_bounds,
}
use distributed_audio_system.Discovery.Message.Layout.{header_codec, ports_codec}
use distributed_audio_system.Discovery.Message.Read.{
  Outcome, check_header, deserialize_discovery_message, out_of_bounds, parse_device, parse_lists,
  parse_strings, read_lists, read_string, read_strings, refused, taken, unless, ◌>>=◌,
}
use distributed_audio_system.Prelude.{
  Bool, Bool-cases, List, ap, arith, false, has_value, has_value-some, inl, inr, length, ltb, refl,
  some, subst, sym, true, ℕ, ◌==◌, ◌∙◌, ◌≡◌, ◌≤◌, ◌⊎◌,
}

-- A value leaves at least `n` bytes.
abbrev Leaves : {A : Type 0} → ℕ → Outcome A → Type 0
Leaves n out_of_bounds = Unit
Leaves n refused = Unit
Leaves n (taken a rest) = n ≤ length rest

bind-Leaves :
    {A B : Type 0} (n : ℕ) (o : Outcome A) (f : A → List ℕ → Outcome B)
    → ((a : A) (rest : List ℕ) → Leaves n (f a rest))
    → Leaves n (o >>= f)
bind-Leaves n out_of_bounds f h = tt
bind-Leaves n refused f h = tt
bind-Leaves n (taken a rest) f h = h a rest

unless-Leaves :
    {A : Type 0} (n : ℕ) (test : Bool) (o : Outcome A)
    → (test ≡ false → Leaves n o)
    → Leaves n (unless test o)
unless-Leaves n true o h = tt
unless-Leaves n false o h = h refl

read_strings-Leaves : (rest : List ℕ) → Leaves 8 (read_strings rest)
unfolding read_strings
read_strings-Leaves rest =
    bind-Leaves 8 (read_string discovery_max_name_length rest) _ (λ name rest.
      unless-Leaves 8 (length name == 0) _ (λ h.
        bind-Leaves 8 (read_string discovery_max_address_length rest) _
          (λ address rest. unless-Leaves 8 (ltb (length rest) 8) _ (λ long. ground arith))))

Outcome-cases :
    {A : Type 0} (o : Outcome A)
    → (o ≡ out_of_bounds) ⊎ ((o ≡ refused) ⊎ ((a : A) × (rest : List ℕ) × (o ≡ taken a rest)))
Outcome-cases out_of_bounds = inl refl
Outcome-cases refused = inr (inl refl)
Outcome-cases (taken a rest) = inr (inr (a, rest, refl))

parse_lists_total :
    (t : MessageType) (id : List ℕ) (strings : List ℕ × List ℕ) (ports : Ports) (rest : List ℕ)
    → has_value (parse_lists t id strings ports rest) ≡ true
unfolding parse_lists
parse_lists_total t id strings ports rest =
    let inside = read_lists-in_bounds rest in
    elim (Outcome-cases (read_lists rest)) [
      | inl fault ↦ absurd (cc (sym (ap in_bounds fault) ∙ inside))
      | inr (inl e) ↦ ground (arith, e)
      | inr (inr (lists, after, e)) ↦ ground (arith, e)
    ]

parse_strings_total :
    (t : MessageType) (id rest : List ℕ) → has_value (parse_strings t id rest) ≡ true
unfolding parse_strings
parse_strings_total t id rest =
    let inside = read_strings-in_bounds rest in
    elim (Outcome-cases (read_strings rest)) [
      | inl fault ↦ absurd (cc (sym (ap in_bounds fault) ∙ inside))
      | inr (inl e) ↦ ground (arith, e)
      | inr (inr (strings, after, e)) ↦
          let long : 8 ≤ length after = subst (Leaves 8) e (read_strings-Leaves rest) in
          let (ports, more, found, size) = ports_codec.total after (omega arith) in
          ground (arith, e, found, parse_lists_total t id strings ports more)
    ]

parse_device_total : (t : MessageType) (rest : List ℕ) → has_value (parse_device t rest) ≡ true
unfolding parse_device
parse_device_total t rest = elim (Bool-cases (ltb (length rest) 16)) [
  | inl short ↦ ground (arith, short)
  | inr long ↦
      let (id, after, e, size) = read_n_total 16 rest (ground arith) in
      ground (arith, long, e, parse_strings_total t id after)
]

check_header_total :
    (packet : List ℕ) (h : Header) (rest : List ℕ) → has_value (check_header packet h rest) ≡ true
unfolding check_header
check_header_total packet h rest = ground (arith, parse_device_total (type_of_code h.raw_type) rest)

-- On every packet, whatever its bytes, the parser gives an answer: no read is out of bounds.
pub discovery_parse_total :
    (packet : List ℕ) → (r : DiscoveryParseResult) × (deserialize_discovery_message packet ≡ some r)
unfolding deserialize_discovery_message
discovery_parse_total packet =
    has_value-some (deserialize_discovery_message packet)
      (elim (Bool-cases (ltb (length packet) discovery_header_size)) [
        | inl short ↦ rw short refl
        | inr long ↦
            let (h, rest, e, size) = header_codec.total packet (ground arith) in
            ground (arith, e, check_header_total packet h rest)
      ])
