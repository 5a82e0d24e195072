-- ===== src/Bytes/Reads.antt =====
-- What a successful read says of the packet, and when a read succeeds.
use Prim.Native.Nat.{bit_or}
use native.Mathlib.Nat.{div-one, pow-le-pow_right}
use distributed_audio_system.Prelude.{
  ℕ, zero, suc, ◌+◌, ◌*◌, ◌/◌, ◌%◌, ◌^◌, ◌≤◌, ◌<◌, ◌≡◌, refl, ap₂, subst, ◌∙◌, Option, some, List,
  [], ◌∷◌, ◌++◌, length, All, arith,
}
use distributed_audio_system.Prelude.Bits.{bit_or-byte}
use distributed_audio_system.Bytes.{
  IsByte, read_u8, read_bytes, read_u16, read_u32, read_u64, read_n,
}
use distributed_audio_system.Bytes.Laws.{big_endian, shift_suc, div_shift_suc, next_value}

-- There is room for one more byte under `value`.
room :
    (value b p modulus : ℕ)
    → b < 256
    → 0 < p
    → (value + 1) * (p * 256) ≤ modulus
    → (value * 256 < modulus) × ((value * 256 + b + 1) * p ≤ modulus)
room value b p modulus hb hp h =
    let product : (value + 1) * 256 * p ≤ modulus = omega arith in (grind arith, grind arith)

pow_pos : (n : ℕ) → 0 < 2 ^ n
pow_pos n = pow-le-pow_right {n = 2} (omega arith) {i = 0} {j = n} (omega arith)

read_bytes_split :
    (modulus k value : ℕ) (packet rest : List ℕ) (v : ℕ)
    → All IsByte packet
    → (value + 1) * 2 ^ (8 * k) ≤ modulus
    → read_bytes modulus k value packet ≡ some (v, rest)
    → (v / 2 ^ (8 * k) ≡ value) × (packet ≡ big_endian k v ++ rest) × (v < modulus)
unfolding read_bytes big_endian
read_bytes_split modulus zero value packet rest v bytes h e =
    (div-one v ∙ ground arith, ground arith, ground arith)
read_bytes_split modulus (suc k) value [] rest v bytes h e = cc
read_bytes_split modulus (suc k) value (b ∷ packet) rest v bytes h e =
    let (low, high) =
      room value b (2 ^ (8 * k)) modulus bytes.0 (pow_pos (8 * k)) (rw shift_suc at h) in
    let (top, split, fits) =
      read_bytes_split modulus k (value * 256 + b) packet rest v bytes.1 high
        (rw (next_value modulus value b bytes.0 low) at e) in
    (omega (arith, div_shift_suc k v), ap₂ ◌∷◌ (omega arith) split, fits)

pub read_bytes_total :
    (modulus k value : ℕ) (packet : List ℕ)
    → k ≤ length packet
    → (v : ℕ) × (rest : List ℕ) × (read_bytes modulus k value packet ≡ some (v, rest))
      × (k + length rest ≡ length packet)
unfolding read_bytes
read_bytes_total modulus zero value packet h = (value, packet, refl, omega arith)
read_bytes_total modulus (suc k) value [] h = absurd (omega arith)
read_bytes_total modulus (suc k) value (b ∷ packet) h =
    let (v, rest, e, n) =
      read_bytes_total modulus k (bit_or (value * 256 % modulus) b) packet (omega arith) in
    (v, rest, e, omega arith)

-- Each reader, on a packet that is long enough, and what it gives back.
abbrev pub Reads : {A : Type 0} → (List ℕ → Option (A × List ℕ)) → ℕ → List ℕ → Type 0
Reads {A} read k packet =
    (v : A) × (rest : List ℕ) × (read packet ≡ some (v, rest)) × (k + length rest ≡ length packet)

pub read_u8_total : (packet : List ℕ) → 1 ≤ length packet → Reads read_u8 1 packet
unfolding read_u8
read_u8_total [] h = absurd (omega arith)
read_u8_total (b ∷ rest) h = (b, rest, refl, omega arith)

pub read_u16_total : (packet : List ℕ) → 2 ≤ length packet → Reads read_u16 2 packet
unfolding read_u16
read_u16_total [] h = absurd (omega arith)
read_u16_total (a ∷ []) h = absurd (omega arith)
read_u16_total (a ∷ b ∷ rest) h = (bit_or (a * 256) b, rest, refl, omega arith)

pub read_u32_total : (packet : List ℕ) → 4 ≤ length packet → Reads read_u32 4 packet
unfolding read_u32
read_u32_total packet h = read_bytes_total (2 ^ 32) 4 0 packet h

pub read_u64_total : (packet : List ℕ) → 8 ≤ length packet → Reads read_u64 8 packet
unfolding read_u64
read_u64_total packet h = read_bytes_total (2 ^ 64) 8 0 packet h

pub read_n_total : (n : ℕ) (packet : List ℕ) → n ≤ length packet → Reads (read_n n) n packet
unfolding read_n
read_n_total zero packet h = ([], packet, refl, omega arith)
read_n_total (suc n) [] h = absurd (omega arith)
read_n_total (suc n) (b ∷ packet) h =
    let (bs, rest, e, k) = read_n_total n packet (omega arith) in
    (b ∷ bs, rest, rw (e, read_n), omega arith)

pub read_u8_split :
    (packet rest : List ℕ) (v : ℕ)
    → All IsByte packet
    → read_u8 packet ≡ some (v, rest)
    → (packet ≡ v ∷ rest) × (v < 256)
unfolding read_u8
read_u8_split [] rest v bytes e = cc
read_u8_split (b ∷ packet) rest v bytes e = ground arith

pub read_u16_split :
    (packet rest : List ℕ) (v : ℕ)
    → All IsByte packet
    → read_u16 packet ≡ some (v, rest)
    → (packet ≡ big_endian 2 v ++ rest) × (v < 2 ^ 16)
unfolding read_u16 big_endian
read_u16_split [] rest v bytes e = cc
read_u16_split (a ∷ []) rest v bytes e = cc
read_u16_split (a ∷ b ∷ packet) rest v bytes e =
    let sum = bit_or-byte a b bytes.1.0 in (ground arith, ground arith)

module _ (packet rest : List ℕ) (v : ℕ) (bytes : All IsByte packet) where
  pub read_u32_split :
      read_u32 packet ≡ some (v, rest) → (packet ≡ big_endian 4 v ++ rest) × (v < 2 ^ 32)
  unfolding read_u32
  read_u32_split e =
      let (_, split, fits) = read_bytes_split (2 ^ 32) 4 0 packet rest v bytes (omega arith) e in
      (split, fits)

  pub read_u64_split :
      read_u64 packet ≡ some (v, rest) → (packet ≡ big_endian 8 v ++ rest) × (v < 2 ^ 64)
  unfolding read_u64
  read_u64_split e =
      let (_, split, fits) = read_bytes_split (2 ^ 64) 8 0 packet rest v bytes (omega arith) e in
      (split, fits)

pub All-rest :
    (xs rest : List ℕ) (packet : List ℕ) → packet ≡ xs ++ rest → All IsByte packet → All IsByte rest
All-rest xs rest packet e h = go xs (subst (All IsByte) e h)
  where
    go : (xs : List ℕ) → All IsByte (xs ++ rest) → All IsByte rest
    go [] h = h
    go (x ∷ xs) h = go xs h.1

-- The first `k` bytes of a packet that is long enough are the bytes of one number.
pub record Field (k : ℕ) (packet : List ℕ) : Type 0 where
  pub value : ℕ
  pub rest : List ℕ
  pub split : packet ≡ big_endian k value ++ rest
  pub fits : value < 2 ^ (8 * k)
  pub rest_bytes : All IsByte rest
  pub rest_size : k + length rest ≡ length packet

pub field : (k : ℕ) (packet : List ℕ) → All IsByte packet → k ≤ length packet → Field k packet
field k packet bytes h =
    let (v, rest, e, size) = read_bytes_total (2 ^ (8 * k)) k 0 packet h in
    let (_, split, fits) = read_bytes_split (2 ^ (8 * k)) k 0 packet rest v bytes (omega arith) e in
    record {
      value = v;
      rest = rest;
      split = split;
      fits = fits;
      rest_bytes = All-rest (big_endian k v) rest packet split bytes;
      rest_size = size;
    }

-- The same for one byte.
pub record ByteField (packet : List ℕ) : Type 0 where
  pub value : ℕ
  pub rest : List ℕ
  pub split : packet ≡ value ∷ rest
  pub fits : value < 256
  pub rest_bytes : All IsByte rest
  pub rest_size : 1 + length rest ≡ length packet

pub byte_field : (packet : List ℕ) → All IsByte packet → 1 ≤ length packet → ByteField packet
byte_field [] bytes h = absurd (omega arith)
byte_field (b ∷ rest) bytes h = record {
  value = b;
  rest = rest;
  split = refl;
  fits = bytes.0;
  rest_bytes = bytes.1;
  rest_size = omega arith;
}
