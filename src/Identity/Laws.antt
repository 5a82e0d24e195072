-- ===== src/Identity/Laws.antt =====
-- Identities that are made from a number.
use distributed_audio_system.Bytes.{IsByte, read_u64}
use distributed_audio_system.Bytes.Laws.{
  append_bytes-big_endian, big_endian, big_endian-IsByte, length-big_endian, read_u64-big_endian,
}
use distributed_audio_system.Identity.{
  SessionId, any_nonzero, bytes_from_u64, session_from_u64, session_valid,
}
use distributed_audio_system.Prelude.{
  All, List, [], ap, arith, drop, length, refl, sym, true, ℕ, ◌++◌, ◌+◌, ◌<◌, ◌^◌, ◌↔◌, ◌∙◌, ◌≡◌,
}

-- 16 bytes.
abbrev pub IsIdentity : List ℕ → Type 0
IsIdentity bs = (length bs ≡ 16) × All IsByte bs

pub bytes_from_u64-IsIdentity :
    (kind value : ℕ) → kind < 256 → IsIdentity (bytes_from_u64 kind value)
unfolding bytes_from_u64 big_endian
bytes_from_u64-IsIdentity kind value h = rw append_bytes-big_endian (
  ap (λ (n : ℕ). 8 + n) (length-big_endian 8 value),
  (
    h,
    (
      omega arith,
      (
        omega arith,
        (
          omega arith,
          (omega arith, (omega arith, (omega arith, (omega arith, big_endian-IsByte 8 value)))),
        ),
      ),
    ),
  ),
)

-- A session's identity made from a number of 64 bits is valid, and two such numbers make two
-- identities.
pub session_from_u64_lem :
    (m n : ℕ)
    → m < 2 ^ 64
    → n < 2 ^ 64
    → (session_valid (session_from_u64 m) ≡ true)
      × ((session_from_u64 m ≡ session_from_u64 n) ↔ (m ≡ n))
unfolding session_valid session_from_u64 any_nonzero bytes_from_u64
session_from_u64_lem m n hm hn = (
  refl,
  (
    λ e.
        let tails : big_endian 8 m ≡ big_endian 8 n =
          sym (append_bytes-big_endian 8 [] m)
          ∙ ap (λ (s : SessionId). drop 8 s.bytes) e
          ∙ append_bytes-big_endian 8 [] n in
        let both =
          sym (read_u64-big_endian m [] hm)
          ∙ ap (λ t. read_u64 (t ++ [])) tails
          ∙ read_u64-big_endian n [] hn in
        ground (arith, both),
    λ e. ap session_from_u64 e,
  ),
)
