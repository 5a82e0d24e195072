-- ===== src/Bytes/Laws.antt =====
-- What the readers give back of what the writers wrote.
use Prim.Native.Nat.{bit_or}
use mathlib.Core.List.{append-nil, append_assoc}
use native.Mathlib.Nat.{div-div-eq-div-mul, div-le_self, div-one, mod-eq_of_lt}
use distributed_audio_system.Bytes.{
  IsByte, Reader, append_bytes, append_u16, append_u32, append_u64, read_bytes, read_n, read_u16,
  read_u32, read_u64, read_u8,
}
use distributed_audio_system.Prelude.{
  All, Bool, List, Option, [], ap, arith, length, ltb, none, refl, some, subst, suc, true, zero, ℕ,
  ◌%◌, ◌&&◌, ◌*◌, ◌++◌, ◌+◌, ◌/◌, ◌<◌, ◌^◌, ◌∙◌, ◌∷◌, ◌≡◌,
}
use distributed_audio_system.Prelude.Bits.{bit_or-byte, pow-add_eight}

-- The last `k` bytes of a number, the most significant first.
unfoldable pub big_endian : ℕ → ℕ → List ℕ
big_endian zero value = []
big_endian (suc k) value = value / 2 ^ (8 * k) % 256 ∷ big_endian k value

pub append_bytes-big_endian :
    (k : ℕ) (out : List ℕ) (value : ℕ) → append_bytes k out value ≡ out ++ big_endian k value
unfolding append_bytes big_endian
append_bytes-big_endian zero out value = rw append-nil
append_bytes-big_endian (suc k) out value =
    append_bytes-big_endian k (out ++ value / 2 ^ (8 * k) % 256 ∷ []) value
    ∙ append_assoc out (value / 2 ^ (8 * k) % 256 ∷ []) (big_endian k value)

pub append_u16-big_endian : (out : List ℕ) (v : ℕ) → append_u16 out v ≡ out ++ big_endian 2 v
unfolding append_u16 big_endian
append_u16-big_endian out v = ap (λ b. out ++ v / 256 % 256 ∷ b % 256 ∷ []) (omega arith)

pub append_u32-big_endian : (out : List ℕ) (v : ℕ) → append_u32 out v ≡ out ++ big_endian 4 v
unfolding append_u32
append_u32-big_endian out v = append_bytes-big_endian 4 out v

pub append_u64-big_endian : (out : List ℕ) (v : ℕ) → append_u64 out v ≡ out ++ big_endian 8 v
unfolding append_u64
append_u64-big_endian out v = append_bytes-big_endian 8 out v

pub length-big_endian : (k v : ℕ) → length (big_endian k v) ≡ k
unfolding big_endian
length-big_endian zero v = refl
length-big_endian (suc k) v = ap suc (length-big_endian k v)

pub big_endian-IsByte : (k v : ℕ) → All IsByte (big_endian k v)
unfolding big_endian
big_endian-IsByte zero v = tt
big_endian-IsByte (suc k) v = (omega arith, big_endian-IsByte k v)

pub shift_suc : (k : ℕ) → 2 ^ (8 * suc k) ≡ 2 ^ (8 * k) * 256
shift_suc k =
    let e : 8 * suc k ≡ 8 * k + 8 = omega arith in rw e (omega (arith, pow-add_eight (8 * k)))

pub div_shift_suc : (k v : ℕ) → v / 2 ^ (8 * suc k) ≡ v / 2 ^ (8 * k) / 256
div_shift_suc k v = rw (shift_suc k, div-div-eq-div-mul v (2 ^ (8 * k)) 256)

-- One more byte of `v` under the bytes above it.
top_bytes : (k v : ℕ) → v / 2 ^ (8 * suc k) * 256 + v / 2 ^ (8 * k) % 256 ≡ v / 2 ^ (8 * k)
top_bytes k v = omega (arith, div_shift_suc k v)

pub next_value :
    (modulus value b : ℕ)
    → b < 256
    → value * 256 < modulus
    → bit_or (value * 256 % modulus) b ≡ value * 256 + b
next_value modulus value b hb h = rw (mod-eq_of_lt h) (bit_or-byte value b hb)

read_bytes-big_endian :
    (modulus k v : ℕ) (rest : List ℕ)
    → v < modulus
    → read_bytes modulus k (v / 2 ^ (8 * k)) (big_endian k v ++ rest) ≡ some (v, rest)
unfolding read_bytes big_endian
read_bytes-big_endian modulus zero v rest h = rw (div-one v)
read_bytes-big_endian modulus (suc k) v rest h =
    rw
      (
        next_value modulus (v / 2 ^ (8 * suc k)) (v / 2 ^ (8 * k) % 256) (omega arith)
            (omega (arith, top_bytes k v, div-le_self v (2 ^ (8 * k)))),
        top_bytes k v,
      )
      (read_bytes-big_endian modulus k v rest h)

pub read_u8-cons : (v : ℕ) (rest : List ℕ) → read_u8 (v ∷ rest) ≡ some (v, rest)
unfolding read_u8
read_u8-cons v rest = refl

pub read_u16-big_endian :
    (v : ℕ) (rest : List ℕ) → v < 2 ^ 16 → read_u16 (big_endian 2 v ++ rest) ≡ some (v, rest)
unfolding read_u16 big_endian
read_u16-big_endian v rest h =
    rw (bit_or-byte (v / 2 ^ 8 % 256) (v / 2 ^ 0 % 256) (omega arith))
      (ap (λ (n : ℕ). some (n, rest)) (omega arith))

pub read_u32-big_endian :
    (v : ℕ) (rest : List ℕ) → v < 2 ^ 32 → read_u32 (big_endian 4 v ++ rest) ≡ some (v, rest)
unfolding read_u32
read_u32-big_endian v rest h =
    let e : v / 2 ^ 32 ≡ 0 = omega arith in
    subst (λ (a : ℕ). read_bytes (2 ^ 32) 4 a (big_endian 4 v ++ rest) ≡ some (v, rest)) e
      (read_bytes-big_endian (2 ^ 32) 4 v rest h)

pub read_u64-big_endian :
    (v : ℕ) (rest : List ℕ) → v < 2 ^ 64 → read_u64 (big_endian 8 v ++ rest) ≡ some (v, rest)
unfolding read_u64
read_u64-big_endian v rest h =
    let e : v / 2 ^ 64 ≡ 0 = omega arith in
    subst (λ (a : ℕ). read_bytes (2 ^ 64) 8 a (big_endian 8 v ++ rest) ≡ some (v, rest)) e
      (read_bytes-big_endian (2 ^ 64) 8 v rest h)

pub read_n-append :
    (n : ℕ) (xs rest : List ℕ) → length xs ≡ n → read_n n (xs ++ rest) ≡ some (xs, rest)
unfolding read_n
read_n-append zero [] rest h = refl
read_n-append zero (x ∷ xs) rest h = absurd (omega arith)
read_n-append (suc n) [] rest h = absurd (omega arith)
read_n-append (suc n) (x ∷ xs) rest h = rw (read_n-append n xs rest (omega arith), read_n)

-- One step of a chain of reads.
pub then_reads :
    {A B : Type 0} (f : A → Reader B) {o : Option (A × List ℕ)} {rest : List ℕ} {a : A}
    {x : Option (B × List ℕ)}
    → o ≡ some (a, rest)
    → f a rest ≡ x
    → elim o as (λ _. Option (B × List ℕ)) [ none ↦ none | some (a, rest) ↦ f a rest ] ≡ x
then_reads {B} f e k =
    ap (λ o. elim o as (λ _. Option (B × List ℕ)) [ none ↦ none | some (a, rest) ↦ f a rest ]) e ∙ k

-- Whether all numbers of a list are bytes.
abbrev pub all_bytes : List ℕ → Bool
all_bytes [] = true
all_bytes (b ∷ bs) = ltb b 256 && all_bytes bs

pub all_bytes-IsByte : (bs : List ℕ) → all_bytes bs ≡ true → All IsByte bs
all_bytes-IsByte [] h = tt
all_bytes-IsByte (b ∷ bs) h = (ground arith, all_bytes-IsByte bs (ground arith))
