-- ===== src/Bytes/Codec.antt =====
-- A reader of a record of fixed size together with what it reads back, built field by field in the
-- order of the reads.
use mathlib.Core.List.{append_assoc}
use distributed_audio_system.Bytes.{
  IsByte, Reader, read_n, read_u16, read_u32, read_u8, return, ◌>>=◌,
}
use distributed_audio_system.Bytes.Laws.{
  big_endian, length-big_endian, read_n-append, read_u16-big_endian, read_u32-big_endian,
  read_u8-cons, then_reads,
}
use distributed_audio_system.Bytes.Reads.{
  All-rest, Reads, read_n_total, read_u16_split, read_u16_total, read_u32_split, read_u32_total,
  read_u8_split, read_u8_total,
}
use distributed_audio_system.Prelude.{
  All, List, Option, Option-cases, [], ap, ap₂, arith, inl, inr, length, length-append, none, refl,
  some, subst, suc, sym, zero, ℕ, ◌++◌, ◌+◌, ◌<◌, ◌^◌, ◌∙◌, ◌∷◌, ◌≡◌, ◌≤◌,
}

-- `read` takes `size` bytes: it undoes `write`, and a packet that it reads starts with `write`.
pub record Codec (A : Type 0) (read : Reader A) (size : ℕ) : Type 1 where
  pub write : A → List ℕ
  pub Fits : A → Type 0
  pub reads : (a : A) (rest : List ℕ) → Fits a → read (write a ++ rest) ≡ some (a, rest)
  pub splits :
      (packet : List ℕ) (a : A) (rest : List ℕ)
      → All IsByte packet
      → read packet ≡ some (a, rest)
      → (packet ≡ write a ++ rest) × Fits a
  pub total : (packet : List ℕ) → size ≤ length packet → Reads read size packet
  pub length_write : (a : A) → Fits a → length (write a) ≡ size

unfoldable pub u8_codec : Codec ℕ read_u8 1
u8_codec = record {
  write = λ v. v ∷ [];
  Fits = λ v. v < 256;
  reads = λ v rest h. read_u8-cons v rest;
  splits = λ packet v rest bytes e. read_u8_split packet rest v bytes e;
  total = λ packet h. read_u8_total packet h;
  length_write = λ v h. refl;
}

unfoldable pub u16_codec : Codec ℕ read_u16 2
u16_codec = record {
  write = λ v. big_endian 2 v;
  Fits = λ v. v < 2 ^ 16;
  reads = λ v rest h. read_u16-big_endian v rest h;
  splits = λ packet v rest bytes e. read_u16_split packet rest v bytes e;
  total = λ packet h. read_u16_total packet h;
  length_write = λ v h. length-big_endian 2 v;
}

unfoldable pub u32_codec : Codec ℕ read_u32 4
u32_codec = record {
  write = λ v. big_endian 4 v;
  Fits = λ v. v < 2 ^ 32;
  reads = λ v rest h. read_u32-big_endian v rest h;
  splits = λ packet v rest bytes e. read_u32_split packet rest v bytes e;
  total = λ packet h. read_u32_total packet h;
  length_write = λ v h. length-big_endian 4 v;
}

-- The bytes that `read_n` reads.
abbrev pub IsBytes : ℕ → List ℕ → Type 0
IsBytes n xs = (length xs ≡ n) × All IsByte xs

pub read_n_split :
    (n : ℕ) (packet xs rest : List ℕ)
    → All IsByte packet
    → read_n n packet ≡ some (xs, rest)
    → (packet ≡ xs ++ rest) × IsBytes n xs
unfolding read_n
read_n_split zero packet [] rest bytes e = (ground arith, (refl, tt))
read_n_split zero packet (x ∷ xs) rest bytes e = absurd (ground arith)
read_n_split (suc n) [] xs rest bytes e = cc
read_n_split (suc n) (b ∷ packet) [] rest bytes e = absurd (ground arith)
read_n_split (suc n) (b ∷ packet) (x ∷ xs) rest bytes e = elim (Option-cases (read_n n packet)) [
  | inl nothing ↦ absurd (ground (arith, nothing))
  | inr ((ys, after), found) ↦
      let (split, sized) = read_n_split n packet ys after bytes.1 found in
      let first : b ≡ x = ground (arith, found) in
      let same : ys ≡ xs = ground (arith, found) in
      let tail : after ≡ rest = ground (arith, found) in
      (
        ap₂ ◌∷◌ first (split ∙ ap₂ ◌++◌ same tail),
        (
          ap suc (ap length (sym same) ∙ sized.0),
          (subst IsByte first bytes.0, subst (All IsByte) same sized.1),
        ),
      )
]

unfoldable pub bytes_codec : (n : ℕ) → Codec (List ℕ) (read_n n) n
bytes_codec n = record {
  write = λ xs. xs;
  Fits = IsBytes n;
  reads = λ xs rest h. read_n-append n xs rest h.0;
  splits = λ packet xs rest bytes e. read_n_split n packet xs rest bytes e;
  total = λ packet h. read_n_total n packet h;
  length_write = λ xs h. h.0;
}

pub done_split :
    {B : Type 0} (b c : B) (packet rest : List ℕ)
    → return b packet ≡ some (c, rest)
    → (packet ≡ rest) × (c ≡ b)
done_split b c packet rest e = (ground arith, ground arith)

-- Nothing more is read.
unfoldable pub done : {B : Type 0} (b : B) → Codec B (return b) 0
done b = record {
  write = λ _. [];
  Fits = λ c. c ≡ b;
  reads = λ c rest h. ap (λ x. some (x, rest)) (sym h);
  splits = λ packet c rest bytes e. done_split b c packet rest e;
  total = λ packet h. (b, packet, refl, omega arith);
  length_write = λ c h. refl;
}

no_read :
    {A B : Type 0} (f : A → Reader B) {o : Option (A × List ℕ)}
    → o ≡ none
    → elim o as (λ _. Option (B × List ℕ)) [ none ↦ none | some (a, rest) ↦ f a rest ] ≡ none
no_read {B} f e =
    ap (λ o. elim o as (λ _. Option (B × List ℕ)) [ none ↦ none | some (a, rest) ↦ f a rest ]) e

module _ {A B : Type 0} {r : Reader A} {f : A → Reader B} {m n : ℕ} (field : B → A)
    (c : Codec A r m) (later : (a : A) → Codec B (f a) n)
    (agrees : (a : A) (b : B) → (later a).Fits b → field b ≡ a) where
  pub splits_lem :
      (packet : List ℕ) (b : B) (rest : List ℕ)
      → All IsByte packet
      → (r >>= f) packet ≡ some (b, rest)
      → (packet ≡ (c.write (field b) ++ (later (field b)).write b) ++ rest)
        × (c.Fits (field b) × (later (field b)).Fits b)
  splits_lem packet b rest bytes e = elim (Option-cases (r packet)) [
    | inl nothing ↦ absurd (cc (sym (no_read f nothing) ∙ e))
    | inr ((a, middle), found) ↦
        let next : f a middle ≡ some (b, rest) = sym (then_reads f found refl) ∙ e in
        let (front, fits) = c.splits packet a middle bytes found in
        let (back, fits') =
          (later a).splits middle b rest (All-rest (c.write a) middle packet front bytes) next in
        subst
          (λ x. (packet ≡ (c.write x ++ (later x).write b) ++ rest) × (c.Fits x × (later x).Fits b))
          (sym (agrees a b fits'))
          (
            front
                ∙ ap (◌++◌ (c.write a)) back
                ∙ sym (append_assoc (c.write a) ((later a).write b) rest),
            (fits, fits'),
          )
  ]

  -- The field `field` is read first, and `later` reads what follows it.
  unfoldable pub then_field : Codec B (r >>= f) (m + n)
  then_field = record {
    write = λ b. c.write (field b) ++ (later (field b)).write b;
    Fits = λ b. c.Fits (field b) × (later (field b)).Fits b;
    reads = λ b rest h.
        rw append_assoc
          (then_reads f (c.reads (field b) _ h.0) ((later (field b)).reads b rest h.1));
    splits = splits_lem;
    total = λ packet h.
        let (a, middle, e, k) = c.total packet (omega arith) in
        let (b, rest, e', k') = (later a).total middle (omega arith) in
        (b, rest, then_reads f e e', omega arith);
    length_write = λ b h.
        length-append (c.write (field b)) _
        ∙ ap₂ ◌+◌ (c.length_write (field b) h.0) ((later (field b)).length_write b h.1);
  }
