-- ===== src/Discovery/Message/Bounds.antt =====
-- The reads of strings and lists in a discovery message, and the end of the packet.
use distributed_audio_system.Bytes.{Reader, read_u16, read_u32}
use distributed_audio_system.Bytes.Reads.{Reads, read_n_total, read_u16_total, read_u32_total}
use distributed_audio_system.Discovery.Message.{
  discovery_max_address_length, discovery_max_capabilities, discovery_max_name_length,
}
use distributed_audio_system.Discovery.Message.Read.{
  Outcome, out_of_bounds, read_capabilities, read_lists, read_string, read_strings, read_values,
  refused, taken, taken_from, unless, ◌>>=◌,
}
use distributed_audio_system.Prelude.{
  Bool, List, Option, arith, false, length, ltb, not, refl, some, suc, true, zero, ℕ, ◌==◌, ◌||◌,
  ◌≡◌, ◌≤◌,
}

-- No read was out of bounds.
abbrev pub in_bounds : {A : Type 0} → Outcome A → Bool
in_bounds out_of_bounds = false
in_bounds refused = true
in_bounds (taken a rest) = true

module _ {A : Type 0} where
  unless-in_bounds :
      (test : Bool) (o : Outcome A)
      → (test ≡ false → in_bounds o ≡ true)
      → in_bounds (unless test o) ≡ true
  unless-in_bounds true o h = refl
  unless-in_bounds false o h = h refl

  bind-in_bounds :
      {B : Type 0} (o : Outcome A) (f : A → List ℕ → Outcome B)
      → in_bounds o ≡ true
      → ((a : A) (rest : List ℕ) → o ≡ taken a rest → in_bounds (f a rest) ≡ true)
      → in_bounds (o >>= f) ≡ true
  bind-in_bounds out_of_bounds f h k = h
  bind-in_bounds refused f h k = refl
  bind-in_bounds (taken a rest) f h k = k a rest refl

  -- A read of at most what is there.
  taken_from-in_bounds :
      (o : Option (A × List ℕ)) (v : A) (rest : List ℕ)
      → o ≡ some (v, rest)
      → in_bounds (taken_from o) ≡ true
  taken_from-in_bounds o v rest e = rw e refl

pub read_u16-in_bounds :
    (rest : List ℕ) → 2 ≤ length rest → in_bounds (taken_from (read_u16 rest)) ≡ true
read_u16-in_bounds rest h =
    let (v, after, e, n) = read_u16_total rest h in taken_from-in_bounds _ v after e

read_string-in_bounds : (limit : ℕ) (rest : List ℕ) → in_bounds (read_string limit rest) ≡ true
unfolding read_string
read_string-in_bounds limit rest = unless-in_bounds (ltb (length rest) 2) _ (λ long.
    bind-in_bounds (taken_from (read_u16 rest)) _ (read_u16-in_bounds rest (ground arith))
      (λ size after e. unless-in_bounds (ltb limit size || ltb (length after) size) _ (λ fits.
        let (v, more, found, n) = read_n_total size after (ground arith) in
        taken_from-in_bounds _ v more found)))

-- A reader of `size` bytes.
abbrev Total : Reader ℕ → ℕ → Type 0
Total reader size = (rest : List ℕ) → size ≤ length rest → Reads reader size rest

read_values-in_bounds :
    (reader : Reader ℕ) (size count : ℕ) (rest : List ℕ)
    → Total reader size
    → in_bounds (read_values reader size count rest) ≡ true
unfolding read_values
read_values-in_bounds reader size zero rest t = refl
read_values-in_bounds reader size (suc count) rest t =
    unless-in_bounds (ltb (length rest) size) _ (λ long.
      bind-in_bounds (taken_from (reader rest)) _
        (let (v, after, e, n) = t rest (ground arith) in taken_from-in_bounds _ v after e)
        (λ v after e.
          bind-in_bounds (read_values reader size count after) _
            (read_values-in_bounds reader size count after t) (λ values more f. refl)))

read_capabilities-in_bounds :
    (reader : Reader ℕ) (size : ℕ) (rest : List ℕ)
    → Total reader size
    → in_bounds (read_capabilities reader size rest) ≡ true
unfolding read_capabilities
read_capabilities-in_bounds reader size rest t = unless-in_bounds (ltb (length rest) 2) _ (λ long.
    bind-in_bounds (taken_from (read_u16 rest)) _ (read_u16-in_bounds rest (ground arith))
      (λ count after e.
        unless-in_bounds (count == 0 || ltb discovery_max_capabilities count) _
          (λ fits. read_values-in_bounds reader size count after t)))

pub read_lists-in_bounds : (rest : List ℕ) → in_bounds (read_lists rest) ≡ true
unfolding read_lists
read_lists-in_bounds rest =
    bind-in_bounds (read_capabilities read_u32 4 rest) _
      (read_capabilities-in_bounds read_u32 4 rest read_u32_total)
      (λ rates rest e.
        bind-in_bounds (read_capabilities read_u16 2 rest) _
          (read_capabilities-in_bounds read_u16 2 rest read_u16_total)
          (λ channels rest e.
            bind-in_bounds (read_capabilities read_u16 2 rest) _
              (read_capabilities-in_bounds read_u16 2 rest read_u16_total)
              (λ bits rest e. unless-in_bounds (not (length rest == 0)) _ (λ h. refl))))

-- The two strings leave at least eight bytes.
pub read_strings-in_bounds : (rest : List ℕ) → in_bounds (read_strings rest) ≡ true
unfolding read_strings
read_strings-in_bounds rest =
    bind-in_bounds (read_string discovery_max_name_length rest) _ (read_string-in_bounds _ rest)
      (λ name rest e. unless-in_bounds (length name == 0) _ (λ h.
        bind-in_bounds (read_string discovery_max_address_length rest) _
          (read_string-in_bounds _ rest)
          (λ address rest e. unless-in_bounds (ltb (length rest) 8) _ (λ h. refl))))
