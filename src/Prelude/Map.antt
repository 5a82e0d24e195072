-- ===== src/Prelude/Map.antt =====
-- std::map as the list of its entries in the order of their keys.
use Prim.Native.Nat.{ℕ, suc}
use mathlib.Core.Path.{◌≡◌, refl, sym, ap, ◌∙◌, subst₂}
use mathlib.Core.Logic.{◌↔◌, inl, inr}
use mathlib.Core.Bool.{Bool, true, false}
use mathlib.Core.List.{List, [], ◌∷◌}
use mathlib.Core.Option.{Option, none, some}
use native.Mathlib.Omega.{arith}
use distributed_audio_system.Prelude.Tests.{
  ltb, ◌==◌, ==_iff, if◌then◌else◌, Bool-cases, Option-cases,
}
use distributed_audio_system.Prelude.Lists.{length, All}

-- A key's `operator==` and `operator<`.
pub record Key {ℓ} (K : Type ℓ) : Type ℓ where
  pub beq : K → K → Bool
  pub less : K → K → Bool
  pub beq_iff : (a b : K) → (beq a b ≡ true) ↔ (a ≡ b)

instance abbrev pub nat_key : Key ℕ
nat_key = record { beq = ◌==◌; less = ltb; beq_iff = ==_iff }

abbrev pub Map {ℓ κ} : Type ℓ → Type κ → Type (ℓ ⊔ κ)
Map K V = List (K × V)

module _ {ℓ κ} {K : Type ℓ} {V : Type κ} ⦃key : Key K⦄ where
  unfoldable pub find : K → Map K V → Option V
  find k [] = none
  find k ((j, v) ∷ m) = if key.beq j k then some v else find k m

  -- A new entry goes before the first key that is greater.
  unfoldable pub place : K → V → Map K V → Map K V
  place k v [] = (k, v) ∷ []
  place k v ((j, w) ∷ m) = if key.less k j then (k, v) ∷ (j, w) ∷ m else (j, w) ∷ place k v m

  -- `emplace` leaves the map alone where the key is present.
  unfoldable pub emplace : K → V → Map K V → Map K V
  emplace k v m = elim (find k m) [ none ↦ place k v m | some _ ↦ m ]

  unfoldable pub erase : K → Map K V → Map K V
  erase k [] = []
  erase k ((j, v) ∷ m) = if key.beq j k then m else (j, v) ∷ erase k m

  -- A write through an iterator that `find` returned.
  unfoldable pub assign : K → V → Map K V → Map K V
  assign k v [] = []
  assign k v ((j, w) ∷ m) = if key.beq j k then (j, v) ∷ m else (j, w) ∷ assign k v m

  -- No key has two entries.
  abbrev pub Distinct : Map K V → Type κ
  Distinct [] = Unit {κ}
  Distinct ((k, v) ∷ m) = (find k m ≡ none) × Distinct m

  pub find-place :
      (k j : K) (v : V) (m : Map K V)
      → find k m ≡ none
      → find j (place k v m) ≡ (if key.beq k j then some v else find j m)
  unfolding find place
  find-place k j v [] h = refl
  find-place k j v ((i, w) ∷ m) h =
      ground (arith, key.beq_iff i j, key.beq_iff k j, key.beq_iff i k, find-place k j v m)

  pub length-place : (k : K) (v : V) (m : Map K V) → length (place k v m) ≡ suc (length m)
  unfolding place
  length-place k v [] = refl
  length-place k v ((j, w) ∷ m) = ground (arith, length-place k v m)

  pub length-erase :
      (k : K) (m : Map K V) (v : V) → find k m ≡ some v → suc (length (erase k m)) ≡ length m
  unfolding find erase
  length-erase k [] v h = cc
  length-erase k ((j, w) ∷ m) v h = ground (arith, length-erase k m v)

  pub length-assign : (k : K) (v : V) (m : Map K V) → length (assign k v m) ≡ length m
  unfolding assign
  length-assign k v [] = refl
  length-assign k v ((j, w) ∷ m) = ground (arith, length-assign k v m)

  pub find-erase_ne : (k j : K) (m : Map K V) → key.beq k j ≡ false → find j (erase k m) ≡ find j m
  unfolding find erase
  find-erase_ne k j [] h = refl
  find-erase_ne k j ((i, w) ∷ m) h =
      ground (arith, key.beq_iff i j, key.beq_iff k j, key.beq_iff i k, find-erase_ne k j m h)

  pub find-erase-none : (k j : K) (m : Map K V) → find j m ≡ none → find j (erase k m) ≡ none
  unfolding find erase
  find-erase-none k j [] h = refl
  find-erase-none k j ((i, w) ∷ m) h = ground (arith, find-erase-none k j m)

  pub find-erase_self : (k : K) (m : Map K V) → Distinct m → find k (erase k m) ≡ none
  unfolding find erase
  find-erase_self k [] d = refl
  find-erase_self k ((i, w) ∷ m) d = ground (arith, key.beq_iff i k, find-erase_self k m d.1)

  pub find-assign :
      (k j : K) (v : V) (m : Map K V) (w : V)
      → find k m ≡ some w
      → find j (assign k v m) ≡ (if key.beq k j then some v else find j m)
  unfolding find assign
  find-assign k j v [] u h = cc
  find-assign k j v ((i, w) ∷ m) u h =
      ground (arith, key.beq_iff i j, key.beq_iff k j, key.beq_iff i k, find-assign k j v m u)

  pub find-assign-none :
      (k j : K) (v : V) (m : Map K V) → find j m ≡ none → find j (assign k v m) ≡ none
  unfolding find assign
  find-assign-none k j v [] h = refl
  find-assign-none k j v ((i, w) ∷ m) h = ground (arith, find-assign-none k j v m)

  pub find-emplace_kept :
      (k j : K) (v w : V) (m : Map K V) → find j m ≡ some w → find j (emplace k v m) ≡ some w
  unfolding emplace
  find-emplace_kept k j v w m h = elim (Option-cases (find k m)) [
    | inl absent ↦ elim (Bool-cases (key.beq k j)) [
      | inl same ↦
          let both : none ≡ some w =
            sym absent ∙ ap (λ x. find x m) ((key.beq_iff k j).0 same) ∙ h in
          absurd (cc both)
      | inr other ↦ ground (arith, absent, find-place k j v m absent, other)
    ]
    | inr (u, present) ↦ ground (arith, present)
  ]

  pub find-emplace_new :
      (k j : K) (v : V) (m : Map K V)
      → find k m ≡ none
      → find j (emplace k v m) ≡ (if key.beq k j then some v else find j m)
  unfolding emplace
  find-emplace_new k j v m absent = ground (arith, absent, find-place k j v m absent)

  pub Distinct-place :
      (k : K) (v : V) (m : Map K V) → find k m ≡ none → Distinct m → Distinct (place k v m)
  unfolding find place
  Distinct-place k v [] h d = (refl, tt)
  Distinct-place k v ((j, w) ∷ m) h d =
      ground (arith, key.beq_iff j k, key.beq_iff k j, Distinct-place k v m, find-place k j v m)

  pub Distinct-erase : (k : K) (m : Map K V) → Distinct m → Distinct (erase k m)
  unfolding erase
  Distinct-erase k [] d = tt
  Distinct-erase k ((j, w) ∷ m) d = ground (arith, Distinct-erase k m d.1, find-erase-none k j m)

  pub Distinct-assign : (k : K) (v : V) (m : Map K V) → Distinct m → Distinct (assign k v m)
  unfolding assign
  Distinct-assign k v [] d = tt
  Distinct-assign k v ((j, w) ∷ m) d =
      ground (arith, Distinct-assign k v m d.1, find-assign-none k j v m)

module _ {ℓ κ μ} {K : Type ℓ} {V : Type κ} ⦃key : Key K⦄ (P : K × V → Type μ) where
  pub All-find : (k : K) (m : Map K V) {v : V} → All P m → find k m ≡ some v → P (k, v)
  unfolding find
  All-find k [] a h = cc
  All-find k ((j, w) ∷ m) {v} a h = elim (Bool-cases (key.beq j k)) [
    | inl e ↦
        let p : j ≡ k = (key.beq_iff j k).0 e in
        let q : w ≡ v = ground arith in subst₂ (λ x y. P (x, y)) p q a.0
    | inr e ↦ All-find k m a.1 (ground arith)
  ]

  pub All-place : (k : K) (v : V) (m : Map K V) → P (k, v) → All P m → All P (place k v m)
  unfolding place
  All-place k v [] p a = (p, tt)
  All-place k v ((j, w) ∷ m) p a = elim (Bool-cases (key.less k j)) [
    | inl e ↦ rw e (p, (a.0, a.1))
    | inr e ↦ rw e (a.0, All-place k v m p a.1)
  ]

  pub All-assign :
      (k : K) (v : V) (m : Map K V)
      → ((j : K) → key.beq j k ≡ true → P (j, v))
      → All P m
      → All P (assign k v m)
  unfolding assign
  All-assign k v [] p a = tt
  All-assign k v ((j, w) ∷ m) p a = elim (Bool-cases (key.beq j k)) [
    | inl e ↦ rw e (p j e, a.1)
    | inr e ↦ rw e (a.0, All-assign k v m p a.1)
  ]

  pub All-erase : (k : K) (m : Map K V) → All P m → All P (erase k m)
  unfolding erase
  All-erase k [] a = tt
  All-erase k ((j, w) ∷ m) a = elim (Bool-cases (key.beq j k)) [
    | inl e ↦ rw e a.1
    | inr e ↦ rw e (a.0, All-erase k m a.1)
  ]

module _ {ℓ κ μ ν} {K : Type ℓ} {V : Type κ} ⦃key : Key K⦄ (P : K × V → Type μ)
    (Q : K × V → Type ν) where
  -- A step from `P` to `Q` for the keys other than an absent one.
  pub All-other :
      (k : K) (m : Map K V)
      → find k m ≡ none
      → ((e : K × V) → key.beq e.0 k ≡ false → P e → Q e)
      → All P m
      → All Q m
  unfolding find
  All-other k [] h step a = tt
  All-other k ((j, w) ∷ m) h step a = elim (Bool-cases (key.beq j k)) [
    | inl e ↦ absurd (ground (arith, e))
    | inr e ↦ (step (j, w) e a.0, All-other k m (ground (arith, e)) step a.1)
  ]
