-- ===== src/Synchronization/Controller/Bounds.antt =====
-- How far the corrections of `SynchronizationController::update` of src/multi_device_sync.cpp move an endpoint.
use distributed_audio_system.Float.{Float, Floats}
use distributed_audio_system.Prelude.{
  Bool-cases, List, Option, [], arith, false, inl, inr, length, none, refl, some, subst, suc, sym,
  true, ℕ, ◌*◌, ◌+◌, ◌∙◌, ◌∷◌, ◌≡◌,
}
use distributed_audio_system.Prelude.Int.{pos, pos_part, ℤ, ◌+ℤ◌, ◌-ℤ◌, ◌≤ℤ◌}
use distributed_audio_system.Synchronization.{
  EndpointMetrics, PlaybackEndpoint, apply_correction, is_stopped_endpoint, is_stopped_state,
  larger_duration, magnitude_of, timing_error,
}
use distributed_audio_system.Synchronization.Controller.{
  SynchronizationController, SynchronizationParameters, clamp_duration, correct, correction_for,
  judged, synchronization_controller, update_endpoints, update_one,
}

pub data Pointwise {ℓ κ} {A : Type ℓ} (R : A → A → Type κ) : List A → List A → Type (ℓ ⊔ κ) where
  no_pairs : Pointwise R [] []
  one_pair : {a b : A} {xs ys : List A} → R a b → Pointwise R xs ys → Pointwise R (a ∷ xs) (b ∷ ys)

clamp_duration_le :
    (value limit : ℤ) → pos 1 ≤ℤ limit → magnitude_of (clamp_duration value limit) ≤ℤ limit
unfolding ◌-ℤ◌
clamp_duration_le value limit h = ground arith

magnitude_of_sub :
    (a b c : ℤ) (m n : ℕ)
    → magnitude_of (a -ℤ b) ≤ℤ pos m
    → magnitude_of (c -ℤ a) ≤ℤ pos n
    → magnitude_of (c -ℤ b) ≤ℤ pos (m + n)
unfolding ◌-ℤ◌
magnitude_of_sub a b c m n p q = ground arith

sum_moves : (a b : ℤ) → a +ℤ b -ℤ a ≡ b
unfolding ◌+ℤ◌ ◌-ℤ◌
sum_moves a b = ground arith

larger_duration_ge : (x a b : ℤ) → x ≡ larger_duration a b → (a ≤ℤ x) × (b ≤ℤ x)
larger_duration_ge x a b eq = (ground arith, ground arith)

magnitude_le_part : (a b : ℤ) → magnitude_of a ≤ℤ b → magnitude_of a ≤ℤ pos (pos_part b)
magnitude_le_part a b h = ground arith

one_move :
    (a b limit : ℤ) → magnitude_of b ≤ℤ limit → magnitude_of (a +ℤ b -ℤ a) ≤ℤ pos (pos_part limit)
one_move a b limit h = rw (sum_moves a b) (magnitude_le_part b limit h)

sum_of_moves : (k n : ℕ) → n + k * n ≡ suc k * n
sum_of_moves k n = grind arith

no_move : (a : ℤ) (n : ℕ) → magnitude_of (a -ℤ a) ≤ℤ pos n
unfolding ◌-ℤ◌
no_move a n = ground arith

module _ {κ} {D : Type κ} ⦃m : Floats D⦄ where
  -- The constructor keeps its parameters and asks for a correction that is not zero.
  controller_positive :
      (p : SynchronizationParameters D) (c : SynchronizationController D)
      → synchronization_controller p ≡ some c
      → (c.parameters ≡ p) × (pos 1 ≤ℤ c.parameters.maximum_correction)
  unfolding synchronization_controller
  controller_positive p c eq = ground arith

  judged_not_stopped :
      (c : SynchronizationController D) (metrics : EndpointMetrics D) (error remaining : ℤ)
      → is_stopped_state (judged c metrics error remaining).state ≡ false
  judged_not_stopped c metrics error remaining = ground arith

  judged_keeps :
      (c : SynchronizationController D) (metrics : EndpointMetrics D) (error remaining : ℤ)
      → (judged c metrics error remaining).maximum_applied_correction
        ≡ metrics.maximum_applied_correction
  judged_keeps c metrics error remaining = ground arith

module _ {ℓ κ} {F : Type ℓ} {D : Type κ} ⦃f : Float F⦄ ⦃m : Floats D⦄ where
  -- What the corrections of a number of updates leave of an endpoint.
  abbrev pub Steered : ℕ → PlaybackEndpoint F D → PlaybackEndpoint F D → Type (ℓ ⊔ κ)
  Steered moves e e' =
      (is_stopped_endpoint e ≡ true → e' ≡ e)
      × (is_stopped_endpoint e' ≡ is_stopped_endpoint e)
      × (magnitude_of (e'.correction -ℤ e.correction) ≤ℤ pos moves)
      × (e.metrics.maximum_applied_correction ≤ℤ e'.metrics.maximum_applied_correction)
      × (magnitude_of e.correction ≤ℤ e.metrics.maximum_applied_correction
          → magnitude_of e'.correction ≤ℤ e'.metrics.maximum_applied_correction)

  -- The same of a pointer, which stays null or stays the endpoint's.
  abbrev pub SteeredPointer :
      ℕ → Option (PlaybackEndpoint F D) → Option (PlaybackEndpoint F D) → Type (ℓ ⊔ κ)
  SteeredPointer moves o o' =
      (o ≡ none → o' ≡ none)
      × ((e : PlaybackEndpoint F D)
          → o ≡ some e
          → (e' : PlaybackEndpoint F D) × (o' ≡ some e') × Steered moves e e')

  Steered-refl : (n : ℕ) (e : PlaybackEndpoint F D) → Steered n e e
  Steered-refl n e = (λ _. refl, refl, no_move e.correction n, omega arith, λ h. h)

  Steered-trans :
      (k n : ℕ) (a b c : PlaybackEndpoint F D) → Steered k a b → Steered n b c → Steered (k + n) a c
  Steered-trans k n a b c (stay, same, moved, grown, capped)
        (stay', same', moved', grown', capped') =
      (
        (λ stopped. stay' (same ∙ stopped) ∙ stay stopped),
        same' ∙ same,
        magnitude_of_sub b.correction a.correction c.correction k n moved moved',
        omega (arith, grown, grown'),
        λ h. capped' (capped h),
      )

  correct-Steered :
      (c : SynchronizationController D) (t : ℤ) (e : PlaybackEndpoint F D)
      → pos 1 ≤ℤ c.parameters.maximum_correction
      → is_stopped_endpoint e ≡ false
      → Steered (pos_part c.parameters.maximum_correction) e (correct c t e)
  unfolding correct apply_correction
  correct-Steered c t e positive running =
      let error = timing_error e t in
      let correction = correction_for c.parameters error in
      let corrected = apply_correction e correction in
      let remaining = timing_error corrected t in
      let larger =
        larger_duration_ge _ e.metrics.maximum_applied_correction
          (magnitude_of (e.correction +ℤ correction))
          (judged_keeps c corrected.metrics error remaining) in
      (
        (λ stopped. absurd cc),
        judged_not_stopped c corrected.metrics error remaining ∙ sym running,
        one_move e.correction correction c.parameters.maximum_correction (search clamp_duration_le),
        larger.0,
        λ _. larger.1,
      )

  pointer-Steered :
      (n : ℕ) (o' : Option (PlaybackEndpoint F D)) (e e' : PlaybackEndpoint F D)
      → o' ≡ some e'
      → Steered n e e'
      → SteeredPointer n (some e) o'
  pointer-Steered n o' e e' eq steered =
      ((λ eq. absurd cc), λ e0 eq0. (e', eq, subst (λ x. Steered n x e') (cc) steered))

  SteeredPointer-trans :
      (k n : ℕ) (a b c : Option (PlaybackEndpoint F D))
      → SteeredPointer k a b
      → SteeredPointer n b c
      → SteeredPointer (k + n) a c
  SteeredPointer-trans k n a b c (null, kept) (null', kept') = (
    (λ eq. null' (null eq)),
    λ e eq.
        let (e1, eq1, steered1) = kept e eq in
        let (e2, eq2, steered2) = kept' e1 eq1 in
        (e2, eq2, Steered-trans k n e e1 e2 steered1 steered2),
  )

  update_one-SteeredPointer :
      (c : SynchronizationController D) (t : ℤ) (o : Option (PlaybackEndpoint F D))
      → pos 1 ≤ℤ c.parameters.maximum_correction
      → SteeredPointer (pos_part c.parameters.maximum_correction) o (update_one c t o)
  update_one-SteeredPointer c t none positive = (λ _. refl, λ e eq. absurd cc)
  update_one-SteeredPointer c t (some e) positive =
      let limit = pos_part c.parameters.maximum_correction in
      elim (Bool-cases (is_stopped_endpoint e)) [
        | inl idle ↦
            pointer-Steered limit (update_one c t (some e)) e e (rw idle refl)
              (Steered-refl limit e)
        | inr running ↦
            pointer-Steered limit (update_one c t (some e)) e (correct c t e) (rw running refl)
              (correct-Steered c t e positive running)
      ]

  -- The same of every pointer of a list.
  abbrev pub AllSteered :
      ℕ → List (Option (PlaybackEndpoint F D)) → List (Option (PlaybackEndpoint F D)) → Type (ℓ ⊔ κ)
  AllSteered moves = Pointwise (SteeredPointer moves)

  -- `update` at each of some times.
  abbrev pub updates :
      SynchronizationController D
      → List (Option (PlaybackEndpoint F D))
      → List ℤ
      → SynchronizationController D × List (Option (PlaybackEndpoint F D))
  updates c es [] = (c, es)
  updates c es (t ∷ ts) = let (later, moved) = update_endpoints c es t in updates later moved ts

  AllSteered-refl : (n : ℕ) (es : List (Option (PlaybackEndpoint F D))) → AllSteered n es es
  AllSteered-refl n [] = no_pairs
  AllSteered-refl n (o ∷ es) =
      one_pair ((λ eq. eq), λ e eq. (e, eq, Steered-refl n e)) (AllSteered-refl n es)

  update_endpoints-AllSteered :
      (c : SynchronizationController D) (t : ℤ) (es : List (Option (PlaybackEndpoint F D)))
      → pos 1 ≤ℤ c.parameters.maximum_correction
      → AllSteered (pos_part c.parameters.maximum_correction) es (update_endpoints c es t).1
  unfolding update_endpoints
  update_endpoints-AllSteered c t [] positive = no_pairs
  update_endpoints-AllSteered c t (o ∷ es) positive =
      one_pair (update_one-SteeredPointer c t o positive)
        (update_endpoints-AllSteered c t es positive)

  AllSteered-trans :
      (k n : ℕ) (xs ys zs : List (Option (PlaybackEndpoint F D)))
      → AllSteered k xs ys
      → AllSteered n ys zs
      → AllSteered (k + n) xs zs
  AllSteered-trans k n _ _ _ no_pairs no_pairs = no_pairs
  AllSteered-trans k n _ _ _ (one_pair p ps) (one_pair q qs) =
      one_pair (SteeredPointer-trans k n _ _ _ p q) (AllSteered-trans k n _ _ _ ps qs)

  updates_steer :
      (c : SynchronizationController D) (es : List (Option (PlaybackEndpoint F D))) (ts : List ℤ)
      → pos 1 ≤ℤ c.parameters.maximum_correction
      → AllSteered (length ts * pos_part c.parameters.maximum_correction) es (updates c es ts).1
  unfolding update_endpoints
  updates_steer c es [] positive = AllSteered-refl _ es
  updates_steer c es (t ∷ ts) positive =
      let (later, moved) = update_endpoints c es t in
      subst (λ n. AllSteered n es (updates later moved ts).1) (sum_of_moves (length ts) _)
        (AllSteered-trans _ _ es moved _ (update_endpoints-AllSteered c t es positive)
          (updates_steer later moved ts positive))

  -- After `update` of a controller that was built, at each of some times, a null pointer is null,
  -- an endpoint that was stopped is as it was, one that was not is not stopped, the correction of
  -- each has moved by at most the number of times the maximum correction of the parameters, and
  -- its maximum applied correction has not fallen and bounds the correction if it did so before.
  pub updates-AllSteered :
      (p : SynchronizationParameters D) (c : SynchronizationController D)
      → synchronization_controller p ≡ some c
      → (es : List (Option (PlaybackEndpoint F D))) (ts : List ℤ)
      → AllSteered (length ts * pos_part p.maximum_correction) es (updates c es ts).1
  updates-AllSteered p c built es ts =
      let (same, positive) = controller_positive p c built in
      subst (λ q. AllSteered (length ts * pos_part q.maximum_correction) es (updates c es ts).1)
        same (updates_steer c es ts positive)
