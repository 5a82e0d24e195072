-- ===== src/Synchronization/Controller/Skew.antt =====
-- What `maximum_skew` of src/multi_device_sync.cpp says of the endpoints.
use distributed_audio_system.Float.{Float, Floats}
use distributed_audio_system.Prelude.{All, List, [], arith, inl, inr, refl, sym, ◌∷◌, ◌≡◌, ◌⊎◌}
use distributed_audio_system.Prelude.Int.{ℤ, ◌-ℤ◌, ◌≤ℤ◌}
use distributed_audio_system.Synchronization.{
  PlaybackEndpoint, larger_duration, smaller_duration, timing_error,
}
use distributed_audio_system.Synchronization.Controller.{extremes, maximum_skew}

≤ℤ_trans : (a b c : ℤ) → a ≤ℤ b → b ≤ℤ c → a ≤ℤ c
≤ℤ_trans a b c p q = omega arith

smaller_duration_le : (a b : ℤ) → (smaller_duration a b ≤ℤ a) × (smaller_duration a b ≤ℤ b)
smaller_duration_le a b = (ground arith, ground arith)

larger_duration_ge : (a b : ℤ) → (a ≤ℤ larger_duration a b) × (b ≤ℤ larger_duration a b)
larger_duration_ge a b = (ground arith, ground arith)

differences_le : (a b low high : ℤ) → a ≤ℤ high → low ≤ℤ b → a -ℤ b ≤ℤ high -ℤ low
unfolding ◌-ℤ◌
differences_le a b low high p q = ground arith

All-map {ℓ κ} :
    {A : Type ℓ} {P Q : A → Type κ} → ((a : A) → P a → Q a) → (xs : List A) → All P xs → All Q xs
All-map h [] ps = tt
All-map h (a ∷ xs) (p, ps) = (h a p, All-map h xs ps)

module _ {ℓ κ} {F : Type ℓ} {D : Type κ} ⦃f : Float F⦄ ⦃m : Floats D⦄ where
  -- Some endpoint of the list has the timing error.
  abbrev pub HasError : ℤ → List (PlaybackEndpoint F D) → ℤ → Type 0
  HasError reference_time [] error = ⊥
  HasError reference_time (e ∷ es) error =
      (timing_error e reference_time ≡ error) ⊎ HasError reference_time es error

  extremes-Within :
      (t : ℤ) (es : List (PlaybackEndpoint F D)) (low high : ℤ)
      → ((extremes t (low, high) es).0 ≤ℤ low)
        × (high ≤ℤ (extremes t (low, high) es).1)
        × All
            (λ e.
              ((extremes t (low, high) es).0 ≤ℤ timing_error e t)
              × (timing_error e t ≤ℤ (extremes t (low, high) es).1))
            es
  extremes-Within t [] low high = (omega arith, omega arith, tt)
  extremes-Within t (e ∷ es) low high =
      let error = timing_error e t in
      let small = smaller_duration_le low error in
      let large = larger_duration_ge high error in
      let (below, above, all) =
        extremes-Within t es (smaller_duration low error) (larger_duration high error) in
      (
        ≤ℤ_trans _ _ low below small.0,
        ≤ℤ_trans high _ _ large.0 above,
        ((≤ℤ_trans _ _ error below small.1, ≤ℤ_trans error _ _ large.1 above), all),
      )

  extremes-HasError :
      (t : ℤ) (es : List (PlaybackEndpoint F D)) (low high : ℤ)
      → (((extremes t (low, high) es).0 ≡ low) ⊎ HasError t es (extremes t (low, high) es).0)
        × (((extremes t (low, high) es).1 ≡ high) ⊎ HasError t es (extremes t (low, high) es).1)
  extremes-HasError t [] low high = (inl refl, inl refl)
  extremes-HasError t (e ∷ es) low high =
      let (small, large) =
        extremes-HasError t es (smaller_duration low (timing_error e t))
          (larger_duration high (timing_error e t)) in
      ground (arith, small, large)

  had :
      (e : PlaybackEndpoint F D) (es : List (PlaybackEndpoint F D)) (t : ℤ) {x : ℤ}
      → (x ≡ timing_error e t) ⊎ HasError t (e ∷ es) x
      → HasError t (e ∷ es) x
  had e es t (inl p) = inl (sym p)
  had e es t (inr p) = p

  -- For endpoints that are not null, the skew is at least the difference of the timing errors of
  -- any two of them, and it is the difference of the timing errors of two of them.
  pub maximum_skew-HasError :
      (e : PlaybackEndpoint F D) (es : List (PlaybackEndpoint F D)) (t : ℤ)
      → All
          (λ a. All (λ b. timing_error a t -ℤ timing_error b t ≤ℤ maximum_skew (e ∷ es) t) (e ∷ es))
          (e ∷ es)
        × ((high low : ℤ) × HasError t (e ∷ es) high
            × HasError t (e ∷ es) low
            × (maximum_skew (e ∷ es) t ≡ high -ℤ low))
  unfolding maximum_skew
  maximum_skew-HasError e es t =
      let first_error = timing_error e t in
      let (below, above, all) = extremes-Within t (e ∷ es) first_error first_error in
      let (small, large) = extremes-HasError t (e ∷ es) first_error first_error in
      (
        All-map (λ a p. All-map (λ b q. differences_le _ _ _ _ p.1 q.0) (e ∷ es) all) (e ∷ es) all,
        (_, _, had e es t large, had e es t small, refl),
      )
