-- ===== src/Clock/Estimator/Samples.antt =====
-- The samples that the estimator of src/clock_estimator.cpp takes and keeps.
use distributed_audio_system.Clock.Estimator.{
  ClockEstimator, Sample, add_sample, clock_estimator, empty_estimator, map_remote_to_local,
  recalculate, reset_estimator, with_sample,
}
use distributed_audio_system.Clock.Estimator.Recalculate.{recalculate-fields, recalculate_ready}
use distributed_audio_system.Float.{Floats}
use distributed_audio_system.Prelude.{
  Bool-cases, List, [], ap, arith, drop, false, if◌then◌else◌, inl, inr, length, length-append,
  length-drop, min, none, not, refl, some, subst, suc, sym, true, ℕ, ◌==◌, ◌||◌, ◌∙◌, ◌∷◌, ◌≡◌, ◌≢◌,
  ◌≤◌,
}
use distributed_audio_system.Prelude.Int.{ltb_ℤ, ℤ, ◌≤ℤ◌}

pub data Call : Type 0 where
  sampling : ℤ → ℤ → Call
  resetting : Call

-- The pairs of times that were taken since the last reset, the newest first.
abbrev pub Log : Type 0
Log = List (ℤ × ℤ)

-- No pair is behind an earlier one in either time.
abbrev pub Falling : Log → Type 0
Falling [] = Unit
Falling (x ∷ []) = Unit
Falling (x ∷ y ∷ rest) = (y.0 ≤ℤ x.0) × (y.1 ≤ℤ x.1) × Falling (y ∷ rest)

module _ {ℓ} {D : Type ℓ} ⦃m : Floats D⦄ where
  abbrev pub call : ClockEstimator D → Log → Call → ClockEstimator D × Log
  call e log (sampling remote local_) =
      let (after_, taken) = add_sample e remote local_ in
      (after_, if taken then (remote, local_) ∷ log else log)
  call e log resetting = (reset_estimator e, [])

  unfoldable pub calls : ClockEstimator D → Log → List Call → ClockEstimator D × Log
  calls e log [] = (e, log)
  calls e log (c ∷ cs) = let one = call e log c in calls one.0 one.1 cs

-- The last times are those of the newest pair.
abbrev pub Latest {ℓ} : {D : Type ℓ} → ClockEstimator D → Log → Type 0
Latest e [] = e.has_origin ≡ false
Latest e (x ∷ rest) = (e.has_origin ≡ true) × (e.last_remote ≡ x.0) × (e.last_local ≡ x.1)

pub record EstimatorInv {ℓ} {D : Type ℓ} (e : ClockEstimator D) (log : Log) : Type 0 where
  pub room : 1 ≤ e.maximum_samples
  pub kept : length e.samples ≡ min (length log) e.maximum_samples
  pub enough : e.estimate.ready ≡ true → 2 ≤ length e.samples
  pub latest : Latest e log
  pub falling : Falling log

module _ {ℓ} {D : Type ℓ} ⦃m : Floats D⦄ where
  length-with_sample :
      (e : ClockEstimator D) (log : Log) (x : ℤ × ℤ) (s : Sample D)
      → EstimatorInv e log
      → length (with_sample e s) ≡ min (length (x ∷ log)) e.maximum_samples
  length-with_sample e log x s v = elim (Bool-cases (length e.samples == e.maximum_samples)) [
    | inl all_kept ↦
        let most : length e.samples ≡ e.maximum_samples = ground (arith, all_kept) in
        rw all_kept (
          length-append (drop 1 e.samples) (s ∷ [])
          ∙ omega (arith, length-drop 1 e.samples, v.kept, v.room, most))
    | inr some_left ↦
        let fewer : length e.samples ≢ e.maximum_samples = ground (arith, some_left) in
        rw some_left (length-append e.samples (s ∷ []) ∙ omega (arith, v.kept, fewer))
  ]

  Falling-cons :
      (e : ClockEstimator D) (log : Log) (remote local_ : ℤ)
      → Latest e log
      → Falling log
      → (ltb_ℤ remote e.last_remote || ltb_ℤ local_ e.last_local) ≡ false
      → Falling ((remote, local_) ∷ log)
  Falling-cons e [] remote local_ h falls on = tt
  Falling-cons e (x ∷ rest) remote local_ h falls on =
      (ground (arith, h.1, on), ground (arith, h.2, on), falls)

  first_log : (e : ClockEstimator D) (log : Log) → Latest e log → e.has_origin ≡ false → log ≡ []
  first_log e [] h fresh = refl
  first_log e (x ∷ rest) h fresh = cc

  -- A sample that is taken after the first one.
  taken-Inv :
      (e : ClockEstimator D) (log : Log) (remote local_ : ℤ) (s : Sample D)
      → EstimatorInv e log
      → e.has_origin ≡ true
      → (ltb_ℤ remote e.last_remote || ltb_ℤ local_ e.last_local) ≡ false
      → let e' =
          recalculate
            (record e { samples = with_sample e s; last_remote = remote; last_local = local_ }) in
        EstimatorInv e' ((remote, local_) ∷ log) × (e'.maximum_samples ≡ e.maximum_samples)
  taken-Inv e log remote local_ s v started on =
      let base : ClockEstimator D = record e {
        samples = with_sample e s;
        last_remote = remote;
        last_local = local_;
      } in
      let fields = recalculate-fields base in
      let most : (recalculate base).maximum_samples ≡ e.maximum_samples =
        ap (λ (x : ClockEstimator D). x.maximum_samples) fields in
      let same : (recalculate base).samples ≡ with_sample e s =
        ap (λ (x : ClockEstimator D). x.samples) fields in
      (
        record {
          room = subst (λ n. 1 ≤ n) (sym most) v.room;
          kept =
              ap length same
              ∙ length-with_sample e log (remote, local_) s v
              ∙ ap (min (suc (length log))) (sym most);
          enough = λ r. subst (λ n. 2 ≤ n) (sym (ap length same)) (recalculate_ready base r);
          latest = (
            ap (λ (x : ClockEstimator D). x.has_origin) fields ∙ started,
            ap (λ (x : ClockEstimator D). x.last_remote) fields,
            ap (λ (x : ClockEstimator D). x.last_local) fields,
          );
          falling = Falling-cons e log remote local_ v.latest v.falling on;
        },
        most,
      )

  add_sample-Inv :
      (e : ClockEstimator D) (log : Log) (remote local_ : ℤ)
      → EstimatorInv e log
      → let one = call e log (sampling remote local_) in
        EstimatorInv one.0 one.1 × (one.0.maximum_samples ≡ e.maximum_samples)
  unfolding add_sample
  add_sample-Inv e log remote local_ v = elim (Bool-cases e.has_origin) [
    | inl started ↦ elim (Bool-cases (ltb_ℤ remote e.last_remote || ltb_ℤ local_ e.last_local)) [
      | inl back ↦
          let refused : add_sample e remote local_ ≡ (e, false) = rw (started, back) refl in
          rw refused (v, refl)
      | inr on ↦
          let remote_delta =
            m.double.minus (m.double.of_int remote) (m.double.of_int e.remote_origin) in
          let local_delta =
            m.double.minus (m.double.of_int local_) (m.double.of_int e.local_origin) in
          let s : Sample D = record { remote_delta = remote_delta; local_delta = local_delta } in
          elim (Bool-cases
            (not (m.double.is_finite remote_delta) || not (m.double.is_finite local_delta))) [
              | inl infinite ↦
                  let refused : add_sample e remote local_ ≡ (e, false) =
                    rw (started, on, infinite) refl in
                  rw refused (v, refl)
              | inr finite ↦
                  let taken : add_sample e remote local_ ≡ (
                    recalculate (record e {
                      samples = with_sample e s;
                      last_remote = remote;
                      last_local = local_;
                    }),
                    true,
                  ) =
                    rw (started, on, finite) refl in
                  rw taken (taken-Inv e log remote local_ s v started on)
            ]
    ]
    | inr fresh ↦
        let nothing = first_log e log v.latest fresh in
        let none_yet : length e.samples ≡ 0 = omega (arith, v.kept, ap length nothing) in
        simp fresh (
          record {
            room = v.room;
            kept = length-append e.samples _ ∙ omega (arith, none_yet, ap length nothing, v.room);
            enough = λ r. absurd cc;
            latest = (refl, refl, refl);
            falling = rw nothing tt;
          },
          refl,
        )
  ]

  call-Inv :
      (e : ClockEstimator D) (log : Log) (c : Call)
      → EstimatorInv e log
      → let one = call e log c in
        EstimatorInv one.0 one.1 × (one.0.maximum_samples ≡ e.maximum_samples)
  unfolding reset_estimator
  call-Inv e log (sampling remote local_) v = add_sample-Inv e log remote local_ v
  call-Inv e log resetting v = (
    record {
      room = v.room;
      kept = omega arith;
      enough = λ r. absurd cc;
      latest = refl;
      falling = tt;
    },
    refl,
  )

  pub calls-Inv :
      (e : ClockEstimator D) (log : Log) (cs : List Call)
      → EstimatorInv e log
      → let end = calls e log cs in
        EstimatorInv end.0 end.1 × (end.0.maximum_samples ≡ e.maximum_samples)
  unfolding calls
  calls-Inv e log [] v = (v, refl)
  calls-Inv e log (c ∷ cs) v =
      let (w, same) = call-Inv e log c v in
      let (z, rest) = calls-Inv (call e log c).0 (call e log c).1 cs w in (z, rest ∙ same)

  mapped_ready :
      (e : ClockEstimator D) (t l : ℤ) → map_remote_to_local e t ≡ some l → e.estimate.ready ≡ true
  unfolding map_remote_to_local
  mapped_ready e t l h = elim (Bool-cases e.estimate.ready) [
    | inl at_last ↦ at_last
    | inr unready ↦ let nothing : map_remote_to_local e t ≡ none = rw unready refl in absurd cc
  ]

  -- From the constructor on, whatever is sampled and whenever the estimator is reset: the pairs of times that it took
  -- since the last reset never go back, in either time; it keeps as many samples as it took, up to its maximum; and
  -- it maps a time only once it took two pairs. Nothing is asked of the floating-point types.
  pub estimator_calls :
      (n : ℕ) (e : ClockEstimator D) (cs : List Call)
      → clock_estimator n ≡ some e
      → let end = calls e [] cs in
        Falling end.1
        × (length end.0.samples ≡ min (length end.1) n)
        × ((t l : ℤ) → map_remote_to_local end.0 t ≡ some l → 2 ≤ length end.1)
  unfolding clock_estimator
  estimator_calls n e cs made =
      let positive : 1 ≤ n = ground (arith, made) in
      let fresh : e ≡ empty_estimator n = ground (arith, made) in
      let start : EstimatorInv e [] = rw fresh (record {
        room = positive;
        kept = omega arith;
        enough = λ r. absurd cc;
        latest = refl;
        falling = tt;
      }) in
      let (v, same) = calls-Inv e [] cs start in
      let most = same ∙ ap (λ (x : ClockEstimator D). x.maximum_samples) fresh in
      (
        v.falling,
        v.kept ∙ ap (min (length (calls e [] cs).1)) most,
        λ t l h. omega (arith, v.enough (mapped_ready _ t l h), v.kept),
      )
