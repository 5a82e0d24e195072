-- ===== src/Discovery/Registry/Invariant.antt =====
-- The invariant of DeviceRegistry (src/device_discovery.cpp) under its operations.
use distributed_audio_system.Discovery.Device.{DeviceInfo}
use distributed_audio_system.Discovery.Registry.{DeviceRegistry, expire, observe, remove, seen}
use distributed_audio_system.Discovery.Registry.Laws.{
  Filed, RegistryInv, fresh_entries-All, fresh_entries-Distinct,
}
use distributed_audio_system.Identity.{DeviceId, device_eq, device_eq_iff, device_key, device_valid}
use distributed_audio_system.Prelude.{
  Bool-cases, Option-cases, ap, inl, inr, none, refl, sym, true, ◌∙◌, ◌≡◌,
}
use distributed_audio_system.Prelude.Int.{ℤ}
use distributed_audio_system.Prelude.Map.{
  All-assign, All-erase, All-place, Distinct-assign, Distinct-erase, Distinct-place, emplace, find,
}

emplace-RegistryInv :
    (r : DeviceRegistry) (info : DeviceInfo) (now : ℤ)
    → RegistryInv r
    → device_valid info.id ≡ true
    → find info.id r.entries ≡ none
    → RegistryInv (record r { entries = emplace info.id (seen info now) r.entries })
unfolding emplace
emplace-RegistryInv r info now v good absent =
    rw (absent, emplace)
      (record {
        distinct = Distinct-place info.id (seen info now) r.entries absent v.distinct;
        filed = All-place Filed info.id (seen info now) r.entries (refl, good) v.filed;
      })

pub observe-RegistryInv :
    (r : DeviceRegistry) (info : DeviceInfo) (now : ℤ)
    → RegistryInv r
    → RegistryInv (observe r info now).0
unfolding observe
observe-RegistryInv r info now v = elim (Bool-cases (device_valid info.id)) [
  | inr bad ↦ rw (bad, observe) v
  | inl good ↦ elim (Option-cases (find info.id r.entries)) [
    | inl absent ↦ rw (good, absent, observe) (emplace-RegistryInv r info now v good absent)
    | inr (e, present) ↦
        rw (good, present, observe)
          (record {
            distinct = Distinct-assign info.id (seen info now) r.entries v.distinct;
            filed =
                All-assign Filed info.id (seen info now) r.entries
                  (λ (j : DeviceId) (same : device_eq j info.id ≡ true).
                    let k : j ≡ info.id = (device_eq_iff j info.id).0 same in
                    (sym k, ap device_valid k ∙ good))
                  v.filed;
          })
  ]
]

pub remove-RegistryInv :
    (r : DeviceRegistry) (id : DeviceId) → RegistryInv r → RegistryInv (remove r id).0
unfolding remove
remove-RegistryInv r id v = record {
  distinct = Distinct-erase id r.entries v.distinct;
  filed = All-erase Filed id r.entries v.filed;
}

pub expire-RegistryInv :
    (r : DeviceRegistry) (now : ℤ) → RegistryInv r → RegistryInv (expire r now).0
unfolding expire
expire-RegistryInv r now v = record {
  distinct = fresh_entries-Distinct r.stale_timeout now r.entries v.distinct;
  filed = fresh_entries-All r.stale_timeout now r.entries v.filed;
}
