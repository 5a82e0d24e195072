-- ===== src/Discovery/Registry/Laws.antt =====
-- The registry as a partial function from devices to entries.
use distributed_audio_system.Discovery.Device.{DeviceInfo}
use distributed_audio_system.Discovery.Registry.{
  DeviceRegistry, RegistryEntry, count_stale, expire, fresh_entries, is_stale, lookup, observe,
  remove, seen, size,
}
use distributed_audio_system.Identity.{DeviceId, device_eq, device_eq_iff, device_key, device_valid}
use distributed_audio_system.Prelude.{
  All, Bool-cases, Option, Option-cases, [], ap, arith, has_value, if◌then◌else◌, inl, inr, length,
  none, not, refl, some, sym, true, ◌&&◌, ◌+◌, ◌∙◌, ◌∷◌, ◌≡◌,
}
use distributed_audio_system.Prelude.Int.{ℤ}
use distributed_audio_system.Prelude.Map.{
  Distinct, Map, erase, find, find-assign, find-emplace_new, find-erase_ne, find-erase_self,
}

-- An entry is filed under the identity of its device, which is valid.
abbrev pub Filed : DeviceId × RegistryEntry → Type 0
Filed (id, e) = (e.info.id ≡ id) × (device_valid id ≡ true)

-- A device is filed once, under its own identity.
pub record RegistryInv (r : DeviceRegistry) : Type 0 where
  pub distinct : Distinct r.entries
  pub filed : All Filed r.entries

-- After `observe` the device is known by what it said last, if its identity is valid; nothing else has
-- changed. The answer says whether it was unknown before.
pub observe-lookup :
    (r : DeviceRegistry) (info : DeviceInfo) (now : ℤ) (id : DeviceId)
    → (lookup (observe r info now).0 id ≡ (
        if device_valid info.id && device_eq info.id id then some (seen info now) else lookup r id))
      × ((observe r info now).1 ≡ (device_valid info.id && not (has_value (lookup r info.id))))
unfolding observe lookup
observe-lookup r info now id = elim (Option-cases (find info.id r.entries)) [
  | inl absent ↦
      let placed = find-emplace_new info.id id (seen info now) r.entries absent in
      (ground (arith, absent, placed), ground (arith, absent))
  | inr (e, present) ↦
      let assigned = find-assign info.id id (seen info now) r.entries e present in
      (ground (arith, present, assigned), ground (arith, present))
]

-- After `remove` the device is unknown and nothing else has changed; the answer says whether it was
-- known. The registry is one that its operations make.
remove-lookup :
    (r : DeviceRegistry) (device id : DeviceId)
    → RegistryInv r
    → (lookup (remove r device).0 id ≡ (if device_eq device id then none else lookup r id))
      × ((remove r device).1 ≡ has_value (lookup r device))
unfolding remove lookup
remove-lookup r device id v = elim (Bool-cases (device_eq device id)) [
  | inl same ↦ (
    ap (λ x. find x (erase device r.entries)) (sym ((device_eq_iff device id).0 same))
        ∙ find-erase_self device r.entries v.distinct
        ∙ rw same refl,
    refl,
  )
  | inr other ↦ (find-erase_ne device id r.entries other ∙ rw other refl, refl)
]

fresh_entries-none :
    (timeout now : ℤ) (id : DeviceId) (m : Map DeviceId RegistryEntry)
    → find id m ≡ none
    → find id (fresh_entries timeout now m) ≡ none
unfolding find fresh_entries
fresh_entries-none timeout now id [] h = refl
fresh_entries-none timeout now id ((k, e) ∷ m) h =
    ground (arith, fresh_entries-none timeout now id m)

-- What is left of an entry.
abbrev pub if_fresh : ℤ → ℤ → Option RegistryEntry → Option RegistryEntry
if_fresh timeout now none = none
if_fresh timeout now (some e) = if is_stale timeout now e then none else some e

find-fresh_entries :
    (timeout now : ℤ) (id : DeviceId) (m : Map DeviceId RegistryEntry)
    → Distinct m
    → find id (fresh_entries timeout now m) ≡ if_fresh timeout now (find id m)
unfolding find fresh_entries
find-fresh_entries timeout now id [] d = refl
find-fresh_entries timeout now id ((k, e) ∷ m) d = elim (Bool-cases (device_eq k id)) [
  | inl same ↦
      let gone : find id (fresh_entries timeout now m) ≡ none =
        fresh_entries-none timeout now id m
          (ap (λ x. find x m) (sym ((device_eq_iff k id).0 same)) ∙ d.0) in
      ground (arith, same, gone)
  | inr other ↦ ground (arith, other, find-fresh_entries timeout now id m d.1)
]

count_stale-length :
    (timeout now : ℤ) (m : Map DeviceId RegistryEntry)
    → count_stale timeout now m + length (fresh_entries timeout now m) ≡ length m
unfolding count_stale fresh_entries
count_stale-length timeout now [] = refl
count_stale-length timeout now ((k, e) ∷ m) = ground (arith, count_stale-length timeout now m)

-- After `expire` a device is known exactly if it was, and was seen within the timeout, with the same
-- entry; the answer is the number of devices that are no longer known. The registry is one that its
-- operations make.
pub expire-lookup :
    (r : DeviceRegistry) (now : ℤ) (id : DeviceId)
    → RegistryInv r
    → (lookup (expire r now).0 id ≡ if_fresh r.stale_timeout now (lookup r id))
      × ((expire r now).1 + size (expire r now).0 ≡ size r)
unfolding expire lookup size
expire-lookup r now id v = (
  find-fresh_entries r.stale_timeout now id r.entries v.distinct,
  count_stale-length r.stale_timeout now r.entries,
)

pub fresh_entries-Distinct :
    (timeout now : ℤ) (m : Map DeviceId RegistryEntry)
    → Distinct m
    → Distinct (fresh_entries timeout now m)
unfolding fresh_entries
fresh_entries-Distinct timeout now [] d = tt
fresh_entries-Distinct timeout now ((k, e) ∷ m) d = elim (Bool-cases (is_stale timeout now e)) [
  | inl stale ↦ rw stale (fresh_entries-Distinct timeout now m d.1)
  | inr fresh ↦
      rw fresh (fresh_entries-none timeout now k m d.0, fresh_entries-Distinct timeout now m d.1)
]

pub fresh_entries-All :
    (timeout now : ℤ) (m : Map DeviceId RegistryEntry)
    → All Filed m
    → All Filed (fresh_entries timeout now m)
unfolding fresh_entries
fresh_entries-All timeout now [] a = tt
fresh_entries-All timeout now ((k, e) ∷ m) a = elim (Bool-cases (is_stale timeout now e)) [
  | inl stale ↦ rw stale (fresh_entries-All timeout now m a.1)
  | inr fresh ↦ rw fresh (a.0, fresh_entries-All timeout now m a.1)
]
