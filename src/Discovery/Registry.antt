-- ===== src/Discovery/Registry.antt =====
-- `DeviceRegistry` of src/device_discovery.cpp. The mutex makes each operation one step.
pub mod Laws
pub mod Invariant
use distributed_audio_system.Discovery.Device.{DeviceInfo}
use distributed_audio_system.Identity.{DeviceId, device_key, device_valid}
use distributed_audio_system.Prelude.{
  Bool, List, Option, [], false, has_value, if◌then◌else◌, length, map, none, not, some, true, ℕ,
  ◌+◌, ◌∷◌,
}
use distributed_audio_system.Prelude.Int.{ltb_ℤ, pos, ℤ, ◌-ℤ◌}
use distributed_audio_system.Prelude.Map.{Map, assign, emplace, erase, find}

pub record RegistryEntry : Type 0 where
  pub info : DeviceInfo
  pub last_seen : ℤ
  pub active : Bool

pub record DeviceRegistry : Type 0 where
  pub stale_timeout : ℤ
  pub entries : Map DeviceId RegistryEntry

-- The constructor; `none` is its exception.
unfoldable pub device_registry : ℤ → Option DeviceRegistry
device_registry stale_timeout =
    if not (ltb_ℤ (pos 0) stale_timeout)
    then none
    else some (record { stale_timeout = stale_timeout; entries = [] })

abbrev pub seen : DeviceInfo → ℤ → RegistryEntry
seen info now = record { info = info; last_seen = now; active = true }

-- The answer tells whether the device is new.
unfoldable pub observe : DeviceRegistry → DeviceInfo → ℤ → DeviceRegistry × Bool
observe r info now =
    if not (device_valid info.id) then (r, false) else elim (find info.id r.entries) [
      | none ↦ (record r { entries = emplace info.id (seen info now) r.entries }, true)
      | some _ ↦ (record r { entries = assign info.id (seen info now) r.entries }, false)
    ]

unfoldable pub remove : DeviceRegistry → DeviceId → DeviceRegistry × Bool
remove r id = (record r { entries = erase id r.entries }, has_value (find id r.entries))

unfoldable pub lookup : DeviceRegistry → DeviceId → Option RegistryEntry
lookup r id = find id r.entries

unfoldable pub devices : DeviceRegistry → List RegistryEntry
devices r = map (λ e. e.1) r.entries

abbrev pub is_stale : ℤ → ℤ → RegistryEntry → Bool
is_stale timeout now e = not (ltb_ℤ (now -ℤ e.last_seen) timeout)

-- The loop of `expire`: the entries that stay.
unfoldable pub fresh_entries : ℤ → ℤ → Map DeviceId RegistryEntry → Map DeviceId RegistryEntry
fresh_entries timeout now [] = []
fresh_entries timeout now ((id, e) ∷ m) =
    let rest = fresh_entries timeout now m in
    if is_stale timeout now e then rest else (id, e) ∷ rest

-- The number of those that it erases.
unfoldable pub count_stale : ℤ → ℤ → Map DeviceId RegistryEntry → ℕ
count_stale timeout now [] = 0
count_stale timeout now ((id, e) ∷ m) =
    let rest = count_stale timeout now m in if is_stale timeout now e then rest + 1 else rest

unfoldable pub expire : DeviceRegistry → ℤ → DeviceRegistry × ℕ
expire r now = (
  record r { entries = fresh_entries r.stale_timeout now r.entries },
  count_stale r.stale_timeout now r.entries,
)

unfoldable pub size : DeviceRegistry → ℕ
size r = length r.entries
