-- ===== src/Devices/Idle.antt =====
-- __check_devices_idle_time of thingsboard_gateway/gateway/tb_gateway_service.py, and the type of a
-- device. The clock is in seconds.
pub mod Chain
use thingsboard_gateway.Prelude.{
  ℕ, zero, suc, ◌-◌, String, List, [], ◌∷◌, ◌++◌, Option, none, some, leb, Bool, true, false, ◌==◌,
  if◌then◌else◌,
}
use thingsboard_gateway.Prelude.Eq.{Eq, string_eq}
use thingsboard_gateway.Prelude.Dict.{Dict, lookup}
use thingsboard_gateway.Devices.{DeviceInfo, Service, Reply, returned, done, raised}
use thingsboard_gateway.Devices.Registry.{del_device}

-- `device['last_receiving_data']`, which is set to the time when it is missing or zero.
unfoldable pub last_receiving : ℕ → Option ℕ → ℕ
last_receiving ts none = ts
last_receiving ts (some t) = if t == 0 then ts else t

-- The connected devices after the look at their times.
unfoldable pub stamp_devices : ℕ → Dict String DeviceInfo → Dict String DeviceInfo
unfolding last_receiving
stamp_devices ts [] = []
stamp_devices ts ((name, info) ∷ devices) =
    (name, record info { last_receiving_data = some (last_receiving ts info.last_receiving_data) })
    ∷ stamp_devices ts devices

-- `for_deleting`
unfoldable pub for_deleting : ℕ → ℕ → Dict String DeviceInfo → List String
unfolding last_receiving
for_deleting idle ts [] = []
for_deleting idle ts ((name, info) ∷ devices) =
    let rest = for_deleting idle ts devices in
    if leb idle (ts - last_receiving ts info.last_receiving_data) then name ∷ rest else rest

module _ {A : Type 0} where
  unfoldable pub del_devices : List String → Service A × Reply → Service A × Reply
  unfolding del_device
  del_devices [] r = r
  del_devices (name ∷ names) (s, raised) = (s, raised)
  del_devices (name ∷ names) (s, done) = del_devices names (del_device true name s)
  del_devices (name ∷ names) (s, returned b) = del_devices names (del_device true name s)

  -- A round at the time `ts`, with `idle` the timeout.
  unfoldable pub check_devices_idle_time : ℕ → ℕ → Service A → Service A × Reply
  unfolding stamp_devices for_deleting del_devices
  check_devices_idle_time idle ts s =
      del_devices (for_deleting idle ts s.connected_devices)
        (record s { connected_devices = stamp_devices ts s.connected_devices }, done)

  -- `__get_device_type_for_device`: none when the recursion goes deeper than the fuel.
  unfoldable pub get_device_type_for_device : ℕ → String → Service A → Option String
  get_device_type_for_device zero name s = none
  get_device_type_for_device (suc fuel) name s = elim (lookup name s.connected_devices) [
    | some info ↦ some info.device_type
    | none ↦ elim (lookup name s.saved_devices) [
      | some info ↦ some info.device_type
      | none ↦ elim (lookup name s.renamed_devices) [
        | some new_name ↦ get_device_type_for_device fuel new_name s
        | none ↦ some "default"
      ]
    ]
  ]
