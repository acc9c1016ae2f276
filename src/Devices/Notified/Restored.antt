-- ===== src/Devices/Notified/Restored.antt =====
-- The file that is saved brings the connected devices back.
use thingsboard_gateway.Prelude.{
  ℕ, String, [], ◌∷◌, ◌≡◌, refl, ap, ◌∙◌, Option, none, some, Bool, true, false, Bool-cases,
  Option-cases, inl, inr, All,
}
use thingsboard_gateway.Prelude.Eq.{string_eq}
use thingsboard_gateway.Prelude.Dict.{
  Dict, lookup, insert, remove, has, IsDistinct, lookup-insert_same, lookup-insert_other, keys_in,
}
use thingsboard_gateway.Devices.{
  Connector, DeviceInfo, SavedDevice, Service, Reply, returned, done, raised,
}
use thingsboard_gateway.Devices.Persist.{live, data_to_save, process_connected_devices}
use thingsboard_gateway.Devices.Persist.Lookup.{
  connected-IsDistinct, connected-found, disconnected-Leaves,
}
use thingsboard_gateway.Devices.Registry.{sync, add_renamed, add_device}
use thingsboard_gateway.Devices.Registry.Reconnect.{save_ind, sync-connected}
use thingsboard_gateway.Devices.Notified.{
  connector_of, add_all, load_renaming, save_loaded, connect_loaded, load_device, load_devices,
  load_persistent_devices,
}

-- The dict of a device that is loaded with a connector.
abbrev pub loaded_info : SavedDevice → Connector → DeviceInfo
loaded_info d c = record {
  connector = some c;
  device_type = d.device_type;
  last_receiving_data = none;
}

module _ {A : Type 0} where
  add_renamed-connected :
      (name new_name : String) (c : Option Connector) (s : Service A)
      → (add_renamed name new_name c s).0.connected_devices ≡ s.connected_devices
  unfolding add_renamed
  add_renamed-connected name new_name c s =
      let s1 = sync new_name c s in
      save_ind (λ x. x.connected_devices ≡ s.connected_devices)
        (record s1 { disconnected_devices = remove name s1.disconnected_devices })
        (λ s. (s, returned true)) (sync-connected new_name c s) (λ f. sync-connected new_name c s)

  -- Adding a device that is connected.
  add_device-connected :
      (is_connected : Bool) (now : ℕ) (name : String) (c : Option Connector) (type : Option String)
      (s : Service A)
      → has name s.connected_devices ≡ true
      → (add_device is_connected now name c type s).0.connected_devices ≡ s.connected_devices
  unfolding add_device
  add_device-connected false now name c type s h = refl
  add_device-connected true now name c type s h =
      elim (Option-cases (lookup name s.renamed_devices)) [
        | inl e ↦ rw (add_device, e, h) (sync-connected name c s)
        | inr (new_name, e) ↦ rw (add_device, e) (add_renamed-connected name new_name c s)
      ]

  add_all-connected :
      (is_connected : Bool) (now : ℕ) (devices : Dict String DeviceInfo) (r : Service A × Reply)
      → All (λ e. has e.0 r.0.connected_devices ≡ true) devices
      → (add_all is_connected now devices r).0.connected_devices ≡ r.0.connected_devices
  unfolding add_all
  add_all-connected is_connected now [] r h = refl
  add_all-connected is_connected now ((name, info) ∷ devices) (s, raised) h = refl
  add_all-connected is_connected now ((name, info) ∷ devices) (s, done) h =
      let r = add_device is_connected now name info.connector (some info.device_type) s in
      let same =
        add_device-connected is_connected now name info.connector (some info.device_type) s h.0 in
      add_all-connected is_connected now devices r (rw same h.1) ∙ same
  add_all-connected is_connected now ((name, info) ∷ devices) (s, returned b) h =
      let r = add_device is_connected now name info.connector (some info.device_type) s in
      let same =
        add_device-connected is_connected now name info.connector (some info.device_type) s h.0 in
      add_all-connected is_connected now devices r (rw same h.1) ∙ same

  save_loaded-connected :
      (name : String) (info : DeviceInfo) (r : Service A × Reply)
      → (save_loaded name info r).connected_devices ≡ r.0.connected_devices
  unfolding save_loaded
  save_loaded-connected name info (s, raised) = refl
  save_loaded-connected name info (s, done) = refl
  save_loaded-connected name info (s, returned b) = refl

  connect_loaded-connected :
      (is_connected : Bool) (now : ℕ) (name : String) (info : DeviceInfo) (s : Service A)
      → (connect_loaded is_connected now name info s).connected_devices
        ≡ insert name info s.connected_devices
  unfolding connect_loaded
  connect_loaded-connected is_connected now name info s =
      let s1 = record s { connected_devices = insert name info s.connected_devices } in
      let r = add_all is_connected now s1.connected_devices (s1, done) in
      save_loaded-connected name info r
      ∙ add_all-connected is_connected now s1.connected_devices (s1, done)
          (keys_in s1.connected_devices s1.connected_devices (λ k h. h))

  load_renaming-connected :
      (name : String) (d : SavedDevice) (s : Service A)
      → (load_renaming name d s).connected_devices ≡ s.connected_devices
  unfolding load_renaming
  load_renaming-connected name d s = elim (Option-cases d.renaming) [
    | inl e ↦ rw (load_renaming, e) refl
    | inr (w, e) ↦ rw (load_renaming, e) refl
  ]

  module _ (by_id by_name : String → Option Connector) (is_connected : Bool) (now : ℕ) where
    load_device-found :
        (name : String) (d : SavedDevice) (c : Connector) (s : Service A)
        → connector_of by_id by_name d ≡ some c
        → (load_device by_id by_name is_connected now name d s).connected_devices
          ≡ insert name (loaded_info d c) s.connected_devices
    unfolding load_device
    load_device-found name d c s h =
        rw (load_device, h)
          (connect_loaded-connected is_connected now name (loaded_info d c) (load_renaming name d s)
            ∙ ap (insert name (loaded_info d c)) (load_renaming-connected name d s))

    load_device-missing :
        (name : String) (d : SavedDevice) (s : Service A)
        → connector_of by_id by_name d ≡ none
        → (load_device by_id by_name is_connected now name d s).connected_devices
          ≡ s.connected_devices
    unfolding load_device
    load_device-missing name d s h = rw (load_device, h) (load_renaming-connected name d s)

    load_device-other :
        (m name : String) (d : SavedDevice) (s : Service A)
        → string_eq.beq m name ≡ false
        → lookup name (load_device by_id by_name is_connected now m d s).connected_devices
          ≡ lookup name s.connected_devices
    load_device-other m name d s other = elim (Option-cases (connector_of by_id by_name d)) [
      | inl e ↦ ap (λ x. lookup name x) (load_device-missing m d s e)
      | inr (c, e) ↦
          ap (λ x. lookup name x) (load_device-found m d c s e)
          ∙ lookup-insert_other m name (loaded_info d c) s.connected_devices other
    ]

    load_devices-other :
        (name : String) (devices : Dict String SavedDevice) (s : Service A)
        → lookup name devices ≡ none
        → lookup name (load_devices by_id by_name is_connected now devices s).connected_devices
          ≡ lookup name s.connected_devices
    unfolding load_devices lookup
    load_devices-other name [] s h = refl
    load_devices-other name ((m, d) ∷ devices) s h = elim (Bool-cases (string_eq.beq m name)) [
      | inl same ↦ absurd (cc (rw same at h))
      | inr other ↦
          load_devices-other name devices (load_device by_id by_name is_connected now m d s)
            (rw other at h)
          ∙ load_device-other m name d s other
    ]

    pub load_devices-found :
        (name : String) (d : SavedDevice) (c : Connector) (devices : Dict String SavedDevice)
        (s : Service A)
        → IsDistinct devices
        → lookup name devices ≡ some d
        → connector_of by_id by_name d ≡ some c
        → lookup name (load_devices by_id by_name is_connected now devices s).connected_devices
          ≡ some (loaded_info d c)
    unfolding load_devices lookup IsDistinct
    load_devices-found name d c [] s distinct h has_c = absurd (cc h)
    load_devices-found name d c ((m, x) ∷ devices) s distinct h has_c =
        let s1 = load_device by_id by_name is_connected now m x s in
        elim (Bool-cases (string_eq.beq m name)) [
          | inl same ↦
              let m_name : m ≡ name = (string_eq.beq_iff m name).0 same in
              let some_x : some x ≡ some d = rw same at h in
              let x_d : x ≡ d = cc some_x in
              load_devices-other name devices s1 (rw m_name at distinct.0)
              ∙ ap (λ y. lookup name y) (load_device-found m x c s (rw x_d has_c))
              ∙ rw (m_name, x_d) (lookup-insert_same name (loaded_info d c) s.connected_devices)
          | inr other ↦ load_devices-found name d c devices s1 distinct.1 (rw other at h) has_c
        ]

  -- The file that a service has written gives its connected devices back to a service that reads
  -- it, with their connectors, when these are found by id, and their types. The device must not
  -- stand among the disconnected ones as well.
  pub devices_restored :
      (by_id by_name : String → Option Connector) (is_connected : Bool) (now : ℕ) (s t : Service A)
      (name : String) (info : DeviceInfo) (c : Connector)
      → IsDistinct s.connected_devices
      → data_to_save s ≡ some t.file
      → lookup name s.disconnected_devices ≡ none
      → lookup name s.connected_devices ≡ some info
      → info.connector ≡ some c
      → by_id c.id ≡ some c
      → lookup name (load_persistent_devices by_id by_name is_connected now t).connected_devices
        ≡ some (record {
          connector = some c;
          device_type = info.device_type;
          last_receiving_data = none;
        })
  unfolding load_persistent_devices data_to_save connector_of IsDistinct
  devices_restored by_id by_name is_connected now s t name info c distinct saved gone known has_c
        found =
      let d = live s.renamed_devices name c info.device_type false in
      let file = process_connected_devices s.renamed_devices s.connected_devices [] in
      let left =
        disconnected-Leaves s.renamed_devices name s.disconnected_devices file t.file gone saved in
      let at =
        connected-found s.renamed_devices name info c s.connected_devices [] distinct known has_c in
      let apart =
        left.distinct (connected-IsDistinct s.renamed_devices s.connected_devices [] tt) in
      load_devices-found by_id by_name is_connected now name d c t.file t apart (left.same ∙ at)
        (rw (connector_of, found) refl)
