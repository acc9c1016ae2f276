-- ===== src/Devices/Registry/Reconnect.antt =====
-- What add_device and del_device make of a device.
use thingsboard_gateway.Prelude.{
  ℕ, String, ◌≡◌, refl, ap, ◌∙◌, Option, none, some, Bool, true, false, ◌&&◌, Bool-cases,
  Option-cases, inl, inr,
}
use thingsboard_gateway.Prelude.Eq.{string_eq}
use thingsboard_gateway.Prelude.Dict.{Dict, lookup, insert, remove, lookup-remove_same}
use thingsboard_gateway.Devices.{
  Connector, DeviceInfo, SavedDevice, Disconnected, kept, Service, gw_disconnect_device, Reply,
  returned, done,
}
use thingsboard_gateway.Devices.Persist.{data_to_save, save_persistent_devices}
use thingsboard_gateway.Devices.Registry.{
  request, sync, add_renamed, add_device, take_device, keep_renamed, forget_shared, del_device,
}

module _ {A : Type 0} where
  -- What holds of a service that the file is left out of, and after what follows a save.
  pub save_ind :
      (P : Service A → Type 0) (s : Service A) (next : Service A → Service A × Reply)
      → P s
      → ((f : Dict String SavedDevice) → P (next (record s { file = f })).0)
      → P (save_persistent_devices s next).0
  unfolding save_persistent_devices
  save_ind P s next here after = elim (Option-cases (data_to_save s)) [
    | inl e ↦ rw (save_persistent_devices, e) here
    | inr (d, e) ↦ rw (save_persistent_devices, e) (after d)
  ]

  -- The two dicts and the renamings.
  pub record IsWithout (name : String) (s : Service A) : Type 0 where
    pub unconnected : lookup name s.connected_devices ≡ none
    pub forgotten : lookup name s.disconnected_devices ≡ none

  pub sync-connected :
      (name : String) (c : Option Connector) (s : Service A)
      → (sync name c s).connected_devices ≡ s.connected_devices
  unfolding sync
  sync-connected name none s = refl
  sync-connected name (some c) s = elim (Bool-cases (s.sync_on_connect && c.has_shared_keys)) [
    | inl e ↦ rw (sync, e) refl
    | inr e ↦ rw (sync, e) refl
  ]

  add_renamed-IsWithout :
      (name new_name : String) (c : Option Connector) (s : Service A)
      → lookup name s.connected_devices ≡ none
      → IsWithout name (add_renamed name new_name c s).0
  unfolding add_renamed
  add_renamed-IsWithout name new_name c s h =
      let s1 = sync new_name c s in
      let s2 = record s1 { disconnected_devices = remove name s1.disconnected_devices } in
      let here : IsWithout name s2 = record {
        unconnected = rw (sync-connected new_name c s) h;
        forgotten = lookup-remove_same name s1.disconnected_devices;
      } in
      save_ind (IsWithout name) s2 (λ s. (s, returned true)) here
        (λ f. record { unconnected = here.unconnected; forgotten = here.forgotten })

  take_connected :
      (name : String) (info : DeviceInfo) (s : Service A)
      → lookup name s.connected_devices ≡ some info
      → take_device name s
        ≡ (record s { connected_devices = remove name s.connected_devices }, kept info)
  unfolding take_device
  take_connected name info s e = rw (take_device, e) refl

  keep_known :
      (name new_name : String) (s : Service A) (d : Disconnected)
      → lookup name s.renamed_devices ≡ some new_name
      → keep_renamed name (s, d)
        ≡ record s { disconnected_devices = insert name d s.disconnected_devices }
  unfolding keep_renamed
  keep_known name new_name s d e = rw e refl

  -- Off, and still renamed.
  record IsOff (name new_name : String) (s : Service A) : Type 0 where
    unconnected : lookup name s.connected_devices ≡ none
    renamed : lookup name s.renamed_devices ≡ some new_name

  forget_shared-IsOff :
      (remove_device : Bool) (name new_name : String) (s : Service A)
      → IsOff name new_name s
      → IsOff name new_name (forget_shared remove_device name s)
  unfolding forget_shared
  forget_shared-IsOff true name new_name s h = record {
    unconnected = h.unconnected;
    renamed = h.renamed;
  }
  forget_shared-IsOff false name new_name s h = h

  del_device-IsOff :
      (remove_device : Bool) (name new_name : String) (info : DeviceInfo) (s : Service A)
      → lookup name s.connected_devices ≡ some info
      → lookup name s.renamed_devices ≡ some new_name
      → IsOff name new_name (del_device remove_device name s).0
  unfolding del_device
  del_device-IsOff remove_device name new_name info s known renamed =
      let s0 = request (gw_disconnect_device name) s in
      let s1 = keep_renamed name (take_device name s0) in
      let left = record s0 { connected_devices = remove name s.connected_devices } in
      let s1_e : s1
          ≡ record left { disconnected_devices = insert name (kept info) s.disconnected_devices } =
        ap (keep_renamed name) (take_connected name info s0 known)
        ∙ keep_known name new_name left (kept info) renamed in
      let off : IsOff name new_name s1 = record {
        unconnected =
            ap (λ (x : Service A). lookup name x.connected_devices) s1_e
            ∙ lookup-remove_same name s.connected_devices;
        renamed = ap (λ (x : Service A). lookup name x.renamed_devices) s1_e ∙ renamed;
      } in
      save_ind (IsOff name new_name)
        (record s1 {
          saved_devices = remove name s1.saved_devices;
          added_devices = remove name s1.added_devices;
        })
        (λ s. (forget_shared remove_device name s, done))
        (record { unconnected = off.unconnected; renamed = off.renamed })
        (λ f.
          forget_shared-IsOff remove_device name new_name
            (record s1 {
              saved_devices = remove name s1.saved_devices;
              added_devices = remove name s1.added_devices;
              file = f;
            })
            (record { unconnected = off.unconnected; renamed = off.renamed }))

  -- A renamed device that is deleted and added again is lost: it is neither with the connected
  -- devices, where a request of the platform would look for it, nor any longer with the disconnected.
  pub reconnect_lost :
      (remove_device : Bool) (now : ℕ) (name new_name : String) (info : DeviceInfo)
      (c : Option Connector) (type : Option String) (s : Service A)
      → lookup name s.connected_devices ≡ some info
      → lookup name s.renamed_devices ≡ some new_name
      → IsWithout name (add_device true now name c type (del_device remove_device name s).0).0
  unfolding add_device
  reconnect_lost remove_device now name new_name info c type s known renamed =
      let s' = (del_device remove_device name s).0 in
      let off = del_device-IsOff remove_device name new_name info s known renamed in
      rw (add_device, off.renamed) (add_renamed-IsWithout name new_name c s' off.unconnected)
