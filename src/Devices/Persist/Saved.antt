-- ===== src/Devices/Persist/Saved.antt =====
-- When connected_devices.json holds the devices: after every change, unless it has raised.
use thingsboard_gateway.Prelude.{
  ℕ, String, [], ◌≡◌, refl, sym, subst, ap, ◌∙◌, Option, none, some, is_some, get_or, Bool, true,
  false, ◌&&◌, ◌||◌, Bool-cases, Option-cases, ◌⊎◌, inl, inr,
}
use thingsboard_gateway.Prelude.Eq.{string_eq}
use thingsboard_gateway.Prelude.Dict.{Dict, lookup, insert, remove, has}
use thingsboard_gateway.Devices.{
  Connector, DeviceInfo, SavedDevice, Disconnected, Service, Reply, returned, done, raised,
  gw_connect_device, gw_disconnect_device,
}
use thingsboard_gateway.Devices.Persist.{
  data_to_save, save_persistent_devices, process_connected_devices, process_disconnected_devices,
  get_dict_key_by_value,
}
use thingsboard_gateway.Devices.Registry.{
  request, sync, add_renamed, has_details, send_details, send_details_of, add_new, add_device,
  take_device, keep_renamed, forget_shared, del_device,
}

module _ {A : Type 0} where
  -- The file holds what would be written now.
  unfoldable pub IsSaved : Service A → Type 0
  IsSaved s = data_to_save s ≡ some s.file

  -- What the file is about, and the file.
  abbrev pub parts :
      Service A
      → Dict String DeviceInfo
        × Dict String Disconnected
        × Dict String String
        × Dict String SavedDevice
  parts s = (s.connected_devices, s.disconnected_devices, s.renamed_devices, s.file)

  -- A change of the rest of the service.
  abbrev pub KeepsDevices : Service A → Service A → Type 0
  KeepsDevices s s' = parts s' ≡ parts s

  KeepsDevices-IsSaved : (s s' : Service A) → KeepsDevices s s' → IsSaved s → IsSaved s'
  unfolding IsSaved data_to_save
  KeepsDevices-IsSaved s s' k h =
      subst
        (λ (p : Dict String DeviceInfo
            × Dict String Disconnected
            × Dict String String
            × Dict String SavedDevice).
          process_disconnected_devices p.2 p.1 (process_connected_devices p.2 p.0 []) ≡ some p.3)
        (sym k) h

  save_cases :
      (s : Service A) (next : Service A → Service A × Reply)
      → (save_persistent_devices s next ≡ (s, raised))
        ⊎ ((d : Dict String SavedDevice) × (data_to_save s ≡ some d)
            × (save_persistent_devices s next ≡ next (record s { file = d })))
  unfolding save_persistent_devices
  save_cases s next = elim (Option-cases (data_to_save s)) [
    | inl e ↦ inl (rw (save_persistent_devices, e) refl)
    | inr (d, e) ↦ inr (d, e, rw (save_persistent_devices, e) refl)
  ]

  -- The method raised, or the file holds what would be written now.
  unfoldable pub IsSavedUnlessRaised : Service A × Reply → Type 0
  IsSavedUnlessRaised r = (r.1 ≡ raised) ⊎ IsSaved r.0

  -- After a save the rest of a method does not change the devices.
  pub save-IsSavedUnlessRaised :
      (s : Service A) (next : Service A → Service A × Reply)
      → ((d : Service A) → KeepsDevices d (next d).0)
      → IsSavedUnlessRaised (save_persistent_devices s next)
  unfolding IsSavedUnlessRaised IsSaved data_to_save
  save-IsSavedUnlessRaised s next keeps = elim (save_cases s next) [
    | inl e ↦ inl (ap (λ (r : Service A × Reply). r.1) e)
    | inr (d, e, same) ↦
        let s' = record s { file = d } in
        inr (rw same (KeepsDevices-IsSaved s' (next s').0 (keeps s') e))
  ]

  sync-KeepsDevices :
      (name : String) (c : Option Connector) (s : Service A) → KeepsDevices s (sync name c s)
  unfolding sync
  sync-KeepsDevices name none s = refl
  sync-KeepsDevices name (some c) s = elim (Bool-cases (s.sync_on_connect && c.has_shared_keys)) [
    | inl e ↦ rw (sync, e) refl
    | inr e ↦ rw (sync, e) refl
  ]

  send_details_of-KeepsDevices :
      (now : ℕ) (name : String) (c : Option Connector) (s : Service A)
      → KeepsDevices s (send_details_of now name c s)
  unfolding send_details_of send_details
  send_details_of-KeepsDevices now name none s = refl
  send_details_of-KeepsDevices now name (some c) s =
      elim (Option-cases (lookup name s.added_devices)) [
        | inl e ↦ rw (send_details, e) refl
        | inr (a, e) ↦ elim (Bool-cases (has_details a c)) [
          | inl h ↦ rw (send_details, e, h) refl
          | inr h ↦ rw (send_details, e, h) refl
        ]
      ]

  pub kept-IsSavedUnlessRaised :
      (s s' : Service A) (reply : Reply)
      → KeepsDevices s s'
      → IsSaved s
      → IsSavedUnlessRaised (s', reply)
  unfolding IsSavedUnlessRaised
  kept-IsSavedUnlessRaised s s' reply k h = inr (KeepsDevices-IsSaved s s' k h)

  add_new-IsSavedUnlessRaised :
      (now : ℕ) (name type : String) (c : Option Connector) (s : Service A)
      → IsSavedUnlessRaised (add_new now name type c s)
  unfolding add_new
  add_new-IsSavedUnlessRaised now name type c s =
      let info : DeviceInfo = record {
        connector = c;
        device_type = type;
        last_receiving_data = none;
      } in
      save-IsSavedUnlessRaised
        (record s {
          connected_devices = insert name info s.connected_devices;
          saved_devices = insert name info s.saved_devices;
        })
        (λ s. (
          sync name c (send_details_of now name c (request (gw_connect_device name type) s)),
          returned true,
        ))
        (λ d.
          let d1 = request (gw_connect_device name type) d in
          let d2 = send_details_of now name c d1 in
          sync-KeepsDevices name c d2 ∙ send_details_of-KeepsDevices now name c d1)

  add_renamed-IsSavedUnlessRaised :
      (name new_name : String) (c : Option Connector) (s : Service A)
      → IsSavedUnlessRaised (add_renamed name new_name c s)
  unfolding add_renamed
  add_renamed-IsSavedUnlessRaised name new_name c s =
      let s1 = sync new_name c s in
      save-IsSavedUnlessRaised
        (record s1 { disconnected_devices = remove name s1.disconnected_devices })
        (λ s. (s, returned true)) (λ d. refl)

  pub add_device-IsSavedUnlessRaised :
      (is_connected : Bool) (now : ℕ) (name : String) (c : Option Connector) (type : Option String)
      (s : Service A)
      → IsSaved s
      → IsSavedUnlessRaised (add_device is_connected now name c type s)
  unfolding add_device
  add_device-IsSavedUnlessRaised false now name c type s h =
      kept-IsSavedUnlessRaised s (record s { devices_shared_attributes = [] }) (returned false) refl
        h
  add_device-IsSavedUnlessRaised true now name c type s h =
      elim (Option-cases (lookup name s.renamed_devices)) [
        | inr (new_name, e) ↦ rw (add_device, e) (add_renamed-IsSavedUnlessRaised name new_name c s)
        | inl e ↦
            elim (Bool-cases (
              has name s.connected_devices
              || is_some (get_dict_key_by_value s.renamed_devices name))) [
                | inl known ↦
                    rw (add_device, e, known)
                      (kept-IsSavedUnlessRaised s (sync name c s) (returned true)
                        (sync-KeepsDevices name c s) h)
                | inr unknown ↦
                    rw (add_device, e, unknown)
                      (add_new-IsSavedUnlessRaised now name (get_or type "default") c s)
              ]
      ]

  pub del_device-IsSavedUnlessRaised :
      (remove_device : Bool) (name : String) (s : Service A)
      → IsSavedUnlessRaised (del_device remove_device name s)
  unfolding del_device forget_shared
  del_device-IsSavedUnlessRaised remove_device name s =
      let s1 = keep_renamed name (take_device name (request (gw_disconnect_device name) s)) in
      save-IsSavedUnlessRaised
        (record s1 {
          saved_devices = remove name s1.saved_devices;
          added_devices = remove name s1.added_devices;
        })
        (λ s. (forget_shared remove_device name s, done))
        (λ d. elim (Bool-cases remove_device) [
          | inl e ↦ rw (forget_shared, e) refl
          | inr e ↦ rw (forget_shared, e) refl
        ])
