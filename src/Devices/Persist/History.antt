-- ===== src/Devices/Persist/History.antt =====
-- The file over a history of changes.
use thingsboard_gateway.Prelude.{
  ℕ, String, List, [], ◌∷◌, ◌≡◌, ◌≢◌, refl, sym, ap, ◌∙◌, Option, none, some, Bool, true,
  Bool-cases, Option-cases, inl, inr, ==_iff,
}
use thingsboard_gateway.Prelude.Eq.{string_eq}
use thingsboard_gateway.Prelude.Dict.{Dict, lookup, insert}
use thingsboard_gateway.Devices.{
  Connector, DeviceInfo, SavedDevice, Service, connector_changed, Reply, returned, done, raised,
}
use thingsboard_gateway.Devices.Persist.{
  data_to_save, process_connected_device, process_connected_devices, process_disconnected_devices,
}
use thingsboard_gateway.Devices.Persist.Saved.{
  IsSaved, IsSavedUnlessRaised, save-IsSavedUnlessRaised, kept-IsSavedUnlessRaised,
  add_device-IsSavedUnlessRaised, del_device-IsSavedUnlessRaised,
}
use thingsboard_gateway.Devices.Registry.{request, add_device, del_device, is_same, update_device}
use thingsboard_gateway.Devices.Idle.{
  stamp_devices, del_devices, for_deleting, check_devices_idle_time,
}

insert_known :
    {V : Type 0} (k : String) (v : V) (d : Dict String V) → lookup k d ≡ some v → insert k v d ≡ d
unfolding lookup insert
insert_known k v [] h = cc h
insert_known k v ((j, w) ∷ d) h = elim (Bool-cases (string_eq.beq j k)) [
  | inl e ↦
      let same : some w ≡ some v = rw e at h in
      let v_w : v ≡ w = cc same in rw e (ap (λ x. (j, x) ∷ d) v_w)
  | inr e ↦ rw e (ap (λ x. (j, w) ∷ x) (insert_known k v d (rw e at h)))
]

process_connected_devices-stamp_devices :
    (renamed : Dict String String) (ts : ℕ) (devices : Dict String DeviceInfo)
    (data_to_save : Dict String SavedDevice)
    → process_connected_devices renamed (stamp_devices ts devices) data_to_save
      ≡ process_connected_devices renamed devices data_to_save
unfolding stamp_devices process_connected_devices process_connected_device
process_connected_devices-stamp_devices renamed ts [] d = refl
process_connected_devices-stamp_devices renamed ts ((name, info) ∷ devices) d =
    process_connected_devices-stamp_devices renamed ts devices
      (process_connected_device renamed name info d)

is_same_lem :
    (d : Option Connector) (c : Connector)
    → is_same d c ≡ true
    → (e : Connector) × (d ≡ some e) × (e.object ≡ c.object)
unfolding is_same
is_same_lem none c h = cc h
is_same_lem (some d) c h = (d, refl, (==_iff d.object c.object).0 h)

module _ {A : Type 0} where
  -- A connector is known by its object.
  abbrev pub IsObject : Service A → String → Connector → Type 0
  IsObject s name c =
      (info : DeviceInfo) (d : Connector)
      → lookup name s.connected_devices ≡ some info
      → info.connector ≡ some d
      → d.object ≡ c.object
      → d ≡ c

  update_device-IsSavedUnlessRaised :
      (name : String) (c : Connector) (s : Service A)
      → IsObject s name c
      → IsSaved s
      → IsSavedUnlessRaised (update_device name c s)
  unfolding update_device
  update_device-IsSavedUnlessRaised name c s known h =
      elim (Option-cases (lookup name s.connected_devices)) [
        | inl e ↦ rw (update_device, e) (kept-IsSavedUnlessRaised s s done refl h)
        | inr (info, e) ↦
            let s' = record s {
              connected_devices =
                  insert name (record info { connector = some c }) s.connected_devices;
            } in
            elim (Bool-cases (is_same info.connector c)) [
              | inl same ↦
                  let (d, has_d, one) = is_same_lem info.connector c same in
                  let eq : info.connector ≡ some c = has_d ∙ ap some (known info d e has_d one) in
                  rw (update_device, e, same)
                    (kept-IsSavedUnlessRaised s s' done
                      (ap (λ x. (x, s.disconnected_devices, s.renamed_devices, s.file))
                        (ap (λ x. insert name (record info { connector = x }) s.connected_devices)
                            (sym eq)
                          ∙ insert_known name info s.connected_devices e))
                      h)
              | inr other ↦
                  rw (update_device, e, other)
                    (save-IsSavedUnlessRaised s'
                      (λ s. (request (connector_changed name info.device_type c) s, done))
                      (λ d. refl))
            ]
      ]

  del_devices-IsSavedUnlessRaised :
      (names : List String) (r : Service A × Reply)
      → IsSavedUnlessRaised r
      → IsSavedUnlessRaised (del_devices names r)
  unfolding del_devices
  del_devices-IsSavedUnlessRaised [] r h = h
  del_devices-IsSavedUnlessRaised (name ∷ names) (s, raised) h = h
  del_devices-IsSavedUnlessRaised (name ∷ names) (s, done) h =
      del_devices-IsSavedUnlessRaised names (del_device true name s)
        (del_device-IsSavedUnlessRaised true name s)
  del_devices-IsSavedUnlessRaised (name ∷ names) (s, returned b) h =
      del_devices-IsSavedUnlessRaised names (del_device true name s)
        (del_device-IsSavedUnlessRaised true name s)

  check_devices_idle_time-IsSavedUnlessRaised :
      (idle ts : ℕ) (s : Service A)
      → IsSaved s
      → IsSavedUnlessRaised (check_devices_idle_time idle ts s)
  unfolding check_devices_idle_time IsSavedUnlessRaised IsSaved data_to_save
  check_devices_idle_time-IsSavedUnlessRaised idle ts s h =
      del_devices-IsSavedUnlessRaised (for_deleting idle ts s.connected_devices)
        (record s { connected_devices = stamp_devices ts s.connected_devices }, done)
        (inr (
          ap (λ d. process_disconnected_devices s.renamed_devices s.disconnected_devices d)
            (process_connected_devices-stamp_devices s.renamed_devices ts s.connected_devices [])
          ∙ h))

  -- A change that did not raise.
  pub data Change : Service A → Service A → Type 0 where
    adds :
        (is_connected : Bool) (now : ℕ) (name : String) (c : Option Connector)
        (type : Option String) (s : Service A)
        → (add_device is_connected now name c type s).1 ≢ raised
        → Change s (add_device is_connected now name c type s).0
    deletes :
        (remove_device : Bool) (name : String) (s : Service A)
        → (del_device remove_device name s).1 ≢ raised
        → Change s (del_device remove_device name s).0
    updates :
        (name : String) (c : Connector) (s : Service A)
        → IsObject s name c
        → (update_device name c s).1 ≢ raised
        → Change s (update_device name c s).0
    looks :
        (idle ts : ℕ) (s : Service A)
        → (check_devices_idle_time idle ts s).1 ≢ raised
        → Change s (check_devices_idle_time idle ts s).0

  pub data History (s : Service A) : Service A → Type 0 where
    start : History s s
    more : {t u : Service A} → History s t → Change t u → History s u

  not_raised : (r : Service A × Reply) → r.1 ≢ raised → IsSavedUnlessRaised r → IsSaved r.0
  unfolding IsSavedUnlessRaised
  not_raised r n h = elim h [ inl e ↦ absurd (n e) | inr k ↦ k ]

  Change-IsSaved : {s t : Service A} → Change s t → IsSaved s → IsSaved t
  Change-IsSaved (adds is_connected now name c type s going) h =
      not_raised (add_device is_connected now name c type s) going
        (add_device-IsSavedUnlessRaised is_connected now name c type s h)
  Change-IsSaved (deletes remove_device name s going) h =
      not_raised (del_device remove_device name s) going
        (del_device-IsSavedUnlessRaised remove_device name s)
  Change-IsSaved (updates name c s known going) h =
      not_raised (update_device name c s) going (update_device-IsSavedUnlessRaised name c s known h)
  Change-IsSaved (looks idle ts s going) h =
      not_raised (check_devices_idle_time idle ts s) going
        (check_devices_idle_time-IsSavedUnlessRaised idle ts s h)

  -- Over any history of devices that are added, deleted, given another connector or found idle, as
  -- long as none of these calls raises, the file holds what would be written now, when it did so
  -- at the start. Connectors are told apart by their objects.
  pub history-IsSaved : {s t : Service A} → History s t → IsSaved s → IsSaved t
  history-IsSaved start h = h
  history-IsSaved (more before change) h = Change-IsSaved change (history-IsSaved before h)
