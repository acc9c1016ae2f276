-- ===== src/Devices/Persist/Lookup.antt =====
-- What the file of the devices has for a device.
use thingsboard_gateway.Prelude.{
  String, [], ◌∷◌, ◌≡◌, refl, sym, ap, ◌∙◌, none, some, false, Bool-cases, Option-cases, inl, inr,
}
use thingsboard_gateway.Prelude.Eq.{string_eq}
use thingsboard_gateway.Prelude.Dict.{
  Dict, lookup, insert, IsDistinct, insert-IsDistinct, lookup-insert_same, lookup-insert_other,
}
use thingsboard_gateway.Devices.{Connector, DeviceInfo, SavedDevice, Disconnected}
use thingsboard_gateway.Devices.Persist.{
  live, process_connected_device, process_connected_devices, process_disconnected_devices,
  disconnected_form,
}

module _ (renamed : Dict String String) where
  device-IsDistinct :
      (m : String) (info : DeviceInfo) (file : Dict String SavedDevice)
      → IsDistinct file
      → IsDistinct (process_connected_device renamed m info file)
  unfolding process_connected_device
  device-IsDistinct m info file h = elim (Option-cases info.connector) [
    | inl e ↦ rw (process_connected_device, e) h
    | inr (c, e) ↦
        rw (process_connected_device, e)
          (insert-IsDistinct m (live renamed m c info.device_type false) file h)
  ]

  pub connected-IsDistinct :
      (devices : Dict String DeviceInfo) (file : Dict String SavedDevice)
      → IsDistinct file
      → IsDistinct (process_connected_devices renamed devices file)
  unfolding process_connected_devices
  connected-IsDistinct [] file h = h
  connected-IsDistinct ((m, info) ∷ devices) file h =
      connected-IsDistinct devices (process_connected_device renamed m info file)
        (device-IsDistinct m info file h)

  device-other :
      (m name : String) (info : DeviceInfo) (file : Dict String SavedDevice)
      → string_eq.beq m name ≡ false
      → lookup name (process_connected_device renamed m info file) ≡ lookup name file
  unfolding process_connected_device
  device-other m name info file other = elim (Option-cases info.connector) [
    | inl e ↦ rw (process_connected_device, e) refl
    | inr (c, e) ↦
        rw (process_connected_device, e)
          (lookup-insert_other m name (live renamed m c info.device_type false) file other)
  ]

  connected-other :
      (name : String) (devices : Dict String DeviceInfo) (file : Dict String SavedDevice)
      → lookup name devices ≡ none
      → lookup name (process_connected_devices renamed devices file) ≡ lookup name file
  unfolding process_connected_devices lookup
  connected-other name [] file h = refl
  connected-other name ((m, info) ∷ devices) file h = elim (Bool-cases (string_eq.beq m name)) [
    | inl same ↦ absurd (cc (rw same at h))
    | inr other ↦
        connected-other name devices (process_connected_device renamed m info file) (rw other at h)
        ∙ device-other m name info file other
  ]

  pub connected-found :
      (name : String) (info : DeviceInfo) (c : Connector) (devices : Dict String DeviceInfo)
      (file : Dict String SavedDevice)
      → IsDistinct devices
      → lookup name devices ≡ some info
      → info.connector ≡ some c
      → lookup name (process_connected_devices renamed devices file)
        ≡ some (live renamed name c info.device_type false)
  unfolding process_connected_devices process_connected_device lookup IsDistinct
  connected-found name info c [] file distinct h has_c = absurd (cc h)
  connected-found name info c ((m, x) ∷ devices) file distinct h has_c =
      let file1 = process_connected_device renamed m x file in
      elim (Bool-cases (string_eq.beq m name)) [
        | inl same ↦
            let m_name : m ≡ name = (string_eq.beq_iff m name).0 same in
            let some_x : some x ≡ some info = rw same at h in
            let x_info : x ≡ info = cc some_x in
            let x_c : x.connector ≡ some c = ap (λ (y : DeviceInfo). y.connector) x_info ∙ has_c in
            connected-other name devices file1 (rw m_name at distinct.0)
            ∙ rw (process_connected_device, x_c, m_name)
                (lookup-insert_same name (live renamed name c x.device_type false) file
                  ∙ ap (λ (y : DeviceInfo). some (live renamed name c y.device_type false)) x_info)
        | inr other ↦ connected-found name info c devices file1 distinct.1 (rw other at h) has_c
      ]

  -- What the disconnected devices leave.
  pub record Leaves (name : String) (file file' : Dict String SavedDevice) : Type 0 where
    pub same : lookup name file' ≡ lookup name file
    pub distinct : IsDistinct file → IsDistinct file'

  pub disconnected-Leaves :
      (name : String) (devices : Dict String Disconnected) (file file' : Dict String SavedDevice)
      → lookup name devices ≡ none
      → process_disconnected_devices renamed devices file ≡ some file'
      → Leaves name file file'
  unfolding process_disconnected_devices lookup
  disconnected-Leaves name [] file file' h e =
      let same : file ≡ file' = cc e in
      record { same = ap (lookup name) (sym same); distinct = λ d. rw (sym same) d }
  disconnected-Leaves name ((m, x) ∷ devices) file file' h e =
      elim (Option-cases (disconnected_form renamed m x)) [
        | inl n ↦ absurd (cc (rw (process_disconnected_devices, n) at e))
        | inr (d, s) ↦ elim (Bool-cases (string_eq.beq m name)) [
          | inl same ↦ absurd (cc (rw same at h))
          | inr other ↦
              let rest =
                disconnected-Leaves name devices (insert m d file) file' (rw other at h)
                  (rw (process_disconnected_devices, s) at e) in
              record {
                same = rest.same ∙ lookup-insert_other m name d file other;
                distinct = λ k. rest.distinct (insert-IsDistinct m d file k);
              }
        ]
      ]
