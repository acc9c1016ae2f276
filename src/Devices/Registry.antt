-- ===== src/Devices/Registry.antt =====
-- The methods of thingsboard_gateway/gateway/tb_gateway_service.py that add a device, delete it and
-- change its connector.
pub mod Reconnect
use thingsboard_gateway.Prelude.{
  ℕ, String, List, [], ◌∷◌, ◌++◌, Option, none, some, is_some, get_or, Bool, true, false, not, ◌&&◌,
  ◌||◌, ◌==◌, if◌then◌else◌,
}
use thingsboard_gateway.Prelude.Eq.{Eq, string_eq}
use thingsboard_gateway.Prelude.Dict.{Dict, lookup, insert, remove, has}
use thingsboard_gateway.Devices.{
  Connector, DeviceInfo, Disconnected, kept, nothing, AddedDevice, Request, gw_connect_device,
  gw_disconnect_device, gw_send_attributes, connector_changed, Action, connect, disconnect, Service,
  Reply, returned, done, raised,
}
use thingsboard_gateway.Devices.Persist.{get_dict_key_by_value, save_persistent_devices}

unfoldable pub has_shared_keys : Option Connector → Bool
has_shared_keys none = false
has_shared_keys (some c) = c.has_shared_keys

unfoldable pub has_details : AddedDevice → Connector → Bool
has_details a c = string_eq.beq a.connector_type c.type && string_eq.beq a.connector_name c.name

-- Whether two connectors are one object.
unfoldable pub is_same : Option Connector → Connector → Bool
is_same none c = false
is_same (some d) c = d.object == c.object

-- `get_devices` of a connector: the names with the types.
unfoldable pub get_devices : String → Dict String DeviceInfo → Dict String String
get_devices connector_id [] = []
get_devices connector_id ((name, info) ∷ devices) =
    let rest = get_devices connector_id devices in
    elim info.connector [
      | none ↦ rest
      | some c ↦ if string_eq.beq c.id connector_id then (name, info.device_type) ∷ rest else rest
    ]

module _ {A : Type 0} where
  abbrev pub request : Request → Service A → Service A
  request r s = record s { requests = s.requests ++ r ∷ [] }

  -- The device is put into the queue of the devices whose shared attributes are asked for.
  unfoldable pub sync : String → Option Connector → Service A → Service A
  sync device none s = s
  sync device (some c) s =
      if s.sync_on_connect && c.has_shared_keys
      then record s { sync_queue = s.sync_queue ++ (device, c) ∷ [] }
      else s

  -- A device that has been renamed, from `name` to `new_name`.
  unfoldable pub add_renamed : String → String → Option Connector → Service A → Service A × Reply
  unfolding sync save_persistent_devices
  add_renamed name new_name c s =
      let s = sync new_name c s in
      save_persistent_devices
        (record s { disconnected_devices = remove name s.disconnected_devices })
        (λ s. (s, returned true))

  -- The details are sent when they are not those that were sent last.
  unfoldable pub send_details : ℕ → String → Connector → Service A → Service A
  unfolding has_details
  send_details now name c s =
      let sent = record s {
        added_devices =
            insert name
              (record { connector_type = c.type; connector_name = c.name; last_send_ts = now })
              s.added_devices;
        requests = s.requests ++ gw_send_attributes name c.type c.name ∷ [];
      } in
      elim (lookup name s.added_devices) [
        | none ↦ sent
        | some a ↦ if has_details a c then s else sent
      ]

  unfoldable pub send_details_of : ℕ → String → Option Connector → Service A → Service A
  unfolding send_details
  send_details_of now name none s = s
  send_details_of now name (some c) s = send_details now name c s

  unfoldable pub add_new : ℕ → String → String → Option Connector → Service A → Service A × Reply
  unfolding save_persistent_devices send_details_of sync
  add_new now name type c s =
      let info : DeviceInfo = record {
        connector = c;
        device_type = type;
        last_receiving_data = none;
      } in
      save_persistent_devices
        (record s {
          connected_devices = insert name info s.connected_devices;
          saved_devices = insert name info s.saved_devices;
        })
        (λ s. (
          sync name c (send_details_of now name c (request (gw_connect_device name type) s)),
          returned true,
        ))

  -- `add_device`, with whether the client is connected.
  unfoldable pub add_device :
      Bool → ℕ → String → Option Connector → Option String → Service A → Service A × Reply
  unfolding add_renamed add_new get_dict_key_by_value sync
  add_device is_connected now name c type s =
      if not is_connected
      then (record s { devices_shared_attributes = [] }, returned false)
      else elim (lookup name s.renamed_devices) [
        | some new_name ↦ add_renamed name new_name c s
        | none ↦
            if has name s.connected_devices
              || is_some (get_dict_key_by_value s.renamed_devices name)
            then (sync name c s, returned true)
            else add_new now name (get_or type "default") c s
      ]

  unfoldable pub add_device_async :
      String → Connector → Option String → Service A → Service A × Bool
  add_device_async name c type s = if has name s.saved_devices then (s, false) else (
    record s {
      async_device_actions_queue = s.async_device_actions_queue ++ connect name c type ∷ [];
    },
    true,
  )

  unfoldable pub del_device_async : String → Service A → Service A × Bool
  del_device_async name s =
      if has name s.saved_devices
      then (
        record s {
          async_device_actions_queue = s.async_device_actions_queue ++ disconnect name ∷ [];
        },
        true,
      )
      else (s, false)

  -- The device that `del_device` takes from one of the two dicts, and the two that are left.
  unfoldable pub take_device : String → Service A → Service A × Disconnected
  take_device name s = elim (lookup name s.connected_devices) [
    | some info ↦ (record s { connected_devices = remove name s.connected_devices }, kept info)
    | none ↦ elim (lookup name s.disconnected_devices) [
      | some d ↦ (record s { disconnected_devices = remove name s.disconnected_devices }, d)
      | none ↦ (s, nothing)
    ]
  ]

  -- A device that has been renamed is kept with the disconnected.
  unfoldable pub keep_renamed : String → Service A × Disconnected → Service A
  keep_renamed name (s, device) =
      if has name s.renamed_devices
      then record s { disconnected_devices = insert name device s.disconnected_devices }
      else s

  unfoldable pub forget_shared : Bool → String → Service A → Service A
  forget_shared remove_device name s =
      if remove_device
      then record s { devices_shared_attributes = remove name s.devices_shared_attributes }
      else s

  -- `del_device`
  unfoldable pub del_device : Bool → String → Service A → Service A × Reply
  unfolding take_device keep_renamed save_persistent_devices forget_shared
  del_device remove_device name s =
      let s1 = keep_renamed name (take_device name (request (gw_disconnect_device name) s)) in
      save_persistent_devices
        (record s1 {
          saved_devices = remove name s1.saved_devices;
          added_devices = remove name s1.added_devices;
        })
        (λ s. (forget_shared remove_device name s, done))

  -- `update_device` for the event "connector".
  unfoldable pub update_device : String → Connector → Service A → Service A × Reply
  unfolding is_same save_persistent_devices
  update_device name c s = elim (lookup name s.connected_devices) [
    | none ↦ (s, done)
    | some info ↦
        let s' = record s {
          connected_devices = insert name (record info { connector = some c }) s.connected_devices;
        } in
        if is_same info.connector c
        then (s', done)
        else save_persistent_devices s'
            (λ s. (request (connector_changed name info.device_type c) s, done))
  ]

  unfoldable pub act : Bool → ℕ → Action → Service A → Service A × Reply
  unfolding add_device del_device
  act is_connected now (connect name c type) s = add_device is_connected now name (some c) type s
  act is_connected now (disconnect name) s = del_device true name s

  -- `__process_async_device_actions` for the next action.
  unfoldable pub process_async_device_action :
      Bool → ℕ → List Action → Service A → Service A × Reply
  unfolding act
  process_async_device_action is_connected now [] s = (s, done)
  process_async_device_action is_connected now (a ∷ actions) s =
      act is_connected now a (record s { async_device_actions_queue = actions })
