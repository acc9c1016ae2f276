-- ===== src/Devices.antt =====
-- The devices of the gateway, in thingsboard_gateway/gateway/tb_gateway_service.py: what the service
-- knows of them, and the file connected_devices.json. A file of an older format is left out.
pub mod Persist
pub mod Registry
pub mod Notified
pub mod Idle
pub mod Rpc
mod Examples
use thingsboard_gateway.Prelude.{ℕ, String, List, Option, Bool}
use thingsboard_gateway.Prelude.Dict.{Dict}

-- A connector, by the number of the object, with what its methods `get_name`, `get_id` and
-- `get_type` return and whether it has `get_device_shared_attributes_keys`.
pub record Connector : Type 0 where
  pub object : ℕ
  pub name : String
  pub id : String
  pub type : String
  pub has_shared_keys : Bool

-- The dict of a connected device.
pub record DeviceInfo : Type 0 where
  pub connector : Option Connector
  pub device_type : String
  pub last_receiving_data : Option ℕ

-- A device in the file.
pub record SavedDevice : Type 0 where
  pub connector_name : String
  pub device_type : String
  pub connector_id : String
  pub renaming : Option String
  pub disconnected : Bool

-- A disconnected device: the dict that it had, its dict of the file, or None.
pub data Disconnected : Type 0 where
  kept : DeviceInfo → Disconnected
  loaded : SavedDevice → Disconnected
  nothing : Disconnected

pub record AddedDevice : Type 0 where
  pub connector_type : String
  pub connector_name : String
  pub last_send_ts : ℕ

-- What goes to the platform: a call of the client, or the name of a connector for the storage.
pub data Request : Type 0 where
  gw_connect_device : String → String → Request
  gw_disconnect_device : String → Request
  gw_send_attributes : String → String → String → Request
  connector_changed : String → String → Connector → Request

pub data Action : Type 0 where
  connect : String → Connector → Option String → Action
  disconnect : String → Action

-- The fields of the service that are about devices; `A` are the shared attributes of a device.
pub record Service (A : Type 0) : Type 0 where
  pub connected_devices : Dict String DeviceInfo
  pub saved_devices : Dict String DeviceInfo
  pub added_devices : Dict String AddedDevice
  pub renamed_devices : Dict String String
  pub disconnected_devices : Dict String Disconnected
  pub devices_shared_attributes : Dict String A
  pub file : Dict String SavedDevice
  pub sync_on_connect : Bool
  pub handle_device_renaming : Bool
  pub sync_queue : List (String × Connector)
  pub async_device_actions_queue : List Action
  pub requests : List Request

-- What a method returns: a Boolean, None, or an exception.
pub data Reply : Type 0 where
  returned : Bool → Reply
  done raised : Reply
