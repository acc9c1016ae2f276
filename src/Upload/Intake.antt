-- ===== src/Upload/Intake.antt =====
-- __send_to_storage_new_formatted_data of thingsboard_gateway/gateway/tb_gateway_service.py: what the
-- gateway does with the ConvertedData of a connector. The latency debug mode is off, and with it the
-- metadata and their stamps; statistics and logging are left out.
pub mod Stored
mod Examples
use thingsboard_gateway.Prelude.{
  ℕ, ◌+◌, String, List, [], ◌∷◌, Option, none, some, get_or, Bool, true, false, not, ◌&&◌, ◌||◌,
  ◌==◌, is_empty, if◌then◌else◌,
}
use thingsboard_gateway.Prelude.Eq.{Eq, string_eq}
use thingsboard_gateway.Prelude.Dict.{Dict, lookup, insert, has}
use thingsboard_gateway.Storage.Contract.{EventStorage}
use thingsboard_gateway.Upload.Save.{save}
use thingsboard_gateway.Entities.Converted.{ConvertedData}
use thingsboard_gateway.Entities.Objects.{
  Document, ConvertedObject, Conversion, too_small, attribute_error, objects,
  convert_to_objects_with_maximal_size,
}
use thingsboard_gateway.Devices.{Connector, Service, Reply, returned, done, raised}
use thingsboard_gateway.Devices.Registry.{add_device}

-- The fields of the service that the method changes.
pub record Gateway (A S : Type 0) : Type 0 where
  pub service : Service A
  pub storage : S
  pub connector_incoming_messages : Dict String ℕ

-- What the method reads of the rest of the service and of the time.
pub record Surroundings : Type 0 where
  pub gateway_name : String
  pub is_connected : Bool
  pub now : ℕ
  pub max_data_size : ℕ
  pub available_connectors_by_id : Dict String Connector
  pub available_connectors_by_name : Dict String Connector

-- Whether the method goes on with the data, leaves them out, or raises.
pub data Entry : Type 0 where
  goes_on skipped failed : Entry

unfoldable pub after_reply : Reply → Entry
after_reply (returned b) = goes_on
after_reply done = goes_on
after_reply raised = failed

-- `TBUtility.validate_converted_data`, for a device name that is there.
unfoldable pub validate_converted_data : {V : Type 0} → ConvertedData V → Bool
validate_converted_data c = not (is_empty c.telemetry && is_empty c.attributes)

-- The connector by its id, or else by its name.
unfoldable pub find_connector : Surroundings → String → String → Option Connector
find_connector r connector_id connector_name =
    elim (lookup connector_id r.available_connectors_by_id) [
      | some c ↦ some c
      | none ↦ lookup connector_name r.available_connectors_by_name
    ]

-- The count of a connector's messages: a count that is not there or 0 is set to 0.
unfoldable pub count_message : String → Dict String ℕ → Dict String ℕ
count_message connector_id counts =
    let n = get_or (lookup connector_id counts) 0 in
    insert connector_id (if n == 0 then 0 else n + 1) counts

module _ {A V : Type 0} where
  -- The name that the platform has given the device.
  unfoldable pub renamed_data : Service A → ConvertedData V → ConvertedData V
  renamed_data s c = record c {
    metadata = [];
    device_name = get_or (lookup c.device_name s.renamed_devices) c.device_name;
  }

module _ {A : Type 0} (r : Surroundings) (connector_name connector_id : String) where
  -- A device that is not connected is added.
  unfoldable pub connect_device : String → String → Service A → Service A × Entry
  unfolding find_connector after_reply add_device
  connect_device name type s =
      if r.is_connected && not (has name s.connected_devices)
      then elim (find_connector r connector_id connector_name) [
        | none ↦ (s, skipped)
        | some c ↦
            let added = add_device r.is_connected r.now name (some c) (some type) s in
            (added.0, after_reply added.1)
      ]
      else (s, goes_on)

module _ {S E V : Type 0} (ops : EventStorage S E) (dumps : ConvertedObject V → E) where
  -- The object's texts go into the storage one after another, whether they are taken or not.
  unfoldable pub store_objects : List (ConvertedObject V) → S → S
  unfolding save
  store_objects [] s = s
  store_objects (o ∷ os) s = store_objects os (save ops (dumps o) s).0

module _ {A S E V : Type 0} (ops : EventStorage S E) (dumps : ConvertedObject V → E)
    (get_data_size : Document V → ℕ) (r : Surroundings) (connector_name connector_id : String) where
  unfoldable pub store_conversion : Conversion V → Gateway A S → Gateway A S × Reply
  unfolding store_objects
  store_conversion too_small g = (g, raised)
  store_conversion attribute_error g = (g, raised)
  store_conversion (objects os) g =
      (record g { storage = store_objects ops dumps os g.storage }, done)

  unfoldable pub store_data : ConvertedData V → Gateway A S → Gateway A S × Reply
  unfolding store_conversion count_message convert_to_objects_with_maximal_size
  store_data c g =
      store_conversion (convert_to_objects_with_maximal_size get_data_size r.max_data_size c)
        (record g {
          connector_incoming_messages = count_message connector_id g.connector_incoming_messages;
        })

  unfoldable pub enter_data : ConvertedData V → Entry → Gateway A S → Gateway A S × Reply
  unfolding store_data
  enter_data c goes_on g = store_data c g
  enter_data c skipped g = (g, done)
  enter_data c failed g = (g, raised)

  -- A round of the loop. Data of the gateway itself get its name and type, and go nowhere.
  unfoldable pub take_data : ConvertedData V → Gateway A S → Gateway A S × Reply
  unfolding validate_converted_data renamed_data connect_device enter_data
  take_data c g =
      if string_eq.beq connector_name r.gateway_name || not (validate_converted_data c)
      then (g, done)
      else (let c = renamed_data g.service c in
          let entered =
            connect_device r connector_name connector_id c.device_name c.device_type g.service in
          enter_data c entered.1 (record g { service = entered.0 }))

  unfoldable pub go_on : List (ConvertedData V) → Gateway A S × Reply → Gateway A S × Reply
  unfolding take_data
  go_on [] result = result
  go_on (c ∷ cs) (g, raised) = (g, raised)
  go_on (c ∷ cs) (g, done) = go_on cs (take_data c g)
  go_on (c ∷ cs) (g, returned b) = go_on cs (take_data c g)

  -- `__send_to_storage_new_formatted_data`
  unfoldable pub send_to_storage_new_formatted_data :
      List (ConvertedData V) → Gateway A S → Gateway A S × Reply
  unfolding go_on
  send_to_storage_new_formatted_data cs g = go_on cs (g, done)
