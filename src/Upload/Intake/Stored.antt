-- ===== src/Upload/Intake/Stored.antt =====
-- What of a connector's data comes into the storage.
use thingsboard_gateway.Prelude.{
  ℕ, ◌+◌, ◌≤◌, String, List, [], ◌≡◌, refl, ap, ◌∙◌, true, false, ◌⊎◌, inl, inr, All, get_or,
}
use thingsboard_gateway.Prelude.Eq.{string_eq}
use thingsboard_gateway.Storage.Contract.{EventStorage}
use thingsboard_gateway.Entities.Converted.{ConvertedData}
use thingsboard_gateway.Entities.Objects.{Document, values, ConvertedObject, to_dict, general_size}
use thingsboard_gateway.Entities.Objects.Adding.{flat}
use thingsboard_gateway.Entities.Objects.Parts.{points_of}
use thingsboard_gateway.Entities.Objects.Telemetry.{IsApart}
use thingsboard_gateway.Entities.Objects.Carried.{
  attributes_of, by_text, IsFrom, to_dict-by_text, objects-Carried,
}
use thingsboard_gateway.Entities.Objects.Kept.{objects_kept}
use thingsboard_gateway.Prelude.Dict.{Dict, lookup, IsDistinct}
use thingsboard_gateway.Devices.{Service, Reply, done}
use thingsboard_gateway.Upload.Intake.{
  Gateway, Surroundings, Entry, goes_on, validate_converted_data, count_message, store_objects,
  connect_device, store_conversion, store_data, enter_data, renamed_data, take_data,
}

weigh_and_fit :
    {V : Type 0} (attributes : Dict String V) (general size most : ℕ)
    → (attributes ≡ []) ⊎ ((1 ≤ size) × (general + size ≤ most))
    → ((attributes ≡ []) ⊎ (1 ≤ size)) × ((attributes ≡ []) ⊎ (general + size ≤ most))
weigh_and_fit attributes general size most (inl nothing) = (inl nothing, inl nothing)
weigh_and_fit attributes general size most (inr (heavy, fits)) = (inr heavy, inr fits)

module _ {A S E V : Type 0} (ops : EventStorage S E) (dumps : ConvertedObject V → E)
    (get_data_size : Document V → ℕ) (r : Surroundings) (connector_name connector_id : String) where
  abbrev connected : ConvertedData V → Service A → Service A × Entry
  connected c s = connect_device r connector_name connector_id c.device_name c.device_type s

  take_data_lem :
      (c : ConvertedData V) (g : Gateway A S)
      → string_eq.beq connector_name r.gateway_name ≡ false
      → validate_converted_data c ≡ true
      → take_data ops dumps get_data_size r connector_name connector_id c g
        ≡ enter_data ops dumps get_data_size r connector_name connector_id
            (renamed_data g.service c)
            (connected (renamed_data g.service c) g.service).1
            (record g { service = (connected (renamed_data g.service c) g.service).0 })
  unfolding take_data
  take_data_lem c g foreign valid = rw (take_data, foreign, valid) refl

  -- Valid data of a connector whose device is connected, or can be added: the method returns, and
  -- the storage is given objects that have together all datapoints of the telemetry, in order and
  -- with their time stamps, and all attributes, in order and under the texts of their keys, and each
  -- of which has the type of the device and its name, which is the new one of a renamed device. The
  -- general information and the attributes, if any, fit into one object, the size of the attributes
  -- is not 0, the time stamps differ, and so do the texts of the attributes' keys.
  pub taken_stored :
      (c : ConvertedData V) (g : Gateway A S)
      → string_eq.beq connector_name r.gateway_name ≡ false
      → validate_converted_data c ≡ true
      → (connected (renamed_data g.service c) g.service).1 ≡ goes_on
      → general_size get_data_size r.max_data_size (renamed_data g.service c) ≤ r.max_data_size
      → (by_text c.attributes ≡ [])
        ⊎ ((1 ≤ get_data_size (values (by_text c.attributes)))
            × (general_size get_data_size r.max_data_size (renamed_data g.service c)
                  + get_data_size (values (by_text c.attributes))
                ≤ r.max_data_size))
      → IsApart c.telemetry
      → IsDistinct (by_text c.attributes)
      → let t = take_data ops dumps get_data_size r connector_name connector_id c g in
        let name = get_or (lookup c.device_name g.service.renamed_devices) c.device_name in
        (os : List (ConvertedObject V)) × (points_of os ≡ flat c.telemetry)
        × (attributes_of os ≡ by_text c.attributes)
        × All (IsFrom name c.device_type) os
        × (t.0.storage ≡ store_objects ops dumps os g.storage)
        × (t.1 ≡ done)
  unfolding enter_data store_data store_conversion renamed_data
  taken_stored c g foreign valid entered room fits apart distinct =
      let d = renamed_data g.service c in
      let g1 = record g { service = (connected d g.service).0 } in
      let counted = record g1 {
        connector_incoming_messages = count_message connector_id g1.connector_incoming_messages;
      } in
      let texts : to_dict d.attributes [] ≡ by_text c.attributes =
        to_dict-by_text c.attributes distinct in
      let (heavy, fit) =
        weigh_and_fit (by_text c.attributes) (general_size get_data_size r.max_data_size d)
          (get_data_size (values (by_text c.attributes))) r.max_data_size fits in
      let (os, converted, kept) =
        objects_kept get_data_size r.max_data_size d room (rw texts fit) apart in
      let carried = objects-Carried get_data_size r.max_data_size d os (rw texts heavy) converted in
      let all : take_data ops dumps get_data_size r connector_name connector_id c g
          ≡ (record counted { storage = store_objects ops dumps os g.storage }, done) =
        take_data_lem c g foreign valid
        ∙ ap (λ e. enter_data ops dumps get_data_size r connector_name connector_id d e g1) entered
        ∙ ap (λ o. store_conversion ops dumps get_data_size r connector_name connector_id o counted)
            converted in
      (
        os,
        kept,
        carried.attributes ∙ texts,
        carried.from,
        ap (λ (t : Gateway A S × Reply). t.0.storage) all,
        ap (λ (t : Gateway A S × Reply). t.1) all,
      )
