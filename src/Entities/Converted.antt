-- ===== src/Entities/Converted.antt =====
-- The class ConvertedData of thingsboard_gateway/gateway/entities/converted_data.py: its data and
-- the methods that add to it.
pub mod Index
use Prim.Native.String.{String}
use thingsboard_gateway.Prelude.{
  ℕ, zero, suc, ◌+◌, ◌-◌, List, [], ◌∷◌, ◌++◌, Option, none, some, length, get_elem?, get_or,
}
use thingsboard_gateway.Prelude.Eq.{Eq, nat_eq, string_eq}
use thingsboard_gateway.Prelude.Dict.{Dict, lookup, insert, update}
use thingsboard_gateway.Entities.Datapoint.{DatapointKey, datapoint_eq, Values, TelemetryEntry}

pub record ConvertedData (V : Type 0) : Type 0 where
  pub device_name : String
  pub device_type : String
  pub metadata : Dict String V
  pub telemetry : List (TelemetryEntry V)
  pub attributes : Values V
  pub telemetry_datapoints_count : ℕ
  pub ts_index : Dict ℕ ℕ

module _ {V : Type 0} where
  unfoldable pub init : String → String → Dict String V → ConvertedData V
  init device_name device_type metadata = record {
    device_name = device_name;
    device_type = device_type;
    metadata = metadata;
    telemetry = [];
    attributes = [];
    telemetry_datapoints_count = 0;
    ts_index = [];
  }

  -- `self.telemetry[index].values.update(values)`
  unfoldable pub update_at : ℕ → Values V → List (TelemetryEntry V) → List (TelemetryEntry V)
  update_at index values [] = []
  update_at zero values (e ∷ es) = record e { values = update e.values values } ∷ es
  update_at (suc index) values (e ∷ es) = e ∷ update_at index values es

  -- The number of values of the entry at an index.
  unfoldable pub values_at : ℕ → List (TelemetryEntry V) → ℕ
  values_at index [] = 0
  values_at zero (e ∷ es) = length e.values
  values_at (suc index) (e ∷ es) = values_at index es

  -- `_add_single_telemetry_entry`, for a TelemetryEntry.
  unfoldable pub add_single : TelemetryEntry V → ConvertedData V → ConvertedData V
  add_single entry c = elim (lookup entry.ts c.ts_index) [
    | some index ↦
        let telemetry = update_at index entry.values c.telemetry in
        record c {
          telemetry = telemetry;
          telemetry_datapoints_count =
              c.telemetry_datapoints_count
              + values_at index telemetry
              - values_at index c.telemetry;
        }
    | none ↦ record c {
      telemetry = c.telemetry ++ entry ∷ [];
      telemetry_datapoints_count = c.telemetry_datapoints_count + length entry.values;
      ts_index = insert entry.ts (length c.telemetry) c.ts_index;
    }
  ]

  -- `add_to_telemetry`, for a list.
  unfoldable pub add_to_telemetry : List (TelemetryEntry V) → ConvertedData V → ConvertedData V
  unfolding add_single
  add_to_telemetry [] c = c
  add_to_telemetry (entry ∷ entries) c = add_to_telemetry entries (add_single entry c)

  -- `add_to_attributes`, for a dict.
  unfoldable pub add_to_attributes : Values V → ConvertedData V → ConvertedData V
  add_to_attributes values c = record c { attributes = update c.attributes values }

  -- The loop of `extend` over all telemetry, of which n entries from the index i on are left, with
  -- `last` the index of the last entry: an entry whose time stamp is known is written, as it is by
  -- then, into the one at its index, another has the last index noted.
  unfoldable pub index_all :
      ℕ → ℕ → ℕ → List (TelemetryEntry V) → Dict ℕ ℕ → List (TelemetryEntry V) × Dict ℕ ℕ
  index_all last zero i telemetry index = (telemetry, index)
  index_all last (suc n) i telemetry index = elim (get_elem? telemetry i) [
    | none ↦ (telemetry, index)
    | some entry ↦ elim (lookup entry.ts index) [
      | some j ↦ index_all last n (i + 1) (update_at j entry.values telemetry) index
      | none ↦ index_all last n (i + 1) telemetry (insert entry.ts last index)
    ]
  ]

  unfoldable pub extend : ConvertedData V → ConvertedData V → ConvertedData V
  unfolding index_all update_at
  extend other c =
      let all = c.telemetry ++ other.telemetry in
      let (telemetry, index) = index_all (length all - 1) (length all) 0 all c.ts_index in
      record c {
        telemetry = telemetry;
        attributes = update c.attributes other.attributes;
        metadata = update c.metadata other.metadata;
        telemetry_datapoints_count =
            c.telemetry_datapoints_count + other.telemetry_datapoints_count;
        ts_index = index;
      }
