-- ===== src/Entities/Objects.antt =====
-- convert_to_objects_with_maximal_size of thingsboard_gateway/gateway/entities/converted_data.py.
-- An object that it returns has attributes whose keys are texts.
pub mod Adding
pub mod Parts
pub mod Telemetry
pub mod Carried
pub mod Kept
mod Examples
use thingsboard_gateway.Prelude.{
  ℕ, ◌+◌, ◌-◌, String, List, [], ◌∷◌, ◌++◌, Option, some, none, Bool, true, false, not, leb, ltb,
  is_empty, is_some, if◌then◌else◌,
}
use thingsboard_gateway.Prelude.Eq.{nat_eq, string_eq}
use thingsboard_gateway.Prelude.Dict.{Dict, lookup, insert, has}
use thingsboard_gateway.Entities.Datapoint.{DatapointKey, Values, TelemetryEntry}
use thingsboard_gateway.Entities.Converted.{ConvertedData, init, add_single}
use thingsboard_gateway.Entities.Split.{split_large_entries}

-- What `TBUtility.get_data_size` is asked for: the general information, a dict with texts for keys,
-- and the dict of a time stamp.
pub data Document (V : Type 0) : Type 0 where
  general : String → String → Dict String V → Document V
  values : Dict String V → Document V
  stamp : ℕ → Document V

-- The telemetry of an object, and its attributes.
pub record ConvertedObject (V : Type 0) : Type 0 where
  pub data_part : ConvertedData V
  pub attributes : Dict String V

-- The ValueError of a size that is too small, the AttributeError of split_large_entries for keys that
-- are texts, or the objects.
pub data Conversion (V : Type 0) : Type 0 where
  too_small attribute_error : Conversion V
  objects : List (ConvertedObject V) → Conversion V

-- The variables of the method.
pub record Filling (V : Type 0) : Type 0 where
  pub converted_objects : List (ConvertedObject V)
  pub current_data : ConvertedObject V
  pub current_data_size : ℕ

module _ {V : Type 0} where
  -- `to_dict` of attributes, and of the values of an entry.
  unfoldable pub to_dict : Values V → Dict String V → Dict String V
  to_dict [] d = d
  to_dict ((k, v) ∷ entries) d = to_dict entries (insert k.key v d)

  abbrev pub new_object : ConvertedData V → ConvertedObject V
  new_object c = record { data_part = init c.device_name c.device_type c.metadata; attributes = [] }

  -- The current object is put with the others, for a new one.
  abbrev pub next_object : ConvertedData V → ℕ → Filling V → Filling V
  next_object c size f = record {
    converted_objects = f.converted_objects ++ f.current_data ∷ [];
    current_data = new_object c;
    current_data_size = size;
  }

  -- `current_data.add_to_telemetry(entry)`, which makes the object larger by `size`.
  abbrev pub add_entry : TelemetryEntry V → ℕ → Filling V → Filling V
  add_entry entry size f = record f {
    current_data = record f.current_data { data_part = add_single entry f.current_data.data_part };
    current_data_size = f.current_data_size + size;
  }

module _ {V : Type 0} (get_data_size : Document V → ℕ) (max_data_size : ℕ)
    (self : ConvertedData V) where
  abbrev pub general_size : ℕ
  general_size = get_data_size (general self.device_name self.device_type self.metadata)

  -- The size of a datapoint for split_large_entries.
  abbrev pub data_size : String → V → ℕ
  data_size key value = get_data_size (values ((key, value) ∷ []))

  abbrev pub ts_data_size : ℕ → ℕ
  ts_data_size ts = get_data_size (stamp ts) + 1

  abbrev pub entry_data_size : TelemetryEntry V → ℕ
  entry_data_size entry = get_data_size (values (to_dict entry.values [])) + ts_data_size entry.ts

  -- A new object when the chunk does not fit.
  unfoldable pub make_room : ℕ → Filling V → Filling V
  make_room size f =
      if leb (f.current_data_size + size) max_data_size then f else next_object self general_size f

  unfoldable pub add_chunk : ℕ → Values V × ℕ → Filling V → Filling V
  unfolding make_room add_single
  add_chunk ts (chunk, size) f =
      let f = make_room size f in
      let more = if has ts f.current_data.data_part.ts_index then ts_data_size ts else 0 in
      add_entry (record { ts = ts; values = chunk }) (size + more) f

  unfoldable pub add_chunks : ℕ → List (Values V × ℕ) → Filling V → Filling V
  unfolding add_chunk
  add_chunks ts [] f = f
  add_chunks ts (chunk ∷ chunks) f = add_chunks ts chunks (add_chunk ts chunk f)

  -- The chunks of an entry that does not fit.
  abbrev pub chunks_of : TelemetryEntry V → Filling V → List (Values V × ℕ)
  chunks_of entry f =
      split_large_entries data_size (max_data_size - f.current_data_size)
        (max_data_size - general_size) (some (ts_data_size entry.ts)) entry.values

  unfoldable pub add_telemetry : TelemetryEntry V → Filling V → Filling V
  unfolding add_single add_chunks split_large_entries
  add_telemetry entry f =
      if leb (f.current_data_size + entry_data_size entry) max_data_size
      then add_entry entry (entry_data_size entry) f
      else add_chunks entry.ts (chunks_of entry f) f

  unfoldable pub add_all_telemetry : List (TelemetryEntry V) → Filling V → Filling V
  unfolding add_telemetry
  add_all_telemetry [] f = f
  add_all_telemetry (entry ∷ entries) f = add_all_telemetry entries (add_telemetry entry f)

  -- The last object is left out when nothing was added to it.
  unfoldable pub close_objects : Filling V → List (ConvertedObject V)
  close_objects f =
      if leb f.current_data_size general_size
      then f.converted_objects
      else f.converted_objects ++ f.current_data ∷ []

  abbrev pub empty_filling : Filling V
  empty_filling = record {
    converted_objects = [];
    current_data = new_object self;
    current_data_size = general_size;
  }

  -- The attributes go into the first object when they fit. Otherwise they are split, and a key that
  -- is a text has no `key`.
  unfoldable pub add_attributes : Dict String V → Option (Filling V)
  add_attributes attributes =
      let size = get_data_size (values attributes) in
      if is_empty attributes
      then some empty_filling
      else if leb (general_size + size) max_data_size
      then some (record empty_filling {
        current_data = record (new_object self) { attributes = attributes };
        current_data_size = general_size + size;
      })
      else none

  unfoldable pub convert_filled : Option (Filling V) → Conversion V
  unfolding add_all_telemetry close_objects
  convert_filled none = attribute_error
  convert_filled (some f) = objects (close_objects (add_all_telemetry self.telemetry f))

  unfoldable pub convert_to_objects_with_maximal_size : Conversion V
  unfolding to_dict add_attributes convert_filled
  convert_to_objects_with_maximal_size =
      if ltb max_data_size general_size
      then too_small
      else convert_filled (add_attributes (to_dict self.attributes []))
