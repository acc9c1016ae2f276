-- ===== src/Entities/Objects/Kept.antt =====
-- The objects of convert_to_objects_with_maximal_size have all telemetry, in its order.
use thingsboard_gateway.Prelude.{
  ℕ, ◌+◌, ◌≤◌, ◌<◌, String, List, [], ◌∷◌, ◌++◌, ◌≡◌, ◌≢◌, refl, ap, ◌∙◌, none, some, true, false,
  leb, ltb, ◌⊎◌, inl, inr, arith,
}
use thingsboard_gateway.Prelude.Eq.{nat_eq, string_eq}
use thingsboard_gateway.Prelude.Dict.{Dict, lookup}
use thingsboard_gateway.Entities.Datapoint.{datapoint_eq, TelemetryEntry}
use thingsboard_gateway.Entities.Converted.{ConvertedData, init}
use thingsboard_gateway.Entities.Objects.{
  Document, values, ConvertedObject, attribute_error, objects, Filling, to_dict, new_object,
  general_size, add_all_telemetry, close_objects, empty_filling, add_attributes, convert_filled,
  convert_to_objects_with_maximal_size,
}
use thingsboard_gateway.Entities.Objects.Adding.{flat}
use thingsboard_gateway.Entities.Objects.Parts.{points_of, all_points, IsFilled}
use thingsboard_gateway.Entities.Objects.Telemetry.{
  IsApart, AllNew, add_all_telemetry-AddsAll, close_objects-points,
}

module _ {V : Type 0} (get_data_size : Document V → ℕ) (max_data_size : ℕ)
    (self : ConvertedData V) where
  abbrev general : ℕ
  general = general_size get_data_size max_data_size self

  all_new :
      (es : List (TelemetryEntry V)) (f : Filling V)
      → f.current_data.data_part.ts_index ≡ []
      → AllNew get_data_size max_data_size self es f
  unfolding lookup
  all_new [] f h = tt
  all_new (e ∷ es) f h = (rw h refl, all_new es f h)

  -- The objects of a method that starts with `f`.
  filled-points :
      (f : Filling V)
      → f.current_data.data_part.ts_index ≡ []
      → all_points f ≡ []
      → IsFilled general f
      → IsApart self.telemetry
      → (os : List (ConvertedObject V)) × (convert_filled get_data_size max_data_size self (some f)
          ≡ objects os)
        × (points_of os ≡ flat self.telemetry)
  unfolding convert_filled
  filled-points f index no_points filled apart =
      let f1 = add_all_telemetry get_data_size max_data_size self self.telemetry f in
      let a =
        add_all_telemetry-AddsAll get_data_size max_data_size self self.telemetry f apart
          (all_new self.telemetry f index) filled in
      (
        close_objects get_data_size max_data_size self f1,
        refl,
        close_objects-points get_data_size max_data_size self f1 a.filled
            ∙ a.datapoints
            ∙ ap (λ x. x ++ flat self.telemetry) no_points,
      )

  add_attributes-start :
      (attributes : Dict String V)
      → (attributes ≡ []) ⊎ (general + get_data_size (values attributes) ≤ max_data_size)
      → (f : Filling V) × (add_attributes get_data_size max_data_size self attributes ≡ some f)
        × (f.current_data.data_part.ts_index ≡ [])
        × (all_points f ≡ [])
        × IsFilled general f
  unfolding add_attributes init flat points_of
  add_attributes-start [] h = (
    empty_filling get_data_size max_data_size self,
    refl,
    refl,
    refl,
    record { at_least = omega arith; nothing = inr refl },
  )
  add_attributes-start (x ∷ attributes) (inl e) = absurd (cc e)
  add_attributes-start (x ∷ attributes) (inr fits) =
      let size = get_data_size (values (x ∷ attributes)) in
      let small : leb (general + size) max_data_size ≡ true = ground (arith, fits) in
      (
        record (empty_filling get_data_size max_data_size self) {
          current_data = record (new_object self) { attributes = x ∷ attributes };
          current_data_size = general + size;
        },
        rw (add_attributes, small) refl,
        refl,
        refl,
        record { at_least = omega arith; nothing = inr refl },
      )

  -- When the general information fits, and the attributes fit beside it or there are none, the
  -- method returns objects, and these have all datapoints of the telemetry, each once, with its
  -- time stamp and in the order it had. The time stamps of the telemetry differ.
  pub objects_kept :
      general ≤ max_data_size
      → (to_dict self.attributes [] ≡ [])
        ⊎ (general + get_data_size (values (to_dict self.attributes [])) ≤ max_data_size)
      → IsApart self.telemetry
      → (os : List (ConvertedObject V)) × (convert_to_objects_with_maximal_size get_data_size
            max_data_size self
          ≡ objects os)
        × (points_of os ≡ flat self.telemetry)
  unfolding convert_to_objects_with_maximal_size
  objects_kept room fits apart =
      let large : ltb max_data_size general ≡ false = ground (arith, room) in
      let (f, started, index, no_points, filled) =
        add_attributes-start (to_dict self.attributes []) fits in
      let (os, converted, kept) = filled-points f index no_points filled apart in
      (os, rw (convert_to_objects_with_maximal_size, large, started) converted, kept)

  refused :
      (attributes : Dict String V)
      → attributes ≢ []
      → max_data_size < general + get_data_size (values attributes)
      → add_attributes get_data_size max_data_size self attributes ≡ none
  unfolding add_attributes
  refused [] n h = absurd (n refl)
  refused (x ∷ attributes) n h =
      let big : leb (general + get_data_size (values (x ∷ attributes))) max_data_size ≡ false =
        ground (arith, h) in
      rw (add_attributes, big) refl

  -- Attributes that do not fit beside the general information are never sent: the method raises
  -- an AttributeError whenever there are any.
  attributes_refused :
      general ≤ max_data_size
      → to_dict self.attributes [] ≢ []
      → max_data_size < general + get_data_size (values (to_dict self.attributes []))
      → convert_to_objects_with_maximal_size get_data_size max_data_size self ≡ attribute_error
  unfolding convert_to_objects_with_maximal_size convert_filled
  attributes_refused room some_there large =
      let attributes = to_dict self.attributes [] in
      let fits : ltb max_data_size general ≡ false = ground (arith, room) in
      rw (convert_to_objects_with_maximal_size, fits)
        (ap (convert_filled get_data_size max_data_size self) (refused attributes some_there large))
