-- ===== src/Entities/Objects/Carried.antt =====
-- The attributes and the device of the objects of convert_to_objects_with_maximal_size.
use thingsboard_gateway.Prelude.{
  ℕ, ◌+◌, ◌≤◌, ◌<◌, String, List, [], ◌∷◌, ◌++◌, map, append-nil, append_assoc, ◌≡◌, refl, sym, ap,
  ◌∙◌, some, leb, ltb, All, All-append, Bool-cases, Option-cases, ◌⊎◌, inl, inr, arith,
}
use thingsboard_gateway.Prelude.Eq.{nat_eq, string_eq}
use thingsboard_gateway.Prelude.Dict.{Dict, lookup, IsDistinct}
use thingsboard_gateway.Entities.Datapoint.{Values, TelemetryEntry}
use thingsboard_gateway.Entities.Converted.{ConvertedData, init, add_single}
use thingsboard_gateway.Entities.Split.Chunks.{insert_new, next_new}
use thingsboard_gateway.Entities.Objects.{
  Document, values, ConvertedObject, objects, Filling, to_dict, new_object, add_entry, general_size,
  make_room, add_chunk, add_chunks, chunks_of, add_telemetry, add_all_telemetry, close_objects,
  empty_filling, add_attributes, convert_filled, convert_to_objects_with_maximal_size,
}

module _ {V : Type 0} where
  -- The attributes of all objects.
  unfoldable pub attributes_of : List (ConvertedObject V) → Dict String V
  attributes_of [] = []
  attributes_of (o ∷ os) = o.attributes ++ attributes_of os

  -- Attributes under the texts of their keys.
  abbrev pub by_text : Values V → Dict String V
  by_text = map (λ x. (x.0.key, x.1))

  -- The name and the type of the device of an object.
  pub record IsFrom (name type : String) (o : ConvertedObject V) : Type 0 where
    pub name_kept : o.data_part.device_name ≡ name
    pub type_kept : o.data_part.device_type ≡ type

  to_dict-append :
      (entries : Values V) (d : Dict String V)
      → IsDistinct (d ++ by_text entries)
      → to_dict entries d ≡ d ++ by_text entries
  unfolding to_dict
  to_dict-append [] d h = sym (append-nil d)
  to_dict-append ((k, v) ∷ entries) d h =
      let new = insert_new k.key v d (next_new k.key v d (by_text entries) h) in
      let more : IsDistinct ((d ++ (k.key, v) ∷ []) ++ by_text entries) =
        rw (append_assoc d ((k.key, v) ∷ []) (by_text entries)) h in
      ap (to_dict entries) new
      ∙ to_dict-append entries (d ++ (k.key, v) ∷ []) more
      ∙ append_assoc d ((k.key, v) ∷ []) (by_text entries)

  pub to_dict-by_text :
      (entries : Values V) → IsDistinct (by_text entries) → to_dict entries [] ≡ by_text entries
  to_dict-by_text entries h = to_dict-append entries [] h

  attributes_of-append :
      (os : List (ConvertedObject V)) (o : ConvertedObject V)
      → attributes_of (os ++ o ∷ []) ≡ attributes_of os ++ o.attributes
  unfolding attributes_of
  attributes_of-append [] o = append-nil o.attributes
  attributes_of-append (x ∷ os) o =
      ap (λ d. x.attributes ++ d) (attributes_of-append os o)
      ∙ sym (append_assoc x.attributes (attributes_of os) o.attributes)

  abbrev all_attributes : Filling V → Dict String V
  all_attributes f = attributes_of f.converted_objects ++ f.current_data.attributes

  add_single-IsFrom :
      (name type : String) (e : TelemetryEntry V) (o : ConvertedObject V)
      → IsFrom name type o
      → IsFrom name type (record o { data_part = add_single e o.data_part })
  unfolding add_single
  add_single-IsFrom name type e o h = elim (Option-cases (lookup e.ts o.data_part.ts_index)) [
    | inl new ↦ rw (add_single, new) (record { name_kept = h.name_kept; type_kept = h.type_kept })
    | inr (i, known) ↦
        rw (add_single, known) (record { name_kept = h.name_kept; type_kept = h.type_kept })
  ]

module _ {V : Type 0} (get_data_size : Document V → ℕ) (max_data_size : ℕ)
    (self : ConvertedData V) where
  abbrev general : ℕ
  general = general_size get_data_size max_data_size self

  abbrev FromSelf : ConvertedObject V → Type 0
  FromSelf = IsFrom self.device_name self.device_type

  -- The current object is larger than the general information, or has no attributes.
  record IsHeld (f : Filling V) : Type 0 where
    large : (general < f.current_data_size) ⊎ (f.current_data.attributes ≡ [])
    objects_from : All FromSelf f.converted_objects
    current_from : FromSelf f.current_data

  record Carries (f f' : Filling V) : Type 0 where
    held : IsHeld f'
    attributes : all_attributes f' ≡ all_attributes f

  Carries-trans : (f g h : Filling V) → Carries f g → Carries g h → Carries f h
  Carries-trans f g h a b = record { held = b.held; attributes = b.attributes ∙ a.attributes }

  add_entry-Carries :
      (e : TelemetryEntry V) (size : ℕ) (f : Filling V) → IsHeld f → Carries f (add_entry e size f)
  add_entry-Carries e size f h = record {
    held = record {
      large = elim h.large [ inl more ↦ inl (omega (arith, more)) | inr nothing ↦ inr nothing ];
      objects_from = h.objects_from;
      current_from =
          add_single-IsFrom self.device_name self.device_type e f.current_data h.current_from;
    };
    attributes = refl;
  }

  make_room-Carries :
      (size : ℕ) (f : Filling V)
      → IsHeld f
      → Carries f (make_room get_data_size max_data_size self size f)
  unfolding make_room init
  make_room-Carries size f h = elim (Bool-cases (leb (f.current_data_size + size) max_data_size)) [
    | inl e ↦ rw e (record { held = h; attributes = refl })
    | inr e ↦ rw e (record {
      held = record {
        large = inr refl;
        objects_from =
            All-append FromSelf f.converted_objects (f.current_data ∷ []) h.objects_from
              (h.current_from, tt);
        current_from = record { name_kept = refl; type_kept = refl };
      };
      attributes =
          append-nil (attributes_of (f.converted_objects ++ f.current_data ∷ []))
          ∙ attributes_of-append f.converted_objects f.current_data;
    })
  ]

  add_chunks-Carries :
      (ts : ℕ) (chunks : List (Values V × ℕ)) (f : Filling V)
      → IsHeld f
      → Carries f (add_chunks get_data_size max_data_size self ts chunks f)
  unfolding add_chunks add_chunk
  add_chunks-Carries ts [] f h = record { held = h; attributes = refl }
  add_chunks-Carries ts ((chunk, size) ∷ chunks) f h =
      let f1 = make_room get_data_size max_data_size self size f in
      let f2 = add_chunk get_data_size max_data_size self ts (chunk, size) f in
      let a = make_room-Carries size f h in
      let b : Carries f1 f2 = add_entry-Carries (record { ts = ts; values = chunk }) _ f1 a.held in
      Carries-trans f f2 _ (Carries-trans f f1 f2 a b) (add_chunks-Carries ts chunks f2 b.held)

  add_telemetry-Carries :
      (e : TelemetryEntry V) (f : Filling V)
      → IsHeld f
      → Carries f (add_telemetry get_data_size max_data_size self e f)
  unfolding add_telemetry
  add_telemetry-Carries e f h =
      let chunks = chunks_of get_data_size max_data_size self e f in
      ground (arith, add_entry-Carries e _ f h, add_chunks-Carries e.ts chunks f h)

  add_all_telemetry-Carries :
      (es : List (TelemetryEntry V)) (f : Filling V)
      → IsHeld f
      → Carries f (add_all_telemetry get_data_size max_data_size self es f)
  unfolding add_all_telemetry
  add_all_telemetry-Carries [] f h = record { held = h; attributes = refl }
  add_all_telemetry-Carries (e ∷ es) f h =
      let f1 = add_telemetry get_data_size max_data_size self e f in
      let a = add_telemetry-Carries e f h in
      Carries-trans f f1 _ a (add_all_telemetry-Carries es f1 a.held)

  -- What the objects of a filling carry.
  record Closed (f : Filling V) (os : List (ConvertedObject V)) : Type 0 where
    attributes : attributes_of os ≡ all_attributes f
    from : All FromSelf os

  close_objects-Closed :
      (f : Filling V) → IsHeld f → Closed f (close_objects get_data_size max_data_size self f)
  unfolding close_objects
  close_objects-Closed f h =
      let objs = f.converted_objects in
      elim (Bool-cases (leb f.current_data_size general)) [
        | inl e ↦ elim h.large [
          | inl more ↦ absurd (ground (arith, e, more))
          | inr none_left ↦ rw e (record {
            attributes =
                sym (append-nil (attributes_of objs))
                ∙ ap (λ d. attributes_of objs ++ d) (sym none_left);
            from = h.objects_from;
          })
        ]
        | inr e ↦ rw e (record {
          attributes = attributes_of-append objs f.current_data;
          from = All-append FromSelf objs (f.current_data ∷ []) h.objects_from (h.current_from, tt);
        })
      ]

  -- What the method starts with.
  record Starts (attributes : Dict String V) (f : Filling V) : Type 0 where
    held : IsHeld f
    whole : all_attributes f ≡ attributes

  start-Starts :
      (attributes : Dict String V) (f : Filling V)
      → (attributes ≡ []) ⊎ (1 ≤ get_data_size (values attributes))
      → add_attributes get_data_size max_data_size self attributes ≡ some f
      → Starts attributes f
  unfolding add_attributes init attributes_of
  start-Starts [] f heavy e =
      let same : empty_filling get_data_size max_data_size self ≡ f = cc e in
      rw (sym same) (record {
        held = record {
          large = inr refl;
          objects_from = tt;
          current_from = record { name_kept = refl; type_kept = refl };
        };
        whole = refl;
      })
  start-Starts (x ∷ attributes) f (inl none_there) e = absurd (cc none_there)
  start-Starts (x ∷ attributes) f (inr heavy) e =
      let size = get_data_size (values (x ∷ attributes)) in
      elim (Bool-cases (leb (general + size) max_data_size)) [
        | inr big ↦ absurd (cc (rw (add_attributes, big) at e))
        | inl small ↦
            let first : Filling V = record (empty_filling get_data_size max_data_size self) {
              current_data = record (new_object self) { attributes = x ∷ attributes };
              current_data_size = general + size;
            } in
            let same : first ≡ f = cc (rw (add_attributes, small) at e) in
            rw (sym same) (record {
              held = record {
                large = inl (omega (arith, heavy));
                objects_from = tt;
                current_from = record { name_kept = refl; type_kept = refl };
              };
              whole = refl;
            })
      ]

  -- Objects that the method returns have together the attributes, and each has the name and the type
  -- of the device.
  pub record Carried (os : List (ConvertedObject V)) : Type 0 where
    pub attributes : attributes_of os ≡ to_dict self.attributes []
    pub from : All FromSelf os

  filled-Carried :
      (f : Filling V) (os : List (ConvertedObject V))
      → Starts (to_dict self.attributes []) f
      → convert_filled get_data_size max_data_size self (some f) ≡ objects os
      → Carried os
  unfolding convert_filled
  filled-Carried f os start e =
      let f1 = add_all_telemetry get_data_size max_data_size self self.telemetry f in
      let a = add_all_telemetry-Carries self.telemetry f start.held in
      let c = close_objects-Closed f1 a.held in
      let same : close_objects get_data_size max_data_size self f1 ≡ os = cc e in
      rw (sym same)
        (record { attributes = c.attributes ∙ a.attributes ∙ start.whole; from = c.from })

  pub objects-Carried :
      (os : List (ConvertedObject V))
      → (to_dict self.attributes [] ≡ [])
        ⊎ (1 ≤ get_data_size (values (to_dict self.attributes [])))
      → convert_to_objects_with_maximal_size get_data_size max_data_size self ≡ objects os
      → Carried os
  unfolding convert_to_objects_with_maximal_size convert_filled
  objects-Carried os heavy e =
      let attributes = to_dict self.attributes [] in
      elim (Bool-cases (ltb max_data_size general)) [
        | inl large ↦ absurd (cc (rw (convert_to_objects_with_maximal_size, large) at e))
        | inr room ↦
            let e1 = rw (convert_to_objects_with_maximal_size, room) at e in
            elim (Option-cases (add_attributes get_data_size max_data_size self attributes)) [
              | inl refused ↦ absurd (cc (rw refused at e1))
              | inr (f, started) ↦
                  filled-Carried f os (start-Starts attributes f heavy started) (rw started at e1)
            ]
      ]
