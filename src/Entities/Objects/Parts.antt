-- ===== src/Entities/Objects/Parts.antt =====
-- What the parts of an entry add to the objects of convert_to_objects_with_maximal_size.
use thingsboard_gateway.Prelude.{
  ℕ, ◌+◌, ◌≤◌, ◌<◌, String, List, [], ◌∷◌, ◌++◌, append-nil, append_assoc, ◌≡◌, refl, sym, ap, ◌∙◌,
  none, false, ◌==◌, leb, All, Bool-cases, ◌⊎◌, inl, inr, if◌then◌else◌, arith,
}
use thingsboard_gateway.Prelude.Eq.{nat_eq, string_eq}
use thingsboard_gateway.Prelude.Dict.{lookup, has, IsDistinct, front-IsDistinct}
use thingsboard_gateway.Entities.Datapoint.{DatapointKey, datapoint_eq, Values}
use thingsboard_gateway.Entities.Converted.{ConvertedData, init}
use thingsboard_gateway.Entities.Split.Chunks.{concat, rest-IsDistinct}
use thingsboard_gateway.Entities.Split.Sizes.{weight}
use thingsboard_gateway.Entities.Objects.{
  Document, ConvertedObject, Filling, add_entry, general_size, data_size, ts_data_size, make_room,
  add_chunk, add_chunks,
}
use thingsboard_gateway.Entities.Objects.Adding.{
  points, flat, points-append, IsOpen, add_single-Added,
}

-- The datapoints of all objects.
unfoldable pub points_of : {V : Type 0} → List (ConvertedObject V) → List (ℕ × DatapointKey × V)
unfolding flat
points_of [] = []
points_of (o ∷ os) = flat o.data_part.telemetry ++ points_of os

pub points_of-append :
    {V : Type 0} (os : List (ConvertedObject V)) (o : ConvertedObject V)
    → points_of (os ++ o ∷ []) ≡ points_of os ++ flat o.data_part.telemetry
unfolding points_of
points_of-append [] o = append-nil (flat o.data_part.telemetry)
points_of-append (x ∷ os) o =
    ap (λ ps. flat x.data_part.telemetry ++ ps) (points_of-append os o)
    ∙ sym (append_assoc (flat x.data_part.telemetry) (points_of os) (flat o.data_part.telemetry))

weight_empty :
    {V : Type 0} (size : String → V → ℕ) (chunk : Values V) (n : ℕ)
    → weight size chunk ≤ n
    → (0 < n) ⊎ (chunk ≡ [])
unfolding weight
weight_empty size [] n h = inr refl
weight_empty size ((k, v) ∷ chunk) n h = inl (omega (arith, h))

module _ {V : Type 0} where
  abbrev pub all_points : Filling V → List (ℕ × DatapointKey × V)
  all_points f = points_of f.converted_objects ++ flat f.current_data.data_part.telemetry

  -- The size is at least that of the general information, and more when there is telemetry.
  pub record IsFilled (general : ℕ) (f : Filling V) : Type 0 where
    pub at_least : general ≤ f.current_data_size
    pub nothing : (general < f.current_data_size) ⊎ (flat f.current_data.data_part.telemetry ≡ [])

  -- The entry of a time stamp may go on with `rest`.
  pub record IsReady (general ts : ℕ) (rest : Values V) (f : Filling V) : Type 0 where
    pub front : Values V
    pub is_open : IsOpen ts front f.current_data.data_part
    pub distinct : IsDistinct (front ++ rest)
    pub filled : IsFilled general f

  -- What a change does for other time stamps.
  abbrev pub KeepsNew : ℕ → Filling V → Filling V → Type 0
  KeepsNew ts f f' =
      (u : ℕ)
      → (ts == u) ≡ false
      → lookup u f.current_data.data_part.ts_index ≡ none
      → lookup u f'.current_data.data_part.ts_index ≡ none

  pub record Adds (general ts : ℕ) (chunk rest : Values V) (f f' : Filling V) : Type 0 where
    pub ready : IsReady general ts rest f'
    pub datapoints : all_points f' ≡ all_points f ++ points ts chunk
    pub new : KeepsNew ts f f'

  pub add_entry-Adds :
      (general ts size : ℕ) (chunk rest : Values V) (f : Filling V)
      → (0 < size) ⊎ (chunk ≡ [])
      → IsReady general ts (chunk ++ rest) f
      → Adds general ts chunk rest f (add_entry (record { ts = ts; values = chunk }) size f)
  unfolding points
  add_entry-Adds general ts size chunk rest f heavy h =
      let c = f.current_data.data_part in
      let telemetry = flat c.telemetry in
      let behind : IsDistinct ((h.front ++ chunk) ++ rest) =
        rw (append_assoc h.front chunk rest) h.distinct in
      let a =
        add_single-Added ts h.front chunk c h.is_open
          (front-IsDistinct (h.front ++ chunk) rest behind) in
      record {
        ready = record {
          front = h.front ++ chunk;
          is_open = a.is_open;
          distinct = behind;
          filled = record {
            at_least = omega (arith, h.filled.at_least);
            nothing = elim heavy [
              | inl more ↦ inl (omega (arith, h.filled.at_least, more))
              | inr e ↦ elim h.filled.nothing [
                | inl more ↦ inl (omega (arith, more))
                | inr no_points ↦ inr (
                    a.datapoints
                    ∙ ap (λ x. telemetry ++ points ts x) e
                    ∙ append-nil telemetry
                    ∙ no_points)
              ]
            ];
          };
        };
        datapoints =
            ap (λ x. points_of f.converted_objects ++ x) a.datapoints
            ∙ sym (append_assoc (points_of f.converted_objects) telemetry (points ts chunk));
        new = λ u other unknown. a.others u other ∙ unknown;
      }

module _ {V : Type 0} (get_data_size : Document V → ℕ) (max_data_size : ℕ)
    (self : ConvertedData V) where
  module _ (ts : ℕ) where
    -- A new object has nothing of the time stamp.
    make_room-IsReady :
        (size : ℕ) (rest : Values V) (f : Filling V)
        → IsReady (general_size get_data_size max_data_size self) ts rest f
        → IsReady
            (general_size get_data_size max_data_size self)
            ts
            rest
            (make_room get_data_size max_data_size self size f)
    unfolding make_room IsOpen lookup flat init
    make_room-IsReady size rest f h =
        elim (Bool-cases (leb (f.current_data_size + size) max_data_size)) [
          | inl e ↦ rw e h
          | inr e ↦ rw e (record {
            front = [];
            is_open = inl (refl, refl);
            distinct = rest-IsDistinct h.front rest h.distinct;
            filled = record { at_least = omega arith; nothing = inr refl };
          })
        ]

    make_room-points :
        (size : ℕ) (f : Filling V)
        → all_points (make_room get_data_size max_data_size self size f) ≡ all_points f
    unfolding make_room flat init
    make_room-points size f = elim (Bool-cases (leb (f.current_data_size + size) max_data_size)) [
      | inl e ↦ rw e refl
      | inr e ↦ rw e (
          append-nil (points_of (f.converted_objects ++ f.current_data ∷ []))
          ∙ points_of-append f.converted_objects f.current_data)
    ]

    make_room-KeepsNew :
        (size : ℕ) (f : Filling V)
        → KeepsNew ts f (make_room get_data_size max_data_size self size f)
    unfolding make_room lookup init
    make_room-KeepsNew size f u other h =
        elim (Bool-cases (leb (f.current_data_size + size) max_data_size)) [
          | inl e ↦ rw e h
          | inr e ↦ rw e refl
        ]

    add_chunk-Adds :
        (chunk : Values V) (size : ℕ) (rest : Values V) (f : Filling V)
        → weight (data_size get_data_size max_data_size self) chunk ≤ size
        → IsReady (general_size get_data_size max_data_size self) ts (chunk ++ rest) f
        → Adds
            (general_size get_data_size max_data_size self)
            ts
            chunk
            rest
            f
            (add_chunk get_data_size max_data_size self ts (chunk, size) f)
    unfolding add_chunk
    add_chunk-Adds chunk size rest f heavy h =
        let general = general_size get_data_size max_data_size self in
        let f1 = make_room get_data_size max_data_size self size f in
        let more =
          if has ts f1.current_data.data_part.ts_index
          then ts_data_size get_data_size max_data_size self ts
          else 0 in
        let a =
          add_entry-Adds general ts (size + more) chunk rest f1
            (weight_empty (data_size get_data_size max_data_size self) chunk (size + more)
              (omega (arith, heavy)))
            (make_room-IsReady size (chunk ++ rest) f h) in
        record {
          ready = a.ready;
          datapoints = a.datapoints ∙ ap (λ x. x ++ points ts chunk) (make_room-points size f);
          new = λ u other unknown. a.new u other (make_room-KeepsNew size f u other unknown);
        }

    pub add_chunks-Adds :
        (chunks : List (Values V × ℕ)) (f : Filling V)
        → All (λ c. weight (data_size get_data_size max_data_size self) c.0 ≤ c.1) chunks
        → IsReady (general_size get_data_size max_data_size self) ts (concat chunks) f
        → Adds
            (general_size get_data_size max_data_size self)
            ts
            (concat chunks)
            []
            f
            (add_chunks get_data_size max_data_size self ts chunks f)
    unfolding add_chunks concat points
    add_chunks-Adds [] f heavy h = record {
      ready = h;
      datapoints = sym (append-nil (all_points f));
      new = λ u other unknown. unknown;
    }
    add_chunks-Adds ((chunk, size) ∷ chunks) f heavy h =
        let f1 = add_chunk get_data_size max_data_size self ts (chunk, size) f in
        let a = add_chunk-Adds chunk size (concat chunks) f heavy.0 h in
        let b = add_chunks-Adds chunks f1 heavy.1 a.ready in
        record {
          ready = b.ready;
          datapoints =
              b.datapoints
              ∙ ap (λ x. x ++ points ts (concat chunks)) a.datapoints
              ∙ append_assoc (all_points f) (points ts chunk) (points ts (concat chunks))
              ∙ ap (λ x. all_points f ++ x) (sym (points-append ts chunk (concat chunks)));
          new = λ u other unknown. b.new u other (a.new u other unknown);
        }
