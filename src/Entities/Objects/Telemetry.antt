-- ===== src/Entities/Objects/Telemetry.antt =====
-- What the telemetry adds to the objects of convert_to_objects_with_maximal_size.
use thingsboard_gateway.Prelude.{
  ℕ, ◌+◌, ◌-◌, ◌≤◌, List, [], ◌∷◌, ◌++◌, append-nil, append_assoc, ◌≡◌, refl, sym, ap, ◌∙◌, none,
  some, false, ◌==◌, leb, All, Bool-cases, inl, inr, arith,
}
use thingsboard_gateway.Prelude.Eq.{nat_eq, string_eq}
use thingsboard_gateway.Prelude.Dict.{lookup, IsDistinct}
use thingsboard_gateway.Entities.Datapoint.{datapoint_eq, Values, TelemetryEntry}
use thingsboard_gateway.Entities.Converted.{ConvertedData}
use thingsboard_gateway.Entities.Split.Chunks.{concat, split_large_entries-concat}
use thingsboard_gateway.Entities.Split.Sizes.{weight, IsSized, split_large_entries-IsSized}
use thingsboard_gateway.Entities.Objects.{
  Document, Filling, add_entry, general_size, data_size, ts_data_size, entry_data_size, add_chunks,
  chunks_of, add_telemetry, add_all_telemetry, close_objects,
}
use thingsboard_gateway.Entities.Objects.Adding.{points, flat, IsOpen}
use thingsboard_gateway.Entities.Objects.Parts.{
  points_of, points_of-append, all_points, IsFilled, IsReady, KeepsNew, add_entry-Adds,
  add_chunks-Adds,
}

-- Entries whose time stamps differ, and which are dicts.
unfoldable pub IsApart : {V : Type 0} → List (TelemetryEntry V) → Type 0
IsApart [] = Unit
IsApart (e ∷ es) = All (λ x. (e.ts == x.ts) ≡ false) es × IsDistinct e.values × IsApart es

module _ {V : Type 0} (get_data_size : Document V → ℕ) (max_data_size : ℕ)
    (self : ConvertedData V) where
  abbrev general : ℕ
  general = general_size get_data_size max_data_size self

  -- What adding an entry does.
  record AddsEntry (e : TelemetryEntry V) (f f' : Filling V) : Type 0 where
    filled : IsFilled general f'
    datapoints : all_points f' ≡ all_points f ++ points e.ts e.values
    new : KeepsNew e.ts f f'

  abbrev AllWeigh : List (Values V × ℕ) → Type 0
  AllWeigh chunks = All (λ c. weight (data_size get_data_size max_data_size self) c.0 ≤ c.1) chunks

  chunks_of-AllWeigh :
      (first most : ℕ) (chunks : List (Values V × ℕ))
      → All (IsSized (data_size get_data_size max_data_size self) first most) chunks
      → AllWeigh chunks
  chunks_of-AllWeigh first most [] h = tt
  chunks_of-AllWeigh first most (c ∷ chunks) h =
      (h.0.holds, chunks_of-AllWeigh first most chunks h.1)

  whole-AddsEntry :
      (e : TelemetryEntry V) (f : Filling V)
      → IsReady general e.ts (e.values ++ []) f
      → AddsEntry e f (add_entry e (entry_data_size get_data_size max_data_size self e) f)
  whole-AddsEntry e f h =
      let size = entry_data_size get_data_size max_data_size self e in
      let a = add_entry-Adds general e.ts size e.values [] f (inl (omega arith)) h in
      record { filled = a.ready.filled; datapoints = a.datapoints; new = a.new }

  chunks-AddsEntry :
      (e : TelemetryEntry V) (f : Filling V)
      → IsDistinct e.values
      → IsReady general e.ts e.values f
      → AddsEntry e f (
          add_chunks get_data_size max_data_size self e.ts
            (chunks_of get_data_size max_data_size self e f)
            f)
  chunks-AddsEntry e f distinct h =
      let first = max_data_size - f.current_data_size in
      let most = max_data_size - general in
      let sizes = data_size get_data_size max_data_size self in
      let ts_size = some (ts_data_size get_data_size max_data_size self e.ts) in
      let chunks = chunks_of get_data_size max_data_size self e f in
      let all : concat chunks ≡ e.values =
        split_large_entries-concat sizes first most ts_size e.values distinct in
      let a =
        add_chunks-Adds get_data_size max_data_size self e.ts chunks f
          (chunks_of-AllWeigh first most chunks
            (split_large_entries-IsSized sizes first most ts_size e.values))
          (rw all h) in
      record {
        filled = a.ready.filled;
        datapoints = a.datapoints ∙ ap (λ x. all_points f ++ points e.ts x) all;
        new = a.new;
      }

  add_telemetry-AddsEntry :
      (e : TelemetryEntry V) (f : Filling V)
      → IsDistinct e.values
      → lookup e.ts f.current_data.data_part.ts_index ≡ none
      → IsFilled general f
      → AddsEntry e f (add_telemetry get_data_size max_data_size self e f)
  unfolding add_telemetry IsOpen
  add_telemetry-AddsEntry e f distinct unknown filled =
      let fits =
        leb (f.current_data_size + entry_data_size get_data_size max_data_size self e)
          max_data_size in
      let ready : IsReady general e.ts e.values f = record {
        front = [];
        is_open = inl (unknown, refl);
        distinct = distinct;
        filled = filled;
      } in
      elim (Bool-cases fits) [
        | inl e_yes ↦ rw e_yes (whole-AddsEntry e f (rw (append-nil e.values) ready))
        | inr e_no ↦ rw e_no (chunks-AddsEntry e f distinct ready)
      ]

  -- The time stamps of entries that an object has not yet.
  abbrev pub AllNew : List (TelemetryEntry V) → Filling V → Type 0
  AllNew es f = All (λ x. lookup x.ts f.current_data.data_part.ts_index ≡ none) es

  still_new :
      (ts : ℕ) (es : List (TelemetryEntry V)) (f f' : Filling V)
      → KeepsNew ts f f'
      → All (λ x. (ts == x.ts) ≡ false) es
      → AllNew es f
      → AllNew es f'
  still_new ts [] f f' k apart h = tt
  still_new ts (e ∷ es) f f' k apart h = (k e.ts apart.0 h.0, still_new ts es f f' k apart.1 h.1)

  pub record AddsAll (es : List (TelemetryEntry V)) (f f' : Filling V) : Type 0 where
    pub filled : IsFilled general f'
    pub datapoints : all_points f' ≡ all_points f ++ flat es

  pub add_all_telemetry-AddsAll :
      (es : List (TelemetryEntry V)) (f : Filling V)
      → IsApart es
      → AllNew es f
      → IsFilled general f
      → AddsAll es f (add_all_telemetry get_data_size max_data_size self es f)
  unfolding add_all_telemetry IsApart flat
  add_all_telemetry-AddsAll [] f apart new filled = record {
    filled = filled;
    datapoints = sym (append-nil (all_points f));
  }
  add_all_telemetry-AddsAll (e ∷ es) f apart new filled =
      let f1 = add_telemetry get_data_size max_data_size self e f in
      let a = add_telemetry-AddsEntry e f apart.1 new.0 filled in
      let b =
        add_all_telemetry-AddsAll es f1 apart.2 (still_new e.ts es f f1 a.new apart.0 new.1)
          a.filled in
      record {
        filled = b.filled;
        datapoints =
            b.datapoints
            ∙ ap (λ x. x ++ flat es) a.datapoints
            ∙ append_assoc (all_points f) (points e.ts e.values) (flat es);
      }

  pub close_objects-points :
      (f : Filling V)
      → IsFilled general f
      → points_of (close_objects get_data_size max_data_size self f) ≡ all_points f
  unfolding close_objects
  close_objects-points f h =
      let objs = f.converted_objects in
      elim (Bool-cases (leb f.current_data_size general)) [
        | inl e ↦ elim h.nothing [
          | inl more ↦ absurd (ground (arith, e, more))
          | inr none_left ↦
              rw e
                (sym (append-nil (points_of objs)) ∙ ap (λ x. points_of objs ++ x) (sym none_left))
        ]
        | inr e ↦ rw e (points_of-append objs f.current_data)
      ]
