-- ===== src/Entities/Converted/Index.antt =====
-- The index by time stamp and the count of datapoints of ConvertedData, in
-- thingsboard_gateway/gateway/entities/converted_data.py.
use thingsboard_gateway.Prelude.{
  ℕ, zero, suc, ◌+◌, ◌-◌, String, List, [], ◌∷◌, ◌++◌, ◌≡◌, refl, sym, ◌∙◌, ap, none, some, length,
  get_elem?, arith, Bool-cases, Option-cases, inl, inr, ◌==◌, ==_iff, ==_refl,
}
use thingsboard_gateway.Prelude.Eq.{nat_eq, string_eq}
use thingsboard_gateway.Prelude.Dict.{Dict, lookup, insert, update, lookup-insert}
use thingsboard_gateway.Entities.Datapoint.{datapoint_eq, Values, TelemetryEntry}
use thingsboard_gateway.Entities.Converted.{
  ConvertedData, init, update_at, values_at, add_single, add_to_telemetry, index_all, extend,
}

module _ {V : Type 0} where
  -- The number of values of all entries.
  unfoldable pub total : List (TelemetryEntry V) → ℕ
  total [] = 0
  total (e ∷ es) = length e.values + total es

  -- An entry of the time stamp at an index.
  unfoldable pub IsAt : List (TelemetryEntry V) → ℕ → ℕ → Type 0
  IsAt telemetry index ts =
      (e : TelemetryEntry V) × (get_elem? telemetry index ≡ some e) × (e.ts ≡ ts)

  -- Every time stamp of the index leads to an entry of that time stamp, and the count is that of
  -- all values.
  pub record IsIndexed (c : ConvertedData V) : Type 0 where
    pub found : (ts i : ℕ) → lookup ts c.ts_index ≡ some i → IsAt c.telemetry i ts
    pub counted : c.telemetry_datapoints_count ≡ total c.telemetry

  total-append :
      (es : List (TelemetryEntry V)) (e : TelemetryEntry V)
      → total (es ++ e ∷ []) ≡ total es + length e.values
  unfolding total
  total-append [] e = omega arith
  total-append (d ∷ es) e = omega (arith, total-append es e)

  total-update_at :
      (j : ℕ) (v : Values V) (es : List (TelemetryEntry V))
      → total (update_at j v es) + values_at j es ≡ total es + values_at j (update_at j v es)
  unfolding total update_at values_at
  total-update_at j v [] = refl
  total-update_at zero v (e ∷ es) = omega arith
  total-update_at (suc j) v (e ∷ es) = omega (arith, total-update_at j v es)

  update_at-IsAt :
      (j : ℕ) (v : Values V) (es : List (TelemetryEntry V)) (i ts : ℕ)
      → IsAt es i ts
      → IsAt (update_at j v es) i ts
  unfolding IsAt update_at
  update_at-IsAt j v [] i ts h = h
  update_at-IsAt zero v (e ∷ es) zero ts (d, at, same) =
      let e_d : e ≡ d = cc at in
      (record e { values = update e.values v }, refl, ap (λ x. x.ts) e_d ∙ same)
  update_at-IsAt zero v (e ∷ es) (suc i) ts h = h
  update_at-IsAt (suc j) v (e ∷ es) zero ts h = h
  update_at-IsAt (suc j) v (e ∷ es) (suc i) ts h = update_at-IsAt j v es i ts h

  append-IsAt :
      (es : List (TelemetryEntry V)) (e : TelemetryEntry V) (i ts : ℕ)
      → IsAt es i ts
      → IsAt (es ++ e ∷ []) i ts
  unfolding IsAt
  append-IsAt [] e i ts (d, at, same) = cc at
  append-IsAt (x ∷ es) e zero ts h = h
  append-IsAt (x ∷ es) e (suc i) ts h = append-IsAt es e i ts h

  append-IsAt_last :
      (es : List (TelemetryEntry V)) (e : TelemetryEntry V) → IsAt (es ++ e ∷ []) (length es) e.ts
  unfolding IsAt
  append-IsAt_last [] e = (e, refl, refl)
  append-IsAt_last (x ∷ es) e = append-IsAt_last es e

  known-IsIndexed :
      (entry : TelemetryEntry V) (c : ConvertedData V) (index : ℕ)
      → lookup entry.ts c.ts_index ≡ some index
      → IsIndexed c
      → IsIndexed (add_single entry c)
  unfolding add_single
  known-IsIndexed entry c index known h =
      rw (add_single, known)
        (record {
          found = λ ts i at. update_at-IsAt index entry.values c.telemetry i ts (h.found ts i at);
          counted = omega (arith, h.counted, total-update_at index entry.values c.telemetry);
        })

  new-IsIndexed :
      (entry : TelemetryEntry V) (c : ConvertedData V)
      → lookup entry.ts c.ts_index ≡ none
      → IsIndexed c
      → IsIndexed (add_single entry c)
  unfolding add_single
  new-IsIndexed entry c unknown h =
      rw (add_single, unknown)
        (record {
          found = λ ts i at. elim (Bool-cases (entry.ts == ts)) [
            | inl same ↦
                let e : entry.ts ≡ ts = (==_iff entry.ts ts).0 same in
                let i_e : length c.telemetry ≡ i =
                  ground
                    (arith, lookup-insert entry.ts ts (length c.telemetry) c.ts_index, at, same) in
                rw (sym i_e, sym e) (append-IsAt_last c.telemetry entry)
            | inr other ↦ append-IsAt c.telemetry entry i ts (
                h.found ts i (
                  ground
                    (arith, lookup-insert entry.ts ts (length c.telemetry) c.ts_index, at, other)))
          ];
          counted = omega (arith, h.counted, total-append c.telemetry entry);
        })

  add_single-IsIndexed :
      (entry : TelemetryEntry V) (c : ConvertedData V)
      → IsIndexed c
      → IsIndexed (add_single entry c)
  add_single-IsIndexed entry c h = elim (Option-cases (lookup entry.ts c.ts_index)) [
    | inl unknown ↦ new-IsIndexed entry c unknown h
    | inr (index, known) ↦ known-IsIndexed entry c index known h
  ]

  -- Adding telemetry keeps the index and the count right: every time stamp of the index leads to
  -- an entry of that time stamp, and the count is the number of all values.
  pub add_to_telemetry-IsIndexed :
      (entries : List (TelemetryEntry V)) (c : ConvertedData V)
      → IsIndexed c
      → IsIndexed (add_to_telemetry entries c)
  unfolding add_to_telemetry
  add_to_telemetry-IsIndexed [] c h = h
  add_to_telemetry-IsIndexed (entry ∷ entries) c h =
      add_to_telemetry-IsIndexed entries (add_single entry c) (add_single-IsIndexed entry c h)

  index_all-known :
      (last n k : ℕ) (telemetry : List (TelemetryEntry V)) (index : Dict ℕ ℕ) (ts i : ℕ)
      → lookup ts index ≡ some i
      → lookup ts (index_all last n k telemetry index).1 ≡ some i
  unfolding index_all
  index_all-known last zero k telemetry index ts i h = h
  index_all-known last (suc n) k telemetry index ts i h =
      elim (Option-cases (get_elem? telemetry k)) [
        | inl over ↦ rw (index_all, over) h
        | inr (entry, there) ↦ elim (Option-cases (lookup entry.ts index)) [
          | inl unknown ↦
              rw (index_all, there, unknown)
                (index_all-known last n (k + 1) telemetry (insert entry.ts last index) ts i (
                  ground
                    (arith, lookup-insert entry.ts ts last index, ==_iff entry.ts ts, unknown, h)))
          | inr (j, known) ↦
              rw (index_all, there, known)
                (index_all-known last n (k + 1) (update_at j entry.values telemetry) index ts i h)
        ]
      ]

  -- When an empty object is extended, the time stamp of the other one's first entry is noted with
  -- the index of the last entry.
  extend_first :
      (name type : String) (metadata : Dict String V) (other : ConvertedData V)
      (e : TelemetryEntry V) (es : List (TelemetryEntry V))
      → other.telemetry ≡ e ∷ es
      → lookup e.ts (extend other (init name type metadata)).ts_index ≡ some (length es)
  unfolding extend init index_all lookup insert
  extend_first name type metadata other e es h =
      let last : ℕ = length (e ∷ es) - 1 in
      let last_e : last ≡ length es = omega arith in
      rw h (
        index_all-known last (length es) 1 (e ∷ es) ((e.ts, last) ∷ []) e.ts last
          (rw (==_refl e.ts) refl)
        ∙ ap some last_e)
