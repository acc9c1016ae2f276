-- ===== src/Entities/Objects/Adding.antt =====
-- Adding a part of an entry to the telemetry of an object.
use thingsboard_gateway.Prelude.{
  ℕ, List, [], ◌∷◌, ◌++◌, append-nil, append_assoc, ◌≡◌, refl, sym, ap, ◌∙◌, none, some, false,
  ◌==◌, length, ◌⊎◌, inl, inr,
}
use thingsboard_gateway.Prelude.Eq.{nat_eq}
use thingsboard_gateway.Prelude.Dict.{
  lookup, update, IsDistinct, lookup-insert_same, lookup-insert_other,
}
use thingsboard_gateway.Entities.Datapoint.{DatapointKey, datapoint_eq, Values, TelemetryEntry}
use thingsboard_gateway.Entities.Converted.{ConvertedData, update_at, add_single}
use thingsboard_gateway.Entities.Split.Chunks.{insert_new, next_new}

-- The datapoints of an entry, each with the time stamp, and those of all entries.
unfoldable pub points : {V : Type 0} → ℕ → Values V → List (ℕ × DatapointKey × V)
points ts [] = []
points ts ((k, v) ∷ d) = (ts, k, v) ∷ points ts d

unfoldable pub flat : {V : Type 0} → List (TelemetryEntry V) → List (ℕ × DatapointKey × V)
unfolding points
flat [] = []
flat (e ∷ es) = points e.ts e.values ++ flat es

module _ {V : Type 0} where
  pub points-append : (ts : ℕ) (c d : Values V) → points ts (c ++ d) ≡ points ts c ++ points ts d
  unfolding points
  points-append ts [] d = refl
  points-append ts ((k, v) ∷ c) d = ap (λ x. (ts, k, v) ∷ x) (points-append ts c d)

  flat-append :
      (es : List (TelemetryEntry V)) (e : TelemetryEntry V)
      → flat (es ++ e ∷ []) ≡ flat es ++ points e.ts e.values
  unfolding flat
  flat-append [] e = append-nil (points e.ts e.values)
  flat-append (x ∷ es) e =
      ap (λ ps. points x.ts x.values ++ ps) (flat-append es e)
      ∙ sym (append_assoc (points x.ts x.values) (flat es) (points e.ts e.values))

  update-append : (vs chunk : Values V) → IsDistinct (vs ++ chunk) → update vs chunk ≡ vs ++ chunk
  unfolding update
  update-append vs [] h = sym (append-nil vs)
  update-append vs ((k, v) ∷ chunk) h =
      let new = insert_new k v vs (next_new k v vs chunk h) in
      let more : IsDistinct ((vs ++ (k, v) ∷ []) ++ chunk) =
        rw (append_assoc vs ((k, v) ∷ []) chunk) h in
      ap (λ d. update d chunk) new
      ∙ update-append (vs ++ (k, v) ∷ []) chunk more
      ∙ append_assoc vs ((k, v) ∷ []) chunk

  update_at-last :
      (front : List (TelemetryEntry V)) (ts : ℕ) (vs chunk : Values V)
      → update_at (length front) chunk (front ++ record { ts = ts; values = vs } ∷ [])
        ≡ front ++ record { ts = ts; values = update vs chunk } ∷ []
  unfolding update_at
  update_at-last [] ts vs chunk = refl
  update_at-last (e ∷ front) ts vs chunk = ap (λ es. e ∷ es) (update_at-last front ts vs chunk)

  -- The values of the time stamp are the last entry, or there is none of it.
  unfoldable pub IsOpen : ℕ → Values V → ConvertedData V → Type 0
  IsOpen ts vs c =
      ((lookup ts c.ts_index ≡ none) × (vs ≡ []))
      ⊎ ((front : List (TelemetryEntry V)) × (c.telemetry
            ≡ front ++ record { ts = ts; values = vs } ∷ [])
          × (lookup ts c.ts_index ≡ some (length front)))

  -- What adding a part of an entry does.
  pub record Added (ts : ℕ) (vs chunk : Values V) (c c' : ConvertedData V) : Type 0 where
    pub is_open : IsOpen ts (vs ++ chunk) c'
    pub datapoints : flat c'.telemetry ≡ flat c.telemetry ++ points ts chunk
    pub others : (u : ℕ) → (ts == u) ≡ false → lookup u c'.ts_index ≡ lookup u c.ts_index

  add_unknown :
      (ts : ℕ) (chunk : Values V) (c : ConvertedData V)
      → lookup ts c.ts_index ≡ none
      → Added ts [] chunk c (add_single (record { ts = ts; values = chunk }) c)
  unfolding add_single IsOpen
  add_unknown ts chunk c unknown =
      rw (add_single, unknown)
        (record {
          is_open = inr (c.telemetry, refl, lookup-insert_same ts (length c.telemetry) c.ts_index);
          datapoints = flat-append c.telemetry (record { ts = ts; values = chunk });
          others = λ u other. lookup-insert_other ts u (length c.telemetry) c.ts_index other;
        })

  add_known :
      (ts : ℕ) (vs chunk : Values V) (c : ConvertedData V) (front : List (TelemetryEntry V))
      → c.telemetry ≡ front ++ record { ts = ts; values = vs } ∷ []
      → lookup ts c.ts_index ≡ some (length front)
      → IsDistinct (vs ++ chunk)
      → Added ts vs chunk c (add_single (record { ts = ts; values = chunk }) c)
  unfolding add_single IsOpen
  add_known ts vs chunk c front last known distinct =
      let all : update_at (length front) chunk c.telemetry
          ≡ front ++ record { ts = ts; values = vs ++ chunk } ∷ [] =
        ap (update_at (length front) chunk) last
        ∙ update_at-last front ts vs chunk
        ∙ ap (λ x. front ++ record { ts = ts; values = x } ∷ [])
            (update-append vs chunk distinct) in
      rw (add_single, known)
        (record {
          is_open = inr (front, all, known);
          datapoints =
              ap flat all
              ∙ flat-append front (record { ts = ts; values = vs ++ chunk })
              ∙ ap (λ x. flat front ++ x) (points-append ts vs chunk)
              ∙ sym (append_assoc (flat front) (points ts vs) (points ts chunk))
              ∙ ap (λ x. x ++ points ts chunk)
                  (sym (ap flat last ∙ flat-append front (record { ts = ts; values = vs })));
          others = λ u other. refl;
        })

  -- A part of an entry goes behind all that is there.
  pub add_single-Added :
      (ts : ℕ) (vs chunk : Values V) (c : ConvertedData V)
      → IsOpen ts vs c
      → IsDistinct (vs ++ chunk)
      → Added ts vs chunk c (add_single (record { ts = ts; values = chunk }) c)
  unfolding IsOpen
  add_single-Added ts vs chunk c h distinct = elim h [
    | inl (unknown, e) ↦ rw e (add_unknown ts chunk c unknown)
    | inr (front, last, known) ↦ add_known ts vs chunk c front last known distinct
  ]
