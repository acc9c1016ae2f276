-- ===== src/Entities/Split/Sizes.antt =====
-- The sizes that split_large_entries gives its chunks.
use thingsboard_gateway.Prelude.{
  ℕ, ◌+◌, ◌≤◌, ◌<◌, max, String, [], ◌∷◌, ◌≡◌, ◌⊎◌, inl, inr, Option, false, ◌||◌, leb, leb→gt,
  is_empty, is_some, length, All, All-append, arith, Bool-cases,
}
use thingsboard_gateway.Prelude.Dict.{insert}
use thingsboard_gateway.Entities.Datapoint.{DatapointKey, datapoint_eq, Values}
use thingsboard_gateway.Entities.Split.{
  Splitting, entry_size, limit, close, split_entry, split_all, split_large_entries,
}

-- The sizes of the entries of a chunk, each with its comma.
unfoldable pub weight : {V : Type 0} → (String → V → ℕ) → Values V → ℕ
weight data_size [] = 0
weight data_size ((key, value) ∷ entries) = data_size key.key value + 1 + weight data_size entries

weight_single :
    {V : Type 0} (data_size : String → V → ℕ) (key : DatapointKey) (value : V)
    → weight data_size ((key, value) ∷ []) ≡ data_size key.key value + 1
unfolding weight
weight_single data_size key value = omega arith

weight-insert :
    {V : Type 0} (data_size : String → V → ℕ) (key : DatapointKey) (value : V) (d : Values V)
    → weight data_size (insert key value d) ≤ weight data_size d + (data_size key.key value + 1)
unfolding weight insert
weight-insert data_size key value [] = omega arith
weight-insert data_size key value ((j, w) ∷ d) =
    ground (arith, datapoint_eq.beq_iff j key, weight-insert data_size key value d)

module _ {V : Type 0} (data_size : String → V → ℕ) (first most : ℕ) where
  -- A chunk of several entries is smaller than the larger of the limits, and its size is at least
  -- that of its entries.
  pub record IsSized (chunk : Values V × ℕ) : Type 0 where
    pub holds : weight data_size chunk.0 ≤ chunk.1
    pub bounded : (length chunk.0 ≤ 1) ⊎ (chunk.1 < max first most)

  record AllSized (s : Splitting V) : Type 0 where
    chunks : All IsSized s.split_chunks
    current : IsSized (s.current_chunk, s.current_size)

  module _ (ts_size : Option ℕ) where
    close-chunks :
        (s : Splitting V)
        → AllSized s
        → All IsSized (close data_size first most ts_size s).split_chunks
    unfolding close
    close-chunks s h = elim (Bool-cases (is_empty s.current_chunk)) [
      | inl e ↦ rw (close, e) h.chunks
      | inr e ↦
          rw (close, e)
            (All-append IsSized s.split_chunks ((s.current_chunk, s.current_size) ∷ []) h.chunks
              (h.current, tt))
    ]

    limit-le : (s : Splitting V) → limit data_size first most ts_size s ≤ max first most
    unfolding limit
    limit-le s = ground arith

    entry_size-le :
        (key : DatapointKey) (value : V) (s : Splitting V)
        → data_size key.key value + 1 ≤ entry_size data_size first most ts_size key value s
    unfolding entry_size
    entry_size-le key value s = omega arith

    split_entry-AllSized :
        (key : DatapointKey) (value : V) (s : Splitting V)
        → AllSized s
        → AllSized (split_entry data_size first most ts_size key value s)
    unfolding split_entry
    split_entry-AllSized key value s h =
        let size = entry_size data_size first most ts_size key value s in
        let s1 = record s { ts_check = s.ts_check || is_some ts_size } in
        let top = limit data_size first most ts_size s1 in
        let room : data_size key.key value + 1 ≤ size = entry_size-le key value s in
        elim (Bool-cases (leb top (s1.current_size + size))) [
          | inl e ↦ rw e (record {
            chunks = close-chunks s1 (record { chunks = h.chunks; current = h.current });
            current = record {
              holds = rw (weight_single data_size key value) room;
              bounded = inl (omega arith);
            };
          })
          | inr e ↦ rw e (record {
            chunks = h.chunks;
            current = record {
              holds =
                  omega (
                    arith,
                    room,
                    h.current.holds,
                    weight-insert data_size key value s.current_chunk,
                  );
              bounded = inr (omega (arith, leb→gt top (s1.current_size + size) e, limit-le s1));
            };
          })
        ]

    split_all-AllSized :
        (entries : Values V) (s : Splitting V)
        → AllSized s
        → AllSized (split_all data_size first most ts_size entries s)
    unfolding split_all
    split_all-AllSized [] s h = h
    split_all-AllSized ((key, value) ∷ entries) s h =
        split_all-AllSized entries (split_entry data_size first most ts_size key value s)
          (split_entry-AllSized key value s h)

    -- The size of a chunk is at least that of its entries, and a chunk of several entries is
    -- smaller than the larger of the two limits.
    pub split_large_entries-IsSized :
        (entries : Values V)
        → All IsSized (split_large_entries data_size first most ts_size entries)
    unfolding split_large_entries weight
    split_large_entries-IsSized entries =
        let start : Splitting V = record {
          split_chunks = [];
          current_chunk = [];
          current_size = 0;
          ts_check = false;
        } in
        close-chunks (split_all data_size first most ts_size entries start) (
          split_all-AllSized entries start (record {
            chunks = tt;
            current = record { holds = omega arith; bounded = inl (omega arith) };
          }))
