-- ===== src/Entities/Split.antt =====
-- split_large_entries of thingsboard_gateway/gateway/entities/converted_data.py, over keys that are
-- DatapointKey.
pub mod Chunks
pub mod Sizes
use thingsboard_gateway.Prelude.{
  ℕ, ◌+◌, String, List, [], ◌∷◌, ◌++◌, Option, none, some, Bool, true, false, not, ◌||◌, leb,
  is_empty, is_some, get_or, if◌then◌else◌,
}
use thingsboard_gateway.Prelude.Dict.{insert}
use thingsboard_gateway.Entities.Datapoint.{DatapointKey, datapoint_eq, Values}

-- The variables of the loop; the two lists, which grow together, are one of pairs.
pub record Splitting (V : Type 0) : Type 0 where
  pub split_chunks : List (Values V × ℕ)
  pub current_chunk : Values V
  pub current_size : ℕ
  pub ts_check : Bool

-- `data_size` is `TBUtility.get_data_size({key: value})`, which serialises it; `ts_size` is there
-- when `ts` is not None.
module _ {V : Type 0} (data_size : String → V → ℕ) (first_item_max_data_size max_data_size : ℕ)
    (ts_size : Option ℕ) where
  unfoldable pub entry_size : DatapointKey → V → Splitting V → ℕ
  entry_size key value s =
      data_size key.key value + 1 + (if not s.ts_check then get_or ts_size 0 else 0)

  unfoldable pub limit : Splitting V → ℕ
  limit s = if is_empty s.split_chunks then first_item_max_data_size else max_data_size

  -- `if current_chunk:` the chunk is put with the others.
  unfoldable pub close : Splitting V → Splitting V
  close s = if is_empty s.current_chunk then s else record s {
    split_chunks = s.split_chunks ++ (s.current_chunk, s.current_size) ∷ [];
    ts_check = false;
  }

  -- One round.
  unfoldable pub split_entry : DatapointKey → V → Splitting V → Splitting V
  split_entry key value s =
      let size = entry_size key value s in
      let s = record s { ts_check = s.ts_check || is_some ts_size } in
      if leb (limit s) (s.current_size + size)
      then record (close s) { current_chunk = (key, value) ∷ []; current_size = size }
      else record s {
        current_chunk = insert key value s.current_chunk;
        current_size = s.current_size + size;
      }

  unfoldable pub split_all : Values V → Splitting V → Splitting V
  unfolding split_entry
  split_all [] s = s
  split_all ((key, value) ∷ entries) s = split_all entries (split_entry key value s)

  unfoldable pub split_large_entries : Values V → List (Values V × ℕ)
  unfolding split_all close
  split_large_entries entries =
      (close (
        split_all entries (record {
          split_chunks = [];
          current_chunk = [];
          current_size = 0;
          ts_check = false;
        }))).split_chunks
