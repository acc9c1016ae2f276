-- ===== src/Storage/Memory.antt =====
-- thingsboard_gateway/storage/memory/memory_event_storage.py: the class MemoryEventStorage over a
-- bounded `queue.Queue`. A method returns the new object beside its result.
pub mod Fifo
pub mod Drain
pub mod Refines
mod Examples
use thingsboard_gateway.Prelude.{
  ℕ, zero, suc, min, List, [], ◌∷◌, ◌++◌, Bool, true, false, not, ◌&&◌, Option, none, some, ltb,
  leb, length, is_empty, get_or, if◌then◌else◌,
}
use thingsboard_gateway.Storage.Contract.{EventStorage}

-- The two configuration keys that the class reads; `none` is a key that is not there.
pub record Config : Type 0 where
  pub max_records_count : Option ℕ
  pub read_records_count : Option ℕ

pub record MemoryEventStorage (E : Type 0) : Type 0 where
  pub queue_len : ℕ
  pub events_per_time : ℕ
  pub events_queue : List E
  pub event_pack : List E
  pub stopped : Bool

unfoldable pub init : {E : Type 0} → Config → MemoryEventStorage E
init config = record {
  queue_len = get_or config.max_records_count 10000;
  events_per_time = get_or config.read_records_count 1000;
  events_queue = [];
  event_pack = [];
  stopped = false;
}

module _ {E : Type 0} where
  -- `Queue.put_nowait` raises Full when a positive maximal size is reached.
  abbrev pub is_full : MemoryEventStorage E → Bool
  is_full s = ltb 0 s.queue_len && leb s.queue_len (length s.events_queue)

  unfoldable pub put : E → MemoryEventStorage E → MemoryEventStorage E × Bool
  put event s =
      if not s.stopped
      then if is_full s
        then (s, false)
        else (record s { events_queue = s.events_queue ++ event ∷ [] }, true)
      else (s, false)

  -- `[queue.get_nowait() for _ in range(n)]`: `none` is the exception Empty, and what was taken
  -- before it is gone from the queue.
  unfoldable pub get_nowait_times : ℕ → List E → Option (List E) × List E
  get_nowait_times zero queue = (some [], queue)
  get_nowait_times (suc n) [] = (none, [])
  get_nowait_times (suc n) (e ∷ queue) =
      let (taken, rest) = get_nowait_times n queue in
      (elim taken [ none ↦ none | some es ↦ some (e ∷ es) ], rest)

  -- `except Empty: pass` leaves the old pack, which is empty.
  abbrev pub filled : MemoryEventStorage E → Option (List E) × List E → MemoryEventStorage E
  filled s (none, queue) = record s { events_queue = queue }
  filled s (some pack, queue) = record s { events_queue = queue; event_pack = pack }

  unfoldable pub get_event_pack : MemoryEventStorage E → MemoryEventStorage E × List E
  unfolding get_nowait_times
  get_event_pack s =
      let s' =
        if is_empty s.event_pack
        then filled s
            (get_nowait_times (min s.events_per_time (length s.events_queue)) s.events_queue)
        else s in
      (s', s'.event_pack)

  unfoldable pub event_pack_processing_done : MemoryEventStorage E → MemoryEventStorage E
  event_pack_processing_done s = record s { event_pack = [] }

  unfoldable pub stop : MemoryEventStorage E → MemoryEventStorage E
  stop s = record s { stopped = true }

  unfoldable pub len : MemoryEventStorage E → ℕ
  len s = length s.events_queue

  abbrev pub storage : EventStorage (MemoryEventStorage E) E
  storage = record {
    put = put;
    get_event_pack = get_event_pack;
    event_pack_processing_done = event_pack_processing_done;
    stop = stop;
  }
