-- ===== src/Storage/Memory/Examples.antt =====
-- Runs of the memory storage.
use thingsboard_gateway.Prelude.{ℕ, List, [], ◌∷◌, ◌++◌, ◌≡◌, refl, some, false, arith}
use thingsboard_gateway.Storage.Memory.{
  Config, MemoryEventStorage, init, storage, put, get_event_pack, get_nowait_times,
  event_pack_processing_done,
}
use thingsboard_gateway.Storage.Memory.Drain.{drain, drain-all}
use thingsboard_gateway.Storage.Memory.Fifo.{IsBounded}
use thingsboard_gateway.Storage.Memory.Refines.{start, memory_refines}
use thingsboard_gateway.Storage.Contract.History.{
  Operation, put_event, get_pack, done, operate, operate_all,
}

program : Unit {0}
unfolding put get_nowait_times get_event_pack event_pack_processing_done
program = tt

abbrev memory : MemoryEventStorage ℕ
memory = record {
  queue_len = 3;
  events_per_time = 2;
  events_queue = 4 ∷ 5 ∷ 6 ∷ [];
  event_pack = [];
  stopped = false;
}

-- A pack is kept until it is confirmed.
pack_kept :
    ((get_event_pack memory).1 ≡ 4 ∷ 5 ∷ [])
    × ((get_event_pack (get_event_pack memory).0).1 ≡ 4 ∷ 5 ∷ [])
    × ((get_event_pack (event_pack_processing_done (get_event_pack memory).0)).1 ≡ 6 ∷ [])
unfolding program
pack_kept = (refl, refl, refl)

drain-all_example : drain 3 memory ≡ 4 ∷ 5 ∷ 6 ∷ []
drain-all_example = drain-all 3 memory (omega arith) (omega arith)

-- Two packs of two, the first of which is acknowledged; the storage has room for three events.
abbrev three : Config
three = record { max_records_count = some 3; read_records_count = some 2 }

abbrev work : List (Operation ℕ)
work =
    put_event 4
    ∷ put_event 5
    ∷ put_event 6
    ∷ put_event 7
    ∷ get_pack
    ∷ put_event 8
    ∷ done
    ∷ get_pack
    ∷ []

worked :
    ((operate_all storage work (start three)).taken ≡ 4 ∷ 5 ∷ 6 ∷ 8 ∷ [])
    × ((operate_all storage work (start three)).acknowledged ≡ 4 ∷ 5 ∷ [])
    × ((operate_all storage work (start three)).handed_out ≡ 6 ∷ 8 ∷ [])
unfolding program operate_all operate init
worked = (refl, refl, refl)

memory_refines_example :
    ((operate_all storage work (start three)).acknowledged
        ++ ((operate_all storage work (start three)).handed_out
            ++ (operate_all storage work (start three)).state.events_queue)
      ≡ (operate_all storage work (start three)).taken)
    × ((operate_all storage work (start three)).handed_out
        ≡ (operate_all storage work (start three)).state.event_pack)
    × IsBounded (operate_all storage work (start three)).state
memory_refines_example = memory_refines three work
