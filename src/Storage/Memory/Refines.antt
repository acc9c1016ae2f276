-- ===== src/Storage/Memory/Refines.antt =====
-- The memory storage refines a bounded FIFO queue.
use thingsboard_gateway.Prelude.{List, [], ◌++◌, ◌≡◌, refl, arith}
use thingsboard_gateway.Storage.Contract.History.{
  Operation, History, operate_all, IsFifo, operate_all-IsFifo,
}
use thingsboard_gateway.Storage.Memory.{Config, MemoryEventStorage, init, storage}
use thingsboard_gateway.Storage.Memory.Fifo.{IsBounded, memory-IsTwoPhase}

-- A new storage.
abbrev pub start : {E : Type 0} → Config → History (MemoryEventStorage E) E
start config = record { state = init config; taken = []; handed_out = []; acknowledged = [] }

start-IsFifo :
    {E : Type 0} (config : Config) → IsFifo storage memory-IsTwoPhase (start {E = E} config)
unfolding init memory-IsTwoPhase
start-IsFifo config = record {
  valid = record { within = λ pos. omega arith };
  current = refl;
  in_order = refl;
}

-- After any sequence of put, get_event_pack and event_pack_processing_done on a new memory storage,
-- the acknowledged events, the pack that was handed out last and the events in the queue are
-- together the events that put took, in their order, and the queue is within its length where it
-- has one.
pub memory_refines :
    {E : Type 0} (config : Config) (os : List (Operation E))
    → let h = operate_all storage os (start config) in
      (h.acknowledged ++ (h.handed_out ++ h.state.events_queue) ≡ h.taken)
      × (h.handed_out ≡ h.state.event_pack)
      × IsBounded h.state
unfolding memory-IsTwoPhase
memory_refines config os =
    let f = operate_all-IsFifo storage memory-IsTwoPhase os (start config) (start-IsFifo config) in
    (f.in_order, f.current, f.valid)
