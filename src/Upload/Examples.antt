-- ===== src/Upload/Examples.antt =====
-- Runs of the upload thread over the memory storage.
use thingsboard_gateway.Prelude.{
  ℕ, List, [], ◌∷◌, ◌++◌, map, ◌≡◌, refl, true, false, Option, none, some, arith, if◌then◌else◌,
  ◌==◌,
}
use thingsboard_gateway.Prelude.Dict.{lookup, insert, update}
use thingsboard_gateway.Storage.Memory
use thingsboard_gateway.Storage.Memory.{MemoryEventStorage}
use thingsboard_gateway.Storage.Memory.Fifo.{memory-IsTwoPhase}
use thingsboard_gateway.Upload.Pack.{
  Event, Item, Client, device_data, add_event, gather, update_all, messages, publish_all, send_data,
}
use thingsboard_gateway.Upload.Pack.Gather.{device_items, gather-telemetry}
use thingsboard_gateway.Upload.Loop.{
  Readings, Uploader, all_confirmed, handle_published_events, finish, process, round,
}
use thingsboard_gateway.Upload.Loop.Delivery.{
  Action, store, serve, Trace, act, run, IsComplete, run-IsComplete,
}
use thingsboard_gateway.Upload.Loop.Confirm.{
  LosesConnection, unconfirmed_lost, IsBlocked, blocked_forever,
}
use thingsboard_gateway.Prelude.{String, Bool, inl}
use thingsboard_gateway.Prelude.Eq.{string_eq}
use thingsboard_gateway.Entities.Converted.{ConvertedData}
use thingsboard_gateway.Upload.Filter.{
  Data, converted, FilterConfig, failure, send_to_storage, filtered_lost,
}
use thingsboard_gateway.Upload.Save.{put_again, save}

program : Unit {0}
unfolding Memory.put Memory.get_nowait_times Memory.get_event_pack Memory.event_pack_processing_done
    device_data add_event gather update_all messages publish_all send_data device_items
    all_confirmed handle_published_events finish process round act run put_again save lookup insert
    update
program = tt

-- Stored events are numbers here: an even one is telemetry of "a", 0 cannot be read.
abbrev reading : ℕ → Item ℕ
reading n = record { ts = some n; values = ("t", n) ∷ []; metadata = none }

abbrev loads : ℕ → Option (Event ℕ)
loads n =
    if n == 0
    then none
    else some
        (record { device_name = "a"; telemetry = reading n ∷ []; attributes = []; metadata = none })

abbrev client : Client ℕ ℕ
client = record { name = "gw"; renamed_devices = ("a", "b") ∷ []; publish = λ _. some 7 }

abbrev online : Readings ℕ
online = record {
  connected = true;
  configuring = false;
  connected_after_processing = true;
  connected_after_sending = true;
  configuring_after_sending = false;
  stopped = false;
  connected_at_handling = true;
  configuring_at_handling = false;
  quality_of_service = 1;
  confirmed = λ h. h == 7;
  connected_at_end = true;
}

abbrev broken : Readings ℕ
broken = record online { connected_at_handling = false; confirmed = λ _. false }

abbrev memory : MemoryEventStorage ℕ
memory = record {
  queue_len = 3;
  events_per_time = 2;
  events_queue = [];
  event_pack = [];
  stopped = false;
}

abbrev idle : Uploader (MemoryEventStorage ℕ) ℕ ℕ
idle = record { storage = memory; device_pack = []; published_events = [] }

abbrev start : Trace (MemoryEventStorage ℕ) ℕ ℕ ℕ
start = record { uploader = idle; accepted = []; acknowledged = [] }

abbrev actions : List (Action ℕ ℕ)
actions = store 4 ∷ store 5 ∷ store 6 ∷ store 8 ∷ serve online ∷ store 9 ∷ serve online ∷ []

actions_in_order :
    ((run Memory.storage loads client actions start).accepted ≡ 4 ∷ 5 ∷ 6 ∷ 9 ∷ [])
    × ((run Memory.storage loads client actions start).acknowledged ≡ 4 ∷ 5 ∷ 6 ∷ 9 ∷ [])
unfolding program
actions_in_order = (refl, refl)

start-IsComplete : IsComplete Memory.storage loads client memory-IsTwoPhase start
unfolding memory-IsTwoPhase
start-IsComplete = record { sound = record { within = λ _. omega arith }; queue = refl }

run-IsComplete_example :
    IsComplete Memory.storage loads client memory-IsTwoPhase
      (run Memory.storage loads client actions start)
run-IsComplete_example =
    run-IsComplete Memory.storage loads client memory-IsTwoPhase actions start start-IsComplete

gather-telemetry_example :
    (device_data "a" (gather loads [] (4 ∷ 0 ∷ 5 ∷ []))).telemetry
    ≡ (device_data {V = ℕ} "a" []).telemetry ++ device_items loads "a" (4 ∷ 0 ∷ 5 ∷ [])
gather-telemetry_example = gather-telemetry loads "a" [] (4 ∷ 0 ∷ 5 ∷ [])

abbrev unsent : Trace (MemoryEventStorage ℕ) ℕ ℕ ℕ
unsent = record start {
  uploader = record idle { storage = record memory { events_queue = 4 ∷ 6 ∷ 8 ∷ [] } };
}

broken-LosesConnection : LosesConnection broken
broken-LosesConnection = record {
  begins = refl;
  sends = refl;
  sent = refl;
  goes_on = refl;
  lost = refl;
  back = refl;
  refuses = λ h. refl;
}

unsent-Inv : memory-IsTwoPhase.Inv unsent.uploader.storage
unfolding memory-IsTwoPhase
unsent-Inv = record { within = λ _. omega arith }

unconfirmed_lost_example :
    let law = memory-IsTwoPhase in
    let s = (Memory.storage.get_event_pack unsent.uploader.storage).0 in
    let published = [] ++ (send_data client (gather loads [] (law.pack s))).1 in
    let t' = act Memory.storage loads client (serve broken) unsent in
    (all_confirmed broken.confirmed published ≡ false)
    × (t'.acknowledged ≡ [] ++ law.pack s)
    × (law.pack t'.uploader.storage ≡ [])
    × (law.pending t'.uploader.storage ≡ law.pending s)
unfolding program memory-IsTwoPhase
unconfirmed_lost_example =
    unconfirmed_lost Memory.storage loads client memory-IsTwoPhase broken unsent
      broken-LosesConnection unsent-Inv (λ e. cc) (λ e. cc)

abbrev stuck : Trace (MemoryEventStorage ℕ) ℕ ℕ ℕ
stuck = record start {
  uploader = record idle { storage = record memory { events_queue = 4 ∷ []; event_pack = 0 ∷ [] } };
}

stuck-IsBlocked : IsBlocked Memory.storage loads client memory-IsTwoPhase stuck.uploader
unfolding memory-IsTwoPhase
stuck-IsBlocked = record {
  waiting = λ e. cc;
  unreadable = (refl, tt);
  no_devices = refl;
  no_published = refl;
}

blocked_forever_example :
    run Memory.storage loads client (map serve (online ∷ online ∷ [])) stuck ≡ stuck
blocked_forever_example =
    blocked_forever Memory.storage loads client memory-IsTwoPhase (online ∷ online ∷ []) stuck
      stuck-IsBlocked

-- A filter that denies the devices whose name is "pump" to a connector, and one of its messages.
abbrev equals : String → String → Bool
equals p name = string_eq.beq p name

abbrev filter : FilterConfig String
filter = record { deny = ("plant", "pump" ∷ []) ∷ []; allow = [] }

abbrev tank : ConvertedData ℕ
tank = record {
  device_name = "tank";
  device_type = "default";
  metadata = [];
  telemetry = [];
  attributes = [];
  telemetry_datapoints_count = 0;
  ts_index = [];
}

abbrev enqueue : String → Data ℕ → List (Data ℕ) → Option (List (Data ℕ))
enqueue connector_name data' queue = some (queue ++ data' ∷ [])

denies : lookup "plant" filter.deny ≡ some ("pump" ∷ [])
unfolding lookup
denies = refl

filtered_lost_example :
    send_to_storage equals enqueue (some filter) "plant" (converted tank) [] ≡ ([], failure)
filtered_lost_example = filtered_lost equals enqueue filter "plant" "pump" [] tank [] (inl denies)
