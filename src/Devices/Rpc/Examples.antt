-- ===== src/Devices/Rpc/Examples.antt =====
-- Runs of the queue of requests.
use thingsboard_gateway.Prelude.{
  ℕ, String, [], ◌∷◌, ◌++◌, map, ◌≡◌, refl, Option, none, some, Bool, true, false, All, arith,
}
use thingsboard_gateway.Prelude.Eq.{string_eq, string_discrete}
use thingsboard_gateway.Prelude.Dict.{Dict, lookup, insert, remove, has, IsDistinct}
use thingsboard_gateway.Devices.{Connector, DeviceInfo, Service}
use thingsboard_gateway.Devices.Persist.{
  get_dict_key_by_value, save_persistent_devices, data_to_save,
}
use thingsboard_gateway.Devices.Registry.{
  add_device, del_device, add_renamed, sync, take_device, keep_renamed, forget_shared, request,
}
use thingsboard_gateway.Devices.Rpc.{
  RpcRequest, Handled, failed, timed_out, handed, RpcQueue, is_overdue, with_original_name,
  rpc_round, take_request, deliver, goes_on, rpc_rounds,
}
use thingsboard_gateway.Devices.Rpc.Queue.{tally, rpc_rounds-tally, overdue_answered}
use thingsboard_gateway.Devices.Rpc.Replies.{
  Content, dict, text, whole, gw_response, gw_content, loaded, is_null,
}
use thingsboard_gateway.Devices.Rpc.Replies.Named.{replies, waiting, replied_by_name}
use thingsboard_gateway.Devices.Rpc.Lost.{lost_waits}

program : Unit {0}
unfolding lookup insert remove IsDistinct get_dict_key_by_value is_overdue with_original_name loaded
    is_null string_discrete
program = tt

abbrev modbus : Connector
modbus = record { object = 0; name = "m"; id = "1"; type = "modbus"; has_shared_keys = false }

abbrev info : DeviceInfo
info = record { connector = some modbus; device_type = "default"; last_receiving_data = none }

abbrev service : Service ℕ
service = record {
  connected_devices = ("pump", info) ∷ [];
  saved_devices = ("pump", info) ∷ [];
  added_devices = [];
  renamed_devices = ("pump", "pump 1") ∷ [];
  disconnected_devices = [];
  devices_shared_attributes = [];
  file = [];
  sync_on_connect = false;
  handle_device_renaming = true;
  sync_queue = [];
  async_device_actions_queue = [];
  requests = [];
}

abbrev ask : ℕ → String → RpcRequest ℕ
ask n device = record {
  request_id = n;
  device = device;
  timeout = some 10;
  received_time = 100;
  content = 0;
}

abbrev complaint : Dict String String
complaint = ("error", "no") ∷ []

-- The connector answers with an error.
abbrev refuse : Connector → RpcRequest ℕ → Handled (Dict String String)
refuse c q = failed complaint

abbrev queue : RpcQueue ℕ (Dict String String)
queue = record { requests = ask 1 "tank" ∷ ask 2 "pump 1" ∷ []; outcomes = []; running = true }

-- The tank is unknown and waits; the pump is found under its original name.
rounds : rpc_rounds refuse (101 ∷ 102 ∷ 103 ∷ []) service queue ≡ record {
  requests = ask 1 "tank" ∷ [];
  outcomes = handed modbus (ask 2 "pump") (failed complaint) ∷ [];
  running = true;
}
unfolding program rpc_rounds rpc_round take_request deliver goes_on
rounds = refl

rpc_rounds-tally_example :
    tally refuse service 2 (rpc_rounds refuse (101 ∷ 102 ∷ 103 ∷ []) service queue)
    ≡ tally refuse service 2 queue
rpc_rounds-tally_example = rpc_rounds-tally refuse service 2 (101 ∷ 102 ∷ 103 ∷ []) queue

each_late : All (λ q. is_overdue 111 q ≡ true) queue.requests
unfolding program
each_late = (refl, (refl, tt))

overdue_answered_example : rpc_rounds refuse (111 ∷ 120 ∷ []) service queue ≡ record {
  requests = [];
  outcomes = [] ++ map timed_out (ask 1 "tank" ∷ ask 2 "pump 1" ∷ []);
  running = true;
}
overdue_answered_example =
    overdue_answered refuse service 111 (111 ∷ 120 ∷ []) (ask 1 "tank" ∷ ask 2 "pump 1" ∷ []) []
      each_late (omega arith, (omega arith, tt)) refl

abbrev loads : String → Option (Content String String)
loads t = some (dict (("error", t) ∷ []))

abbrev dumps : Dict String String → String
dumps d = "no"

abbrev bool_text : Bool → String
bool_text true = "true"
bool_text false = "false"

distinct : IsDistinct service.renamed_devices
unfolding program
distinct = (refl, tt)

with_error : has "error" complaint ≡ true
unfolding program
with_error = refl

present : is_null (loaded loads (text "timeout")) ≡ false
unfolding program
present = refl

no_result : lookup "result" complaint ≡ none
unfolding program
no_result = refl

current : lookup "pump 1" service.renamed_devices ≡ none
unfolding program
current = refl

due : is_overdue 103 (ask 2 "pump 1") ≡ false
unfolding program
due = refl

late : is_overdue 111 (ask 2 "pump 1") ≡ true
unfolding program
late = refl

original_known :
    lookup (with_original_name service (ask 2 "pump 1")).device service.connected_devices
    ≡ some info
unfolding program
original_known = refl

replied_by_name_example :
    let q = ask 2 "pump 1" in
    let rest = ask 1 "tank" ∷ [] in
    let sent = replies loads bool_text "timeout" dumps refuse service in
    let overdue = some (gw_content "pump 1" 2 (loaded loads (text "timeout"))) in
    let refused = gw_response "pump 1" (some 2) (whole (insert "success" "false" complaint)) in
    (sent (rpc_round refuse 103 service (waiting q rest [])) ≡ some refused ∷ [])
    × (sent (rpc_round refuse 111 service (waiting q rest [])) ≡ overdue ∷ [])
    × (sent (rpc_round refuse 111 service (waiting (with_original_name service q) rest []))
        ≡ overdue ∷ [])
replied_by_name_example =
    replied_by_name loads bool_text "timeout" dumps refuse service 103 111 (ask 2 "pump 1")
      (ask 1 "tank" ∷ []) [] info modbus complaint distinct current due late original_known refl
      refl refl with_error no_result present

-- The pump disconnects and connects again.
abbrev back : Service ℕ
back = (add_device true 7 "pump" none none (del_device true "pump" service).0).0

pump_known : lookup "pump" service.connected_devices ≡ some info
unfolding program
pump_known = refl

pump_renamed : lookup "pump" service.renamed_devices ≡ some "pump 1"
unfolding program
pump_renamed = refl

pump_named : (with_original_name back (ask 2 "pump 1")).device ≡ "pump"
unfolding program add_device del_device add_renamed sync take_device keep_renamed forget_shared
    request save_persistent_devices data_to_save
pump_named = refl

pump_due : is_overdue 103 (ask 2 "pump 1") ≡ false
unfolding program
pump_due = refl

lost_waits_example :
    rpc_round refuse 103 back
      (record { requests = ask 2 "pump 1" ∷ ask 1 "tank" ∷ []; outcomes = []; running = true })
    ≡ record {
      requests = (ask 1 "tank" ∷ []) ++ with_original_name back (ask 2 "pump 1") ∷ [];
      outcomes = [];
      running = true;
    }
lost_waits_example =
    lost_waits refuse true 7 103 "pump" "pump 1" info none none service back (ask 2 "pump 1")
      (ask 1 "tank" ∷ []) [] pump_known pump_renamed refl pump_named pump_due
