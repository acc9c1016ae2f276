-- ===== src/Devices/Rpc.antt =====
-- __rpc_to_devices_processing of thingsboard_gateway/gateway/tb_gateway_service.py: the queue of the
-- requests of the platform to devices. Times are in seconds.
pub mod Queue
pub mod Replies
pub mod Lost
mod Examples
use thingsboard_gateway.Prelude.{
  ℕ, ◌-◌, String, List, [], ◌∷◌, ◌++◌, Option, none, some, Bool, true, false, ltb, get_or,
  if◌then◌else◌,
}
use thingsboard_gateway.Prelude.Eq.{Eq, string_eq}
use thingsboard_gateway.Prelude.Dict.{lookup}
use thingsboard_gateway.Devices.{Connector, DeviceInfo, Service}
use thingsboard_gateway.Devices.Persist.{get_dict_key_by_value}

-- A request in the queue, with the timeout of its parameters if it has one; `C` is the rest of its
-- content.
pub record RpcRequest (C : Type 0) : Type 0 where
  pub request_id : ℕ
  pub device : String
  pub timeout : Option ℕ
  pub received_time : ℕ
  pub content : C

-- What `server_side_rpc_handler` returns: a dict with an error, which is sent as the reply, or
-- anything else. An exception ends the thread.
pub data Handled (E : Type 0) : Type 0 where
  handled exception : Handled E
  failed : E → Handled E

-- What became of a request that left the queue: the reply with the code 408, the connector that it
-- was handed to, with the error to reply, or an entry in the log.
pub data Outcome (C E : Type 0) : Type 0 where
  timed_out : RpcRequest C → Outcome C E
  handed : Connector → RpcRequest C → Handled E → Outcome C E
  no_connector : RpcRequest C → Outcome C E

pub record RpcQueue (C E : Type 0) : Type 0 where
  pub requests : List (RpcRequest C)
  pub outcomes : List (Outcome C E)
  pub running : Bool

abbrev pub default_timeout : ℕ
default_timeout = 5

unfoldable pub is_overdue : {C : Type 0} → ℕ → RpcRequest C → Bool
is_overdue now q = ltb (get_or q.timeout default_timeout) (now - q.received_time)

-- The name under which the gateway knows the device of a request.
unfoldable pub with_original_name : {A C : Type 0} → Service A → RpcRequest C → RpcRequest C
with_original_name s q = record q {
  device = get_or (get_dict_key_by_value s.renamed_devices q.device) q.device;
}

unfoldable pub goes_on : {E : Type 0} → Handled E → Bool
goes_on handled = true
goes_on exception = false
goes_on (failed e) = true

module _ {A C E : Type 0} (handler : Connector → RpcRequest C → Handled E) where
  -- A request that is due, with its original name, and the other requests.
  unfoldable pub deliver :
      Service A → RpcRequest C → List (RpcRequest C) → RpcQueue C E → RpcQueue C E
  deliver s q rest r = elim (lookup q.device s.connected_devices) [
    | none ↦ record r { requests = rest ++ q ∷ [] }
    | some info ↦ elim info.connector [
      | none ↦ record r { requests = rest; outcomes = r.outcomes ++ no_connector q ∷ [] }
      | some c ↦ record r {
        requests = rest;
        outcomes = r.outcomes ++ handed c q (handler c q) ∷ [];
        running = goes_on (handler c q);
      }
    ]
  ]

  unfoldable pub take_request : ℕ → Service A → List (RpcRequest C) → RpcQueue C E → RpcQueue C E
  unfolding deliver
  take_request now s [] r = r
  take_request now s (q ∷ rest) r =
      if is_overdue now q
      then record r { requests = rest; outcomes = r.outcomes ++ timed_out q ∷ [] }
      else deliver s (with_original_name s q) rest r

  -- A round of the loop at the time `now`; an empty queue is waited for.
  unfoldable pub rpc_round : ℕ → Service A → RpcQueue C E → RpcQueue C E
  unfolding take_request
  rpc_round now s r = if r.running then take_request now s r.requests r else r

  -- Rounds at the given times, between which the devices stay as they are.
  unfoldable pub rpc_rounds : List ℕ → Service A → RpcQueue C E → RpcQueue C E
  unfolding rpc_round
  rpc_rounds [] s r = r
  rpc_rounds (now ∷ times) s r = rpc_rounds times s (rpc_round now s r)
