-- ===== src/Devices/Rpc/Lost.antt =====
-- Requests for a renamed device that disconnected and connected again.
use thingsboard_gateway.Prelude.{
  ℕ, String, List, [], ◌∷◌, ◌++◌, ◌≡◌, ap, ◌∙◌, Option, none, some, Bool, true, false,
}
use thingsboard_gateway.Prelude.Eq.{string_eq}
use thingsboard_gateway.Prelude.Dict.{lookup}
use thingsboard_gateway.Devices.{Connector, DeviceInfo, Service}
use thingsboard_gateway.Devices.Registry.{add_device, del_device}
use thingsboard_gateway.Devices.Registry.Reconnect.{reconnect_lost}
use thingsboard_gateway.Devices.Rpc.{
  RpcRequest, Handled, Outcome, is_overdue, with_original_name, take_request, rpc_round,
}
use thingsboard_gateway.Devices.Rpc.Queue.{deliver_unknown}

module _ {A C E : Type 0} (handler : Connector → RpcRequest C → Handled E) where
  -- After a renamed device was deleted and added again, a round hands a request for it, whose
  -- name stands for the original one by the renamings, to no connector: a request at the front
  -- of the queue that is not overdue goes to its end.
  pub lost_waits :
      (remove_device : Bool) (now then' : ℕ) (name new_name : String) (info : DeviceInfo)
      (c : Option Connector) (type : Option String) (s s' : Service A) (q : RpcRequest C)
      (rest : List (RpcRequest C)) (outcomes : List (Outcome C E))
      → lookup name s.connected_devices ≡ some info
      → lookup name s.renamed_devices ≡ some new_name
      → s' ≡ (add_device true now name c type (del_device remove_device name s).0).0
      → (with_original_name s' q).device ≡ name
      → is_overdue then' q ≡ false
      → rpc_round handler then' s'
          (record { requests = q ∷ rest; outcomes = outcomes; running = true })
        ≡ record {
          requests = rest ++ with_original_name s' q ∷ [];
          outcomes = outcomes;
          running = true;
        }
  unfolding rpc_round take_request
  lost_waits remove_device now then' name new_name info c type s s' q rest outcomes known renamed
        made named due =
      let lost = reconnect_lost remove_device now name new_name info c type s known renamed in
      let unknown : lookup (with_original_name s' q).device s'.connected_devices ≡ none =
        ap (λ (n : String). lookup n s'.connected_devices) named
        ∙ ap (λ (x : Service A). lookup name x.connected_devices) made
        ∙ lost.unconnected in
      rw due (
        deliver_unknown handler s' (with_original_name s' q) rest
          (record { requests = q ∷ rest; outcomes = outcomes; running = true }) unknown)
