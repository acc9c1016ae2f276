-- ===== src/Devices/Rpc/Replies.antt =====
-- __send_rpc_reply of thingsboard_gateway/gateway/tb_gateway_service.py, and the replies that
-- __rpc_to_devices_processing sends.
pub mod Named
use thingsboard_gateway.Prelude.{
  ℕ, String, List, [], ◌∷◌, ◌++◌, map, map-append, ◌≡◌, refl, ap, ◌∙◌, inl, inr, Option, none, some,
  Bool, true, false, ◌||◌, get_or, Option-cases, arith, if◌then◌else◌,
}
use thingsboard_gateway.Prelude.Eq.{string_eq}
use thingsboard_gateway.Prelude.Dict.{Dict, lookup, insert, has, IsDistinct, lookup-insert_other}
use thingsboard_gateway.Devices.{Connector, DeviceInfo, Service}
use thingsboard_gateway.Devices.Persist.{get_dict_key_by_value}
use thingsboard_gateway.Devices.Rpc.{
  RpcRequest, Handled, failed, Outcome, timed_out, handed, RpcQueue, is_overdue, with_original_name,
  deliver, take_request, rpc_round,
}

-- The content of a reply: None, a text, a dict, or another value of JSON.
pub data Content (T V : Type 0) : Type 0 where
  null : Content T V
  text : T → Content T V
  dict : Dict String V → Content T V
  other : V → Content T V

-- What is sent as the response: the dict, or the value of its `result`.
pub data Response (V : Type 0) : Type 0 where
  whole : Dict String V → Response V
  result_of : V → Response V

-- The calls of the client: the reply of a device and that of the gateway, with the response or
-- with the content as it is.
pub data Sent (T V : Type 0) : Type 0 where
  gw_response : String → Option ℕ → Response V → Sent T V
  gw_content : String → ℕ → Content T V → Sent T V
  response : Option ℕ → Response V → Sent T V
  content : Option ℕ → Content T V → Sent T V

unfoldable pub is_null : {T V : Type 0} → Content T V → Bool
is_null null = true
is_null (text t) = false
is_null (dict d) = false
is_null (other v) = false

-- `loads` makes a text a value, unless it raises an exception.
unfoldable pub loaded : {T V : Type 0} → (T → Option (Content T V)) → Content T V → Content T V
loaded loads (text t) = get_or (loads t) (text t)
loaded loads c = c

unfoldable pub without_result : {V : Type 0} → Dict String V → Response V
without_result d = elim (lookup "result" d) [ none ↦ whole d | some v ↦ result_of v ]

-- The name of the platform for a device.
unfoldable pub reply_name : Dict String String → String → String
reply_name renamed device = get_or (lookup device renamed) device

abbrev has_outcome : {V : Type 0} → Dict String V → Bool
has_outcome d = has "success" d || has "error" d || has "response" d || has "result" d

-- `bool` makes a Boolean a value of JSON.
module _ {V : Type 0} (bool : Bool → V) where
  abbrev plain_response : Option Bool → Dict String V
  plain_response success_sent = ("success", bool (get_or success_sent false)) ∷ []

  unfoldable pub rpc_response : {T : Type 0} → Content T V → Option Bool → Dict String V
  rpc_response (dict d) none = if has_outcome d then d else plain_response none
  rpc_response (dict d) (some success) =
      if has_outcome d then insert "success" (bool success) d else plain_response (some success)
  rpc_response _ success_sent = plain_response success_sent

  -- The four branches; none sends nothing.
  unfoldable pub choose_reply :
      {T : Type 0} → Option String → Option ℕ → Content T V → Option Bool → Bool → Option (Sent T V)
  choose_reply (some device) req_id c (some success) false =
      some (gw_response device req_id (without_result (rpc_response c (some success))))
  choose_reply (some device) (some id) c none false =
      if is_null c then none else some (gw_content device id c)
  choose_reply (some device) none c none false = none
  choose_reply none req_id c (some success) to_connector_rpc =
      some (response req_id (without_result (rpc_response c (some success))))
  choose_reply (some device) req_id c (some success) true =
      some (response req_id (without_result (rpc_response c (some success))))
  choose_reply (some device) req_id c none true = some (content req_id c)
  choose_reply none req_id c none true = some (content req_id c)
  choose_reply none req_id c none false = if is_null c then none else some (content req_id c)

module _ {T V : Type 0} (loads : T → Option (Content T V)) (bool : Bool → V) where
  -- `__send_rpc_reply`
  unfoldable pub send_rpc_reply :
      Dict String String
      → Option String
      → Option ℕ
      → Content T V
      → Option Bool
      → Bool
      → Option (Sent T V)
  send_rpc_reply renamed none req_id c success_sent to_connector_rpc =
      choose_reply bool none req_id (loaded loads c) success_sent to_connector_rpc
  send_rpc_reply renamed (some device) req_id c success_sent to_connector_rpc =
      choose_reply bool (some (reply_name renamed device)) req_id (loaded loads c) success_sent
        to_connector_rpc

  -- What the thread of the requests sends for an outcome: `timeout_error` is the text with the code
  -- 408, and an error of a connector is dumped.
  unfoldable pub outcome_reply :
      {A C : Type 0}
      → T
      → (Dict String V → T)
      → Service A
      → Outcome C (Dict String V)
      → Option (Sent T V)
  outcome_reply timeout_error dumps s (timed_out q) =
      send_rpc_reply s.renamed_devices (some q.device) (some q.request_id) (text timeout_error) none
        false
  outcome_reply timeout_error dumps s (handed c q (failed e)) =
      send_rpc_reply s.renamed_devices (some q.device) (some q.request_id) (text (dumps e))
        (some false) false
  outcome_reply timeout_error dumps s _ = none
