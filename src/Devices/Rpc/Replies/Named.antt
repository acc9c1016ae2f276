-- ===== src/Devices/Rpc/Replies/Named.antt =====
-- The replies that the rounds of the thread of the requests send.
use thingsboard_gateway.Prelude.{
  ℕ, String, List, [], ◌∷◌, ◌++◌, map, map-append, ◌≡◌, refl, ap, ◌∙◌, inl, inr, Option, none, some,
  Bool, true, false, ◌||◌, Option-cases, arith,
}
use thingsboard_gateway.Prelude.Eq.{string_eq}
use thingsboard_gateway.Prelude.Dict.{Dict, lookup, insert, has, IsDistinct, lookup-insert_other}
use thingsboard_gateway.Devices.{Connector, DeviceInfo, Service}
use thingsboard_gateway.Devices.Persist.{get_dict_key_by_value}
use thingsboard_gateway.Devices.Rpc.{
  RpcRequest, Handled, failed, Outcome, timed_out, handed, RpcQueue, is_overdue, with_original_name,
  deliver, take_request, rpc_round,
}
use thingsboard_gateway.Devices.Rpc.Replies.{
  Content, dict, text, whole, Sent, gw_response, gw_content, is_null, loaded, without_result,
  reply_name, rpc_response, choose_reply, send_rpc_reply, outcome_reply,
}

-- The key of a value has that value.
lookup-get_dict_key_by_value :
    (d : Dict String String) (k v : String)
    → IsDistinct d
    → get_dict_key_by_value d v ≡ some k
    → lookup k d ≡ some v
unfolding get_dict_key_by_value lookup IsDistinct
lookup-get_dict_key_by_value [] k v distinct e = cc
lookup-get_dict_key_by_value ((j, w) ∷ d) k v distinct e = ground (
  arith,
  string_eq.beq_iff w v,
  string_eq.beq_iff j k,
  lookup-get_dict_key_by_value d k v distinct.1,
)

second_true : (a b c d : Bool) → b ≡ true → (a || b || c || d) ≡ true
second_true a b c d h = ground arith

failure_response :
    (T : Type 0) {V : Type 0} (bool : Bool → V) (e : Dict String V)
    → has "error" e ≡ true
    → rpc_response bool {T = T} (dict e) (some false) ≡ insert "success" (bool false) e
unfolding rpc_response
failure_response T bool e h =
    rw (second_true (has "success" e) (has "error" e) (has "response" e) (has "result" e) h) refl

-- The replies are under the name that is no old one, before and after the gateway's own name is put
-- for it.
reply_name-original :
    {A C : Type 0} (s : Service A) (q : RpcRequest C)
    → IsDistinct s.renamed_devices
    → lookup q.device s.renamed_devices ≡ none
    → reply_name s.renamed_devices (with_original_name s q).device ≡ q.device
unfolding reply_name with_original_name
reply_name-original s q distinct current =
    elim (Option-cases (get_dict_key_by_value s.renamed_devices q.device)) [
      | inl e ↦ rw (e, current) refl
      | inr (k, e) ↦
          rw (e, lookup-get_dict_key_by_value s.renamed_devices k q.device distinct e) refl
    ]

reply_name-current :
    (renamed : Dict String String) (device : String)
    → lookup device renamed ≡ none
    → reply_name renamed device ≡ device
unfolding reply_name
reply_name-current renamed device current = rw current refl

without_result-whole :
    {V : Type 0} (v : V) (d : Dict String V)
    → lookup "result" d ≡ none
    → without_result (insert "success" v d) ≡ whole (insert "success" v d)
unfolding without_result
without_result-whole v d h =
    let absent : lookup "result" (insert "success" v d) ≡ none =
      lookup-insert_other "success" "result" v d refl ∙ h in
    rw (without_result, absent) refl

-- A running queue with a first request.
abbrev pub waiting :
    {C E : Type 0} → RpcRequest C → List (RpcRequest C) → List (Outcome C E) → RpcQueue C E
waiting q rest outcomes = record { requests = q ∷ rest; outcomes = outcomes; running = true }

module _ {A C T V : Type 0} (loads : T → Option (Content T V)) (bool : Bool → V) (timeout_error : T)
    (dumps : Dict String V → T) (handler : Connector → RpcRequest C → Handled (Dict String V))
    (s : Service A) where
  -- The replies of a queue's outcomes.
  abbrev pub replies : RpcQueue C (Dict String V) → List (Option (Sent T V))
  replies r = map (outcome_reply loads bool timeout_error dumps s) r.outcomes

  failed-reply :
      (q : RpcRequest C) (c : Connector) (e : Dict String V)
      → IsDistinct s.renamed_devices
      → lookup q.device s.renamed_devices ≡ none
      → loads (dumps e) ≡ some (dict e)
      → has "error" e ≡ true
      → lookup "result" e ≡ none
      → outcome_reply loads bool timeout_error dumps s
          (handed c (with_original_name s q) (failed e))
        ≡ some (gw_response q.device (some q.request_id) (whole (insert "success" (bool false) e)))
  unfolding outcome_reply send_rpc_reply choose_reply with_original_name loaded
  failed-reply q c e distinct current readable wrong plain =
      rw
        (
          reply_name-original s q distinct current,
          readable,
          failure_response T bool e wrong,
          without_result-whole (bool false) e plain,
        )
        refl

  timed_out-reply :
      (device : String) (q : RpcRequest C)
      → reply_name s.renamed_devices q.device ≡ device
      → is_null (loaded loads (text timeout_error)) ≡ false
      → outcome_reply loads bool timeout_error dumps s (timed_out q)
        ≡ some (gw_content device q.request_id (loaded loads (text timeout_error)))
  unfolding outcome_reply send_rpc_reply choose_reply
  timed_out-reply device q name present = rw (name, present) refl

  overdue-replies :
      (now : ℕ) (device : String) (q : RpcRequest C) (rest : List (RpcRequest C))
      (outcomes : List (Outcome C (Dict String V)))
      → is_overdue now q ≡ true
      → reply_name s.renamed_devices q.device ≡ device
      → is_null (loaded loads (text timeout_error)) ≡ false
      → replies (rpc_round handler now s (waiting q rest outcomes))
        ≡ replies (waiting q rest outcomes)
          ++ some (gw_content device q.request_id (loaded loads (text timeout_error))) ∷ []
  unfolding rpc_round take_request
  overdue-replies now device q rest outcomes late name present = rw late (
      map-append (outcome_reply loads bool timeout_error dumps s) outcomes (timed_out q ∷ [])
      ∙ ap (λ x. replies (waiting q rest outcomes) ++ x ∷ [])
          (timed_out-reply device q name present))

  -- The reply to the first request of the queue goes out under the name that the request came with,
  -- though the gateway works with the original one: in a round where its connector answers with an
  -- error, the reply is this error with `success` false, and in a round where it is overdue, whether
  -- it is as it came or was put back under the original name, it is the text of the code 408 as
  -- `loads` reads it, which is not null. The name is the old name of no device, `loads` reads the
  -- error back from its dump, and the dict has an `error` and no `result`, which would be sent alone.
  pub replied_by_name :
      (now later : ℕ) (q : RpcRequest C) (rest : List (RpcRequest C))
      (outcomes : List (Outcome C (Dict String V))) (info : DeviceInfo) (c : Connector)
      (e : Dict String V)
      → IsDistinct s.renamed_devices
      → lookup q.device s.renamed_devices ≡ none
      → is_overdue now q ≡ false
      → is_overdue later q ≡ true
      → lookup (with_original_name s q).device s.connected_devices ≡ some info
      → info.connector ≡ some c
      → handler c (with_original_name s q) ≡ failed e
      → loads (dumps e) ≡ some (dict e)
      → has "error" e ≡ true
      → lookup "result" e ≡ none
      → is_null (loaded loads (text timeout_error)) ≡ false
      → let overdue = some (gw_content q.device q.request_id (loaded loads (text timeout_error))) in
        let before = map (outcome_reply loads bool timeout_error dumps s) outcomes in
        let refused =
          gw_response q.device (some q.request_id) (whole (insert "success" (bool false) e)) in
        (replies (rpc_round handler now s (waiting q rest outcomes)) ≡ before ++ some refused ∷ [])
        × (replies (rpc_round handler later s (waiting q rest outcomes)) ≡ before ++ overdue ∷ [])
        × (replies (rpc_round handler later s (waiting (with_original_name s q) rest outcomes))
            ≡ before ++ overdue ∷ [])
  unfolding rpc_round take_request deliver with_original_name is_overdue
  replied_by_name now later q rest outcomes info c e distinct current due late known has_connector
        answers readable wrong plain present =
      let original = with_original_name s q in
      (
        rw (due, deliver, known, has_connector, answers)
            (map-append (outcome_reply loads bool timeout_error dumps s) outcomes
                (handed c original (failed e) ∷ [])
              ∙ ap (λ x. replies (waiting q rest outcomes) ++ x ∷ [])
                  (failed-reply q c e distinct current readable wrong plain)),
        overdue-replies later q.device q rest outcomes late
            (reply_name-current s.renamed_devices q.device current) present,
        overdue-replies later q.device original rest outcomes late
            (reply_name-original s q distinct current) present,
      )
