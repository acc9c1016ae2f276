-- ===== src/Devices/Rpc/Queue.antt =====
-- The queue of requests: every request has one outcome, and an overdue one is answered.
use thingsboard_gateway.Prelude.{
  ℕ, ◌+◌, ◌≤◌, List, [], ◌∷◌, ◌++◌, append-nil, append_assoc, map, ◌≡◌, refl, sym, ap, ◌∙◌, none,
  some, Bool, true, false, ◌==◌, All, length, arith, Bool-cases, Option-cases, inl, inr,
  if◌then◌else◌,
}
use thingsboard_gateway.Prelude.Eq.{string_eq}
use thingsboard_gateway.Prelude.Dict.{lookup}
use thingsboard_gateway.Devices.{Connector, DeviceInfo, Service}
use thingsboard_gateway.Devices.Rpc.{
  RpcRequest, Handled, Outcome, timed_out, handed, no_connector, RpcQueue, is_overdue,
  with_original_name, goes_on, deliver, take_request, rpc_round, rpc_rounds,
}

-- The request that an outcome is of.
unfoldable pub request_of : {C E : Type 0} → Outcome C E → RpcRequest C
request_of (timed_out q) = q
request_of (handed c q h) = q
request_of (no_connector q) = q

-- How many of some requests have the number k.
unfoldable pub count_requests : {C : Type 0} → ℕ → List (RpcRequest C) → ℕ
count_requests k [] = 0
count_requests k (q ∷ qs) = (if q.request_id == k then 1 else 0) + count_requests k qs

count_requests-append :
    {C : Type 0} (k : ℕ) (xs ys : List (RpcRequest C))
    → count_requests k (xs ++ ys) ≡ count_requests k xs + count_requests k ys
unfolding count_requests
count_requests-append k [] ys = omega arith
count_requests-append k (x ∷ xs) ys = omega (arith, count_requests-append k xs ys)

map-append {ℓ κ} :
    {A : Type ℓ} {B : Type κ} (f : A → B) (xs ys : List A) → map f (xs ++ ys) ≡ map f xs ++ map f ys
map-append f [] ys = refl
map-append f (x ∷ xs) ys = ap (◌∷◌ (f x)) (map-append f xs ys)

module _ {A C E : Type 0} (handler : Connector → RpcRequest C → Handled E) (s : Service A) where
  -- How many requests with the number k wait or have an outcome.
  unfoldable pub tally : ℕ → RpcQueue C E → ℕ
  unfolding count_requests request_of
  tally k r = count_requests k r.requests + count_requests k (map request_of r.outcomes)

  outcome-tally :
      (k : ℕ) (o : Outcome C E) (rest : List (RpcRequest C)) (outcomes : List (Outcome C E))
      (running : Bool)
      → tally k (record { requests = rest; outcomes = outcomes ++ o ∷ []; running = running })
        ≡ count_requests k (request_of o ∷ rest) + count_requests k (map request_of outcomes)
  unfolding tally count_requests request_of
  outcome-tally k o rest outcomes running =
      rw
        (
          map-append request_of outcomes (o ∷ []),
          count_requests-append k (map request_of outcomes) (request_of o ∷ []),
        )
        (omega arith)

  -- The branches of a delivery and of a round.
  pub deliver_unknown :
      (q : RpcRequest C) (rest : List (RpcRequest C)) (r : RpcQueue C E)
      → lookup q.device s.connected_devices ≡ none
      → deliver handler s q rest r ≡ record r { requests = rest ++ q ∷ [] }
  unfolding deliver
  deliver_unknown q rest r e = rw (deliver, e) refl

  deliver_known :
      (q : RpcRequest C) (rest : List (RpcRequest C)) (r : RpcQueue C E) (info : DeviceInfo)
      → lookup q.device s.connected_devices ≡ some info
      → (o : Outcome C E) × (running : Bool) × (request_of o ≡ q)
        × (deliver handler s q rest r
            ≡ record { requests = rest; outcomes = r.outcomes ++ o ∷ []; running = running })
  unfolding deliver request_of
  deliver_known q rest r info e = elim (Option-cases info.connector) [
    | inl e' ↦ (no_connector q, r.running, refl, rw (deliver, e, e') refl)
    | inr (c, e') ↦
        (handed c q (handler c q), goes_on (handler c q), refl, rw (deliver, e, e') refl)
  ]

  round_running :
      (now : ℕ) (r : RpcQueue C E)
      → r.running ≡ true
      → rpc_round handler now s r ≡ take_request handler now s r.requests r
  unfolding rpc_round
  round_running now r e =
      ap (λ (b : Bool). if b then take_request handler now s r.requests r else r) e

  round_stopped : (now : ℕ) (r : RpcQueue C E) → r.running ≡ false → rpc_round handler now s r ≡ r
  unfolding rpc_round
  round_stopped now r e =
      ap (λ (b : Bool). if b then take_request handler now s r.requests r else r) e

  deliver-tally :
      (k : ℕ) (q : RpcRequest C) (rest : List (RpcRequest C)) (r : RpcQueue C E)
      → tally k (deliver handler s q rest r)
        ≡ count_requests k (q ∷ rest) + count_requests k (map request_of r.outcomes)
  unfolding tally count_requests
  deliver-tally k q rest r = elim (Option-cases (lookup q.device s.connected_devices)) [
    | inl e ↦
        ap (tally k) (deliver_unknown q rest r e)
        ∙ omega (arith, count_requests-append k rest (q ∷ []))
    | inr (info, e) ↦
        let (o, running, same, made) = deliver_known q rest r info e in
        ap (tally k) made
        ∙ outcome-tally k o rest r.outcomes running
        ∙ ap
            (λ (x : RpcRequest C).
              count_requests k (x ∷ rest) + count_requests k (map request_of r.outcomes))
            same
  ]

  take-tally :
      (k now : ℕ) (qs : List (RpcRequest C)) (r : RpcQueue C E)
      → r.requests ≡ qs
      → tally k (take_request handler now s qs r) ≡ tally k r
  unfolding take_request tally request_of with_original_name count_requests
  take-tally k now [] r e = refl
  take-tally k now (q ∷ rest) r e =
      let all : count_requests k (q ∷ rest) + count_requests k (map request_of r.outcomes)
          ≡ tally k r =
        ap
          (λ (qs : List (RpcRequest C)).
            count_requests k qs + count_requests k (map request_of r.outcomes))
          (sym e) in
      elim (Bool-cases (is_overdue now q)) [
        | inl late ↦ rw late (outcome-tally k (timed_out q) rest r.outcomes r.running ∙ all)
        | inr due ↦ rw due (deliver-tally k (with_original_name s q) rest r ∙ all)
      ]

  -- Whatever the times and the devices, the requests with a given number that wait and those
  -- that have an outcome are together as many after any rounds as before them: none is lost, and
  -- none has an outcome twice.
  pub rpc_rounds-tally :
      (k : ℕ) (times : List ℕ) (r : RpcQueue C E)
      → tally k (rpc_rounds handler times s r) ≡ tally k r
  unfolding rpc_rounds
  rpc_rounds-tally k [] r = refl
  rpc_rounds-tally k (now ∷ times) r =
      rpc_rounds-tally k times (rpc_round handler now s r) ∙ elim (Bool-cases r.running) [
        | inl e ↦ ap (tally k) (round_running now r e) ∙ take-tally k now r.requests r refl
        | inr e ↦ ap (tally k) (round_stopped now r e)
      ]

  -- An overdue request at the front.
  overdue_round :
      (now : ℕ) (q : RpcRequest C) (rest : List (RpcRequest C)) (outcomes : List (Outcome C E))
      → is_overdue now q ≡ true
      → rpc_round handler now s
          (record { requests = q ∷ rest; outcomes = outcomes; running = true })
        ≡ record { requests = rest; outcomes = outcomes ++ timed_out q ∷ []; running = true }
  unfolding rpc_round take_request
  overdue_round now q rest outcomes late = rw late refl

  later : (now t : ℕ) (q : RpcRequest C) → now ≤ t → is_overdue now q ≡ true → is_overdue t q ≡ true
  unfolding is_overdue
  later now t q after late = ground arith

  -- While the thread runs, requests that are all overdue are answered with the code 408, in their
  -- order, by as many rounds as there are requests, at that time or later, whether their devices
  -- are known or not.
  pub overdue_answered :
      (now : ℕ) (times : List ℕ) (qs : List (RpcRequest C)) (outcomes : List (Outcome C E))
      → All (λ q. is_overdue now q ≡ true) qs
      → All (λ t. now ≤ t) times
      → length times ≡ length qs
      → rpc_rounds handler times s (record { requests = qs; outcomes = outcomes; running = true })
        ≡ record { requests = []; outcomes = outcomes ++ map timed_out qs; running = true }
  unfolding rpc_rounds
  overdue_answered now [] [] outcomes late after same =
      ap (λ (os : List (Outcome C E)). record { requests = []; outcomes = os; running = true })
        (sym (append-nil outcomes))
  overdue_answered now (t ∷ times) [] outcomes late after same = absurd (omega arith)
  overdue_answered now [] (q ∷ qs) outcomes late after same = absurd (omega arith)
  overdue_answered now (t ∷ times) (q ∷ qs) outcomes late after same =
      ap (rpc_rounds handler times s) (overdue_round t q qs outcomes (later now t q after.0 late.0))
      ∙ overdue_answered now times qs (outcomes ++ timed_out q ∷ []) late.1 after.1 (omega arith)
      ∙ ap (λ (os : List (Outcome C E)). record { requests = []; outcomes = os; running = true })
          (append_assoc outcomes (timed_out q ∷ []) (map timed_out qs))
