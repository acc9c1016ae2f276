-- ===== src/Storage/Contract.antt =====
-- thingsboard_gateway/storage/event_storage.py: the operations of an event storage, and what the
-- upload loop of thingsboard_gateway/gateway/tb_gateway_service.py relies on.
pub mod History
use thingsboard_gateway.Prelude.{List, [], ◌∷◌, ◌++◌, ◌≡◌, ◌≢◌, Bool, true, false}

-- A method returns the new state, and its result where it has one.
pub record EventStorage (S E : Type 0) : Type 0 where
  pub put : E → S → S × Bool
  pub get_event_pack : S → S × List E
  pub event_pack_processing_done : S → S
  pub stop : S → S

-- The promise: the events that wait and those handed out are one queue, `pack` before `pending`,
-- and only `event_pack_processing_done` takes events out of it.
pub record IsTwoPhase {S E : Type 0} (ops : EventStorage S E) : Type 1 where
  pub Inv : S → Type 0
  pub pack : S → List E
  pub pending : S → List E
  pub put-Inv : (e : E) (s : S) → Inv s → Inv (ops.put e s).0
  pub put-pack : (e : E) (s : S) → pack (ops.put e s).0 ≡ pack s
  pub put_taken :
      (e : E) (s : S) → (ops.put e s).1 ≡ true → pending (ops.put e s).0 ≡ pending s ++ e ∷ []
  pub put_refused : (e : E) (s : S) → (ops.put e s).1 ≡ false → pending (ops.put e s).0 ≡ pending s
  pub get-Inv : (s : S) → Inv s → Inv (ops.get_event_pack s).0
  pub get_result : (s : S) → Inv s → (ops.get_event_pack s).1 ≡ pack (ops.get_event_pack s).0
  pub get_order :
      (s : S)
      → Inv s
      → pack (ops.get_event_pack s).0 ++ pending (ops.get_event_pack s).0 ≡ pack s ++ pending s
  pub get_again : (s : S) → pack s ≢ [] → ops.get_event_pack s ≡ (s, pack s)
  pub done-Inv : (s : S) → Inv s → Inv (ops.event_pack_processing_done s)
  pub done-pack : (s : S) → pack (ops.event_pack_processing_done s) ≡ []
  pub done-pending : (s : S) → pending (ops.event_pack_processing_done s) ≡ pending s
