-- ===== src/Storage/Contract/History.antt =====
-- Histories of a storage, as the gateway sees them: every storage that keeps the promise is a FIFO
-- queue whose events are acknowledged once.
use thingsboard_gateway.Prelude.{
  List, [], ◌∷◌, ◌++◌, append_assoc, ◌≡◌, sym, ap, ◌∙◌, Bool-cases, inl, inr, if◌then◌else◌,
}
use thingsboard_gateway.Storage.Contract.{EventStorage, IsTwoPhase}

pub data Operation (E : Type 0) : Type 0 where
  put_event : E → Operation E
  get_pack done : Operation E

-- A storage, with the events that it took, the pack that it handed out last and the events of the
-- packs that were acknowledged.
pub record History (S E : Type 0) : Type 0 where
  pub state : S
  pub taken : List E
  pub handed_out : List E
  pub acknowledged : List E

module _ {S E : Type 0} (ops : EventStorage S E) where
  unfoldable pub operate : Operation E → History S E → History S E
  operate (put_event e) h =
      let (s, is_taken) = ops.put e h.state in
      record h { state = s; taken = if is_taken then h.taken ++ e ∷ [] else h.taken }
  operate get_pack h =
      let (s, pack) = ops.get_event_pack h.state in record h { state = s; handed_out = pack }
  operate done h = record h {
    state = ops.event_pack_processing_done h.state;
    handed_out = [];
    acknowledged = h.acknowledged ++ h.handed_out;
  }

  unfoldable pub operate_all : List (Operation E) → History S E → History S E
  unfolding operate
  operate_all [] h = h
  operate_all (o ∷ os) h = operate_all os (operate o h)

  module _ (promise : IsTwoPhase ops) where
    -- The history of a queue: what was acknowledged, what is handed out and what waits are together
    -- the events that were taken, in their order.
    pub record IsFifo (h : History S E) : Type 0 where
      pub valid : promise.Inv h.state
      pub current : h.handed_out ≡ promise.pack h.state
      pub in_order : h.acknowledged ++ (h.handed_out ++ promise.pending h.state) ≡ h.taken

    operate-IsFifo : (o : Operation E) (h : History S E) → IsFifo h → IsFifo (operate o h)
    unfolding operate
    operate-IsFifo (put_event e) h f = elim (Bool-cases (ops.put e h.state).1) [
      | inl ok ↦ record {
        valid = promise.put-Inv e h.state f.valid;
        current = f.current ∙ sym (promise.put-pack e h.state);
        in_order =
            rw (ok, promise.put_taken e h.state ok)
              (ap (λ (p : List E). h.acknowledged ++ p)
                  (sym (append_assoc h.handed_out (promise.pending h.state) (e ∷ [])))
                ∙ sym
                    (append_assoc h.acknowledged (h.handed_out ++ promise.pending h.state) (e ∷ []))
                ∙ ap (λ (p : List E). p ++ e ∷ []) f.in_order);
      }
      | inr refused ↦ record {
        valid = promise.put-Inv e h.state f.valid;
        current = f.current ∙ sym (promise.put-pack e h.state);
        in_order = rw (refused, promise.put_refused e h.state refused) f.in_order;
      }
    ]
    operate-IsFifo get_pack h f = record {
      valid = promise.get-Inv h.state f.valid;
      current = promise.get_result h.state f.valid;
      in_order =
          ap
            (λ (p : List E).
              h.acknowledged ++ (p ++ promise.pending (ops.get_event_pack h.state).0))
            (promise.get_result h.state f.valid)
          ∙ ap (λ (p : List E). h.acknowledged ++ p) (promise.get_order h.state f.valid)
          ∙ ap (λ (p : List E). h.acknowledged ++ (p ++ promise.pending h.state)) (sym f.current)
          ∙ f.in_order;
    }
    operate-IsFifo done h f = record {
      valid = promise.done-Inv h.state f.valid;
      current = sym (promise.done-pack h.state);
      in_order =
          append_assoc h.acknowledged h.handed_out _
          ∙ ap (λ (p : List E). h.acknowledged ++ (h.handed_out ++ p))
              (promise.done-pending h.state)
          ∙ f.in_order;
    }

    -- After any operations on a storage that keeps the promise, started from a state without
    -- events, what was acknowledged, what is handed out and what waits are together the events
    -- that were taken, in their order: it refines a FIFO queue that loses and doubles nothing.
    pub operate_all-IsFifo :
        (os : List (Operation E)) (h : History S E) → IsFifo h → IsFifo (operate_all os h)
    unfolding operate_all
    operate_all-IsFifo [] h f = f
    operate_all-IsFifo (o ∷ os) h f = operate_all-IsFifo os (operate o h) (operate-IsFifo o h f)
