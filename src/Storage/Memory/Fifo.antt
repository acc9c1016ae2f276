-- ===== src/Storage/Memory/Fifo.antt =====
-- The memory storage as a bounded queue read in two phases.
use thingsboard_gateway.Prelude.{
  ℕ, zero, suc, min, ◌≤◌, ◌<◌, List, [], ◌∷◌, ◌++◌, ◌≡◌, ◌≢◌, refl, sym, ap, ◌↔◌, inl, inr,
  List-cases, true, false, some, length, take, drop, take-append-drop, length-append, length-drop,
  ◌∙◌, arith,
}
use thingsboard_gateway.Storage.Contract.{IsTwoPhase}
use thingsboard_gateway.Storage.Memory.{
  MemoryEventStorage, put, is_full, get_nowait_times, get_event_pack, event_pack_processing_done,
  storage,
}

-- What a bounded storage keeps: the queue within its length.
pub record IsBounded {E : Type 0} (s : MemoryEventStorage E) : Type 0 where
  pub within : 0 < s.queue_len → length s.events_queue ≤ s.queue_len

module _ {E : Type 0} where
  -- Empty is not raised for at most as many rounds as there are events.
  pub get_nowait_times-take :
      (n : ℕ) (queue : List E)
      → n ≤ length queue
      → get_nowait_times n queue ≡ (some (take n queue), drop n queue)
  unfolding get_nowait_times
  get_nowait_times-take zero queue h = refl
  get_nowait_times-take (suc n) [] h = absurd (omega arith)
  get_nowait_times-take (suc n) (e ∷ queue) h = rw (get_nowait_times-take n queue (omega arith))

  -- An empty pack is filled with the first events of the queue, as many as the limit and the
  -- queue allow, and these leave the queue.
  pub get_event_pack_fill :
      (s : MemoryEventStorage E)
      → s.event_pack ≡ []
      → let n = min s.events_per_time (length s.events_queue) in
        get_event_pack s ≡ (
          record s { events_queue = drop n s.events_queue; event_pack = take n s.events_queue },
          take n s.events_queue,
        )
  unfolding get_event_pack
  get_event_pack_fill s h =
      let n = min s.events_per_time (length s.events_queue) in
      let fits : n ≤ length s.events_queue = omega arith in
      rw (h, get_nowait_times-take n s.events_queue fits) refl

  -- A pack that is not empty is handed out again, and nothing changes.
  pub get_event_pack_again :
      (s : MemoryEventStorage E) → s.event_pack ≢ [] → get_event_pack s ≡ (s, s.event_pack)
  unfolding get_event_pack
  get_event_pack_again s h = ground arith

  put-queue_len : (e : E) (s : MemoryEventStorage E) → (put e s).0.queue_len ≡ s.queue_len
  unfolding put
  put-queue_len e s = ground arith

  pub put-IsBounded : (e : E) (s : MemoryEventStorage E) → IsBounded s → IsBounded (put e s).0
  unfolding put
  put-IsBounded e s h = record {
    within = λ pos.
        let pos' : 0 < s.queue_len = omega (arith, put-queue_len e s) in
        ground (arith, h.within pos', length-append s.events_queue (e ∷ []));
  }

  pub put_taken_lem :
      (e : E) (s : MemoryEventStorage E)
      → (put e s).1 ≡ true
      → (put e s).0.events_queue ≡ s.events_queue ++ e ∷ []
  unfolding put
  put_taken_lem e s h = ground arith

  pub put_refused_lem :
      (e : E) (s : MemoryEventStorage E)
      → (put e s).1 ≡ false
      → (put e s).0.events_queue ≡ s.events_queue
  unfolding put
  put_refused_lem e s h = ground arith

  pub put-pack_lem : (e : E) (s : MemoryEventStorage E) → (put e s).0.event_pack ≡ s.event_pack
  unfolding put
  put-pack_lem e s = ground arith

  -- An event is taken exactly when the storage runs and its queue has room.
  put_iff :
      (e : E) (s : MemoryEventStorage E)
      → ((put e s).1 ≡ true) ↔ ((s.stopped ≡ false) × (is_full s ≡ false))
  unfolding put
  put_iff e s = ground arith

  pub get-IsBounded : (s : MemoryEventStorage E) → IsBounded s → IsBounded (get_event_pack s).0
  get-IsBounded s h = elim (List-cases s.event_pack) [
    | inl e ↦
        let n = min s.events_per_time (length s.events_queue) in
        rw (get_event_pack_fill s e)
          (record { within = λ pos. omega (arith, h.within pos, length-drop n s.events_queue) })
    | inr ne ↦ rw (get_event_pack_again s ne) h
  ]

  pub get_order_lem :
      (s : MemoryEventStorage E)
      → (get_event_pack s).0.event_pack ++ (get_event_pack s).0.events_queue
        ≡ s.event_pack ++ s.events_queue
  get_order_lem s = elim (List-cases s.event_pack) [
    | inl e ↦
        rw (get_event_pack_fill s e)
          (take-append-drop _ s.events_queue ∙ ap (λ p. p ++ s.events_queue) (sym e))
    | inr ne ↦ rw (get_event_pack_again s ne)
  ]

  pub get_result_lem :
      (s : MemoryEventStorage E) → (get_event_pack s).1 ≡ (get_event_pack s).0.event_pack
  unfolding get_event_pack
  get_result_lem s = refl

-- The memory storage keeps the promise of an event storage, and its queue stays within its length.
unfoldable pub memory-IsTwoPhase : {E : Type 0} → IsTwoPhase (storage {E = E})
unfolding event_pack_processing_done
memory-IsTwoPhase = record {
  Inv = IsBounded;
  pack = λ s. s.event_pack;
  pending = λ s. s.events_queue;
  put-Inv = put-IsBounded;
  put-pack = put-pack_lem;
  put_taken = put_taken_lem;
  put_refused = put_refused_lem;
  get-Inv = get-IsBounded;
  get_result = λ s h. get_result_lem s;
  get_order = λ s h. get_order_lem s;
  get_again = get_event_pack_again;
  done-Inv = λ s h. record { within = h.within };
  done-pack = λ s. refl;
  done-pending = λ s. refl;
}
