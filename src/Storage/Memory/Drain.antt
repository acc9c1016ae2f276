-- ===== src/Storage/Memory/Drain.antt =====
-- Reading a memory storage empty, a confirmed pack after the other.
use thingsboard_gateway.Prelude.{
  ℕ, zero, suc, min, ◌≤◌, List, [], ◌∷◌, ◌++◌, ◌≡◌, ◌≢◌, refl, sym, ap, ◌∙◌, inl, inr, List-cases,
  length, length-append, length-drop, arith,
}
use thingsboard_gateway.Storage.Memory.{
  MemoryEventStorage, get_event_pack, event_pack_processing_done,
}
use thingsboard_gateway.Storage.Memory.Fifo.{
  get_event_pack_fill, get_event_pack_again, get_order_lem, get_result_lem,
}

module _ {E : Type 0} where
  -- The events of as many packs, each confirmed before the next is fetched.
  unfoldable pub drain : ℕ → MemoryEventStorage E → List E
  unfolding get_event_pack event_pack_processing_done
  drain zero s = []
  drain (suc n) s =
      let (s', pack) = get_event_pack s in pack ++ drain n (event_pack_processing_done s')

  nonempty : (xs : List E) → xs ≢ [] → 1 ≤ length xs
  nonempty [] h = absurd (h refl)
  nonempty (x ∷ xs) h = omega arith

  length-get :
      (n : ℕ) (s : MemoryEventStorage E)
      → 1 ≤ s.events_per_time
      → length (s.event_pack ++ s.events_queue) ≤ suc n
      → length (get_event_pack s).0.events_queue ≤ n
  length-get n s pos h = elim (List-cases s.event_pack) [
    | inl e ↦
        let m = min s.events_per_time (length s.events_queue) in
        rw (get_event_pack_fill s e)
          (omega (arith, length-drop m s.events_queue, length-append s.event_pack s.events_queue))
    | inr ne ↦
        rw (get_event_pack_again s ne)
          (omega (arith, nonempty s.event_pack ne, length-append s.event_pack s.events_queue))
  ]

  events_per_time-get :
      (s : MemoryEventStorage E) → (get_event_pack s).0.events_per_time ≡ s.events_per_time
  events_per_time-get s = elim (List-cases s.event_pack) [
    | inl e ↦ rw (get_event_pack_fill s e) refl
    | inr ne ↦ rw (get_event_pack_again s ne) refl
  ]

  -- Where a pack may hold an event, at most as many packs as there are events hand out all of
  -- them, those of the pack in progress first, each once and in their order.
  pub drain-all :
      (n : ℕ) (s : MemoryEventStorage E)
      → 1 ≤ s.events_per_time
      → length (s.event_pack ++ s.events_queue) ≤ n
      → drain n s ≡ s.event_pack ++ s.events_queue
  unfolding drain
  drain-all zero s pos h = elim (List-cases (s.event_pack ++ s.events_queue)) [
    | inl e ↦ sym e
    | inr ne ↦ absurd (omega (arith, nonempty (s.event_pack ++ s.events_queue) ne))
  ]
  drain-all (suc n) s pos h =
      let s' = (get_event_pack s).0 in
      let rest =
        drain-all n (event_pack_processing_done s') (rw (events_per_time-get s) pos)
          (length-get n s pos h) in
      ap (λ es. (get_event_pack s).1 ++ es) rest
      ∙ ap (λ es. es ++ s'.events_queue) (get_result_lem s)
      ∙ get_order_lem s
