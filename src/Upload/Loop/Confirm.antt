-- ===== src/Upload/Loop/Confirm.antt =====
-- When a round acknowledges its pack.
use thingsboard_gateway.Prelude.{
  List, [], ◌∷◌, ◌++◌, ◌≡◌, ◌≢◌, refl, ap, ◌∙◌, append-nil, true, false, not, ◌&&◌, Option, none,
  is_empty, All, map, arith, List-cases, inl, inr,
}
use thingsboard_gateway.Storage.Contract.{EventStorage, IsTwoPhase}
use thingsboard_gateway.Upload.Pack.{Event, DevicePack, Client, gather, send_data}
use thingsboard_gateway.Upload.Loop.{
  Readings, Uploader, all_confirmed, handle_published_events, finish, process, round,
}
use thingsboard_gateway.Upload.Loop.Delivery.{serve, Trace, act, run, storage-process}

-- The connection is gone just while the published events are handled, is there before and back
-- right after, and nothing is ever confirmed.
pub record LosesConnection {H : Type 0} (r : Readings H) : Type 0 where
  pub begins : (r.connected && not r.configuring) ≡ true
  pub sends : r.connected_after_processing ≡ true
  pub sent : (r.connected_after_sending && not r.configuring_after_sending) ≡ true
  pub goes_on : r.stopped ≡ false
  pub lost : r.connected_at_handling ≡ false
  pub back : r.connected_at_end ≡ true
  pub refuses : (h : H) → r.confirmed h ≡ false

module _ {S E V H : Type 0} (ops : EventStorage S E) (loads : E → Option (Event V))
    (client : Client V H) where
  refuses_all :
      (r : Readings H) (handles : List H)
      → LosesConnection r
      → handles ≢ []
      → all_confirmed r.confirmed handles ≡ false
  unfolding all_confirmed
  refuses_all r [] l n = absurd (n refl)
  refuses_all r (h ∷ handles) l n = rw (l.refuses h) refl

  finish-LosesConnection :
      (r : Readings H) (u : Uploader S V H)
      → LosesConnection r
      → u.published_events ≢ []
      → (finish ops loads client r u).1 ≡ true
  unfolding finish handle_published_events
  finish-LosesConnection r u l n = ground (arith, l.sent, l.goes_on, l.lost, l.back)

  process-LosesConnection :
      (r : Readings H) (events : List E) (u : Uploader S V H)
      → LosesConnection r
      → u.published_events ++ (send_data client (gather loads u.device_pack events)).1 ≢ []
      → (process ops loads client r events u).1 ≡ true
  unfolding process send_data
  process-LosesConnection r events u l n =
      let pack = gather loads u.device_pack events in
      let (pack', handles) = send_data client pack in
      elim (List-cases pack) [
        | inl e ↦
            let e' : is_empty pack ≡ true = ap is_empty e in
            let same : u.published_events ++ handles ≡ u.published_events =
              rw e (append-nil u.published_events) in
            rw e' (finish-LosesConnection r (record u { device_pack = pack }) l (rw same at n))
        | inr some_there ↦
            let after =
              finish-LosesConnection r
                (record u { device_pack = pack'; published_events = u.published_events ++ handles })
                l n in
            ground (arith, l.sends, after)
      ]

  -- If the connection is gone just while the published events are handled and back right after, the
  -- round ends a pack that has events although nothing of what was published, by it or before, is
  -- confirmed: over a storage that keeps its promise, the events of the pack count as acknowledged
  -- and the storage has them no more, and what waits behind them is as it was when they were read.
  -- Something was published.
  pub unconfirmed_lost :
      (law : IsTwoPhase ops) (r : Readings H) (t : Trace S E V H)
      → LosesConnection r
      → law.Inv t.uploader.storage
      → law.pack (ops.get_event_pack t.uploader.storage).0 ≢ []
      → let s = (ops.get_event_pack t.uploader.storage).0 in
        t.uploader.published_events
            ++ (send_data client (gather loads t.uploader.device_pack (law.pack s))).1
          ≢ []
        → let s = (ops.get_event_pack t.uploader.storage).0 in
          let published =
            t.uploader.published_events
            ++ (send_data client (gather loads t.uploader.device_pack (law.pack s))).1 in
          let t' = act ops loads client (serve r) t in
          (all_confirmed r.confirmed published ≡ false)
          × (t'.acknowledged ≡ t.acknowledged ++ law.pack s)
          × (law.pack t'.uploader.storage ≡ [])
          × (law.pending t'.uploader.storage ≡ law.pending s)
  unfolding act round
  unconfirmed_lost law r t l sound some_there published =
      let s = (ops.get_event_pack t.uploader.storage).0 in
      let u = record t.uploader { storage = s } in
      let handed = law.get_result t.uploader.storage sound in
      let filled : is_empty (law.pack s) ≡ false = ground (arith, some_there) in
      let served : round ops loads client r t.uploader ≡ process ops loads client r (law.pack s) u =
        rw (l.begins, handed, filled) refl in
      let ends = process-LosesConnection r (law.pack s) u l published in
      let storage : (process ops loads client r (law.pack s) u).0.storage
          ≡ ops.event_pack_processing_done s =
        storage-process ops loads client r (law.pack s) u ∙ rw ends refl in
      (
        refuses_all r _ l published,
        rw (served, ends, handed) refl,
        rw (served, storage) (law.done-pack s),
        rw (served, storage) (law.done-pending s),
      )

  gather_unreadable :
      (pack : DevicePack V) (events : List E)
      → All (λ e. loads e ≡ none) events
      → gather loads pack events ≡ pack
  unfolding gather
  gather_unreadable pack [] h = refl
  gather_unreadable pack (e ∷ events) h = rw h.0 (gather_unreadable pack events h.1)

  -- Nothing was read and nothing is left from before.
  pub record IsBlocked (law : IsTwoPhase ops) (u : Uploader S V H) : Type 0 where
    pub waiting : law.pack u.storage ≢ []
    pub unreadable : All (λ e. loads e ≡ none) (law.pack u.storage)
    pub no_devices : u.device_pack ≡ []
    pub no_published : u.published_events ≡ []

  blocked-round :
      (law : IsTwoPhase ops) (r : Readings H) (u : Uploader S V H)
      → IsBlocked law u
      → round ops loads client r u ≡ (u, false)
  unfolding round process finish handle_published_events
  blocked-round law r u b =
      let unread = gather_unreadable u.device_pack (law.pack u.storage) b.unreadable in
      ground
        (arith, law.get_again u.storage b.waiting, unread, b.no_devices, b.no_published, b.waiting)

  blocked-act :
      (law : IsTwoPhase ops) (r : Readings H) (t : Trace S E V H)
      → IsBlocked law t.uploader
      → act ops loads client (serve r) t ≡ t
  unfolding act
  blocked-act law r t b = rw (blocked-round law r t.uploader b)

  -- A pack of events that `loads` refuses, with no device data and no published event left from
  -- before, is never acknowledged: every sequence of rounds leaves the trace as it is.
  pub blocked_forever :
      (law : IsTwoPhase ops) (rounds : List (Readings H)) (t : Trace S E V H)
      → IsBlocked law t.uploader
      → run ops loads client (map serve rounds) t ≡ t
  unfolding run
  blocked_forever law [] t b = refl
  blocked_forever law (r ∷ rounds) t b =
      ap (run ops loads client (map serve rounds)) (blocked-act law r t b)
      ∙ blocked_forever law rounds t b
