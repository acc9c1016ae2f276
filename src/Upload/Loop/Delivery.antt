-- ===== src/Upload/Loop/Delivery.antt =====
-- Runs of the producers and of the upload thread over a storage that keeps its promise.
use thingsboard_gateway.Prelude.{
  List, [], ◌∷◌, ◌++◌, ◌≡◌, refl, ap, ◌∙◌, append_assoc, Bool, true, false, Option, if◌then◌else◌,
  is_empty, not, ◌&&◌, arith, Bool-cases, inl, inr,
}
use thingsboard_gateway.Storage.Contract.{EventStorage, IsTwoPhase}
use thingsboard_gateway.Upload.Pack.{Event, Client, gather, send_data}
use thingsboard_gateway.Upload.Loop.{Readings, Uploader, finish, process, round}
use thingsboard_gateway.Upload.Save.{save}
use thingsboard_gateway.Upload.Save.Once.{save-Saved}

-- What the other threads make happen: an event is saved, or the upload thread makes a round.
pub data Action (E H : Type 0) : Type 0 where
  store : E → Action E H
  serve : Readings H → Action E H

-- The thread's state with two lists that only the statement needs: the events whose saving
-- succeeded, and those of the acknowledged packs.
pub record Trace (S E V H : Type 0) : Type 0 where
  pub uploader : Uploader S V H
  pub accepted : List E
  pub acknowledged : List E

module _ {S E V H : Type 0} (ops : EventStorage S E) (loads : E → Option (Event V))
    (client : Client V H) where
  unfoldable pub act : Action E H → Trace S E V H → Trace S E V H
  act (store e) t =
      let (storage', saved) = save ops e t.uploader.storage in
      record t {
        uploader = record t.uploader { storage = storage' };
        accepted = if saved then t.accepted ++ e ∷ [] else t.accepted;
      }
  act (serve r) t =
      let (u', done) = round ops loads client r t.uploader in
      record t {
        uploader = u';
        acknowledged =
            if done
            then t.acknowledged ++ (ops.get_event_pack t.uploader.storage).1
            else t.acknowledged;
      }

  unfoldable pub run : List (Action E H) → Trace S E V H → Trace S E V H
  run [] t = t
  run (a ∷ actions) t = run actions (act a t)

  storage-finish :
      (r : Readings H) (u : Uploader S V H)
      → (finish ops loads client r u).0.storage ≡ (
          if (finish ops loads client r u).1
          then ops.event_pack_processing_done u.storage
          else u.storage)
  unfolding finish
  storage-finish r u = ground arith

  pub storage-process :
      (r : Readings H) (events : List E) (u : Uploader S V H)
      → (process ops loads client r events u).0.storage ≡ (
          if (process ops loads client r events u).1
          then ops.event_pack_processing_done u.storage
          else u.storage)
  unfolding process
  storage-process r events u =
      let pack = gather loads u.device_pack events in
      let (pack', handles) = send_data client pack in
      ground (
        arith,
        storage-finish r (record u { device_pack = pack }),
        storage-finish r
            (record u { device_pack = pack'; published_events = u.published_events ++ handles }),
      )

  -- A round leaves the storage, or reads a pack, or reads a pack and ends it.
  data Round (u : Uploader S V H) : Uploader S V H × Bool → Type 0 where
    idle :
        (result : Uploader S V H × Bool)
        → result.1 ≡ false
        → result.0.storage ≡ u.storage
        → Round u result
    read :
        (result : Uploader S V H × Bool)
        → result.1 ≡ false
        → result.0.storage ≡ (ops.get_event_pack u.storage).0
        → Round u result
    ended :
        (result : Uploader S V H × Bool)
        → result.1 ≡ true
        → result.0.storage ≡ ops.event_pack_processing_done (ops.get_event_pack u.storage).0
        → Round u result

  process-Round :
      (r : Readings H) (u : Uploader S V H) (events : List E)
      → Round u (
          process ops loads client r events
            (record u { storage = (ops.get_event_pack u.storage).0 }))
  process-Round r u events =
      let u' = record u { storage = (ops.get_event_pack u.storage).0 } in
      let result = process ops loads client r events u' in
      elim (Bool-cases result.1) [
        | inl e ↦ ended result e (storage-process r events u' ∙ rw e refl)
        | inr e ↦ read result e (storage-process r events u' ∙ rw e refl)
      ]

  round-Round : (r : Readings H) (u : Uploader S V H) → Round u (round ops loads client r u)
  unfolding round
  round-Round r u = elim (Bool-cases (r.connected && not r.configuring)) [
    | inl e ↦ rw e (elim (Bool-cases (is_empty (ops.get_event_pack u.storage).1)) [
      | inl none ↦ rw none (read _ refl refl)
      | inr some ↦ rw some (process-Round r u _)
    ])
    | inr e ↦ rw e (idle _ refl refl)
  ]

  module _ (law : IsTwoPhase ops) where
    -- Every accepted event is acknowledged, handed out, or waits, in the order of acceptance.
    pub record IsComplete (t : Trace S E V H) : Type 0 where
      pub sound : law.Inv t.uploader.storage
      pub queue :
          t.acknowledged ++ (law.pack t.uploader.storage ++ law.pending t.uploader.storage)
          ≡ t.accepted

    read-queue :
        (s : S)
        → law.Inv s
        → (acknowledged accepted : List E)
        → acknowledged ++ (law.pack s ++ law.pending s) ≡ accepted
        → let s' = (ops.get_event_pack s).0 in
          acknowledged ++ (law.pack s' ++ law.pending s') ≡ accepted
    read-queue s i acknowledged accepted h = ap (λ q. acknowledged ++ q) (law.get_order s i) ∙ h

    served-IsComplete :
        (t : Trace S E V H) (result : Uploader S V H × Bool)
        → Round t.uploader result
        → IsComplete t
        → IsComplete (record t {
          uploader = result.0;
          acknowledged =
              if result.1
              then t.acknowledged ++ (ops.get_event_pack t.uploader.storage).1
              else t.acknowledged;
        })
    served-IsComplete t _ (idle result not_done same) h = record {
      sound = rw same h.sound;
      queue = rw (not_done, same) h.queue;
    }
    served-IsComplete t _ (read result not_done same) h =
        let s = t.uploader.storage in
        record {
          sound = rw same (law.get-Inv s h.sound);
          queue = rw (not_done, same) (read-queue s h.sound t.acknowledged t.accepted h.queue);
        }
    served-IsComplete t _ (ended result done same) h =
        let s = t.uploader.storage in
        let s' = (ops.get_event_pack s).0 in
        record {
          sound = rw same (law.done-Inv s' (law.get-Inv s h.sound));
          queue =
              rw (done, same, law.done-pack s', law.done-pending s', law.get_result s h.sound)
                (append_assoc t.acknowledged (law.pack s') (law.pending s')
                  ∙ read-queue s h.sound t.acknowledged t.accepted h.queue);
        }

    stored-queue :
        (e : E) (saved : Bool) (acknowledged pack pending accepted : List E)
        → acknowledged ++ (pack ++ pending) ≡ accepted
        → acknowledged ++ (pack ++ (if saved then pending ++ e ∷ [] else pending))
          ≡ (if saved then accepted ++ e ∷ [] else accepted)
    stored-queue e true acknowledged pack pending accepted h = rw (← h) (simp append_assoc)
    stored-queue e false acknowledged pack pending accepted h = h

    act-IsComplete : (a : Action E H) (t : Trace S E V H) → IsComplete t → IsComplete (act a t)
    unfolding act
    act-IsComplete (store e) t h =
        let s = t.uploader.storage in
        let done = save-Saved law e s in
        record {
          sound = done.kept h.sound;
          queue =
              rw (done.pack, done.pending)
                (stored-queue e (save ops e s).1 t.acknowledged (law.pack s) (law.pending s)
                  t.accepted h.queue);
        }
    act-IsComplete (serve r) t h =
        served-IsComplete t (round ops loads client r t.uploader) (round-Round r t.uploader) h

    -- Whatever the producers and the upload thread do, over a storage that keeps its promise: if
    -- the acknowledged events, the pack and the waiting events are the accepted events in order at
    -- the start, they are at the end. So no accepted event is lost, doubled or reordered between
    -- the save that accepted it and the acknowledgement of its pack.
    pub run-IsComplete :
        (actions : List (Action E H)) (t : Trace S E V H)
        → IsComplete t
        → IsComplete (run actions t)
    unfolding run
    run-IsComplete [] t h = h
    run-IsComplete (a ∷ actions) t h = run-IsComplete actions (act a t) (act-IsComplete a t h)
