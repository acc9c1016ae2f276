-- ===== src/Upload/Loop.antt =====
-- `__read_data_from_storage`, `__handle_published_events` and `__process_published_event`: one round
-- of the upload thread over any event storage. The waits and the statistics are left out.
pub mod Delivery
pub mod Confirm
use thingsboard_gateway.Prelude.{
  ℕ, List, [], ◌∷◌, ◌++◌, Bool, true, false, not, ◌&&◌, Option, none, some, ◌==◌, is_empty,
  if◌then◌else◌,
}
use thingsboard_gateway.Storage.Contract.{EventStorage}
use thingsboard_gateway.Upload.Pack.{Event, DevicePack, Client, gather, send_data}

-- What the thread reads of the outside in one round, in the order of the reads. `configuring` is
-- a remote configurator that is there and in process.
pub record Readings (H : Type 0) : Type 0 where
  pub connected : Bool
  pub configuring : Bool
  pub connected_after_processing : Bool
  pub connected_after_sending : Bool
  pub configuring_after_sending : Bool
  pub stopped : Bool
  pub connected_at_handling : Bool
  pub configuring_at_handling : Bool
  pub quality_of_service : ℕ
  pub confirmed : H → Bool
  pub connected_at_end : Bool

pub record Uploader (S V H : Type 0) : Type 0 where
  pub storage : S
  pub device_pack : DevicePack V
  pub published_events : List H

module _ {H : Type 0} where
  -- `confirmed h` is `event.get() == event.TB_ERR_SUCCESS`, with an exception read as false.
  unfoldable pub all_confirmed : (H → Bool) → List H → Bool
  all_confirmed confirmed [] = true
  all_confirmed confirmed (h ∷ handles) = confirmed h && all_confirmed confirmed handles

  -- The result, and the published events that are left in the queue.
  unfoldable pub handle_published_events : Readings H → List H → Bool × List H
  unfolding all_confirmed
  handle_published_events r published =
      let events = if r.stopped then [] else published in
      let left = if r.stopped then published else [] in
      if is_empty events then (false, left) else (
        if r.connected_at_handling && not r.configuring_at_handling && r.quality_of_service == 1
            then all_confirmed r.confirmed events
            else true,
        left,
      )

module _ {S E V H : Type 0} (ops : EventStorage S E) where
  module _ (loads : E → Option (Event V)) (client : Client V H) where
    -- What follows the publication: the confirmations, and the end of the pack if all is well.
    unfoldable pub finish : Readings H → Uploader S V H → Uploader S V H × Bool
    unfolding handle_published_events
    finish r u =
        if r.connected_after_sending && not r.configuring_after_sending
        then (let (success, left) = handle_published_events r u.published_events in
            if success && r.connected_at_end
            then (
              record {
                storage = ops.event_pack_processing_done u.storage;
                device_pack = [];
                published_events = left;
              },
              true,
            )
            else (record u { published_events = left }, false))
        else (u, false)

    -- The part for a pack of events that is not empty.
    unfoldable pub process : Readings H → List E → Uploader S V H → Uploader S V H × Bool
    process r events u =
        let pack = gather loads u.device_pack events in
        if is_empty pack
        then finish r (record u { device_pack = pack })
        else if r.connected_after_processing
        then (let (pack', handles) = send_data client pack in
            finish r
              (record u { device_pack = pack'; published_events = u.published_events ++ handles }))
        else (record u { device_pack = pack }, false)

    -- One round of `while not self.stopped`, and whether it acknowledged the pack.
    unfoldable pub round : Readings H → Uploader S V H → Uploader S V H × Bool
    round r u =
        if r.connected && not r.configuring
        then (let (storage', events) = ops.get_event_pack u.storage in
            let u' = record u { storage = storage' } in
            if is_empty events then (u', false) else process r events u')
        else (u, false)
