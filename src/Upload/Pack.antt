-- ===== src/Upload/Pack.antt =====
-- The data of one pack, gathered for each device, and its publication (`__send_data`).
pub mod Gather
use thingsboard_gateway.Prelude.{
  ℕ, zero, suc, String, List, [], ◌∷◌, ◌++◌, map, Bool, true, false, not, ◌&&◌, ◌||◌, Option, none,
  some, ◌==◌, is_empty, get_or, is_some, if◌then◌else◌,
}
use thingsboard_gateway.Prelude.Eq.{Eq, string_eq}
use thingsboard_gateway.Prelude.Dict.{Dict, lookup, insert, update, has}

module _ (V : Type 0) where
  -- An entry of an event's telemetry.
  pub record Item : Type 0 where
    pub ts : Option ℕ
    pub values : Dict String V
    pub metadata : Option V

  -- What `loads` makes of a stored event. A single object under "telemetry" or "attributes" stands
  -- here as the list of it, a missing key as the empty list.
  pub record Event : Type 0 where
    pub device_name : String
    pub telemetry : List Item
    pub attributes : List (Dict String V)
    pub metadata : Option V

  pub record DeviceData : Type 0 where
    pub telemetry : List Item
    pub attributes : Dict String V

  abbrev pub DevicePack : Type 0
  DevicePack = Dict String DeviceData

  -- The calls of the client that publish.
  pub data Message : Type 0 where
    send_attributes : Dict String V → Message
    gw_send_attributes : String → Dict String V → Message
    send_telemetry : List Item → Message
    gw_send_telemetry : String → List Item → Message

module _ {V : Type 0} where
  abbrev pub no_data : DeviceData V
  no_data = record { telemetry = []; attributes = [] }

  -- `item.get('ts')`: a time stamp that is there and is not 0.
  abbrev pub has_ts : Item V → Bool
  has_ts item = elim item.ts [ none ↦ false | some t ↦ not (t == 0) ]

  -- `if has_metadata and item.get('ts'): item.update({'metadata': …})`
  abbrev pub with_metadata : Option V → Item V → Item V
  with_metadata metadata item =
      if is_some metadata && has_ts item then record item { metadata = metadata } else item

  unfoldable pub update_all : Dict String V → List (Dict String V) → Dict String V
  update_all attributes [] = attributes
  update_all attributes (item ∷ items) = update_all (update attributes item) items

  unfoldable pub device_data : String → DevicePack V → DeviceData V
  device_data device pack = get_or (lookup device pack) no_data

  -- The body of `for event in events` after `loads`.
  unfoldable pub add_event : Event V → DevicePack V → DevicePack V
  unfolding device_data update_all
  add_event event pack =
      let old = device_data event.device_name pack in
      insert event.device_name
        (record {
          telemetry = old.telemetry ++ map (with_metadata event.metadata) event.telemetry;
          attributes = update_all old.attributes event.attributes;
        })
        pack

  -- `for event in events`: an event that `loads` refuses is skipped.
  unfoldable pub gather :
      {E : Type 0} (loads : E → Option (Event V)) → DevicePack V → List E → DevicePack V
  gather loads pack [] = pack
  gather loads pack (e ∷ events) =
      gather loads (elim (loads e) [ none ↦ pack | some event ↦ add_event event pack ]) events

-- What the publication reads of the gateway, and the client's calls: `none` is an exception, and
-- a handle is the published event, to be confirmed later.
pub record Client (V H : Type 0) : Type 0 where
  pub name : String
  pub renamed_devices : Dict String String
  pub publish : Message V → Option H

module _ {V H : Type 0} (client : Client V H) where
  abbrev pub is_own : String → Bool
  is_own device =
      string_eq.beq device client.name || string_eq.beq device "currentThingsBoardGateway"

  abbrev pub final_device_name : String → String
  final_device_name device = get_or (lookup device client.renamed_devices) device

  -- The messages of one device: its attributes, then its telemetry, each if there is any.
  unfoldable pub messages : String → DeviceData V → List (Message V)
  messages device dat =
      (if is_empty dat.attributes
        then []
        else (if is_own device
            then send_attributes dat.attributes
            else gw_send_attributes (final_device_name device) dat.attributes)
          ∷ [])
      ++ (if is_empty dat.telemetry
          then []
          else (if is_own device
              then send_telemetry dat.telemetry
              else gw_send_telemetry (final_device_name device) dat.telemetry)
            ∷ [])

  -- The handles of the calls up to the first that raises, and whether none raised.
  unfoldable pub publish_all : List (Message V) → List H × Bool
  publish_all [] = ([], true)
  publish_all (m ∷ ms) =
      let (handles, done) = publish_all ms in
      elim (client.publish m) [ none ↦ ([], false) | some h ↦ (h ∷ handles, done) ]

  -- `__send_data`: the pack afterwards and the handles that it published. A device whose calls
  -- succeed is emptied; an exception leaves its data and the later devices as they are.
  unfoldable pub send_data : DevicePack V → DevicePack V × List H
  unfolding messages publish_all
  send_data [] = ([], [])
  send_data ((device, dat) ∷ pack) =
      let (handles, done) = publish_all (messages device dat) in
      let (pack', later) = send_data pack in
      if done
      then ((device, no_data) ∷ pack', handles ++ later)
      else ((device, dat) ∷ pack, handles)
