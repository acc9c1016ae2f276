-- ===== src/Upload/Pack/Gather.antt =====
-- What a pack holds for each device.
use thingsboard_gateway.Prelude.{
  String, List, [], ◌∷◌, ◌++◌, map, ◌≡◌, refl, sym, ◌∙◌, append-nil, append_assoc, Option, none,
  some, if◌then◌else◌, arith, Bool-cases, Option-cases, inl, inr,
}
use text.Mathlib.TextEquality.{eq_iff}
use thingsboard_gateway.Prelude.Eq.{string_eq}
use thingsboard_gateway.Prelude.Dict.{lookup-insert}
use thingsboard_gateway.Upload.Pack.{
  Event, Item, DevicePack, with_metadata, device_data, add_event, gather, update_all,
}

module _ {E V : Type 0} (loads : E → Option (Event V)) where
  -- The telemetry that the readable events hold for one device, in order, each entry with its
  -- event's metadata.
  unfoldable pub device_items : String → List E → List (Item V)
  device_items device [] = []
  device_items device (e ∷ events) =
      let rest = device_items device events in
      elim (loads e) [
        | none ↦ rest
        | some event ↦
            if string_eq.beq event.device_name device
            then map (with_metadata event.metadata) event.telemetry ++ rest
            else rest
      ]

  add_event-telemetry :
      (device : String) (event : Event V) (pack : DevicePack V)
      → (device_data device (add_event event pack)).telemetry ≡ (
          if string_eq.beq event.device_name device
          then (device_data device pack).telemetry
            ++ map (with_metadata event.metadata) event.telemetry
          else (device_data device pack).telemetry)
  unfolding device_data add_event
  add_event-telemetry device event pack = ground (
    arith,
    eq_iff event.device_name device,
    lookup-insert event.device_name device
        (record {
          telemetry =
              (device_data event.device_name pack).telemetry
              ++ map (with_metadata event.metadata) event.telemetry;
          attributes = update_all (device_data event.device_name pack).attributes event.attributes;
        })
        pack,
  )

  -- For each device a pack holds what it held before, then the telemetry of the readable events
  -- for that device: every entry once, in the order of the events, and none of another device.
  pub gather-telemetry :
      (device : String) (pack : DevicePack V) (events : List E)
      → (device_data device (gather loads pack events)).telemetry
        ≡ (device_data device pack).telemetry ++ device_items device events
  unfolding gather device_items
  gather-telemetry device pack [] = sym (append-nil _)
  gather-telemetry device pack (e ∷ events) = elim (Option-cases (loads e)) [
    | inl h ↦ rw (h, device_items) (gather-telemetry device pack events)
    | inr (event, h) ↦
        rw (h, device_items)
          (gather-telemetry device (add_event event pack) events
            ∙ rw (add_event-telemetry device event pack)
                (elim (Bool-cases (string_eq.beq event.device_name device)) [
                  | inl e ↦ rw e (
                      append_assoc (device_data device pack).telemetry
                        (map (with_metadata event.metadata) event.telemetry)
                        (device_items device events))
                  | inr e ↦ rw e refl
                ]))
  ]
