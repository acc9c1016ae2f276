-- ===== src/Report/Periodic.antt =====
-- `__periodical_reporting` of report_strategy_service.py: one round over the keys to report, whose
-- looks at the time of day are one. No value of an attribute is None, which would be refused.
pub mod Apart
pub mod Forgotten
use Prim.Native.String.{String}
use thingsboard_gateway.Prelude.{
  ℕ, List, [], ◌∷◌, ◌++◌, map, Option, none, some, get_or, Bool, true, false, ◌||◌, is_empty,
  if◌then◌else◌,
}
use thingsboard_gateway.Prelude.Eq.{Eq, of_discrete, string_discrete}
use thingsboard_gateway.Prelude.Dict.{Dict, lookup, insert}
use thingsboard_gateway.Entities.Datapoint.{DatapointKey, TelemetryEntry}
use thingsboard_gateway.Entities.Converted.{ConvertedData, init, add_single, add_to_attributes}
use thingsboard_gateway.Report.Cache.{
  DataRecord, CacheKey, cache_key_eq, DataCache, should_be_reported_by_period, write, get,
}
use thingsboard_gateway.Report.Service.{Service}

-- `(connector_name, connector_id, device_name, device_type)`
pub record ReportKey : Type 0 where
  pub connector_name : String
  pub connector_id : String
  pub device_name : String
  pub device_type : String

unfoldable pub ReportKey-discrete : Discrete ReportKey
ReportKey-discrete = hlevel string_discrete

instance abbrev pub report_key_eq : Eq ReportKey
report_key_eq = of_discrete ReportKey-discrete

unfoldable pub member_key : CacheKey → List CacheKey → Bool
member_key key [] = false
member_key key (k ∷ ks) = cache_key_eq.beq k key || member_key key ks

-- `self.__keys_to_report_periodically.remove(item)` of each; a key that is not there is passed over.
unfoldable pub remove_keys : List CacheKey → List CacheKey → List CacheKey
unfolding member_key
remove_keys removed [] = []
remove_keys removed (k ∷ ks) =
    let rest = remove_keys removed ks in if member_key k removed then rest else k ∷ rest

-- What a round has gathered: the keys without a record, and the data by connector and device.
pub record Gathered (V : Type 0) : Type 0 where
  pub cache : DataCache V
  pub to_removal_by_expiration : List CacheKey
  pub data_to_report : Dict ReportKey (ConvertedData V)

-- A key whose record is due, and the record after its report; `expired` is a key without one.
pub data Due (V : Type 0) : Type 0 where
  expired not_due : Due V
  due : DataRecord V → Due V

module _ {V : Type 0} where
  -- The record as a report leaves it, which is changed in its place.
  abbrev pub reported : ℕ → ℕ → DataRecord V → DataRecord V
  reported now wall r = record r {
    ts = if r.is_telemetry then some wall else r.ts;
    last_report_time = some now;
  }

  abbrev pub mark_reported : CacheKey → DataRecord V → DataCache V → DataCache V
  mark_reported ck r c = elim (lookup ck c.data_cache) [
    | none ↦ c
    | some (_, expire) ↦ write ck r expire c
  ]

  -- The look at one key, at the time `now` of the clock and `wall` of the day.
  unfoldable pub report_due : ℕ → ℕ → CacheKey → DataCache V → DataCache V × Due V
  unfolding get should_be_reported_by_period
  report_due now wall ck c =
      let c' = (get ck c).0 in
      elim (get ck c).1 [
        | none ↦ (c', expired)
        | some r ↦
            if should_be_reported_by_period now r
            then (mark_reported ck (reported now wall r) c', due r)
            else (c', not_due)
      ]

  -- `metadata` makes the dict with the name of the connector and the time.
  module _ (metadata : String → ℕ → Dict String V) where
    unfoldable pub report_key : ℕ → ℕ → CacheKey → Gathered V → Gathered V
    unfolding report_due
    report_key now wall ck g =
        let c' = (report_due now wall ck g.cache).0 in
        elim (report_due now wall ck g.cache).1 [
          | expired ↦ record g {
            cache = c';
            to_removal_by_expiration = g.to_removal_by_expiration ++ ck ∷ [];
          }
          | not_due ↦ record g { cache = c' }
          | due r ↦
              let group : ReportKey = record {
                connector_name = r.connector_name;
                connector_id = ck.connector_id;
                device_name = ck.device_name;
                device_type = r.device_type;
              } in
              let values = (ck.datapoint_key, r.value) ∷ [] in
              let entry =
                get_or (lookup group g.data_to_report)
                  (init ck.device_name r.device_type (metadata r.connector_name wall)) in
              let entry' =
                if r.is_telemetry
                then add_single (record { ts = wall; values = values }) entry
                else add_to_attributes values entry in
              record g { cache = c'; data_to_report = insert group entry' g.data_to_report }
        ]

    unfoldable pub report_keys : ℕ → ℕ → List CacheKey → Gathered V → Gathered V
    unfolding report_key
    report_keys now wall [] g = g
    report_keys now wall (ck ∷ cks) g = report_keys now wall cks (report_key now wall ck g)

    -- A round: the keys that the last one found expired go first.
    unfoldable pub periodic_round : ℕ → ℕ → List CacheKey → Service V → Service V × List CacheKey
    unfolding report_keys remove_keys
    periodic_round now wall removal s =
        if is_empty s.keys_to_report_periodically
        then (s, removal)
        else (let keys = remove_keys removal s.keys_to_report_periodically in
            let g =
              report_keys now wall keys
                (record { cache = s.cache; to_removal_by_expiration = []; data_to_report = [] }) in
            (
              record s {
                cache = g.cache;
                keys_to_report_periodically = keys;
                send_data_queue =
                    s.send_data_queue
                    ++ map (λ item. (item.0.connector_name, item.0.connector_id, item.1))
                        g.data_to_report;
              },
              g.to_removal_by_expiration,
            ))
