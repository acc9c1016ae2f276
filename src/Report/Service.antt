-- ===== src/Report/Service.antt =====
-- report_strategy_service.py: the strategies, and the filter of datapoints.
pub mod Repeated
pub mod Frame
use Prim.Native.String.{String}
use thingsboard_gateway.Prelude.{
  ℕ, List, [], ◌∷◌, ◌++◌, Option, none, some, Bool, true, false, ◌&&◌, is_empty, is_some,
  if◌then◌else◌,
}
use thingsboard_gateway.Prelude.Eq.{Eq, string_eq}
use thingsboard_gateway.Prelude.Dict.{Dict, lookup, insert, remove}
use thingsboard_gateway.Entities.Strategy.{
  ReportStrategy, on_received, on_report_period, on_change, on_change_or_report_period, disabled,
  ReportStrategyConfig, has_report_period,
}
use thingsboard_gateway.Entities.Datapoint.{DatapointKey, datapoint_eq, Values, TelemetryEntry}
use thingsboard_gateway.Entities.Converted.{
  ConvertedData, init, add_to_telemetry, add_to_attributes,
}
use thingsboard_gateway.Report.Cache.{
  DataRecord, CacheKey, cache_key_eq, DataCache, is_on_received, put, get, update_last_report_time,
  update_key_value, update_ts, delete_all_records_for_connector_by_connector_id, clear,
}

pub record Service (V : Type 0) : Type 0 where
  pub main_report_strategy : ReportStrategyConfig
  pub cache : DataCache V
  pub connectors_report_strategies : Dict String ReportStrategyConfig
  pub keys_to_report_periodically : List CacheKey
  pub send_data_queue : List (String × String × ConvertedData V)

-- Where a datapoint comes from, and what it is reported as.
pub record Origin : Type 0 where
  pub device_name : String
  pub device_type : String
  pub connector_name : String
  pub connector_id : String

-- `set.add`
unfoldable pub add_key : CacheKey → List CacheKey → List CacheKey
add_key key [] = key ∷ []
add_key key (k ∷ ks) =
    let rest = add_key key ks in if cache_key_eq.beq k key then k ∷ ks else k ∷ rest

-- `remove` of every key of a connector.
unfoldable pub without_keys : String → List CacheKey → List CacheKey
without_keys connector_id [] = []
without_keys connector_id (k ∷ ks) =
    let rest = without_keys connector_id ks in
    if string_eq.beq connector_id k.connector_id then rest else k ∷ rest

abbrev pub cache_key : DatapointKey → Origin → CacheKey
cache_key key o = record {
  datapoint_key = key;
  device_name = o.device_name;
  connector_id = o.connector_id;
}

module _ {V : Type 0} where
  abbrev pub new_record : ReportStrategyConfig → Origin → V → Bool → DataRecord V
  new_record config o value is_telemetry = record {
    value = value;
    device_type = o.device_type;
    connector_name = o.connector_name;
    report_strategy = config;
    last_report_time = none;
    is_telemetry = is_telemetry;
    ts = none;
  }

  -- `if is_telemetry: self._report_strategy_data_cache.update_ts(...)`
  abbrev pub stamp : Bool → CacheKey → ℕ → DataCache V → DataCache V
  stamp is_telemetry ck ts c = if is_telemetry then update_ts ck ts c else c

  -- A value that differs from the one in the cache.
  unfoldable pub changed :
      ReportStrategy → Bool → CacheKey → V → ℕ → DataCache V → DataCache V × Bool
  changed on_change is_telemetry ck value ts c =
      (stamp is_telemetry ck ts (update_key_value ck value c), true)
  changed on_report_period is_telemetry ck value ts c =
      (stamp is_telemetry ck ts (update_key_value ck value c), false)
  changed on_change_or_report_period is_telemetry ck value ts c =
      (stamp is_telemetry ck ts (update_key_value ck value c), true)
  changed on_received is_telemetry ck value ts c = (c, false)
  changed disabled is_telemetry ck value ts c = (c, false)

  -- A datapoint of which the cache has no record, at the time `now`.
  unfoldable pub first_seen :
      ReportStrategyConfig → Bool → CacheKey → DataRecord V → ℕ → ℕ → DataCache V → DataCache V
  first_seen config is_telemetry ck r ts now c =
      if has_report_period config.report_strategy
      then stamp is_telemetry ck ts (update_last_report_time ck now (put ck r c))
      else put ck r c

  -- The strategy of a connector, by its id and then by its name, or the main one.
  unfoldable pub connector_strategy : String → String → Service V → ReportStrategyConfig
  connector_strategy connector_name connector_id s =
      elim (lookup connector_id s.connectors_report_strategies) [
        | some config ↦ config
        | none ↦ elim (lookup connector_name s.connectors_report_strategies) [
          | some config ↦ config
          | none ↦ s.main_report_strategy
        ]
      ]

-- The strategy of the key is taken before the given one.
abbrev pub strategy_of : DatapointKey → ReportStrategyConfig → ReportStrategyConfig
strategy_of key config = elim key.report_strategy [ none ↦ config | some own ↦ own ]

-- Whether two values count as equal, which allows for a difference of floats, is `is_equal`.
module _ {V : Type 0} (is_equal : V → V → Bool) where
  -- `filter_datapoint_and_cache` behind the choice of the strategy.
  unfoldable pub filter_with :
      ReportStrategyConfig → DatapointKey → Origin → V → ℕ → ℕ → Bool → Service V → Service V × Bool
  unfolding changed first_seen
  filter_with config key o value ts now is_telemetry s =
      let ck = cache_key key o in
      let c = (get ck s.cache).0 in
      let r = new_record config o value is_telemetry in
      if is_on_received config.report_strategy
      then (elim (get ck s.cache).1 [
        | some _ ↦ (record s { cache = stamp is_telemetry ck ts c }, true)
        | none ↦ (record s { cache = stamp is_telemetry ck ts (put ck r c) }, true)
      ])
      else elim (get ck s.cache).1 [
        | some old ↦
            if is_equal old.value value
            then (record s { cache = c }, false)
            else (let (c', sent) = changed config.report_strategy is_telemetry ck value ts c in
                (record s { cache = c' }, sent))
        | none ↦ (
          record s {
            cache = first_seen config is_telemetry ck r ts now c;
            keys_to_report_periodically =
                if has_report_period config.report_strategy
                then add_key ck s.keys_to_report_periodically
                else s.keys_to_report_periodically;
          },
          true,
        )
      ]

  unfoldable pub filter_datapoint_and_cache :
      DatapointKey → Origin → V → ℕ → ℕ → Bool → ReportStrategyConfig → Service V → Service V × Bool
  unfolding filter_with
  filter_datapoint_and_cache key o value ts now is_telemetry config s =
      filter_with (strategy_of key config) key o value ts now is_telemetry s

  -- `for datapoint_key, value in …items()`: what is kept, a dict again.
  unfoldable pub filter_values :
      Values V → Origin → ℕ → ℕ → Bool → ReportStrategyConfig → Service V → Service V × Values V
  unfolding filter_datapoint_and_cache
  filter_values [] o ts now is_telemetry config s = (s, [])
  filter_values ((key, value) ∷ values) o ts now is_telemetry config s =
      let (s1, send) = filter_datapoint_and_cache key o value ts now is_telemetry config s in
      let (s2, kept) = filter_values values o ts now is_telemetry config s1 in
      (s2, if send then (key, value) ∷ kept else kept)

  unfoldable pub filter_telemetry :
      List (TelemetryEntry V)
      → Origin
      → ℕ
      → ReportStrategyConfig
      → Service V
      → Service V × List (TelemetryEntry V)
  unfolding filter_values
  filter_telemetry [] o now config s = (s, [])
  filter_telemetry (entry ∷ entries) o now config s =
      let (s1, kept) = filter_values entry.values o entry.ts now true config s in
      let (s2, rest) = filter_telemetry entries o now config s1 in
      (s2, if is_empty kept then rest else record { ts = entry.ts; values = kept } ∷ rest)

  -- `filter_data_and_send`, for ConvertedData: `wall` is the time of day, `now` the clock.
  unfoldable pub filter_data_and_send :
      ConvertedData V → String → String → ℕ → ℕ → Service V → Service V
  unfolding filter_telemetry filter_values connector_strategy
  filter_data_and_send received connector_name connector_id wall now s =
      let config = connector_strategy connector_name connector_id s in
      let o : Origin = record {
        device_name = received.device_name;
        device_type = received.device_type;
        connector_name = connector_name;
        connector_id = connector_id;
      } in
      let (s1, telemetry) = filter_telemetry received.telemetry o now config s in
      let (s2, attributes) = filter_values received.attributes o wall now false config s1 in
      let sent = add_to_attributes attributes (
        add_to_telemetry telemetry
          (init received.device_name received.device_type received.metadata)) in
      if is_empty sent.telemetry && is_empty sent.attributes then s2 else record s2 {
        send_data_queue = s2.send_data_queue ++ (connector_name, connector_id, sent) ∷ [];
      }

module _ {V : Type 0} where
  unfoldable pub register_connector_report_strategy :
      String → String → Option ReportStrategyConfig → Service V → Service V
  register_connector_report_strategy connector_name connector_id none s = s
  register_connector_report_strategy connector_name connector_id (some config) s = record s {
    connectors_report_strategies =
        insert connector_name config (insert connector_id config s.connectors_report_strategies);
  }

  unfoldable pub delete_all_records_for_connector_by_connector_id_and_connector_name :
      String → String → Service V → Service V
  delete_all_records_for_connector_by_connector_id_and_connector_name connector_id connector_name
        s =
      record s {
        cache = delete_all_records_for_connector_by_connector_id connector_id s.cache;
        keys_to_report_periodically = without_keys connector_id s.keys_to_report_periodically;
        connectors_report_strategies =
            remove connector_name (remove connector_id s.connectors_report_strategies);
      }

  unfoldable pub clear_cache : Service V → Service V
  clear_cache s = record s { cache = clear s.cache; keys_to_report_periodically = [] }
