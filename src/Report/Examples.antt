-- ===== src/Report/Examples.antt =====
-- Runs of the report strategy service.
use thingsboard_gateway.Prelude.{
  ℕ, String, List, [], ◌∷◌, ◌≡◌, ◌≢◌, refl, ap, Bool, true, false, none, some, ◌==◌, arith,
}
use thingsboard_gateway.Prelude.Eq.{string_eq, string_discrete}
use thingsboard_gateway.Prelude.Dict.{Dict, lookup, insert, remove}
use thingsboard_gateway.Entities.Strategy.{
  on_report_period, on_change, on_received, ReportStrategyConfig,
}
use thingsboard_gateway.Entities.Datapoint.{DatapointKey, DatapointKey-discrete}
use thingsboard_gateway.Report.Cache.{
  should_be_reported_by_period, CacheKey, CacheKey-discrete, DataCache, DataRecord, cache_key_eq,
  put, get, update_last_report_time, update_key_value, update_ts, expire_ts, cleanup,
  without_connector, delete_all_records_for_connector_by_connector_id,
}
use thingsboard_gateway.Report.Service.{
  Service, Origin, add_key, cache_key, filter_with, changed, first_seen, filter_datapoint_and_cache,
  delete_all_records_for_connector_by_connector_id_and_connector_name,
}
use thingsboard_gateway.Report.Service.Repeated.{repeated_refused}
use thingsboard_gateway.Report.Service.Frame.{filter_others_kept}
use thingsboard_gateway.Report.Periodic.{
  report_due, not_due, member_key, remove_keys, report_keys, periodic_round,
}
use thingsboard_gateway.Report.Periodic.Forgotten.{expired_forgotten}
use thingsboard_gateway.Report.Periodic.Apart.{reports_apart}

program : Unit {0}
unfolding should_be_reported_by_period report_due lookup insert remove put get
    update_last_report_time update_key_value update_ts expire_ts cleanup without_connector
    delete_all_records_for_connector_by_connector_id filter_with changed first_seen
    filter_datapoint_and_cache delete_all_records_for_connector_by_connector_id_and_connector_name
    CacheKey-discrete DatapointKey-discrete string_discrete
program = tt

abbrev is_equal : ℕ → ℕ → Bool
is_equal a b = a == b

abbrev strategy : ReportStrategyConfig
strategy = record {
  report_period = none;
  ttl = 60;
  report_strategy = on_change;
  aggregation_function = none;
}

abbrev service : Service ℕ
service = record {
  main_report_strategy = strategy;
  cache = record {
    data_cache = [];
    cleanup_interval = 3600;
    previous_cleanup_time = 100;
    current_ts = 100;
  };
  connectors_report_strategies = [];
  keys_to_report_periodically = [];
  send_data_queue = [];
}

abbrev temperature : DatapointKey
temperature = record { key = "temperature"; report_strategy = none }

abbrev origin : Origin
origin = record {
  device_name = "sensor";
  device_type = "default";
  connector_name = "modbus";
  connector_id = "1";
}

abbrev report : ℕ → Service ℕ → Service ℕ × Bool
report value = filter_datapoint_and_cache is_equal temperature origin value 7 9 true strategy

-- A first value, the same, another.
on_change_reports :
    ((report 20 service).1 ≡ true)
    × ((report 20 (report 20 service).0).1 ≡ false)
    × ((report 21 (report 20 service).0).1 ≡ true)
unfolding program
on_change_reports = (refl, refl, refl)

on_change-on_received : strategy.report_strategy ≢ on_received
on_change-on_received = λ e. cc

repeated_refused_example : (report 20 (report 20 service).0).1 ≡ false
repeated_refused_example =
    repeated_refused is_equal temperature origin 20 7 9 7 9 true strategy service refl
      on_change-on_received

abbrev other : CacheKey
other = record { datapoint_key = temperature; device_name = "sensor"; connector_id = "2" }

other_differs : cache_key temperature origin ≢ other
other_differs = λ e.
    let same : false ≡ true = (string_eq.beq_iff "1" "2").1 (ap (λ k. k.connector_id) e) in cc same

filter_others_kept_example : (get other (report 20 service).0.cache).1 ≡ (get other service.cache).1
filter_others_kept_example =
    filter_others_kept is_equal temperature origin 20 7 9 true strategy service other other_differs

abbrev periodic : ReportStrategyConfig
periodic = record strategy { report_period = some 1000; report_strategy = on_report_period }

abbrev watched : DataCache ℕ
watched =
    (filter_datapoint_and_cache is_equal temperature origin 20 7 0 true periodic service).0.cache

abbrev watched_record : DataRecord ℕ
watched_record = record {
  value = 20;
  device_type = "default";
  connector_name = "modbus";
  report_strategy = periodic;
  last_report_time = some 0;
  is_telemetry = true;
  ts = some 7;
}

reports_apart_example :
    (report_due 1900 6
      (cache_key temperature origin)
      (report_due 1000 5 (cache_key temperature origin) watched).0).1
    ≡ not_due
unfolding program
reports_apart_example =
    reports_apart 1000 5 1900 6 1000 (cache_key temperature origin) watched watched_record refl refl
      (omega arith)

-- The temperature had expired when the last round looked at it, and was seen again since.
abbrev seen_again : Service ℕ
seen_again = (filter_datapoint_and_cache is_equal temperature origin 20 7 0 true periodic service).0

abbrev no_metadata : String → ℕ → Dict String ℕ
no_metadata connector_name ts = []

abbrev noted : List CacheKey
noted = cache_key temperature origin ∷ []

is_noted : member_key (cache_key temperature origin) noted ≡ true
unfolding program member_key
is_noted = refl

seen_known :
    (get (cache_key temperature origin) (periodic_round no_metadata 5 6 noted seen_again).0.cache).1
    ≡ some watched_record
unfolding program member_key periodic_round remove_keys report_keys add_key
seen_known = refl

expired_forgotten_example :
    member_key
      (cache_key temperature origin)
      (filter_datapoint_and_cache is_equal temperature origin 30 8 9 true periodic
        (periodic_round no_metadata 5 6 noted seen_again).0).0.keys_to_report_periodically
    ≡ false
expired_forgotten_example =
    expired_forgotten is_equal no_metadata 5 6 noted seen_again temperature origin 30 8 9 true
      periodic watched_record is_noted seen_known
