-- ===== src/Report/Cache.antt =====
-- report_strategy_data_cache.py. Times are natural numbers of a clock's unit; the lock is held
-- around each access to the dict.
pub mod Lookup
pub mod Value
use Prim.Native.String.{String}
use thingsboard_gateway.Prelude.{
  ℕ, ◌+◌, List, [], ◌∷◌, Option, none, some, Bool, true, false, not, ◌&&◌, ◌==◌, ltb, leb,
  if◌then◌else◌,
}
use thingsboard_gateway.Prelude.Eq.{Eq, of_discrete, string_eq, string_discrete}
use thingsboard_gateway.Prelude.Dict.{Dict, lookup, insert, remove}
use thingsboard_gateway.Entities.Strategy.{
  ReportStrategy, on_received, on_report_period, on_change, on_change_or_report_period, disabled,
  ReportStrategyConfig, has_report_period,
}
use thingsboard_gateway.Entities.Datapoint.{DatapointKey, DatapointKey-discrete}

-- ReportStrategyDataRecord
pub record DataRecord (V : Type 0) : Type 0 where
  pub value : V
  pub device_type : String
  pub connector_name : String
  pub report_strategy : ReportStrategyConfig
  pub last_report_time : Option ℕ
  pub is_telemetry : Bool
  pub ts : Option ℕ

-- `(datapoint_key, device_name, connector_id)`
pub record CacheKey : Type 0 where
  pub datapoint_key : DatapointKey
  pub device_name : String
  pub connector_id : String

unfoldable pub CacheKey-discrete : Discrete CacheKey
CacheKey-discrete = hlevel (DatapointKey-discrete, string_discrete)

instance abbrev pub cache_key_eq : Eq CacheKey
cache_key_eq = of_discrete CacheKey-discrete

pub record DataCache (V : Type 0) : Type 0 where
  pub data_cache : Dict CacheKey (DataRecord V × ℕ)
  pub cleanup_interval : ℕ
  pub previous_cleanup_time : ℕ
  pub current_ts : ℕ

abbrev pub is_on_received : ReportStrategy → Bool
is_on_received on_received = true
is_on_received on_report_period = false
is_on_received on_change = false
is_on_received on_change_or_report_period = false
is_on_received disabled = false

module _ {V : Type 0} where
  -- A configuration with a periodic strategy has a period: see IsValidConfig.
  unfoldable pub should_be_reported_by_period : ℕ → DataRecord V → Bool
  should_be_reported_by_period now r =
      has_report_period r.report_strategy.report_strategy && (elim r.last_report_time [
        | none ↦ true
        | some last ↦ elim r.report_strategy.report_period [
          | none ↦ false
          | some p ↦ leb (last + p) (now + 50)
        ]
      ])

  unfoldable pub expire_ts : ReportStrategyConfig → DataCache V → ℕ
  expire_ts strategy c = if strategy.ttl == 0 then 0 else c.current_ts + strategy.ttl

  -- `0 < expire_ts < self.__data_cache_current_ts`
  abbrev pub is_expired : ℕ → DataCache V → Bool
  is_expired expire c = ltb 0 expire && ltb expire c.current_ts

  abbrev pub write : CacheKey → DataRecord V → ℕ → DataCache V → DataCache V
  write key r expire c = record c { data_cache = insert key (r, expire) c.data_cache }

  unfoldable pub put : CacheKey → DataRecord V → DataCache V → DataCache V
  unfolding expire_ts
  put key r c = write key r (expire_ts r.report_strategy c) c

  unfoldable pub get : CacheKey → DataCache V → DataCache V × Option (DataRecord V)
  get key c = elim (lookup key c.data_cache) [
    | none ↦ (c, none)
    | some (r, expire) ↦
        if is_expired expire c
        then (record c { data_cache = remove key c.data_cache }, none)
        else (c, some r)
  ]

  -- The record is changed in its place.
  unfoldable pub update_last_report_time : CacheKey → ℕ → DataCache V → DataCache V
  unfolding get
  update_last_report_time key time c = elim (lookup key (get key c).0.data_cache) [
    | none ↦ (get key c).0
    | some (r, expire) ↦ write key (record r { last_report_time = some time }) expire (get key c).0
  ]

  unfoldable pub update_key_value : CacheKey → V → DataCache V → DataCache V
  unfolding get expire_ts
  update_key_value key value c = elim (get key c).1 [
    | none ↦ (get key c).0
    | some r ↦
        write key (record r { value = value }) (expire_ts r.report_strategy (get key c).0)
          (get key c).0
  ]

  unfoldable pub update_ts : CacheKey → ℕ → DataCache V → DataCache V
  unfolding get expire_ts
  update_ts key ts c = elim (get key c).1 [
    | none ↦ (get key c).0
    | some r ↦
        write key (record r { ts = some ts }) (expire_ts r.report_strategy (get key c).0)
          (get key c).0
  ]

  unfoldable pub without_connector :
      String → Dict CacheKey (DataRecord V × ℕ) → Dict CacheKey (DataRecord V × ℕ)
  without_connector connector_id [] = []
  without_connector connector_id ((key, item) ∷ d) =
      let rest = without_connector connector_id d in
      if string_eq.beq key.connector_id connector_id then rest else (key, item) ∷ rest

  unfoldable pub delete_all_records_for_connector_by_connector_id :
      String → DataCache V → DataCache V
  unfolding without_connector
  delete_all_records_for_connector_by_connector_id connector_id c = record c {
    data_cache = without_connector connector_id c.data_cache;
  }

  unfoldable pub clear : DataCache V → DataCache V
  clear c = record c { data_cache = [] }

  unfoldable pub without_expired :
      DataCache V → Dict CacheKey (DataRecord V × ℕ) → Dict CacheKey (DataRecord V × ℕ)
  without_expired c [] = []
  without_expired c ((key, item) ∷ d) =
      let rest = without_expired c d in
      if not (is_on_received item.0.report_strategy.report_strategy) && is_expired item.1 c
      then rest
      else (key, item) ∷ rest

  -- A round of `_cleanup_loop` at the time `now`, and `again` at its second look at the clock. The
  -- difference of the times may be negative.
  unfoldable pub cleanup : ℕ → ℕ → DataCache V → DataCache V
  unfolding without_expired
  cleanup now again c =
      if leb (now + c.cleanup_interval) c.previous_cleanup_time
      then record c {
        current_ts = now;
        previous_cleanup_time = again;
        data_cache = without_expired (record c { current_ts = now }) c.data_cache;
      }
      else record c { current_ts = now }
