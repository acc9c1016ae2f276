-- ===== src/Report/Service/Frame.antt =====
-- What the filter leaves alone, and what the end of a connector leaves.
use thingsboard_gateway.Prelude.{
  ℕ, String, [], ◌∷◌, ◌≡◌, ◌≢◌, refl, Bool, true, false, none, if◌then◌else◌, arith, Option-cases,
  Bool-cases, inl, inr,
}
use thingsboard_gateway.Prelude.Eq.{string_eq}
use thingsboard_gateway.Prelude.Dict.{Dict, lookup}
use thingsboard_gateway.Entities.Strategy.{
  ReportStrategy, on_received, on_report_period, on_change, on_change_or_report_period, disabled,
  ReportStrategyConfig, has_report_period,
}
use thingsboard_gateway.Entities.Datapoint.{DatapointKey}
use thingsboard_gateway.Report.Cache.{
  DataRecord, CacheKey, cache_key_eq, DataCache, is_on_received, put, get, without_connector,
  delete_all_records_for_connector_by_connector_id,
}
use thingsboard_gateway.Report.Cache.Lookup.{
  Others, Others-trans, get-Others, put-Others, update_key_value-Others, update_ts-Others,
  update_last_report_time-Others, get-value,
}
use thingsboard_gateway.Report.Service.{
  Service, Origin, cache_key, new_record, stamp, changed, first_seen, filter_with, strategy_of,
  filter_datapoint_and_cache, delete_all_records_for_connector_by_connector_id_and_connector_name,
}

module _ {V : Type 0} where
  stamp-Others :
      (is_telemetry : Bool) (ck : CacheKey) (ts : ℕ) (c : DataCache V)
      → Others ck c (stamp is_telemetry ck ts c)
  stamp-Others true ck ts c = update_ts-Others ck ts c
  stamp-Others false ck ts c = record { entry = λ other ne. refl; clock = refl }

  stamped-Others :
      (is_telemetry : Bool) (ck : CacheKey) (ts : ℕ) (a c : DataCache V)
      → Others ck a c
      → Others ck a (stamp is_telemetry ck ts c)
  stamped-Others is_telemetry ck ts a c h =
      Others-trans ck a c _ h (stamp-Others is_telemetry ck ts c)

  first_seen-Others :
      (config : ReportStrategyConfig) (is_telemetry : Bool) (ck : CacheKey) (r : DataRecord V)
      (ts now : ℕ) (c : DataCache V)
      → Others ck c (first_seen config is_telemetry ck r ts now c)
  unfolding first_seen
  first_seen-Others config is_telemetry ck r ts now c =
      let p = put-Others ck r c in
      elim (Bool-cases (has_report_period config.report_strategy)) [
        | inl e ↦ rw e (
            stamped-Others is_telemetry ck ts c _ (
              Others-trans ck c (put ck r c) _ p
                (update_last_report_time-Others ck now (put ck r c))))
        | inr e ↦ rw e p
      ]

  changed-Others :
      (strategy : ReportStrategy) (is_telemetry : Bool) (ck : CacheKey) (value : V) (ts : ℕ)
      (c : DataCache V)
      → Others ck c (changed strategy is_telemetry ck value ts c).0
  unfolding changed
  changed-Others on_change is_telemetry ck value ts c =
      stamped-Others is_telemetry ck ts c _ (update_key_value-Others ck value c)
  changed-Others on_report_period is_telemetry ck value ts c =
      stamped-Others is_telemetry ck ts c _ (update_key_value-Others ck value c)
  changed-Others on_change_or_report_period is_telemetry ck value ts c =
      stamped-Others is_telemetry ck ts c _ (update_key_value-Others ck value c)
  changed-Others on_received is_telemetry ck value ts c = record {
    entry = λ other ne. refl;
    clock = refl;
  }
  changed-Others disabled is_telemetry ck value ts c = record {
    entry = λ other ne. refl;
    clock = refl;
  }

module _ {V : Type 0} (is_equal : V → V → Bool) where
  filter_with-Others :
      (config : ReportStrategyConfig) (key : DatapointKey) (o : Origin) (value : V) (ts now : ℕ)
      (is_telemetry : Bool) (s : Service V)
      → Others
          (cache_key key o)
          s.cache
          (filter_with is_equal config key o value ts now is_telemetry s).0.cache
  unfolding filter_with
  filter_with-Others config key o value ts now is_telemetry s =
      let ck = cache_key key o in
      let a = s.cache in
      let c = (get ck a).0 in
      let r = new_record config o value is_telemetry in
      let g = get-Others ck a in
      elim (Bool-cases (is_on_received config.report_strategy)) [
        | inl passes ↦ elim (Option-cases (get ck a).1) [
          | inl new ↦
              rw (filter_with, passes, new)
                (stamped-Others is_telemetry ck ts a _
                  (Others-trans ck a c _ g (put-Others ck r c)))
          | inr (old, known) ↦
              rw (filter_with, passes, known) (stamped-Others is_telemetry ck ts a c g)
        ]
        | inr filters ↦ elim (Option-cases (get ck a).1) [
          | inl new ↦
              rw (filter_with, filters, new)
                (Others-trans ck a c _ g (first_seen-Others config is_telemetry ck r ts now c))
          | inr (old, known) ↦ elim (Bool-cases (is_equal old.value value)) [
            | inl same ↦ rw (filter_with, filters, known, same) g
            | inr differs ↦
                rw (filter_with, filters, known, differs)
                  (Others-trans ck a c _ g
                    (changed-Others config.report_strategy is_telemetry ck value ts c))
          ]
        ]
      ]

  -- Filtering a datapoint leaves what the cache returns for every other key as it was.
  pub filter_others_kept :
      (key : DatapointKey) (o : Origin) (value : V) (ts now : ℕ) (is_telemetry : Bool)
      (config : ReportStrategyConfig) (s : Service V) (other : CacheKey)
      → cache_key key o ≢ other
      → (get other
          (filter_datapoint_and_cache is_equal key o value ts now is_telemetry config s).0.cache).1
        ≡ (get other s.cache).1
  unfolding filter_datapoint_and_cache
  filter_others_kept key o value ts now is_telemetry config s other ne =
      let h = filter_with-Others (strategy_of key config) key o value ts now is_telemetry s in
      get-value other _ s.cache (h.entry other ne) h.clock

module _ {V : Type 0} where
  lookup-without_connector :
      (connector_id : String) (key : CacheKey) (d : Dict CacheKey (DataRecord V × ℕ))
      → lookup key (without_connector connector_id d)
        ≡ (if string_eq.beq key.connector_id connector_id then none else lookup key d)
  unfolding lookup without_connector
  lookup-without_connector connector_id key [] = ground arith
  lookup-without_connector connector_id key ((k, item) ∷ d) =
      ground (arith, cache_key_eq.beq_iff k key, lookup-without_connector connector_id key d)

  -- After a connector's records are deleted the cache returns none of its keys, and returns for
  -- the keys of other connectors what it did before.
  connector_deleted :
      (connector_id connector_name : String) (s : Service V) (key : CacheKey)
      → let s' =
          delete_all_records_for_connector_by_connector_id_and_connector_name connector_id
            connector_name s in
        (get key s'.cache).1
        ≡ (if string_eq.beq key.connector_id connector_id then none else (get key s.cache).1)
  unfolding delete_all_records_for_connector_by_connector_id_and_connector_name
      delete_all_records_for_connector_by_connector_id get
  connector_deleted connector_id connector_name s key =
      ground (arith, lookup-without_connector connector_id key s.cache.data_cache)
