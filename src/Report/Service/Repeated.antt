-- ===== src/Report/Service/Repeated.antt =====
-- The filter on a value that comes again.
use thingsboard_gateway.Prelude.{
  ℕ, ◌≡◌, ◌≢◌, ◌⊎◌, refl, ap, ◌∙◌, Bool, true, false, some, Option-cases, Bool-cases, inl, inr,
}
use thingsboard_gateway.Entities.Strategy.{
  ReportStrategy, on_received, on_report_period, on_change, on_change_or_report_period, disabled,
  ReportStrategyConfig, has_report_period,
}
use thingsboard_gateway.Entities.Datapoint.{DatapointKey}
use thingsboard_gateway.Report.Cache.{DataRecord, CacheKey, DataCache, is_on_received, put, get}
use thingsboard_gateway.Report.Cache.Lookup.{get_again}
use thingsboard_gateway.Report.Cache.Value.{
  Holds, put-Holds, update_key_value-Holds, update_ts-Holds, update_last_report_time-Holds,
}
use thingsboard_gateway.Report.Service.{
  Service, Origin, cache_key, new_record, stamp, changed, first_seen, filter_with, strategy_of,
  filter_datapoint_and_cache,
}

module _ {V : Type 0} where
  stamp-Holds :
      (is_telemetry : Bool) (ck : CacheKey) (ts : ℕ) (value : V) (c : DataCache V)
      → Holds ck value c
      → Holds ck value (stamp is_telemetry ck ts c)
  stamp-Holds true ck ts value c h = update_ts-Holds ck value ts c h
  stamp-Holds false ck ts value c h = h

  first_seen-Holds :
      (config : ReportStrategyConfig) (is_telemetry : Bool) (ck : CacheKey) (r : DataRecord V)
      (ts now : ℕ) (c : DataCache V)
      → Holds ck r.value (first_seen config is_telemetry ck r ts now c)
  unfolding first_seen
  first_seen-Holds config is_telemetry ck r ts now c =
      let h = put-Holds ck r.value r c refl in
      elim (Bool-cases (has_report_period config.report_strategy)) [
        | inl e ↦ rw e (
            stamp-Holds is_telemetry ck ts r.value _
              (update_last_report_time-Holds ck r.value now (put ck r c) h))
        | inr e ↦ rw e h
      ]

changed-disabled :
    {V : Type 0} (strategy : ReportStrategy) (is_telemetry : Bool) (ck : CacheKey) (value : V)
    (ts : ℕ) (c : DataCache V)
    → strategy ≡ disabled
    → (changed strategy is_telemetry ck value ts c).1 ≡ false
unfolding changed
changed-disabled strategy is_telemetry ck value ts c e = rw e refl

is_on_received-false :
    (strategy : ReportStrategy) → strategy ≢ on_received → is_on_received strategy ≡ false
is_on_received-false on_report_period h = refl
is_on_received-false on_change h = refl
is_on_received-false on_change_or_report_period h = refl
is_on_received-false on_received h = absurd (h refl)
is_on_received-false disabled h = refl

module _ {V : Type 0} (is_equal : V → V → Bool) where
  -- What has the filter refuse a value.
  record Refuses (strategy : ReportStrategy) (ck : CacheKey) (value : V) (c : DataCache V)
      : Type 0 where
    found : DataRecord V
    there : (get ck c).1 ≡ some found
    same : (strategy ≡ disabled) ⊎ (is_equal found.value value ≡ true)

  Holds-Refuses :
      (strategy : ReportStrategy) (ck : CacheKey) (value : V) (c : DataCache V)
      → is_equal value value ≡ true
      → Holds ck value c
      → Refuses strategy ck value c
  Holds-Refuses strategy ck value c e h = record {
    found = h.found;
    there = h.there;
    same = inr (ap (λ v. is_equal v value) h.same ∙ e);
  }

  changed-Refuses :
      (strategy : ReportStrategy) (is_telemetry : Bool) (ck : CacheKey) (value : V) (ts : ℕ)
      (c : DataCache V) (r : DataRecord V)
      → is_equal value value ≡ true
      → (get ck c).1 ≡ some r
      → is_on_received strategy ≡ false
      → Refuses strategy ck value (changed strategy is_telemetry ck value ts c).0
  unfolding changed
  changed-Refuses on_change is_telemetry ck value ts c r e there h =
      Holds-Refuses on_change ck value _ e
        (stamp-Holds is_telemetry ck ts value _ (update_key_value-Holds ck value r c there))
  changed-Refuses on_report_period is_telemetry ck value ts c r e there h =
      Holds-Refuses on_report_period ck value _ e
        (stamp-Holds is_telemetry ck ts value _ (update_key_value-Holds ck value r c there))
  changed-Refuses on_change_or_report_period is_telemetry ck value ts c r e there h =
      Holds-Refuses on_change_or_report_period ck value _ e
        (stamp-Holds is_telemetry ck ts value _ (update_key_value-Holds ck value r c there))
  changed-Refuses on_received is_telemetry ck value ts c r e there h = cc h
  changed-Refuses disabled is_telemetry ck value ts c r e there h = record {
    found = r;
    there = there;
    same = inl refl;
  }

  module _ (config : ReportStrategyConfig) (key : DatapointKey) (o : Origin) (value : V)
      (is_telemetry : Bool) where
    filter_with_refused :
        (ts now : ℕ) (s : Service V)
        → is_on_received config.report_strategy ≡ false
        → Refuses config.report_strategy (cache_key key o) value s.cache
        → (filter_with is_equal config key o value ts now is_telemetry s).1 ≡ false
    unfolding filter_with changed
    filter_with_refused ts now s h r =
        let c = (get (cache_key key o) s.cache).0 in
        elim (Bool-cases (is_equal r.found.value value)) [
          | inl same ↦ rw (filter_with, h, r.there, same) refl
          | inr differs ↦
              rw (filter_with, h, r.there, differs)
                (elim r.same [
                  | inl off ↦
                      changed-disabled config.report_strategy is_telemetry (cache_key key o) value
                        ts c off
                  | inr equal ↦ cc (equal, differs)
                ])
        ]

    filter_with-Refuses :
        (ts now : ℕ) (s : Service V)
        → is_equal value value ≡ true
        → is_on_received config.report_strategy ≡ false
        → Refuses config.report_strategy
            (cache_key key o)
            value
            (filter_with is_equal config key o value ts now is_telemetry s).0.cache
    unfolding filter_with
    filter_with-Refuses ts now s e h =
        let ck = cache_key key o in
        let c = (get ck s.cache).0 in
        elim (Option-cases (get ck s.cache).1) [
          | inl new ↦
              rw (filter_with, h, new)
                (Holds-Refuses config.report_strategy ck value _ e (
                  first_seen-Holds config is_telemetry ck (new_record config o value is_telemetry)
                    ts now c))
          | inr (old, known) ↦
              let there : (get ck c).1 ≡ some old = ap (λ x. x.1) (get_again ck s.cache) ∙ known in
              elim (Bool-cases (is_equal old.value value)) [
                | inl same ↦
                    rw (filter_with, h, known, same)
                      (record { found = old; there = there; same = inr same })
                | inr differs ↦
                    rw (filter_with, h, known, differs)
                      (changed-Refuses config.report_strategy is_telemetry ck value ts c old e there
                        h)
              ]
        ]

  -- Unless the strategy passes everything on, a value that comes again right behind itself is not
  -- sent the second time, whatever the cache held before.
  pub repeated_refused :
      (key : DatapointKey) (o : Origin) (value : V) (ts now ts' now' : ℕ) (is_telemetry : Bool)
      (config : ReportStrategyConfig) (s : Service V)
      → is_equal value value ≡ true
      → (strategy_of key config).report_strategy ≢ on_received
      → let s' = (filter_datapoint_and_cache is_equal key o value ts now is_telemetry config s).0 in
        (filter_datapoint_and_cache is_equal key o value ts' now' is_telemetry config s').1 ≡ false
  unfolding filter_datapoint_and_cache
  repeated_refused key o value ts now ts' now' is_telemetry config s e h =
      let own = strategy_of key config in
      let passes = is_on_received-false own.report_strategy h in
      let s' = (filter_with is_equal own key o value ts now is_telemetry s).0 in
      filter_with_refused own key o value is_telemetry ts' now' s' passes
        (filter_with-Refuses own key o value is_telemetry ts now s e passes)
