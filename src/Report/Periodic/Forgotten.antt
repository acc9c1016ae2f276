-- ===== src/Report/Periodic/Forgotten.antt =====
-- Keys that expired and were seen again before the next round.
use thingsboard_gateway.Prelude.{
  ℕ, String, List, [], ◌∷◌, ◌≡◌, refl, ap, ◌∙◌, Bool, true, false, some, is_empty, Bool-cases, inl,
  inr,
}
use thingsboard_gateway.Prelude.Dict.{Dict}
use thingsboard_gateway.Entities.Strategy.{ReportStrategyConfig}
use thingsboard_gateway.Entities.Datapoint.{DatapointKey}
use thingsboard_gateway.Report.Cache.{DataRecord, CacheKey, cache_key_eq, is_on_received, get}
use thingsboard_gateway.Report.Service.{
  Service, Origin, cache_key, strategy_of, filter_with, filter_datapoint_and_cache,
}
use thingsboard_gateway.Report.Periodic.{member_key, remove_keys, periodic_round}

removed_keys :
    (ck : CacheKey) (removed keys : List CacheKey)
    → member_key ck removed ≡ true
    → member_key ck (remove_keys removed keys) ≡ false
unfolding member_key remove_keys
removed_keys ck removed [] h = refl
removed_keys ck removed (k ∷ keys) h = elim (Bool-cases (member_key k removed)) [
  | inl e ↦ rw e (removed_keys ck removed keys h)
  | inr e ↦ elim (Bool-cases (cache_key_eq.beq k ck)) [
    | inl same ↦
        let k_e : k ≡ ck = (cache_key_eq.beq_iff k ck).0 same in
        absurd (cc (e, h, ap (λ (x : CacheKey). member_key x removed) k_e))
    | inr other ↦ rw (e, member_key, other) (removed_keys ck removed keys h)
  ]
]

empty-member_key :
    (ck : CacheKey) (keys : List CacheKey) → is_empty keys ≡ true → member_key ck keys ≡ false
unfolding member_key
empty-member_key ck [] h = refl
empty-member_key ck (k ∷ keys) h = cc

module _ {V : Type 0} where
  round_removed :
      (metadata : String → ℕ → Dict String V) (now wall : ℕ) (removal : List CacheKey)
      (s : Service V) (ck : CacheKey)
      → member_key ck removal ≡ true
      → member_key ck (periodic_round metadata now wall removal s).0.keys_to_report_periodically
        ≡ false
  unfolding periodic_round member_key
  round_removed metadata now wall removal s ck h =
      elim (Bool-cases (is_empty s.keys_to_report_periodically)) [
        | inl e ↦ rw (periodic_round, e) (empty-member_key ck s.keys_to_report_periodically e)
        | inr e ↦ rw (periodic_round, e) (removed_keys ck removal s.keys_to_report_periodically h)
      ]

  known-keys :
      (is_equal : V → V → Bool) (config : ReportStrategyConfig) (key : DatapointKey) (o : Origin)
      (value : V) (ts now : ℕ) (is_telemetry : Bool) (s : Service V) (r : DataRecord V)
      → (get (cache_key key o) s.cache).1 ≡ some r
      → (filter_with is_equal config key o value ts now is_telemetry
          s).0.keys_to_report_periodically
        ≡ s.keys_to_report_periodically
  unfolding filter_with
  known-keys is_equal config key o value ts now is_telemetry s r known =
      elim (Bool-cases (is_on_received config.report_strategy)) [
        | inl passes ↦ rw (filter_with, passes, known) refl
        | inr filters ↦ elim (Bool-cases (is_equal r.value value)) [
          | inl same ↦ rw (filter_with, filters, known, same) refl
          | inr differs ↦ rw (filter_with, filters, known, differs) refl
        ]
      ]

  -- A key that the last round noted as expired is not among the keys to report after the next
  -- round, even if the cache has a record of it again, and then a value of the datapoint,
  -- whatever it is, does not enter the key.
  pub expired_forgotten :
      (is_equal : V → V → Bool) (metadata : String → ℕ → Dict String V) (now wall : ℕ)
      (removal : List CacheKey) (s : Service V) (key : DatapointKey) (o : Origin) (value : V)
      (ts later : ℕ) (is_telemetry : Bool) (config : ReportStrategyConfig) (r : DataRecord V)
      → member_key (cache_key key o) removal ≡ true
      → (get (cache_key key o) (periodic_round metadata now wall removal s).0.cache).1 ≡ some r
      → member_key
          (cache_key key o)
          (filter_datapoint_and_cache is_equal key o value ts later is_telemetry config
            (periodic_round metadata now wall removal s).0).0.keys_to_report_periodically
        ≡ false
  unfolding filter_datapoint_and_cache
  expired_forgotten is_equal metadata now wall removal s key o value ts later is_telemetry config r
        noted known =
      ap (member_key (cache_key key o)) (
        known-keys is_equal (strategy_of key config) key o value ts later is_telemetry
          (periodic_round metadata now wall removal s).0 r known)
      ∙ round_removed metadata now wall removal s (cache_key key o) noted
