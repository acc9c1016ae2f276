-- ===== src/Report/Cache/Lookup.antt =====
-- What the operations of the cache do to what it holds under a key.
use thingsboard_gateway.Prelude.{
  ℕ, ◌≤◌, ◌≡◌, ◌≢◌, refl, ◌∙◌, some, true, false, arith, inl, inr, Option-cases,
}
use thingsboard_gateway.Prelude.Eq.{string_eq}
use thingsboard_gateway.Prelude.Dict.{lookup, insert, lookup-insert, lookup-remove}
use thingsboard_gateway.Entities.Strategy.{ReportStrategyConfig}
use thingsboard_gateway.Report.Cache.{
  DataRecord, CacheKey, cache_key_eq, DataCache, is_expired, expire_ts, write, put, get,
  update_last_report_time, update_key_value, update_ts, cleanup,
}

module _ {V : Type 0} where
  fresh-not-expired :
      (strategy : ReportStrategyConfig) (c : DataCache V)
      → is_expired (expire_ts strategy c) c ≡ false
  unfolding expire_ts
  fresh-not-expired strategy c = ground arith

  -- A record that is written with a fresh expiry is found.
  pub get-write :
      (key : CacheKey) (r : DataRecord V) (strategy : ReportStrategyConfig) (c : DataCache V)
      → get key (write key r (expire_ts strategy c) c)
        ≡ (write key r (expire_ts strategy c) c, some r)
  unfolding get
  get-write key r strategy c =
      let same : cache_key_eq.beq key key ≡ true = (cache_key_eq.beq_iff key key).1 refl in
      let e : lookup key (insert key (r, expire_ts strategy c) c.data_cache)
          ≡ some (r, expire_ts strategy c) =
        rw (lookup-insert key key (r, expire_ts strategy c) c.data_cache, same) refl in
      rw (get, e, fresh-not-expired strategy c) refl

  -- What `get` leaves, `get` finds again.
  pub get_again : (key : CacheKey) (c : DataCache V) → get key (get key c).0 ≡ get key c
  unfolding get
  get_again key c =
      let same : cache_key_eq.beq key key ≡ true = (cache_key_eq.beq_iff key key).1 refl in
      ground (arith, lookup-remove key key c.data_cache)

  -- The record under a key and the clock are all that `get` looks at.
  pub get-value :
      (key : CacheKey) (c d : DataCache V)
      → lookup key c.data_cache ≡ lookup key d.data_cache
      → c.current_ts ≡ d.current_ts
      → (get key c).1 ≡ (get key d).1
  unfolding get
  get-value key c d e t = ground arith

  pub get-other :
      (key other : CacheKey) (c : DataCache V)
      → key ≢ other
      → (lookup other (get key c).0.data_cache ≡ lookup other c.data_cache)
        × ((get key c).0.current_ts ≡ c.current_ts)
  unfolding get
  get-other key other c h =
      ground (arith, lookup-remove key other c.data_cache, cache_key_eq.beq_iff key other)

  pub write-other :
      (key other : CacheKey) (r : DataRecord V) (expire : ℕ) (c : DataCache V)
      → key ≢ other
      → lookup other (write key r expire c).data_cache ≡ lookup other c.data_cache
  write-other key other r expire c h =
      ground
        (arith, lookup-insert key other (r, expire) c.data_cache, cache_key_eq.beq_iff key other)

  -- What an operation on one key keeps of the others.
  pub record Others (key : CacheKey) (c c' : DataCache V) : Type 0 where
    pub entry :
        (other : CacheKey) → key ≢ other → lookup other c'.data_cache ≡ lookup other c.data_cache
    pub clock : c'.current_ts ≡ c.current_ts

  pub Others-trans :
      (key : CacheKey) (a b c : DataCache V) → Others key a b → Others key b c → Others key a c
  Others-trans key a b c h g = record {
    entry = λ other ne. g.entry other ne ∙ h.entry other ne;
    clock = g.clock ∙ h.clock;
  }

  pub get-Others : (key : CacheKey) (c : DataCache V) → Others key c (get key c).0
  unfolding get
  get-Others key c = record {
    entry = λ other ne. (get-other key other c ne).0;
    clock = ground arith;
  }

  pub write-Others :
      (key : CacheKey) (r : DataRecord V) (expire : ℕ) (c : DataCache V)
      → Others key c (write key r expire c)
  write-Others key r expire c = record {
    entry = λ other ne. write-other key other r expire c ne;
    clock = refl;
  }

  pub put-Others :
      (key : CacheKey) (r : DataRecord V) (c : DataCache V) → Others key c (put key r c)
  unfolding put
  put-Others key r c = write-Others key r (expire_ts r.report_strategy c) c

  pub update_key_value-Others :
      (key : CacheKey) (value : V) (c : DataCache V) → Others key c (update_key_value key value c)
  unfolding update_key_value
  update_key_value-Others key value c =
      let c' = (get key c).0 in
      elim (Option-cases (get key c).1) [
        | inl e ↦ rw (update_key_value, e) (get-Others key c)
        | inr (r, e) ↦
            rw (update_key_value, e)
              (Others-trans key c c' _ (get-Others key c)
                (write-Others key (record r { value = value }) (expire_ts r.report_strategy c') c'))
      ]

  pub update_ts-Others :
      (key : CacheKey) (ts : ℕ) (c : DataCache V) → Others key c (update_ts key ts c)
  unfolding update_ts
  update_ts-Others key ts c =
      let c' = (get key c).0 in
      elim (Option-cases (get key c).1) [
        | inl e ↦ rw (update_ts, e) (get-Others key c)
        | inr (r, e) ↦
            rw (update_ts, e)
              (Others-trans key c c' _ (get-Others key c)
                (write-Others key (record r { ts = some ts }) (expire_ts r.report_strategy c') c'))
      ]

  pub update_last_report_time-Others :
      (key : CacheKey) (time : ℕ) (c : DataCache V)
      → Others key c (update_last_report_time key time c)
  unfolding update_last_report_time
  update_last_report_time-Others key time c =
      let c' = (get key c).0 in
      elim (Option-cases (lookup key c'.data_cache)) [
        | inl e ↦ rw (update_last_report_time, e) (get-Others key c)
        | inr (item, e) ↦
            rw (update_last_report_time, e)
              (Others-trans key c c' _ (get-Others key c)
                (write-Others key (record item.0 { last_report_time = some time }) item.1 c'))
      ]

  -- With a clock that does not run back the clean-up removes nothing, expired or not.
  cleanup_nothing :
      (now again : ℕ) (c : DataCache V)
      → c.previous_cleanup_time ≤ now
      → 1 ≤ c.cleanup_interval
      → (cleanup now again c).data_cache ≡ c.data_cache
  unfolding cleanup
  cleanup_nothing now again c forward pos = ground arith
