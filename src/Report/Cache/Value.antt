-- ===== src/Report/Cache/Value.antt =====
-- The value that the cache has under a key.
use thingsboard_gateway.Prelude.{
  ℕ, ◌≡◌, refl, ap, ◌∙◌, some, true, false, arith, Option-cases, Bool-cases, inl, inr,
}
use thingsboard_gateway.Prelude.Dict.{lookup, insert, lookup-insert}
use thingsboard_gateway.Report.Cache.{
  DataRecord, CacheKey, cache_key_eq, DataCache, is_expired, expire_ts, write, put, get,
  update_last_report_time, update_key_value, update_ts,
}
use thingsboard_gateway.Report.Cache.Lookup.{get-write, get_again}

module _ {V : Type 0} (key : CacheKey) where
  -- What a record was found under.
  pub record Entry (c : DataCache V) (r : DataRecord V) : Type 0 where
    pub expire : ℕ
    pub entry : lookup key c.data_cache ≡ some (r, expire)
    pub live : is_expired expire c ≡ false

  pub get-Entry : (c : DataCache V) (r : DataRecord V) → (get key c).1 ≡ some r → Entry c r
  unfolding get
  get-Entry c r e = elim (Option-cases (lookup key c.data_cache)) [
    | inl none_there ↦ cc (e, none_there)
    | inr (item, there) ↦ elim (Bool-cases (is_expired item.1 c)) [
      | inl dead ↦ ground (arith, there, dead)
      | inr live ↦ record { expire = item.1; entry = ground (arith, there, live, e); live = live }
    ]
  ]

  pub live-get :
      (c : DataCache V) (r : DataRecord V) (expire : ℕ)
      → lookup key c.data_cache ≡ some (r, expire)
      → is_expired expire c ≡ false
      → get key c ≡ (c, some r)
  unfolding get
  live-get c r expire e live = rw (get, e, live) refl

module _ {V : Type 0} (key : CacheKey) (value : V) where
  -- `get` returns a record of this value.
  pub record Holds (c : DataCache V) : Type 0 where
    pub found : DataRecord V
    pub there : (get key c).1 ≡ some found
    pub same : found.value ≡ value

  written-Holds :
      (r : DataRecord V) (c : DataCache V)
      → r.value ≡ value
      → Holds (write key r (expire_ts r.report_strategy c) c)
  written-Holds r c e = record {
    found = r;
    there = ap (λ x. x.1) (get-write key r r.report_strategy c);
    same = e;
  }

  pub put-Holds : (r : DataRecord V) (c : DataCache V) → r.value ≡ value → Holds (put key r c)
  unfolding put
  put-Holds r c e = written-Holds r c e

  pub update_key_value-Holds :
      (r : DataRecord V) (c : DataCache V)
      → (get key c).1 ≡ some r
      → Holds (update_key_value key value c)
  unfolding update_key_value
  update_key_value-Holds r c e =
      rw (update_key_value, e) (written-Holds (record r { value = value }) (get key c).0 refl)

  pub update_ts-Holds : (ts : ℕ) (c : DataCache V) → Holds c → Holds (update_ts key ts c)
  unfolding update_ts
  update_ts-Holds ts c h =
      rw (update_ts, h.there) (written-Holds (record h.found { ts = some ts }) (get key c).0 h.same)

  pub update_last_report_time-Holds :
      (time : ℕ) (c : DataCache V) → Holds c → Holds (update_last_report_time key time c)
  unfolding update_last_report_time
  update_last_report_time-Holds time c h =
      let there = get-Entry key c h.found h.there in
      let r = record h.found { last_report_time = some time } in
      let same : cache_key_eq.beq key key ≡ true = (cache_key_eq.beq_iff key key).1 refl in
      let e : lookup key (insert key (r, there.expire) c.data_cache) ≡ some (r, there.expire) =
        rw (lookup-insert key key (r, there.expire) c.data_cache, same) refl in
      let got = live-get key c h.found there.expire there.entry there.live in
      rw (update_last_report_time, got, there.entry, got)
        (record {
          found = r;
          there =
              ap (λ x. x.1) (live-get key (write key r there.expire c) r there.expire e there.live);
          same = h.same;
        })

  pub get-Holds : (c : DataCache V) → Holds c → Holds (get key c).0
  get-Holds c h = record {
    found = h.found;
    there = ap (λ x. x.1) (get_again key c) ∙ h.there;
    same = h.same;
  }
