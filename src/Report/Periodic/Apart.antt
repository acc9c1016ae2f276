-- ===== src/Report/Periodic/Apart.antt =====
-- The time between two reports of a datapoint.
use thingsboard_gateway.Prelude.{
  ℕ, ◌+◌, ◌<◌, ◌≡◌, refl, ap, ◌∙◌, true, false, some, arith, Option-cases, Bool-cases, inl, inr,
}
use thingsboard_gateway.Prelude.Dict.{lookup, insert, lookup-insert}
use thingsboard_gateway.Report.Cache.{
  DataRecord, CacheKey, cache_key_eq, DataCache, should_be_reported_by_period, write, get,
}
use thingsboard_gateway.Report.Cache.Value.{get-Entry, live-get}
use thingsboard_gateway.Report.Periodic.{not_due, due, reported, mark_reported, report_due}

module _ {V : Type 0} where
  not_due_lem :
      (now now' wall p : ℕ) (r : DataRecord V)
      → r.report_strategy.report_period ≡ some p
      → now' + 50 < now + p
      → should_be_reported_by_period now' (reported now wall r) ≡ false
  unfolding should_be_reported_by_period
  not_due_lem now now' wall p r e early = ground (arith, e)

  -- A report is found again under the same key.
  marked-get :
      (now wall : ℕ) (ck : CacheKey) (c : DataCache V) (r : DataRecord V)
      → (get ck c).1 ≡ some r
      → (get ck (mark_reported ck (reported now wall r) (get ck c).0)).1
        ≡ some (reported now wall r)
  marked-get now wall ck c r e =
      let there = get-Entry ck c r e in
      let r' = reported now wall r in
      let same : cache_key_eq.beq ck ck ≡ true = (cache_key_eq.beq_iff ck ck).1 refl in
      let written : lookup ck (insert ck (r', there.expire) c.data_cache)
          ≡ some (r', there.expire) =
        rw (lookup-insert ck ck (r', there.expire) c.data_cache, same) refl in
      let got = live-get ck c r there.expire there.entry there.live in
      let marked : mark_reported ck r' c ≡ write ck r' there.expire c =
        rw (mark_reported, there.entry) refl in
      rw (got, marked)
        (ap (λ x. x.1)
          (live-get ck (write ck r' there.expire c) r' there.expire written there.live))

  record Reported (now wall : ℕ) (ck : CacheKey) (c : DataCache V) (r : DataRecord V) : Type 0 where
    found : (get ck c).1 ≡ some r
    after : (report_due now wall ck c).0 ≡ mark_reported ck (reported now wall r) (get ck c).0

  due-Reported :
      (now wall : ℕ) (ck : CacheKey) (c : DataCache V) (r : DataRecord V)
      → (report_due now wall ck c).1 ≡ due r
      → Reported now wall ck c r
  unfolding report_due
  due-Reported now wall ck c r h = elim (Option-cases (get ck c).1) [
    | inl none_there ↦ absurd (let e = rw (report_due, none_there) at h in cc e)
    | inr (d, there) ↦ elim (Bool-cases (should_be_reported_by_period now d)) [
      | inl is_due ↦
          let same : d ≡ r = (let e = rw (report_due, there, is_due) at h in cc e) in
          record {
            found = there ∙ ap some same;
            after =
                rw (report_due, there, is_due)
                  (ap (λ x. mark_reported ck (reported now wall x) (get ck c).0) same);
          }
      | inr not_yet ↦ absurd (let e = rw (report_due, there, not_yet) at h in cc e)
    ]
  ]

  later_lem :
      (now wall : ℕ) (ck : CacheKey) (c : DataCache V) (r : DataRecord V)
      → (get ck c).1 ≡ some r
      → should_be_reported_by_period now r ≡ false
      → (report_due now wall ck c).1 ≡ not_due
  unfolding report_due
  later_lem now wall ck c r there not_yet = rw (report_due, there, not_yet) refl

  -- Behind a report of a datapoint with a period, a look at it less than the period later, and the
  -- 50 milliseconds that are allowed for, reports nothing.
  pub reports_apart :
      (now wall now' wall' p : ℕ) (ck : CacheKey) (c : DataCache V) (r : DataRecord V)
      → (report_due now wall ck c).1 ≡ due r
      → r.report_strategy.report_period ≡ some p
      → now' + 50 < now + p
      → (report_due now' wall' ck (report_due now wall ck c).0).1 ≡ not_due
  reports_apart now wall now' wall' p ck c r first e early =
      let h = due-Reported now wall ck c r first in
      let found = ap (λ x. (get ck x).1) h.after ∙ marked-get now wall ck c r h.found in
      later_lem now' wall' ck (report_due now wall ck c).0 (reported now wall r) found
        (not_due_lem now now' wall p r e early)
