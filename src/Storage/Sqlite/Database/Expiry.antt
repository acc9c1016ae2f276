-- ===== src/Storage/Sqlite/Database/Expiry.antt =====
-- The deletion of expired messages in `process`.
use thingsboard_gateway.Prelude.{
  ℕ, ◌+◌, ◌*◌, ◌/◌, ◌<◌, List, [], ◌∷◌, ◌≡◌, refl, Bool, true, false, leb, All, Bool-cases, inl,
  inr, not, ◌&&◌, arith,
}
use thingsboard_gateway.Storage.Sqlite.Table.{Row, delete_older}
use thingsboard_gateway.Storage.Sqlite.Table.Order.{without_none}
use thingsboard_gateway.Storage.Sqlite.Database.{
  Settings, Database, delete_data_lte, checks_expiry, expire,
}

module _ {M : Type 0} where
  young_kept :
      (rows : List (Row M)) (seconds ttl : ℕ)
      → All (λ r. seconds < r.timestamp) rows
      → All (λ r. leb (r.timestamp + ttl) seconds ≡ false) rows
  young_kept [] seconds ttl h = tt
  young_kept (r ∷ rows) seconds ttl h = (ground (arith, h.0), young_kept rows seconds ttl h.1)

  -- The rows are stamped in milliseconds and compared with seconds: as long as every stamp is a
  -- larger number than the time in seconds, no message is deleted, however old it is.
  pub expire_nothing :
      (settings : Settings) (cur : ℕ) (stopped : Bool) (d : Database M)
      → All (λ r. cur / 1000 < r.timestamp) d.table.rows
      → (expire settings cur stopped d).table.rows ≡ d.table.rows
  unfolding expire delete_data_lte delete_older
  expire_nothing settings cur stopped d h =
      let days = settings.messages_ttl_in_days * 86400 in
      let same =
        without_none (λ r. leb (r.timestamp + days) (cur / 1000)) d.table.rows
          (young_kept d.table.rows (cur / 1000) days h) in
      elim (Bool-cases (checks_expiry settings cur d && not stopped && not d.closed)) [
        | inl e ↦ elim (Bool-cases d.closed) [
          | inl closed ↦ rw (e, closed) refl
          | inr is_open ↦ rw (e, is_open) same
        ]
        | inr e ↦ rw e refl
      ]

  -- After a look for expired messages the next one is made only when the time has doubled.
  expire_again :
      (settings : Settings) (cur cur' : ℕ) (d : Database M)
      → checks_expiry settings cur d ≡ true
      → d.closed ≡ false
      → cur' < cur + cur
      → checks_expiry settings cur' (expire settings cur false d) ≡ false
  unfolding expire delete_data_lte checks_expiry
  expire_again settings cur cur' d e is_open early = ground (arith, e, is_open)

  pub expire-closed :
      (settings : Settings) (cur : ℕ) (stopped : Bool) (d : Database M)
      → (expire settings cur stopped d).closed ≡ d.closed
  unfolding expire delete_data_lte
  expire-closed settings cur stopped d = ground arith
