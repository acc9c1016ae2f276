-- ===== src/Storage/Sqlite/Table/Order.antt =====
-- The rows of a table are in the order of their ids, and what the statements do to them.
use thingsboard_gateway.Prelude.{
  ℕ, zero, suc, ◌+◌, ◌≤◌, ◌<◌, max, List, [], ◌∷◌, ◌++◌, ◌≡◌, refl, sym, ap, ◌∙◌, Bool, true, false,
  leb, le→leb, append_assoc, append-nil, take, drop, All, arith,
}
use thingsboard_gateway.Storage.Sqlite.Table.{
  Row, Table, insert_row, insert_rows, without, delete_le, messages_of,
}

module _ {M : Type 0} where
  -- Ids above a bound, each larger than the one before.
  unfoldable pub IsIncreasing : ℕ → List (Row M) → Type 0
  IsIncreasing low [] = Unit
  IsIncreasing low (r ∷ rows) = (low < r.id) × IsIncreasing r.id rows

  unfoldable pub max_id : List (Row M) → ℕ
  max_id [] = 0
  max_id (r ∷ rows) = max r.id (max_id rows)

  -- The ids are increasing and none is above the counter.
  pub record IsOrdered (t : Table M) : Type 0 where
    pub increasing : IsIncreasing 0 t.rows
    pub counted : All (λ r. r.id ≤ t.last_id) t.rows

  IsIncreasing-snoc :
      (low : ℕ) (rows : List (Row M)) (r : Row M) (top : ℕ)
      → low ≤ top
      → IsIncreasing low rows
      → All (λ d. d.id ≤ top) rows
      → top < r.id
      → IsIncreasing low (rows ++ r ∷ [])
  unfolding IsIncreasing
  IsIncreasing-snoc low [] r top le h a above = (omega arith, tt)
  IsIncreasing-snoc low (d ∷ rows) r top le h a above =
      (h.0, IsIncreasing-snoc d.id rows r top a.0 h.1 a.1 above)

  All-snoc_le :
      (rows : List (Row M)) (r : Row M) (top top' : ℕ)
      → All (λ d. d.id ≤ top) rows
      → top ≤ top'
      → r.id ≤ top'
      → All (λ d. d.id ≤ top') (rows ++ r ∷ [])
  All-snoc_le [] r top top' a le last = (last, tt)
  All-snoc_le (d ∷ rows) r top top' a le last =
      (omega (arith, a.0), All-snoc_le rows r top top' a.1 le last)

  pub insert_row-IsOrdered :
      (timestamp : ℕ) (m : M) (t : Table M) → IsOrdered t → IsOrdered (insert_row timestamp m t)
  unfolding insert_row
  insert_row-IsOrdered timestamp m t h = record {
    increasing =
        IsIncreasing-snoc 0 t.rows _ t.last_id (omega arith) h.increasing h.counted (omega arith);
    counted = All-snoc_le t.rows _ t.last_id (t.last_id + 1) h.counted (omega arith) (omega arith);
  }

  pub insert_rows-IsOrdered :
      (timestamp : ℕ) (ms : List M) (t : Table M)
      → IsOrdered t
      → IsOrdered (insert_rows timestamp ms t)
  unfolding insert_rows
  insert_rows-IsOrdered timestamp [] t h = h
  insert_rows-IsOrdered timestamp (m ∷ ms) t h =
      insert_rows-IsOrdered timestamp ms (insert_row timestamp m t)
        (insert_row-IsOrdered timestamp m t h)

  messages_of-append :
      (rows : List (Row M)) (r : Row M)
      → messages_of (rows ++ r ∷ []) ≡ messages_of rows ++ r.message ∷ []
  unfolding messages_of
  messages_of-append [] r = refl
  messages_of-append (d ∷ rows) r = ap (λ ms. d.message ∷ ms) (messages_of-append rows r)

  pub messages_of-take-drop :
      (n : ℕ) (rows : List (Row M))
      → messages_of (take n rows) ++ messages_of (drop n rows) ≡ messages_of rows
  unfolding messages_of
  messages_of-take-drop zero rows = refl
  messages_of-take-drop (suc n) [] = refl
  messages_of-take-drop (suc n) (r ∷ rows) =
      ap (λ ms. r.message ∷ ms) (messages_of-take-drop n rows)

  pub IsIncreasing-take :
      (low n : ℕ) (rows : List (Row M)) → IsIncreasing low rows → IsIncreasing low (take n rows)
  unfolding IsIncreasing
  IsIncreasing-take low zero rows h = tt
  IsIncreasing-take low (suc n) [] h = tt
  IsIncreasing-take low (suc n) (r ∷ rows) h = (h.0, IsIncreasing-take r.id n rows h.1)

  pub insert_rows-messages :
      (timestamp : ℕ) (ms : List M) (t : Table M)
      → messages_of (insert_rows timestamp ms t).rows ≡ messages_of t.rows ++ ms
  unfolding insert_rows insert_row
  insert_rows-messages timestamp [] t = sym (append-nil (messages_of t.rows))
  insert_rows-messages timestamp (m ∷ ms) t =
      insert_rows-messages timestamp ms (insert_row timestamp m t)
      ∙ ap (λ x. x ++ ms) (messages_of-append t.rows _)
      ∙ append_assoc (messages_of t.rows) (m ∷ []) ms

  pub without_none :
      (test : Row M → Bool) (rows : List (Row M))
      → All (λ r. test r ≡ false) rows
      → without test rows ≡ rows
  unfolding without
  without_none test [] h = refl
  without_none test (r ∷ rows) h = rw (h.0, without_none test rows h.1) refl

  -- Nothing is deleted below the ids.
  pub without-low :
      (low : ℕ) (rows : List (Row M)) (j : ℕ)
      → j ≤ low
      → IsIncreasing low rows
      → without (λ r. leb r.id j) rows ≡ rows
  unfolding without IsIncreasing
  without-low low [] j le h = refl
  without-low low (r ∷ rows) j le h =
      ground (arith, without-low r.id rows j (omega (arith, h.0)) h.1, h.0)

  pub without-take :
      (low n : ℕ) (rows : List (Row M))
      → IsIncreasing low rows
      → without (λ r. leb r.id (max low (max_id (take n rows)))) rows ≡ drop n rows
  unfolding without IsIncreasing max_id
  without-take low zero rows h = without-low low rows (max low 0) (omega arith) h
  without-take low (suc n) [] h = refl
  without-take low (suc n) (r ∷ rows) h =
      let top = max_id (take n rows) in
      let same : max low (max r.id top) ≡ max r.id top = omega (arith, h.0) in
      let out : leb r.id (max r.id top) ≡ true = le→leb _ _ (omega arith) in
      ap (λ j. without (λ d. leb d.id j) (r ∷ rows)) same ∙ rw out (without-take r.id n rows h.1)

  -- Deleting up to the last id of the first rows leaves the others.
  pub delete_le-take :
      (n : ℕ) (t : Table M)
      → IsOrdered t
      → (delete_le (max_id (take n t.rows)) t).rows ≡ drop n t.rows
  unfolding delete_le
  delete_le-take n t h =
      let top = max_id (take n t.rows) in
      let same : top ≡ max 0 top = omega arith in
      ap (λ j. without (λ r. leb r.id j) t.rows) same ∙ without-take 0 n t.rows h.increasing
