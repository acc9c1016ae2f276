-- ===== src/Entities/Split/Chunks.antt =====
-- The chunks of split_large_entries: they are the entries in their order, and their sizes.
use thingsboard_gateway.Prelude.{
  ℕ, ◌+◌, String, List, [], ◌∷◌, ◌++◌, append-nil, append_assoc, ◌≡◌, refl, sym, ap, ◌∙◌, inl, inr,
  Option, none, true, false, ◌||◌, leb, is_empty, is_some, arith, Bool-cases,
}
use thingsboard_gateway.Prelude.Eq.{Eq}
use thingsboard_gateway.Prelude.Dict.{Dict, lookup, insert, IsDistinct}
use thingsboard_gateway.Entities.Datapoint.{DatapointKey, datapoint_eq, Values}
use thingsboard_gateway.Entities.Split.{
  Splitting, entry_size, limit, close, split_entry, split_all, split_large_entries,
}

module _ {K V : Type 0} ⦃e : Eq K⦄ where
  pub insert_new :
      (k : K) (v : V) (d : Dict K V) → lookup k d ≡ none → insert k v d ≡ d ++ (k, v) ∷ []
  unfolding lookup insert
  insert_new k v [] h = refl
  insert_new k v ((j, w) ∷ d) h = ground (arith, insert_new k v d)

  lookup-append_none :
      (j k : K) (v : V) (c d : Dict K V) → lookup j (c ++ (k, v) ∷ d) ≡ none → e.beq k j ≡ false
  unfolding lookup
  lookup-append_none j k v [] d h = ground arith
  lookup-append_none j k v ((i, w) ∷ c) d h = ground (arith, lookup-append_none j k v c d)

  -- The key behind a part of a dict is none of that part's.
  pub next_new : (k : K) (v : V) (c d : Dict K V) → IsDistinct (c ++ (k, v) ∷ d) → lookup k c ≡ none
  unfolding lookup IsDistinct
  next_new k v [] d h = refl
  next_new k v ((j, w) ∷ c) d (new, h) =
      let other = lookup-append_none j k v c d new in
      ground (arith, next_new k v c d h, e.beq_iff j k, e.beq_iff k j)

  pub rest-IsDistinct : (c d : Dict K V) → IsDistinct (c ++ d) → IsDistinct d
  unfolding IsDistinct
  rest-IsDistinct [] d h = h
  rest-IsDistinct (x ∷ c) d h = rest-IsDistinct c d h.1

empty_nil : {A : Type 0} (xs : List A) → is_empty xs ≡ true → xs ≡ []
empty_nil [] h = refl
empty_nil (x ∷ xs) h = cc

unfoldable pub concat : {V : Type 0} → List (Values V × ℕ) → Values V
concat [] = []
concat ((chunk, size) ∷ chunks) = chunk ++ concat chunks

concat-append :
    {V : Type 0} (cs : List (Values V × ℕ)) (c : Values V) (n : ℕ)
    → concat (cs ++ (c, n) ∷ []) ≡ concat cs ++ c
unfolding concat
concat-append [] c n = append-nil c
concat-append ((d, m) ∷ cs) c n =
    ap (λ x. d ++ x) (concat-append cs c n) ∙ sym (append_assoc d (concat cs) c)

module _ {V : Type 0} (data_size : String → V → ℕ) (first most : ℕ) (ts_size : Option ℕ) where
  content : Splitting V → Values V
  content s = concat s.split_chunks ++ s.current_chunk

  close-concat :
      (s : Splitting V)
      → concat (close data_size first most ts_size s).split_chunks
        ≡ concat s.split_chunks ++ s.current_chunk
  unfolding close
  close-concat s = elim (Bool-cases (is_empty s.current_chunk)) [
    | inl e ↦
        rw (close, e)
          (sym (append-nil (concat s.split_chunks))
            ∙ ap (λ c. concat s.split_chunks ++ c) (sym (empty_nil s.current_chunk e)))
    | inr e ↦ rw (close, e) (concat-append s.split_chunks s.current_chunk s.current_size)
  ]

  split_entry-content :
      (key : DatapointKey) (value : V) (s : Splitting V)
      → lookup key s.current_chunk ≡ none
      → content (split_entry data_size first most ts_size key value s)
        ≡ content s ++ (key, value) ∷ []
  unfolding split_entry content
  split_entry-content key value s new =
      let size = entry_size data_size first most ts_size key value s in
      let s1 = record s { ts_check = s.ts_check || is_some ts_size } in
      elim (Bool-cases (leb (limit data_size first most ts_size s1) (s1.current_size + size))) [
        | inl e ↦ rw e (ap (λ c. c ++ (key, value) ∷ []) (close-concat s1))
        | inr e ↦
            rw (e, insert_new key value s.current_chunk new)
              (sym (append_assoc (concat s.split_chunks) s.current_chunk ((key, value) ∷ [])))
      ]

  split_entry-IsDistinct :
      (key : DatapointKey) (value : V) (s : Splitting V) (entries : Values V)
      → IsDistinct (s.current_chunk ++ (key, value) ∷ entries)
      → IsDistinct ((split_entry data_size first most ts_size key value s).current_chunk ++ entries)
  unfolding split_entry
  split_entry-IsDistinct key value s entries h =
      let size = entry_size data_size first most ts_size key value s in
      let s1 = record s { ts_check = s.ts_check || is_some ts_size } in
      elim (Bool-cases (leb (limit data_size first most ts_size s1) (s1.current_size + size))) [
        | inl e ↦ rw e (rest-IsDistinct s.current_chunk ((key, value) ∷ entries) h)
        | inr e ↦
            rw
              (
                e,
                insert_new key value s.current_chunk (next_new key value s.current_chunk entries h),
                append_assoc s.current_chunk ((key, value) ∷ []) entries,
              )
              h
      ]

  split_all-content :
      (entries : Values V) (s : Splitting V)
      → IsDistinct (s.current_chunk ++ entries)
      → content (split_all data_size first most ts_size entries s) ≡ content s ++ entries
  unfolding split_all
  split_all-content [] s h = sym (append-nil (content s))
  split_all-content ((key, value) ∷ entries) s h =
      let new = next_new key value s.current_chunk entries h in
      split_all-content entries (split_entry data_size first most ts_size key value s)
        (split_entry-IsDistinct key value s entries h)
      ∙ ap (λ c. c ++ entries) (split_entry-content key value s new)
      ∙ append_assoc (content s) ((key, value) ∷ []) entries

  -- The chunks of a dict are its entries, each once and in their order.
  pub split_large_entries-concat :
      (entries : Values V)
      → IsDistinct entries
      → concat (split_large_entries data_size first most ts_size entries) ≡ entries
  unfolding split_large_entries content concat
  split_large_entries-concat entries h =
      let start : Splitting V = record {
        split_chunks = [];
        current_chunk = [];
        current_size = 0;
        ts_check = false;
      } in
      close-concat (split_all data_size first most ts_size entries start)
      ∙ split_all-content entries start h
