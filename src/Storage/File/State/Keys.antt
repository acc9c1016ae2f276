-- ===== src/Storage/File/State/Keys.antt =====
-- Dicts in the order of their keys.
use thingsboard_gateway.Prelude.{
  ℕ, suc, ◌+◌, ◌<◌, ◌≤◌, List, [], ◌∷◌, ◌≡◌, refl, ap, Bool, true, false, some, ◌==◌, length, All,
  ◌||◌, if◌then◌else◌, arith, Bool-cases, inl, inr,
}
use thingsboard_gateway.Prelude.Eq.{nat_eq}
use thingsboard_gateway.Prelude.Dict.{Dict, lookup}
use thingsboard_gateway.Storage.File.State.{insert_sorted, keys}

-- Numbers in increasing order.
abbrev pub IsSorted : List ℕ → Type 0
IsSorted [] = Unit
IsSorted (k ∷ ks) = All (λ j. k < j) ks × IsSorted ks

abbrev pub member : ℕ → List ℕ → Bool
member k [] = false
member k (j ∷ ks) = j == k || member k ks

lt_of_member : (k j : ℕ) (ks : List ℕ) → All (λ i. j < i) ks → member k ks ≡ true → j < k
lt_of_member k j [] a h = cc
lt_of_member k j (i ∷ ks) a h = elim (Bool-cases (i == k)) [
  | inl e ↦ ground (arith, a.0)
  | inr e ↦ lt_of_member k j ks a.1 (ground arith)
]

module _ {V : Type 0} where
  -- Writing a key that is there leaves the keys as they are.
  pub keys-insert_sorted :
      (k : ℕ) (v : V) (d : Dict ℕ V)
      → IsSorted (keys d)
      → member k (keys d) ≡ true
      → keys (insert_sorted k v d) ≡ keys d
  unfolding keys insert_sorted
  keys-insert_sorted k v [] s h = cc
  keys-insert_sorted k v ((j, w) ∷ d) s h = elim (Bool-cases (k == j)) [
    | inl e ↦ rw e (ground arith)
    | inr e ↦
        let later : member k (keys d) ≡ true = ground arith in
        ground (arith, lt_of_member k j (keys d) s.0 later, keys-insert_sorted k v d s.1 later)
  ]

module _ {V : Type 0} where
  pub lookup-insert_sorted :
      (k j : ℕ) (v : V) (d : Dict ℕ V)
      → lookup j (insert_sorted k v d) ≡ (if k == j then some v else lookup j d)
  unfolding lookup insert_sorted
  lookup-insert_sorted k j v [] = refl
  lookup-insert_sorted k j v ((i, w) ∷ d) = ground (arith, lookup-insert_sorted k j v d)

  pub length-insert_sorted :
      (k : ℕ) (v : V) (d : Dict ℕ V) → length (insert_sorted k v d) ≤ length d + 1
  unfolding insert_sorted
  length-insert_sorted k v [] = omega arith
  length-insert_sorted k v ((i, w) ∷ d) = ground (arith, length-insert_sorted k v d)

pub length-keys : {V : Type 0} (d : Dict ℕ V) → length (keys d) ≡ length d
unfolding keys
length-keys [] = refl
length-keys ((k, v) ∷ d) = ap suc (length-keys d)
