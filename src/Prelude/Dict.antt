-- ===== src/Prelude/Dict.antt =====
-- A Python dict as an association list in the order of insertion: a key that is there keeps its
-- place when it is written again.
use mathlib.Core.Path.{◌≡◌, refl, ◌∙◌}
use mathlib.Core.Logic.{inl, inr}
use mathlib.Core.Bool.{Bool, true, false}
use thingsboard_gateway.Prelude.Lists.{All}
use mathlib.Core.Option.{Option, none, some}
use mathlib.Core.List.{List, [], ◌∷◌, ◌++◌}
use native.Mathlib.Omega.{arith}
use thingsboard_gateway.Prelude.Eq.{Eq}
use thingsboard_gateway.Prelude.Tests.{if◌then◌else◌, is_some, Bool-cases}

abbrev pub Dict : Type 0 → Type 0 → Type 0
Dict K V = List (K × V)

beq_refl : {K : Type 0} → ⦃e : Eq K⦄ → (k : K) → e.beq k k ≡ true
beq_refl ⦃e⦄ k = (e.beq_iff k k).1 refl

module _ {K V : Type 0} ⦃e : Eq K⦄ where
  unfoldable pub lookup : K → Dict K V → Option V
  lookup k [] = none
  lookup k ((j, v) ∷ d) = if e.beq j k then some v else lookup k d

  unfoldable pub insert : K → V → Dict K V → Dict K V
  insert k v [] = (k, v) ∷ []
  insert k v ((j, w) ∷ d) = if e.beq j k then (j, v) ∷ d else (j, w) ∷ insert k v d

  -- `d.pop(k, None)`
  unfoldable pub remove : K → Dict K V → Dict K V
  remove k [] = []
  remove k ((j, w) ∷ d) = let rest = remove k d in if e.beq j k then rest else (j, w) ∷ rest

  abbrev pub has : K → Dict K V → Bool
  has k d = is_some (lookup k d)

  -- `d.update(entries)`
  unfoldable pub update : Dict K V → Dict K V → Dict K V
  unfolding insert
  update d [] = d
  update d ((k, v) ∷ entries) = update (insert k v d) entries

  -- A dict as Python has it: no key twice.
  unfoldable pub IsDistinct : Dict K V → Type 0
  unfolding lookup
  IsDistinct [] = Unit
  IsDistinct ((k, v) ∷ d) = (lookup k d ≡ none) × IsDistinct d

  pub lookup-insert :
      (k j : K) (v : V) (d : Dict K V)
      → lookup j (insert k v d) ≡ (if e.beq k j then some v else lookup j d)
  unfolding lookup insert
  lookup-insert k j v [] = refl
  lookup-insert k j v ((i, w) ∷ d) =
      ground (arith, e.beq_iff k j, e.beq_iff i k, e.beq_iff i j, lookup-insert k j v d)

  pub lookup-remove :
      (k j : K) (d : Dict K V) → lookup j (remove k d) ≡ (if e.beq k j then none else lookup j d)
  unfolding lookup remove
  lookup-remove k j [] = ground arith
  lookup-remove k j ((i, w) ∷ d) =
      ground (arith, e.beq_iff k j, e.beq_iff i k, e.beq_iff i j, lookup-remove k j d)

  pub lookup-insert_same : (k : K) (v : V) (d : Dict K V) → lookup k (insert k v d) ≡ some v
  lookup-insert_same k v d = lookup-insert k k v d ∙ rw (beq_refl k) refl

  pub lookup-insert_other :
      (k j : K) (v : V) (d : Dict K V) → e.beq k j ≡ false → lookup j (insert k v d) ≡ lookup j d
  lookup-insert_other k j v d h = lookup-insert k j v d ∙ rw h refl

  pub lookup-remove_same : (k : K) (d : Dict K V) → lookup k (remove k d) ≡ none
  lookup-remove_same k d = lookup-remove k k d ∙ rw (beq_refl k) refl

  -- Every key of the first part of a dict is in it.
  pub keys_in :
      (d d' : Dict K V)
      → ((k : K) → has k d ≡ true → has k d' ≡ true)
      → All (λ x. has x.0 d' ≡ true) d
  unfolding lookup
  keys_in [] d' h = tt
  keys_in ((k, v) ∷ d) d' h = (
    h k (rw (beq_refl k) refl),
    keys_in d d' (λ j hj.
        h j (elim (Bool-cases (e.beq k j)) [ inl same ↦ rw same refl | inr other ↦ rw other hj ])),
  )

  pub insert-IsDistinct : (k : K) (v : V) (d : Dict K V) → IsDistinct d → IsDistinct (insert k v d)
  unfolding insert IsDistinct
  insert-IsDistinct k v [] h = (refl, tt)
  insert-IsDistinct k v ((j, w) ∷ d) h = elim (Bool-cases (e.beq j k)) [
    | inl same ↦ rw same (h.0, h.1)
    | inr other ↦
        let apart : e.beq k j ≡ false = ground (arith, e.beq_iff j k, e.beq_iff k j, other) in
        rw other (lookup-insert k j v d ∙ rw apart h.0, insert-IsDistinct k v d h.1)
  ]

  lookup-front : (k : K) (c d : Dict K V) → lookup k (c ++ d) ≡ none → lookup k c ≡ none
  unfolding lookup
  lookup-front k [] d h = refl
  lookup-front k ((j, v) ∷ c) d h = ground (arith, lookup-front k c d)

  -- A first part of a dict.
  pub front-IsDistinct : (c d : Dict K V) → IsDistinct (c ++ d) → IsDistinct c
  unfolding IsDistinct
  front-IsDistinct [] d h = tt
  front-IsDistinct ((j, v) ∷ c) d (new, h) = (lookup-front j c d new, front-IsDistinct c d h)

pub ruleset dict_laws = (lookup-insert, lookup-remove)
