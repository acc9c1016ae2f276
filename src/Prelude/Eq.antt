-- ===== src/Prelude/Eq.antt =====
-- Python's `==` on keys: a Boolean test that decides equality.
use Prim.Native.Nat.{ℕ}
use Prim.Native.String.{String}
use mathlib.Core.Path.{◌≡◌}
use mathlib.Core.Logic.{◌↔◌, ite, dite, if_pos}
use mathlib.Core.Bool.{Bool, true, false, Bool-discrete}
use native.Mathlib.Omega.{arith}
use text.Mathlib.Text.{◌==◌ as str_eq}
use text.Mathlib.TextEquality.{eq_iff}
use thingsboard_gateway.Prelude.Tests.{◌==◌ as nat_beq, ==_iff}

pub record Eq {ℓ} (A : Type ℓ) : Type ℓ where
  pub beq : A → A → Bool
  pub beq_iff : (a b : A) → (beq a b ≡ true) ↔ (a ≡ b)

instance abbrev pub nat_eq : Eq ℕ
nat_eq = record { beq = nat_beq; beq_iff = ==_iff }

instance abbrev pub string_eq : Eq String
string_eq = record { beq = str_eq; beq_iff = eq_iff }

-- A type whose equality is decided.
module _ {ℓ} {A : Type ℓ} (dec : Discrete A) where
  abbrev pub decided : A → A → Bool
  decided a b = ite (dec a b) true false

  pub decided_iff : (a b : A) → (decided a b ≡ true) ↔ (a ≡ b)
  decided_iff a b = elim (dec a b) [
    | yes p ↦ (λ _. p, λ _. if_pos (dec a b) p _ _)
    | no n ↦ (λ e. ground arith, λ p. absurd (n p))
  ]

  abbrev pub of_discrete : Eq A
  of_discrete = record { beq = decided; beq_iff = decided_iff }

unfoldable pub string_discrete : Discrete String
string_discrete s t =
    dite (Bool-discrete (str_eq s t) true) (λ same. yes ((eq_iff s t).0 same))
      (λ differ. no (λ p. differ ((eq_iff s t).1 p)))
