-- ===== src/Prelude/Int.antt =====
-- Python's integers over the native numbers: `negsuc n` is -(n + 1).
use thingsboard_gateway.Prelude.{ℕ, Bool, true, false}

pub data ℤ : Type 0 where
  pos : ℕ → ℤ
  negsuc : ℕ → ℤ

abbrev pub is_negative : ℤ → Bool
is_negative (pos n) = false
is_negative (negsuc n) = true
