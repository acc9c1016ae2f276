-- ===== src/Converters/Bytes/Ends.antt =====
-- The round trip of integers through bytes, in both byte orders.
use thingsboard_gateway.Prelude.{
  ℕ, zero, suc, ◌+◌, ◌*◌, ◌/◌, ◌^◌, ◌<◌, List, [], ◌∷◌, ◌++◌, ◌≡◌, refl, sym, ap, ◌∙◌, some, true,
  false, Bool, ltb→lt, length, length-append, append-nil, append_assoc, arith,
}
use thingsboard_gateway.Prelude.Int.{ℤ, pos, negsuc}
use thingsboard_gateway.Converters.Bytes.{
  Bytes, ByteOrder, le_bytes, le_number, reversed, ordered, fits, pattern_of, integer_of, to_bytes,
  from_bytes,
}

pub length-le_bytes : (n v : ℕ) → length (le_bytes n v) ≡ n
unfolding le_bytes
length-le_bytes zero v = refl
length-le_bytes (suc n) v = ap suc (length-le_bytes n (v / 256))

quotient-lt : (n v : ℕ) → v < 256 ^ suc n → v / 256 < 256 ^ n
quotient-lt n v h = omega arith

le_number-le_bytes : (n v : ℕ) → v < 256 ^ n → le_number (le_bytes n v) ≡ v
unfolding le_bytes le_number
le_number-le_bytes zero v h = omega arith
le_number-le_bytes (suc n) v h = omega (arith, le_number-le_bytes n (v / 256) (quotient-lt n v h))

pub reversed-append {ℓ} :
    {A : Type ℓ} (xs ys : List A) → reversed (xs ++ ys) ≡ reversed ys ++ reversed xs
unfolding reversed
reversed-append [] ys = sym (append-nil (reversed ys))
reversed-append (x ∷ xs) ys =
    rw (reversed-append xs ys) (append_assoc (reversed ys) (reversed xs) (x ∷ []))

pub reversed-reversed {ℓ} : {A : Type ℓ} (xs : List A) → reversed (reversed xs) ≡ xs
unfolding reversed
reversed-reversed [] = refl
reversed-reversed (x ∷ xs) =
    reversed-append (reversed xs) (x ∷ []) ∙ ap (◌∷◌ x) (reversed-reversed xs)

pub length-reversed {ℓ} : {A : Type ℓ} (xs : List A) → length (reversed xs) ≡ length xs
unfolding reversed
length-reversed [] = refl
length-reversed (x ∷ xs) = omega (arith, length-append (reversed xs) (x ∷ []), length-reversed xs)

ordered-ordered : (order : ByteOrder) (bs : Bytes) → ordered order (ordered order bs) ≡ bs
unfolding ordered
ordered-ordered ByteOrder.little bs = refl
ordered-ordered ByteOrder.big bs = reversed-reversed bs

pub length-ordered : (order : ByteOrder) (bs : Bytes) → length (ordered order bs) ≡ length bs
unfolding ordered
length-ordered ByteOrder.little bs = refl
length-ordered ByteOrder.big bs = length-reversed bs

integer_of-pattern_of :
    (n : ℕ) (signed : Bool) (z : ℤ)
    → fits n signed z ≡ true
    → (integer_of n signed (pattern_of n z) ≡ z) × (pattern_of n z < 256 ^ n)
unfolding fits integer_of pattern_of
integer_of-pattern_of n false (pos v) h = (refl, ltb→lt v (256 ^ n) h)
integer_of-pattern_of n false (negsuc m) h = cc
integer_of-pattern_of n true (pos v) h = (rw h refl, omega (arith, ltb→lt (v * 2) (256 ^ n) h))
integer_of-pattern_of n true (negsuc m) h = ground (arith, ltb→lt (m * 2 + 1) (256 ^ n) h)

-- An integer that n bytes hold comes back from them, in either byte order; every other integer is
-- refused.
pub from_bytes-to_bytes :
    (n : ℕ) (order : ByteOrder) (signed : Bool) (z : ℤ)
    → fits n signed z ≡ true
    → (bs : Bytes) × (to_bytes n order signed z ≡ some bs)
      × (length bs ≡ n)
      × (from_bytes order signed bs ≡ z)
unfolding to_bytes from_bytes
from_bytes-to_bytes n order signed z h =
    let bs : Bytes = le_bytes n (pattern_of n z) in
    let len : length (ordered order bs) ≡ n =
      length-ordered order bs ∙ length-le_bytes n (pattern_of n z) in
    let ok = integer_of-pattern_of n signed z h in
    (
      ordered order bs,
      rw h refl,
      len,
      rw (len, ordered-ordered order bs, le_number-le_bytes n (pattern_of n z) ok.1) ok.0,
    )
