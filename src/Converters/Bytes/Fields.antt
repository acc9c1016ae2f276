-- ===== src/Converters/Bytes/Fields.antt =====
-- Fields inside a buffer: what is written at an index is read there, and the length stays.
use thingsboard_gateway.Prelude.{
  ℕ, zero, suc, ◌+◌, ◌≤◌, List, [], ◌∷◌, ◌++◌, ◌≡◌, refl, sym, ap, ◌∙◌, some, le→leb, length,
  length-append, length-take, length-drop, take, drop, drop-append, drop-add, drop-append_of_le,
  get_elem?, is_empty, false, arith,
}
use thingsboard_gateway.Converters.Bytes.{Bytes, slice, write_at, read_at, zeros}

pub length-zeros : (n : ℕ) → length (zeros n) ≡ n
unfolding zeros
length-zeros zero = refl
length-zeros (suc n) = ap suc (length-zeros n)

module _ (i : ℕ) (bs buf : Bytes) (room : i + length bs ≤ length buf) where
  pub written : Bytes
  written = take i buf ++ (bs ++ drop (i + length bs) buf)

  pub write_at-written : write_at i bs buf ≡ some written
  unfolding write_at written
  write_at-written = rw (le→leb (i + length bs) (length buf) room) refl

  pub length-written : length written ≡ length buf
  unfolding written
  length-written = omega (
    arith,
    length-append (take i buf) (bs ++ drop (i + length bs) buf),
    length-append bs (drop (i + length bs) buf),
    length-take i buf,
    length-drop (i + length bs) buf,
  )

  pub drop-written : drop i written ≡ bs ++ drop (i + length bs) buf
  unfolding written
  drop-written =
      let e : length (take i buf) ≡ i = omega (arith, length-take i buf) in
      ap (λ k. drop k (take i buf ++ (bs ++ drop (i + length bs) buf))) (sym e)
      ∙ drop-append (take i buf) (bs ++ drop (i + length bs) buf)

pub take-length_append {ℓ} : {A : Type ℓ} (xs ys : List A) → take (length xs) (xs ++ ys) ≡ xs
take-length_append [] ys = refl
take-length_append (x ∷ xs) ys = ap (◌∷◌ x) (take-length_append xs ys)

-- What was written is read back.
pub read_at-written :
    (i : ℕ) (bs buf : Bytes) (room : i + length bs ≤ length buf)
    → read_at i (length bs) (written i bs buf room) ≡ some bs
unfolding read_at slice
read_at-written i bs buf room =
    let inside : i + length bs ≤ length (written i bs buf room) =
      omega (arith, length-written i bs buf room) in
    rw
      (
        le→leb (i + length bs) (length (written i bs buf room)) inside,
        drop-written i bs buf room,
        take-length_append bs (drop (i + length bs) buf),
      )
      refl

pub get_elem?-drop {ℓ} :
    {A : Type ℓ} (i k : ℕ) (xs : List A) → get_elem? xs (i + k) ≡ get_elem? (drop i xs) k
get_elem?-drop zero k xs = ap (get_elem? xs) (omega arith)
get_elem?-drop (suc i) k [] = refl
get_elem?-drop (suc i) k (x ∷ xs) =
    let e : suc i + k ≡ suc (i + k) = omega arith in
    ap (get_elem? (x ∷ xs)) e ∙ get_elem?-drop i k xs

get_elem?-append {ℓ} :
    {A : Type ℓ} (xs ys : List A) (k : ℕ) (x : A)
    → get_elem? xs k ≡ some x
    → get_elem? (xs ++ ys) k ≡ some x
get_elem?-append [] ys k x h = cc
get_elem?-append (y ∷ xs) ys zero x h = h
get_elem?-append (y ∷ xs) ys (suc k) x h = get_elem?-append xs ys k x h

-- Reading a byte of what was written.
pub get_elem?-written :
    (i : ℕ) (bs buf : Bytes) (room : i + length bs ≤ length buf) (k b : ℕ)
    → get_elem? bs k ≡ some b
    → get_elem? (written i bs buf room) (i + k) ≡ some b
get_elem?-written i bs buf room k b h =
    get_elem?-drop i k (written i bs buf room)
    ∙ ap (λ (t : Bytes). get_elem? t k) (drop-written i bs buf room)
    ∙ get_elem?-append bs (drop (i + length bs) buf) k b h

take-append {ℓ} :
    {A : Type ℓ} (n : ℕ) (xs ys : List A) → n ≤ length xs → take n (xs ++ ys) ≡ take n xs
take-append zero xs ys h = refl
take-append (suc n) [] ys h = absurd (omega arith)
take-append (suc n) (x ∷ xs) ys h = ap (◌∷◌ x) (take-append n xs ys (omega arith))

-- Reading some bytes of what was written.
pub read_at-inside :
    (i : ℕ) (bs buf : Bytes) (room : i + length bs ≤ length buf) (k n : ℕ)
    → k + n ≤ length bs
    → read_at (i + k) n (written i bs buf room) ≡ some (slice k n bs)
unfolding read_at slice
read_at-inside i bs buf room k n h =
    let out : Bytes = written i bs buf room in
    let inside : i + k + n ≤ length out = omega (arith, length-written i bs buf room) in
    let cut : drop (i + k) out ≡ drop k bs ++ drop (i + length bs) buf =
      sym (drop-add i k out)
      ∙ ap (λ (t : Bytes). drop k t) (drop-written i bs buf room)
      ∙ drop-append_of_le k bs (drop (i + length bs) buf) (omega arith) in
    rw (le→leb (i + k + n) (length out) inside, cut)
      (ap some
        (take-append n (drop k bs) (drop (i + length bs) buf) (omega (arith, length-drop k bs))))

pub nonempty : (buf : Bytes) → 1 ≤ length buf → is_empty buf ≡ false
nonempty [] long = absurd (omega arith)
nonempty (b ∷ buf) long = refl
