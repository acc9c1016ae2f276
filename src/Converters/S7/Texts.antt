-- ===== src/Converters/S7/Texts.antt =====
-- Texts of fixed length and raw bytes in a buffer.
use thingsboard_gateway.Prelude.{
  ℕ, zero, suc, ◌+◌, ◌-◌, ◌≤◌, ◌<◌, max, [], ◌∷◌, ◌++◌, ◌≡◌, refl, sym, ap, ◌∙◌, none, some, true,
  false, length, length-append, length-take, length-drop, take, drop, drop-append,
  take_of_length-le, append_assoc, is_empty, le→leb, arith, ◌==◌, All, All-append, ◌||◌,
}
use thingsboard_gateway.Converters.Bytes.{Bytes, zeros, write_at, slice, reversed}
use thingsboard_gateway.Converters.Bytes.Ends.{reversed-append}
use thingsboard_gateway.Converters.Bytes.Fields.{length-zeros, take-length_append, nonempty}
use thingsboard_gateway.Converters.S7.{
  Text, Config, Kind, kind_of, first_number, Value, Snap7, Runtime,
}
use thingsboard_gateway.Converters.S7.Downlink.{
  all_bytes, latin1, set_slice, pad_spaces, str_of, type_size,
}
use thingsboard_gateway.Converters.S7.Request.{
  min_size, set_value, fixed_text, convert_data_request,
}
use thingsboard_gateway.Converters.S7.Uplink.{
  strip_front, rstrip, fixed_size, get_value, convert_data_type,
}

spaces : ℕ → Bytes
spaces zero = []
spaces (suc n) = b' ' ∷ spaces n

length-spaces : (n : ℕ) → length (spaces n) ≡ n
unfolding spaces
length-spaces zero = refl
length-spaces (suc n) = ap suc (length-spaces n)

zeros-add : (a b : ℕ) → zeros (a + b) ≡ zeros a ++ zeros b
unfolding zeros
zeros-add zero b = ap zeros (omega arith)
zeros-add (suc a) b =
    let e : suc a + b ≡ suc (a + b) = omega arith in ap zeros e ∙ ap (◌∷◌ 0) (zeros-add a b)

cut_end : (pre ys zs : Bytes) → drop (length pre + length ys) (pre ++ (ys ++ zs)) ≡ zs
cut_end pre ys zs =
    ap (λ (k : ℕ). drop k (pre ++ (ys ++ zs))) (sym (length-append pre ys))
    ∙ ap (λ (t : Bytes). drop (length (pre ++ ys)) t) (sym (append_assoc pre ys zs))
    ∙ drop-append (pre ++ ys) zs

set_one :
    (pre rest : Bytes) (a b : ℕ)
    → write_at (length pre) (b ∷ []) (pre ++ (a ∷ rest)) ≡ some ((pre ++ b ∷ []) ++ rest)
unfolding write_at
set_one pre rest a b =
    let room : length pre + 1 ≤ length (pre ++ (a ∷ rest)) =
      omega (arith, length-append pre (a ∷ rest)) in
    rw
      (
        le→leb (length pre + 1) (length (pre ++ (a ∷ rest))) room,
        take-length_append pre (a ∷ rest),
        cut_end pre (a ∷ []) rest,
      )
      (ap some (sym (append_assoc pre (b ∷ []) rest)))

pad_spaces-zeros :
    (n : ℕ) (pre rest : Bytes)
    → pad_spaces n (length pre) (pre ++ (zeros n ++ rest)) ≡ some (pre ++ (spaces n ++ rest))
unfolding pad_spaces zeros spaces
pad_spaces-zeros zero pre rest = refl
pad_spaces-zeros (suc n) pre rest =
    let next : Bytes = pre ++ b' ' ∷ [] in
    let e : length pre + 1 ≡ length next = omega (arith, length-append pre (b' ' ∷ [])) in
    rw (set_one pre (zeros n ++ rest) 0 b' ', e, pad_spaces-zeros n next rest)
      (ap some (append_assoc pre (b' ' ∷ []) (spaces n ++ rest)))

set_slice-append :
    (pre t old rest : Bytes)
    → length old ≡ length t
    → set_slice (length pre) t (pre ++ (old ++ rest)) ≡ (pre ++ t) ++ rest
unfolding set_slice
set_slice-append pre t old rest same =
    rw (sym same, take-length_append pre (old ++ rest), cut_end pre old rest)
      (sym (append_assoc pre t rest))

abbrev IsBlank : ℕ → Type 0
IsBlank c = (c == 0 || c == b' ') ≡ true

strip_front_blank : (xs t : Text) → All IsBlank xs → strip_front (reversed xs ++ t) ≡ strip_front t
unfolding reversed strip_front
strip_front_blank [] t h = refl
strip_front_blank (x ∷ xs) t h =
    ap strip_front (append_assoc (reversed xs) (x ∷ []) t)
    ∙ strip_front_blank xs (x ∷ t) h.1
    ∙ rw (h.0) refl

-- Blanks behind a text are stripped.
rstrip_blank : (t pad : Text) → All IsBlank pad → rstrip (t ++ pad) ≡ rstrip t
unfolding rstrip
rstrip_blank t pad h =
    ap (λ (x : Text). reversed (strip_front x)) (reversed-append t pad)
    ∙ ap reversed (strip_front_blank pad (reversed t) h)

spaces-IsBlank : (n : ℕ) → All IsBlank (spaces n)
unfolding spaces
spaces-IsBlank zero = tt
spaces-IsBlank (suc n) = (refl, spaces-IsBlank n)

zeros-IsBlank : (n : ℕ) → All IsBlank (zeros n)
unfolding zeros
zeros-IsBlank zero = tt
zeros-IsBlank (suc n) = (refl, zeros-IsBlank n)

pad_spaces-refused : (n j : ℕ) (buf : Bytes) → 1 ≤ n → length buf ≤ j → pad_spaces n j buf ≡ none
unfolding pad_spaces write_at
pad_spaces-refused zero j buf some_rounds short = absurd (omega arith)
pad_spaces-refused (suc n) j buf some_rounds short = ground arith

length-set_slice_end : (i : ℕ) (t : Bytes) → length (set_slice i t (zeros i)) ≤ i + length t
unfolding set_slice
length-set_slice_end i t =
    let rest : Bytes = drop (i + length t) (zeros i) in
    omega (
      arith,
      length-append (take i (zeros i)) (t ++ rest),
      length-append t rest,
      length-take i (zeros i),
      length-drop (i + length t) (zeros i),
      length-zeros i,
    )

module _ (i n : ℕ) (t : Text) (latin : all_bytes t ≡ true) where
  -- The text is cut to nothing, and filled up to its size.
  fixed_text-filled :
      (k : ℕ)
      → length t ≤ n
      → fixed_text (zeros (i + n + k)) i n t
        ≡ some ((zeros i ++ t) ++ (spaces (n - length t) ++ zeros k))
  unfolding fixed_text latin1
  fixed_text-filled k short =
      let m = n - length t in
      let e : i + n + k ≡ i + (length t + (m + k)) = omega arith in
      let parts : zeros (i + n + k) ≡ zeros i ++ (zeros (length t) ++ (zeros m ++ zeros k)) =
        ap zeros e
        ∙ zeros-add i (length t + (m + k))
        ∙ ap (λ (x : Bytes). zeros i ++ x)
            (zeros-add (length t) (m + k)
              ∙ ap (λ (x : Bytes). zeros (length t) ++ x) (zeros-add m k)) in
      let placed : set_slice i t (zeros (i + n + k)) ≡ (zeros i ++ t) ++ (zeros m ++ zeros k) =
        ap (set_slice i t) parts
        ∙ ap (λ (j : ℕ). set_slice j t (zeros i ++ (zeros (length t) ++ (zeros m ++ zeros k))))
            (sym (length-zeros i))
        ∙ set_slice-append (zeros i) t (zeros (length t)) (zeros m ++ zeros k)
            (length-zeros (length t)) in
      let place : i + length t ≡ length (zeros i ++ t) =
        omega (arith, length-append (zeros i) t, length-zeros i) in
      rw (latin, take_of_length-le n t short, placed, place)
        (pad_spaces-zeros m (zeros i ++ t) (zeros k))

  -- Without room for it, the padding fails.
  fixed_text-refused : length t < n → fixed_text (zeros i) i n t ≡ none
  unfolding fixed_text latin1
  fixed_text-refused short =
      let e : take n t ≡ t = take_of_length-le n t (omega arith) in
      rw (latin, e)
        (pad_spaces-refused (n - length t) (i + length t) (set_slice i t (zeros i)) (omega arith)
          (length-set_slice_end i t))

module _ {F : Type 0} (r : Runtime F) (snap7 : Snap7 F) (config : Config) (t : Text)
    (kind : kind_of config.data_type ≡ Kind.fstring) (latin : all_bytes t ≡ true) where
  -- A text that fits into its fixed length, in a buffer with room for that length, is read back
  -- without the blanks and zeros at its end and then stripped.
  pub fstring_restored :
      (n : ℕ)
      → first_number config.data_type ≡ some n
      → 1 ≤ n
      → length t ≤ n
      → config.offset + n ≤ config.size
      → (buf : Bytes) × (convert_data_request r snap7 config (Value.text t) ≡ some buf)
        × (convert_data_type r snap7 config buf ≡ some (Value.text (r.strip (rstrip t))))
  unfolding convert_data_request min_size set_value type_size str_of convert_data_type get_value
      fixed_size slice
  fstring_restored n number long short room =
      let i = config.offset in
      let k = config.size - (i + n) in
      let pad : Bytes = spaces (n - length t) ++ zeros k in
      let out : Bytes = (zeros i ++ t) ++ pad in
      let size : max config.size (i + 0) ≡ i + n + k = omega arith in
      let behind : drop i out ≡ t ++ pad =
        ap (λ (x : Bytes). drop i x) (append_assoc (zeros i) t pad)
        ∙ ap (λ (j : ℕ). drop j (zeros i ++ (t ++ pad))) (sym (length-zeros i))
        ∙ drop-append (zeros i) (t ++ pad) in
      let pads : length pad ≡ (n - length t) + k = omega (
        arith,
        length-append (spaces (n - length t)) (zeros k),
        length-spaces (n - length t),
        length-zeros k,
      ) in
      let all : take config.size (t ++ pad) ≡ t ++ pad =
        take_of_length-le config.size (t ++ pad) (omega (arith, length-append t pad, pads)) in
      let filled : is_empty out ≡ false =
        nonempty out
          (omega (arith, length-append (zeros i ++ t) pad, length-append (zeros i) t, pads)) in
      let given : (config.size == 0) ≡ false = ground arith in
      (
        out,
        rw (kind, number, size) (fixed_text-filled i n t latin k short),
        rw
            (
              filled,
              kind,
              given,
              behind,
              all,
              rstrip_blank t pad (
                  All-append IsBlank (spaces (n - length t)) (zeros k)
                    (spaces-IsBlank (n - length t)) (zeros-IsBlank k)),
            )
            refl,
      )

  -- Where the configuration gives no size of the buffer beyond the offset, a text that is shorter
  -- than its fixed length is refused by an exception: the buffer ends at the offset.
  fstring_refused :
      (n : ℕ)
      → first_number config.data_type ≡ some n
      → length t < n
      → config.size ≤ config.offset
      → convert_data_request r snap7 config (Value.text t) ≡ none
  unfolding convert_data_request min_size set_value type_size str_of
  fstring_refused n number short small =
      let size : max config.size (config.offset + 0) ≡ config.offset = omega arith in
      rw (kind, number, size) (fixed_text-refused config.offset n t latin short)
