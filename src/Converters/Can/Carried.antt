-- ===== src/Converters/Can/Carried.antt =====
-- What the downlink converter sends, the uplink converter reads.
use thingsboard_gateway.Prelude.{
  ℕ, zero, suc, ◌-◌, ◌/◌, ◌%◌, ◌<◌, [], ◌∷◌, ◌++◌, ◌≡◌, ◌≢◌, refl, sym, ap, ◌∙◌, some, true, false,
  ◌||◌, All, length, drop, take, drop-append, get_elem?, get_or, is_empty, arith,
}
use thingsboard_gateway.Prelude.Int.{ℤ, is_negative}
use thingsboard_gateway.Entities.Strategy.{codes}
use thingsboard_gateway.Converters.Bytes.{Bytes, IsByte, ByteOrder, fits, slice}
use thingsboard_gateway.Converters.Bytes.Ends.{from_bytes-to_bytes}
use thingsboard_gateway.Converters.Bytes.Fields.{take-length_append}
use thingsboard_gateway.Converters.Can.{
  Text, Value, Runtime, order_of, hex_digit, hex_text, digit_value, is_space, from_hex,
}
use thingsboard_gateway.Converters.Can.Downlink.{
  Config, Data, or_default, hex_part, value_bytes, frame_of, value_of, convert,
}
use thingsboard_gateway.Converters.Can.Uplink.{KeyConfig, letter_of, part, read_value, key_value}

-- A key without an expression whose type starts with a letter of the given kind.
pub record IsPlain (key : KeyConfig) (letter : ℕ) : Type 0 where
  pub first_letter : get_elem? key.type_name 0 ≡ some letter
  pub no_expression : key.expression ≡ []

module _ {F Request : Type 0} (r : Runtime F Request) where
  -- A request without `dataInHex`, with the integer z to send between the bytes `pre` and `post`.
  pub record Sends (config : Config) (d : Data F Request) (z : ℤ) (order : ByteOrder)
      (pre post : Bytes) : Type 0 where
    pub no_hex : config.data_in_hex ≡ []
    pub no_hex_data : d.data_in_hex ≡ []
    pub sent_value : value_of r config d ≡ some (Value.integer z)
    pub sent_order : order_of (or_default config.data_byteorder (codes "big")) ≡ some order
    pub sent_before : hex_part config.data_before ≡ some pre
    pub sent_after : hex_part config.data_after ≡ some post

  -- An integer that the configured bytes hold, sent by a request between some fixed bytes, is read
  -- as the same integer by a key that starts behind the bytes in front, has the same length and
  -- byte order, and is signed if the request is signed or the integer negative.
  pub integer_carried :
      (config : Config) (d : Data F Request) (z : ℤ) (order : ByteOrder) (pre post : Bytes)
      (sends : Sends config d z order pre post) (key : KeyConfig) (plain : IsPlain key b'i')
      → order_of key.byteorder ≡ some order
      → key.start ≡ length pre
      → key.length ≡ some (get_or config.data_length 1)
      → key.signed ≡ (config.data_signed || is_negative z)
      → fits (get_or config.data_length 1) (config.data_signed || is_negative z) z ≡ true
      → (frame : Bytes) × (convert r config (some d) ≡ some frame)
        × (key_value r key frame ≡ some (Value.integer z))
  unfolding convert frame_of value_bytes key_value read_value letter_of part slice value_of
  integer_carried config d z order pre post sends key plain same start len sign f =
      let n = get_or config.data_length 1 in
      let (bs, made, size, back) =
        from_bytes-to_bytes n order (config.data_signed || is_negative z) z f in
      let frame : Bytes = pre ++ (bs ++ post) in
      let cut : take n (drop (length pre) frame) ≡ bs =
        ap (λ (t : Bytes). take n t) (drop-append pre (bs ++ post))
        ∙ ap (λ (k : ℕ). take k (bs ++ post)) (sym size)
        ∙ take-length_append bs post in
      (
        frame,
        rw
            (
              sends.no_hex, sends.no_hex_data, sends.sent_value, sends.sent_before,
              sends.sent_order, made, sends.sent_after,
            )
            refl,
        rw (plain.first_letter, same, start, len, sign, cut, back, plain.no_expression) refl,
      )

digit_value-hex_digit :
    (n : ℕ) → n < 16 → (digit_value (hex_digit n) ≡ some n) × (is_space (hex_digit n) ≡ false)
unfolding digit_value hex_digit is_space
digit_value-hex_digit n h = (ground arith, ground arith)

-- A text of hexadecimal digits that was printed from bytes stands for them.
from_hex-hex_text : (bs : Bytes) → All IsByte bs → from_hex (hex_text bs) ≡ some bs
unfolding from_hex hex_text
from_hex-hex_text [] h = refl
from_hex-hex_text (b ∷ bs) h =
    let high = digit_value-hex_digit (b / 16) (omega (arith, h.0)) in
    let low = digit_value-hex_digit (b % 16) (omega arith) in
    rw (high.1, high.0, low.0, from_hex-hex_text bs h.1)
      (ap (λ (x : ℕ). some (x ∷ bs)) (omega arith))

take-All : (n : ℕ) (xs : Bytes) → All IsByte xs → All IsByte (take n xs)
take-All zero xs h = tt
take-All (suc n) [] h = tt
take-All (suc n) (x ∷ xs) h = (h.0, take-All n xs h.1)

drop-All : (n : ℕ) (xs : Bytes) → All IsByte xs → All IsByte (drop n xs)
drop-All zero xs h = h
drop-All (suc n) [] h = tt
drop-All (suc n) (x ∷ xs) h = drop-All n xs h.1

filled : (bs : Bytes) → bs ≢ [] → is_empty (hex_text bs) ≡ false
unfolding hex_text
filled [] some_bytes = absurd (some_bytes refl)
filled (b ∷ bs) some_bytes = refl

-- The raw text of some bytes of a frame, sent back by the platform as `dataInHex`, becomes the same
-- bytes.
pub raw_resent :
    {F Request : Type 0} (r : Runtime F Request) (key : KeyConfig) (plain : IsPlain key b'r')
    (can_data : Bytes) (config : Config) (d : Data F Request)
    → All IsByte can_data
    → part r key can_data ≢ []
    → config.data_in_hex ≡ []
    → (t : Text) × (key_value r key can_data ≡ some (Value.text t))
      × (convert r config (some (record d { data_in_hex = t })) ≡ some (part r key can_data))
unfolding convert key_value read_value letter_of part slice
raw_resent r key plain can_data config d bytes some_bytes no_hex =
    let bs : Bytes = part r key can_data in
    let valid : All IsByte bs =
      take-All (get_or key.length (length can_data - key.start)) (drop key.start can_data)
        (drop-All key.start can_data bytes) in
    (
      hex_text bs,
      rw (plain.first_letter, plain.no_expression) refl,
      rw (no_hex, filled bs some_bytes) (from_hex-hex_text bs valid),
    )
