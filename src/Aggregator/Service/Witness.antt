-- ===== src/Aggregator/Service/Witness.antt =====
-- `getWitness`: what becomes of the bytes that the server writes as text.
use zkevm_aggregator.Prelude.{
  ℕ, ◌+◌, ◌/◌, ◌%◌, ◌<◌, ◌≡◌, refl, ◌∙◌, ap, true, false, ◌||◌, [], ◌∷◌, ◌==◌, if◌then◌else◌,
  length, arith, Bool-cases, inl, inr,
}
use zkevm_aggregator.State.{Bytes}
use zkevm_aggregator.Hex.{
  digit, encode_to_string, encode_to_hex, hex_to_bytes, make_even, trim_left_0x,
}
use zkevm_aggregator.Hex.RoundTrip.{AllBytes, nibble?-digit, length-encode_to_string}
use zkevm_aggregator.Aggregator.Service.{witness_bytes}

-- The bytes from the first one that is not zero on.
unfoldable pub drop_zeros : Bytes → Bytes
drop_zeros [] = []
drop_zeros (b ∷ bs) = if b == 0 then drop_zeros bs else b ∷ bs

hex_to_bytes-encode : (bs : Bytes) → AllBytes bs → hex_to_bytes (encode_to_string bs) ≡ bs
unfolding hex_to_bytes encode_to_string
hex_to_bytes-encode [] h = refl
hex_to_bytes-encode (b ∷ bs) (hb, h) =
    rw
      (
        nibble?-digit (b / 16) (omega arith),
        nibble?-digit (b % 16) (omega arith),
        hex_to_bytes-encode bs h,
      )
      (ap (λ c. c ∷ bs) (omega arith))

-- A digit is dropped in front only if it is 0.
digit_stays : (d : ℕ) → d < 16 → (digit d == b'0' || digit d == b'x') ≡ d == 0
digit_stays d h = ground arith

even_text : (text : Bytes) (n : ℕ) → length text ≡ n + n → make_even text ≡ text
even_text text n e = rw e (ground arith)

odd_text :
    (text : Bytes) (n : ℕ) → length text ≡ n + n → (c : ℕ) → make_even (c ∷ text) ≡ b'0' ∷ c ∷ text
odd_text text n e c = rw e (ground arith)

-- One digit of the first byte is left, and a zero is put back.
one_digit :
    (b : ℕ) (bs : Bytes)
    → b < 16
    → AllBytes bs
    → hex_to_bytes (make_even (digit b ∷ encode_to_string bs)) ≡ b ∷ bs
unfolding hex_to_bytes
one_digit b bs hb h =
    ap hex_to_bytes
      (odd_text (encode_to_string bs) (length bs) (length-encode_to_string bs) (digit b))
    ∙ rw (nibble?-digit b hb, hex_to_bytes-encode bs h) (ap (λ c. c ∷ bs) (omega arith))

two_digits :
    (b : ℕ) (bs : Bytes)
    → b < 256
    → AllBytes bs
    → hex_to_bytes (make_even (encode_to_string (b ∷ bs))) ≡ b ∷ bs
two_digits b bs hb h =
    ap hex_to_bytes
      (even_text (encode_to_string (b ∷ bs)) (length (b ∷ bs)) (length-encode_to_string (b ∷ bs)))
    ∙ hex_to_bytes-encode (b ∷ bs) (hb, h)

is_zero : (b : ℕ) → b / 16 == 0 ≡ true → b % 16 == 0 ≡ true → b == 0 ≡ true
is_zero b e f = ground arith

low_digit : (b : ℕ) → b / 16 == 0 ≡ true → b % 16 ≡ b
low_digit b e = ground arith

not_zero_low : (b : ℕ) → b % 16 == 0 ≡ false → b == 0 ≡ false
not_zero_low b f = ground arith

not_zero_high : (b : ℕ) → b / 16 == 0 ≡ false → b == 0 ≡ false
not_zero_high b f = ground arith

trimmed :
    (bs : Bytes)
    → AllBytes bs
    → hex_to_bytes (make_even (trim_left_0x (encode_to_string bs))) ≡ drop_zeros bs
unfolding trim_left_0x encode_to_string drop_zeros
trimmed [] h = unfold hex_to_bytes in refl
trimmed (b ∷ bs) (hb, h) = elim (Bool-cases (b / 16 == 0)) [
  | inl e ↦ elim (Bool-cases (b % 16 == 0)) [
    | inl f ↦
        rw (digit_stays (b / 16) (omega arith), e, digit_stays (b % 16) (omega arith), f)
          (rw (is_zero b e f) (trimmed bs h))
    | inr f ↦
        rw (digit_stays (b / 16) (omega arith), e, digit_stays (b % 16) (omega arith), f)
          (rw (not_zero_low b f)
            (one_digit (b % 16) bs (omega arith) h ∙ ap (λ c. c ∷ bs) (low_digit b e)))
  ]
  | inr e ↦
      rw (digit_stays (b / 16) (omega arith), e) (rw (not_zero_high b e) (two_digits b bs hb h))
]

-- The witness is the bytes that the server writes as hexadecimal text, less its leading zero bytes: the
-- cut takes zeros along with the prefix. Each byte is below 256.
pub witness_bytes-encode_to_hex :
    (bs : Bytes) → AllBytes bs → witness_bytes (encode_to_hex bs) ≡ drop_zeros bs
unfolding witness_bytes trim_left_0x encode_to_hex
witness_bytes-encode_to_hex bs h = trimmed bs h
