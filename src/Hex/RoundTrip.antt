-- ===== src/Hex/RoundTrip.antt =====
-- Decoding gives back what was encoded.
use zkevm_aggregator.Prelude.{
  ℕ, ◌+◌, ◌/◌, ◌%◌, ◌<◌, ◌==◌, false, ◌≡◌, refl, ap, some, [], ◌∷◌, arith, length,
}
use zkevm_aggregator.State.{Bytes}
use zkevm_aggregator.Hex.{
  digit, trim_prefix_0x, encode_to_string, encode_to_hex, nibble?, decode_string, decode_hex,
}

abbrev pub AllBytes : Bytes → Type 0
AllBytes [] = Unit {0}
AllBytes (b ∷ bs) = (b < 256) × AllBytes bs

pub nibble?-digit : (d : ℕ) → d < 16 → nibble? (digit d) ≡ some d
unfolding nibble?
nibble?-digit d h = ground arith

-- `DecodeString` reads back what `EncodeToString` wrote. Each byte is below 256.
pub decode_string-encode_to_string :
    (bs : Bytes) → AllBytes bs → decode_string (encode_to_string bs) ≡ some bs
unfolding encode_to_string decode_string
decode_string-encode_to_string [] h = refl
decode_string-encode_to_string (b ∷ bs) (hb, h) =
    rw
      (
        nibble?-digit (b / 16) (omega arith),
        nibble?-digit (b % 16) (omega arith),
        decode_string-encode_to_string bs h,
      )
      (ap (λ c. some (c ∷ bs)) (omega arith))

pub length-encode_to_string : (bs : Bytes) → length (encode_to_string bs) ≡ length bs + length bs
unfolding encode_to_string
length-encode_to_string [] = refl
length-encode_to_string (b ∷ bs) = omega (arith, length-encode_to_string bs)

-- `DecodeHex` reads back what `EncodeToHex` wrote. Each byte is below 256.
pub decode_hex-encode_to_hex : (bs : Bytes) → AllBytes bs → decode_hex (encode_to_hex bs) ≡ some bs
unfolding decode_hex encode_to_hex
decode_hex-encode_to_hex bs h =
    ground (arith, length-encode_to_string bs, decode_string-encode_to_string bs h)

digit_no_x : (d : ℕ) → d < 16 → (digit d == b'x') ≡ false
digit_no_x d h = ground arith

trim-encode_to_string :
    (bs : Bytes) → AllBytes bs → trim_prefix_0x (encode_to_string bs) ≡ encode_to_string bs
unfolding encode_to_string
trim-encode_to_string [] h = refl
trim-encode_to_string (b ∷ bs) (hb, h) = rw (digit_no_x (b % 16) (omega arith)) (ground arith)

-- `DecodeHex` also reads back text with no prefix. Each byte is below 256.
pub decode_hex-encode_to_string :
    (bs : Bytes) → AllBytes bs → decode_hex (encode_to_string bs) ≡ some bs
unfolding decode_hex
decode_hex-encode_to_string bs h =
    rw (trim-encode_to_string bs h)
      (ground (arith, length-encode_to_string bs, decode_string-encode_to_string bs h))
