-- ===== src/Hex/Numbers.antt =====
-- hex/hex.go: the conversions of uint64 and big.Int, and MustDecodeHex.
use zkevm_aggregator.Prelude.{ℕ, suc, ◌%◌, ◌^◌, Option, none, some, [], ◌∷◌, ◌==◌, if◌then◌else◌}
use zkevm_aggregator.Prelude.Result.{Result, ok, panic}
use zkevm_aggregator.State.{Bytes}
use zkevm_aggregator.Hex.{trim_prefix_0x, decode_hex}
use zkevm_aggregator.Hex.Numerals.{ℤ, pos, negsuc, abs, hexadecimal, written, set_string}

abbrev pub or_panic : {E A : Type 0} → Option A → Result E A
or_panic none = panic
or_panic (some a) = ok a

unfoldable pub must_decode_hex : {E : Type 0} → Bytes → Result E Bytes
unfolding decode_hex
must_decode_hex str = or_panic (decode_hex str)

unfoldable pub encode_uint64 : ℕ → Bytes
unfolding written
encode_uint64 i = b'0' ∷ b'x' ∷ written hexadecimal i

-- `%#x` writes a sign in front of the prefix.
unfoldable pub encode_big : ℤ → Bytes
unfolding written
encode_big (pos n) = if n == 0 then b'0' ∷ b'x' ∷ b'0' ∷ [] else b'0' ∷ b'x' ∷ written hexadecimal n
encode_big (negsuc n) = b'-' ∷ b'0' ∷ b'x' ∷ written hexadecimal (suc n)

abbrev or_left : ℤ → Option ℤ → ℤ
or_left left none = left
or_left left (some z) = z

-- `SetString` leaves the number undefined when it fails, and its answer is not looked at: what is
-- left is an argument.
module _ (left : Bytes → ℤ) where
  unfoldable pub decode_big : Bytes → ℤ
  unfolding set_string
  decode_big hex_num =
      let str = trim_prefix_0x hex_num in or_left (left str) (set_string hexadecimal str)

  -- `big.Int.Uint64` keeps the low 64 bits of the absolute value.
  unfoldable pub decode_uint64 : Bytes → ℕ
  unfolding decode_big
  decode_uint64 str = abs (decode_big str) % 2 ^ 64
