-- ===== src/Encoding/RoundTrip.antt =====
-- Reading back what was written.
use zkevm_aggregator.Prelude.{ℕ, ◌^◌, ◌<◌, ◌≡◌, refl, none, some}
use zkevm_aggregator.Prelude.Result.{ok}
use zkevm_aggregator.State.{Bytes}
use zkevm_aggregator.Hex.RoundTrip.{AllBytes, decode_string-encode_to_string}
use zkevm_aggregator.Hex.Numerals.{ℤ, hexadecimal, written}
use zkevm_aggregator.Hex.Numerals.Written.{read-written, set_string-text16}
use zkevm_aggregator.Hex.Numerals.Parsed.{parse_uint_lem}
use zkevm_aggregator.Encoding.{
  decode_uint64_or_hex, decode_uint256_or_hex, decode_bytes, encode_uint64, encode_bytes,
  encode_big_int,
}

-- `DecodeUint64orHex` reads back what `EncodeUint64` wrote.
pub decode_uint64_or_hex-encode_uint64 :
    (b : ℕ) → b < 2 ^ 64 → decode_uint64_or_hex (some (encode_uint64 b)) ≡ (b, none)
unfolding decode_uint64_or_hex encode_uint64
decode_uint64_or_hex-encode_uint64 b h =
    (parse_uint_lem hexadecimal (written hexadecimal b) b).1 (read-written hexadecimal b, h)

pub decode_bytes-encode_bytes :
    (b : Bytes) → AllBytes b → decode_bytes (some (encode_bytes b)) ≡ some b
unfolding decode_bytes encode_bytes
decode_bytes-encode_bytes b h = decode_string-encode_to_string b h

-- `DecodeUint256orHex` reads back what `EncodeBigInt` wrote, for every integer.
pub decode_uint256_or_hex-encode_big_int :
    (b : ℤ) → decode_uint256_or_hex (some (encode_big_int b)) ≡ ok (some b)
unfolding decode_uint256_or_hex encode_big_int
decode_uint256_or_hex-encode_big_int b = rw (set_string-text16 b) refl
