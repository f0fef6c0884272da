-- ===== src/Encoding.antt =====
-- encoding/encoding.go: numbers and bytes as texts, in decimal or behind 0x in hexadecimal. A text
-- that may be nil is an Option.
pub mod RoundTrip
use zkevm_aggregator.Prelude.{
  ℕ, ◌+◌, ◌-◌, ◌^◌, Bool, true, false, ◌&&◌, Option, none, some, [], ◌∷◌, ltb, ◌==◌, if◌then◌else◌,
  drop,
}
use zkevm_aggregator.Prelude.Result.{Result, ok, err}
use zkevm_aggregator.State.{Bytes}
use zkevm_aggregator.Ethereum.{from_bytes}
use zkevm_aggregator.Hex.{trim_prefix_0x, decode_string, encode_to_string, hex_to_bytes}
use zkevm_aggregator.Hex.Numerals.{
  ℤ, pos, negsuc, decimal, hexadecimal, written, text16, set_string, parse_uint, NumberError,
  could_not_parse,
}

-- `strings.HasPrefix(str, "0x")`.
abbrev pub has_prefix_0x : Bytes → Bool
has_prefix_0x (c ∷ d ∷ _) = c == b'0' && d == b'x'
has_prefix_0x _ = false

unfoldable pub decode_uint64_or_hex : Option Bytes → ℕ × Option NumberError
unfolding parse_uint
decode_uint64_or_hex none = (0, none)
decode_uint64_or_hex (some str) =
    if has_prefix_0x str then parse_uint hexadecimal (drop 2 str) else parse_uint decimal str

-- An integer, or the error of a text that is none.
abbrev pub parsed : {A : Type 0} → (ℤ → A) → Option ℤ → Result NumberError A
parsed f none = err could_not_parse
parsed f (some b) = ok (f b)

-- No text gives no number.
unfoldable pub decode_uint256_or_hex : Option Bytes → Result NumberError (Option ℤ)
unfolding set_string
decode_uint256_or_hex none = ok none
decode_uint256_or_hex (some str) =
    if has_prefix_0x str
    then parsed some (set_string hexadecimal (drop 2 str))
    else parsed some (set_string decimal str)

-- `int64(i)`.
abbrev pub int64 : ℕ → ℤ
int64 i = if ltb i (2 ^ 63) then pos i else negsuc (2 ^ 64 - 1 - i)

unfoldable pub decode_int64_or_hex : Option Bytes → ℤ × Option NumberError
unfolding decode_uint64_or_hex
decode_int64_or_hex val = let (i, e) = decode_uint64_or_hex val in (int64 i, e)

unfoldable pub decode_bytes : Option Bytes → Option Bytes
unfolding decode_string
decode_bytes none = some []
decode_bytes (some val) = decode_string (trim_prefix_0x val)

unfoldable pub encode_uint64 : ℕ → Bytes
unfolding written
encode_uint64 b = b'0' ∷ b'x' ∷ written hexadecimal b

unfoldable pub encode_bytes : Bytes → Bytes
unfolding encode_to_string
encode_bytes b = b'0' ∷ b'x' ∷ encode_to_string b

unfoldable pub encode_big_int : ℤ → Bytes
unfolding text16
encode_big_int b = b'0' ∷ b'x' ∷ text16 b

-- The hexadecimal digits are read as whole bytes, without their error.
unfoldable pub decode_big_int_hex_or_decimal : Bytes → Result NumberError ℤ
unfolding hex_to_bytes set_string
decode_big_int_hex_or_decimal s =
    if has_prefix_0x s
    then ok (pos (from_bytes (hex_to_bytes (drop 2 s))))
    else parsed (λ b. b) (set_string decimal s)
