-- ===== src/Hex.antt =====
-- hex/hex.go, and of encoding/hex and math/big what it passes on: hexadecimal text, high digit first,
-- in lower case. A text is the list of its bytes.
pub mod RoundTrip
pub mod Numbers
pub mod Numerals
use zkevm_aggregator.Prelude.{
  ℕ, zero, suc, ◌+◌, ◌-◌, ◌*◌, ◌/◌, ◌%◌, ◌^◌, Bool, true, false, not, ◌&&◌, ◌||◌, Option, none,
  some, List, [], ◌∷◌, ◌++◌, ltb, leb, ◌==◌, if◌then◌else◌, length, replicate, any,
}
use zkevm_aggregator.State.{Bytes}
use mathlib.Core.Option

-- The character of a digit below 16.
abbrev pub digit : ℕ → ℕ
digit d = if ltb d 10 then d + b'0' else d - 10 + b'a'

unfoldable pub encode_to_string : Bytes → Bytes
encode_to_string [] = []
encode_to_string (b ∷ bs) = digit (b / 16) ∷ digit (b % 16) ∷ encode_to_string bs

-- `BadNibble`.
abbrev pub bad_nibble : ℕ
bad_nibble = 2 ^ 64 - 1

unfoldable pub decode_nibble : ℕ → ℕ
decode_nibble c =
    if leb b'0' c && leb c b'9'
    then c - b'0'
    else if leb b'A' c && leb c b'F'
    then c - b'A' + 10
    else if leb b'a' c && leb c b'f'
    then c - b'a' + 10
    else bad_nibble

abbrev both : Option ℕ → Option ℕ → Option Bytes → Option Bytes
both (some h) (some l) (some bs) = some ((h * 16 + l) ∷ bs)
both _ _ _ = none

unfoldable pub nibble? : ℕ → Option ℕ
unfolding decode_nibble
nibble? c = if decode_nibble c == bad_nibble then none else some (decode_nibble c)

-- `hex.DecodeString`: an odd length and a character that is no digit are errors.
unfoldable pub decode_string : Bytes → Option Bytes
unfolding nibble?
decode_string [] = some []
decode_string (c ∷ []) = none
decode_string (c ∷ d ∷ cs) = both (nibble? c) (nibble? d) (decode_string cs)

-- `strings.TrimPrefix(str, "0x")`.
abbrev pub trim_prefix_0x : Bytes → Bytes
trim_prefix_0x [] = []
trim_prefix_0x (c ∷ []) = c ∷ []
trim_prefix_0x (c ∷ d ∷ cs) = if c == b'0' && d == b'x' then cs else c ∷ d ∷ cs

-- A zero in front makes the length even.
abbrev pub make_even : Bytes → Bytes
make_even cs = if length cs % 2 == 1 then b'0' ∷ cs else cs

unfoldable pub decode_hex : Bytes → Option Bytes
unfolding decode_string
decode_hex str = decode_string (make_even (trim_prefix_0x str))

unfoldable pub encode_to_hex : Bytes → Bytes
encode_to_hex bs = b'0' ∷ b'x' ∷ encode_to_string bs

abbrev is_hex_digit : ℕ → Bool
is_hex_digit c =
    (leb b'0' c && leb c b'9') || ((leb b'a' c && leb c b'f') || (leb b'A' c && leb c b'F'))

unfoldable pub is_valid : Bytes → Bool
is_valid s = not (any (λ c. not (is_hex_digit c)) (trim_prefix_0x s))

-- `strings.TrimLeft(s, "0x")`: the argument is a set of characters, and all leading ones of it go.
unfoldable pub trim_left_0x : Bytes → Bytes
trim_left_0x [] = []
trim_left_0x (c ∷ cs) = if c == b'0' || c == b'x' then trim_left_0x cs else c ∷ cs

abbrev decoded_pairs : Option ℕ → Option ℕ → Bytes → Bytes
decoded_pairs (some h) (some l) bs = (h * 16 + l) ∷ bs
decoded_pairs _ _ bs = []

-- `common.Hex2Bytes`: `DecodeString` without its error, so what stands before the first bad digit.
unfoldable pub hex_to_bytes : Bytes → Bytes
unfolding nibble?
hex_to_bytes [] = []
hex_to_bytes (c ∷ []) = []
hex_to_bytes (c ∷ d ∷ cs) = decoded_pairs (nibble? c) (nibble? d) (hex_to_bytes cs)
