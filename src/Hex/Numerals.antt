-- ===== src/Hex/Numerals.antt =====
-- What hex/hex.go and encoding/encoding.go use of strconv and math/big: numbers as text in a base.
-- A `big.Int` is a ℤ.
pub mod Parsed
pub mod Written
use zkevm_aggregator.Prelude.{
  ℕ, zero, suc, ◌+◌, ◌-◌, ◌*◌, ◌/◌, ◌%◌, ◌^◌, ◌<◌, Option, none, some, [], ◌∷◌, ltb, ◌==◌,
  if◌then◌else◌, arith,
}
use zkevm_aggregator.State.{Bytes}
use zkevm_aggregator.Hex.{digit, decode_nibble}
use mathlib.Core.Logic.{dite}
use mathlib.Core.WellFounded.{Acc, WellFounded}
use native.Mathlib.Decide.{dec_lt}

-- `negsuc n` is the number -(n + 1).
pub data ℤ : Type 0 where
  pos negsuc : ℕ → ℤ

abbrev pub abs : ℤ → ℕ
abs (pos n) = n
abs (negsuc n) = suc n

-- There is no negative zero.
abbrev pub negated : ℕ → ℤ
negated zero = pos 0
negated (suc n) = negsuc n

below : (k n : ℕ) → n < k → Acc ◌<◌ n
below zero n h = absurd (omega arith)
below (suc k) n h = Acc.intro n λ m lt. below k m (omega arith)

unfoldable pub lt_wf : WellFounded ◌<◌
unfolding below
lt_wf = record { apply = λ n. below (suc n) n (omega arith) }

-- The two bases of the source.
pub data Base : Type 0 where
  decimal hexadecimal : Base

abbrev pub radix : Base → ℕ
radix decimal = 10
radix hexadecimal = 16

pub quotient_lt : (base : Base) {n : ℕ} → 0 < n → n / radix base < n
quotient_lt decimal h = omega arith
quotient_lt hexadecimal h = omega arith

-- The digits of `n`, written from the last one in front of `out`.
unfoldable pub written_from : (base : Base) (n : ℕ) → Acc ◌<◌ n → Bytes → Bytes
written_from base n (Acc.intro _ smaller) out =
    dite (dec_lt 0 n)
      (λ h.
        written_from base (n / radix base) (smaller (n / radix base) (quotient_lt base h))
          (digit (n % radix base) ∷ out))
      (λ _. out)

-- The text of `n`; zero has one digit.
unfoldable pub written : Base → ℕ → Bytes
written base n = if n == 0 then b'0' ∷ [] else written_from base n (lt_wf.apply n) []

-- `big.Int.Text(16)`.
unfoldable pub text16 : ℤ → Bytes
unfolding written
text16 (pos n) = written hexadecimal n
text16 (negsuc n) = b'-' ∷ written hexadecimal (suc n)

-- A digit of the base, in either case.
unfoldable pub digit? : Base → ℕ → Option ℕ
unfolding decode_nibble
digit? base c = if ltb (decode_nibble c) (radix base) then some (decode_nibble c) else none

abbrev pub and_then : Option ℕ → (ℕ → Option ℕ) → Option ℕ
and_then none f = none
and_then (some d) f = f d

-- The number that digits spell behind `n`, with no bound.
unfoldable pub read_onto : Base → ℕ → Bytes → Option ℕ
unfolding digit?
read_onto base n [] = some n
read_onto base n (c ∷ s) = and_then (digit? base c) (λ d. read_onto base (n * radix base + d) s)

-- At least one digit.
unfoldable pub read : Base → Bytes → Option ℕ
unfolding read_onto
read base [] = none
read base (c ∷ s) = read_onto base 0 (c ∷ s)

abbrev pub signed : (ℕ → ℤ) → Option ℕ → Option ℤ
signed f none = none
signed f (some n) = some (f n)

-- `big.Int.SetString`: one sign, and then digits only.
unfoldable pub set_string : Base → Bytes → Option ℤ
unfolding read
set_string base [] = none
set_string base (c ∷ s) =
    if c == b'-'
    then signed negated (read base s)
    else if c == b'+'
    then signed pos (read base s)
    else signed pos (read base (c ∷ s))

-- The errors of `strconv.ParseUint`, and the one of `SetString`'s callers.
pub data NumberError : Type 0 where
  syntax out_of_range could_not_parse : NumberError

-- An error comes with a value: 0 for a text that is no number, the largest uint64 for one too large.
abbrev pub within_u64 : ℕ → (ℕ → ℕ × Option NumberError) → ℕ × Option NumberError
within_u64 n next = if ltb n (2 ^ 64) then next n else (2 ^ 64 - 1, some out_of_range)

abbrev pub or_syntax : Option ℕ → (ℕ → ℕ × Option NumberError) → ℕ × Option NumberError
or_syntax none next = (0, some syntax)
or_syntax (some d) next = next d

unfoldable pub parse_onto : Base → ℕ → Bytes → ℕ × Option NumberError
unfolding digit?
parse_onto base n [] = (n, none)
parse_onto base n (c ∷ s) =
    or_syntax (digit? base c) (λ d. within_u64 (n * radix base + d) (λ m. parse_onto base m s))

-- `strconv.ParseUint(str, base, 64)`: the first character that is no digit or takes the value
-- past 64 bits ends it.
unfoldable pub parse_uint : Base → Bytes → ℕ × Option NumberError
unfolding parse_onto
parse_uint base [] = (0, some syntax)
parse_uint base (c ∷ s) = parse_onto base 0 (c ∷ s)
