-- ===== src/MerkleTree/Text/RoundTrip.antt =====
-- The limbs of a text that was written from limbs.
use zkevm_aggregator.Prelude.{
  length-append, length-replicate, lt→ltb, ℕ, zero, suc, ◌+◌, ◌*◌, ◌^◌, ◌<◌, ◌≡◌, ◌≢◌, refl, ap,
  ◌∙◌, subst, drop, some, [], ◌∷◌, ◌++◌, arith, length, replicate, ◌/◌, ◌%◌, ◌-◌,
}
use zkevm_aggregator.Prelude.Result.{ok, ◌>>=◌}
use zkevm_aggregator.State.{Bytes}
use zkevm_aggregator.Ethereum.{from_bytes, from_bytes_onto}
use zkevm_aggregator.Hex.{encode_to_string}
use zkevm_aggregator.Hex.RoundTrip.{AllBytes}
use zkevm_aggregator.Hex.Numerals.{hexadecimal, pos, digit?, read_onto, set_string, NumberError}
use zkevm_aggregator.Hex.Numerals.Written.{digit?-digit, read-read_onto, set_string_digits}
use zkevm_aggregator.MerkleTree.{scalar_to_h4, big_endian}
use zkevm_aggregator.MerkleTree.Limbs.{word0, word1, word2, word3}
use zkevm_aggregator.MerkleTree.Text.{without_zeros, number_bytes, h4_to_string, string_to_h4}

-- The digits of bytes spell their number.
read_onto-encode_to_string :
    (bs : Bytes) (n : ℕ)
    → AllBytes bs
    → read_onto hexadecimal n (encode_to_string bs) ≡ some (from_bytes_onto n bs)
unfolding read_onto encode_to_string
read_onto-encode_to_string [] n h = refl
read_onto-encode_to_string (b ∷ bs) n (hb, h) =
    rw
      (
        digit?-digit hexadecimal (b / 16) (omega arith),
        digit?-digit hexadecimal (b % 16) (omega arith),
      )
      (subst
        (λ m.
          read_onto hexadecimal m (encode_to_string bs) ≡ some (from_bytes_onto (n * 256 + b) bs))
        (omega arith) (read_onto-encode_to_string bs (n * 256 + b) h))

read_onto-zeros :
    (k : ℕ) (s : Bytes)
    → read_onto hexadecimal 0 (replicate k b'0' ++ s) ≡ read_onto hexadecimal 0 s
unfolding read_onto digit?
read_onto-zeros zero s = refl
read_onto-zeros (suc k) s = read_onto-zeros k s

from_bytes-without_zeros : (bs : Bytes) → from_bytes (without_zeros bs) ≡ from_bytes bs
from_bytes-without_zeros [] = refl
from_bytes-without_zeros (b ∷ bs) = ground (arith, from_bytes-without_zeros bs)

AllBytes-without_zeros : (bs : Bytes) → AllBytes bs → AllBytes (without_zeros bs)
AllBytes-without_zeros [] h = h
AllBytes-without_zeros (b ∷ bs) (hb, h) = ground (arith, AllBytes-without_zeros bs h)

AllBytes-big_endian : (k n : ℕ) → AllBytes (big_endian k n)
AllBytes-big_endian zero n = tt
AllBytes-big_endian (suc k) n = (omega arith, AllBytes-big_endian k n)

-- Eight bytes more of a number.
eight :
    (b0 b1 b2 b3 b4 b5 b6 b7 : ℕ) (rest : Bytes) (acc to : ℕ)
    → acc * 2 ^ 64 + from_bytes (b0 ∷ b1 ∷ b2 ∷ b3 ∷ b4 ∷ b5 ∷ b6 ∷ b7 ∷ []) ≡ to
    → from_bytes_onto acc (b0 ∷ b1 ∷ b2 ∷ b3 ∷ b4 ∷ b5 ∷ b6 ∷ b7 ∷ rest) ≡ from_bytes_onto to rest
eight b0 b1 b2 b3 b4 b5 b6 b7 rest acc to h = ap (λ a. from_bytes_onto a rest) (omega arith)

from_bytes-big_endian : (n : ℕ) → n < 2 ^ 256 → from_bytes (big_endian 32 n) ≡ n
from_bytes-big_endian n h =
    let bs = big_endian 32 n in
    eight _ _ _ _ _ _ _ _ (drop 8 bs) 0 (n / 2 ^ 192) (omega (arith, word3 n))
    ∙ eight _ _ _ _ _ _ _ _ (drop 16 bs) (n / 2 ^ 192) (n / 2 ^ 128) (omega (arith, word2 n))
    ∙ eight _ _ _ _ _ _ _ _ (drop 24 bs) (n / 2 ^ 128) (n / 2 ^ 64) (omega (arith, word1 n))
    ∙ eight _ _ _ _ _ _ _ _ [] (n / 2 ^ 64) n (omega (arith, word0 n))

-- At least 64 digits.
padded-ne-nil : (s : Bytes) → replicate (64 - length s) b'0' ++ s ≢ []
padded-ne-nil s h = absurd (
    omega (
      arith,
      length-append (replicate (64 - length s) b'0') s,
      length-replicate {A = ℕ} (64 - length s) b'0',
      ap length h,
    ))

-- The number that the text of limbs spells is the number of the limbs.
set_string-padded :
    (n : ℕ)
    → n < 2 ^ 256
    → (let s = encode_to_string (number_bytes n) in
        set_string hexadecimal (replicate (64 - length s) b'0' ++ s) ≡ some (pos n))
set_string-padded n h =
    let bs = number_bytes n in
    let s = encode_to_string bs in
    set_string_digits hexadecimal (replicate (64 - length s) b'0' ++ s) (
      read-read_onto hexadecimal _ (padded-ne-nil s)
      ∙ read_onto-zeros (64 - length s) s
      ∙ read_onto-encode_to_string bs 0
          (AllBytes-without_zeros (big_endian 32 n) (AllBytes-big_endian 32 n))
      ∙ ap some (from_bytes-without_zeros (big_endian 32 n) ∙ from_bytes-big_endian n h))

four :
    {a b c d a' b' c' d' : ℕ}
    → a ≡ a'
    → b ≡ b'
    → c ≡ c'
    → d ≡ d'
    → a ∷ b ∷ c ∷ d ∷ [] ≡ a' ∷ b' ∷ c' ∷ d' ∷ []
four ha hb hc hd = cc

scalar_to_h4-words :
    (a b c d : ℕ)
    → a < 2 ^ 64
    → b < 2 ^ 64
    → c < 2 ^ 64
    → d < 2 ^ 64
    → scalar_to_h4 {E = NumberError} (a + b * 2 ^ 64 + c * 2 ^ 128 + d * 2 ^ 192)
      ≡ ok (a ∷ b ∷ c ∷ d ∷ [])
unfolding scalar_to_h4
scalar_to_h4-words a b c d ha hb hc hd =
    let s = a + b * 2 ^ 64 + c * 2 ^ 128 + d * 2 ^ 192 in
    simp (lt→ltb s (2 ^ 256) (omega arith)) (
      ap ok (
        four (word0 s ∙ omega arith) (word1 s ∙ omega arith) (word2 s ∙ omega arith)
          (word3 s ∙ omega arith)))

-- `StringToh4` reads back the limbs that `H4ToString` wrote. Each limb is below 2^64.
pub string_to_h4-h4_to_string :
    (a b c d : ℕ)
    → a < 2 ^ 64
    → b < 2 ^ 64
    → c < 2 ^ 64
    → d < 2 ^ 64
    → h4_to_string (a ∷ b ∷ c ∷ d ∷ []) >>= string_to_h4 ≡ ok (a ∷ b ∷ c ∷ d ∷ [])
unfolding h4_to_string string_to_h4
string_to_h4-h4_to_string a b c d ha hb hc hd =
    rw (set_string-padded (a + b * 2 ^ 64 + c * 2 ^ 128 + d * 2 ^ 192) (omega arith))
      (scalar_to_h4-words a b c d ha hb hc hd)
