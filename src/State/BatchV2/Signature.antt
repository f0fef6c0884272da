-- ===== src/State/BatchV2/Signature.antt =====
-- state/helper.go, `prepareRLPTxData`: a number of 256 bits as padded hexadecimal text, and the bytes that
-- the text is read as.
use zkevm_aggregator.Prelude.{
  ℕ, zero, suc, ◌+◌, ◌-◌, ◌/◌, ◌%◌, ◌^◌, ◌<◌, ◌≡◌, refl, sym, ap, ◌∙◌, Bool-cases, inl, inr, [],
  ◌∷◌, ◌++◌, ◌==◌, length, replicate, arith, subst,
}
use zkevm_aggregator.State.{Bytes}
use zkevm_aggregator.Ethereum.{from_bytes, from_bytes_onto}
use zkevm_aggregator.Hex.{digit, encode_to_string}
use zkevm_aggregator.Hex.RoundTrip.{AllBytes}
use zkevm_aggregator.State.BatchV2.Tx.{hex_digits, padded_hex}

-- As many digits, and as many bytes, of a number in front of others.
unfoldable fixed : ℕ → ℕ → Bytes → Bytes
fixed zero n acc = acc
fixed (suc k) n acc = fixed k (n / 16) (digit (n % 16) ∷ acc)

unfoldable pub bytes_onto : ℕ → ℕ → Bytes → Bytes
bytes_onto zero n acc = acc
bytes_onto (suc k) n acc = bytes_onto k (n / 256) (n % 256 ∷ acc)

-- The number has no more digits, or bytes.
abbrev Fits16 : ℕ → ℕ → Type 0
Fits16 zero n = n ≡ 0
Fits16 (suc k) n = Fits16 k (n / 16)

abbrev Fits : ℕ → ℕ → Type 0
Fits zero n = n ≡ 0
Fits (suc k) n = Fits k (n / 256)

abbrev twice : ℕ → ℕ
twice zero = zero
twice (suc k) = suc (suc (twice k))

Fits16-twice : (k n : ℕ) → Fits k n → Fits16 (twice k) n
Fits16-twice zero n h = h
Fits16-twice (suc k) n h = Fits16-twice k (n / 16 / 16) (subst (Fits k) (omega arith) h)

replicate_more :
    (k : ℕ) (acc : Bytes) → replicate k b'0' ++ (b'0' ∷ acc) ≡ replicate (suc k) b'0' ++ acc
replicate_more zero acc = refl
replicate_more (suc k) acc = ap (◌∷◌ b'0') (replicate_more k acc)

fixed-zero : (k : ℕ) (acc : Bytes) → fixed k 0 acc ≡ replicate k b'0' ++ acc
unfolding fixed
fixed-zero zero acc = refl
fixed-zero (suc k) acc = fixed-zero k (b'0' ∷ acc) ∙ replicate_more k acc

-- The padding fills up what the digits lack.
padded-fixed :
    (k n : ℕ) (acc : Bytes)
    → Fits16 k n
    → replicate (k + length acc - length (hex_digits k n acc)) b'0' ++ hex_digits k n acc
      ≡ fixed k n acc
unfolding fixed hex_digits
padded-fixed zero n acc h =
    let none_left : 0 + length acc - length acc ≡ 0 = omega arith in
    ap (λ j. replicate j b'0' ++ acc) none_left
padded-fixed (suc k) n acc h = elim (Bool-cases (n == 0)) [
  | inl e ↦
      let is_zero : n ≡ 0 = ground (arith, e) in
      let count : suc k + length acc - length acc ≡ suc k = omega arith in
      rw e (
        ap (λ j. replicate j b'0' ++ acc) count
        ∙ sym (fixed-zero (suc k) acc)
        ∙ ap (λ m. fixed (suc k) m acc) (sym is_zero))
  | inr e ↦
      let rest = digit (n % 16) ∷ acc in
      let count : suc k + length acc - length (hex_digits k (n / 16) rest)
          ≡ k + length rest - length (hex_digits k (n / 16) rest) =
        omega arith in
      rw e (
        ap (λ j. replicate j b'0' ++ hex_digits k (n / 16) rest) count
        ∙ padded-fixed k (n / 16) rest h)
]

same_digits :
    (k n : ℕ) (acc : Bytes)
    → fixed k (n / 16 / 16) (digit (n / 16 % 16) ∷ digit (n % 16) ∷ encode_to_string acc)
      ≡ fixed k (n / 256) (encode_to_string (n % 256 ∷ acc))
unfolding encode_to_string
same_digits k n acc =
    let quotient : n / 16 / 16 ≡ n / 256 = omega arith in
    let high : n / 16 % 16 ≡ n % 256 / 16 = omega arith in
    let low : n % 16 ≡ n % 256 % 16 = omega arith in
    ap (λ m. fixed k m (digit (n / 16 % 16) ∷ digit (n % 16) ∷ encode_to_string acc)) quotient
    ∙ ap (λ d. fixed k (n / 256) (digit d ∷ digit (n % 16) ∷ encode_to_string acc)) high
    ∙ ap (λ d. fixed k (n / 256) (digit (n % 256 / 16) ∷ digit d ∷ encode_to_string acc)) low

digits-bytes_onto :
    (k n : ℕ) (acc : Bytes)
    → fixed (twice k) n (encode_to_string acc) ≡ encode_to_string (bytes_onto k n acc)
unfolding fixed bytes_onto
digits-bytes_onto zero n acc = refl
digits-bytes_onto (suc k) n acc =
    same_digits (twice k) n acc ∙ digits-bytes_onto k (n / 256) (n % 256 ∷ acc)

from_bytes-bytes_onto :
    (k n : ℕ) (acc : Bytes) → Fits k n → from_bytes (bytes_onto k n acc) ≡ from_bytes_onto n acc
unfolding bytes_onto
from_bytes-bytes_onto zero n acc h = ap (λ m. from_bytes_onto m acc) (sym h)
from_bytes-bytes_onto (suc k) n acc h =
    from_bytes-bytes_onto k (n / 256) (n % 256 ∷ acc) h
    ∙ ap (λ m. from_bytes_onto m acc) (omega arith)

length-bytes_onto : (k n : ℕ) (acc : Bytes) → length (bytes_onto k n acc) ≡ k + length acc
unfolding bytes_onto
length-bytes_onto zero n acc = omega arith
length-bytes_onto (suc k) n acc = omega (arith, length-bytes_onto k (n / 256) (n % 256 ∷ acc))

AllBytes-bytes_onto : (k n : ℕ) (acc : Bytes) → AllBytes acc → AllBytes (bytes_onto k n acc)
unfolding bytes_onto
AllBytes-bytes_onto zero n acc h = h
AllBytes-bytes_onto (suc k) n acc h =
    AllBytes-bytes_onto k (n / 256) (n % 256 ∷ acc) (omega arith, h)

Fits32 : (n : ℕ) → n < 2 ^ 256 → Fits 32 n
Fits32 n h = omega arith

-- The 32 bytes of a number.
abbrev pub word : ℕ → Bytes
word n = bytes_onto 32 n []

pub padded_hex-word : (n : ℕ) → n < 2 ^ 256 → padded_hex 64 n ≡ encode_to_string (word n)
unfolding encode_to_string
padded_hex-word n h =
    padded-fixed 64 n [] (Fits16-twice 32 n (Fits32 n h)) ∙ digits-bytes_onto 32 n []

pub length-word : (n : ℕ) → length (word n) ≡ 32
length-word n = length-bytes_onto 32 n []

pub AllBytes-word : (n : ℕ) → AllBytes (word n)
AllBytes-word n = AllBytes-bytes_onto 32 n [] tt

pub from_bytes-word : (n : ℕ) → n < 2 ^ 256 → from_bytes (word n) ≡ n
from_bytes-word n h = from_bytes-bytes_onto 32 n [] (Fits32 n h)
