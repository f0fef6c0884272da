-- ===== src/MerkleTree/Limbs.antt =====
-- merkletree/split.go, `scalar2fea`, against `fea2scalar` of aggregator/prover/prover.go.
use zkevm_aggregator.Prelude.{ℕ, ◌+◌, ◌*◌, ◌/◌, ◌%◌, ◌^◌, ◌<◌, ◌≡◌, arith}
use zkevm_aggregator.Prelude.{take, drop, ap, lt→ltb}
use zkevm_aggregator.Prelude.Result.{ok, ◌>>=◌}
use zkevm_aggregator.Ethereum.{from_bytes}
use zkevm_aggregator.MerkleTree.{scalar2fea, scalar_to_h4, h4_to_scalar, big_endian}
use zkevm_aggregator.Prover.StateRoot.{fea2scalar}

-- The limbs of a number below 2^256 make the number again.
pub fea2scalar-scalar2fea : (v : ℕ) → v < 2 ^ 256 → fea2scalar (scalar2fea v) ≡ v
unfolding fea2scalar scalar2fea
fea2scalar-scalar2fea v h = omega arith

pub word0 : (s : ℕ) → from_bytes (drop 24 (big_endian 32 s)) ≡ s % 2 ^ 64
word0 s = omega arith

pub word1 : (s : ℕ) → from_bytes (take 8 (drop 16 (big_endian 32 s))) ≡ s / 2 ^ 64 % 2 ^ 64
word1 s = omega arith

pub word2 : (s : ℕ) → from_bytes (take 8 (drop 8 (big_endian 32 s))) ≡ s / 2 ^ 128 % 2 ^ 64
word2 s = omega arith

pub word3 : (s : ℕ) → from_bytes (take 8 (big_endian 32 s)) ≡ s / 2 ^ 192 % 2 ^ 64
word3 s = omega arith

pub joined :
    (s a b c d : ℕ)
    → s < 2 ^ 256
    → a ≡ s % 2 ^ 64
    → b ≡ s / 2 ^ 64 % 2 ^ 64
    → c ≡ s / 2 ^ 128 % 2 ^ 64
    → d ≡ s / 2 ^ 192 % 2 ^ 64
    → a + b * 2 ^ 64 + c * 2 ^ 128 + d * 2 ^ 192 ≡ s
joined s a b c d h ha hb hc hd = omega arith

-- `scalarToh4` gives four limbs of 64 bits, and `h4ToScalar` the number again, for a number below
-- 2^256.
pub h4_to_scalar-scalar_to_h4 :
    {E : Type 0} (s : ℕ) → s < 2 ^ 256 → scalar_to_h4 {E = E} s >>= h4_to_scalar ≡ ok s
unfolding scalar_to_h4 h4_to_scalar
h4_to_scalar-scalar_to_h4 s h =
    simp (lt→ltb s (2 ^ 256) h) (ap ok (joined s _ _ _ _ h (word0 s) (word1 s) (word2 s) (word3 s)))
