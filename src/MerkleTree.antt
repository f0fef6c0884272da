-- ===== src/MerkleTree.antt =====
-- merkletree/split.go: a number of 256 bits as limbs. Numbers of `big.Int` are not negative here.
pub mod Bytecode
pub mod Keys
pub mod Limbs
pub mod Text
use zkevm_aggregator.Prelude.{
  ℕ, zero, suc, ◌+◌, ◌*◌, ◌/◌, ◌%◌, ◌^◌, List, [], ◌∷◌, ltb, if◌then◌else◌, take, drop,
}
use zkevm_aggregator.State.{Bytes}
use zkevm_aggregator.Ethereum.{from_bytes}
use zkevm_aggregator.Prelude.Result.{Result, ok, panic, ◌>>=◌}

-- The mask of 32 bits is a remainder, a shift to the right a quotient.
unfoldable pub scalar2fea : ℕ → List ℕ
scalar2fea value =
    value % 2 ^ 32
    ∷ value / 2 ^ 32 % 2 ^ 32
    ∷ value / 2 ^ 64 % 2 ^ 32
    ∷ value / 2 ^ 96 % 2 ^ 32
    ∷ value / 2 ^ 128 % 2 ^ 32
    ∷ value / 2 ^ 160 % 2 ^ 32
    ∷ value / 2 ^ 192 % 2 ^ 32
    ∷ value / 2 ^ 224 % 2 ^ 32
    ∷ []

-- No limb at all is zero; one, two or three are an index out of range, and those after the fourth
-- are not read.
unfoldable pub h4_to_scalar : {E : Type 0} → List ℕ → Result E ℕ
h4_to_scalar [] = ok 0
h4_to_scalar (a ∷ b ∷ c ∷ d ∷ rest) = ok (a + b * 2 ^ 64 + c * 2 ^ 128 + d * 2 ^ 192)
h4_to_scalar _ = panic

abbrev pub big_endian : ℕ → ℕ → Bytes
big_endian zero n = []
big_endian (suc k) n = n / 256 ^ k % 256 ∷ big_endian k n

-- `FillBytes` panics on a number that does not fit.
unfoldable pub scalar_to_filled_byte_slice : {E : Type 0} → ℕ → Result E Bytes
scalar_to_filled_byte_slice s = if ltb s (2 ^ 256) then ok (big_endian 32 s) else panic

-- The mask of 64 bits changes nothing of a uint64.
abbrev pub words : Bytes → List ℕ
words b =
    from_bytes (drop 24 b)
    ∷ from_bytes (take 8 (drop 16 b))
    ∷ from_bytes (take 8 (drop 8 b))
    ∷ from_bytes (take 8 b)
    ∷ []

unfoldable pub scalar_to_h4 : {E : Type 0} → ℕ → Result E (List ℕ)
unfolding scalar_to_filled_byte_slice
scalar_to_h4 s = scalar_to_filled_byte_slice s >>= λ b. ok (words b)

unfoldable pub h4_to_filled_byte_slice : {E : Type 0} → List ℕ → Result E Bytes
unfolding h4_to_scalar scalar_to_filled_byte_slice
h4_to_filled_byte_slice h4 = h4_to_scalar h4 >>= scalar_to_filled_byte_slice
