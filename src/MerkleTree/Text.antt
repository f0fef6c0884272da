-- ===== src/MerkleTree/Text.antt =====
-- merkletree/split.go: four limbs of 64 bits as hexadecimal text.
pub mod RoundTrip
use zkevm_aggregator.Prelude.{
  ℕ, ◌-◌, ◌≡◌, refl, Option, none, some, List, [], ◌∷◌, ◌++◌, ◌==◌, if◌then◌else◌, length,
  replicate,
}
use zkevm_aggregator.Prelude.Text.{codes}
use zkevm_aggregator.Prelude.Result.{Result, ok, err, ◌>>=◌}
use zkevm_aggregator.State.{Bytes}
use zkevm_aggregator.Hex.{encode_to_string, trim_prefix_0x}
use zkevm_aggregator.Hex.Numerals.{ℤ, abs, hexadecimal, set_string, NumberError, could_not_parse}
use zkevm_aggregator.MerkleTree.{h4_to_scalar, scalar_to_h4, big_endian}
use zkevm_aggregator.MerkleTree.Keys.{default_cap_in, hash_poseidon_all_zeroes}

abbrev pub without_zeros : Bytes → Bytes
without_zeros [] = []
without_zeros (b ∷ bs) = if b == 0 then without_zeros bs else b ∷ bs

-- `big.Int.Bytes` of a number of at most 256 bits: no leading zero.
abbrev pub number_bytes : ℕ → Bytes
number_bytes n = without_zeros (big_endian 32 n)

-- `0x%064s`.
abbrev pub padded64 : Bytes → Bytes
padded64 s = b'0' ∷ b'x' ∷ replicate (64 - length s) b'0' ++ s

unfoldable pub h4_to_string : {E : Type 0} → List ℕ → Result E Bytes
unfolding h4_to_scalar encode_to_string
h4_to_string h4 = h4_to_scalar h4 >>= λ sc. ok (padded64 (encode_to_string (number_bytes sc)))

-- `FillBytes` writes the absolute value.
abbrev pub limbs_of : Option ℤ → Result NumberError (List ℕ)
unfolding scalar_to_h4
limbs_of none = err could_not_parse
limbs_of (some bi) = scalar_to_h4 (abs bi)

unfoldable pub string_to_h4 : Bytes → Result NumberError (List ℕ)
unfolding limbs_of set_string
string_to_h4 str = limbs_of (set_string hexadecimal (trim_prefix_0x str))

-- The text of `HashPoseidonAllZeroes` stands for the number that the keys use.
default_cap_in-string_to_h4 :
    string_to_h4 (codes "0xc71603f33a1144ca7953db0ab48808f4c4055e3364a246c33c18a9786cb0b359")
    ≡ scalar_to_h4 hash_poseidon_all_zeroes
unfolding string_to_h4 scalar_to_h4
default_cap_in-string_to_h4 = refl
