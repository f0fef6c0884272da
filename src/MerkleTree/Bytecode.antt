-- ===== src/MerkleTree/Bytecode.antt =====
-- merkletree/key.go, `HashContractBytecode`. Poseidon is an argument, and a slice is its elements. The
-- quotients of float64 are exact: a code is far below 2^53 bytes.
pub mod Padding
use zkevm_aggregator.Prelude.{
  ℕ, zero, suc, ◌+◌, ◌*◌, ◌/◌, ◌%◌, ◌≡◌, ◌≤◌, refl, ap, ◌∙◌, ◌⊎◌, inl, inr, Option, none, some,
  List, [], ◌∷◌, ◌++◌, length, ◌==◌, ltb, if◌then◌else◌, take, drop, get_or, arith, Bool-cases,
}
use zkevm_aggregator.Prelude.Result.{Result, ok, err, ◌>>=◌}
use zkevm_aggregator.State.{Bytes}
use zkevm_aggregator.MerkleTree.Keys.{KeyError, hashed}

-- The loop that pads: `rounds` is how many zeros are added at most.
unfoldable pub pad_zeros : ℕ → Bytes → Bytes
pad_zeros zero code = code
pad_zeros (suc rounds) code =
    let rest = pad_zeros rounds (code ++ (0 ∷ [])) in if length code % 56 == 0 then code else rest

-- The top bit of the last byte is set.
abbrev pub mark_last : Bytes → Bytes
mark_last [] = []
mark_last (b ∷ []) = (if ltb b 128 then b + 128 else b) ∷ []
mark_last (b ∷ c ∷ bs) = b ∷ mark_last (c ∷ bs)

unfoldable pub pad_bytecode : Bytes → Bytes
unfolding pad_zeros
pad_bytecode code = mark_last (pad_zeros 56 (code ++ (1 ∷ [])))

-- Seven bytes, the lowest first.
abbrev pub element : ℕ → Bytes → ℕ
element zero bs = 0
element (suc k) bs = get_or bs 0 0 + 256 * element k (drop 1 bs)

-- The elements of a chunk of 56 bytes.
abbrev pub elements : ℕ → Bytes → List ℕ
elements zero bs = []
elements (suc k) bs = element 7 bs ∷ elements k (drop 7 bs)

module _ (poseidon : List ℕ → List ℕ → Option (List ℕ)) where
  unfoldable pub hash_chunks : ℕ → List ℕ → Bytes → Result KeyError (List ℕ)
  hash_chunks zero tmp_hash code = ok tmp_hash
  hash_chunks (suc n) tmp_hash code =
      hashed (poseidon (elements 8 code) tmp_hash) >>= λ h. hash_chunks n h (drop 56 code)

  unfoldable pub hash_contract_bytecode : Bytes → Result KeyError (List ℕ)
  unfolding hash_chunks pad_bytecode
  hash_contract_bytecode code =
      let padded : Bytes = pad_bytecode code in
      hash_chunks ((length padded + 55) / 56) (0 ∷ 0 ∷ 0 ∷ 0 ∷ []) padded
