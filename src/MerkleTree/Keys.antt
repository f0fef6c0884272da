-- ===== src/MerkleTree/Keys.antt =====
-- merkletree/key.go, the keys of the leaves, and merkletree/leaf.go. Poseidon is an argument.
pub mod Determined
use zkevm_aggregator.Prelude.{ℕ, Option, none, some, List, [], ◌∷◌}
use zkevm_aggregator.Prelude.Result.{Result, ok, err, ◌>>=◌}
use zkevm_aggregator.State.{Bytes}
use zkevm_aggregator.Ethereum.{from_bytes}
use zkevm_aggregator.MerkleTree.{scalar2fea, scalar_to_h4, h4_to_filled_byte_slice}

pub data LeafType : Type 0 where
  balance nonce code storage sc_length : LeafType

abbrev pub leaf_number : LeafType → ℕ
leaf_number balance = 0
leaf_number nonce = 1
leaf_number code = 2
leaf_number storage = 3
leaf_number sc_length = 4

-- `HashPoseidonAllZeroes`, the number that its text stands for.
abbrev pub hash_poseidon_all_zeroes : ℕ
hash_poseidon_all_zeroes =
    90049154766116433084720608085830559769008413780829730184101791749157654934361

pub data KeyError : Type 0 where
  hash_failure : KeyError

unfoldable pub default_cap_in : Result KeyError (List ℕ)
unfolding scalar_to_h4
default_cap_in = scalar_to_h4 hash_poseidon_all_zeroes

-- What is hashed for an address: its five limbs, and the type of the leaf.
abbrev pub key1 : LeafType → List ℕ → List ℕ
key1 t (a ∷ b ∷ c ∷ d ∷ e ∷ _) = a ∷ b ∷ c ∷ d ∷ e ∷ 0 ∷ leaf_number t ∷ 0 ∷ []
key1 t _ = []

abbrev pub hashed : Option (List ℕ) → Result KeyError (List ℕ)
hashed none = err hash_failure
hashed (some h) = ok h

module _ (poseidon : List ℕ → List ℕ → Option (List ℕ)) where
  unfoldable pub key_eth_addr : Bytes → LeafType → List ℕ → Result KeyError Bytes
  unfolding scalar2fea h4_to_filled_byte_slice
  key_eth_addr addr t cap =
      hashed (poseidon (key1 t (scalar2fea (from_bytes addr))) cap) >>= h4_to_filled_byte_slice

  unfoldable pub key_eth_addr_balance : Bytes → Result KeyError Bytes
  unfolding key_eth_addr default_cap_in
  key_eth_addr_balance addr = default_cap_in >>= key_eth_addr addr balance

  unfoldable pub key_eth_addr_nonce : Bytes → Result KeyError Bytes
  unfolding key_eth_addr default_cap_in
  key_eth_addr_nonce addr = default_cap_in >>= key_eth_addr addr nonce

  unfoldable pub key_contract_code : Bytes → Result KeyError Bytes
  unfolding key_eth_addr default_cap_in
  key_contract_code addr = default_cap_in >>= key_eth_addr addr code

  unfoldable pub key_contract_storage : Bytes → Bytes → Result KeyError Bytes
  unfolding key_eth_addr scalar2fea
  key_contract_storage addr storage_pos =
      hashed (poseidon (scalar2fea (from_bytes storage_pos)) (0 ∷ 0 ∷ 0 ∷ 0 ∷ []))
      >>= key_eth_addr addr storage

  unfoldable pub key_code_length : Bytes → Result KeyError Bytes
  unfolding key_eth_addr default_cap_in
  key_code_length addr = default_cap_in >>= key_eth_addr addr sc_length
