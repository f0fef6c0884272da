-- ===== src/Ethereum.antt =====
-- What the repository uses of go-ethereum: the transaction type with its accessors, and RLP. They
-- are an argument, `eth`, of the definitions that use them. Numbers of `big.Int` are never negative
-- here.
use zkevm_aggregator.Prelude.{
  ℕ, ◌+◌, ◌-◌, ◌*◌, Option, List, [], ◌∷◌, drop, length, replicate, ◌++◌,
}
use zkevm_aggregator.State.{Bytes}

pub record LegacyTx : Type 0 where
  pub nonce : ℕ
  pub gas_price : ℕ
  pub gas : ℕ
  pub to : Option Bytes
  pub value : ℕ
  pub payload : Bytes
  pub v : ℕ
  pub r : ℕ
  pub s : ℕ

-- An item of the list that is encoded: a number, a byte string, an address or nil.
pub data Field : Type 0 where
  number : ℕ → Field
  bytes : Bytes → Field
  address : Option Bytes → Field

pub record Ethereum : Type 1 where
  pub Tx : Type 0
  pub nonce : Tx → ℕ
  pub gas_price : Tx → ℕ
  pub gas : Tx → ℕ
  pub to : Tx → Option Bytes
  pub value : Tx → ℕ
  pub payload : Tx → Bytes
  pub chain_id : Tx → ℕ
  pub sig_v : Tx → ℕ
  pub sig_r : Tx → ℕ
  pub sig_s : Tx → ℕ
  -- `types.NewTx`, `rlp.EncodeToBytes` of a list, `rlp.DecodeBytes` into a list of byte strings.
  pub new_tx : LegacyTx → Tx
  pub rlp_encode : List Field → Option Bytes
  pub rlp_decode : Bytes → Option (List Bytes)
  -- `common.Address.String`.
  pub address_string : Bytes → Bytes
  -- `tx.UnmarshalBinary`.
  pub unmarshal_binary : Bytes → Option Tx

-- `big.Int.SetBytes`: the number written by the bytes, high byte first.
abbrev pub from_bytes_onto : ℕ → Bytes → ℕ
from_bytes_onto acc [] = acc
from_bytes_onto acc (b ∷ bs) = from_bytes_onto (acc * 256 + b) bs

abbrev pub from_bytes : Bytes → ℕ
from_bytes bs = from_bytes_onto 0 bs

-- `common.BytesToAddress`: the last 20 bytes, filled up with zeros in front.
abbrev pub bytes_to_address : Bytes → Bytes
bytes_to_address bs = replicate (20 - length bs) 0 ++ drop (length bs - 20) bs

-- `common.BytesToHash`: the last 32.
abbrev pub bytes_to_hash : Bytes → Bytes
bytes_to_hash bs = replicate (32 - length bs) 0 ++ drop (length bs - 32) bs
