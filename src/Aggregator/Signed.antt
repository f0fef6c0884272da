-- ===== src/Aggregator/Signed.antt =====
-- aggregator/agglayer_tx.go: the hash of the transaction for the AggLayer, its signature and its signer. The
-- texts of cdk-rpc's `ArgUint64` and `ArgBytes` and go-ethereum's cryptography are arguments.
pub mod Cuts
pub mod Determined
use zkevm_aggregator.Prelude.{ℕ, Option, none, some, ◌++◌}
use zkevm_aggregator.State.{Bytes}
use zkevm_aggregator.Aggregator.{AggLayerTx}

pub record SignedTx : Type 0 where
  pub tx : AggLayerTx
  pub signature : Bytes

pub record Crypto (K P : Type 0) : Type 0 where
  pub keccak256 : Bytes → Bytes
  pub sign_hash : Bytes → K → Option Bytes
  pub sig_to_pub : Bytes → Bytes → Option P
  pub pubkey_to_address : P → Bytes

abbrev pub with_signature : AggLayerTx → Option Bytes → Option SignedTx
with_signature t none = none
with_signature t (some sig) = some (record { tx = t; signature = sig })

abbrev pub address_of : {P : Type 0} → (P → Bytes) → Option P → Option Bytes
address_of f none = none
address_of f (some p) = some (f p)

module _ (uint64_hex : ℕ → Bytes) (bytes_hex : Bytes → Bytes) where
  -- What is hashed: Keccak runs over its arguments one after the other.
  unfoldable pub hashed_text : AggLayerTx → Bytes
  hashed_text t =
      uint64_hex t.last_verified_batch
      ++ (uint64_hex t.new_verified_batch
          ++ (t.new_state_root ++ (t.new_local_exit_root ++ bytes_hex t.proof)))

  module _ {K P : Type 0} (crypto : Crypto K P) where
    unfoldable pub tx_hash : AggLayerTx → Bytes
    unfolding hashed_text
    tx_hash t = crypto.keccak256 (hashed_text t)

    unfoldable pub sign : AggLayerTx → K → Option SignedTx
    unfolding tx_hash
    sign t private_key = with_signature t (crypto.sign_hash (tx_hash t) private_key)

    unfoldable pub signer : SignedTx → Option Bytes
    unfolding tx_hash
    signer s = address_of crypto.pubkey_to_address (crypto.sig_to_pub (tx_hash s.tx) s.signature)
