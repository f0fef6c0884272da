-- ===== src/State.antt =====
-- state/types.go: the records that the aggregator stores. A Go string and a byte slice are lists of
-- bytes, a hash is its 32 bytes, a time is a count of microseconds since
-- Go's zero time, a nil pointer is `none`.
pub mod Storage
pub mod BatchV2
pub mod Txs
use zkevm_aggregator.Prelude.{ℕ, List, Option, ◌%◌, ◌^◌}

abbrev pub Bytes : Type 0
Bytes = List ℕ

-- uint64 arithmetic wraps.
abbrev pub u64 : ℕ → ℕ
u64 n = n % 2 ^ 64

-- `datastream.BatchType`.
pub data BatchType : Type 0 where
  unspecified regular forced injected invalid : BatchType

-- `state.Batch`, without `Transactions`, which nothing in the aggregator writes or reads.
pub record Batch : Type 0 where
  pub batch_number : ℕ
  pub coinbase : Bytes
  pub batch_l2_data : Bytes
  pub state_root : Bytes
  pub local_exit_root : Bytes
  pub acc_input_hash : Bytes
  pub l1_info_tree_index : ℕ
  pub l1_info_root : Bytes
  pub timestamp : ℕ
  pub global_exit_root : Bytes
  pub forced_batch_num : Option ℕ
  pub chain_id : ℕ
  pub fork_id : ℕ
  pub batch_type : BatchType

pub record Sequence : Type 0 where
  pub from_batch_number : ℕ
  pub to_batch_number : ℕ

pub record Proof : Type 0 where
  pub batch_number : ℕ
  pub batch_number_final : ℕ
  pub proof : Bytes
  pub input_prover : Bytes
  pub proof_id : Option Bytes
  pub prover : Option Bytes
  pub prover_id : Option Bytes
  pub generating_since : Option ℕ
  pub created_at : ℕ
  pub updated_at : ℕ

pub record DbBatch : Type 0 where
  pub batch : Batch
  pub datastream : Bytes
  pub witness : Bytes
