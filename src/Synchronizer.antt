-- ===== src/Synchronizer.antt =====
-- What the aggregator asks of the L1 synchronizer, a package outside the repository.
use zkevm_aggregator.Prelude.{ℕ, Option, List}
use zkevm_aggregator.State.{Bytes}

-- `absent` is `entities.ErrNotFound`, `broken` any other error.
pub data L1Answer (A : Type 0) : Type 0 where
  answered : A → L1Answer A
  absent broken : L1Answer A

pub record SequencedBatches : Type 0 where
  pub from_batch_number : ℕ
  pub to_batch_number : ℕ
  pub l1_info_root : Bytes
  pub timestamp : ℕ

pub record VirtualBatch : Type 0 where
  pub batch_l2_data : Bytes
  pub block_number : ℕ

pub record L1InfoTreeLeaf : Type 0 where
  pub global_exit_root : Bytes
  pub previous_block_hash : Bytes
  pub timestamp : ℕ

-- Each answer may depend on the number of calls made before. A sequence may be nil with no error.
pub record Synchronizer : Type 0 where
  pub sequence_by_batch_number : ℕ → ℕ → L1Answer (Option SequencedBatches)
  pub virtual_batch_by_batch_number : ℕ → ℕ → L1Answer VirtualBatch
  -- `ParentHash` of the block.
  pub l1_block_by_number : ℕ → ℕ → Option Bytes
  pub leafs_by_l1_info_root : ℕ → Bytes → L1Answer (List L1InfoTreeLeaf)
  -- The entry for an index in the map that `GetL1InfoTreeLeaves` returns.
  pub l1_info_tree_leaf : ℕ → ℕ → Option L1InfoTreeLeaf
  pub latest_virtual_batch_number : ℕ → Option ℕ
