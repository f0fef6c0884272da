-- ===== src/Prover/Input.antt =====
-- The input of a batch proof, `StatelessPublicInputs` and `L1Data` of the prover's protocol.
use zkevm_aggregator.Prelude.{ℕ, List}
use zkevm_aggregator.State.{Bytes}

pub record L1Data : Type 0 where
  pub global_exit_root : Bytes
  pub blockhash_l1 : Bytes
  pub min_timestamp : ℕ
  pub smt_proof : List Bytes

-- The map of L1 data is a list of its entries. An address is its bytes; its text is sent.
pub record StatelessInputProver : Type 0 where
  pub witness : Bytes
  pub old_acc_input_hash : Bytes
  pub old_batch_num : ℕ
  pub chain_id : ℕ
  pub fork_id : ℕ
  pub batch_l2_data : Bytes
  pub l1_info_root : Bytes
  pub timestamp_limit : ℕ
  pub sequencer_addr : Bytes
  pub aggregator_addr : Bytes
  pub l1_info_tree_data : List (ℕ × L1Data)
  pub forced_blockhash_l1 : Bytes
