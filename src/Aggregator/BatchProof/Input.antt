-- ===== src/Aggregator/BatchProof/Input.antt =====
-- aggregator.go, `buildInputProver`: the public inputs of a batch proof, with the L1 data that its
-- blocks refer to and a Merkle proof for each.
use zkevm_aggregator.Prelude.{
  ℕ, ◌+◌, ◌-◌, ◌^◌, ◌%◌, ◌/◌, Bool, true, false, ◌||◌, none, some, List, [], ◌∷◌, ◌++◌, map, ◌==◌,
  if◌then◌else◌, any, replicate,
}
use zkevm_aggregator.Prelude.Result.{Result, ok, err, panic}
use zkevm_aggregator.State.{Bytes, Batch, DbBatch, u64}
use zkevm_aggregator.State.BatchV2.{L2BlockRaw}
use zkevm_aggregator.State.BatchV2.Tx.{decode_batch_v2}
use zkevm_aggregator.Ethereum.{Ethereum}
use zkevm_aggregator.L1InfoTree.{hash_leaf_data, new_l1_info_tree, compute_merkle_proof}
use zkevm_aggregator.Synchronizer.{L1Answer, answered, absent, broken, L1InfoTreeLeaf, VirtualBatch}
use zkevm_aggregator.Prover.Input.{L1Data, StatelessInputProver}
use zkevm_aggregator.Aggregator.{
  eth_failure, failure, l1_not_found, Env, M, pure, throw, crash, or_throw, ◌>>=◌, ◌>>◌,
}
use zkevm_aggregator.Aggregator.Calls.{ask, get_db_batch}
use zkevm_aggregator.Aggregator.Verify.{byte_eq}

-- `uint64(t.Unix())` of a time in microseconds since the first day of the year 1, Go's zero time.
abbrev pub unix : ℕ → ℕ
unix t = u64 (t / 1000000 + (2 ^ 64 - 62135596800))

-- A result of code that touches no state.
abbrev pub lift : {A E : Type 0} → Result E A → M A
lift (ok a) = pure a
lift (err _) = throw failure
lift panic = crash

-- `GetLeafsByL1InfoRoot`: not found is no leaves.
abbrev pub leafs_of : L1Answer (List L1InfoTreeLeaf) → M (List L1InfoTreeLeaf)
leafs_of (answered ls) = pure ls
leafs_of absent = pure []
leafs_of broken = throw eth_failure

abbrev pub virtual_of : L1Answer VirtualBatch → M VirtualBatch
virtual_of (answered v) = pure v
virtual_of absent = throw l1_not_found
virtual_of broken = throw eth_failure

abbrev pub block_indices : {A : Type 0} → List (L2BlockRaw A) → List ℕ
block_indices [] = []
block_indices (b ∷ bs) = b.header.index_l1_info_tree ∷ block_indices bs

abbrev pub contained : ℕ → List (ℕ × L1Data) → Bool
contained i entries = any (λ e. e.0 == i) entries

module _ (env : Env) where
  abbrev pub hashed_leaf : L1InfoTreeLeaf → Bytes
  unfolding hash_leaf_data
  hashed_leaf l =
      hash_leaf_data env.keccak l.global_exit_root l.previous_block_hash (u64 (unix l.timestamp))

  abbrev pub l1_data : L1InfoTreeLeaf → List Bytes → L1Data
  l1_data l siblings = record {
    global_exit_root = l.global_exit_root;
    blockhash_l1 = l.previous_block_hash;
    min_timestamp = unix l.timestamp % 2 ^ 32;
    smt_proof = siblings;
  }

  unfoldable pub check_root : Bytes → Bytes → M (Unit {0})
  unfolding byte_eq
  check_root expected root = if byte_eq expected root then pure tt else throw failure

  -- The data of one index, with its proof against the batch's root.
  unfoldable pub entry_for : ℕ → Bytes → List Bytes → ℕ → M (ℕ × L1Data)
  unfolding check_root
  entry_for height root leaves i = do
    leaf ← ask env (λ k. env.l1.l1_info_tree_leaf k i) >>= or_throw eth_failure
    (siblings, computed) ← lift (compute_merkle_proof env.keccak height i leaves)
    check_root root computed
    pure (i, l1_data leaf siblings)

  -- The loop over the blocks: an index is looked up once, and index 0 never.
  unfoldable pub entries_for :
      ℕ → Bytes → List Bytes → List ℕ → List (ℕ × L1Data) → M (List (ℕ × L1Data))
  unfolding entry_for
  entries_for height root leaves [] entries = pure entries
  entries_for height root leaves (i ∷ is) entries =
      if contained i entries || i == 0
      then entries_for height root leaves is entries
      else (entry_for height root leaves i >>= λ e.
          entries_for height root leaves is (entries ++ (e ∷ [])))

  -- A regular batch: the blocks' L1 data, the batch's own root, and no forced block.
  unfoldable pub regular_data : Ethereum → Batch → M (List (ℕ × L1Data) × Bytes × Bytes)
  unfolding decode_batch_v2 entries_for
  regular_data eth batch = do
    blocks ← lift (decode_batch_v2 eth batch.batch_l2_data)
    tree ← lift (new_l1_info_tree env.keccak 32 [])
    leaves ← ask env (λ k. env.l1.leafs_by_l1_info_root k batch.l1_info_root) >>= leafs_of
    entries ←
        entries_for tree.height batch.l1_info_root (map hashed_leaf leaves) (block_indices blocks)
          []
    pure (entries, batch.l1_info_root, replicate 32 0)

  -- Batch 1, and a forced batch.
  unfoldable pub forced_data : Batch → M (List (ℕ × L1Data) × Bytes × Bytes)
  forced_data batch =
      if batch.batch_number == 1
      then (do
        v ← ask env (λ k. env.l1.virtual_batch_by_batch_number k batch.batch_number) >>= virtual_of
        parent ← ask env (λ k. env.l1.l1_block_by_number k v.block_number) >>= or_throw eth_failure
        pure ([], batch.global_exit_root, parent))
      else pure ([], batch.l1_info_root, replicate 32 0)

  abbrev pub is_forced_batch : Batch → Bool
  is_forced_batch batch =
      batch.batch_number == 1 || (elim batch.forced_batch_num [ none ↦ false | some _ ↦ true ])

  abbrev pub input_prover :
      Ethereum → Batch → Bytes → DbBatch → List (ℕ × L1Data) × Bytes × Bytes → StatelessInputProver
  input_prover eth batch witness old (entries, root, forced) = record {
    witness = witness;
    old_acc_input_hash = old.batch.acc_input_hash;
    old_batch_num = u64 (batch.batch_number + (2 ^ 64 - 1));
    chain_id = batch.chain_id;
    fork_id = batch.fork_id;
    batch_l2_data = batch.batch_l2_data;
    l1_info_root = root;
    timestamp_limit = u64 (unix batch.timestamp);
    sequencer_addr = eth.address_string batch.coinbase;
    aggregator_addr = env.cfg.sender_address;
    l1_info_tree_data = entries;
    forced_blockhash_l1 = forced;
  }

  unfoldable pub build_input_prover : Ethereum → Batch → Bytes → M StatelessInputProver
  unfolding regular_data forced_data
  build_input_prover eth batch witness = do
    input ← if is_forced_batch batch then forced_data batch else regular_data eth batch
    old ← get_db_batch env (u64 (batch.batch_number + (2 ^ 64 - 1)))
    pure (input_prover eth batch witness old input)
