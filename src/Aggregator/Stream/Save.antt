-- ===== src/Aggregator/Stream/Save.antt =====
-- aggregator.go, `handleReceivedDataStream`: a batch is complete and is stored. The comparison with
-- L1's data is only logged.
use zkevm_aggregator.Prelude.{
  ℕ, ◌+◌, ◌-◌, ◌^◌, Bool, true, false, ◌||◌, some, [], ◌∷◌, ◌++◌, ◌==◌, if◌then◌else◌, replicate,
}
use zkevm_aggregator.State.{Bytes, Batch, BatchType, injected, invalid, DbBatch, u64}
use zkevm_aggregator.State.Storage.{add_batch}
use zkevm_aggregator.State.BatchV2.Tx.{encode_batch_v2}
use zkevm_aggregator.Ethereum.{Ethereum}
use zkevm_aggregator.Synchronizer.{VirtualBatch, SequencedBatches}
use zkevm_aggregator.Aggregator.{Env}
use zkevm_aggregator.Aggregator.Calls.{pool, exec, get_db_batch}
use zkevm_aggregator.Aggregator.BatchProof.Input.{unix, lift}
use zkevm_aggregator.Aggregator.Stream.{Stream, Handler, give, stream, modify, call, ◌>>=◌, ◌>>◌}
use zkevm_aggregator.Aggregator.Stream.AccInputHash.{calculate_acc_input_hash}
use zkevm_aggregator.Aggregator.Stream.Waits.{
  get_virtual_batch, get_sequence, l1_block_hash, stored_witness,
}

-- The batches whose data is not encoded from the stream.
abbrev pub is_from_l1 : BatchType → Bool
is_from_l1 invalid = true
is_from_l1 injected = true
is_from_l1 _ = false

abbrev pub set_sequence : SequencedBatches → Batch → Batch
set_sequence q b = record b { l1_info_root = q.l1_info_root; timestamp = q.timestamp }

module _ {Tx : Type 0} where
  abbrev pub set_batch : (Batch → Batch) → Stream Tx → Stream Tx
  set_batch f s = record s { current_stream_batch = f s.current_stream_batch }

  -- Only a batch without a witness is sent to the workers. The channel has no buffer: the sender waits
  -- until a worker receives, and goes on here as if one had. The list is what was sent and not yet
  -- turned to.
  abbrev pub request_witness : DbBatch → Stream Tx → Stream Tx
  request_witness b s = elim b.witness [
    | [] ↦ record s { witness_retrieval_chan = s.witness_retrieval_chan ++ (b ∷ []) }
    | _ ↦ s
  ]

module _ (env : Env) (eth : Ethereum) (rounds : ℕ) where
  unfoldable pub batch_data : VirtualBatch → Handler eth.Tx Bytes
  unfolding encode_batch_v2
  batch_data v = do
    s ← stream
    encoded ←
        if is_from_l1 s.current_stream_batch.batch_type
        then give []
        else call (lift (encode_batch_v2 eth (some s.current_stream_batch_raw)))
    give (
        if env.cfg.use_l1_batch_data || is_from_l1 s.current_stream_batch.batch_type
        then v.batch_l2_data
        else encoded)

  -- The first batch's hash is over its own exit root, and the hash of the block that has it.
  abbrev pub forced_hash : ℕ → VirtualBatch → Handler eth.Tx Bytes
  forced_hash n v =
      if n == 1
      then (do
        parent ← call (l1_block_hash env v.block_number)
        modify (set_batch (λ b. record b { l1_info_root = b.global_exit_root }))
        give parent)
      else give (replicate 32 0)

  unfoldable pub with_hash : Bytes → Bytes → Batch → Batch
  unfolding calculate_acc_input_hash
  with_hash old parent b = record b {
    acc_input_hash =
        calculate_acc_input_hash env.keccak old b.batch_l2_data b.l1_info_root
          (u64 (unix b.timestamp)) b.coinbase parent;
  }

  abbrev pub store_batch : ℕ → Handler eth.Tx (Unit {0})
  store_batch n = do
    witness ← call (stored_witness env n)
    s ← stream
    call (
        exec env pool (λ db. some (
          add_batch
            (record {
              batch = s.current_stream_batch;
              datastream = s.current_batch_stream_data;
              witness = witness;
            })
            db)))
    modify (
        request_witness (record {
          batch = s.current_stream_batch;
          datastream = s.current_batch_stream_data;
          witness = witness;
        }))

  -- What follows once the batch's sequence is known.
  unfoldable pub hash_batch : ℕ → VirtualBatch → Handler eth.Tx (Unit {0})
  unfolding with_hash
  hash_batch n v = do
    old ← call (get_db_batch env (u64 (n + (2 ^ 64 - 1))))
    parent ← forced_hash n v
    modify (set_batch (with_hash old.batch.acc_input_hash parent))
    store_batch n

  -- What follows once its data is known.
  unfoldable pub finish_batch : ℕ → VirtualBatch → Bytes → Handler eth.Tx (Unit {0})
  unfolding hash_batch get_sequence
  finish_batch n v l2_data = do
    modify (set_batch (λ b. record b { batch_l2_data = l2_data }))
    sequence ← call (get_sequence env rounds n)
    modify (set_batch (set_sequence sequence))
    hash_batch n v

  unfoldable pub save_batch : ℕ → Handler eth.Tx (Unit {0})
  unfolding batch_data get_virtual_batch finish_batch
  save_batch n = do
    v ← call (get_virtual_batch env rounds n)
    l2_data ← batch_data v
    finish_batch n v l2_data
