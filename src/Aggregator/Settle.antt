-- ===== src/Aggregator/Settle.antt =====
-- aggregator.go: `sendFinalProof`, one turn of its loop for one message, with both ways to settle.
pub mod Released
use zkevm_aggregator.Prelude.{
  ℕ, ◌+◌, ◌-◌, ◌^◌, ◌%◌, Bool, true, false, Option, none, some, if◌then◌else◌,
}
use zkevm_aggregator.Prelude.Result.{Result, ok, err, panic}
use zkevm_aggregator.State.{Bytes, Proof, DbBatch, u64}
use zkevm_aggregator.Hex.{trim_prefix_0x, hex_to_bytes}
use zkevm_aggregator.Aggregator.{
  Err, failure, eth_failure, AggLayerTx, FinalProof, FinalProofMsg, Env, World, M, pure, throw,
  crash, next_call, Try, done, failed, tried, attempt, or_throw, ◌>>=◌, ◌>>◌, continue,
}
use zkevm_aggregator.Aggregator.Calls.{pool, ask, update_proof, get_db_batch}
use zkevm_aggregator.Aggregator.Locks.{unlocked}
use zkevm_aggregator.Aggregator.Verify.{
  start_proof_verification, end_proof_verification, reset_verify_proof_time,
}

-- `proof.BatchNumber-1` in uint64.
abbrev pub before_u64 : ℕ → ℕ
before_u64 n = u64 (n + (2 ^ 64 - 1))

module _ (env : Env) where
  -- `handleFailureToAddVerifyBatchToBeMonitored`.
  unfoldable pub handle_failure_to_add_verify_batch_to_be_monitored : Proof → M (Unit {0})
  unfolding end_proof_verification
  handle_failure_to_add_verify_batch_to_be_monitored proof = do
    _ ← attempt (update_proof env pool (unlocked proof))
    end_proof_verification env

  abbrev pub unless_failed : Proof → Try (Unit {0}) → M Bool
  unfolding handle_failure_to_add_verify_batch_to_be_monitored
  unless_failed proof (done _) = pure true
  unless_failed proof (failed _) = do
    handle_failure_to_add_verify_batch_to_be_monitored proof
    pure false

  -- `handleMonitoredTxResult` ends the program on a failed transaction.
  abbrev pub process_pending_monitored_txs : M (Unit {0})
  process_pending_monitored_txs w =
      if env.settlement.has_failed_tx w.calls then (panic, next_call w) else (ok tt, next_call w)

  abbrev pub succeeds : Bool → M (Unit {0})
  succeeds true = pure tt
  succeeds false = throw failure

  abbrev pub add_verification : Proof → FinalProof → DbBatch → M (Unit {0})
  add_verification proof final b = do
    tx_data ←
        ask env (λ k.
          env.settlement.build_trusted_verify_batches_tx_data k (before_u64 proof.batch_number)
            proof.batch_number_final final b.batch.local_exit_root b.batch.state_root)
        >>= or_throw eth_failure
    ask env (λ k. env.settlement.add_monitored_tx k tx_data) >>= succeeds

  abbrev pub after_add : Try (Unit {0}) → Proof → M Bool
  unfolding unless_failed
  after_add (done _) proof = do process_pending_monitored_txs; pure true
  after_add (failed e) proof = unless_failed proof (failed e)

  unfoldable pub settle_direct : Proof → FinalProof → DbBatch → M Bool
  unfolding after_add
  settle_direct proof final b = attempt (add_verification proof final b) >>= λ r. after_add r proof

  abbrev pub agg_layer_tx : Proof → FinalProof → DbBatch → AggLayerTx
  agg_layer_tx proof final b = record {
    last_verified_batch = before_u64 proof.batch_number;
    new_verified_batch = proof.batch_number_final;
    new_state_root = b.batch.state_root;
    new_local_exit_root = b.batch.local_exit_root;
    proof = hex_to_bytes (trim_prefix_0x final.proof);
    rollup_id = env.settlement.rollup_id;
  }

  abbrev pub sign_and_send : AggLayerTx → M (Unit {0})
  sign_and_send tx = do
    signed ← or_throw failure (env.settlement.sign tx)
    tx_hash ← ask env (λ k. env.settlement.send_tx k signed) >>= or_throw failure
    ask env (λ k. env.settlement.wait_tx_to_be_mined k tx_hash) >>= succeeds

  unfoldable pub settle_with_agg_layer : Proof → FinalProof → DbBatch → M Bool
  unfolding unless_failed
  settle_with_agg_layer proof final b =
      attempt (sign_and_send (agg_layer_tx proof final b)) >>= unless_failed proof

  abbrev pub settle : Proof → FinalProof → DbBatch → M Bool
  unfolding settle_direct settle_with_agg_layer
  settle proof final b =
      if env.cfg.agg_layer_settlement
      then settle_with_agg_layer proof final b
      else settle_direct proof final b

  abbrev pub after_settling : Bool → M (Unit {0})
  unfolding reset_verify_proof_time end_proof_verification
  after_settling true = do reset_verify_proof_time env; end_proof_verification env
  after_settling false = pure tt

  abbrev pub after_batch : FinalProofMsg → Try DbBatch → M (Unit {0})
  unfolding settle after_settling end_proof_verification
  after_batch msg (done b) = settle msg.recursive_proof msg.final_proof b >>= after_settling
  after_batch msg (failed _) = end_proof_verification env

  unfoldable pub send_final_proof : FinalProofMsg → M (Unit {0})
  unfolding start_proof_verification after_batch
  send_final_proof msg = do
    start_proof_verification env
    attempt (get_db_batch env msg.recursive_proof.batch_number_final) >>= after_batch msg
