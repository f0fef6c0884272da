-- ===== src/Aggregator/Stream/Waits.antt =====
-- aggregator.go, `handleReceivedDataStream`: the loops that wait until L1 knows the batch, and the
-- reads after them. `rounds` is how many calls a loop makes at most.
use zkevm_aggregator.Prelude.{ℕ, zero, suc, Option, none, some, []}
use zkevm_aggregator.State.{Bytes, DbBatch}
use zkevm_aggregator.Synchronizer.{
  L1Answer, answered, absent, broken, VirtualBatch, SequencedBatches,
}
use zkevm_aggregator.Aggregator.{
  not_found, l1_not_found, eth_failure, out_of_fuel, Env, M, Try, done, failed, pure, throw,
  attempt, or_throw, ◌>>=◌,
}
use zkevm_aggregator.Aggregator.Calls.{ask, get_db_batch}

-- A virtual batch that is not there is waited for; another error is returned.
abbrev pub or_wait : M VirtualBatch → L1Answer VirtualBatch → M VirtualBatch
or_wait again (answered v) = pure v
or_wait again absent = again
or_wait again broken = throw eth_failure

-- A nil sequence is waited for; every error is returned.
abbrev pub sequence_or_wait :
    M SequencedBatches → L1Answer (Option SequencedBatches) → M SequencedBatches
sequence_or_wait again (answered (some s)) = pure s
sequence_or_wait again (answered none) = again
sequence_or_wait again absent = throw l1_not_found
sequence_or_wait again broken = throw eth_failure

module _ (env : Env) where
  unfoldable pub get_virtual_batch : ℕ → ℕ → M VirtualBatch
  get_virtual_batch zero n = throw out_of_fuel
  get_virtual_batch (suc rounds) n =
      ask env (λ k. env.l1.virtual_batch_by_batch_number k n)
      >>= or_wait (get_virtual_batch rounds n)

  unfoldable pub get_sequence : ℕ → ℕ → M SequencedBatches
  get_sequence zero n = throw out_of_fuel
  get_sequence (suc rounds) n =
      ask env (λ k. env.l1.sequence_by_batch_number k n)
      >>= sequence_or_wait (get_sequence rounds n)

  -- The hash of the injected batch's block, and zero for the others.
  abbrev pub l1_block_hash : ℕ → M Bytes
  l1_block_hash block = ask env (λ k. env.l1.l1_block_by_number k block) >>= or_throw eth_failure

  -- The witness that the batch's row has, if it is there.
  abbrev pub witness_of : Try DbBatch → M Bytes
  witness_of (done b) = pure b.witness
  witness_of (failed not_found) = pure []
  witness_of (failed e) = throw e

  abbrev pub stored_witness : ℕ → M Bytes
  stored_witness n = attempt (get_db_batch env n) >>= witness_of
