-- ===== src/Aggregator/Stream/Silent.antt =====
-- The reads of a saved batch touch no table.
use zkevm_aggregator.Prelude.{ℕ, zero, suc, ◌≡◌, Option, none, some, arith}
use zkevm_aggregator.Prelude.Result.{ok}
use zkevm_aggregator.State.{Bytes, DbBatch}
use zkevm_aggregator.State.Storage.{get_batch}
use zkevm_aggregator.Synchronizer.{
  L1Answer, answered, absent, broken, VirtualBatch, SequencedBatches,
}
use zkevm_aggregator.Aggregator.{Env, World, M, Try, done, failed, not_found}
use zkevm_aggregator.Aggregator.Calls.{get_db_batch}
use zkevm_aggregator.Aggregator.Quiet.{Quiet, quiet, Quiet-pure, Quiet-throw, Quiet-bind, Quiet-ask}
use zkevm_aggregator.Aggregator.Stream.Waits.{
  or_wait, sequence_or_wait, get_virtual_batch, get_sequence, l1_block_hash, witness_of,
  stored_witness,
}

module _ (env : Env) where
  Quiet-or_wait :
      (again : M VirtualBatch) (a : L1Answer VirtualBatch) → Quiet again → Quiet (or_wait again a)
  Quiet-or_wait again (answered v) h = Quiet-pure v
  Quiet-or_wait again absent h = h
  Quiet-or_wait again broken h = Quiet-throw _

  Quiet-sequence_or_wait :
      (again : M SequencedBatches) (a : L1Answer (Option SequencedBatches))
      → Quiet again
      → Quiet (sequence_or_wait again a)
  Quiet-sequence_or_wait again (answered (some s)) h = Quiet-pure s
  Quiet-sequence_or_wait again (answered none) h = h
  Quiet-sequence_or_wait again absent h = Quiet-throw _
  Quiet-sequence_or_wait again broken h = Quiet-throw _

  pub get_virtual_batch-Quiet : (rounds n : ℕ) → Quiet (get_virtual_batch env rounds n)
  unfolding get_virtual_batch
  get_virtual_batch-Quiet zero n = Quiet-throw _
  get_virtual_batch-Quiet (suc rounds) n =
      Quiet-bind _ _ (Quiet-ask env (λ k. env.l1.virtual_batch_by_batch_number k n))
        (λ a. Quiet-or_wait _ a (get_virtual_batch-Quiet rounds n))

  pub get_sequence-Quiet : (rounds n : ℕ) → Quiet (get_sequence env rounds n)
  unfolding get_sequence
  get_sequence-Quiet zero n = Quiet-throw _
  get_sequence-Quiet (suc rounds) n =
      Quiet-bind _ _ (Quiet-ask env (λ k. env.l1.sequence_by_batch_number k n))
        (λ a. Quiet-sequence_or_wait _ a (get_sequence-Quiet rounds n))

  Quiet-witness_of : (r : Try DbBatch) → Quiet (witness_of env r)
  Quiet-witness_of (done b) = Quiet-pure _
  Quiet-witness_of (failed not_found) = Quiet-pure _
  Quiet-witness_of (failed e) = Quiet-throw e

  pub stored_witness-Quiet : (n : ℕ) → Quiet (stored_witness env n)
  stored_witness-Quiet n = search (quiet, Quiet-witness_of)

  pub get_db_batch-Quiet : (n : ℕ) → Quiet (get_db_batch env n)
  get_db_batch-Quiet n = search (quiet)

  pub l1_block_hash-Quiet : (n : ℕ) → Quiet (l1_block_hash env n)
  l1_block_hash-Quiet n = search (quiet)

  pub get_db_batch_found :
      (n : ℕ) (w : World) (b : DbBatch)
      → (get_db_batch env n w).0 ≡ ok b
      → get_batch n w.db ≡ some b
  get_db_batch_found n w b e = ground arith

  pub stored_witness_found :
      (n : ℕ) (w : World) (b : DbBatch) (witness : Bytes)
      → (stored_witness env n w).0 ≡ ok witness
      → get_batch n w.db ≡ some b
      → witness ≡ b.witness
  stored_witness_found n w b witness e f = ground arith
