-- ===== src/Aggregator/BatchProof.antt =====
-- aggregator.go: the proof of one batch, `getAndLockBatchToProve` and `tryGenerateBatchProof`.
pub mod Input
pub mod Search
pub mod Locked
pub mod Silent
pub mod Proofs
pub mod Own
pub mod Covered
use zkevm_aggregator.Prelude.{
  ℕ, zero, suc, ◌+◌, Bool, true, false, not, ◌&&◌, Option, none, some, List, [], ◌∷◌, ltb, leb,
  ◌==◌, if◌then◌else◌, replicate,
}
use zkevm_aggregator.Prelude.Result.{Result, ok, err, panic}
use zkevm_aggregator.State.{Bytes, Batch, Sequence, Proof, DbBatch, u64}
use zkevm_aggregator.State.Storage.{Db, check_proof_exists_for_batch, add_sequence}
use zkevm_aggregator.Ethereum.{Ethereum}
use zkevm_aggregator.Profitability.{is_profitable}
use zkevm_aggregator.Synchronizer.{L1Answer, answered, absent, broken, SequencedBatches}
use zkevm_aggregator.Aggregator.{
  Err, not_found, l1_not_found, eth_failure, failure, hangs, out_of_fuel, Env, World, M, pure,
  throw, crash, next_call, Try, done, failed, tried, attempt, or_throw, ◌>>=◌, ◌>>◌, continue,
}
use zkevm_aggregator.Aggregator.Calls.{
  pool, ask, query, exec, add_proof, delete_proofs, get_latest_verified_batch_num, get_db_batch,
}
use zkevm_aggregator.Aggregator.Locks.{locked_at}
use zkevm_aggregator.Aggregator.Verify.{byte_eq}
use zkevm_aggregator.Aggregator.Aggregate.{offer_proof}
use zkevm_aggregator.Aggregator.BatchProof.Input.{build_input_prover}

-- The greatest last batch of a row.
abbrev pub greatest : List Proof → ℕ
greatest [] = 0
greatest (p ∷ ps) =
    let n = greatest ps in if ltb n p.batch_number_final then p.batch_number_final else n

abbrev pub zero_hash : Bytes
zero_hash = replicate 32 0

module _ (env : Env) where
  abbrev pub after_check : M ℕ → ℕ → Bool → M ℕ
  after_check again n true = again
  after_check again n false = pure n

  -- The search from the batch after `n` on.
  unfoldable pub next_unproved : ℕ → ℕ → M ℕ
  next_unproved zero n = throw out_of_fuel
  next_unproved (suc fuel) n =
      query env pool (check_proof_exists_for_batch (u64 (n + 1)))
      >>= after_check (next_unproved fuel (u64 (n + 1))) (u64 (n + 1))

  -- No row reaches past the greatest last batch, so that this is fuel enough.
  unfoldable pub find_unproved : ℕ → M ℕ
  unfolding next_unproved
  find_unproved last w = next_unproved (suc (suc (greatest w.db.proofs))) last w

  abbrev pub sequence_of : L1Answer (Option SequencedBatches) → M Sequence
  sequence_of (answered (some s)) =
      pure (record { from_batch_number = s.from_batch_number; to_batch_number = s.to_batch_number })
  sequence_of (answered none) = throw not_found
  sequence_of absent = throw not_found
  sequence_of broken = throw eth_failure

  abbrev pub check_witness : Bytes → M (Unit {0})
  check_witness [] = throw not_found
  check_witness (b ∷ bs) = pure tt

  abbrev pub new_batch_proof : ℕ → ℕ → Proof
  new_batch_proof n now = record {
    batch_number = n;
    batch_number_final = n;
    proof = [];
    input_prover = [];
    proof_id = none;
    prover = some env.prover_name;
    prover_id = some env.prover_id;
    generating_since = some now;
    created_at = 0;
    updated_at = 0;
  }

  -- `none` is the return of four nils where the batch is not profitable.
  abbrev pub lock_batch : DbBatch → Bool → M (Option (Batch × Bytes × Proof))
  lock_batch b false = pure none
  lock_batch b true = do
    now ← ask env env.clock
    add_proof env pool (new_batch_proof b.batch.batch_number now)
    pure (some (b.batch, b.witness, new_batch_proof b.batch.batch_number now))

  -- What stands between the batch's number and its lock.
  abbrev pub ready_batch : ℕ → M DbBatch
  ready_batch n = do
    sequence ← ask env (λ k. env.l1.sequence_by_batch_number k n) >>= sequence_of
    b ← get_db_batch env n
    check_witness b.witness
    exec env pool (add_sequence sequence)
    pure b

  unfoldable pub get_and_lock_batch_to_prove : M (Option (Batch × Bytes × Proof))
  unfolding find_unproved is_profitable
  get_and_lock_batch_to_prove = do
    last ← get_latest_verified_batch_num env
    n ← find_unproved last
    b ← ready_batch n
    lock_batch b (is_profitable env.cfg.profitability_checker 0)

  -- A root that differs from the batch's sends the code into a loop without an end.
  abbrev pub sanity_check : Bytes → Bytes → M (Unit {0})
  unfolding byte_eq
  sanity_check root expected =
      if env.cfg.batch_proof_sanity_check_enabled
        && (not (byte_eq root zero_hash) && not (byte_eq root expected))
      then throw hangs
      else pure tt

  -- The part whose errors the deferred function sees.
  unfoldable pub prove_batch : Ethereum → Batch → Bytes → Proof → M Proof
  unfolding build_input_prover sanity_check
  prove_batch eth batch witness proof = do
    input ← build_input_prover env eth batch witness
    id ← ask env (λ k. env.batch_proof k input) >>= or_throw failure
    (result, root) ← ask env (λ k. env.wait_recursive_proof k id) >>= or_throw failure
    sanity_check root batch.state_root
    pure (record proof { proof_id = some id; proof = result })

  abbrev pub after_proving : Proof → Try Proof → M Bool
  unfolding offer_proof
  after_proving p (done proof) = offer_proof env proof
  after_proving p (failed hangs) = throw hangs
  after_proving p (failed e) = do
    _ ← attempt (delete_proofs env pool p.batch_number p.batch_number_final)
    throw e

  -- Nothing to prove is no error. Four nils are taken for a batch, and the nil pointer is followed.
  abbrev pub after_batch_lock : Ethereum → Try (Option (Batch × Bytes × Proof)) → M Bool
  unfolding prove_batch after_proving
  after_batch_lock eth (failed not_found) = pure false
  after_batch_lock eth (failed l1_not_found) = pure false
  after_batch_lock eth (failed e) = throw e
  after_batch_lock eth (done none) = crash
  after_batch_lock eth (done (some (batch, witness, proof))) =
      attempt (prove_batch eth batch witness proof) >>= after_proving proof

  unfoldable pub try_generate_batch_proof : Ethereum → M Bool
  unfolding get_and_lock_batch_to_prove after_batch_lock
  try_generate_batch_proof eth = attempt get_and_lock_batch_to_prove >>= after_batch_lock eth
