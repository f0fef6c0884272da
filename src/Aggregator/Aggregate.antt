-- ===== src/Aggregator/Aggregate.antt =====
-- aggregator.go, `tryAggregateProofs`: two adjacent proofs become one.
pub mod Covered
use zkevm_aggregator.Prelude.{
  ℕ, suc, ◌+◌, Bool, true, false, Option, none, some, if◌then◌else◌, [], ◌∷◌,
}
use zkevm_aggregator.Prelude.Result.{Result, ok, err, panic}
use zkevm_aggregator.State.{Bytes, Proof}
use zkevm_aggregator.Aggregator.{
  Err, not_found, db_failure, failure, Env, World, M, pure, throw, next_call, Try, done, failed,
  tried, attempt, or_throw, ◌>>=◌, ◌>>◌, continue,
}
use zkevm_aggregator.Aggregator.Calls.{
  pool, tx, ask, begin_state_transaction, commit, rollback, update_proof, add_proof, delete_proofs,
}
use zkevm_aggregator.Aggregator.Locks.{
  locked_at, unlocked, get_and_lock_proofs_to_aggregate, unlock_proofs_to_aggregate,
}
use zkevm_aggregator.Aggregator.Verify.{try_build_final_proof_of}

module _ (env : Env) where
  -- The proof over both ranges, before it has an id.
  abbrev pub aggregated : Proof → Proof → Bytes → Proof
  aggregated p1 p2 input = record {
    batch_number = p1.batch_number;
    batch_number_final = p2.batch_number_final;
    proof = [];
    input_prover = input;
    proof_id = none;
    prover = some env.prover_name;
    prover_id = some env.prover_id;
    generating_since = none;
    created_at = 0;
    updated_at = 0;
  }

  -- A failed statement of the transaction: roll back and report.
  abbrev pub or_rollback : M (Unit {0}) → M (Unit {0})
  or_rollback m = do
    r ← attempt m
    elim r [ done _ ↦ pure tt | failed _ ↦ do _ ← attempt (rollback env); throw failure ]

  -- The transaction that puts the new proof in the place of the two.
  unfoldable pub replace_proofs : Proof → Proof → Proof → M Proof
  replace_proofs p1 p2 proof = do
    begin_state_transaction env
    or_rollback (delete_proofs env tx p1.batch_number p2.batch_number_final)
    now ← ask env env.clock
    or_rollback (add_proof env tx (locked_at now proof))
    commit env
    pure (locked_at now proof)

  -- The part of `tryAggregateProofs` whose errors the deferred unlock sees.
  unfoldable pub aggregate_locked : Proof → Proof → M Proof
  aggregate_locked p1 p2 = do
    input ← or_throw failure (env.marshal_proofs p1.proof p2.proof)
    id ← ask env (λ n. env.aggregated_proof n p1.proof p2.proof) >>= or_throw failure
    (recursive, _) ← ask env (λ n. env.wait_recursive_proof n id) >>= or_throw failure
    replace_proofs p1 p2 (record (aggregated p1 p2 input) { proof_id = some id; proof = recursive })

  -- The rest: offer the new proof for verification, and unlock it if no final proof came of it.
  store_unlocked : Proof → M Bool
  store_unlocked proof = do
    r ← attempt (update_proof env pool (unlocked proof))
    elim r [ done _ ↦ pure true | failed _ ↦ throw failure ]

  after_offer : Try Bool × Proof → M Bool
  unfolding store_unlocked
  after_offer (done true, proof) = pure true
  after_offer (done false, proof) = store_unlocked proof
  after_offer (failed _, proof) = store_unlocked proof

  unfoldable pub offer_proof : Proof → M Bool
  unfolding after_offer
  offer_proof proof = try_build_final_proof_of env proof >>= after_offer

  after_aggregation : Proof → Proof → Try Proof → M Bool
  after_aggregation p1 p2 (done proof) = offer_proof proof
  after_aggregation p1 p2 (failed e) = do
    _ ← attempt (unlock_proofs_to_aggregate env p1 p2)
    throw e

  after_pair_lock : Try (Proof × Proof) → M Bool
  unfolding after_aggregation
  after_pair_lock (failed not_found) = pure false
  after_pair_lock (failed e) = throw e
  after_pair_lock (done (p1, p2)) = attempt (aggregate_locked p1 p2) >>= after_aggregation p1 p2

  unfoldable pub try_aggregate_proofs : M Bool
  unfolding after_pair_lock
  try_aggregate_proofs = attempt (get_and_lock_proofs_to_aggregate env) >>= after_pair_lock
