-- ===== src/Aggregator/Locks.antt =====
-- aggregator.go: taking proofs out of the pool for a prover and giving them back. A row with
-- `generating_since` set is locked. The mutex `stateDBMutex` is held from the query to the update in
-- the two functions that lock, so no other step comes between them.
pub mod Atomic
pub mod Exclusive
use zkevm_aggregator.Prelude.{ℕ, suc, ◌+◌, Bool, true, false, Option, none, some, if◌then◌else◌}
use zkevm_aggregator.Prelude.Result.{Result, ok, err, panic}
use zkevm_aggregator.State.{Proof}
use zkevm_aggregator.State.Storage.{Db, get_proof_ready_to_verify, get_proofs_to_aggregate}
use zkevm_aggregator.Aggregator.{
  Err, not_found, db_failure, failure, Env, World, M, pure, throw, next_call, Try, done, failed,
  tried, attempt, or_throw, ◌>>=◌, ◌>>◌, continue,
}
use zkevm_aggregator.Aggregator.Calls.{
  pool, tx, ask, query, exec, begin_state_transaction, commit, rollback, update_proof,
}

abbrev pub locked_at : ℕ → Proof → Proof
locked_at now p = record p { generating_since = some now }

abbrev pub unlocked : Proof → Proof
unlocked p = record p { generating_since = none }

module _ (env : Env) where
  unfoldable pub get_and_lock_proof_ready_to_verify : ℕ → M Proof
  get_and_lock_proof_ready_to_verify last = do
    proof ← query env pool (get_proof_ready_to_verify last) >>= or_throw not_found
    now ← ask env env.clock
    update_proof env pool (locked_at now proof)
    pure (locked_at now proof)

  -- What both transactions do with the two updates' outcome.
  end_transaction : Try (Unit {0}) → M (Unit {0})
  end_transaction (done _) = do
    r ← attempt (commit env)
    elim r [ done _ ↦ pure tt | failed _ ↦ throw failure ]
  end_transaction (failed _) = do _ ← attempt (rollback env); throw failure

  unfoldable pub unlock_proofs_to_aggregate : Proof → Proof → M (Unit {0})
  unfolding end_transaction
  unlock_proofs_to_aggregate p1 p2 = do
    begin_state_transaction env
    r ← attempt (do update_proof env tx (unlocked p1); update_proof env tx (unlocked p2))
    end_transaction r

  unfoldable pub get_and_lock_proofs_to_aggregate : M (Proof × Proof)
  unfolding end_transaction
  get_and_lock_proofs_to_aggregate = do
    (proof1, proof2) ← query env pool get_proofs_to_aggregate >>= or_throw not_found
    begin_state_transaction env
    now ← ask env env.clock
    r ←
        attempt (do
          update_proof env tx (locked_at now proof1)
          update_proof env tx (locked_at now proof2))
    end_transaction r
    pure (locked_at now proof1, locked_at now proof2)
