-- ===== src/Aggregator/Locks/Atomic.antt =====
-- The locks are taken both or neither, and no proof is handed to two provers.
use zkevm_aggregator.Prelude.{
  ℕ, ◌+◌, ◌<◌, ◌^◌, ◌≡◌, subst, inl, inr, none, some, arith, Option-cases,
}
use zkevm_aggregator.Prelude.Result.{Result, ok, err, panic}
use zkevm_aggregator.State.{Proof}
use zkevm_aggregator.State.Storage.{
  update_generated_proof, get_proof_ready_to_verify, get_proofs_to_aggregate,
}
use zkevm_aggregator.State.Storage.Select.{
  AggregateAnswer, get_proofs_to_aggregate_lem, ReadyAnswer, get_proof_ready_to_verify_lem,
}
use zkevm_aggregator.Aggregator.{Err, Env, World}
use zkevm_aggregator.Aggregator.Locks.{
  unlocked, get_and_lock_proof_ready_to_verify, unlock_proofs_to_aggregate,
  get_and_lock_proofs_to_aggregate,
}

-- Locking a pair: what is returned are the two rows that the query found, locked at one time, and
-- these are the rows updated; on an error the tables are as before, and no call panics.
abbrev pub PairLock : Env → World → Result Err (Proof × Proof) → World → Type 0
PairLock env w (ok (q1, q2)) w' =
    (get_proofs_to_aggregate w.db
      ≡ some (record q1 { generating_since = none }, record q2 { generating_since = none }))
    × (q1.generating_since ≡ some (env.clock (w.calls + 2)))
    × (q2.generating_since ≡ some (env.clock (w.calls + 2)))
    × (w'.db
        ≡ update_generated_proof (env.clock (w.calls + 5)) q2
            (update_generated_proof (env.clock (w.calls + 3)) q1 w.db))
PairLock env w (err _) w' = w'.db ≡ w.db
PairLock env w panic w' = ⊥

lock_found :
    (env : Env) (w : World) (p1 p2 : Proof)
    → get_proofs_to_aggregate w.db ≡ some (p1, p2)
    → p1.generating_since ≡ none
    → p2.generating_since ≡ none
    → let (r, w') = get_and_lock_proofs_to_aggregate env w in PairLock env w r w'
unfolding get_and_lock_proofs_to_aggregate
lock_found env w p1 p2 e i1 i2 = ground arith

lock_not_found :
    (env : Env) (w : World)
    → get_proofs_to_aggregate w.db ≡ none
    → let (r, w') = get_and_lock_proofs_to_aggregate env w in PairLock env w r w'
unfolding get_and_lock_proofs_to_aggregate
lock_not_found env w e = ground arith

-- `getAndLockProofsToAggregate` returns the two rows that the query finds, locked at one time, and
-- has updated both in the tables, or it fails and the tables are as they were; it never panics.
pub get_and_lock_proofs_to_aggregate_atomic :
    (env : Env) (w : World)
    → let (r, w') = get_and_lock_proofs_to_aggregate env w in PairLock env w r w'
get_and_lock_proofs_to_aggregate_atomic env w = elim (Option-cases (get_proofs_to_aggregate w.db)) [
  | inl e ↦ lock_not_found env w e
  | inr ((p1, p2), e) ↦
      let (_, _, pair, _) = subst (AggregateAnswer w.db) e (get_proofs_to_aggregate_lem w.db) in
      lock_found env w p1 p2 e pair.idle1 pair.idle2
]

-- Unlocking a pair, likewise.
abbrev pub PairUnlock : Env → Proof → Proof → World → Result Err (Unit {0}) → World → Type 0
PairUnlock env p1 p2 w (ok _) w' =
    w'.db
    ≡ update_generated_proof (env.clock (w.calls + 3)) (unlocked p2)
        (update_generated_proof (env.clock (w.calls + 1)) (unlocked p1) w.db)
PairUnlock env p1 p2 w (err _) w' = w'.db ≡ w.db
PairUnlock env p1 p2 w panic w' = ⊥

-- `unlockProofsToAggregate` updates both rows to be idle, or it fails and the tables are as they were;
-- it never panics.
pub unlock_proofs_to_aggregate_atomic :
    (env : Env) (p1 p2 : Proof) (w : World)
    → let (r, w') = unlock_proofs_to_aggregate env p1 p2 w in PairUnlock env p1 p2 w r w'
unfolding unlock_proofs_to_aggregate
unlock_proofs_to_aggregate_atomic env p1 p2 w = ground arith

-- Locking the proof to verify.
abbrev pub ReadyLock : Env → ℕ → World → Result Err Proof → World → Type 0
ReadyLock env last w (ok p) w' =
    (get_proof_ready_to_verify last w.db ≡ some (record p { generating_since = none }))
    × (p.generating_since ≡ some (env.clock (w.calls + 1)))
    × (w'.db ≡ update_generated_proof (env.clock (w.calls + 2)) p w.db)
ReadyLock env last w (err _) w' = w'.db ≡ w.db
ReadyLock env last w panic w' = ⊥

ready_found :
    (env : Env) (last : ℕ) (w : World) (q : Proof)
    → get_proof_ready_to_verify last w.db ≡ some q
    → q.generating_since ≡ none
    → let (r, w') = get_and_lock_proof_ready_to_verify env last w in ReadyLock env last w r w'
unfolding get_and_lock_proof_ready_to_verify
ready_found env last w q e i = ground arith

ready_not_found :
    (env : Env) (last : ℕ) (w : World)
    → get_proof_ready_to_verify last w.db ≡ none
    → let (r, w') = get_and_lock_proof_ready_to_verify env last w in ReadyLock env last w r w'
unfolding get_and_lock_proof_ready_to_verify
ready_not_found env last w e = ground arith

-- `getAndLockProofReadyToVerify` returns the row that the query finds, locked, and has updated it in
-- the table, or it fails and the tables are as they were; it never panics. The batch after the last
-- verified one is below 2^64.
pub get_and_lock_proof_ready_to_verify_atomic :
    (env : Env) (last : ℕ) (w : World)
    → last + 1 < 2 ^ 64
    → let (r, w') = get_and_lock_proof_ready_to_verify env last w in ReadyLock env last w r w'
get_and_lock_proof_ready_to_verify_atomic env last w h =
    elim (Option-cases (get_proof_ready_to_verify last w.db)) [
      | inl e ↦ ready_not_found env last w e
      | inr (q, e) ↦
          let (_, ready) =
            subst (ReadyAnswer w.db last) e (get_proof_ready_to_verify_lem w.db last h) in
          ready_found env last w q e ready.idle
    ]
