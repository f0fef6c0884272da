-- ===== src/Aggregator/Verify/Eligible.antt =====
-- Which proofs are eligible, and what checking and building leaves alone.
use zkevm_aggregator.Prelude.{ℕ, ◌<◌, ◌^◌, ◌≡◌, refl, Bool, true, false, some, arith}
use zkevm_aggregator.Prelude.Result.{ok}
use zkevm_aggregator.State.{Proof}
use zkevm_aggregator.State.Storage.{Db, check_proof_exists_for_batch}
use zkevm_aggregator.State.Storage.Coverage.{covered-delete_outside, covered-update}
use zkevm_aggregator.Aggregator.{
  not_found, pure, ◌>>=◌, eth_failure, Env, World, attempt, FinalProof, Try, done, failed,
}
use zkevm_aggregator.Aggregator.Keeps.{
  Keeps, Keeps-bind, Keeps-bind_of, Keeps-pure, Keeps-ask, Keeps-attempt, Keeps-or_throw,
  Keeps-update_proof, keeps,
}
use zkevm_aggregator.Aggregator.Calls.{get_latest_verified_batch_num, update_proof, pool}
use zkevm_aggregator.Aggregator.Locks.{unlocked, get_and_lock_proof_ready_to_verify}
use zkevm_aggregator.Aggregator.Verify.{
  can_verify_proof, validate_eligible_final_proof, unmocked, build_final_proof, build_and_send,
  verify_own, own_after, verify_stored, stored_after, try_build_final_proof,
  try_build_final_proof_of,
}

module _ {X : Type 0} (obs : Db → X) (env : Env) where
  unmocked-Keeps : (f : FinalProof) (last : ℕ) → Keeps obs (unmocked env f last)
  unfolding unmocked
  unmocked-Keeps f last = record { run = λ w. ground arith }

  build_final_proof-Keeps : (p : Proof) → Keeps obs (build_final_proof env p)
  unfolding build_final_proof
  build_final_proof-Keeps p = record { run = λ w. ground arith }

  build_and_send-Keeps : (p : Proof) → Keeps obs (build_and_send env p)
  unfolding build_and_send
  build_and_send-Keeps p = record { run = λ w. ground arith }

module _ (env : Env) (n : ℕ) where
  update-Keeps : (p : Proof) → Keeps (check_proof_exists_for_batch n) (update_proof env pool p)
  update-Keeps p = Keeps-update_proof _ env p (λ now db. covered-update n now p db)

  lock-Keeps :
      (last : ℕ)
      → Keeps (check_proof_exists_for_batch n) (get_and_lock_proof_ready_to_verify env last)
  unfolding get_and_lock_proof_ready_to_verify
  lock-Keeps last = search (keeps, update-Keeps)

  unlock_if-Keeps :
      (result : Try Bool) (p : Proof) (broken : Bool)
      → Keeps (check_proof_exists_for_batch n) (elim broken [
        | false ↦ pure result
        | true ↦ do _ ← attempt (update_proof env pool (unlocked p)); pure result
      ])
  unlock_if-Keeps result p false = Keeps-pure _ result
  unlock_if-Keeps result p true =
      Keeps-bind _ _ _ (Keeps-attempt _ _ (update-Keeps (unlocked p))) (λ _. Keeps-pure _ result)

  stored_after-Keeps : (a : Try ℕ) → Keeps (check_proof_exists_for_batch n) (stored_after env a)
  unfolding stored_after verify_stored
  stored_after-Keeps (failed e) = Keeps-pure _ _
  stored_after-Keeps (done last) = Keeps-bind _ _ _ (Keeps-attempt _ _ (lock-Keeps last)) (elim [
    | failed not_found ↦ Keeps-pure _ (done false)
    | failed e ↦ Keeps-pure _ (failed e)
    | done p ↦
        Keeps-bind _ _ _ (build_and_send-Keeps _ env p)
          (λ (result, q, broken). unlock_if-Keeps result q broken)
  ])

  -- Offering a stored proof for verification leaves every batch proved or unproved as it was.
  pub try_build_final_proof-Keeps :
      Keeps (check_proof_exists_for_batch n) (try_build_final_proof env)
  unfolding try_build_final_proof
  try_build_final_proof-Keeps =
      Keeps-bind _ (can_verify_proof env) _ (record { run = λ w. unfold can_verify_proof in refl })
        (elim [
          | false ↦ Keeps-pure _ _
          | true ↦
              Keeps-bind _ _ _
                (Keeps-attempt _ _ (
                  Keeps-bind _ _ _ (Keeps-ask _ env env.latest_verified_batch)
                    (Keeps-or_throw _ eth_failure)))
                stored_after-Keeps
        ])

-- The tables' answer to whether batch `n` has a proof.
module _ (env : Env) (n : ℕ) where
  abbrev covered : Db → Bool
  covered = check_proof_exists_for_batch n

  validate-Keeps :
      (p : Proof) (last : ℕ)
      → last < n
      → n < 2 ^ 64
      → Keeps covered (validate_eligible_final_proof env p last)
  unfolding validate_eligible_final_proof
  validate-Keeps p last h k = record {
    run = λ w. ground (arith, covered-delete_outside n p.batch_number p.batch_number_final w.db);
  }

  verify_own-Keeps :
      (last : ℕ) (p : Proof) → last < n → n < 2 ^ 64 → Keeps covered (verify_own env last p)
  unfolding verify_own
  verify_own-Keeps last p h k =
      Keeps-bind covered _ _ (Keeps-attempt covered _ (validate-Keeps p last h k)) (elim [
        | failed _ ↦ Keeps-pure covered _
        | done false ↦ Keeps-pure covered _
        | done true ↦
            Keeps-bind covered _ _ (build_and_send-Keeps covered env p) (λ r. Keeps-pure covered _)
      ])

  -- `n` lies above every answer to "which batch is verified".
  module _ (above : (k v : ℕ) → env.latest_verified_batch k ≡ some v → v < n)
      (fits : n < 2 ^ 64) where
    latest-Keeps : Keeps covered (get_latest_verified_batch_num env)
    latest-Keeps =
        Keeps-bind covered _ _ (Keeps-ask covered env env.latest_verified_batch)
          (Keeps-or_throw covered eth_failure)

    -- The batch that `GetLatestVerifiedBatchNum` returns.
    latest_below :
        (w : World) (v : ℕ)
        → (attempt (get_latest_verified_batch_num env) w).0 ≡ ok (done v)
        → v < n
    latest_below w v e = ground (arith, above w.calls v)

    own_after-Keeps :
        (p : Proof) (a : Try ℕ) (w : World)
        → (attempt (get_latest_verified_batch_num env) w).0 ≡ ok a
        → Keeps covered (own_after env p a)
    unfolding own_after
    own_after-Keeps p (failed x) w e = Keeps-pure covered _
    own_after-Keeps p (done v) w e = verify_own-Keeps v p (latest_below w v e) fits

    -- Offering a proof for verification leaves every batch from `n` on proved or unproved as it was.
    pub try_build_final_proof_of-Keeps :
        (p : Proof) → Keeps covered (try_build_final_proof_of env p)
    unfolding try_build_final_proof_of
    try_build_final_proof_of-Keeps p =
        Keeps-bind covered (can_verify_proof env) _
          (record { run = λ w. unfold can_verify_proof in refl })
          (elim [
            | false ↦ Keeps-pure covered _
            | true ↦
                Keeps-bind_of covered _ (own_after env p) (Keeps-attempt covered _ latest-Keeps)
                  (own_after-Keeps p)
          ])
