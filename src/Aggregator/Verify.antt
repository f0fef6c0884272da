-- ===== src/Aggregator/Verify.antt =====
-- aggregator.go: when a proof may go to L1, and the final proof that is built of it. The mutex over
-- `verifyingProof` and `timeSendFinalProof` makes each of the four small functions one step.
pub mod Eligible
pub mod Verdict
pub mod Offered
use zkevm_aggregator.Prelude.{
  ℕ, suc, ◌+◌, ◌-◌, Bool, true, false, not, ◌&&◌, Option, none, some, List, [], ◌∷◌, ◌++◌, ltb, leb,
  ◌==◌, if◌then◌else◌,
}
use zkevm_aggregator.Prelude.Result.{Result, ok, err, panic}
use zkevm_aggregator.Prelude.Text.{codes}
use zkevm_aggregator.State.{Bytes, Proof, u64}
use zkevm_aggregator.State.Storage.{Db, check_proof_contains_complete_sequences}
use zkevm_aggregator.Aggregator.{
  Err, not_found, ctx_done, db_failure, prover_failure, failure, FinalProof, FinalProofMsg, Config,
  Env, World, M, pure, throw, crash, next_call, Try, done, failed, tried, attempt, or_throw, ◌>>=◌,
  ◌>>◌, continue,
}
use zkevm_aggregator.Aggregator.Calls.{
  pool, ask, query, exec, update_proof, delete_proofs, get_latest_verified_batch_num, get_db_batch,
}
use zkevm_aggregator.Aggregator.Locks.{unlocked, get_and_lock_proof_ready_to_verify}

unfoldable pub byte_eq : Bytes → Bytes → Bool
byte_eq [] [] = true
byte_eq [] (y ∷ ys) = false
byte_eq (x ∷ xs) [] = false
byte_eq (x ∷ xs) (y ∷ ys) = let rest = byte_eq xs ys in x == y && rest

-- The roots that the mock prover answers with.
abbrev pub mocked_state_root : Bytes
mocked_state_root = codes "0x090bcaf734c4f06c93954a827b45a6e8c67b8e0fd1e0a35a1c5982d6961828f9"

abbrev pub mocked_local_exit_root : Bytes
mocked_local_exit_root = codes "0x17c04c3760510b48c6012742c540a81aba4bca2f78b9d14bfd2f123e2e53ea3e"

is_mocked : FinalProof → Bool
unfolding byte_eq
is_mocked f =
    byte_eq f.new_state_root mocked_state_root
    && byte_eq f.new_local_exit_root mocked_local_exit_root

module _ (env : Env) where
  -- `Before` is strict.
  unfoldable pub can_verify_proof : M Bool
  can_verify_proof w =
      (ok (ltb w.time_send_final_proof (env.clock w.calls) && not w.verifying_proof), next_call w)

  unfoldable pub start_proof_verification : M (Unit {0})
  start_proof_verification w = (ok tt, record w { verifying_proof = true })

  unfoldable pub end_proof_verification : M (Unit {0})
  end_proof_verification w = (ok tt, record w { verifying_proof = false })

  unfoldable pub reset_verify_proof_time : M (Unit {0})
  reset_verify_proof_time w = (
    ok tt,
    record w {
      calls = w.calls + 1;
      time_send_final_proof = env.clock w.calls + env.cfg.verify_proof_interval;
    },
  )

  check_complete_sequences : Proof → M Bool
  check_complete_sequences proof = do
    r ← attempt (query env pool (check_proof_contains_complete_sequences proof))
    elim r [ done complete ↦ pure complete | failed _ ↦ throw failure ]

  discard : Proof → M Bool
  discard proof = do
    r ← attempt (delete_proofs env pool proof.batch_number proof.batch_number_final)
    elim r [ done _ ↦ pure false | failed _ ↦ throw failure ]

  unfoldable pub validate_eligible_final_proof : Proof → ℕ → M Bool
  unfolding check_complete_sequences discard
  validate_eligible_final_proof proof last =
      let next = u64 (last + 1) in
      if proof.batch_number == next
      then check_complete_sequences proof
      else if ltb proof.batch_number next && leb next proof.batch_number_final
      then check_complete_sequences proof
      else if ltb proof.batch_number_final next
      then discard proof
      else pure false

  -- Answers of the mock prover are replaced by what the executor found.
  unmocked : FinalProof → ℕ → M FinalProof
  unfolding is_mocked
  unmocked f last = elim (is_mocked f) [
    | true ↦ do
      b ← get_db_batch env last
      pure (record f {
        new_state_root = b.batch.state_root;
        new_local_exit_root = b.batch.local_exit_root;
      })
    | false ↦ pure f
  ]

  -- The proof is shared with the caller, so its new id is returned also where the call fails.
  unfoldable pub build_final_proof : Proof → M (Proof × Try FinalProof)
  unfolding unmocked
  build_final_proof proof = do
    id ← ask env (λ n. env.final_proof n proof.proof env.cfg.sender_address)
    elim id [
      | none ↦ pure (proof, failed failure)
      | some i ↦
          let proof' = record proof { proof_id = some i } in
          do
            answer ← ask env (λ n. env.wait_final_proof n i)
            elim answer [
              | none ↦ pure (proof', failed failure)
              | some f ↦ do
                r ← attempt (unmocked f proof.batch_number_final)
                elim r [ done g ↦ pure (proof', done g) | failed _ ↦ pure (proof', failed failure) ]
            ]
    ]

  -- The `select` on the context and the channel `finalProof`.
  send_message : FinalProofMsg → M Bool
  send_message msg w =
      if env.is_ctx_done w.calls
      then (ok false, next_call w)
      else (ok true, record w { calls = w.calls + 1; final_proofs = w.final_proofs ++ (msg ∷ []) })

  abbrev pub message : Proof → FinalProof → FinalProofMsg
  message proof f = record {
    prover_name = env.prover_name;
    prover_id = env.prover_id;
    recursive_proof = proof;
    final_proof = f;
  }

  -- What follows `buildFinalProof`. The last component says whether the deferred function of the
  -- caller sees an error; it sees none where the context is done.
  send_built : Proof × Try FinalProof → M (Try Bool × Proof × Bool)
  unfolding send_message
  send_built (proof, failed e) = pure (failed e, proof, true)
  send_built (proof, done f) = do
    sent ← send_message (message proof f)
    pure (if sent then done true else failed ctx_done, proof, false)

  -- From the eligible proof on. `log.WithFields` dereferences the proof's id.
  build_and_send : Proof → M (Try Bool × Proof × Bool)
  unfolding build_final_proof send_built
  build_and_send proof = elim proof.proof_id [
    | none ↦ crash
    | some _ ↦ build_final_proof proof >>= send_built
  ]

  -- The branch in which a stored proof is looked for, with its deferred unlock.
  verify_stored : ℕ → M (Try Bool)
  unfolding build_and_send
  verify_stored last = do
    r ← attempt (get_and_lock_proof_ready_to_verify env last)
    elim r [
      | failed not_found ↦ pure (done false)
      | failed e ↦ pure (failed e)
      | done proof ↦ do
        (result, proof', broken) ← build_and_send proof
        elim broken [
          | false ↦ pure result
          | true ↦ do _ ← attempt (update_proof env pool (unlocked proof')); pure result
        ]
    ]

  -- The branch in which the caller's own proof is offered.
  verify_own : ℕ → Proof → M (Try Bool × Proof)
  unfolding build_and_send
  verify_own last proof = do
    r ← attempt (validate_eligible_final_proof proof last)
    elim r [
      | failed _ ↦ pure (failed failure, proof)
      | done false ↦ pure (done false, proof)
      | done true ↦ do (result, proof', _) ← build_and_send proof; pure (result, proof')
    ]

  stored_after : Try ℕ → M (Try Bool)
  unfolding verify_stored
  stored_after (failed e) = pure (failed e)
  stored_after (done last) = verify_stored last

  own_after : Proof → Try ℕ → M (Try Bool × Proof)
  unfolding verify_own
  own_after proof (failed e) = pure (failed e, proof)
  own_after proof (done last) = verify_own last proof

  -- `tryBuildFinalProof(ctx, prover, nil)`.
  unfoldable pub try_build_final_proof : M (Try Bool)
  unfolding stored_after
  try_build_final_proof = do
    can ← can_verify_proof
    elim can [
      | false ↦ pure (done false)
      | true ↦ attempt (get_latest_verified_batch_num env) >>= stored_after
    ]

  -- `tryBuildFinalProof(ctx, prover, proof)`: the result, and the caller's proof afterwards.
  unfoldable pub try_build_final_proof_of : Proof → M (Try Bool × Proof)
  unfolding own_after
  try_build_final_proof_of proof = do
    can ← can_verify_proof
    elim can [
      | false ↦ pure (done false, proof)
      | true ↦ attempt (get_latest_verified_batch_num env) >>= own_after proof
    ]
