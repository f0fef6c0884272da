-- ===== src/Aggregator/Verify/Verdict.antt =====
-- aggregator.go, `validateEligibleFinalProof`: every outcome.
use zkevm_aggregator.Prelude.{ℕ, ◌+◌, ◌≤◌, ◌<◌, ◌^◌, ◌≡◌, ◌⊎◌, Bool, true, false, arith}
use zkevm_aggregator.Prelude.Result.{Result, ok, err, panic}
use zkevm_aggregator.State.{Proof}
use zkevm_aggregator.State.Storage.{
  check_proof_contains_complete_sequences, delete_generated_proofs,
}
use zkevm_aggregator.Aggregator.{Err, Env, World}
use zkevm_aggregator.Aggregator.Verify.{
  validate_eligible_final_proof, check_complete_sequences, discard,
}

-- Eligible: the batch after the last verified one is in the proof, which is made of whole sequences.
-- Refused: the same but for the sequences, with no row changed; or the proof starts after that
-- batch, with no row changed; or it ends before it, and the rows within its range are deleted.
abbrev pub Verdict : Proof → ℕ → World → Result Err Bool → World → Type 0
Verdict p last w (ok true) w' =
    (p.batch_number ≤ last + 1)
    × (last + 1 ≤ p.batch_number_final)
    × (check_proof_contains_complete_sequences p w.db ≡ true)
    × (w'.db ≡ w.db)
Verdict p last w (ok false) w' =
    ((p.batch_number ≤ last + 1)
      × (last + 1 ≤ p.batch_number_final)
      × (check_proof_contains_complete_sequences p w.db ≡ false)
      × (w'.db ≡ w.db))
    ⊎ ((last + 1 < p.batch_number) × (w'.db ≡ w.db)
        ⊎ (p.batch_number_final < last + 1)
          × (w'.db ≡ delete_generated_proofs p.batch_number p.batch_number_final w.db))
Verdict p last w (err _) w' = w'.db ≡ w.db
Verdict p last w panic w' = ⊥

-- What `validateEligibleFinalProof` answers, for a proof that does not end before it starts and a
-- next batch below 2^64: yes only where the proof has the next batch and is made of whole
-- sequences; no where it has the next batch but is not, or starts after it, or ends before it, and
-- only then the rows in its range are deleted; an error leaves the tables as they were.
pub validate_eligible_final_proof-Verdict :
    (env : Env) (p : Proof) (last : ℕ) (w : World)
    → p.batch_number ≤ p.batch_number_final
    → last + 1 < 2 ^ 64
    → let (r, w') = validate_eligible_final_proof env p last w in Verdict p last w r w'
unfolding validate_eligible_final_proof check_complete_sequences discard
validate_eligible_final_proof-Verdict env p last w h small = ground arith
