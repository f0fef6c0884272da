-- ===== src/Aggregator/Settle/Released.antt =====
-- After a turn of `sendFinalProof` the verification is over, and what became of the proof's row.
use zkevm_aggregator.Prelude.{
  ℕ, ◌+◌, ◌≡◌, refl, ap, ◌∙◌, ◌⊎◌, inl, inr, Bool, true, false, Bool-cases,
}
use zkevm_aggregator.Prelude.Result.{Result, ok, err, panic}
use zkevm_aggregator.State.{Proof, DbBatch}
use zkevm_aggregator.State.Storage.{update_generated_proof}
use zkevm_aggregator.Aggregator.{
  Err, failure, failed, tried, continue, AggLayerTx, FinalProof, FinalProofMsg, Env, World,
}
use zkevm_aggregator.Aggregator.Calls.{get_db_batch}
use zkevm_aggregator.Aggregator.Locks.{unlocked}
use zkevm_aggregator.Aggregator.Verify.{
  end_proof_verification, start_proof_verification, reset_verify_proof_time,
}
use zkevm_aggregator.Aggregator.Quiet.{Same, Quiet, Quiet-pure, Quiet-throw, quiet}
use zkevm_aggregator.Aggregator.Settle.{
  succeeds, add_verification, sign_and_send, unless_failed,
  handle_failure_to_add_verify_batch_to_be_monitored, after_add, agg_layer_tx, send_final_proof,
  settle_direct, settle_with_agg_layer, settle, after_batch, after_settling,
}

-- The row is as it was, or it is idle again.
abbrev pub Untouched : Proof → World → World → Type 0
Untouched p w w' =
    (w'.db ≡ w.db) ⊎ ((now : ℕ) × (w'.db ≡ update_generated_proof now (unlocked p) w.db))

abbrev pub Settled : Env → Proof → World → Result Err Bool → World → Type 0
Settled env p w (ok true) w' = (w'.db ≡ w.db) × (w'.verifying_proof ≡ w.verifying_proof)
Settled env p w (ok false) w' = Untouched p w w' × (w'.verifying_proof ≡ false)
Settled env p w (err _) w' = ⊥
Settled env p w panic w' = w'.db ≡ w.db

Quiet-succeeds : (env : Env) (b : Bool) → Quiet (succeeds env b)
Quiet-succeeds env true = Quiet-pure tt
Quiet-succeeds env false = Quiet-throw failure

add_verification-Quiet :
    (env : Env) (p : Proof) (f : FinalProof) (b : DbBatch) → Quiet (add_verification env p f b)
add_verification-Quiet env p f b = search (quiet, Quiet-succeeds)

sign_and_send-Quiet : (env : Env) (tx : AggLayerTx) → Quiet (sign_and_send env tx)
sign_and_send-Quiet env tx = search (quiet, Quiet-succeeds)

handle_failure-Settled :
    (env : Env) (p : Proof) (e : Err) (w v : World)
    → Same w v
    → let (r, w') = unless_failed env p (failed e) v in Settled env p w r w'
unfolding unless_failed handle_failure_to_add_verify_batch_to_be_monitored end_proof_verification
handle_failure-Settled env p x w v s = elim (Bool-cases (env.db_fails (v.calls + 1))) [
  | inl e ↦ rw e (inl s.db, refl)
  | inr e ↦ rw e (
    inr (env.clock v.calls, ap (update_generated_proof (env.clock v.calls) (unlocked p)) s.db),
    refl,
  )
]

unless_failed-Settled :
    (env : Env) (p : Proof) (r : Result Err (Unit {0})) (w v : World)
    → Same w v
    → let (q, w') = continue (unless_failed env p) (tried r) v in Settled env p w q w'
unfolding unless_failed
unless_failed-Settled env p (ok _) w v s = (s.db, s.verifying)
unless_failed-Settled env p (err e) w v s = handle_failure-Settled env p e w v s
unless_failed-Settled env p panic w v s = s.db

settle_with_agg_layer-Settled :
    (env : Env) (p : Proof) (f : FinalProof) (b : DbBatch) (w : World)
    → let (r, w') = settle_with_agg_layer env p f b w in Settled env p w r w'
unfolding settle_with_agg_layer
settle_with_agg_layer-Settled env p f b w =
    let tx : AggLayerTx = agg_layer_tx env p f b in
    unless_failed-Settled env p (sign_and_send env tx w).0 w _ ((sign_and_send-Quiet env tx).run w)

after_add-Settled :
    (env : Env) (p : Proof) (r : Result Err (Unit {0})) (w v : World)
    → Same w v
    → let (q, w') = continue (λ t. after_add env t p) (tried r) v in Settled env p w q w'
unfolding after_add
after_add-Settled env p (ok _) w v s = elim (Bool-cases (env.settlement.has_failed_tx v.calls)) [
  | inl e ↦ rw e s.db
  | inr e ↦ rw e (s.db, s.verifying)
]
after_add-Settled env p (err e) w v s = handle_failure-Settled env p e w v s
after_add-Settled env p panic w v s = s.db

settle_direct-Settled :
    (env : Env) (p : Proof) (f : FinalProof) (b : DbBatch) (w : World)
    → let (r, w') = settle_direct env p f b w in Settled env p w r w'
unfolding settle_direct
settle_direct-Settled env p f b w =
    after_add-Settled env p (add_verification env p f b w).0 w _
      ((add_verification-Quiet env p f b).run w)

settle-Settled :
    (env : Env) (p : Proof) (f : FinalProof) (b : DbBatch) (w : World)
    → let (r, w') = settle env p f b w in Settled env p w r w'
unfolding settle
settle-Settled env p f b w = elim (Bool-cases env.cfg.agg_layer_settlement) [
  | inl e ↦ rw e (settle_with_agg_layer-Settled env p f b w)
  | inr e ↦ rw e (settle_direct-Settled env p f b w)
]

-- The turn is over: no verification is in progress, and the proof's row is as it was or idle again.
-- A panic, which ends the program, leaves the row as it was.
abbrev pub Released : Proof → World → Result Err (Unit {0}) → World → Type 0
Released p w (ok _) w' = (w'.verifying_proof ≡ false) × Untouched p w w'
Released p w (err _) w' = ⊥
Released p w panic w' = w'.db ≡ w.db

Untouched-of_db : (p : Proof) (u v w : World) → v.db ≡ u.db → Untouched p v w → Untouched p u w
Untouched-of_db p u v w e (inl h) = inl (h ∙ e)
Untouched-of_db p u v w e (inr (now, h)) =
    inr (now, h ∙ ap (update_generated_proof now (unlocked p)) e)

after_settling-Released :
    (env : Env) (p : Proof) (u v : World) (r : Result Err Bool) (w : World)
    → v.db ≡ u.db
    → Settled env p v r w
    → let (q, w') = continue (after_settling env) r w in Released p u q w'
unfolding after_settling reset_verify_proof_time end_proof_verification
after_settling-Released env p u v (ok true) w e (h, _) = (refl, inl (h ∙ e))
after_settling-Released env p u v (ok false) w e (h, g) = (g, Untouched-of_db p u v w e h)
after_settling-Released env p u v (err x) w e h = absurd h
after_settling-Released env p u v panic w e h = h ∙ e

get_db_batch-Quiet : (env : Env) (n : ℕ) → Quiet (get_db_batch env n)
get_db_batch-Quiet env n = search quiet

after_batch-Released :
    (env : Env) (msg : FinalProofMsg) (r : Result Err DbBatch) (u v : World)
    → v.db ≡ u.db
    → let (q, w') = continue (after_batch env msg) (tried r) v in
      Released msg.recursive_proof u q w'
unfolding after_batch end_proof_verification
after_batch-Released env msg (ok b) u v e =
    after_settling-Released env msg.recursive_proof u v _ _ e
      (settle-Settled env msg.recursive_proof msg.final_proof b v)
after_batch-Released env msg (err x) u v e = (refl, inl e)
after_batch-Released env msg panic u v e = e

-- A turn of `sendFinalProof` never fails: when it ends, no verification is in progress, and the
-- tables are as they were but for the proof's row, which may have been made idle; if it panics, the
-- tables are as they were. It holds for both ways to settle and wherever a call fails.
pub send_final_proof-Released :
    (env : Env) (msg : FinalProofMsg) (w : World)
    → let (r, w') = send_final_proof env msg w in Released msg.recursive_proof w r w'
unfolding send_final_proof start_proof_verification
send_final_proof-Released env msg w =
    let begun : World = record w { verifying_proof = true } in
    let n : ℕ = msg.recursive_proof.batch_number_final in
    after_batch-Released env msg (get_db_batch env n begun).0 w _
      ((get_db_batch-Quiet env n).run begun).db
