-- ===== src/Aggregator/BatchProof/Covered.antt =====
-- Proving a batch never loses a proved batch, whatever fails on the way.
use zkevm_aggregator.Prelude.{
  ℕ, ◌<◌, ◌^◌, ◌≡◌, ◌≢◌, refl, ◌∙◌, ap, ◌⊎◌, Bool, true, false, Option, none, some, arith, ◌==◌,
  ◌||◌,
}
use zkevm_aggregator.Prelude.Result.{Result, ok, err, panic}
use zkevm_aggregator.State.{Bytes, Batch, Proof}
use zkevm_aggregator.State.Storage.{Db, check_proof_exists_for_batch}
use zkevm_aggregator.State.Storage.Coverage.{covered-delete_outside}
use zkevm_aggregator.Ethereum.{Ethereum}
use zkevm_aggregator.Aggregator.{
  Err, hangs, not_found, l1_not_found, Env, World, attempt, continue, tried, Try, done, failed,
}
use zkevm_aggregator.Aggregator.Keeps.{Keeps, Keeps-bind, Keeps-throw, Keeps-attempt, Keeps-exec}
use zkevm_aggregator.Aggregator.Aggregate.Covered.{offer_proof-Keeps}
use zkevm_aggregator.Aggregator.Post.{Meets}
use zkevm_aggregator.Aggregator.BatchProof.{
  after_proving, after_batch_lock, prove_batch, try_generate_batch_proof,
}
use zkevm_aggregator.Aggregator.BatchProof.Silent.{prove_batch-Quiet}
use zkevm_aggregator.Aggregator.BatchProof.Locked.{
  Taken, TakenBatch, check_of_rows, get_and_lock_batch_to_prove-Taken,
}

module _ (env : Env) (n : ℕ) (above : (k v : ℕ) → env.latest_verified_batch k ≡ some v → v < n)
    (fits : n < 2 ^ 64) where
  abbrev covered : Db → Bool
  covered = check_proof_exists_for_batch n

  discard-Keeps :
      (p : Proof) (e : Err)
      → (n < p.batch_number) ⊎ (p.batch_number_final < n)
      → Keeps covered (after_proving env p (failed e))
  unfolding after_proving
  discard-Keeps p hangs h = Keeps-throw covered hangs
  discard-Keeps p e h =
      Keeps-bind covered _ _
        (Keeps-attempt covered _ (
          Keeps-exec covered env _
            (λ db. covered-delete_outside n p.batch_number p.batch_number_final db h)))
        (λ _. Keeps-throw covered e)

  after_proving-Keeps :
      (p : Proof) (r : Try Proof)
      → (n < p.batch_number) ⊎ (p.batch_number_final < n)
      → Keeps covered (after_proving env p r)
  unfolding after_proving
  after_proving-Keeps p (done q) h = offer_proof-Keeps env n above fits q
  after_proving-Keeps p (failed e) h = discard-Keeps p e h

  -- A proved batch stays proved.
  abbrev Stays : World → World → Type 0
  Stays w w' = covered w.db ≡ true → covered w'.db ≡ true

  other :
      (m : ℕ) (last : ℕ) (p : Proof) (w w' : World)
      → TakenBatch env m last p w w'
      → covered w.db ≡ true
      → (n < p.batch_number) ⊎ (p.batch_number_final < n)
  other m last p w w' t c =
      let number : p.batch_number ≡ m = ap (λ q. q.batch_number) t.row.1 in
      let last_number : p.batch_number_final ≡ m = ap (λ q. q.batch_number_final) t.row.1 in
      let distinct : n ≢ m = λ e. absurd_eq e in ground (arith, number, last_number, distinct)
    where
      absurd_eq : n ≡ m → ⊥
      absurd_eq e = let u : check_proof_exists_for_batch m w.db ≡ false = t.unproved in cc

  refused :
      (eth : Ethereum) (e : Err) (w1 : World)
      → covered (after_batch_lock env eth (failed e) w1).1.db ≡ covered w1.db
  unfolding after_batch_lock
  refused eth not_found w1 = refl
  refused eth l1_not_found w1 = refl
  refused eth e w1 = refl

  locked-Stays :
      (eth : Ethereum) (w : World) (r : Result Err (Option (Batch × Bytes × Proof))) (w1 : World)
      → Meets (Taken env w) (λ e w'. w'.db.proofs ≡ w.db.proofs) r w1
      → Stays w (continue (after_batch_lock env eth) (tried r) w1).1
  unfolding after_batch_lock
  locked-Stays eth w (ok none) w1 (_, rows) c = check_of_rows n w.db w1.db rows ∙ c
  locked-Stays eth w (ok (some (b, wit, p))) w1 (last, _, t) c =
      (Keeps-bind covered (attempt (prove_batch env eth b wit p)) (after_proving env p)
          (record { run = λ w2. ap covered ((prove_batch-Quiet env eth b wit p).run w2).db })
          (λ r. after_proving-Keeps p r (other b.batch_number last p w w1 t c))).run
        w1
      ∙ (t.proved n ∙ ap (λ x. x || n == b.batch_number) c)
  locked-Stays eth w (err e) w1 rows c = refused eth e w1 ∙ (check_of_rows n w.db w1.db rows ∙ c)
  locked-Stays eth w panic w1 h c = absurd h

  -- `tryGenerateBatchProof` leaves every proved batch proved, whatever the database, L1 and the
  -- prover answer and wherever they fail. The batch is below 2^64 and above every number that L1
  -- answers for the last verified one.
  pub try_generate_batch_proof-covered :
      (eth : Ethereum) (w : World)
      → check_proof_exists_for_batch n w.db ≡ true
      → check_proof_exists_for_batch n (try_generate_batch_proof env eth w).1.db ≡ true
  unfolding try_generate_batch_proof
  try_generate_batch_proof-covered eth w =
      locked-Stays eth w _ _ (get_and_lock_batch_to_prove-Taken env w).meets
