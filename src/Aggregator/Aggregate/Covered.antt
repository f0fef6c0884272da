-- ===== src/Aggregator/Aggregate/Covered.antt =====
-- Aggregating never loses a proved batch, whatever fails on the way.
use zkevm_aggregator.Prelude.{
  ℕ, ◌+◌, ◌<◌, ◌^◌, ◌≡◌, refl, ◌∙◌, ap, subst, ◌⊎◌, inl, inr, Bool, true, false, none, some, arith,
  Option-cases,
}
use zkevm_aggregator.Prelude.Result.{Result, ok, err, panic}
use zkevm_aggregator.State.{Bytes, Proof}
use zkevm_aggregator.State.Storage.{
  Db, is_none, covers, check_proof_exists_for_batch, add_generated_proof, delete_generated_proofs,
}
use zkevm_aggregator.State.Storage.Coverage.{covered-update, covered-replace, covered_of_mem}
use zkevm_aggregator.State.Storage.Select.{AggregateAnswer, get_proofs_to_aggregate_lem}
use zkevm_aggregator.Aggregator.{
  Err, Env, World, failure, continue, tried, next_call, Try, done, failed,
}
use zkevm_aggregator.Aggregator.Keeps.{
  Keeps, Keeps-bind, Keeps-pure, Keeps-throw, Keeps-attempt, Keeps-update_proof,
}
use zkevm_aggregator.Aggregator.Locks.{unlocked, unlock_proofs_to_aggregate}
use zkevm_aggregator.Aggregator.Locks.Atomic.{
  PairLock, PairUnlock, get_and_lock_proofs_to_aggregate_atomic, unlock_proofs_to_aggregate_atomic,
}
use zkevm_aggregator.Aggregator.Verify.Eligible.{try_build_final_proof_of-Keeps}
use zkevm_aggregator.Aggregator.Aggregate.{
  aggregated, replace_proofs, aggregate_locked, store_unlocked, after_offer, offer_proof,
  after_aggregation, after_pair_lock, try_aggregate_proofs,
}

-- What the transaction leaves: the new proof, locked, in place of the range, or the tables as they were.
abbrev pub Replaced : Env → Proof → Proof → ℕ → World → Result Err Proof → World → Type 0
Replaced env p1 p2 now w (ok q) w' =
    (q.batch_number ≡ p1.batch_number)
    × (q.batch_number_final ≡ p2.batch_number_final)
    × (add_generated_proof now q
          (delete_generated_proofs p1.batch_number p2.batch_number_final w.db)
        ≡ some w'.db)
    × (is_none q.generating_since ≡ false)
Replaced env p1 p2 now w (err _) w' = w'.db ≡ w.db
Replaced env p1 p2 now w panic w' = ⊥

replace_proofs-Replaced :
    (env : Env) (p1 p2 p : Proof) (w : World)
    → p.batch_number ≡ p1.batch_number
    → p.batch_number_final ≡ p2.batch_number_final
    → let (r, w') = replace_proofs env p1 p2 p w in
      Replaced env p1 p2 (env.clock (w.calls + 3)) w r w'
unfolding replace_proofs
replace_proofs-Replaced env p1 p2 p w hf ht = ground arith

aggregate_locked_answered :
    (env : Env) (p1 p2 : Proof) (w : World) (input id proof root : Bytes)
    → env.marshal_proofs p1.proof p2.proof ≡ some input
    → env.aggregated_proof w.calls p1.proof p2.proof ≡ some id
    → env.wait_recursive_proof (w.calls + 1) id ≡ some (proof, root)
    → let (r, w') = aggregate_locked env p1 p2 w in
      Replaced env p1 p2 (env.clock (w.calls + 5)) w r w'
unfolding aggregate_locked
aggregate_locked_answered env p1 p2 w input id proof root e1 e2 e3 =
    rw (e1, e2, e3)
      (subst
        (λ k.
          let (r, w') = replace_proofs env p1 p2 sent w2 in Replaced env p1 p2 (env.clock k) w r w')
        (omega arith) (replace_proofs-Replaced env p1 p2 sent w2 refl refl))
  where
    sent : Proof
    sent = record (aggregated env p1 p2 input) { proof_id = some id; proof = proof }

    w2 : World
    w2 = next_call (next_call w)

aggregate_locked_refused :
    (env : Env) (p1 p2 : Proof) (w : World)
    → (env.marshal_proofs p1.proof p2.proof ≡ none)
      ⊎ (env.aggregated_proof w.calls p1.proof p2.proof ≡ none)
      ⊎ ((id : Bytes) × (env.aggregated_proof w.calls p1.proof p2.proof ≡ some id)
          × (env.wait_recursive_proof (w.calls + 1) id ≡ none))
    → let (r, w') = aggregate_locked env p1 p2 w in
      Replaced env p1 p2 (env.clock (w.calls + 5)) w r w'
unfolding aggregate_locked
aggregate_locked_refused env p1 p2 w (inl e) = rw e refl
aggregate_locked_refused env p1 p2 w (inr (inl e)) = ground arith
aggregate_locked_refused env p1 p2 w (inr (inr (id, e, f))) = ground arith

pub aggregate_locked_atomic :
    (env : Env) (p1 p2 : Proof) (w : World)
    → let (r, w') = aggregate_locked env p1 p2 w in
      Replaced env p1 p2 (env.clock (w.calls + 5)) w r w'
aggregate_locked_atomic env p1 p2 w = elim (Option-cases (env.marshal_proofs p1.proof p2.proof)) [
  | inl e ↦ aggregate_locked_refused env p1 p2 w (inl e)
  | inr (input, e1) ↦ elim (Option-cases (env.aggregated_proof w.calls p1.proof p2.proof)) [
    | inl e ↦ aggregate_locked_refused env p1 p2 w (inr (inl e))
    | inr (id, e2) ↦ elim (Option-cases (env.wait_recursive_proof (w.calls + 1) id)) [
      | inl e ↦ aggregate_locked_refused env p1 p2 w (inr (inr (id, e2, e)))
      | inr ((proof, root), e3) ↦ aggregate_locked_answered env p1 p2 w input id proof root e1 e2 e3
    ]
  ]
]

module _ (env : Env) (n : ℕ) (above : (k v : ℕ) → env.latest_verified_batch k ≡ some v → v < n)
    (fits : n < 2 ^ 64) where
  abbrev covered : Db → Bool
  covered = check_proof_exists_for_batch n

  store_unlocked-Keeps : (p : Proof) → Keeps covered (store_unlocked env p)
  unfolding store_unlocked
  store_unlocked-Keeps p =
      Keeps-bind covered _ _
        (Keeps-attempt covered _ (
          Keeps-update_proof covered env (unlocked p)
            (λ now db. covered-update n now (unlocked p) db)))
        (elim [ done _ ↦ Keeps-pure covered true | failed _ ↦ Keeps-throw covered failure ])

  after_offer-Keeps : (r : Try Bool × Proof) → Keeps covered (after_offer env r)
  unfolding after_offer
  after_offer-Keeps (done true, p) = Keeps-pure covered true
  after_offer-Keeps (done false, p) = store_unlocked-Keeps p
  after_offer-Keeps (failed e, p) = store_unlocked-Keeps p

  pub offer_proof-Keeps : (p : Proof) → Keeps covered (offer_proof env p)
  unfolding offer_proof
  offer_proof-Keeps p =
      Keeps-bind covered _ (after_offer env) (try_build_final_proof_of-Keeps env n above fits p)
        after_offer-Keeps

  unlock_covered :
      (p1 p2 : Proof) (w : World) (r : Result Err (Unit {0})) (w' : World)
      → PairUnlock env p1 p2 w r w'
      → covered w'.db ≡ covered w.db
  unlock_covered p1 p2 w (ok _) w' e =
      ap covered e ∙ covered-update n _ (unlocked p2) _ ∙ covered-update n _ (unlocked p1) w.db
  unlock_covered p1 p2 w (err _) w' e = ap covered e
  unlock_covered p1 p2 w panic w' e = absurd e

  unlock-Keeps : (p1 p2 : Proof) → Keeps covered (unlock_proofs_to_aggregate env p1 p2)
  unlock-Keeps p1 p2 = record {
    run = λ w. unlock_covered p1 p2 w _ _ (unlock_proofs_to_aggregate_atomic env p1 p2 w);
  }

  -- Both ranges are proved and adjacent.
  record Held (p1 p2 : Proof) (db : Db) : Type 0 where
    first : covers n p1 ≡ true → covered db ≡ true
    second : covers n p2 ≡ true → covered db ≡ true
    adjacent : p1.batch_number_final + 1 ≡ p2.batch_number

  Replaced-covered :
      (p1 p2 : Proof) (now : ℕ) (w : World) (r : Result Err Proof) (w' : World)
      → Held p1 p2 w.db
      → Replaced env p1 p2 now w r w'
      → covered (continue (after_aggregation env p1 p2) (tried r) w').1.db ≡ covered w.db
  unfolding after_aggregation
  Replaced-covered p1 p2 now w (ok q) w' h (hf, ht, e, _) =
      (offer_proof-Keeps q).run w'
      ∙ covered-replace n now p1 p2 q w.db w'.db h.first h.second h.adjacent hf ht e
  Replaced-covered p1 p2 now w (err x) w' h e =
      (Keeps-bind covered _ _ (Keeps-attempt covered _ (unlock-Keeps p1 p2))
          (λ _. Keeps-throw covered x)).run
        w'
      ∙ ap covered e
  Replaced-covered p1 p2 now w panic w' h e = absurd e

  locked_covered :
      (w : World) (r : Result Err (Proof × Proof)) (w' : World)
      → PairLock env w r w'
      → covered (continue (after_pair_lock env) (tried r) w').1.db ≡ covered w.db
  unfolding after_pair_lock
  locked_covered w (ok (q1, q2)) w' (found, _, _, e) =
      let same : covered w'.db ≡ covered w.db =
        ap covered e ∙ covered-update n _ q2 _ ∙ covered-update n _ q1 w.db in
      let (m1, m2, pair, _) =
        subst (AggregateAnswer w.db) found (get_proofs_to_aggregate_lem w.db) in
      let held : Held q1 q2 w'.db = record {
        first = λ c. same ∙ covered_of_mem n w.db m1 c;
        second = λ c. same ∙ covered_of_mem n w.db m2 c;
        adjacent = pair.adjacent;
      } in
      Replaced-covered q1 q2 _ w' _ _ held (aggregate_locked_atomic env q1 q2 w') ∙ same
  locked_covered w (err x) w' e = ground (arith, ap covered e)
  locked_covered w panic w' e = absurd e

  -- `tryAggregateProofs` leaves a batch proved, or unproved, as it was, whatever the database and the
  -- prover answer and wherever they fail. The batch is below 2^64 and above every number that L1
  -- answers for the last verified one.
  pub try_aggregate_proofs_covered :
      (w : World)
      → check_proof_exists_for_batch n (try_aggregate_proofs env w).1.db
        ≡ check_proof_exists_for_batch n w.db
  unfolding try_aggregate_proofs
  try_aggregate_proofs_covered w =
      locked_covered w _ _ (get_and_lock_proofs_to_aggregate_atomic env w)
