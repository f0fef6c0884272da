-- ===== src/Aggregator/Interleaved/Acts.antt =====
-- Each step of a goroutine does to the rows what the abstract view allows.
use zkevm_aggregator.Prelude.{
  ℕ, ◌+◌, ◌<◌, ◌^◌, ◌≡◌, refl, sym, subst, ◌∙◌, inl, inr, Bool, true, false, Option, none, some,
  List, [], ◌∷◌, arith, Bool-cases,
}
use zkevm_aggregator.Prelude.Result.{Result, ok, err, panic}
use zkevm_aggregator.State.{Bytes, Batch, Proof}
use zkevm_aggregator.State.Storage.{update_generated_proof, delete_generated_proofs}
use zkevm_aggregator.Ethereum.{Ethereum}
use zkevm_aggregator.Aggregator.{
  Err, hangs, Env, World, FinalProof, FinalProofMsg, Try, done, failed, tried, attempt, continue,
  pure, ◌>>=◌,
}
use zkevm_aggregator.Aggregator.Post.{Meets}
use zkevm_aggregator.Aggregator.Calls.{
  pool, update_proof, delete_proofs, get_latest_verified_batch_num,
}
use zkevm_aggregator.Aggregator.Locks.{unlocked}
use zkevm_aggregator.Aggregator.Locks.Atomic.{
  PairLock, PairUnlock, ReadyLock, get_and_lock_proofs_to_aggregate_atomic,
  get_and_lock_proof_ready_to_verify_atomic, unlock_proofs_to_aggregate_atomic,
}
use zkevm_aggregator.Aggregator.Settle.Released.{Released, send_final_proof-Released}
use zkevm_aggregator.Aggregator.Verify.{can_verify_proof}
use zkevm_aggregator.Aggregator.Verify.Offered.{
  Dropped, DroppedFrom, BuiltOf, validate-Dropped, build_final_proof-BuiltOf,
}
use zkevm_aggregator.Aggregator.Aggregate.Covered.{Replaced, aggregate_locked_atomic}
use zkevm_aggregator.Aggregator.BatchProof.{prove_batch}
use zkevm_aggregator.Aggregator.Verify.{validate_eligible_final_proof}
use zkevm_aggregator.Aggregator.BatchProof.Silent.{prove_batch-Quiet}
use zkevm_aggregator.Aggregator.BatchProof.Own.{SameRange, prove_batch-SameRange}
use zkevm_aggregator.Aggregator.BatchProof.Locked.{Taken, get_and_lock_batch_to_prove-Taken}
use zkevm_aggregator.Aggregator.Interleaved.{
  Pc, idle, aggregating, releasing, proving, discarding, hanging, offering, storing, building,
  sending, settling, Choice, aggregate, verify, prove, after_pair, after_ready, after_take,
  lock_ready, if_can_verify, begins, after_aggregate, after_prove, after_validate, validate,
  if_can_offer, after_build, build, give_up, goes_on,
}
use zkevm_aggregator.Aggregator.Interleaved.Rows.{Key, key}
use zkevm_aggregator.Aggregator.Interleaved.Claims.{Act}
use zkevm_aggregator.Aggregator.Interleaved.Held.{
  held, unfinished, Does, proofs_of, PairLock-Act, ReadyLock-Act, PairUnlock-Act, Replaced-Act,
  TakenBatch-Act, Untouched-Act, Dropped-Act,
}

-- Where the step ends, if it does, the rows and what is held have changed as allowed.
abbrev pub Leads : ℕ → Bool → World → List Key → Result Err Pc → World → Type 0
Leads n u w ks (ok pc) w' = Does n u w w' ks (held pc)
Leads n u w ks _ w' = Unit {0}

module _ (env : Env) (n : ℕ) (above : (k v : ℕ) → env.latest_verified_batch k ≡ some v → v < n)
    (fits : n < 2 ^ 64) (u : Bool) where
  pair-Leads :
      (w : World) (r : Result Err (Proof × Proof)) (w' : World)
      → PairLock env w r w'
      → let (q, w2) = continue (after_pair env) (tried r) w' in Leads n u w [] q w2
  pair-Leads w (ok (q1, q2)) w' h = PairLock-Act n u w env q1 q2 w' h
  pair-Leads w (err e) w' h = Act.stay [] (proofs_of h)
  pair-Leads w panic w' h = tt

  batch-Leads :
      (w : World) (r : Result Err (Option (Batch × Bytes × Proof))) (w' : World)
      → Meets (Taken env w) (λ e w'. w'.db.proofs ≡ w.db.proofs) r w'
      → let (q, w2) = continue (after_take env) (tried r) w' in Leads n u w [] q w2
  batch-Leads w (ok none) w' h = tt
  batch-Leads w (ok (some (b, wit, p))) w' (last, _, t) =
      TakenBatch-Act n u w env b.batch_number last p w' t
  batch-Leads w (err e) w' h = Act.stay [] h
  batch-Leads w panic w' h = tt

  ready-Leads :
      (w : World) (last : ℕ) (r : Result Err Proof) (w1 w' : World)
      → last + 1 < 2 ^ 64
      → w1.db ≡ w.db
      → ReadyLock env last w1 r w'
      → let (q, w2) = continue (after_ready env) (tried r) w' in Leads n u w [] q w2
  ready-Leads w last (ok p) w1 w' small e h =
      subst (λ rows. Act n u rows w'.db.proofs [] (key p ∷ [])) (proofs_of e)
        (ReadyLock-Act n u w1 env last p w' small h)
  ready-Leads w last (err x) w1 w' small e h = Act.stay [] (proofs_of (h ∙ e))
  ready-Leads w last panic w1 w' small e h = tt

  latest_below :
      (w : World) (v : ℕ) → (attempt (get_latest_verified_batch_num env) w).0 ≡ ok (done v) → v < n
  latest_below w v e = ground (arith, above w.calls v)

  latest_same : (w : World) → (attempt (get_latest_verified_batch_num env) w).1.db ≡ w.db
  latest_same w = ground arith

  lock_ready-Leads :
      (w w1 : World) (a : Result Err (Try ℕ))
      → w1.db ≡ w.db
      → ((v : ℕ) → a ≡ ok (done v) → v < n)
      → let (q, w2) = continue (lock_ready env) a w1 in Leads n u w [] q w2
  lock_ready-Leads w w1 (ok (done v)) e h =
      let small : v + 1 < 2 ^ 64 = omega (arith, h v refl) in
      ready-Leads w v _ w1 _ small e (get_and_lock_proof_ready_to_verify_atomic env v w1 small)
  lock_ready-Leads w w1 (ok (failed x)) e h = Act.stay [] (proofs_of e)
  lock_ready-Leads w w1 (err x) e h = tt
  lock_ready-Leads w w1 panic e h = tt

  can_verify-Leads :
      (w w1 : World) (can : Bool)
      → w1.db ≡ w.db
      → let (q, w2) = if_can_verify env can w1 in Leads n u w [] q w2
  can_verify-Leads w w1 true e = lock_ready-Leads w _ _ (latest_same w1 ∙ e) (latest_below w1)
  can_verify-Leads w w1 false e = Act.stay [] (proofs_of e)

  pub begins-Leads : (c : Choice) (w : World) → let (q, w2) = begins env c w in Leads n u w [] q w2
  unfolding begins can_verify_proof
  begins-Leads aggregate w = pair-Leads w _ _ (get_and_lock_proofs_to_aggregate_atomic env w)
  begins-Leads verify w = can_verify-Leads w _ _ refl
  begins-Leads prove w = batch-Leads w _ _ (get_and_lock_batch_to_prove-Taken env w).meets

  aggregate-Leads :
      (p1 p2 : Proof) (now : ℕ) (w : World) (r : Result Err Proof) (w' : World)
      → Replaced env p1 p2 now w r w'
      → let (q, w2) = continue (after_aggregate env p1 p2) (tried r) w' in
        Leads n u w (key p1 ∷ key p2 ∷ []) q w2
  aggregate-Leads p1 p2 now w (ok q) w' h = Replaced-Act n u w env p1 p2 q now w' h
  aggregate-Leads p1 p2 now w (err e) w' h = Act.stay _ (proofs_of h)
  aggregate-Leads p1 p2 now w panic w' h = tt

  release-Leads :
      (p1 p2 : Proof) (w : World) (r : Result Err (Unit {0})) (w' : World)
      → PairUnlock env p1 p2 w r w'
      → let (q, w2) = continue (λ _. pure idle) (tried r) w' in
        Leads n u w (key p1 ∷ key p2 ∷ []) q w2
  release-Leads p1 p2 w (ok _) w' h = PairUnlock-Act n u w env p1 p2 w' h
  release-Leads p1 p2 w (err e) w' h = Act.leave _ (proofs_of h)
  release-Leads p1 p2 w panic w' h = tt

  failed_prove-Leads :
      (p : Proof) (e : Err) (w w' : World)
      → w'.db.proofs ≡ w.db.proofs
      → let (q, w2) = after_prove env p (failed e) w' in Leads n u w (key p ∷ []) q w2
  failed_prove-Leads p hangs w w' h = Act.stay _ h
  failed_prove-Leads p e w w' h = Act.stay _ h

  same_key : (p q : Proof) → SameRange p q → key p ≡ key q
  same_key p q (h, k) i = (sym h i, sym k i)

  prove-Leads :
      (p : Proof) (w : World) (r : Result Err Proof) (w' : World)
      → w'.db ≡ w.db
      → ((q : Proof) → r ≡ ok q → SameRange p q)
      → let (q, w2) = continue (after_prove env p) (tried r) w' in Leads n u w (key p ∷ []) q w2
  prove-Leads p w (ok q) w' h own =
      subst (λ k. Act n u w.db.proofs w'.db.proofs (key p ∷ []) (k ∷ []))
        (same_key p q (own q refl)) (Act.stay (key p ∷ []) (proofs_of h))
  prove-Leads p w (err e) w' h own = failed_prove-Leads p e w w' (proofs_of h)
  prove-Leads p w panic w' h own = tt

  discard-Leads :
      (p : Proof) (w : World)
      → u ≡ true
      → let (q, w2) =
          (attempt (delete_proofs env pool p.batch_number p.batch_number_final) >>= λ _. pure idle)
            w in
        Leads n u w (key p ∷ []) q w2
  unfolding delete_generated_proofs
  discard-Leads p w h = elim (Bool-cases (env.db_fails w.calls)) [
    | inl e ↦ rw e (Act.leave (key p ∷ []) refl)
    | inr e ↦ rw e (Act.remove (key p) h refl)
  ]

  store-Leads :
      (p : Proof) (w : World)
      → let (q, w2) = (attempt (update_proof env pool (unlocked p)) >>= λ _. pure idle) w in
        Leads n u w (key p ∷ []) q w2
  unfolding update_generated_proof
  store-Leads p w = elim (Bool-cases (env.db_fails (w.calls + 1))) [
    | inl e ↦ rw e (Act.leave (key p ∷ []) refl)
    | inr e ↦ rw e (Act.unlock (unlocked p) (env.clock w.calls) refl)
  ]

  checked-Leads :
      (p : Proof) (w w' : World) (r : Result Err Bool)
      → Dropped n p w w'
      → let (q, w2) = continue (after_validate env p) (tried r) w' in Leads n u w (key p ∷ []) q w2
  checked-Leads p w w' (ok true) h = Dropped-Act n u w p w' h
  checked-Leads p w w' (ok false) h = Dropped-Act n u w p w' h
  checked-Leads p w w' (err e) h = Dropped-Act n u w p w' h
  checked-Leads p w w' panic h = tt

  validate-Leads :
      (p : Proof) (w w1 : World) (a : Result Err (Try ℕ))
      → w1.db ≡ w.db
      → ((v : ℕ) → a ≡ ok (done v) → v < n)
      → let (q, w2) = continue (validate env p) a w1 in Leads n u w (key p ∷ []) q w2
  validate-Leads p w w1 (ok (done v)) e h = checked-Leads p w _ _ (
      subst (λ rows. DroppedFrom n p rows (validate_eligible_final_proof env p v w1).1)
        (proofs_of e) (validate-Dropped env n p v w1 (h v refl) fits))
  validate-Leads p w w1 (ok (failed x)) e h = Act.stay _ (proofs_of e)
  validate-Leads p w w1 (err x) e h = tt
  validate-Leads p w w1 panic e h = tt

  offer-Leads :
      (p : Proof) (w w1 : World) (can : Bool)
      → w1.db ≡ w.db
      → let (q, w2) = if_can_offer env p can w1 in Leads n u w (key p ∷ []) q w2
  offer-Leads p w w1 true e = validate-Leads p w _ _ (latest_same w1 ∙ e) (latest_below w1)
  offer-Leads p w w1 false e = Act.stay _ (proofs_of e)

  built-Leads :
      (own : Bool) (p : Proof) (w : World) (r : Result Err (Proof × Try FinalProof)) (w' : World)
      → BuiltOf env p w r w'
      → let (q, w2) = continue (after_build env own) r w' in Leads n u w (key p ∷ []) q w2
  built-Leads own p w (ok (q, done f)) w' (h, k, e) =
      subst (λ c. Act n u w.db.proofs w'.db.proofs (key p ∷ []) (c ∷ [])) (same_key p q (h, k))
        (Act.stay (key p ∷ []) (proofs_of e))
  built-Leads own p w (ok (q, failed x)) w' (h, k, e) =
      subst (λ c. Act n u w.db.proofs w'.db.proofs (key p ∷ []) (c ∷ [])) (same_key p q (h, k))
        (Act.stay (key p ∷ []) (proofs_of e))
  built-Leads own p w (err e) w' h = tt
  built-Leads own p w panic w' h = tt

  build-Leads :
      (own : Bool) (p : Proof) (id : Option Bytes) (w : World)
      → let (q, w2) = build env own p id w in Leads n u w (key p ∷ []) q w2
  build-Leads own p none w = tt
  build-Leads own p (some id) w = built-Leads own p w _ _ (build_final_proof-BuiltOf env p w)

  settled-Leads :
      (p : Proof) (w : World) (r : Result Err (Unit {0})) (w' : World)
      → Released p w r w'
      → let (q, w2) = continue (λ _. pure idle) (tried r) w' in Leads n u w (key p ∷ []) q w2
  settled-Leads p w (ok _) w' (_, h) = Untouched-Act n u w p w' h
  settled-Leads p w (err e) w' h = absurd h
  settled-Leads p w panic w' h = tt

  give_up-Leads :
      (own : Bool) (msg : FinalProofMsg) (w : World)
      → let (q, w2) = give_up env own msg w in Leads n u w (key msg.recursive_proof ∷ []) q w2
  give_up-Leads true msg w = Act.stay _ refl
  give_up-Leads false msg w = Act.leave _ refl

  pub goes_on-Leads :
      (eth : Ethereum) (pc : Pc) (w : World)
      → unfinished pc ≡ u
      → let (q, w2) = goes_on env eth pc w in Leads n u w (held pc) q w2
  unfolding goes_on can_verify_proof
  goes_on-Leads eth idle w h = Act.stay [] refl
  goes_on-Leads eth (aggregating p1 p2) w h =
      aggregate-Leads p1 p2 _ w _ _ (aggregate_locked_atomic env p1 p2 w)
  goes_on-Leads eth (releasing p1 p2) w h =
      release-Leads p1 p2 w _ _ (unlock_proofs_to_aggregate_atomic env p1 p2 w)
  goes_on-Leads eth (proving b wit p) w h =
      prove-Leads p w _ _ ((prove_batch-Quiet env eth b wit p).run w).db (λ q e.
        prove_batch-SameRange env eth b wit p w _ q (λ i. (e i, (prove_batch env eth b wit p w).1)))
  goes_on-Leads eth (discarding p) w h = discard-Leads p w (sym h)
  goes_on-Leads eth (hanging p) w h = Act.stay _ refl
  goes_on-Leads eth (offering p) w h = offer-Leads p w _ _ refl
  goes_on-Leads eth (storing p) w h = store-Leads p w
  goes_on-Leads eth (building own p) w h = build-Leads own p p.proof_id w
  goes_on-Leads eth (sending own msg) w h = give_up-Leads own msg w
  goes_on-Leads eth (settling msg) w h =
      settled-Leads msg.recursive_proof w _ _ (send_final_proof-Released env msg w)
