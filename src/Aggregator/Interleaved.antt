-- ===== src/Aggregator/Interleaved.antt =====
-- aggregator.go: the goroutines of the aggregator, interleaved. `Channel` runs once for each prover,
-- `sendFinalProof` once, and the stream's handler once. A turn of theirs is cut where others may come
-- between: each step here makes at most one write to the tables that the others see, one statement or
-- one transaction, or one function under the mutex `stateDBMutex`. What is asked of the prover and of
-- L1 on the way touches no table.
pub mod Rows
pub mod Claims
pub mod Owner
pub mod Bystander
pub mod Held
pub mod Acts
pub mod Exclusive
pub mod Kept
use zkevm_aggregator.Prelude.{
  ℕ, ◌<◌, ◌≡◌, Bool, true, false, Option, none, some, List, [], ◌∷◌, ◌==◌, if◌then◌else◌,
}
use zkevm_aggregator.Prelude.Result.{ok}
use zkevm_aggregator.State.{Bytes, Batch, Proof}
use zkevm_aggregator.Ethereum.{Ethereum}
use zkevm_aggregator.Aggregator.{
  Err, hangs, Env, World, M, pure, crash, FinalProof, FinalProofMsg, Try, done, failed, attempt,
  ◌>>=◌, ◌>>◌,
}
use zkevm_aggregator.Aggregator.Calls.{
  pool, update_proof, delete_proofs, get_latest_verified_batch_num,
}
use zkevm_aggregator.Aggregator.Locks.{
  unlocked, unlock_proofs_to_aggregate, get_and_lock_proofs_to_aggregate,
  get_and_lock_proof_ready_to_verify,
}
use zkevm_aggregator.Aggregator.Verify.{
  can_verify_proof, validate_eligible_final_proof, build_final_proof, message,
}
use zkevm_aggregator.Aggregator.Aggregate.{aggregate_locked}
use zkevm_aggregator.Aggregator.BatchProof.{get_and_lock_batch_to_prove, prove_batch}
use zkevm_aggregator.Aggregator.Settle.{send_final_proof}
use zkevm_aggregator.Aggregator.Stream.{FileEntry, Datastream, Stream}
use zkevm_aggregator.Aggregator.Stream.Entry.{handle_received_data_stream}

-- Where a goroutine stands, with the proofs that it has locked. Own proofs are those that it made,
-- the others were taken from the table to be verified.
pub data Pc : Type 0 where
  idle : Pc
  aggregating releasing : Proof → Proof → Pc
  proving : Batch → Bytes → Proof → Pc
  discarding hanging : Proof → Pc
  offering storing : Proof → Pc
  building : Bool → Proof → Pc
  sending : Bool → FinalProofMsg → Pc
  settling : FinalProofMsg → Pc

-- What an idle prover's goroutine may begin: the three parts of a turn of `Channel`.
pub data Choice : Type 0 where
  aggregate verify prove : Choice

module _ (env : Env) where
  abbrev pub after_pair : Try (Proof × Proof) → M Pc
  after_pair (done (p1, p2)) = pure (aggregating p1 p2)
  after_pair (failed e) = pure idle

  abbrev pub after_ready : Try Proof → M Pc
  after_ready (done p) = pure (building false p)
  after_ready (failed e) = pure idle

  abbrev pub lock_ready : Try ℕ → M Pc
  lock_ready (done last) = attempt (get_and_lock_proof_ready_to_verify env last) >>= after_ready
  lock_ready (failed e) = pure idle

  abbrev pub if_can_verify : Bool → M Pc
  if_can_verify true = attempt (get_latest_verified_batch_num env) >>= lock_ready
  if_can_verify false = pure idle

  -- Four nils are taken for a batch, and the nil pointer is followed.
  abbrev pub after_take : Try (Option (Batch × Bytes × Proof)) → M Pc
  after_take (done (some (batch, witness, p))) = pure (proving batch witness p)
  after_take (done none) = crash
  after_take (failed e) = pure idle

  unfoldable pub begins : Choice → M Pc
  begins aggregate = attempt (get_and_lock_proofs_to_aggregate env) >>= after_pair
  begins verify = can_verify_proof env >>= if_can_verify
  begins prove = attempt (get_and_lock_batch_to_prove env) >>= after_take

  abbrev pub after_aggregate : Proof → Proof → Try Proof → M Pc
  after_aggregate p1 p2 (done q) = pure (offering q)
  after_aggregate p1 p2 (failed e) = pure (releasing p1 p2)

  abbrev pub after_prove : Proof → Try Proof → M Pc
  after_prove p (done q) = pure (offering q)
  after_prove p (failed hangs) = pure (hanging p)
  after_prove p (failed e) = pure (discarding p)

  abbrev pub after_validate : Proof → Try Bool → M Pc
  after_validate p (done true) = pure (building true p)
  after_validate p _ = pure (storing p)

  abbrev pub validate : Proof → Try ℕ → M Pc
  validate p (done last) = attempt (validate_eligible_final_proof env p last) >>= after_validate p
  validate p (failed e) = pure (storing p)

  abbrev pub if_can_offer : Proof → Bool → M Pc
  if_can_offer p true = attempt (get_latest_verified_batch_num env) >>= validate p
  if_can_offer p false = pure (storing p)

  abbrev pub after_build : Bool → Proof × Try FinalProof → M Pc
  after_build own (p, done f) = pure (sending own (message env p f))
  after_build own (p, failed e) = pure (storing p)

  -- The proof's id is dereferenced for the log.
  abbrev pub build : Bool → Proof → Option Bytes → M Pc
  build own p none = crash
  build own p (some id) = build_final_proof env p >>= after_build own

  -- The context is done before the message is taken. A proof of the table is then left locked.
  abbrev pub give_up : Bool → FinalProofMsg → M Pc
  give_up true msg = pure (storing msg.recursive_proof)
  give_up false msg = pure idle

  -- The next step of a goroutine that is not idle. An error of an unlock or a deletion is logged.
  unfoldable pub goes_on : Ethereum → Pc → M Pc
  goes_on eth idle = pure idle
  goes_on eth (aggregating p1 p2) = attempt (aggregate_locked env p1 p2) >>= after_aggregate p1 p2
  goes_on eth (releasing p1 p2) = attempt (unlock_proofs_to_aggregate env p1 p2) >> pure idle
  goes_on eth (proving batch witness p) =
      attempt (prove_batch env eth batch witness p) >>= after_prove p
  goes_on eth (discarding p) =
      attempt (delete_proofs env pool p.batch_number p.batch_number_final) >> pure idle
  goes_on eth (hanging p) = pure (hanging p)
  goes_on eth (offering p) = can_verify_proof env >>= if_can_offer p
  goes_on eth (storing p) = attempt (update_proof env pool (unlocked p)) >> pure idle
  goes_on eth (building own p) = build own p p.proof_id
  goes_on eth (sending own msg) = give_up own msg
  goes_on eth (settling msg) = attempt (send_final_proof env msg) >> pure idle

abbrev pub update : (ℕ → Pc) → ℕ → Pc → ℕ → Pc
update doing i pc j = if j == i then pc else doing j

-- Goroutine 0 is `sendFinalProof`, and the others are the provers'.
pub record System : Type 0 where
  pub world : World
  pub doing : ℕ → Pc

-- Each goroutine has an environment of its own, with its prover. A panic ends the program, so that no
-- step follows it.
module _ (env : ℕ → Env) (eth : Ethereum) (ds : Datastream) where
  pub data Step (s : System) : System → Type 0 where
    goes :
        (i : ℕ) (pc : Pc) (w : World)
        → goes_on (env i) eth (s.doing i) s.world ≡ (ok pc, w)
        → Step s (record { world = w; doing = update s.doing i pc })
    starts :
        (i : ℕ) (c : Choice) (pc : Pc) (w : World)
        → 0 < i
        → s.doing i ≡ idle
        → begins (env i) c s.world ≡ (ok pc, w)
        → Step s (record { world = w; doing = update s.doing i pc })
    -- The channel has no buffer: the message passes to the goroutine that waits for it.
    hands_over :
        (i : ℕ) (own : Bool) (msg : FinalProofMsg)
        → s.doing i ≡ sending own msg
        → s.doing 0 ≡ idle
        → Step s (record s { doing = update (update s.doing i idle) 0 (settling msg) })
    receives :
        (rounds : ℕ) (entry : FileEntry) (st : Stream eth.Tx)
        → Step s (record s {
          world = (handle_received_data_stream (env 0) eth ds rounds entry st s.world).1.1;
        })

  pub data Reach (s : System) : System → Type 0 where
    here : Reach s s
    later : {t u : System} → Reach s t → Step t u → Reach s u
