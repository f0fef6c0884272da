-- ===== src/Aggregator/Service/Reach.antt =====
-- The provers' turns, the settling of final proofs and the stream's entries, in any order.
use zkevm_aggregator.Prelude.{ℕ, ◌<◌, ◌^◌, ◌≡◌, ◌∙◌, ap, inl, inr, Bool, true, Option, some}
use zkevm_aggregator.Prelude.Result.{Result, ok, err, panic}
use zkevm_aggregator.State.{Proof}
use zkevm_aggregator.State.Storage.{check_proof_exists_for_batch}
use zkevm_aggregator.State.Storage.Coverage.{covered-update}
use zkevm_aggregator.Ethereum.{Ethereum}
use zkevm_aggregator.Aggregator.{Err, Env, World, FinalProofMsg}
use zkevm_aggregator.Aggregator.Locks.{unlocked}
use zkevm_aggregator.Aggregator.Settle.{send_final_proof}
use zkevm_aggregator.Aggregator.Settle.Released.{Released, send_final_proof-Released}
use zkevm_aggregator.Aggregator.BatchProof.Locked.{check_of_rows}
use zkevm_aggregator.Aggregator.Stream.{FileEntry, Datastream, Stream}
use zkevm_aggregator.Aggregator.Stream.Entry.{handle_received_data_stream}
use zkevm_aggregator.Aggregator.Stream.Rows.{handle-Untouched}
use zkevm_aggregator.Aggregator.Service.{channel_turn}
use zkevm_aggregator.Aggregator.Service.Covered.{channel_turn-covered}

module _ (env : Env) (eth : Ethereum) (ds : Datastream) where
  -- A whole turn of one goroutine: turns follow each other, and do not overlap.
  pub data Step : World → World → Type 0 where
    prover_turn :
        (is_idle : ℕ → Option Bool) (halted : Bool) (w : World)
        → Step w (channel_turn env eth is_idle halted w).1
    settling : (msg : FinalProofMsg) (w : World) → Step w (send_final_proof env msg w).1
    stream_entry :
        (rounds : ℕ) (entry : FileEntry) (s : Stream eth.Tx) (w : World)
        → Step w (handle_received_data_stream env eth ds rounds entry s w).1.1

  pub data Reach : World → World → Type 0 where
    start : (w : World) → Reach w w
    next : (u v w : World) → Step u v → Reach v w → Reach u w

Released-covered :
    (n : ℕ) (p : Proof) (r : Result Err (Unit {0})) (w v : World)
    → Released p w r v
    → check_proof_exists_for_batch n v.db ≡ check_proof_exists_for_batch n w.db
Released-covered n p (ok _) w v (_, inl e) = ap (check_proof_exists_for_batch n) e
Released-covered n p (ok _) w v (_, inr (now, e)) =
    ap (check_proof_exists_for_batch n) e ∙ covered-update n now (unlocked p) w.db
Released-covered n p (err x) w v h = absurd h
Released-covered n p panic w v e = ap (check_proof_exists_for_batch n) e

module _ (env : Env) (eth : Ethereum) (ds : Datastream) (n : ℕ)
    (above : (k v : ℕ) → env.latest_verified_batch k ≡ some v → v < n) (fits : n < 2 ^ 64) where
  Step-covered :
      (w v : World)
      → Step env eth ds w v
      → check_proof_exists_for_batch n w.db ≡ true
      → check_proof_exists_for_batch n v.db ≡ true
  Step-covered _ _ (Step.prover_turn is_idle halted w) c =
      channel_turn-covered env n above fits eth is_idle halted w c
  Step-covered _ _ (Step.settling msg w) c =
      Released-covered n msg.recursive_proof _ w _ (send_final_proof-Released env msg w) ∙ c
  Step-covered _ _ (Step.stream_entry rounds entry s w) c =
      check_of_rows n w.db _ ((handle-Untouched env eth ds rounds entry).run s w) ∙ c

  -- Whatever whole turns the provers, the sender of final proofs and the stream take one after the
  -- other, in whatever order, a proved batch stays proved, wherever a call fails. The batch is below 2^64 and above every number
  -- that L1 answers for the last verified one.
  pub Reach-covered :
      (w v : World)
      → Reach env eth ds w v
      → check_proof_exists_for_batch n w.db ≡ true
      → check_proof_exists_for_batch n v.db ≡ true
  Reach-covered _ _ (Reach.start w) c = c
  Reach-covered _ _ (Reach.next u v w s r) c = Reach-covered v w r (Step-covered u v s c)
