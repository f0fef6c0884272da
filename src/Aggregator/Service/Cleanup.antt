-- ===== src/Aggregator/Service/Cleanup.antt =====
-- A turn of `cleanupLockedProofs` removes stale locks only.
use zkevm_aggregator.Prelude.{ℕ, ◌≡◌, refl, Bool-cases, inl, inr, not, Option, none, some, Memᴰ}
use zkevm_aggregator.Prelude.Members.{mem_keep_if, keep_if_parts}
use zkevm_aggregator.Prelude.Result.{Result, ok, err, panic}
use zkevm_aggregator.State.{Bytes, Proof}
use zkevm_aggregator.State.Storage.{Db, is_stale, cleanup_locked_proofs}
use zkevm_aggregator.State.Storage.Interval.{IntervalError, to_postgres_interval}
use zkevm_aggregator.Aggregator.{Env, Err, World, continue, tried, pure, next_call, ◌>>=◌}
use zkevm_aggregator.Aggregator.Calls.{pool, exec}
use zkevm_aggregator.Aggregator.Service.{the_interval, cleaned, cleanup_locked, cleanup_turn}

-- What a cleanup leaves: every finished proof, no proof that was not there, the other tables.
pub record Kept (db db' : Db) : Type 0 where
  pub finished : (p : Proof) → p.generating_since ≡ none → Memᴰ p db.proofs → Memᴰ p db'.proofs
  pub none_new : (p : Proof) → Memᴰ p db'.proofs → Memᴰ p db.proofs
  pub sequences : db'.sequences ≡ db.sequences
  pub batches : db'.batches ≡ db.batches

Kept-refl : (db : Db) → Kept db db
Kept-refl db = record {
  finished = λ p e m. m;
  none_new = λ p m. m;
  sequences = refl;
  batches = refl;
}

cleanup_locked_proofs-Kept : (now i : ℕ) (db : Db) → Kept db (cleanup_locked_proofs now i db)
unfolding cleanup_locked_proofs
cleanup_locked_proofs-Kept now i db = record {
  finished = λ p e m. mem_keep_if (λ q. not (is_stale now i q)) db.proofs m (rw e refl);
  none_new = λ p m. (keep_if_parts (λ q. not (is_stale now i q)) db.proofs m).0;
  sequences = refl;
  batches = refl;
}

module _ (env : Env) where
  exec-Kept :
      (now : ℕ) (i : Option ℕ) (w : World) → Kept w.db (exec env pool (cleaned now i) w).1.db
  exec-Kept now none w = elim (Bool-cases (env.db_fails w.calls)) [
    | inl e ↦ rw e (Kept-refl w.db)
    | inr e ↦ rw e (Kept-refl w.db)
  ]
  exec-Kept now (some i) w = elim (Bool-cases (env.db_fails w.calls)) [
    | inl e ↦ rw e (Kept-refl w.db)
    | inr e ↦ rw e (cleanup_locked_proofs-Kept now i w.db)
  ]

  for_interval-Kept :
      (read_interval : Bytes → Option ℕ) (r : Result IntervalError Bytes) (now : ℕ) (w : World)
      → Kept w.db
          ((the_interval r >>= λ text. exec env pool (cleaned now (read_interval text))) w).1.db
  for_interval-Kept read_interval (ok text) now w = exec-Kept now (read_interval text) w
  for_interval-Kept read_interval (err e) now w = Kept-refl w.db
  for_interval-Kept read_interval panic now w = Kept-refl w.db

  cleanup_locked-Kept :
      (read_interval : Bytes → Option ℕ) (duration : Bytes) (now : ℕ) (w : World)
      → Kept w.db (cleanup_locked env read_interval duration now w).1.db
  unfolding cleanup_locked
  cleanup_locked-Kept read_interval duration =
      for_interval-Kept read_interval (to_postgres_interval duration)

  logged-Kept :
      (db : Db) (r : Result Err (Unit {0})) (w : World)
      → Kept db w.db
      → Kept db (continue (λ _. pure tt) (tried r) w).1.db
  logged-Kept db (ok a) w h = h
  logged-Kept db (err e) w h = h
  logged-Kept db panic w h = h

  -- A turn of `cleanupLockedProofs`, whatever the threshold, the clock and the failures, keeps every
  -- proof that is not being generated, adds no proof, and leaves the sequences and the batches.
  pub cleanup_turn-Kept :
      (read_interval : Bytes → Option ℕ) (w : World)
      → Kept w.db (cleanup_turn env read_interval w).1.db
  unfolding cleanup_turn
  cleanup_turn-Kept read_interval w =
      logged-Kept w.db
        (cleanup_locked env read_interval env.cfg.generating_proof_cleanup_threshold
          (env.clock w.calls) (next_call w)).0
        _
        (cleanup_locked-Kept read_interval env.cfg.generating_proof_cleanup_threshold
          (env.clock w.calls) (next_call w))
