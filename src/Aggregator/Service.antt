-- ===== src/Aggregator/Service.antt =====
-- aggregator.go: what runs when the aggregator starts, a turn of the loop of `Channel`, a turn of
-- `cleanupLockedProofs`, `handleReorg`, and the retrieval of a witness. Each loop is given by its turn.
pub mod Covered
pub mod Witness
pub mod SetUp
pub mod Cleanup
pub mod Reach
use zkevm_aggregator.Prelude.{
  ℕ, zero, suc, ◌+◌, ◌^◌, Bool, true, false, Option, none, some, List, [], ◌∷◌, if◌then◌else◌,
  replicate,
}
use zkevm_aggregator.State.{Bytes, Batch, unspecified, DbBatch, u64}
use zkevm_aggregator.State.Storage.{
  add_batch, cleanup_locked_proofs, delete_ungenerated_proofs,
  delete_batches_older_than_batch_number, delete_batches_newer_than_batch_number,
}
use zkevm_aggregator.State.Storage.{Db}
use zkevm_aggregator.State.Storage.Interval.{IntervalError, to_postgres_interval}
use zkevm_aggregator.Prelude.Result.{Result, ok, err, panic}
use zkevm_aggregator.Hex.{hex_to_bytes, make_even, trim_left_0x}
use zkevm_aggregator.Ethereum.{Ethereum}
use zkevm_aggregator.Aggregator.{
  Err, failure, crash, eth_failure, hangs, out_of_fuel, Env, World, M, Try, done, failed, pure,
  throw, attempt, or_throw, ◌>>=◌, ◌>>◌,
}
use zkevm_aggregator.Aggregator.Calls.{pool, ask, exec, get_latest_verified_batch_num}
use zkevm_aggregator.Aggregator.Verify.{try_build_final_proof, reset_verify_proof_time}
use zkevm_aggregator.Aggregator.Aggregate.{try_aggregate_proofs}
use zkevm_aggregator.Aggregator.BatchProof.{try_generate_batch_proof}

-- `getWitness` from the text of the answer on.
unfoldable pub witness_bytes : Bytes → Bytes
unfolding trim_left_0x hex_to_bytes
witness_bytes witness = hex_to_bytes (make_even (trim_left_0x witness))

abbrev pub unless_hangs : {A : Type 0} → M (Unit {0}) → Try A → M (Unit {0})
unless_hangs next (failed hangs) = throw hangs
unless_hangs next _ = next

abbrev pub the_interval : Result IntervalError Bytes → M Bytes
the_interval (ok text) = pure text
the_interval (err e) = throw failure
the_interval panic = crash

abbrev pub cleaned : ℕ → Option ℕ → Db → Option Db
cleaned now none db = none
cleaned now (some interval) db = some (cleanup_locked_proofs now interval db)

-- After the attempt to aggregate: a batch is proved if no proof came of it.
abbrev pub unless_generated : M (Unit {0}) → Try Bool → M (Unit {0})
unless_generated next (done true) = pure tt
unless_generated next (done false) = next
unless_generated next (failed e) = next

module _ (env : Env) where
  -- The row that stands for the last verified batch: the fields that are not set are Go's zeros.
  abbrev pub dummy_db_batch : ℕ → Bytes → DbBatch
  dummy_db_batch n acc_input_hash = record {
    batch = record {
      batch_number = n;
      coinbase = replicate 20 0;
      batch_l2_data = [];
      state_root = replicate 32 0;
      local_exit_root = replicate 32 0;
      acc_input_hash = acc_input_hash;
      l1_info_tree_index = 0;
      l1_info_root = replicate 32 0;
      timestamp = 0;
      global_exit_root = replicate 32 0;
      forced_batch_num = none;
      chain_id = 0;
      fork_id = 0;
      batch_type = unspecified;
    };
    datastream = 0 ∷ [];
    witness = 0 ∷ [];
  }

  -- The part of `Start` that sets up the tables. `get_batch_acc_input_hash` is L1's answer.
  unfoldable pub set_up : (ℕ → ℕ → Option Bytes) → M (Unit {0})
  unfolding reset_verify_proof_time
  set_up get_batch_acc_input_hash = do
    last ← get_latest_verified_batch_num env
    exec env pool (λ db. some (delete_batches_older_than_batch_number last db))
    exec env pool (λ db. some (delete_ungenerated_proofs db))
    hash ← ask env (λ k. get_batch_acc_input_hash k last) >>= or_throw eth_failure
    exec env pool (λ db. some (add_batch (dummy_db_batch last hash) db))
    reset_verify_proof_time env

  -- The prover's answer to `IsIdle`, `none` an error: only an idle prover is given work.
  unfoldable pub work : Ethereum → Option Bool → M (Unit {0})
  unfolding try_build_final_proof try_aggregate_proofs try_generate_batch_proof
  work eth none = pure tt
  work eth (some false) = pure tt
  work eth (some true) = do
    _ ← attempt (try_build_final_proof env)
    r ← attempt (try_aggregate_proofs env)
    unless_generated (attempt (try_generate_batch_proof env eth) >>= unless_hangs (pure tt)) r

  -- A turn of the loop of `Channel`, where neither context is done.
  unfoldable pub channel_turn : Ethereum → (ℕ → Option Bool) → Bool → M (Unit {0})
  unfolding work
  channel_turn eth is_idle halted = if halted then pure tt else (ask env is_idle >>= work eth)

  -- `CleanupLockedProofs`. `read_interval` is how Postgres reads an interval, `none` a text that it
  -- refuses.
  unfoldable pub cleanup_locked : (Bytes → Option ℕ) → Bytes → ℕ → M (Unit {0})
  unfolding to_postgres_interval
  cleanup_locked read_interval duration now = do
    text ← the_interval (to_postgres_interval duration)
    exec env pool (cleaned now (read_interval text))

  -- A turn of `cleanupLockedProofs`, for the threshold of the configuration. An error is logged.
  unfoldable pub cleanup_turn : (Bytes → Option ℕ) → M (Unit {0})
  unfolding cleanup_locked
  cleanup_turn read_interval = do
    now ← ask env env.clock
    _ ← attempt (cleanup_locked read_interval env.cfg.generating_proof_cleanup_threshold now)
    pure tt

  abbrev pub delete_newer : Option ℕ → M (Unit {0})
  delete_newer none = pure tt
  delete_newer (some last) = do
    _ ← attempt (exec env pool (λ db. some (delete_batches_newer_than_batch_number last db)))
    pure tt

  -- `handleReorg`: it halts the aggregator and never returns.
  unfoldable pub handle_reorg : M (Unit {0})
  handle_reorg = do ask env env.l1.latest_virtual_batch_number >>= delete_newer; throw hangs

  -- A batch that could not be stored is retrieved again.
  abbrev pub after_add : M DbBatch → DbBatch → Try (Unit {0}) → M DbBatch
  after_add again b (done _) = pure b
  after_add again b (failed _) = again

  unfoldable pub after_answer : M DbBatch → DbBatch → Option Bytes → M DbBatch
  unfolding witness_bytes
  after_answer again b none = again
  after_answer again b (some text) =
      let b' = record b { witness = witness_bytes text } in
      attempt (exec env pool (λ db. some (add_batch b' db))) >>= after_add again b'

  -- The inner loop of `retrieveWitness` for one batch: `none` is any error of the server's, of the
  -- call's or of the JSON text. `rounds` is how many times it is tried at most.
  unfoldable pub retrieve_witness : ℕ → (ℕ → ℕ → Option Bytes) → DbBatch → M DbBatch
  unfolding after_answer
  retrieve_witness zero server b = throw out_of_fuel
  retrieve_witness (suc rounds) server b =
      ask env (λ k. server k b.batch.batch_number)
      >>= after_answer (retrieve_witness rounds server b) b
