-- ===== src/Aggregator/Calls.antt =====
-- The calls that leave the aggregator: the statements of pgstatestorage behind a connection that may
-- fail, transactions, the clock. `getExecQuerier` sends a statement to the open transaction or to
-- the pool.
use zkevm_aggregator.Prelude.{ℕ, ◌+◌, Option, none, some, if◌then◌else◌}
use zkevm_aggregator.Prelude.Result.{Result, ok, err}
use zkevm_aggregator.State.{Proof, DbBatch}
use zkevm_aggregator.State.Storage.{
  Db, add_generated_proof, update_generated_proof, delete_generated_proofs, get_batch,
}
use zkevm_aggregator.Aggregator.{
  Err, not_found, db_failure, eth_failure, Env, World, M, next_call, or_throw, ◌>>=◌,
}

pub data Handle : Type 0 where
  pool tx : Handle

abbrev pub target : Handle → World → Db
target pool w = w.db
target tx w = w.tx_db

abbrev pub put : Handle → Db → World → World
put pool db w = record w { db = db }
put tx db w = record w { tx_db = db }

module _ (env : Env) where
  -- A call to the environment, numbered.
  abbrev pub ask : {A : Type 0} → (ℕ → A) → M A
  ask f w = (ok (f w.calls), next_call w)

  -- A statement that reads.
  abbrev pub query : {A : Type 0} → Handle → (Db → A) → M A
  query h f w =
      if env.db_fails w.calls
      then (err db_failure, next_call w)
      else (ok (f (target h w)), next_call w)

  -- A statement that writes; `none` is a violated constraint.
  abbrev pub write : Option Db → Handle → World → Result Err (Unit {0}) × World
  write none h w = (err db_failure, w)
  write (some db) h w = (ok tt, put h db w)

  abbrev pub exec : Handle → (Db → Option Db) → M (Unit {0})
  exec h f w =
      if env.db_fails w.calls
      then (err db_failure, next_call w)
      else write (f (target h w)) h (next_call w)

  abbrev pub begin_state_transaction : M (Unit {0})
  begin_state_transaction w =
      if env.db_fails w.calls
      then (err db_failure, next_call w)
      else (ok tt, record w { calls = w.calls + 1; tx_db = w.db })

  -- A commit that fails leaves the committed tables as they were; so does any rollback.
  abbrev pub commit : M (Unit {0})
  commit w =
      if env.db_fails w.calls
      then (err db_failure, next_call w)
      else (ok tt, record w { calls = w.calls + 1; db = w.tx_db })

  abbrev pub rollback : M (Unit {0})
  rollback w = if env.db_fails w.calls then (err db_failure, next_call w) else (ok tt, next_call w)

  abbrev pub update_proof : Handle → Proof → M (Unit {0})
  update_proof h p = do now ← ask env.clock; exec h (λ db. some (update_generated_proof now p db))

  abbrev pub add_proof : Handle → Proof → M (Unit {0})
  add_proof h p = do now ← ask env.clock; exec h (add_generated_proof now p)

  abbrev pub delete_proofs : Handle → ℕ → ℕ → M (Unit {0})
  delete_proofs h from to = exec h (λ db. some (delete_generated_proofs from to db))

  abbrev pub get_latest_verified_batch_num : M ℕ
  get_latest_verified_batch_num = ask env.latest_verified_batch >>= or_throw eth_failure

  abbrev pub get_db_batch : ℕ → M DbBatch
  get_db_batch n = query pool (get_batch n) >>= or_throw not_found
