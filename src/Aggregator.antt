-- ===== src/Aggregator.antt =====
-- aggregator/aggregator.go: the state that the aggregator's functions share, and the monad in which
-- they are written. A function of `*Aggregator` is a function from the world to a result and the
-- world after it.
--
-- Whatever is not in the repository (Postgres failing, L1, the prover on the other end of its
-- stream, the clock, a cancelled context) answers through `Env`: its functions take the number of
-- calls made before, so an answer may differ from call to call in any way, and a theorem for every
-- `Env` covers every sequence of failures. Logging and metrics are left out.
pub mod Signed
pub mod Calls
pub mod Keeps
pub mod Quiet
pub mod Post
pub mod Yields
pub mod Locks
pub mod Verify
pub mod Aggregate
pub mod Settle
pub mod BatchProof
pub mod Stream
pub mod Service
pub mod Interleaved
use zkevm_aggregator.Prelude.{
  ℕ, suc, ◌+◌, Bool, true, false, Option, none, some, List, [], ◌∷◌, ◌++◌, if◌then◌else◌,
}
use zkevm_aggregator.Prelude.Result.{Result, ok, err, panic}
use zkevm_aggregator.State.{Bytes, Sequence, Proof}
use zkevm_aggregator.State.Storage.{Db}
use zkevm_aggregator.Profitability.{ProfitabilityChecker}
use zkevm_aggregator.Synchronizer.{Synchronizer}
use zkevm_aggregator.Prover.Input.{StatelessInputProver}

-- `not_found` is `state.ErrNotFound`, `l1_not_found` is `entities.ErrNotFound`, `ctx_done` is
-- `ctx.Err()`. The others are not told apart by any caller. `out_of_fuel` is no Go error: a loop of
-- the model used up its rounds; nor is `hangs`: the code waits for ever at that place.
pub data Err : Type 0 where
  not_found l1_not_found ctx_done db_failure eth_failure prover_failure failure hangs out_of_fuel :
      Err

-- `prover.FinalProof` with its public inputs.
pub record FinalProof : Type 0 where
  pub proof : Bytes
  pub new_state_root : Bytes
  pub new_local_exit_root : Bytes

pub record FinalProofMsg : Type 0 where
  pub prover_name : Bytes
  pub prover_id : Bytes
  pub recursive_proof : Proof
  pub final_proof : FinalProof

-- `Tx` of agglayer_tx.go with its `ZKP`.
pub record AggLayerTx : Type 0 where
  pub last_verified_batch : ℕ
  pub new_verified_batch : ℕ
  pub new_state_root : Bytes
  pub new_local_exit_root : Bytes
  pub proof : Bytes
  pub rollup_id : ℕ

-- The fields of `Config` that the functions read.
pub record Config : Type 0 where
  pub sender_address : Bytes
  pub verify_proof_interval : ℕ
  pub batch_proof_sanity_check_enabled : Bool
  pub agg_layer_settlement : Bool
  pub generating_proof_cleanup_threshold : Bytes
  pub profitability_checker : ProfitabilityChecker
  pub use_l1_batch_data : Bool

-- What settling asks of L1 and of the AggLayer: a transaction built, its entry in the transaction
-- manager, and whether a monitored transaction fails; the transaction signed, sent and mined. `none`
-- and `false` are errors.
pub record Settlement : Type 0 where
  pub build_trusted_verify_batches_tx_data : ℕ → ℕ → ℕ → FinalProof → Bytes → Bytes → Option Bytes
  pub add_monitored_tx : ℕ → Bytes → Bool
  pub has_failed_tx : ℕ → Bool
  pub sign : AggLayerTx → Option Bytes
  pub send_tx : ℕ → Bytes → Option Bytes
  pub wait_tx_to_be_mined : ℕ → Bytes → Bool
  pub rollup_id : ℕ

pub record Env : Type 0 where
  pub cfg : Config
  pub clock : ℕ → ℕ
  pub db_fails : ℕ → Bool
  pub is_ctx_done : ℕ → Bool
  pub latest_verified_batch : ℕ → Option ℕ
  pub prover_name : Bytes
  pub prover_id : Bytes
  pub marshal_proofs : Bytes → Bytes → Option Bytes
  pub aggregated_proof : ℕ → Bytes → Bytes → Option Bytes
  pub wait_recursive_proof : ℕ → Bytes → Option (Bytes × Bytes)
  pub final_proof : ℕ → Bytes → Bytes → Option Bytes
  pub wait_final_proof : ℕ → Bytes → Option FinalProof
  pub batch_proof : ℕ → StatelessInputProver → Option Bytes
  pub l1 : Synchronizer
  pub settlement : Settlement
  pub keccak : Bytes → Bytes

-- `db` is what is committed and `tx_db` what the open transaction sees; `calls` counts the calls
-- made to the environment; `final_proofs` are the messages taken from the channel `finalProof`.
pub record World : Type 0 where
  pub db : Db
  pub tx_db : Db
  pub calls : ℕ
  pub verifying_proof : Bool
  pub time_send_final_proof : ℕ
  pub final_proofs : List FinalProofMsg

abbrev pub M : Type 0 → Type 0
M A = World → Result Err A × World

abbrev pub pure : {A : Type 0} → A → M A
pure a w = (ok a, w)

abbrev pub throw : {A : Type 0} → Err → M A
throw e w = (err e, w)

abbrev pub crash : {A : Type 0} → M A
crash w = (panic, w)

abbrev pub continue : {A B : Type 0} → (A → M B) → Result Err A → World → Result Err B × World
continue f (ok a) w = f a w
continue f (err e) w = (err e, w)
continue f panic w = (panic, w)

infixl 5 ◌>>=◌ ◌>>◌
abbrev pub ◌>>=◌ : {A B : Type 0} → M A → (A → M B) → M B
◌>>=◌ m f w = let (r, w') = m w in continue f r w'

abbrev pub ◌>>◌ : {A B : Type 0} → M A → M B → M B
m >> k = m >>= λ _. k

-- `x, err := f()` followed by code that looks at `err`. A panic goes through.
pub data Try (A : Type 0) : Type 0 where
  done : A → Try A
  failed : Err → Try A

abbrev pub tried : {A : Type 0} → Result Err A → Result Err (Try A)
tried (ok a) = ok (done a)
tried (err e) = ok (failed e)
tried panic = panic

abbrev pub attempt : {A : Type 0} → M A → M (Try A)
attempt m w = let (r, w') = m w in (tried r, w')

abbrev pub or_throw : {A : Type 0} → Err → Option A → M A
or_throw e none w = (err e, w)
or_throw e (some a) w = (ok a, w)

abbrev pub next_call : World → World
next_call w = record w { calls = w.calls + 1 }
