-- ===== src/Aggregator/BatchProof/Own.antt =====
-- The proof that comes of a batch is for that batch.
use zkevm_aggregator.Prelude.{◌≡◌, refl, Option}
use zkevm_aggregator.Prelude.Result.{ok}
use zkevm_aggregator.State.{Bytes, Batch, Proof}
use zkevm_aggregator.Ethereum.{Ethereum}
use zkevm_aggregator.Aggregator.{Env, World}
use zkevm_aggregator.Aggregator.Yields.{Yields, Yields-bind, Yields-pure}
use zkevm_aggregator.Aggregator.BatchProof.{prove_batch}

abbrev pub SameRange : Proof → Proof → Type 0
SameRange p q = (q.batch_number ≡ p.batch_number) × (q.batch_number_final ≡ p.batch_number_final)

module _ (env : Env) (eth : Ethereum) (batch : Batch) (witness : Bytes) (p : Proof) where
  with_result-SameRange :
      (id : Option Bytes) (result : Bytes)
      → SameRange p (record p { proof_id = id; proof = result })
  with_result-SameRange id result = (refl, refl)

  prove_batch-Yields : Yields (SameRange p) (prove_batch env eth batch witness p)
  unfolding prove_batch
  prove_batch-Yields = search (Yields-bind, Yields-pure, with_result-SameRange) depth 12

  -- The proof that `prove_batch` returns has the range of the one that it is given.
  pub prove_batch-SameRange :
      (w w' : World) (q : Proof)
      → prove_batch env eth batch witness p w ≡ (ok q, w')
      → SameRange p q
  prove_batch-SameRange w w' q e = prove_batch-Yields.run w w' q e
