-- ===== src/Aggregator/BatchProof/Silent.antt =====
-- Building the prover's input and waiting for its proof touch no table.
use zkevm_aggregator.Prelude.{ℕ, Bool, true, false, List, [], ◌∷◌, ◌++◌, if◌then◌else◌}
use zkevm_aggregator.Prelude.Result.{Result, ok, err, panic}
use zkevm_aggregator.State.{Bytes, Batch, Proof}
use zkevm_aggregator.Prover.Input.{L1Data}
use zkevm_aggregator.Ethereum.{Ethereum}
use zkevm_aggregator.Synchronizer.{L1Answer, answered, absent, broken, L1InfoTreeLeaf, VirtualBatch}
use zkevm_aggregator.Aggregator.{Env, M}
use zkevm_aggregator.Aggregator.Quiet.{
  Quiet, quiet, Quiet-bind, Quiet-pure, Quiet-throw, Quiet-crash,
}
use zkevm_aggregator.Aggregator.BatchProof.Input.{
  lift, leafs_of, virtual_of, entry_for, entries_for, regular_data, forced_data, build_input_prover,
}
use zkevm_aggregator.Aggregator.BatchProof.{prove_batch}

pub Quiet-if : {A : Type 0} (b : Bool) (m k : M A) → Quiet m → Quiet k → Quiet (if b then m else k)
Quiet-if true m k hm hk = hm
Quiet-if false m k hm hk = hk

pub Quiet-lift : {A E : Type 0} (r : Result E A) → Quiet (lift r)
Quiet-lift (ok a) = Quiet-pure a
Quiet-lift (err _) = Quiet-throw _
Quiet-lift panic = Quiet-crash

Quiet-leafs_of : (a : L1Answer (List L1InfoTreeLeaf)) → Quiet (leafs_of a)
Quiet-leafs_of (answered ls) = Quiet-pure ls
Quiet-leafs_of absent = Quiet-pure []
Quiet-leafs_of broken = Quiet-throw _

Quiet-virtual_of : (a : L1Answer VirtualBatch) → Quiet (virtual_of a)
Quiet-virtual_of (answered v) = Quiet-pure v
Quiet-virtual_of absent = Quiet-throw _
Quiet-virtual_of broken = Quiet-throw _

ruleset parts = (Quiet-if, Quiet-lift, Quiet-leafs_of, Quiet-virtual_of)

module _ (env : Env) where
  entry_for-Quiet :
      (height : ℕ) (root : Bytes) (leaves : List Bytes) (i : ℕ)
      → Quiet (entry_for env height root leaves i)
  unfolding entry_for
  entry_for-Quiet height root leaves i = search (quiet, parts)

  entries_for-Quiet :
      (height : ℕ) (root : Bytes) (leaves : List Bytes) (is : List ℕ) (entries : List (ℕ × L1Data))
      → Quiet (entries_for env height root leaves is entries)
  unfolding entries_for
  entries_for-Quiet height root leaves [] entries = search (quiet, parts)
  entries_for-Quiet height root leaves (i ∷ is) entries =
      Quiet-if _ _ _ (entries_for-Quiet height root leaves is entries) (
        Quiet-bind _ _ (entry_for-Quiet height root leaves i)
          (λ e. entries_for-Quiet height root leaves is (entries ++ (e ∷ []))))

  regular_data-Quiet : (eth : Ethereum) (batch : Batch) → Quiet (regular_data env eth batch)
  unfolding regular_data
  regular_data-Quiet eth batch = search (quiet, parts, entries_for-Quiet)

  forced_data-Quiet : (batch : Batch) → Quiet (forced_data env batch)
  unfolding forced_data
  forced_data-Quiet batch = search (quiet, parts)

  pub build_input_prover-Quiet :
      (eth : Ethereum) (batch : Batch) (witness : Bytes)
      → Quiet (build_input_prover env eth batch witness)
  unfolding build_input_prover
  build_input_prover-Quiet eth batch witness =
      search (quiet, parts, regular_data-Quiet, forced_data-Quiet)

  pub prove_batch-Quiet :
      (eth : Ethereum) (batch : Batch) (witness : Bytes) (proof : Proof)
      → Quiet (prove_batch env eth batch witness proof)
  unfolding prove_batch
  prove_batch-Quiet eth batch witness proof =
      search (quiet, parts, build_input_prover-Quiet) depth 12
