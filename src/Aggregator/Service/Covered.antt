-- ===== src/Aggregator/Service/Covered.antt =====
-- A turn of `Channel` never loses a proved batch.
use zkevm_aggregator.Prelude.{ℕ, ◌<◌, ◌^◌, ◌≡◌, ◌∙◌, Bool, true, false, Option, none, some}
use zkevm_aggregator.Prelude.Result.{Result, ok, err, panic}
use zkevm_aggregator.State.Storage.{check_proof_exists_for_batch}
use zkevm_aggregator.Ethereum.{Ethereum}
use zkevm_aggregator.Aggregator.{
  Err, hangs, Env, World, M, Try, done, failed, pure, attempt, continue, ◌>>=◌,
}
use zkevm_aggregator.Aggregator.Calls.{ask}
use zkevm_aggregator.Aggregator.Keeps.{Keeps}
use zkevm_aggregator.Aggregator.Verify.Eligible.{try_build_final_proof-Keeps}
use zkevm_aggregator.Aggregator.Aggregate.{try_aggregate_proofs}
use zkevm_aggregator.Aggregator.Aggregate.Covered.{try_aggregate_proofs_covered}
use zkevm_aggregator.Aggregator.BatchProof.{try_generate_batch_proof}
use zkevm_aggregator.Aggregator.BatchProof.Covered.{try_generate_batch_proof-covered}
use zkevm_aggregator.Aggregator.Service.{unless_hangs, unless_generated, work, channel_turn}

-- A proved batch stays proved, whatever the outcome. The rules follow the do blocks.
record Holds (n : ℕ) {A : Type 0} (m : M A) : Type 0 where
  run :
      (w : World)
      → check_proof_exists_for_batch n w.db ≡ true
      → check_proof_exists_for_batch n (m w).1.db ≡ true

module _ (n : ℕ) where
  Holds-pure : {A : Type 0} (a : A) → Holds n (pure a)
  Holds-pure a = record { run = λ w h. h }

  Holds-continue :
      {A B : Type 0} (f : A → M B) (r : Result Err A) (w : World)
      → ((a : A) → Holds n (f a))
      → check_proof_exists_for_batch n w.db ≡ true
      → check_proof_exists_for_batch n (continue f r w).1.db ≡ true
  Holds-continue f (ok a) w h c = (h a).run w c
  Holds-continue f (err e) w h c = c
  Holds-continue f panic w h c = c

  Holds-bind :
      {A B : Type 0} (m : M A) (f : A → M B)
      → Holds n m
      → ((a : A) → Holds n (f a))
      → Holds n (m >>= f)
  Holds-bind m f hm hf = record { run = λ w c. Holds-continue f (m w).0 (m w).1 hf (hm.run w c) }

  Holds-attempt : {A : Type 0} (m : M A) → Holds n m → Holds n (attempt m)
  Holds-attempt m h = record { run = λ w c. h.run w c }

  Holds-of_Keeps : {A : Type 0} (m : M A) → Keeps (check_proof_exists_for_batch n) m → Holds n m
  Holds-of_Keeps m k = record { run = λ w c. k.run w ∙ c }

  Holds-unless_generated :
      (next : M (Unit {0})) (r : Try Bool) → Holds n next → Holds n (unless_generated next r)
  Holds-unless_generated next (done true) h = Holds-pure tt
  Holds-unless_generated next (done false) h = h
  Holds-unless_generated next (failed e) h = h

  Holds-unless_hangs : {A : Type 0} (r : Try A) → Holds n (unless_hangs (pure tt) r)
  Holds-unless_hangs (done a) = Holds-pure tt
  Holds-unless_hangs (failed hangs) = record { run = λ w c. c }
  Holds-unless_hangs (failed e) = Holds-pure tt

module _ (env : Env) (n : ℕ) (above : (k v : ℕ) → env.latest_verified_batch k ≡ some v → v < n)
    (fits : n < 2 ^ 64) where
  work-Holds : (eth : Ethereum) (idle : Option Bool) → Holds n (work env eth idle)
  unfolding work
  work-Holds eth none = Holds-pure n tt
  work-Holds eth (some false) = Holds-pure n tt
  work-Holds eth (some true) =
      Holds-bind n _ _ (Holds-attempt n _ (Holds-of_Keeps n _ (try_build_final_proof-Keeps env n)))
        (λ _.
          Holds-bind n _ _
            (Holds-attempt n (try_aggregate_proofs env)
              (record { run = λ w c. try_aggregate_proofs_covered env n above fits w ∙ c }))
            (λ r. Holds-unless_generated n _ r (
              Holds-bind n _ _
                (Holds-attempt n (try_generate_batch_proof env eth) (record {
                  run = λ w c. try_generate_batch_proof-covered env n above fits eth w c;
                }))
                (Holds-unless_hangs n))))

  -- A turn of the loop of `Channel`, with all that it calls, leaves every proved batch proved, whatever
  -- the database, L1 and the prover answer and wherever they fail. The batch is below 2^64 and above
  -- every number that L1 answers for the last verified one.
  pub channel_turn-covered :
      (eth : Ethereum) (is_idle : ℕ → Option Bool) (halted : Bool) (w : World)
      → check_proof_exists_for_batch n w.db ≡ true
      → check_proof_exists_for_batch n (channel_turn env eth is_idle halted w).1.db ≡ true
  unfolding channel_turn
  channel_turn-covered eth is_idle true w c = c
  channel_turn-covered eth is_idle false w c =
      (Holds-bind n (ask env is_idle) _ (record { run = λ w c. c }) (work-Holds eth)).run w c
