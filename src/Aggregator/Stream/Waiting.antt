-- ===== src/Aggregator/Stream/Waiting.antt =====
-- The wait for a virtual batch ends as soon as L1 has it.
use zkevm_aggregator.Prelude.{ℕ, zero, suc, ◌+◌, ◌<◌, ◌≡◌, ◌∙◌, ap, subst, arith}
use zkevm_aggregator.Prelude.Result.{ok}
use zkevm_aggregator.Synchronizer.{answered, absent, VirtualBatch}
use zkevm_aggregator.Aggregator.{Env, World, next_call}
use zkevm_aggregator.Aggregator.Stream.Waits.{get_virtual_batch}

-- The wait of `handleReceivedDataStream` returns the virtual batch once L1 answers with it, after any
-- number of answers that it is not there yet, and it makes one call for each answer. The loop is given
-- more rounds than there are such answers.
pub get_virtual_batch_returns :
    (env : Env) (n waits rounds : ℕ) (v : VirtualBatch) (w : World)
    → waits < rounds
    → ((i : ℕ) → i < waits → env.l1.virtual_batch_by_batch_number (w.calls + i) n ≡ absent)
    → env.l1.virtual_batch_by_batch_number (w.calls + waits) n ≡ answered v
    → get_virtual_batch env rounds n w ≡ (ok v, record w { calls = w.calls + waits + 1 })
unfolding get_virtual_batch
get_virtual_batch_returns env n waits zero v w enough absents there = absurd (omega arith)
get_virtual_batch_returns env n zero (suc rounds) v w enough absents there =
    let h : env.l1.virtual_batch_by_batch_number w.calls n ≡ answered v =
      subst (λ k. env.l1.virtual_batch_by_batch_number k n ≡ answered v) (omega arith) there in
    rw h (ap (λ k. (ok v, record w { calls = k })) (omega arith))
get_virtual_batch_returns env n (suc waits) (suc rounds) v w enough absents there =
    let h : env.l1.virtual_batch_by_batch_number w.calls n ≡ absent =
      subst (λ k. env.l1.virtual_batch_by_batch_number k n ≡ absent) (omega arith)
        (absents 0 (omega arith)) in
    rw h (
      get_virtual_batch_returns env n waits rounds v (next_call w) (omega arith)
        (λ i l.
          subst (λ k. env.l1.virtual_batch_by_batch_number k n ≡ absent) (omega arith)
            (absents (suc i) (omega arith)))
        (subst (λ k. env.l1.virtual_batch_by_batch_number k n ≡ answered v) (omega arith) there)
      ∙ ap (λ k. (ok v, record w { calls = k })) (omega arith))
