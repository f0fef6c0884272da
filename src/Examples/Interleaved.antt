-- ===== src/Examples/Interleaved.antt =====
-- Two provers' goroutines take a pair of proofs each, and one aggregates its pair.
use zkevm_aggregator.Prelude.{◌≡◌, refl, arith}
use zkevm_aggregator.Prelude.Result.{Result, ok}
use zkevm_aggregator.Aggregator.{Err}
use zkevm_aggregator.Aggregator.Locks.{locked_at, get_and_lock_proofs_to_aggregate}
use zkevm_aggregator.Aggregator.Aggregate.{aggregate_locked, replace_proofs}
use zkevm_aggregator.Aggregator.Interleaved.{
  Pc, idle, aggregating, aggregate, begins, goes_on, update, System, Step, Reach,
}
use zkevm_aggregator.Aggregator.Interleaved.Exclusive.{IsExclusive, reach-IsExclusive}
use zkevm_aggregator.Aggregator.Interleaved.Kept.{IsProved, reach-IsProved}
use zkevm_aggregator.State.Storage.{
  check_proof_exists_for_batch, get_proofs_to_aggregate, update_generated_proof,
  delete_generated_proofs, add_generated_proof,
}
use zkevm_aggregator.Examples.{quiet, start, four_rows, row, toy_ethereum, verified_below}
use zkevm_aggregator.Examples.Batches.{toy_datastream}

abbrev all_idle : System
all_idle = record { world = start four_rows; doing = λ i. idle }

abbrev first_pair : Pc
first_pair = aggregating (locked_at 102 (row 1)) (locked_at 102 (row 2))

abbrev after_first : System
after_first = record {
  world = (begins quiet aggregate (start four_rows)).1;
  doing = update all_idle.doing 1 first_pair;
}

takes_first : begins quiet aggregate (start four_rows) ≡ (ok first_pair, after_first.world)
unfolding begins get_and_lock_proofs_to_aggregate get_proofs_to_aggregate update_generated_proof
takes_first = refl

abbrev second_pair : Pc
second_pair = aggregating (locked_at 110 (row 3)) (locked_at 110 (row 4))

abbrev after_second : System
after_second = record {
  world = (begins quiet aggregate after_first.world).1;
  doing = update after_first.doing 2 second_pair;
}

takes_second : begins quiet aggregate after_first.world ≡ (ok second_pair, after_second.world)
unfolding begins get_and_lock_proofs_to_aggregate get_proofs_to_aggregate update_generated_proof
takes_second = refl

abbrev goes_to : Result Err Pc → Pc
goes_to (ok pc) = pc
goes_to _ = idle

abbrev merged : Pc
merged = goes_to (goes_on quiet toy_ethereum first_pair after_second.world).0

abbrev after_merge : System
after_merge = record {
  world = (goes_on quiet toy_ethereum first_pair after_second.world).1;
  doing = update after_second.doing 1 merged;
}

merges : goes_on quiet toy_ethereum first_pair after_second.world ≡ (ok merged, after_merge.world)
unfolding goes_on aggregate_locked replace_proofs begins get_and_lock_proofs_to_aggregate
    get_proofs_to_aggregate update_generated_proof delete_generated_proofs add_generated_proof
merges = refl

three_steps : Reach (λ i. quiet) toy_ethereum toy_datastream all_idle after_merge
three_steps =
    Reach.later
      (Reach.later
        (Reach.later Reach.here
          (Step.starts 1 aggregate first_pair after_first.world (omega arith) refl takes_first))
        (Step.starts 2 aggregate second_pair after_second.world (omega arith) refl takes_second))
      (Step.goes 1 merged after_merge.world merges)

reach-IsExclusive_example : IsExclusive 2 after_merge
reach-IsExclusive_example =
    reach-IsExclusive (λ i. quiet) toy_ethereum toy_datastream 2 (2, 2) all_idle after_merge
      (λ i. verified_below) (omega arith) (λ i. refl) (record { single = refl; proper = refl })
      three_steps

idle_IsProved : IsProved 2 all_idle
unfolding check_proof_exists_for_batch
idle_IsProved = record { exists = refl; elsewhere = λ i f. cc }

reach-IsProved_example : IsProved 2 after_merge
reach-IsProved_example =
    reach-IsProved (λ i. quiet) toy_ethereum toy_datastream 2 (λ i. verified_below) (omega arith)
      idle_IsProved three_steps
