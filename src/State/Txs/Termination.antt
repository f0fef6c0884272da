-- ===== src/State/Txs/Termination.antt =====
-- state/helper.go: the loop of `DecodeTxs` ends.
use zkevm_aggregator.Prelude.{ℕ, ◌+◌, ◌≤◌, List, length}
use zkevm_aggregator.Prelude.Result.{Result}
use zkevm_aggregator.State.{Bytes, u64}
use zkevm_aggregator.Ethereum.{Ethereum}

module _ (eth : Ethereum) where
  -- What the slices say of the positions, when none of them panics.
  abbrev pub Forward : Bytes → ℕ → ℕ → List ℕ × eth.Tx → Type 0
  Forward bs pos data_start r =
      (pos ≤ data_start)
      × (data_start ≤ u64 (data_start + 32))
      × (u64 (data_start + 32) ≤ u64 (data_start + 64))
      × (u64 (data_start + 64) ≤ u64 (data_start + 65))
      × (u64 (data_start + 65) ≤ length bs)
