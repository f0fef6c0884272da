-- ===== src/Profitability.antt =====
-- aggregator/profitabilitychecker.go: the two checkers behind the interface
-- `aggregatorTxProfitabilityChecker`. Neither ever fails.
use zkevm_aggregator.Prelude.{ℕ, Bool, true, leb}

pub data ProfitabilityChecker : Type 0 where
  base : ℕ → ProfitabilityChecker
  accept_all : ProfitabilityChecker

unfoldable pub is_profitable : ProfitabilityChecker → ℕ → Bool
is_profitable (base min_reward) pol_collateral = leb min_reward pol_collateral
is_profitable accept_all pol_collateral = true
