-- ===== src/Prover/Client.antt =====
-- aggregator/prover/prover.go: the client of a prover, as New makes it. Its stream goes from call to
-- call; the polling interval is an argument of the polling.
use zkevm_aggregator.Prelude.{Option, none, some, []}
use zkevm_aggregator.Prelude.Result.{Result, ok, err, panic}
use zkevm_aggregator.State.{Bytes}
use zkevm_aggregator.Prover.{Stream, StatusResponse, ProverError, status}

-- The address is the text of `net.Addr`, `none` a nil address.
pub record Prover : Type 0 where
  pub name : Bytes
  pub id : Bytes
  pub address : Option Bytes

abbrev pub introduced : Option Bytes → Result ProverError StatusResponse → Result ProverError Prover
introduced address (ok r) =
    ok (record { name = r.prover_name; id = r.prover_id; address = address })
introduced address (err e) = err e
introduced address panic = panic

unfoldable pub new : {A : Type 0} → Stream A → Option Bytes → Result ProverError Prover × Stream A
unfolding status
new stream address = let (r, stream') = status stream in (introduced address r, stream')

unfoldable pub addr : Prover → Bytes
addr p = elim p.address [ none ↦ [] | some a ↦ a ]
