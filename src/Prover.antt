-- ===== src/Prover.antt =====
-- aggregator/prover/prover.go: the client of a prover. Its stream is the list of what the next
-- exchanges on it give; after the last of them the stream is closed, and `Recv` fails.
pub mod Waiting
pub mod StateRoot
pub mod Input
pub mod Client
use zkevm_aggregator.Prelude.{
  ℕ, zero, suc, ◌+◌, Bool, true, false, List, [], ◌∷◌, ◌++◌, ◌==◌, if◌then◌else◌, length,
}
use zkevm_aggregator.Prelude.Result.{Result, ok, err, panic}
use zkevm_aggregator.State.{Bytes}
use Prim.{Unit, tt}

pub data ProverError : Type 0 where
  bad_prover_response prover_internal_error prover_completed_error bad_request : ProverError
  unspecified_response unknown_response proof_canceled : ProverError
  stream_failure ctx_done : ProverError
  -- No Go error: a loop of the model used up its rounds.
  out_of_fuel : ProverError

-- `Result` of the protocol, an open enumeration.
pub data ResultCode : Type 0 where
  result_unspecified result_ok result_error result_internal_error : ResultCode
  result_other : ℕ → ResultCode

-- `GetProofResponse_Result`.
pub data ProofCode : Type 0 where
  proof_unspecified completed_ok error completed_error pending internal_error cancel : ProofCode
  proof_other : ℕ → ProofCode

-- `GetProofResponse.Proof`, a oneof; the final proof is kept as `A`.
pub data ProofBody (A : Type 0) : Type 0 where
  no_proof : ProofBody A
  recursive_proof : Bytes → ProofBody A
  final_proof : A → ProofBody A

pub record StatusResponse : Type 0 where
  pub status : ℕ
  pub fork_id : ℕ
  pub prover_name : Bytes
  pub prover_id : Bytes

pub data ProverMessage (A : Type 0) : Type 0 where
  no_response : ProverMessage A
  get_status_response : StatusResponse → ProverMessage A
  gen_batch_proof_response : ResultCode → Bytes → ProverMessage A
  gen_aggregated_proof_response : ResultCode → Bytes → ProverMessage A
  gen_final_proof_response : ResultCode → Bytes → ProverMessage A
  cancel_response : ResultCode → ProverMessage A
  get_proof_response : ProofCode → ProofBody A → ProverMessage A

pub data AggregatorMessage : Type 0 where
  get_status_request : AggregatorMessage
  gen_stateless_batch_proof_request : Bytes → AggregatorMessage
  gen_aggregated_proof_request : Bytes → Bytes → AggregatorMessage
  gen_final_proof_request : Bytes → Bytes → AggregatorMessage
  cancel_request : Bytes → AggregatorMessage
  get_proof_request : Bytes → AggregatorMessage

-- An exchange: `Send` fails, `Recv` fails, or a message comes back.
pub data Exchange (A : Type 0) : Type 0 where
  not_sent not_received : Exchange A
  received : ProverMessage A → Exchange A

pub record Stream (A : Type 0) : Type 0 where
  pub sent : List AggregatorMessage
  pub next : List (Exchange A)

-- `GetStatusResponse_STATUS_IDLE`.
abbrev pub status_idle : ℕ
status_idle = 3

abbrev pub sent_then : {A : Type 0} → AggregatorMessage → Stream A → List (Exchange A) → Stream A
sent_then req s rest = record s { sent = s.sent ++ req ∷ []; next = rest }

-- A call is decided by the exchange at the head of the stream.
abbrev pub exchanged :
    {A : Type 0}
    → AggregatorMessage
    → Stream A
    → List (Exchange A)
    → Result ProverError (ProverMessage A) × Stream A
exchanged req s [] = (err stream_failure, sent_then req s [])
exchanged req s (not_sent ∷ rest) = (err stream_failure, record s { next = rest })
exchanged req s (not_received ∷ rest) = (err stream_failure, sent_then req s rest)
exchanged req s (received m ∷ rest) = (ok m, sent_then req s rest)

unfoldable pub call :
    {A : Type 0} → AggregatorMessage → Stream A → Result ProverError (ProverMessage A) × Stream A
call req s = exchanged req s s.next

-- What follows a call looks at the answer only.
abbrev pub on_answer :
    {A B : Type 0}
    → (ProverMessage A → Result ProverError B)
    → Result ProverError (ProverMessage A) × Stream A
    → Result ProverError B × Stream A
on_answer f (ok m, s) = (f m, s)
on_answer f (err e, s) = (err e, s)
on_answer f (panic, s) = (panic, s)

abbrev pub status_answer : {A : Type 0} → ProverMessage A → Result ProverError StatusResponse
status_answer (get_status_response r) = ok r
status_answer _ = err bad_prover_response

unfoldable pub status : {A : Type 0} → Stream A → Result ProverError StatusResponse × Stream A
unfolding call
status s = on_answer status_answer (call get_status_request s)

abbrev pub idle_status : Result ProverError StatusResponse → Result ProverError Bool
idle_status (ok r) = ok (r.status == status_idle)
idle_status (err e) = err e
idle_status panic = panic

unfoldable pub is_idle : {A : Type 0} → Stream A → Result ProverError Bool × Stream A
unfolding status
is_idle s = let (r, s') = status s in (idle_status r, s')

abbrev pub supported : ℕ → Result ProverError StatusResponse → Result ProverError Bool
supported fork_id (ok r) = ok (r.fork_id == fork_id)
supported fork_id (err e) = ok false
supported fork_id panic = panic

unfoldable pub supports_fork_id : {A : Type 0} → ℕ → Stream A → Result ProverError Bool × Stream A
unfolding status
supports_fork_id fork_id s = let (r, s') = status s in (supported fork_id r, s')

-- The switch that the four requests share: OK gives the id.
abbrev pub on_result : {B : Type 0} → B → ResultCode → Result ProverError B
on_result id result_unspecified = err unspecified_response
on_result id result_ok = ok id
on_result id result_error = err bad_request
on_result id result_internal_error = err prover_internal_error
on_result id (result_other n) = err unknown_response

abbrev pub batch_proof_answer : {A : Type 0} → ProverMessage A → Result ProverError Bytes
batch_proof_answer (gen_batch_proof_response code id) = on_result id code
batch_proof_answer _ = err bad_prover_response

unfoldable pub batch_proof : {A : Type 0} → Bytes → Stream A → Result ProverError Bytes × Stream A
unfolding call
batch_proof input s =
    on_answer batch_proof_answer (call (gen_stateless_batch_proof_request input) s)

abbrev pub aggregated_proof_answer : {A : Type 0} → ProverMessage A → Result ProverError Bytes
aggregated_proof_answer (gen_aggregated_proof_response code id) = on_result id code
aggregated_proof_answer _ = err bad_prover_response

unfoldable pub aggregated_proof :
    {A : Type 0} → Bytes → Bytes → Stream A → Result ProverError Bytes × Stream A
unfolding call
aggregated_proof p1 p2 s =
    on_answer aggregated_proof_answer (call (gen_aggregated_proof_request p1 p2) s)

abbrev pub final_proof_answer : {A : Type 0} → ProverMessage A → Result ProverError Bytes
final_proof_answer (gen_final_proof_response code id) = on_result id code
final_proof_answer _ = err bad_prover_response

unfoldable pub request_final_proof :
    {A : Type 0} → Bytes → Bytes → Stream A → Result ProverError Bytes × Stream A
unfolding call
request_final_proof p addr s =
    on_answer final_proof_answer (call (gen_final_proof_request p addr) s)

abbrev pub cancel_answer : {A : Type 0} → ProverMessage A → Result ProverError (Unit {0})
cancel_answer (cancel_response code) = on_result tt code
cancel_answer _ = err bad_prover_response

unfoldable pub cancel_proof_request :
    {A : Type 0} → Bytes → Stream A → Result ProverError (Unit {0}) × Stream A
unfolding call
cancel_proof_request id s = on_answer cancel_answer (call (cancel_request id) s)

-- One answer to `GetProofRequest`, PENDING aside.
abbrev pub proof_verdict : {A : Type 0} → ProofCode → ProofBody A → Result ProverError (ProofBody A)
proof_verdict completed_ok body = ok body
proof_verdict proof_unspecified body = err unspecified_response
proof_verdict error body = err bad_request
proof_verdict completed_error body = err prover_completed_error
proof_verdict pending body = err unknown_response
proof_verdict internal_error body = err prover_internal_error
proof_verdict cancel body = err proof_canceled
proof_verdict (proof_other n) body = err unknown_response

abbrev Waited : Type 0 → Type 0
Waited A = Result ProverError (ProofBody A) × Stream A

-- `again` is the next turn of the loop.
abbrev pub after_poll :
    {A : Type 0}
    → (Stream A → Waited A)
    → Result ProverError (ProverMessage A) × Stream A
    → Waited A
after_poll again (ok (get_proof_response pending body), s) = again s
after_poll again (ok (get_proof_response code body), s) = (proof_verdict code body, s)
after_poll again (ok _, s) = (err bad_prover_response, s)
after_poll again (err e, s) = (err e, s)
after_poll again (panic, s) = (panic, s)

-- `is_done` says whether the context is cancelled when a turn begins that comes after so many
-- requests.
unfoldable pub wait_loop : {A : Type 0} → (ℕ → Bool) → Bytes → ℕ → Stream A → Waited A
unfolding call
wait_loop is_done id zero s = (err out_of_fuel, s)
wait_loop is_done id (suc fuel) s =
    if is_done (length s.sent)
    then (err ctx_done, s)
    else after_poll (wait_loop is_done id fuel) (call (get_proof_request id) s)

-- Every turn takes an exchange off the stream.
unfoldable pub wait_proof : {A : Type 0} → (ℕ → Bool) → Bytes → Stream A → Waited A
unfolding wait_loop
wait_proof is_done id s = wait_loop is_done id (suc (length s.next)) s

-- `res.Proof.(*GetProofResponse_FinalProof)` panics when the answer has another proof.
abbrev pub assert_final : {A : Type 0} → Result ProverError (ProofBody A) → Result ProverError A
assert_final (ok (final_proof p)) = ok p
assert_final (ok _) = panic
assert_final (err e) = err e
assert_final panic = panic

unfoldable pub wait_final_proof :
    {A : Type 0} → (ℕ → Bool) → Bytes → Stream A → Result ProverError A × Stream A
unfolding wait_proof
wait_final_proof is_done id s = let (r, s') = wait_proof is_done id s in (assert_final r, s')
