-- ===== src/Prover/Waiting.antt =====
-- aggregator/prover/prover.go, `waitProof`: what the polling loop returns.
use zkevm_aggregator.Prelude.{
  ℕ, zero, suc, ◌<◌, ◌≡◌, ◌≢◌, refl, ap, Bool, true, false, List, [], ◌∷◌, ◌++◌, length, replicate,
  arith, if◌then◌else◌,
}
use zkevm_aggregator.Prelude.Result.{Result, ok, err}
use zkevm_aggregator.State.{Bytes}
use zkevm_aggregator.Prover.{
  Stream, Exchange, not_sent, not_received, received, ProverMessage, get_proof_response, ProofCode,
  pending, ProofBody, ProverError, ctx_done, out_of_fuel, proof_verdict, AggregatorMessage,
  get_proof_request, call, wait_loop, wait_proof, after_poll,
}

append_cons : {B : Type 0} (xs : List B) (x : B) (ys : List B) → (xs ++ x ∷ []) ++ ys ≡ xs ++ x ∷ ys
append_cons [] x ys = refl
append_cons (y ∷ xs) x ys = ap (◌∷◌ y) (append_cons xs x ys)

module _ {A : Type 0} where
  -- The exchanges in which the prover answers PENDING.
  unfoldable pub pendings : List (ProofBody A) → List (Exchange A)
  pendings [] = []
  pendings (b ∷ bs) = received (get_proof_response pending b) ∷ pendings bs

  pendings_shorter :
      (bodies : List (ProofBody A)) (es : List (Exchange A))
      → length bodies < suc (length (pendings bodies ++ es))
  unfolding pendings
  pendings_shorter [] es = ground arith
  pendings_shorter (b ∷ bodies) es = ground (arith, pendings_shorter bodies es)

  after_poll-verdict :
      (again : Stream A → Result ProverError (ProofBody A) × Stream A) (code : ProofCode)
      (body : ProofBody A) (s : Stream A)
      → code ≢ pending
      → after_poll again (ok (get_proof_response code body), s) ≡ (proof_verdict code body, s)
  after_poll-verdict again ProofCode.proof_unspecified body s h = refl
  after_poll-verdict again ProofCode.completed_ok body s h = refl
  after_poll-verdict again ProofCode.error body s h = refl
  after_poll-verdict again ProofCode.completed_error body s h = refl
  after_poll-verdict again ProofCode.pending body s h = absurd (h refl)
  after_poll-verdict again ProofCode.internal_error body s h = refl
  after_poll-verdict again ProofCode.cancel body s h = refl
  after_poll-verdict again (ProofCode.proof_other n) body s h = refl

  wait_loop_polls :
      (is_done : ℕ → Bool) (id : Bytes) (fuel : ℕ) (sent : List AggregatorMessage)
      (bodies : List (ProofBody A)) (code : ProofCode) (body : ProofBody A)
      (rest : List (Exchange A))
      → ((n : ℕ) → is_done n ≡ false)
      → code ≢ pending
      → length bodies < fuel
      → wait_loop is_done id fuel (record {
        sent = sent;
        next = pendings bodies ++ received (get_proof_response code body) ∷ rest;
      })
        ≡ (
          proof_verdict code body,
          record {
            sent = sent ++ replicate (suc (length bodies)) (get_proof_request id);
            next = rest;
          },
        )
  unfolding wait_loop call pendings
  wait_loop_polls is_done id zero sent bodies code body rest live h lt = absurd (ground arith)
  wait_loop_polls is_done id (suc fuel) sent [] code body rest live h lt =
      simp (live, after_poll-verdict (wait_loop is_done id fuel) code body _ h)
  wait_loop_polls is_done id (suc fuel) sent (b ∷ bodies) code body rest live h lt = simp (
    live,
    wait_loop_polls is_done id fuel (sent ++ get_proof_request id ∷ []) bodies code body rest live h
        (ground arith),
    append_cons,
  )

  -- `waitProof` asks until the answer is not PENDING: after any number of PENDING answers, with the
  -- context never cancelled, it returns the verdict on the first other answer, it has sent one
  -- request for the proof for each answer, and it leaves what comes after on the stream.
  pub wait_proof_polls :
      (is_done : ℕ → Bool) (id : Bytes) (sent : List AggregatorMessage)
      (bodies : List (ProofBody A)) (code : ProofCode) (body : ProofBody A)
      (rest : List (Exchange A))
      → ((n : ℕ) → is_done n ≡ false)
      → code ≢ pending
      → wait_proof is_done id (record {
        sent = sent;
        next = pendings bodies ++ received (get_proof_response code body) ∷ rest;
      })
        ≡ (
          proof_verdict code body,
          record {
            sent = sent ++ replicate (suc (length bodies)) (get_proof_request id);
            next = rest;
          },
        )
  unfolding wait_proof
  wait_proof_polls is_done id sent bodies code body rest live h =
      wait_loop_polls is_done id _ sent bodies code body rest live h (pendings_shorter bodies _)

  verdict_returns :
      (code : ProofCode) (body : ProofBody A) → proof_verdict code body ≢ err out_of_fuel
  verdict_returns ProofCode.proof_unspecified body = cc
  verdict_returns ProofCode.completed_ok body = cc
  verdict_returns ProofCode.error body = cc
  verdict_returns ProofCode.completed_error body = cc
  verdict_returns ProofCode.pending body = cc
  verdict_returns ProofCode.internal_error body = cc
  verdict_returns ProofCode.cancel body = cc
  verdict_returns (ProofCode.proof_other n) body = cc

  after_poll_returns :
      (again : Stream A → Result ProverError (ProofBody A) × Stream A) (m : ProverMessage A)
      (s : Stream A)
      → (again s).0 ≢ err out_of_fuel
      → (after_poll again (ok m, s)).0 ≢ err out_of_fuel
  after_poll_returns again (get_proof_response ProofCode.pending body) s h = h
  after_poll_returns again (get_proof_response ProofCode.proof_unspecified body) s h = cc
  after_poll_returns again (get_proof_response ProofCode.completed_ok body) s h = cc
  after_poll_returns again (get_proof_response ProofCode.error body) s h = cc
  after_poll_returns again (get_proof_response ProofCode.completed_error body) s h = cc
  after_poll_returns again (get_proof_response ProofCode.internal_error body) s h = cc
  after_poll_returns again (get_proof_response ProofCode.cancel body) s h = cc
  after_poll_returns again (get_proof_response (ProofCode.proof_other n) body) s h = cc
  after_poll_returns again ProverMessage.no_response s h = cc
  after_poll_returns again (ProverMessage.get_status_response r) s h = cc
  after_poll_returns again (ProverMessage.gen_batch_proof_response c i) s h = cc
  after_poll_returns again (ProverMessage.gen_aggregated_proof_response c i) s h = cc
  after_poll_returns again (ProverMessage.gen_final_proof_response c i) s h = cc
  after_poll_returns again (ProverMessage.cancel_response c) s h = cc

  if_returns :
      (b : Bool) (x y : Result ProverError (ProofBody A) × Stream A)
      → x.0 ≢ err out_of_fuel
      → y.0 ≢ err out_of_fuel
      → (if b then x else y).0 ≢ err out_of_fuel
  if_returns true x y hx hy = hx
  if_returns false x y hx hy = hy

  turn_returns :
      (is_done : ℕ → Bool) (id : Bytes) (fuel : ℕ) (s : Stream A)
      → (after_poll (wait_loop is_done id fuel) (call (get_proof_request id) s)).0 ≢ err out_of_fuel
      → (wait_loop is_done id (suc fuel) s).0 ≢ err out_of_fuel
  unfolding wait_loop
  turn_returns is_done id fuel s h =
      if_returns (is_done (length s.sent)) (err ctx_done, s)
        (after_poll (wait_loop is_done id fuel) (call (get_proof_request id) s)) (cc) h

  wait_loop_returns :
      (is_done : ℕ → Bool) (id : Bytes) (fuel : ℕ) (sent : List AggregatorMessage)
      (next : List (Exchange A))
      → length next < fuel
      → (wait_loop is_done id fuel (record { sent = sent; next = next })).0 ≢ err out_of_fuel
  unfolding call
  wait_loop_returns is_done id zero sent next lt = absurd (ground arith)
  wait_loop_returns is_done id (suc fuel) sent [] lt = turn_returns is_done id fuel _ cc
  wait_loop_returns is_done id (suc fuel) sent (not_sent ∷ next) lt =
      turn_returns is_done id fuel _ cc
  wait_loop_returns is_done id (suc fuel) sent (not_received ∷ next) lt =
      turn_returns is_done id fuel _ cc
  wait_loop_returns is_done id (suc fuel) sent (received m ∷ next) lt =
      turn_returns is_done id fuel _ (
        after_poll_returns (wait_loop is_done id fuel) m _ (
          wait_loop_returns is_done id fuel (sent ++ get_proof_request id ∷ []) next
            (ground arith)))

  -- `waitProof` returns, whatever the prover answers on a stream that is closed at some time: its
  -- loop never uses up its rounds.
  pub wait_proof_returns :
      (is_done : ℕ → Bool) (id : Bytes) (s : Stream A)
      → (wait_proof is_done id s).0 ≢ err out_of_fuel
  unfolding wait_proof
  wait_proof_returns is_done id s =
      wait_loop_returns is_done id (suc (length s.next)) s.sent s.next (ground arith)
