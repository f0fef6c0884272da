-- ===== src/Examples.antt =====
-- Runs of the models on small inputs, and the theorems applied to them.
pub mod Texts
pub mod RoundTrip
pub mod Batches
pub mod Interleaved
use zkevm_aggregator.Prelude.{
  ℕ, ◌+◌, ◌<◌, ◌≡◌, ◌≢◌, refl, false, some, none, List, [], ◌∷◌, ◌++◌, length, replicate, get_or,
  map, arith, true, ltb, if◌then◌else◌,
}
use zkevm_aggregator.Prelude.Result.{ok, err, ◌>>=◌}
use Prim.{tt}
use zkevm_aggregator.State.{Bytes, BatchType, DbBatch, Proof}
use zkevm_aggregator.State.Storage.{
  Db, same_key, update_generated_proof, check_proof_exists_for_batch, get_proofs_to_aggregate,
  get_proof_ready_to_verify,
}
use zkevm_aggregator.State.Storage.Select.{
  AggregateAnswer, ReadyAnswer, get_proofs_to_aggregate_lem, get_proof_ready_to_verify_lem,
}
use zkevm_aggregator.Profitability.{accept_all}
use zkevm_aggregator.Synchronizer.{answered, absent}
use zkevm_aggregator.Aggregator.{Env, World}
use zkevm_aggregator.Aggregator.Locks.{
  locked_at, get_and_lock_proofs_to_aggregate, unlock_proofs_to_aggregate,
  get_and_lock_proof_ready_to_verify,
}
use zkevm_aggregator.Aggregator.Locks.Atomic.{
  PairLock, PairUnlock, ReadyLock, get_and_lock_proofs_to_aggregate_atomic,
  unlock_proofs_to_aggregate_atomic, get_and_lock_proof_ready_to_verify_atomic,
}
use zkevm_aggregator.Aggregator.Locks.Exclusive.{get_and_lock_proofs_to_aggregate_exclusive}
use zkevm_aggregator.Aggregator.Verify.{validate_eligible_final_proof}
use zkevm_aggregator.Aggregator.Verify.Verdict.{Verdict, validate_eligible_final_proof-Verdict}
use zkevm_aggregator.Aggregator.Aggregate.{try_aggregate_proofs}
use zkevm_aggregator.Aggregator.Aggregate.Covered.{try_aggregate_proofs_covered}
use zkevm_aggregator.L1InfoTree.{
  L1InfoTree, zero_leaf, build_l1_info_root, compute_merkle_proof, new_l1_info_tree, add_leaf,
}
use zkevm_aggregator.L1InfoTree.Reference.{tree}
use zkevm_aggregator.L1InfoTree.Root.{build_l1_info_root-tree}
use zkevm_aggregator.L1InfoTree.MerkleProof.{climb, compute_merkle_proof-climb}
use zkevm_aggregator.L1InfoTree.Incremental.{Holds, new_l1_info_tree-Holds, add_leaf-Holds}
use zkevm_aggregator.Hex.{encode_to_string, decode_string, encode_to_hex, decode_hex}
use zkevm_aggregator.Hex.RoundTrip.{decode_string-encode_to_string, decode_hex-encode_to_hex}
use zkevm_aggregator.Prover.{
  Exchange, not_received, received, get_proof_response, ProofCode, no_proof, recursive_proof,
  proof_verdict, get_proof_request, wait_proof, out_of_fuel,
}
use zkevm_aggregator.Prover.Waiting.{pendings, wait_proof_polls, wait_proof_returns}
use zkevm_aggregator.Prelude.{◌*◌, ◌^◌}
use zkevm_aggregator.Prover.{ProverError}
use zkevm_aggregator.MerkleTree.{scalar2fea, scalar_to_h4, h4_to_scalar}
use zkevm_aggregator.MerkleTree.Limbs.{fea2scalar-scalar2fea, h4_to_scalar-scalar_to_h4}
use zkevm_aggregator.Prover.StateRoot.{fea2scalar}
use zkevm_aggregator.Ethereum.{Ethereum, LegacyTx}
use zkevm_aggregator.State.BatchV2.{BatchError, ChangeL2BlockHeader}
use zkevm_aggregator.State.Txs.{decode_txs}
use zkevm_aggregator.State.Txs.Percentages.{SameLength, decode_txs-SameLength}
use zkevm_aggregator.State.BatchV2.Termination.{decode_batch_v2_ends}
use zkevm_aggregator.State.BatchV2.Tx.{encode_batch_v2, decode_batch_v2, decode_tx_rlp}
use zkevm_aggregator.State.BatchV2.Progress.{OnOk, Progress, decode_tx_rlp-Progress}

-- Four batches in one sequence, each with an idle proof.
abbrev row : ℕ → Proof
row n = record {
  batch_number = n;
  batch_number_final = n;
  proof = n ∷ [];
  input_prover = [];
  proof_id = none;
  prover = none;
  prover_id = none;
  generating_since = none;
  created_at = 0;
  updated_at = 0;
}

abbrev stored_batch : ℕ → DbBatch
stored_batch n = record {
  batch = record {
    batch_number = n;
    coinbase = [];
    batch_l2_data = [];
    state_root = [];
    local_exit_root = [];
    acc_input_hash = [];
    l1_info_tree_index = 0;
    l1_info_root = [];
    timestamp = 0;
    global_exit_root = [];
    forced_batch_num = none;
    chain_id = 1;
    fork_id = 9;
    batch_type = BatchType.regular;
  };
  datastream = [];
  witness = [];
}

abbrev four_rows : Db
four_rows = record {
  proofs = row 1 ∷ row 2 ∷ row 3 ∷ row 4 ∷ [];
  sequences = record { from_batch_number = 1; to_batch_number = 4 } ∷ [];
  batches = stored_batch 1 ∷ stored_batch 2 ∷ stored_batch 3 ∷ stored_batch 4 ∷ [];
}

-- Two rows, each a whole sequence.
abbrev two_rows : Db
two_rows = record {
  proofs = row 1 ∷ row 2 ∷ [];
  sequences =
      record { from_batch_number = 1; to_batch_number = 1 }
      ∷ record { from_batch_number = 2; to_batch_number = 2 }
      ∷ [];
  batches = stored_batch 1 ∷ stored_batch 2 ∷ [];
}

-- Not a hash, but a function of all the bytes.
abbrev toy_keccak : Bytes → Bytes
toy_keccak bs = length bs ∷ bs

-- Nothing fails, and batch 0 is the last verified one. L1 has a virtual batch from the third call on.
abbrev quiet : Env
quiet = record {
  cfg = record {
    sender_address = [];
    verify_proof_interval = 0;
    batch_proof_sanity_check_enabled = false;
    agg_layer_settlement = false;
    generating_proof_cleanup_threshold = [];
    profitability_checker = accept_all;
    use_l1_batch_data = false;
  };
  clock = λ k. 100 + k;
  db_fails = λ _. false;
  is_ctx_done = λ _. false;
  latest_verified_batch = λ _. some 0;
  prover_name = 7 ∷ [];
  prover_id = 8 ∷ [];
  marshal_proofs = λ a b. some (a ++ b);
  aggregated_proof = λ _ a b. some (9 ∷ []);
  wait_recursive_proof = λ _ id. some (id, []);
  final_proof = λ _ a b. none;
  wait_final_proof = λ _ id. none;
  batch_proof = λ _ input. some (9 ∷ []);
  l1 = record {
    sequence_by_batch_number = λ k n. answered (
        some (record {
          from_batch_number = n;
          to_batch_number = n;
          l1_info_root = [];
          timestamp = 0;
        }));
    virtual_batch_by_batch_number = λ k n.
        if ltb k 3 then absent else answered (record { batch_l2_data = []; block_number = n });
    l1_block_by_number = λ k n. some [];
    leafs_by_l1_info_root = λ k root. answered [];
    l1_info_tree_leaf = λ k i. none;
    latest_virtual_batch_number = λ k. some 4;
  };
  settlement = record {
    build_trusted_verify_batches_tx_data = λ k from to final exit root. some [];
    add_monitored_tx = λ k bs. true;
    has_failed_tx = λ k. false;
    sign = λ tx. some [];
    send_tx = λ k bs. some [];
    wait_tx_to_be_mined = λ k bs. true;
    rollup_id = 1;
  };
  keccak = toy_keccak;
}

abbrev start : Db → World
start db = record {
  db = db;
  tx_db = db;
  calls = 0;
  verifying_proof = false;
  time_send_final_proof = 0;
  final_proofs = [];
}

get_proofs_to_aggregate_finds : get_proofs_to_aggregate four_rows ≡ some (row 1, row 2)
unfolding get_proofs_to_aggregate
get_proofs_to_aggregate_finds = refl

get_proofs_to_aggregate_example : AggregateAnswer four_rows (get_proofs_to_aggregate four_rows)
get_proofs_to_aggregate_example = get_proofs_to_aggregate_lem four_rows

get_proof_ready_to_verify_example : ReadyAnswer two_rows 0 (get_proof_ready_to_verify 0 two_rows)
get_proof_ready_to_verify_example = get_proof_ready_to_verify_lem two_rows 0 (omega arith)

get_and_lock_atomic_example :
    let (r, w') = get_and_lock_proofs_to_aggregate quiet (start four_rows) in
    PairLock quiet (start four_rows) r w'
get_and_lock_atomic_example = get_and_lock_proofs_to_aggregate_atomic quiet (start four_rows)

ready_atomic_example :
    let (r, w') = get_and_lock_proof_ready_to_verify quiet 0 (start two_rows) in
    ReadyLock quiet 0 (start two_rows) r w'
ready_atomic_example =
    get_and_lock_proof_ready_to_verify_atomic quiet 0 (start two_rows) (omega arith)

abbrev after_lock : World
after_lock = (get_and_lock_proofs_to_aggregate quiet (start four_rows)).1

locks_first :
    get_and_lock_proofs_to_aggregate quiet (start four_rows)
    ≡ (ok (locked_at 102 (row 1), locked_at 102 (row 2)), after_lock)
unfolding get_and_lock_proofs_to_aggregate get_proofs_to_aggregate
locks_first = refl

finds_second : get_proofs_to_aggregate after_lock.db ≡ some (row 3, row 4)
unfolding get_and_lock_proofs_to_aggregate get_proofs_to_aggregate update_generated_proof
finds_second = refl

exclusive_example :
    (same_key (locked_at 102 (row 1)) (row 3) ≡ false)
    × (same_key (locked_at 102 (row 1)) (row 4) ≡ false)
    × (same_key (locked_at 102 (row 2)) (row 3) ≡ false)
    × (same_key (locked_at 102 (row 2)) (row 4) ≡ false)
exclusive_example =
    get_and_lock_proofs_to_aggregate_exclusive quiet (start four_rows) after_lock
      (locked_at 102 (row 1)) (locked_at 102 (row 2)) (row 3) (row 4) locks_first finds_second

verified_below : (k v : ℕ) → quiet.latest_verified_batch k ≡ some v → v < 2
verified_below k v e = ground arith

try_aggregate_proofs_example :
    check_proof_exists_for_batch 2 (try_aggregate_proofs quiet (start two_rows)).1.db
    ≡ check_proof_exists_for_batch 2 two_rows
try_aggregate_proofs_example =
    try_aggregate_proofs_covered quiet 2 verified_below (omega arith) (start two_rows)

validate_eligible_example :
    let (r, w') = validate_eligible_final_proof quiet (row 1) 0 (start two_rows) in
    Verdict (row 1) 0 (start two_rows) r w'
validate_eligible_example =
    validate_eligible_final_proof-Verdict quiet (row 1) 0 (start two_rows) (omega arith)
      (omega arith)

abbrev leaf : ℕ → Bytes
leaf n = replicate 32 n

abbrev three_leaves : List Bytes
three_leaves = leaf 1 ∷ leaf 2 ∷ leaf 3 ∷ []

build_l1_info_root_example :
    build_l1_info_root toy_keccak 2 three_leaves ≡ ok (tree toy_keccak zero_leaf 2 three_leaves)
build_l1_info_root_example =
    build_l1_info_root-tree toy_keccak 2 three_leaves (omega arith) (omega arith)

compute_merkle_proof_example :
    (siblings : List Bytes) × (compute_merkle_proof toy_keccak 2 1 three_leaves
      ≡ ok (siblings, tree toy_keccak zero_leaf 2 three_leaves))
    × (length siblings ≡ 2)
    × (climb toy_keccak (get_or three_leaves 1 zero_leaf) 1 siblings
        ≡ tree toy_keccak zero_leaf 2 three_leaves)
compute_merkle_proof_example =
    compute_merkle_proof-climb toy_keccak 2 1 three_leaves (omega arith) (omega arith) (omega arith)
      (omega arith)

new_l1_info_tree_example :
    (t : L1InfoTree) × (new_l1_info_tree toy_keccak 2 three_leaves ≡ ok t)
    × (t.height ≡ 2)
    × Holds toy_keccak t three_leaves
new_l1_info_tree_example =
    new_l1_info_tree-Holds toy_keccak 2 three_leaves (omega arith) (omega arith) (omega arith)

abbrev tree_of_three : L1InfoTree
tree_of_three = new_l1_info_tree_example.0

tree_of_three_height : tree_of_three.height ≡ 2
tree_of_three_height = new_l1_info_tree_example.2

add_leaf_example :
    (t : L1InfoTree) × (add_leaf toy_keccak tree_of_three 3 (leaf 4)
      ≡ ok (t, tree toy_keccak zero_leaf tree_of_three.height (three_leaves ++ (leaf 4 ∷ []))))
    × (t.height ≡ tree_of_three.height)
    × Holds toy_keccak t (three_leaves ++ (leaf 4 ∷ []))
add_leaf_example =
    add_leaf-Holds toy_keccak tree_of_three three_leaves (leaf 4) (new_l1_info_tree_example.3)
      (ground (arith, tree_of_three_height)) (omega arith)

abbrev some_bytes : Bytes
some_bytes = 0 ∷ 171 ∷ 255 ∷ []

decode_hex_example : decode_hex (encode_to_hex some_bytes) ≡ some some_bytes
decode_hex_example =
    decode_hex-encode_to_hex some_bytes (omega arith, (omega arith, (omega arith, tt)))

-- Two PENDING answers, then the proof.
abbrev answers : List (Exchange Bytes)
answers = received (get_proof_response ProofCode.completed_ok (recursive_proof (42 ∷ []))) ∷ []

completed_not_pending : ProofCode.completed_ok ≢ ProofCode.pending
completed_not_pending = cc

wait_proof_polls_example :
    wait_proof
      (λ _. false)
      (5 ∷ [])
      (record { sent = []; next = pendings (no_proof ∷ no_proof ∷ []) ++ answers })
    ≡ (
      proof_verdict {A = Bytes} ProofCode.completed_ok (recursive_proof (42 ∷ [])),
      record { sent = [] ++ replicate 3 (get_proof_request (5 ∷ [])); next = [] },
    )
wait_proof_polls_example =
    wait_proof_polls (λ _. false) (5 ∷ []) [] (no_proof ∷ no_proof ∷ []) ProofCode.completed_ok
      (recursive_proof (42 ∷ [])) [] (λ n. refl) completed_not_pending

-- RLP in which every list has six empty fields.
abbrev toy_ethereum : Ethereum
toy_ethereum = record {
  Tx = LegacyTx;
  nonce = λ t. t.nonce;
  gas_price = λ t. t.gas_price;
  gas = λ t. t.gas;
  to = λ t. t.to;
  value = λ t. t.value;
  payload = λ t. t.payload;
  chain_id = λ t. 0;
  sig_v = λ t. t.v;
  sig_r = λ t. t.r;
  sig_s = λ t. t.s;
  new_tx = λ t. t;
  address_string = λ a. a;
  rlp_encode = λ fs. some (192 ∷ []);
  rlp_decode = λ bs. some ([] ∷ [] ∷ [] ∷ [] ∷ [] ∷ [] ∷ []);
  unmarshal_binary = λ bs. some (record {
    nonce = length bs;
    gas_price = 0;
    gas = 0;
    to = none;
    value = 0;
    payload = bs;
    v = 27;
    r = 1;
    s = 1;
  });
}

abbrev tx_data : Bytes
tx_data = 192 ∷ replicate 66 1

decode_tx_rlp_example :
    OnOk (Progress toy_ethereum tx_data 0) (decode_tx_rlp toy_ethereum tx_data 0)
decode_tx_rlp_example = decode_tx_rlp-Progress toy_ethereum tx_data 0 (omega arith)

decode_batch_v2_ends_example :
    decode_batch_v2 toy_ethereum (11 ∷ 0 ∷ tx_data) ≢ err BatchError.out_of_fuel
decode_batch_v2_ends_example = decode_batch_v2_ends toy_ethereum (11 ∷ 0 ∷ tx_data) (omega arith)

decode_txs_same_example : OnOk (SameLength toy_ethereum) (decode_txs toy_ethereum tx_data 7)
decode_txs_same_example = decode_txs-SameLength toy_ethereum tx_data

fea2scalar_example : fea2scalar (scalar2fea (3 * 2 ^ 200 + 5)) ≡ 3 * 2 ^ 200 + 5
fea2scalar_example = fea2scalar-scalar2fea (3 * 2 ^ 200 + 5) (omega arith)
