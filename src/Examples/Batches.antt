-- ===== src/Examples/Batches.antt =====
-- Runs of the stream, of the proof of one batch, of settling and of the service's turns.
use zkevm_aggregator.Prelude.{
  ℕ, ◌+◌, ◌<◌, ◌≡◌, ◌≢◌, refl, true, false, some, none, List, [], ◌∷◌, ◌++◌, arith, Memᴰ,
}
use zkevm_aggregator.Prelude.Result.{ok}
use zkevm_aggregator.State.{Bytes, BatchType}
use zkevm_aggregator.State.Storage.{check_proof_exists_for_batch}
use zkevm_aggregator.State.BatchV2.{L2BlockRaw}
use zkevm_aggregator.Ethereum.{LegacyTx}
use zkevm_aggregator.Synchronizer.{absent, VirtualBatch, L1InfoTreeLeaf}
use zkevm_aggregator.Hex.{encode_to_hex}
use zkevm_aggregator.Aggregator.{FinalProofMsg}
use zkevm_aggregator.Aggregator.Settle.{send_final_proof}
use zkevm_aggregator.Aggregator.Settle.Released.{Released, send_final_proof-Released}
use zkevm_aggregator.Aggregator.BatchProof.{find_unproved, try_generate_batch_proof}
use zkevm_aggregator.Aggregator.BatchProof.Search.{FirstUnproved, find_unproved-FirstUnproved}
use zkevm_aggregator.Aggregator.BatchProof.Covered.{try_generate_batch_proof-covered}
use zkevm_aggregator.Aggregator.Post.{Post as MPost}
use zkevm_aggregator.Aggregator.Service.{channel_turn, set_up, witness_bytes}
use zkevm_aggregator.Aggregator.Service.Covered.{channel_turn-covered}
use zkevm_aggregator.Aggregator.{Env}
use zkevm_aggregator.Aggregator.BatchProof.Input.{entries_for}
use zkevm_aggregator.Aggregator.BatchProof.Proofs.{AllProved, Has, entries_for-Proved}
use zkevm_aggregator.Prelude.{subst, ap, replicate, get_or, ◌%◌, Option}
use zkevm_aggregator.MerkleTree.Keys.{nonce, key_eth_addr}
use zkevm_aggregator.Prelude.{length, ◌/◌, ◌*◌}
use zkevm_aggregator.MerkleTree.Bytecode.{hash_contract_bytecode}
use zkevm_aggregator.MerkleTree.Bytecode.Padding.{end_mark, sponge, hash_contract_bytecode-sponge}
use zkevm_aggregator.MerkleTree.Keys.Determined.{AreWords, key_eth_addr-injective}
use zkevm_aggregator.Hex.RoundTrip.{AllBytes}
use zkevm_aggregator.L1InfoTree.{zero_leaf}
use zkevm_aggregator.L1InfoTree.Reference.{tree}
use zkevm_aggregator.Aggregator.Service.Witness.{drop_zeros, witness_bytes-encode_to_hex}
use zkevm_aggregator.Aggregator.Service.SetUp.{Ready, set_up-Ready}
use zkevm_aggregator.Aggregator.Stream.{
  batch_end, l2_block, transaction, FileEntry, Datastream, L2Block, Transaction, BatchEnd, Stream,
  ◌>>◌,
}
use zkevm_aggregator.Aggregator.Stream.Post.{Post}
use zkevm_aggregator.Aggregator.Stream.Waits.{get_virtual_batch}
use zkevm_aggregator.Aggregator.Stream.Waiting.{get_virtual_batch_returns}
use zkevm_aggregator.Aggregator.Stream.Entry.{
  with_transaction, no_l2_block, handle_received_data_stream,
}
use zkevm_aggregator.Prelude.{◌^◌}
use zkevm_aggregator.Aggregator.Stream.Stored.{Before}
use zkevm_aggregator.Aggregator.Stream.Assembled.{
  Assembles, no_more, then_send, new_block, new_transaction, block_of, none_open,
}
use zkevm_aggregator.Aggregator.Stream.Refinement.{
  handle_all, encodings, HandledAll, handle_all-Assembles,
}
use zkevm_aggregator.Aggregator.Stream.Ended.{Finished, IsReset, handle_all-Finished}
use zkevm_aggregator.Examples.{
  quiet, start, two_rows, row, stored_batch, toy_ethereum, verified_below, toy_keccak, three_leaves,
}

abbrev a_message : FinalProofMsg
a_message = record {
  prover_name = [];
  prover_id = [];
  recursive_proof = row 1;
  final_proof = record { proof = []; new_state_root = []; new_local_exit_root = [] };
}

send_final_proof_example :
    let (r, w') = send_final_proof quiet a_message (start two_rows) in
    Released (row 1) (start two_rows) r w'
send_final_proof_example = send_final_proof-Released quiet a_message (start two_rows)

find_unproved_example : FirstUnproved two_rows 0 (find_unproved quiet 0 (start two_rows)).0
find_unproved_example = find_unproved-FirstUnproved quiet 0 (start two_rows) (omega arith)

try_generate_batch_proof_example :
    check_proof_exists_for_batch 2
      (try_generate_batch_proof quiet toy_ethereum (start two_rows)).1.db
    ≡ true
try_generate_batch_proof_example =
    try_generate_batch_proof-covered quiet 2 verified_below (omega arith) toy_ethereum
      (start two_rows) (unfold check_proof_exists_for_batch in refl)

channel_turn_example :
    check_proof_exists_for_batch 2
      (channel_turn quiet toy_ethereum (λ _. some true) false (start two_rows)).1.db
    ≡ true
channel_turn_example =
    channel_turn-covered quiet 2 verified_below (omega arith) toy_ethereum (λ _. some true) false
      (start two_rows) (unfold check_proof_exists_for_batch in refl)

witness_bytes_example : witness_bytes (encode_to_hex (0 ∷ 5 ∷ 0 ∷ [])) ≡ drop_zeros (0 ∷ 5 ∷ 0 ∷ [])
witness_bytes_example =
    witness_bytes-encode_to_hex (0 ∷ 5 ∷ 0 ∷ []) (omega arith, (omega arith, (omega arith, tt)))

set_up_example :
    MPost
      (λ _. Ready quiet (λ _ _. some (7 ∷ [])) (start two_rows))
      (λ _ _. Unit)
      (set_up quiet (λ _ _. some (7 ∷ [])))
      (start two_rows)
set_up_example = set_up-Ready quiet (λ _ _. some (7 ∷ [])) (start two_rows)

set_up_runs : (set_up quiet (λ _ _. some (7 ∷ [])) (start two_rows)).0 ≡ ok tt
unfolding set_up
set_up_runs = refl

abbrev a_virtual_batch : VirtualBatch
a_virtual_batch = record { batch_l2_data = []; block_number = 2 }

not_yet : (i : ℕ) → i < 3 → quiet.l1.virtual_batch_by_batch_number (0 + i) 2 ≡ absent
not_yet i h = ground arith

get_virtual_batch_example :
    get_virtual_batch quiet 5 2 (start two_rows)
    ≡ (ok a_virtual_batch, record (start two_rows) { calls = 0 + 3 + 1 })
get_virtual_batch_example =
    get_virtual_batch_returns quiet 2 3 5 a_virtual_batch (start two_rows) (omega arith) not_yet
      refl

-- One number stands for every message, and an entry's bytes are its data.
abbrev a_block : L2Block
a_block = record {
  number = 4;
  delta_timestamp = 3;
  l1_infotree_index = 0;
  coinbase = [];
  global_exit_root = [];
}

abbrev a_transaction : Transaction
a_transaction = record { encoded = 5 ∷ 6 ∷ []; effective_gas_price_percentage = 300 }

abbrev an_end : BatchEnd
an_end = record { local_exit_root = []; state_root = [] }

abbrev pub toy_datastream : Datastream
toy_datastream = record {
  encode = λ e. 1 ∷ e.data_bytes;
  unmarshal_batch_start = λ bs. none;
  unmarshal_batch_end = λ bs. some an_end;
  unmarshal_l2_block = λ bs. some a_block;
  unmarshal_transaction = λ bs. some a_transaction;
}

abbrev clean_stream : Stream LegacyTx
clean_stream = record {
  halted = false;
  current_batch_stream_data = [];
  current_stream_batch = (stored_batch 2).batch;
  current_stream_batch_raw = [];
  current_stream_l2_block = no_l2_block;
  block_number = 0;
  witness_retrieval_chan = [];
}

abbrev block_entry : FileEntry
block_entry = record { entry_type = l2_block; data_bytes = 2 ∷ [] }

abbrev transaction_entry : FileEntry
transaction_entry = record { entry_type = transaction; data_bytes = 3 ∷ [] }

abbrev decoded : LegacyTx
decoded = record {
  nonce = 2;
  gas_price = 0;
  gas = 0;
  to = none;
  value = 0;
  payload = 5 ∷ 6 ∷ [];
  v = 27;
  r = 1;
  s = 1;
}

abbrev one_block : List (L2BlockRaw LegacyTx)
one_block = with_transaction a_transaction decoded (block_of a_block) ∷ []

a_batch : Assembles toy_ethereum toy_datastream [] (block_entry ∷ transaction_entry ∷ []) one_block
a_batch = then_send (new_block [] (2 ∷ []) a_block refl (λ e. cc)) (
    then_send
      (new_transaction [] (block_of a_block) (3 ∷ []) a_transaction decoded refl
        (omega arith, (omega arith, tt)) refl)
      (no_more one_block))

handle_all_example :
    HandledAll quiet toy_ethereum toy_datastream 5
      (block_entry ∷ transaction_entry ∷ [])
      one_block
      clean_stream
      (start two_rows)
handle_all_example =
    handle_all-Assembles quiet toy_ethereum toy_datastream 5 [] one_block
      (block_entry ∷ transaction_entry ∷ []) clean_stream (start two_rows) refl
      (none_open refl refl) a_batch

clean_stream-IsReset : IsReset clean_stream
clean_stream-IsReset = record { no_bytes = refl; represents = none_open refl refl }

two_not_zero : clean_stream.current_stream_batch.batch_number ≢ 0
two_not_zero e = absurd (omega (arith, e))

handle_all_end_example :
    Post
      (λ _.
        Finished quiet toy_ethereum toy_datastream 5 two_rows 2 one_block BatchType.regular
          (encodings toy_datastream (block_entry ∷ transaction_entry ∷ []) ++ (1 ∷ 4 ∷ [])))
      (Before quiet toy_ethereum 5 two_rows)
      (handle_all quiet toy_ethereum toy_datastream 5 (block_entry ∷ transaction_entry ∷ [])
        >> handle_received_data_stream quiet toy_ethereum toy_datastream 5
            (record { entry_type = batch_end; data_bytes = 4 ∷ [] }))
      clean_stream
      (start two_rows)
handle_all_end_example =
    handle_all-Finished quiet toy_ethereum toy_datastream 5 (block_entry ∷ transaction_entry ∷ [])
      (4 ∷ []) an_end one_block clean_stream (start two_rows) refl two_not_zero clean_stream-IsReset
      a_batch refl

abbrev an_l1_leaf : L1InfoTreeLeaf
an_l1_leaf = record { global_exit_root = []; previous_block_hash = []; timestamp = 0 }

-- L1 has a leaf for every index.
abbrev with_leaves : Env
with_leaves = record quiet { l1 = record (quiet.l1) { l1_info_tree_leaf = λ k i. some an_l1_leaf } }

indices_small : (i : ℕ) → Memᴰ i (1 ∷ 0 ∷ 1 ∷ []) → i < 2 ^ 2
indices_small i (Memᴰ.head e) = ground (arith, e)
indices_small i (Memᴰ.tail (Memᴰ.head e)) = ground (arith, e)
indices_small i (Memᴰ.tail (Memᴰ.tail (Memᴰ.head e))) = ground (arith, e)
indices_small i (Memᴰ.tail (Memᴰ.tail (Memᴰ.tail m))) = elim m [ ]

abbrev root_of_three : Bytes
root_of_three = tree toy_keccak zero_leaf 2 three_leaves

entries_for_example :
    MPost
      (λ es _.
        AllProved with_leaves 2 root_of_three three_leaves es
        × Has with_leaves 2 root_of_three three_leaves (1 ∷ 0 ∷ 1 ∷ []) es)
      (λ _ _. Unit)
      (entries_for with_leaves 2 root_of_three three_leaves (1 ∷ 0 ∷ 1 ∷ []) [])
      (start two_rows)
entries_for_example =
    entries_for-Proved with_leaves 2 root_of_three three_leaves (1 ∷ 0 ∷ 1 ∷ []) (start two_rows)
      (omega arith) (omega arith) (omega arith) indices_small

-- Not a hash, but four words that the input gives.
abbrev toy_poseidon : List ℕ → List ℕ → Option (List ℕ)
toy_poseidon xs c = some (
    get_or xs 0 0 % 2 ^ 64
    ∷ get_or xs 1 0 % 2 ^ 64
    ∷ get_or xs 6 0 % 2 ^ 64
    ∷ get_or c 0 0 % 2 ^ 64
    ∷ [])

words_of_toy : (xs c r : List ℕ) → toy_poseidon xs c ≡ some r → AreWords r
words_of_toy xs c r e =
    subst AreWords (ap (λ o. elim o [ none ↦ [] | some q ↦ q ]) e)
      (AreWords.four _ _ _ _ (omega arith) (omega arith) (omega arith) (omega arith))

abbrev an_address : Bytes
an_address = 1 ∷ replicate 19 2

an_address-AllBytes : AllBytes an_address
an_address-AllBytes = search arith

abbrev a_capacity : List ℕ
a_capacity = 1 ∷ 2 ∷ 3 ∷ 4 ∷ []

abbrev word_one : Bytes
word_one = replicate 7 0 ++ (1 ∷ [])

abbrev word_twos : Bytes
word_twos = replicate 4 0 ++ replicate 4 2

abbrev a_key : Bytes
a_key = word_one ++ word_one ++ word_twos ++ word_twos

a_key_found : key_eth_addr toy_poseidon an_address nonce a_capacity ≡ ok a_key
unfolding key_eth_addr
a_key_found = refl

key_example : (nonce ≡ nonce) × (an_address ≡ an_address) × (a_capacity ≡ a_capacity)
key_example =
    key_eth_addr-injective toy_poseidon words_of_toy an_address an_address nonce nonce a_capacity
      a_capacity a_key refl an_address-AllBytes refl an_address-AllBytes (λ r e f. (refl, refl))
      a_key_found a_key_found

answers_of_toy : (xs c : List ℕ) → (h : List ℕ) × (toy_poseidon xs c ≡ some h)
answers_of_toy xs c = (_, refl)

abbrev a_bytecode : Bytes
a_bytecode = 96 ∷ 128 ∷ replicate 60 82

bytecode_example :
    (length (a_bytecode ++ end_mark (length a_bytecode)) ≡ (length a_bytecode / 56 + 1) * 56)
    × (hash_contract_bytecode toy_poseidon a_bytecode
        ≡ ok (
            sponge toy_poseidon answers_of_toy
              (length a_bytecode / 56 + 1)
              (0 ∷ 0 ∷ 0 ∷ 0 ∷ [])
              (a_bytecode ++ end_mark (length a_bytecode))))
bytecode_example = hash_contract_bytecode-sponge toy_poseidon answers_of_toy a_bytecode
