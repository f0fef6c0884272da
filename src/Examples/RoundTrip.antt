-- ===== src/Examples/RoundTrip.antt =====
-- A batch of two blocks, one with a transaction, encoded and decoded again with RLP of short items.
use zkevm_aggregator.Prelude.{
  ℕ, zero, suc, ◌+◌, ◌-◌, ◌*◌, ◌/◌, ◌%◌, ◌^◌, ◌<◌, ◌≡◌, ltb, ◌==◌, if◌then◌else◌, none, some, map,
  length, refl, inr, List, [], ◌∷◌, ◌++◌, replicate, take, drop, arith,
}
use zkevm_aggregator.Prelude.Result.{ok, ◌>>=◌}
use zkevm_aggregator.State.{Bytes}
use zkevm_aggregator.Ethereum.{Ethereum, LegacyTx, Field, number, bytes, address}
use zkevm_aggregator.State.BatchV2.{L2BlockRaw, L2TxBody, transaction, encode_uint32}
use zkevm_aggregator.State.BatchV2.Tx.{
  encode_batch_v2, decode_batch_v2, is_pre_eip155_tx, chain_fields, tx_bytes, prepare_rlp_tx_data,
  hex_digits,
}
use zkevm_aggregator.State.BatchV2.Encoded.{short}
use zkevm_aggregator.State.BatchV2.Sent.{IsSent, protected}
use zkevm_aggregator.State.BatchV2.Fields.{no_fields, a_number, some_bytes, an_address}
use zkevm_aggregator.State.BatchV2.RoundTrip.{
  AreBlocks, no_more, one_block, no_txs, one_sent, blocks_bytes, txs_bytes,
  decode_batch_v2-encode_batch_v2,
}
use zkevm_aggregator.Hex.{encode_to_string, decode_string}
use zkevm_aggregator.Examples.{toy_ethereum}

-- The bytes of a number with no zero in front.
abbrev minimal : ℕ → ℕ → Bytes → Bytes
minimal zero n acc = acc
minimal (suc k) n acc =
    let rest = minimal k (n / 256) (n % 256 ∷ acc) in if n == 0 then acc else rest

abbrev field_bytes : Field → Bytes
field_bytes (number n) = minimal 32 n []
field_bytes (bytes b) = b
field_bytes (address none) = []
field_bytes (address (some a)) = a

-- An item of at most 55 bytes.
abbrev item : Bytes → Bytes
item [] = 128 ∷ []
item (b ∷ []) = if ltb b 128 then b ∷ [] else 129 ∷ b ∷ []
item (b ∷ c ∷ bs) = (128 + length (b ∷ c ∷ bs)) ∷ b ∷ c ∷ bs

abbrev items : List Field → Bytes
items [] = []
items (f ∷ fs) = item (field_bytes f) ++ items fs

abbrev read_items : ℕ → Bytes → List Bytes
read_items zero bs = []
read_items (suc k) [] = []
read_items (suc k) (b ∷ bs) =
    let byte = read_items k bs in
    let string = read_items k (drop (b - 128) bs) in
    if ltb b 128 then (b ∷ []) ∷ byte else take (b - 128) bs ∷ string

abbrev short_ethereum : Ethereum
short_ethereum = record toy_ethereum {
  chain_id = λ t. (t.v - 35) / 2;
  rlp_encode = λ fs. some ((192 + length (items fs)) ∷ items fs);
  rlp_decode = λ bs. some (read_items (length bs) (drop 1 bs));
}

abbrev a_tx : LegacyTx
a_tx = record {
  nonce = 7;
  gas_price = 1000;
  gas = 21000;
  to = some (replicate 20 17);
  value = 300;
  payload = 1 ∷ 2 ∷ [];
  v = 2 * 1101 + 36;
  r = 5;
  s = 6;
}

a_tx-IsSent : IsSent short_ethereum a_tx
unfolding is_pre_eip155_tx chain_fields
a_tx-IsSent = record {
  first = 192 + 39;
  rest = items (
      number 7
      ∷ number 1000
      ∷ number 21000
      ∷ address (some (replicate 20 17))
      ∷ number 300
      ∷ bytes (1 ∷ 2 ∷ [])
      ∷ number 1101
      ∷ number 0
      ∷ number 0
      ∷ []);
  strings =
      (7 ∷ [])
      ∷ (3 ∷ 232 ∷ [])
      ∷ (82 ∷ 8 ∷ [])
      ∷ replicate 20 17
      ∷ (1 ∷ 44 ∷ [])
      ∷ (1 ∷ 2 ∷ [])
      ∷ (4 ∷ 77 ∷ [])
      ∷ []
      ∷ []
      ∷ [];
  coded = refl;
  all_bytes = omega arith;
  is_list = short _ (omega arith);
  decoded = refl;
  stands = a_number refl (
      a_number refl (
        a_number refl (
          an_address (
            a_number refl
              (some_bytes (a_number refl (a_number refl (a_number refl no_fields))))))));
  nonce_small = omega arith;
  gas_small = omega arith;
  is_address = refl;
  r_small = omega arith;
  s_small = omega arith;
  signed = protected refl (inr refl);
  is_legacy = refl;
}

abbrev block_with : List (L2TxBody LegacyTx) → L2BlockRaw LegacyTx
block_with bodies = record {
  header = record { delta_timestamp = 3; index_l1_info_tree = 7 };
  transactions = map (λ b. record { efficiency_percentage = 255; body = b }) bodies;
}

two_blocks : AreBlocks short_ethereum (block_with (transaction a_tx ∷ []) ∷ block_with [] ∷ [])
two_blocks =
    one_block (omega arith, omega arith) (one_sent a_tx-IsSent no_txs)
      (one_block (omega arith, omega arith) no_txs no_more)

is_short :
    length (blocks_bytes short_ethereum (block_with (transaction a_tx ∷ []) ∷ block_with [] ∷ []))
    < 2 ^ 63
unfolding blocks_bytes txs_bytes encode_uint32 tx_bytes prepare_rlp_tx_data chain_fields
    is_pre_eip155_tx hex_digits encode_to_string decode_string
is_short = omega arith

round_trip_example :
    encode_batch_v2 short_ethereum (some (block_with (transaction a_tx ∷ []) ∷ block_with [] ∷ []))
      >>= decode_batch_v2 short_ethereum
    ≡ ok (block_with (transaction a_tx ∷ []) ∷ block_with [] ∷ [])
round_trip_example =
    decode_batch_v2-encode_batch_v2 short_ethereum (block_with (transaction a_tx ∷ []))
      (block_with [] ∷ []) two_blocks is_short
