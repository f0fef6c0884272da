-- ===== src/State/BatchV2/Tx.antt =====
-- state/encoding_batch_v2.go and state/helper.go: a transaction, to bytes and back, and the whole
-- batch. go-ethereum is the argument `eth`.
use zkevm_aggregator.Prelude.{
  ℕ, zero, suc, ◌+◌, ◌-◌, ◌*◌, ◌/◌, ◌%◌, Bool, ◌&&◌, ◌||◌, Option, none, some, List, [], ◌∷◌, ◌++◌,
  ltb, ◌==◌, if◌then◌else◌, length, get_elem?, replicate,
}
use zkevm_aggregator.Prelude.Result.{Result, ok, err, panic, ◌>>=◌}
use zkevm_aggregator.State.{Bytes, u64}
use zkevm_aggregator.Ethereum.{
  Ethereum, LegacyTx, Field, number, bytes, address, from_bytes, bytes_to_address,
}
use zkevm_aggregator.Hex.{digit, encode_to_string, decode_string}
use zkevm_aggregator.State.BatchV2.{
  BatchError, dont_start_with_change_l2_block, invalid_batch_v2, rlp_failure, hex_failure,
  not_supported, out_of_fuel, L2TxBody, already_encoded, transaction, L2TxRaw, L2BlockRaw,
  change_l2_block, slice, at, encode_header, decode_block_header,
  decode_rlp_list_length_from_offset,
}

unfoldable pub hex_digits : ℕ → ℕ → Bytes → Bytes
hex_digits zero n acc = acc
hex_digits (suc fuel) n acc =
    let rest = hex_digits fuel (n / 16) (digit (n % 16) ∷ acc) in if n == 0 then acc else rest

-- `n.Text(16)` of a number below 2^256, filled up with zeros in front as `%0<width>s` does. The
-- digits of zero are one zero there and none here: the padding makes them the same.
abbrev pub padded_hex : ℕ → ℕ → Bytes
padded_hex width n = let text = hex_digits 64 n [] in replicate (width - length text) b'0' ++ text

abbrev pub from_option : {A : Type 0} → BatchError → Option A → Result BatchError A
from_option e none = err e
from_option e (some a) = ok a

-- The seventh field, when there is one, is the chain id: v - 27 + chainID * 2 + 35.
abbrev pub tx_v : List Bytes → Bytes → ℕ
tx_v [] v = from_bytes v
tx_v (chain_id ∷ _) v = from_bytes v + from_bytes chain_id * 2 + 35 - 27

abbrev pub to_field : Bytes → Option Bytes
to_field [] = none
to_field (b ∷ bs) = some (bytes_to_address (b ∷ bs))

unfoldable pub rlp_fields_to_legacy_tx :
    List Bytes → Bytes → Bytes → Bytes → Result BatchError LegacyTx
rlp_fields_to_legacy_tx (nonce ∷ price ∷ gas ∷ to ∷ value ∷ input ∷ rest) v r s = ok (record {
  nonce = u64 (from_bytes nonce);
  gas_price = from_bytes price;
  gas = u64 (from_bytes gas);
  to = to_field to;
  value = from_bytes value;
  payload = input;
  v = tx_v rest v;
  r = from_bytes r;
  s = from_bytes s;
})
rlp_fields_to_legacy_tx _ v r s = err not_supported

module _ (eth : Ethereum) where
  unfoldable pub is_pre_eip155_tx : eth.Tx → Bool
  is_pre_eip155_tx tx =
      u64 (eth.chain_id tx) == 0 && (u64 (eth.sig_v tx) == 27 || u64 (eth.sig_v tx) == 28)

  unfoldable pub chain_fields : eth.Tx → List Field
  unfolding is_pre_eip155_tx
  chain_fields tx =
      if is_pre_eip155_tx tx then [] else number (eth.chain_id tx) ∷ number 0 ∷ number 0 ∷ []

  abbrev pub tx_fields : eth.Tx → List Field
  tx_fields tx =
      number (eth.nonce tx)
      ∷ number (eth.gas_price tx)
      ∷ number (eth.gas tx)
      ∷ address (eth.to tx)
      ∷ number (eth.value tx)
      ∷ bytes (eth.payload tx)
      ∷ chain_fields tx

  unfoldable pub prepare_rlp_tx_data : eth.Tx → Result BatchError Bytes
  unfolding encode_to_string decode_string
  prepare_rlp_tx_data tx = from_option rlp_failure (eth.rlp_encode (tx_fields tx)) >>= λ coded.
      from_option hex_failure (
        decode_string (
          ((encode_to_string coded ++ padded_hex 64 (eth.sig_r tx)) ++ padded_hex 64 (eth.sig_s tx))
          ++ padded_hex 2 (27 + (1 - u64 (eth.sig_v tx) % 2))))

  unfoldable pub tx_bytes : L2TxBody eth.Tx → Result BatchError Bytes
  unfolding prepare_rlp_tx_data
  tx_bytes (already_encoded bs) = ok bs
  tx_bytes (transaction tx) = prepare_rlp_tx_data tx

  -- `L2TxRaw.Encode`.
  unfoldable pub encode_tx : L2TxRaw eth.Tx → Bytes → Result BatchError Bytes
  unfolding tx_bytes
  encode_tx tx batch_data =
      tx_bytes tx.body >>= λ bs. ok ((batch_data ++ bs) ++ tx.efficiency_percentage ∷ [])

  -- `AddTransactions`.
  unfoldable pub add_transactions : List (L2TxRaw eth.Tx) → Bytes → Result BatchError Bytes
  unfolding encode_tx
  add_transactions [] batch_data = ok batch_data
  add_transactions (tx ∷ txs) batch_data = encode_tx tx batch_data >>= add_transactions txs

  unfoldable pub encode_blocks : List (L2BlockRaw eth.Tx) → Bytes → Result BatchError Bytes
  unfolding encode_header add_transactions
  encode_blocks [] batch_data = ok batch_data
  encode_blocks (b ∷ bs) batch_data =
      add_transactions b.transactions (encode_header b.header batch_data) >>= encode_blocks bs

  -- A nil batch is `none`.
  unfoldable pub encode_batch_v2 : Option (List (L2BlockRaw eth.Tx)) → Result BatchError Bytes
  unfolding encode_blocks
  encode_batch_v2 none = err invalid_batch_v2
  encode_batch_v2 (some []) = err invalid_batch_v2
  encode_batch_v2 (some (b ∷ bs)) = encode_blocks (b ∷ bs) []

  -- The bytes from `offset` to `end_pos`, cut up and decoded.
  unfoldable pub decode_parts : Bytes → ℕ → ℕ → ℕ → Result BatchError (ℕ × L2TxRaw eth.Tx)
  unfolding rlp_fields_to_legacy_tx
  decode_parts txs_data offset end_pos data_start = do
    full_data_tx ← slice txs_data offset end_pos
    tx_info ← slice txs_data offset data_start
    r_data ← slice txs_data data_start (u64 (data_start + 32))
    s_data ← slice txs_data (u64 (data_start + 32)) (u64 (data_start + 64))
    v_data ← slice txs_data (u64 (data_start + 64)) (u64 (data_start + 65))
    percentage ← at txs_data (u64 (data_start + 65))
    fields ← from_option rlp_failure (eth.rlp_decode tx_info)
    legacy_tx ← rlp_fields_to_legacy_tx fields v_data r_data s_data
    ok (
      end_pos,
      record { efficiency_percentage = percentage; body = transaction (eth.new_tx legacy_tx) },
    )

  unfoldable pub decode_tx_rlp : Bytes → ℕ → Result BatchError (ℕ × L2TxRaw eth.Tx)
  unfolding decode_rlp_list_length_from_offset
  decode_tx_rlp txs_data offset = decode_rlp_list_length_from_offset txs_data offset >>= λ len.
      if ltb (length txs_data) (u64 (offset + len + 66))
      then err invalid_batch_v2
      else decode_parts txs_data offset (u64 (offset + len + 66)) (u64 (offset + len))

  abbrev pub with_current :
      List (L2BlockRaw eth.Tx) → Option (L2BlockRaw eth.Tx) → List (L2BlockRaw eth.Tx)
  with_current blocks none = blocks
  with_current blocks (some b) = blocks ++ b ∷ []

  abbrev pub with_tx : L2BlockRaw eth.Tx → L2TxRaw eth.Tx → L2BlockRaw eth.Tx
  with_tx b tx = record b { transactions = b.transactions ++ tx ∷ [] }

  -- A transaction before any block is an error, whether it decodes or not.
  abbrev pub no_block :
      Result BatchError (ℕ × L2TxRaw eth.Tx) → Result BatchError (List (L2BlockRaw eth.Tx))
  no_block (ok _) = err dont_start_with_change_l2_block
  no_block (err _) = err invalid_batch_v2
  no_block panic = panic

  -- The branches of the loop: the end of the bytes, a block header, a transaction.
  abbrev pub on_byte : {R : Type 0} → Option ℕ → R → (ℕ → R) → (ℕ → R) → R
  on_byte none at_end header tx = at_end
  on_byte (some b) at_end header tx = (if b == change_l2_block then header else tx) b

  abbrev pub on_current :
      {R : Type 0} → Option (L2BlockRaw eth.Tx) → (ℕ → R) → (L2BlockRaw eth.Tx → R) → ℕ → R
  on_current none without_block in_block b = without_block b
  on_current (some block) without_block in_block b = in_block block

  -- The loop of `DecodeBatchV2`, from `pos`.
  unfoldable pub decode_from :
      ℕ
      → Bytes
      → ℕ
      → List (L2BlockRaw eth.Tx)
      → Option (L2BlockRaw eth.Tx)
      → Result BatchError (List (L2BlockRaw eth.Tx))
  unfolding decode_block_header decode_tx_rlp
  decode_from zero txs_data pos blocks current = err out_of_fuel
  decode_from (suc fuel) txs_data pos blocks current =
      on_byte (get_elem? txs_data pos) (ok (with_current blocks current))
        (λ b. decode_block_header txs_data (pos + 1) >>= λ (next, block).
          decode_from fuel txs_data next (with_current blocks current) (some block))
        (on_current current (λ b. no_block (decode_tx_rlp txs_data pos))
          (λ block. decode_tx_rlp txs_data pos >>= λ (next, tx).
            decode_from fuel txs_data next blocks (some (with_tx block tx))))

  -- Every turn moves `pos` forward, so that the bytes are fuel enough.
  unfoldable pub decode_batch_v2 : Bytes → Result BatchError (List (L2BlockRaw eth.Tx))
  unfolding decode_from
  decode_batch_v2 txs_data = decode_from (suc (length txs_data)) txs_data 0 [] none
