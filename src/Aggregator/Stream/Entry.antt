-- ===== src/Aggregator/Stream/Entry.antt =====
-- aggregator.go, `handleReceivedDataStream`: one entry of the stream; and state/helper.go, `DecodeTx`.
use zkevm_aggregator.Prelude.{
  ℕ, ◌%◌, Bool, true, false, Option, none, some, [], ◌∷◌, ◌++◌, ◌==◌, if◌then◌else◌,
}
use zkevm_aggregator.State.{Bytes, Batch}
use zkevm_aggregator.State.BatchV2.{ChangeL2BlockHeader, L2BlockRaw, transaction as tx_body}
use zkevm_aggregator.Hex.{encode_to_string, decode_hex}
use zkevm_aggregator.Ethereum.{Ethereum, bytes_to_hash, bytes_to_address}
use zkevm_aggregator.Aggregator.{failure, Env}
use zkevm_aggregator.Aggregator.Stream.{
  EntryType, bookmark, batch_start, batch_end, l2_block, transaction, FileEntry, BatchStart,
  BatchEnd, L2Block, Transaction, Datastream, Stream, Handler, give, stream, modify, given, ◌>>=◌,
  ◌>>◌,
}
use zkevm_aggregator.Aggregator.Stream.Save.{set_batch, save_batch}

abbrev of_option : {A B : Type 0} → (A → Option B) → Option A → Option B
of_option f none = none
of_option f (some a) = f a

-- `DecodeTx`.
unfoldable pub decode_tx : (eth : Ethereum) → Bytes → Option eth.Tx
unfolding decode_hex
decode_tx eth encoded = of_option eth.unmarshal_binary (decode_hex encoded)

abbrev pub no_header : ChangeL2BlockHeader
no_header = record { delta_timestamp = 0; index_l1_info_tree = 0 }

abbrev pub open_batch : BatchStart → Batch → Batch
open_batch m b = record b {
  batch_number = m.number;
  chain_id = m.chain_id;
  fork_id = m.fork_id;
  batch_type = m.batch_type;
}

abbrev pub close_batch : BatchEnd → Batch → Batch
close_batch m b = record b {
  local_exit_root = bytes_to_hash m.local_exit_root;
  state_root = bytes_to_hash m.state_root;
}

abbrev pub in_block : L2Block → Batch → Batch
in_block m b = record b {
  l1_info_tree_index = m.l1_infotree_index;
  coinbase = bytes_to_address m.coinbase;
  global_exit_root = bytes_to_hash m.global_exit_root;
}

module _ {Tx : Type 0} where
  abbrev pub no_l2_block : L2BlockRaw Tx
  no_l2_block = record { header = no_header; transactions = [] }

  -- The block that is open, if any, joins the batch; it stays open.
  unfoldable pub add_last_block : Stream Tx → Stream Tx
  add_last_block s = if s.block_number == 0 then s else record s {
    current_stream_batch_raw = s.current_stream_batch_raw ++ (s.current_stream_l2_block ∷ []);
  }

  abbrev pub open_block : L2Block → Stream Tx → Stream Tx
  open_block m s = record s {
    current_stream_l2_block = record {
      header = record {
        delta_timestamp = m.delta_timestamp;
        index_l1_info_tree = m.l1_infotree_index;
      };
      transactions = [];
    };
    block_number = m.number;
    current_stream_batch = in_block m s.current_stream_batch;
  }

  abbrev pub with_transaction : Transaction → Tx → L2BlockRaw Tx → L2BlockRaw Tx
  with_transaction t tx b = record b {
    transactions =
        b.transactions
        ++ (record {
          efficiency_percentage = t.effective_gas_price_percentage % 256;
          body = tx_body tx;
        }
            ∷ []);
  }

  abbrev pub add_tx : Transaction → Tx → Stream Tx → Stream Tx
  add_tx t tx s = record s {
    current_stream_l2_block = with_transaction t tx s.current_stream_l2_block;
  }

  abbrev pub reset : Stream Tx → Stream Tx
  reset s = record s {
    current_batch_stream_data = [];
    current_stream_batch_raw = [];
    current_stream_l2_block = no_l2_block;
    block_number = 0;
  }

  abbrev pub append_data : Bytes → Stream Tx → Stream Tx
  append_data bs s = record s { current_batch_stream_data = s.current_batch_stream_data ++ bs }

module _ (env : Env) (eth : Ethereum) (ds : Datastream) (rounds : ℕ) where
  unfoldable pub on_batch_end : BatchEnd → Handler eth.Tx (Unit {0})
  unfolding add_last_block save_batch
  on_batch_end m = do
    modify (set_batch (close_batch m))
    modify add_last_block
    s ← stream
    if s.current_stream_batch.batch_number == 0
        then give tt
        else save_batch env eth rounds s.current_stream_batch.batch_number
    modify reset

  unfoldable pub on_entry : EntryType → Bytes → Handler eth.Tx (Unit {0})
  unfolding on_batch_end add_last_block decode_tx
  on_entry batch_start bs = do
    m ← given failure (ds.unmarshal_batch_start bs)
    modify (set_batch (open_batch m))
  on_entry batch_end bs = do m ← given failure (ds.unmarshal_batch_end bs); on_batch_end m
  on_entry l2_block bs = do
    modify add_last_block
    m ← given failure (ds.unmarshal_l2_block bs)
    modify (open_block m)
  on_entry transaction bs = do
    m ← given failure (ds.unmarshal_transaction bs)
    tx ← given failure (decode_tx eth (encode_to_string m.encoded))
    modify (add_tx m tx)
  on_entry _ bs = give tt

  abbrev pub is_bookmark : EntryType → Bool
  is_bookmark bookmark = true
  is_bookmark _ = false

  unfoldable pub handle_received_data_stream : FileEntry → Handler eth.Tx (Unit {0})
  unfolding on_entry
  handle_received_data_stream entry = do
    s ← stream
    if s.halted
        then give tt
        else if is_bookmark entry.entry_type
        then give tt
        else (do modify (append_data (ds.encode entry)); on_entry entry.entry_type entry.data_bytes)
