-- ===== src/Aggregator/Stream/Assembled.antt =====
-- The stream's messages as they change the list of the batch's blocks, with no block open, and the
-- handler's fields as a representation of that list.
use zkevm_aggregator.Prelude.{◌≡◌, ◌≢◌, refl, ap, some, List, [], ◌∷◌, ◌++◌, arith}
use zkevm_aggregator.State.{Bytes}
use zkevm_aggregator.State.BatchV2.{L2BlockRaw}
use zkevm_aggregator.Hex.{encode_to_string}
use zkevm_aggregator.Hex.RoundTrip.{AllBytes, decode_hex-encode_to_string}
use zkevm_aggregator.Ethereum.{Ethereum}
use zkevm_aggregator.Aggregator.Stream.{
  l2_block, transaction, FileEntry, L2Block, Transaction, Datastream, Stream,
}
use zkevm_aggregator.Aggregator.Stream.Entry.{decode_tx, with_transaction, add_last_block}

abbrev pub to_last : {A : Type 0} → (A → A) → List A → List A
to_last f [] = []
to_last f (a ∷ []) = f a ∷ []
to_last f (a ∷ (b ∷ bs)) = a ∷ to_last f (b ∷ bs)

abbrev pub block_of : {Tx : Type 0} → L2Block → L2BlockRaw Tx
block_of m = record {
  header = record { delta_timestamp = m.delta_timestamp; index_l1_info_tree = m.l1_infotree_index };
  transactions = [];
}

module _ (eth : Ethereum) (ds : Datastream) where
  -- One message: a block of a number other than 0 joins the batch, a transaction joins the last block.
  pub data Sends : List (L2BlockRaw eth.Tx) → FileEntry → List (L2BlockRaw eth.Tx) → Type 0 where
    new_block :
        (blocks : List (L2BlockRaw eth.Tx)) (bs : Bytes) (m : L2Block)
        → ds.unmarshal_l2_block bs ≡ some m
        → m.number ≢ 0
        → Sends blocks
            (record { entry_type = l2_block; data_bytes = bs })
            (blocks ++ (block_of m ∷ []))
    new_transaction :
        (blocks : List (L2BlockRaw eth.Tx)) (b : L2BlockRaw eth.Tx) (bs : Bytes) (t : Transaction)
        (tx : eth.Tx)
        → ds.unmarshal_transaction bs ≡ some t
        → AllBytes t.encoded
        → eth.unmarshal_binary t.encoded ≡ some tx
        → Sends
            (blocks ++ (b ∷ []))
            (record { entry_type = transaction; data_bytes = bs })
            (to_last (with_transaction t tx) (blocks ++ (b ∷ [])))

  -- A run of messages, from one list of blocks to another.
  pub data Assembles
      : List (L2BlockRaw eth.Tx) → List FileEntry → List (L2BlockRaw eth.Tx) → Type 0 where
    no_more : (blocks : List (L2BlockRaw eth.Tx)) → Assembles blocks [] blocks
    then_send :
        {a b c : List (L2BlockRaw eth.Tx)} {e : FileEntry} {es : List FileEntry}
        → Sends a e b
        → Assembles b es c
        → Assembles a (e ∷ es) c

-- The fields stand for these blocks: the last one is open, if there is one.
pub data Represents {Tx : Type 0} (s : Stream Tx) : List (L2BlockRaw Tx) → Type 0 where
  none_open : s.block_number ≡ 0 → s.current_stream_batch_raw ≡ [] → Represents s []
  last_open :
      s.block_number ≢ 0
      → Represents s (s.current_stream_batch_raw ++ (s.current_stream_l2_block ∷ []))

pub to_last-snoc :
    {A : Type 0} (f : A → A) (xs : List A) (a : A) → to_last f (xs ++ (a ∷ [])) ≡ xs ++ (f a ∷ [])
to_last-snoc f [] a = refl
to_last-snoc f (b ∷ []) a = refl
to_last-snoc f (b ∷ (c ∷ bs)) a = ap (λ ys. b ∷ ys) (to_last-snoc f (c ∷ bs) a)

pub add_last_block-Represents :
    {Tx : Type 0} (s : Stream Tx) (blocks : List (L2BlockRaw Tx))
    → Represents s blocks
    → (add_last_block s).current_stream_batch_raw ≡ blocks
unfolding add_last_block
add_last_block-Represents s blocks (none_open e h) = rw e h
add_last_block-Represents s blocks (last_open h) = ground arith

pub decode_tx_lem :
    (eth : Ethereum) (bs : Bytes)
    → AllBytes bs
    → decode_tx eth (encode_to_string bs) ≡ eth.unmarshal_binary bs
unfolding decode_tx
decode_tx_lem eth bs h = rw (decode_hex-encode_to_string bs h)
