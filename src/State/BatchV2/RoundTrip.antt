-- ===== src/State/BatchV2/RoundTrip.antt =====
-- state/encoding_batch_v2.go: a batch of blocks with encoded transactions, encoded and decoded again.
use zkevm_aggregator.Prelude.{
  ℕ, zero, suc, ◌+◌, ◌^◌, ◌<◌, ◌≡◌, refl, ap, sym, ◌∙◌, some, List, [], ◌∷◌, ◌++◌, length, drop,
  length-append, arith, append_assoc, append_nil,
}
use zkevm_aggregator.Prelude.Result.{Result, ok, err, panic, ◌>>=◌}
use zkevm_aggregator.State.{Bytes}
use zkevm_aggregator.Ethereum.{Ethereum}
use zkevm_aggregator.State.BatchV2.{
  BatchError, ChangeL2BlockHeader, L2BlockRaw, L2TxRaw, L2TxBody, transaction, encode_uint32,
  change_l2_block, encode_header,
}
use zkevm_aggregator.State.BatchV2.Tx.{
  tx_bytes, encode_tx, encode_batch_v2, encode_blocks, add_transactions, decode_batch_v2,
  decode_from,
}
use zkevm_aggregator.State.BatchV2.Header.{
  IsHeader, suc_one, get_elem?_of_drop, get_elem?-none, decode_block_header_at, encode_header_lem,
}
use zkevm_aggregator.State.BatchV2.Relayed.{
  Encodes, ok_bind, past_tx, starts_no_block, decode_tx_rlp_at,
}
use zkevm_aggregator.State.BatchV2.Sent.{IsSent, tx_bytes-sent, sent-Encodes}

module _ (eth : Ethereum) where
  -- Transactions by their bytes, and the transactions that the bytes stand for.
  pub data SameTxs : List (L2TxRaw eth.Tx) → List (L2TxRaw eth.Tx) → Type 0 where
    none_left : SameTxs [] []
    same_tx :
        {body : L2TxBody eth.Tx} {bs : Bytes} {tx : eth.Tx} {p : ℕ} {xs ys : List (L2TxRaw eth.Tx)}
        → tx_bytes eth body ≡ ok bs
        → Encodes eth bs tx
        → SameTxs xs ys
        → SameTxs
            (record { efficiency_percentage = p; body = body } ∷ xs)
            (record { efficiency_percentage = p; body = transaction tx } ∷ ys)

  -- Blocks with the same headers.
  pub data SameBlocks : List (L2BlockRaw eth.Tx) → List (L2BlockRaw eth.Tx) → Type 0 where
    no_blocks : SameBlocks [] []
    same_block :
        {c : ChangeL2BlockHeader} {xs ys : List (L2TxRaw eth.Tx)} {bs cs : List (L2BlockRaw eth.Tx)}
        → IsHeader c
        → SameTxs xs ys
        → SameBlocks bs cs
        → SameBlocks
            (record { header = c; transactions = xs } ∷ bs)
            (record { header = c; transactions = ys } ∷ cs)

  -- The bytes of a transaction, none where it cannot be encoded.
  abbrev pub or_no_bytes : Result BatchError Bytes → Bytes
  or_no_bytes (ok bs) = bs
  or_no_bytes (err e) = []
  or_no_bytes panic = []

  abbrev pub tx_data : L2TxBody eth.Tx → Bytes
  tx_data body = or_no_bytes (tx_bytes eth body)

  unfoldable pub txs_bytes : List (L2TxRaw eth.Tx) → Bytes → Bytes
  txs_bytes [] post = post
  txs_bytes (x ∷ xs) post = tx_data x.body ++ x.efficiency_percentage ∷ txs_bytes xs post

  unfoldable pub blocks_bytes : List (L2BlockRaw eth.Tx) → Bytes
  unfolding txs_bytes
  blocks_bytes [] = []
  blocks_bytes (b ∷ bs) =
      change_l2_block
      ∷ (encode_uint32 b.header.delta_timestamp
          ++ (encode_uint32 b.header.index_l1_info_tree
              ++ txs_bytes b.transactions (blocks_bytes bs)))

  add_transactions-bytes :
      {xs ys : List (L2TxRaw eth.Tx)} (acc : Bytes)
      → SameTxs xs ys
      → add_transactions eth xs acc ≡ ok (acc ++ txs_bytes xs [])
  unfolding add_transactions encode_tx txs_bytes
  add_transactions-bytes acc none_left = ap ok (sym (append_nil acc))
  add_transactions-bytes acc
        (same_tx {body = body} {bs = bs} {tx = tx} {p = p} {xs = xs} made e rest) =
      ok_bind _ (ap (λ r. r >>= λ y. ok ((acc ++ y) ++ p ∷ [])) made) (
        add_transactions-bytes ((acc ++ bs) ++ p ∷ []) rest
        ∙ ap ok (
            append_assoc (acc ++ bs) (p ∷ []) (txs_bytes xs [])
            ∙ append_assoc acc bs (p ∷ txs_bytes xs [])
            ∙ ap (λ r. acc ++ (or_no_bytes r ++ p ∷ txs_bytes xs [])) (sym made)))

  txs_bytes-append :
      (xs : List (L2TxRaw eth.Tx)) (post : Bytes) → txs_bytes xs [] ++ post ≡ txs_bytes xs post
  unfolding txs_bytes
  txs_bytes-append [] post = refl
  txs_bytes-append (x ∷ xs) post =
      append_assoc (tx_data x.body) (x.efficiency_percentage ∷ txs_bytes xs []) post
      ∙ ap (λ y. tx_data x.body ++ x.efficiency_percentage ∷ y) (txs_bytes-append xs post)

  encode_blocks-bytes :
      {bs cs : List (L2BlockRaw eth.Tx)} (acc : Bytes)
      → SameBlocks bs cs
      → encode_blocks eth bs acc ≡ ok (acc ++ blocks_bytes bs)
  unfolding encode_blocks blocks_bytes
  encode_blocks-bytes acc no_blocks = ap ok (sym (append_nil acc))
  encode_blocks-bytes acc (same_block {c = c} {xs = xs} {bs = bs} h t rest) =
      ok_bind _ (add_transactions-bytes (encode_header c acc) t) (
        encode_blocks-bytes (encode_header c acc ++ txs_bytes xs []) rest
        ∙ ap ok (
            append_assoc (encode_header c acc) (txs_bytes xs []) (blocks_bytes bs)
            ∙ ap (λ x. encode_header c acc ++ x) (txs_bytes-append xs (blocks_bytes bs))
            ∙ encode_header_lem c acc (txs_bytes xs (blocks_bytes bs))))

  decode_from-bytes :
      (fuel : ℕ) (data_ : Bytes) (pos : ℕ) {xs ys : List (L2TxRaw eth.Tx)}
      {bs cs : List (L2BlockRaw eth.Tx)} (blocks : List (L2BlockRaw eth.Tx))
      (c : ChangeL2BlockHeader) (done : List (L2TxRaw eth.Tx))
      → length data_ < 2 ^ 63
      → SameTxs xs ys
      → SameBlocks bs cs
      → length (txs_bytes xs (blocks_bytes bs)) < fuel
      → drop pos data_ ≡ txs_bytes xs (blocks_bytes bs)
      → decode_from eth fuel data_ pos blocks (some (record { header = c; transactions = done }))
        ≡ ok (blocks ++ record { header = c; transactions = done ++ ys } ∷ cs)
  unfolding decode_from txs_bytes blocks_bytes encode_uint32
  decode_from-bytes zero data_ pos blocks c done small t b lt e = absurd (omega arith)
  decode_from-bytes (suc fuel) data_ pos blocks c done small none_left no_blocks lt e =
      simp (get_elem?-none pos data_ e, append_nil)
  decode_from-bytes (suc fuel) data_ pos blocks c done small none_left
        (same_block {c = c'} {xs = xs} {ys = ys} {bs = bs} {cs = cs} h t rest) lt e =
      let (g, e0) = get_elem?_of_drop pos data_ e in
      let (r, e1) =
        decode_block_header_at {Tx = eth.Tx} data_ (pos + 1) c' (txs_bytes xs (blocks_bytes bs)) h
          (ap (λ n. drop n data_) (sym (suc_one pos)) ∙ e0) in
      let ih =
        decode_from-bytes fuel data_ (pos + 1 + 4 + 4)
          (blocks ++ record { header = c; transactions = done } ∷ []) c' [] small t rest
          (omega arith) e1 in
      simp (g, r, ih, append_assoc, append_nil)
  decode_from-bytes (suc fuel) data_ pos {bs = bs} blocks c done small
        (same_tx {body = body} {bs = t} {tx = tx} {p = p} {xs = xs} {ys = ys} made h rest) b lt e =
      let post = txs_bytes xs (blocks_bytes bs) in
      let e' = e ∙ ap (λ r. or_no_bytes r ++ p ∷ post) made in
      let (g, _) = get_elem?_of_drop pos data_ (e' ∙ ap (λ y. y ++ p ∷ post) h.made) in
      let ih =
        decode_from-bytes fuel data_ (pos + suc (length h.rest) + 66) blocks c
          (done ++ record { efficiency_percentage = p; body = transaction tx } ∷ []) small rest b
          (omega (arith, length-append (tx_data body) (p ∷ post)))
          (past_tx eth data_ pos p t post tx h e') in
      simp (
        g,
        starts_no_block eth h.first (suc (length h.rest)) h.rest h.states,
        decode_tx_rlp_at eth data_ pos p t post tx h small e',
        ih,
        append_assoc,
      )

  decode_batch_v2-bytes :
      {b c : L2BlockRaw eth.Tx} {bs cs : List (L2BlockRaw eth.Tx)}
      → SameBlocks (b ∷ bs) (c ∷ cs)
      → length (blocks_bytes (b ∷ bs)) < 2 ^ 63
      → decode_batch_v2 eth (blocks_bytes (b ∷ bs)) ≡ ok (c ∷ cs)
  unfolding decode_batch_v2 decode_from blocks_bytes encode_uint32
  decode_batch_v2-bytes (same_block {c = c} {xs = xs} {ys = ys} {bs = bs} {cs = cs} h t rest)
        small =
      let data_ = blocks_bytes (record { header = c; transactions = xs } ∷ bs) in
      let (r, e1) =
        decode_block_header_at {Tx = eth.Tx} data_ 1 c (txs_bytes xs (blocks_bytes bs)) h refl in
      ok_bind _ r (decode_from-bytes (length data_) data_ 9 [] c [] small t rest (omega arith) e1)

  decode_batch_v2-same :
      {b c : L2BlockRaw eth.Tx} {bs cs : List (L2BlockRaw eth.Tx)}
      → SameBlocks (b ∷ bs) (c ∷ cs)
      → length (blocks_bytes (b ∷ bs)) < 2 ^ 63
      → encode_batch_v2 eth (some (b ∷ bs)) >>= decode_batch_v2 eth ≡ ok (c ∷ cs)
  unfolding encode_batch_v2
  decode_batch_v2-same h small =
      ok_bind _ (encode_blocks-bytes [] h) (decode_batch_v2-bytes h small)

  -- Every transaction is one that the aggregator writes, not encoded yet.
  pub data AreSent : List (L2TxRaw eth.Tx) → Type 0 where
    no_txs : AreSent []
    one_sent :
        {tx : eth.Tx} {p : ℕ} {xs : List (L2TxRaw eth.Tx)}
        → IsSent eth tx
        → AreSent xs
        → AreSent (record { efficiency_percentage = p; body = transaction tx } ∷ xs)

  pub data AreBlocks : List (L2BlockRaw eth.Tx) → Type 0 where
    no_more : AreBlocks []
    one_block :
        {c : ChangeL2BlockHeader} {xs : List (L2TxRaw eth.Tx)} {bs : List (L2BlockRaw eth.Tx)}
        → IsHeader c
        → AreSent xs
        → AreBlocks bs
        → AreBlocks (record { header = c; transactions = xs } ∷ bs)

  AreSent-SameTxs : {xs : List (L2TxRaw eth.Tx)} → AreSent xs → SameTxs xs xs
  AreSent-SameTxs no_txs = none_left
  AreSent-SameTxs (one_sent {tx = tx} h rest) =
      same_tx (tx_bytes-sent eth tx h) (sent-Encodes eth tx h) (AreSent-SameTxs rest)

  AreBlocks-SameBlocks : {bs : List (L2BlockRaw eth.Tx)} → AreBlocks bs → SameBlocks bs bs
  AreBlocks-SameBlocks no_more = no_blocks
  AreBlocks-SameBlocks (one_block h t rest) =
      same_block h (AreSent-SameTxs t) (AreBlocks-SameBlocks rest)

  -- A batch of blocks is encoded, and `DecodeBatchV2` decodes the bytes to the same blocks. The
  -- transactions are signed legacy transactions, not encoded yet, that `prepareRLPTxData` writes: nonce
  -- and gas are below 2^64, the two numbers of the signature below 2^256, an address has 20 bytes, and
  -- V is 27 or 28 for a transaction that the code takes for one from before EIP-155 and twice the chain
  -- id and 35 or 36 for another. RLP writes the fields of each as a list that states its length, and
  -- reads from it the bytes of the fields; go-ethereum makes the transaction again from its fields.
  -- The fields of a header are of type uint32, and the batch is shorter than 2^63 bytes, as a slice
  -- is.
  pub decode_batch_v2-encode_batch_v2 :
      (b : L2BlockRaw eth.Tx) (bs : List (L2BlockRaw eth.Tx))
      → AreBlocks (b ∷ bs)
      → length (blocks_bytes (b ∷ bs)) < 2 ^ 63
      → encode_batch_v2 eth (some (b ∷ bs)) >>= decode_batch_v2 eth ≡ ok (b ∷ bs)
  decode_batch_v2-encode_batch_v2 b bs h small = decode_batch_v2-same (AreBlocks-SameBlocks h) small
