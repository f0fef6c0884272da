-- ===== src/Aggregator/Stream/Refinement.antt =====
-- The handler of the stream implements the messages' effect on the list of blocks.
use zkevm_aggregator.Prelude.{
  ℕ, ◌≡◌, ◌≢◌, refl, sym, ◌∙◌, ap, subst, false, List, [], ◌∷◌, ◌++◌, arith, append_nil,
  append_assoc,
}
use zkevm_aggregator.Prelude.Result.{ok}
use zkevm_aggregator.State.{Bytes}
use zkevm_aggregator.State.BatchV2.{L2BlockRaw}
use zkevm_aggregator.Ethereum.{Ethereum}
use zkevm_aggregator.Aggregator.{Env, World}
use zkevm_aggregator.Aggregator.Stream.{
  l2_block, transaction, FileEntry, L2Block, Transaction, Datastream, Stream, Handler, give, ◌>>◌,
}
use zkevm_aggregator.Aggregator.Stream.Entry.{
  with_transaction, add_last_block, open_block, append_data, add_tx, handle_received_data_stream,
}
use zkevm_aggregator.Aggregator.Stream.Assembled.{
  Sends, new_block, new_transaction, Assembles, no_more, then_send, Represents, none_open,
  last_open, to_last, to_last-snoc, block_of, add_last_block-Represents, decode_tx_lem,
}

-- The bytes that the entries add to the batch's copy of the stream.
abbrev pub encodings : Datastream → List FileEntry → Bytes
encodings ds [] = []
encodings ds (e ∷ es) = ds.encode e ++ encodings ds es

snoc_ne : {A : Type 0} (xs : List A) (a : A) → xs ++ (a ∷ []) ≢ []
snoc_ne [] a e = cc
snoc_ne (x ∷ xs) a e = cc

Represents-append_data :
    {Tx : Type 0} (bs : Bytes) (s : Stream Tx) (blocks : List (L2BlockRaw Tx))
    → Represents s blocks
    → Represents (append_data bs s) blocks
Represents-append_data bs s blocks (none_open e h) = none_open e h
Represents-append_data bs s blocks (last_open h) = last_open h

Represents-add_tx :
    {Tx : Type 0} (t : Transaction) (tx : Tx) (s : Stream Tx) (blocks : List (L2BlockRaw Tx))
    → Represents s blocks
    → blocks ≢ []
    → Represents (add_tx t tx s) (to_last (with_transaction t tx) blocks)
Represents-add_tx t tx s blocks (none_open e h) some_block = absurd (some_block refl)
Represents-add_tx t tx s blocks (last_open h) some_block =
    subst (Represents (add_tx t tx s))
      (sym
        (to_last-snoc (with_transaction t tx) s.current_stream_batch_raw s.current_stream_l2_block))
      (last_open h)

module _ (env : Env) (eth : Ethereum) (ds : Datastream) (rounds : ℕ) where
  -- The entries handled in order, as the stream's client calls the handler.
  abbrev pub handle_all : List FileEntry → Handler eth.Tx (Unit {0})
  handle_all [] = give tt
  handle_all (e ∷ es) = handle_received_data_stream env eth ds rounds e >> handle_all es

  -- What an entry within a batch leaves of the other fields.
  pub record Within (bs : Bytes) (s s' : Stream eth.Tx) : Type 0 where
    pub running : s'.halted ≡ s.halted
    pub stream_bytes : s'.current_batch_stream_data ≡ s.current_batch_stream_data ++ bs
    pub same_number : s'.current_stream_batch.batch_number ≡ s.current_stream_batch.batch_number
    pub same_type : s'.current_stream_batch.batch_type ≡ s.current_stream_batch.batch_type
    pub queue : s'.witness_retrieval_chan ≡ s.witness_retrieval_chan

  -- The fields after one entry, and what they stand for.
  record Handled (e : FileEntry) (blocks : List (L2BlockRaw eth.Tx)) (s : Stream eth.Tx) (w : World)
      : Type 0 where
    after : Stream eth.Tx
    run : handle_received_data_stream env eth ds rounds e s w ≡ (ok tt, (after, w))
    represents : Represents after blocks
    within : Within (ds.encode e) s after

  abbrev opened : Bytes → L2Block → Stream eth.Tx → Stream eth.Tx
  opened bs m s = open_block m (add_last_block (append_data bs s))

  opened-Within : (bs : Bytes) (m : L2Block) (s : Stream eth.Tx) → Within bs s (opened bs m s)
  unfolding add_last_block
  opened-Within bs m s = record {
    running = ground arith;
    stream_bytes = ground arith;
    same_number = ground arith;
    same_type = ground arith;
    queue = ground arith;
  }

  handled :
      (a b : List (L2BlockRaw eth.Tx)) (e : FileEntry) (s : Stream eth.Tx) (w : World)
      → s.halted ≡ false
      → Represents s a
      → Sends eth ds a e b
      → Handled e b s w
  unfolding handle_received_data_stream
  handled a b e s w running r (new_block blocks bs m h number) = record {
    after = opened (ds.encode (record { entry_type = l2_block; data_bytes = bs })) m s;
    run = rw (running, h) refl;
    represents =
        subst
          (λ l.
            Represents (opened (ds.encode (record { entry_type = l2_block; data_bytes = bs })) m s)
              (l ++ (block_of m ∷ [])))
          (add_last_block-Represents (append_data _ s) a (Represents-append_data _ s a r))
          (last_open number);
    within = opened-Within _ m s;
  }
  handled a b e s w running r (new_transaction blocks c bs t tx h small u) = record {
    after =
        add_tx t tx
          (append_data (ds.encode (record { entry_type = transaction; data_bytes = bs })) s);
    run = rw (running, h, decode_tx_lem eth t.encoded small, u) refl;
    represents = Represents-add_tx t tx _ _ (Represents-append_data _ s a r) (snoc_ne blocks c);
    within = record {
      running = refl;
      stream_bytes = refl;
      same_number = refl;
      same_type = refl;
      queue = refl;
    };
  }

  -- The fields after a run of entries.
  pub record HandledAll (es : List FileEntry) (blocks : List (L2BlockRaw eth.Tx))
      (s : Stream eth.Tx) (w : World) : Type 0 where
    pub after : Stream eth.Tx
    pub run : handle_all es s w ≡ (ok tt, (after, w))
    pub represents : Represents after blocks
    pub within : Within (encodings ds es) s after

  -- Handling a run of block and transaction messages does to the fields what the run does to the list
  -- of blocks, and adds the entries' bytes to the copy of the stream. It returns no error, calls
  -- nothing and leaves the batch's number and type alone. The messages are those of `Assembles`: each
  -- can be read, with the transaction inside it, the number of a block is not 0, and a transaction comes
  -- after a block. The fields stand for the blocks before the run, and the aggregator is not halted.
  pub handle_all-Assembles :
      (a b : List (L2BlockRaw eth.Tx)) (es : List FileEntry) (s : Stream eth.Tx) (w : World)
      → s.halted ≡ false
      → Represents s a
      → Assembles eth ds a es b
      → HandledAll es b s w
  handle_all-Assembles a b es s w running r (no_more blocks) = record {
    after = s;
    run = refl;
    represents = r;
    within = record {
      running = refl;
      stream_bytes = sym (append_nil s.current_batch_stream_data);
      same_number = refl;
      same_type = refl;
      queue = refl;
    };
  }
  handle_all-Assembles a b es s w running r (then_send {b = c} {e = e} {es = rest} h more) =
      let first : Handled e c s w = handled a c e s w running r h in
      let others : HandledAll rest b first.after w =
        handle_all-Assembles c b rest first.after w (first.within.running ∙ running)
          first.represents more in
      record {
        after = others.after;
        run = rw first.run others.run;
        represents = others.represents;
        within = record {
          running = others.within.running ∙ first.within.running;
          stream_bytes =
              others.within.stream_bytes
              ∙ (ap (λ d. d ++ encodings ds rest) first.within.stream_bytes
                  ∙ append_assoc s.current_batch_stream_data (ds.encode e) (encodings ds rest));
          same_number = others.within.same_number ∙ first.within.same_number;
          same_type = others.within.same_type ∙ first.within.same_type;
          queue = others.within.queue ∙ first.within.queue;
        };
      }
