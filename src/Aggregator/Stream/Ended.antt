-- ===== src/Aggregator/Stream/Ended.antt =====
-- The end of a batch: what the handler stores, and the fields after it.
use zkevm_aggregator.Prelude.{
  ℕ, ◌≡◌, ◌≢◌, refl, sym, ◌∙◌, ap, subst, Bool, true, false, Option, none, some, List, [], ◌++◌,
  ◌==◌, if◌then◌else◌, arith,
}
use zkevm_aggregator.Prelude.Result.{ok}
use zkevm_aggregator.State.{Bytes, BatchType}
use zkevm_aggregator.State.Storage.{Db}
use zkevm_aggregator.State.BatchV2.{L2BlockRaw}
use zkevm_aggregator.Ethereum.{Ethereum}
use zkevm_aggregator.Aggregator.{failure, Env, World}
use zkevm_aggregator.Aggregator.Stream.{
  batch_end, FileEntry, BatchEnd, Datastream, Stream, Handler, modify, give, given, ◌>>=◌, ◌>>◌,
}
use zkevm_aggregator.Aggregator.Stream.Save.{set_batch, save_batch}
use zkevm_aggregator.Aggregator.Stream.Entry.{
  add_last_block, append_data, close_batch, on_batch_end, reset, handle_received_data_stream,
}
use zkevm_aggregator.Aggregator.Stream.Post.{Post, Post-bind}
use zkevm_aggregator.Aggregator.Stream.Stored.{Saved, SavedOf, Before, save_batch-Post}
use zkevm_aggregator.Aggregator.Stream.Assembled.{
  Assembles, Represents, none_open, last_open, add_last_block-Represents,
}
use zkevm_aggregator.Aggregator.Stream.Refinement.{
  encodings, handle_all, HandledAll, handle_all-Assembles, Within,
}

-- No block, no bytes: ready for a batch.
pub record IsReset {Tx : Type 0} (s : Stream Tx) : Type 0 where
  pub no_bytes : s.current_batch_stream_data ≡ []
  pub represents : Represents s []

module _ {Tx : Type 0} (Q : Unit {0} → Stream Tx → World → Type 0)
    (E : Stream Tx → World → Type 0) where
  Post-else :
      (c : Bool) (m k : Handler Tx (Unit {0})) (s : Stream Tx) (w : World)
      → c ≡ false
      → Post Q E k s w
      → Post Q E (if c then m else k) s w
  Post-else true m k s w e h = absurd (ground arith)
  Post-else false m k s w e h = h

  Post-else_then :
      (c : Bool) (m k : Handler Tx (Unit {0})) (s : Stream Tx) (w : World)
      → c ≡ false
      → Post Q E (m >> k) s w
      → Post Q E ((if c then give tt else m) >> k) s w
  Post-else_then true m k s w e h = absurd (ground arith)
  Post-else_then false m k s w e h = h

  Post-after :
      (m k : Handler Tx (Unit {0})) (s : Stream Tx) (w : World) (s' : Stream Tx) (w' : World)
      → m s w ≡ (ok tt, (s', w'))
      → Post Q E k s' w'
      → Post Q E (m >> k) s w
  Post-after m k s w s' w' e h = record { meets = rw e h.meets }

  Post-given :
      {A : Type 0} (o : Option A) (a : A) (f : A → Handler Tx (Unit {0})) (s : Stream Tx)
      (w : World)
      → o ≡ some a
      → Post Q E (f a) s w
      → Post Q E (given failure o >>= f) s w
  Post-given none a f s w e h = absurd (ground arith)
  Post-given (some b) a f s w e h =
      subst (λ x. Post Q E (given failure x >>= f) s w) (sym e) (record { meets = h.meets })

module _ (env : Env) (eth : Ethereum) (ds : Datastream) (rounds : ℕ) where
  -- What the end of a batch leaves when nothing fails.
  abbrev pub Finished :
      Db → ℕ → List (L2BlockRaw eth.Tx) → BatchType → Bytes → Stream eth.Tx → World → Type 0
  Finished db0 n blocks t bytes s w = Saved env eth rounds db0 n blocks t bytes w.db × IsReset s

  relabel-Saved :
      (db0 db : Db) (t : Stream eth.Tx) (n : ℕ) (blocks : List (L2BlockRaw eth.Tx)) (ty : BatchType)
      (bytes : Bytes)
      → t.current_stream_batch.batch_number ≡ n
      → t.current_stream_batch_raw ≡ blocks
      → t.current_stream_batch.batch_type ≡ ty
      → t.current_batch_stream_data ≡ bytes
      → SavedOf env eth rounds db0 t.current_stream_batch.batch_number t db
      → Saved env eth rounds db0 n blocks ty bytes db
  relabel-Saved db0 db t n blocks ty bytes e1 e2 e3 e4 x =
      subst (λ k. Saved env eth rounds db0 k blocks ty bytes db) e1
        (subst (λ b. Saved env eth rounds db0 t.current_stream_batch.batch_number b ty bytes db) e2
          (subst
            (λ y.
              Saved env eth rounds db0 t.current_stream_batch.batch_number
                t.current_stream_batch_raw y bytes db)
            e3
            (subst
              (λ d.
                Saved env eth rounds db0 t.current_stream_batch.batch_number
                  t.current_stream_batch_raw t.current_stream_batch.batch_type d db)
              e4 x)))

  saved-Finished :
      (t : Stream eth.Tx) (w : World) (n : ℕ) (blocks : List (L2BlockRaw eth.Tx)) (ty : BatchType)
      (bytes : Bytes)
      → t.current_stream_batch.batch_number ≡ n
      → t.current_stream_batch_raw ≡ blocks
      → t.current_stream_batch.batch_type ≡ ty
      → t.current_batch_stream_data ≡ bytes
      → Post
          (λ _. Finished w.db n blocks ty bytes)
          (Before env eth rounds w.db)
          (save_batch env eth rounds t.current_stream_batch.batch_number >> modify reset)
          t
          w
  saved-Finished t w n blocks ty bytes e1 e2 e3 e4 =
      Post-bind _ _ _ _ (λ _. modify reset) t w
        (save_batch-Post env eth rounds w.db t.current_stream_batch.batch_number t w refl refl)
        (λ _ s' w' x. record {
          meets = (
            relabel-Saved w.db w'.db t n blocks ty bytes e1 e2 e3 e4 x,
            record { no_bytes = refl; represents = none_open refl refl },
          );
        })

  is_not_zero : (n : ℕ) → n ≢ 0 → (n == 0) ≡ false
  is_not_zero n h = ground arith

  abbrev closed : BatchEnd → Bytes → Stream eth.Tx → Stream eth.Tx
  closed m bytes s = add_last_block (set_batch (close_batch m) (append_data bytes s))

  record Closed (m : BatchEnd) (bytes : Bytes) (s : Stream eth.Tx)
      (blocks : List (L2BlockRaw eth.Tx)) : Type 0 where
    number :
        (closed m bytes s).current_stream_batch.batch_number ≡ s.current_stream_batch.batch_number
    raw : (closed m bytes s).current_stream_batch_raw ≡ blocks
    batch_type :
        (closed m bytes s).current_stream_batch.batch_type ≡ s.current_stream_batch.batch_type
    stream_bytes :
        (closed m bytes s).current_batch_stream_data ≡ s.current_batch_stream_data ++ bytes

  closing :
      (m : BatchEnd) (bytes : Bytes) (s : Stream eth.Tx) (blocks : List (L2BlockRaw eth.Tx))
      → Represents s blocks
      → Represents (set_batch (close_batch m) (append_data bytes s)) blocks
  closing m bytes s blocks (none_open e h) = none_open e h
  closing m bytes s blocks (last_open h) = last_open h

  ending-Closed :
      (m : BatchEnd) (bytes : Bytes) (s : Stream eth.Tx) (blocks : List (L2BlockRaw eth.Tx))
      → Represents s blocks
      → Closed m bytes s blocks
  unfolding add_last_block
  ending-Closed m bytes s blocks r = record {
    number = ground arith;
    raw = add_last_block-Represents _ blocks (closing m bytes s blocks r);
    batch_type = ground arith;
    stream_bytes = ground arith;
  }

  -- What the entry that ends a batch does to the fields `s`, where the bytes before it are `bytes`.
  abbrev EndsAs :
      Bytes → List (L2BlockRaw eth.Tx) → ℕ → BatchType → Bytes → Stream eth.Tx → World → Type 0
  EndsAs bs blocks n t bytes s w =
      Post
        (λ _.
          Finished w.db n blocks t
            (bytes ++ ds.encode (record { entry_type = batch_end; data_bytes = bs })))
        (Before env eth rounds w.db)
        (handle_received_data_stream env eth ds rounds
          (record { entry_type = batch_end; data_bytes = bs }))
        s w

  -- The end of a batch, in fields that stand for its blocks.
  batch_end_lem :
      (bs : Bytes) (m : BatchEnd) (s : Stream eth.Tx) (w : World)
      (blocks : List (L2BlockRaw eth.Tx))
      → s.halted ≡ false
      → s.current_stream_batch.batch_number ≢ 0
      → ds.unmarshal_batch_end bs ≡ some m
      → Represents s blocks
      → EndsAs bs blocks s.current_stream_batch.batch_number s.current_stream_batch.batch_type
          s.current_batch_stream_data s w
  unfolding handle_received_data_stream on_batch_end
  batch_end_lem bs m s w blocks running some_batch h r =
      let c : Closed m bytes s blocks = ending-Closed m bytes s blocks r in
      record {
        meets =
            (Post-else Q E s.halted (give tt) _ s w running (record {
              meets =
                  (Post-given Q E (ds.unmarshal_batch_end bs) m (on_batch_end env eth ds rounds)
                    (append_data bytes s) w h
                    (record {
                      meets =
                          (Post-else_then Q E
                            ((closed m bytes s).current_stream_batch.batch_number == 0) _ _
                            (closed m bytes s) w
                            (is_not_zero _ (λ e. some_batch (sym c.number ∙ e)))
                            (saved-Finished (closed m bytes s) w s.current_stream_batch.batch_number
                              blocks s.current_stream_batch.batch_type
                              (s.current_batch_stream_data ++ bytes) c.number c.raw c.batch_type
                              c.stream_bytes)).meets;
                    })).meets;
            })).meets;
      }
    where
      bytes : Bytes
      bytes = ds.encode (record { entry_type = batch_end; data_bytes = bs })

      Q : Unit {0} → Stream eth.Tx → World → Type 0
      Q _ =
          Finished w.db s.current_stream_batch.batch_number blocks s.current_stream_batch.batch_type
            (s.current_batch_stream_data ++ bytes)

      E : Stream eth.Tx → World → Type 0
      E = Before env eth rounds w.db

  -- From fields with no block and no bytes, the messages of a batch and its end are handled so: if no
  -- call fails, the batch's row holds the bytes of all these entries, the encoding of the blocks that
  -- the messages describe (where the code takes the data from the stream), and the hash over the row of
  -- the batch before it and the row's own fields; a witness that was there is kept, no other row and no
  -- proof changes, and the fields are ready for the next batch. If a call fails, no table changes. The
  -- batch has a number other than 0, its end is readable, and the aggregator is not halted.
  pub handle_all-Finished :
      (es : List FileEntry) (bs : Bytes) (m : BatchEnd) (blocks : List (L2BlockRaw eth.Tx))
      (s : Stream eth.Tx) (w : World)
      → s.halted ≡ false
      → s.current_stream_batch.batch_number ≢ 0
      → IsReset s
      → Assembles eth ds [] es blocks
      → ds.unmarshal_batch_end bs ≡ some m
      → Post
          (λ _.
            Finished w.db s.current_stream_batch.batch_number blocks
              s.current_stream_batch.batch_type
              (encodings ds es ++ ds.encode (record { entry_type = batch_end; data_bytes = bs })))
          (Before env eth rounds w.db)
          (handle_all env eth ds rounds es
            >> handle_received_data_stream env eth ds rounds
                (record { entry_type = batch_end; data_bytes = bs }))
          s
          w
  handle_all-Finished es bs m blocks s w running some_batch clean sent h =
      let a : HandledAll env eth ds rounds es blocks s w =
        handle_all-Assembles env eth ds rounds [] blocks es s w running clean.represents sent in
      let x : Within env eth ds rounds (encodings ds es) s a.after = a.within in
      let bytes : a.after.current_batch_stream_data ≡ encodings ds es =
        x.stream_bytes ∙ ap (λ d. d ++ encodings ds es) clean.no_bytes in
      Post-after _ _ (handle_all env eth ds rounds es) _ s w a.after w a.run (
        subst
          (λ n. EndsAs bs blocks n s.current_stream_batch.batch_type (encodings ds es) a.after w)
          x.same_number
          (subst
            (λ t.
              EndsAs bs blocks a.after.current_stream_batch.batch_number t (encodings ds es) a.after
                w)
            x.same_type
            (subst
              (λ d.
                EndsAs bs blocks a.after.current_stream_batch.batch_number
                  a.after.current_stream_batch.batch_type d a.after w)
              bytes
              (batch_end_lem bs m a.after w blocks (x.running ∙ running)
                (λ e. some_batch (sym x.same_number ∙ e)) h a.represents))))
