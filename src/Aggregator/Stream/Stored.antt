-- ===== src/Aggregator/Stream/Stored.antt =====
-- A batch that was saved: what its row holds.
use zkevm_aggregator.Prelude.{
  ℕ, ◌+◌, ◌^◌, ◌≡◌, ◌≢◌, refl, sym, ◌∙◌, ap, subst, Bool, true, false, ◌||◌, ◌-◌, some, List, [],
  ◌==◌, if◌then◌else◌, arith, Bool-cases, inl, inr, replicate,
}
use zkevm_aggregator.Prelude.Result.{Result, ok, err, panic}
use zkevm_aggregator.State.{Bytes, BatchType, DbBatch, u64}
use zkevm_aggregator.State.Storage.{Db, add_batch, get_batch}
use zkevm_aggregator.State.Storage.Batches.{
  get_batch-add_batch, get_batch-add_batch_other, proofs-add_batch,
}
use zkevm_aggregator.State.BatchV2.{L2BlockRaw}
use zkevm_aggregator.State.BatchV2.Tx.{encode_batch_v2}
use zkevm_aggregator.Ethereum.{Ethereum}
use zkevm_aggregator.Synchronizer.{VirtualBatch}
use zkevm_aggregator.Aggregator.{Env, World, M}
use zkevm_aggregator.Aggregator.Calls.{get_db_batch, pool, exec}
use zkevm_aggregator.Aggregator.Quiet.{Quiet, quiet}
use zkevm_aggregator.Aggregator.BatchProof.Silent.{Quiet-lift}
use zkevm_aggregator.Aggregator.BatchProof.Input.{unix, lift}
use zkevm_aggregator.Aggregator.Stream.{Stream, Handler, give, call, modify, ◌>>=◌, ◌>>◌}
use zkevm_aggregator.Aggregator.Stream.AccInputHash.{calculate_acc_input_hash}
use zkevm_aggregator.Aggregator.Stream.Waits.{
  get_virtual_batch, get_sequence, l1_block_hash, stored_witness,
}
use zkevm_aggregator.Aggregator.Stream.Save.{
  is_from_l1, set_batch, set_sequence, with_hash, batch_data, forced_hash, store_batch, save_batch,
  finish_batch, hash_batch, request_witness,
}
use zkevm_aggregator.Aggregator.Stream.Post.{Post, Post-bind, Post-call, Post-weaken}
use zkevm_aggregator.Aggregator.Stream.Silent.{
  get_virtual_batch-Quiet, get_sequence-Quiet, stored_witness-Quiet, get_db_batch-Quiet,
  l1_block_hash-Quiet, get_db_batch_found, stored_witness_found,
}

the_same : (a b : ℕ) → (a == b) ≡ true → a ≡ b
the_same a b e = ground arith

module _ (env : Env) (eth : Ethereum) (rounds : ℕ) (db0 : Db) where
  -- The tables are those before.
  abbrev pub Before : Stream eth.Tx → World → Type 0
  Before s w = w.db ≡ db0

  lift_ok : {E A : Type 0} (r : Result E A) (a : A) (w : World) → (lift r w).0 ≡ ok a → r ≡ ok a
  lift_ok (ok b) a w e = ground arith
  lift_ok (err b) a w e = ground arith
  lift_ok panic a w e = ground arith

  abbrev IsEncoding : Stream eth.Tx → Bool → Bytes → Type 0
  IsEncoding s c bs = c ≡ false → encode_batch_v2 eth (some s.current_stream_batch_raw) ≡ ok bs

  encoded-Post :
      (Q : Bytes → Stream eth.Tx → World → Type 0) (s : Stream eth.Tx) (c : Bool) (w : World)
      → w.db ≡ db0
      → ((bs : Bytes) (w' : World) → w'.db ≡ db0 → IsEncoding s c bs → Q bs s w')
      → Post Q Before
          (if c
            then give []
            else call (lift (encode_batch_v2 eth (some s.current_stream_batch_raw))))
          s
          w
  encoded-Post Q s true w e k = record { meets = k [] w e (λ h. absurd (ground arith)) }
  encoded-Post Q s false w e k =
      Post-call Before Q _ s w (Quiet-lift _) (λ w' e'. e' ∙ e)
        (λ bs w' e' h. k bs w' (e' ∙ e) (λ _. lift_ok _ bs w h))

  -- The data is the encoding of the blocks, where the code takes it from the stream.
  abbrev pub IsData : List (L2BlockRaw eth.Tx) → BatchType → Bytes → Type 0
  IsData blocks t bs =
      (env.cfg.use_l1_batch_data || is_from_l1 t) ≡ false
      → encode_batch_v2 eth (some blocks) ≡ ok bs

  chosen :
      (s : Stream eth.Tx) (u c : Bool) (v bs : Bytes)
      → IsEncoding s c bs
      → (u || c) ≡ false
      → encode_batch_v2 eth (some s.current_stream_batch_raw) ≡ ok (if u || c then v else bs)
  chosen s true c v bs h e = absurd (ground arith)
  chosen s false true v bs h e = absurd (ground arith)
  chosen s false false v bs h e = h refl

  batch_data-Post :
      (Q : Bytes → Stream eth.Tx → World → Type 0) (v : VirtualBatch) (s : Stream eth.Tx)
      (w : World)
      → w.db ≡ db0
      → ((bs : Bytes) (w' : World)
          → w'.db ≡ db0
          → IsData s.current_stream_batch_raw s.current_stream_batch.batch_type bs
          → Q bs s w')
      → Post Q Before (batch_data env eth rounds v) s w
  unfolding batch_data
  batch_data-Post Q v s w e k = record {
    meets =
        (Post-bind Before _ Q _ then_choose s w
          (encoded-Post (λ bs s' w'. Post Q Before (then_choose bs) s' w') s
            (is_from_l1 s.current_stream_batch.batch_type) w e
            (λ bs w' e' h. record {
              meets = k _ w' e' (
                  chosen s env.cfg.use_l1_batch_data (is_from_l1 s.current_stream_batch.batch_type)
                    v.batch_l2_data bs h);
            }))
          (λ bs s' w' p. p)).meets;
  }
    where
      then_choose : Bytes → Handler eth.Tx Bytes
      then_choose encoded = give (
          if env.cfg.use_l1_batch_data || is_from_l1 s.current_stream_batch.batch_type
          then v.batch_l2_data
          else encoded)

  -- The next step of a do block, where its call touches no table.
  Post-step :
      {A B : Type 0} (P : B → Stream eth.Tx → World → Type 0) (m : M A) (f : A → Handler eth.Tx B)
      (s : Stream eth.Tx) (w : World)
      → w.db ≡ db0
      → Quiet m
      → ((a : A) (w' : World) → w'.db ≡ db0 → (m w).0 ≡ ok a → Post P Before (f a) s w')
      → Post P Before (call m >>= f) s w
  Post-step P m f s w e quiet k =
      Post-bind Before (λ a s' w'. Post P Before (f a) s' w') P (call m) f s w
        (Post-call Before (λ a s' w'. Post P Before (f a) s' w') m s w quiet (λ w' e'. e' ∙ e)
          (λ a w' e' h. k a w' (e' ∙ e) h))
        (λ a s' w' p. p)

  -- The batch whose hash is to be computed: as it was, or the first batch with its own exit root.
  abbrev root_if : Bool → Stream eth.Tx → Stream eth.Tx
  root_if c s =
      set_batch (λ b. record b { l1_info_root = if c then b.global_exit_root else b.l1_info_root })
        s

  abbrev with_root : ℕ → Stream eth.Tx → Stream eth.Tx
  with_root n s = root_if (n == 1) s

  forced_hash-Post :
      (Q : Bytes → Stream eth.Tx → World → Type 0) (n : ℕ) (v : VirtualBatch) (s : Stream eth.Tx)
      (w : World)
      → w.db ≡ db0
      → ((parent : Bytes) (w' : World)
          → w'.db ≡ db0
          → (n ≢ 1 → parent ≡ replicate 32 0)
          → Q parent (with_root n s) w')
      → Post Q Before (forced_hash env eth rounds n v) s w
  forced_hash-Post Q n v s w e k = elim (Bool-cases (n == 1)) [
    | inl c ↦ rw c (
        Post-step Q (l1_block_hash env v.block_number) _ s w e
          (l1_block_hash-Quiet env v.block_number)
          (λ parent w' e' h. record {
            meets =
                subst (λ b. Q parent (root_if b s) w') c
                  (k parent w' e' (λ other. absurd (other (the_same n 1 c))));
          }))
    | inr c ↦ rw c (record {
      meets =
          subst (λ b. Q (replicate 32 0) (root_if b s) w) c (k (replicate 32 0) w e (λ _. refl));
    })
  ]

  -- What was written: a row of the fields, which keeps the witness of the row before it. No other row
  -- of any table changes.
  record Written (n : ℕ) (s : Stream eth.Tx) (row : DbBatch) (db : Db) : Type 0 where
    stored : get_batch n db ≡ some row
    fields : row.batch ≡ s.current_stream_batch
    datastream : row.datastream ≡ s.current_batch_stream_data
    witness : (b : DbBatch) → get_batch n db0 ≡ some b → row.witness ≡ b.witness
    others : (k : ℕ) → k ≢ n → get_batch k db ≡ get_batch k db0
    proofs : db.proofs ≡ db0.proofs

  written :
      (row : DbBatch) (s : Stream eth.Tx) (w : World) (n : ℕ)
      → w.db ≡ db0
      → row.batch.batch_number ≡ n
      → row.batch ≡ s.current_stream_batch
      → row.datastream ≡ s.current_batch_stream_data
      → ((b : DbBatch) → get_batch n db0 ≡ some b → row.witness ≡ b.witness)
      → Written n s row (add_batch row w.db)
  written row s w n e number h1 h2 h3 = record {
    stored =
        subst (λ m. get_batch m (add_batch row w.db) ≡ some row) number
          (get_batch-add_batch row w.db);
    fields = h1;
    datastream = h2;
    witness = h3;
    others = λ k other.
        get_batch-add_batch_other k row w.db (λ same. other (same ∙ number)) ∙ ap (get_batch k) e;
    proofs = proofs-add_batch row w.db ∙ ap (λ d. d.proofs) e;
  }

  row-Post :
      (n : ℕ) (row : DbBatch) (s s' : Stream eth.Tx) (w : World)
      → w.db ≡ db0
      → row.batch.batch_number ≡ n
      → row.batch ≡ s.current_stream_batch
      → row.datastream ≡ s.current_batch_stream_data
      → ((b : DbBatch) → get_batch n db0 ≡ some b → row.witness ≡ b.witness)
      → Post
          (λ _ _ w'. (row : DbBatch) × Written n s row w'.db)
          Before
          (call (exec env pool (λ db. some (add_batch row db))) >> modify (request_witness row))
          s'
          w
  row-Post n row s s' w e number h1 h2 h3 = elim (Bool-cases (env.db_fails w.calls)) [
    | inl f ↦ record { meets = rw f e }
    | inr f ↦ record { meets = rw f (row, written row s w n e number h1 h2 h3) }
  ]

  store_batch-Post :
      (n : ℕ) (s : Stream eth.Tx) (w : World)
      → w.db ≡ db0
      → s.current_stream_batch.batch_number ≡ n
      → Post
          (λ _ s' w'. (row : DbBatch) × Written n s row w'.db)
          Before
          (store_batch env eth rounds n)
          s
          w
  store_batch-Post n s w e number =
      Post-step _ (stored_witness env n) _ s w e (stored_witness-Quiet env n) (λ witness w' e' h.
        record {
          meets =
              (row-Post n
                (record {
                  batch = s.current_stream_batch;
                  datastream = s.current_batch_stream_data;
                  witness = witness;
                })
                s s w' e' number refl refl
                (λ b f. stored_witness_found env n w b witness h (ap (get_batch n) e ∙ f))).meets;
        })

  -- The row of a batch that was saved, of these blocks, this type and these bytes of the stream.
  pub record Saved (n : ℕ) (blocks : List (L2BlockRaw eth.Tx)) (t : BatchType) (datastream : Bytes)
      (db : Db) : Type 0 where
    pub row : DbBatch
    pub stored : get_batch n db ≡ some row
    pub same_stream : row.datastream ≡ datastream
    pub l2_data : IsData blocks t row.batch.batch_l2_data
    pub old : DbBatch
    pub before : get_batch (u64 (n + (2 ^ 64 - 1))) db0 ≡ some old
    pub parent : Bytes
    pub no_parent : n ≢ 1 → parent ≡ replicate 32 0
    pub chained :
        row.batch.acc_input_hash
        ≡ calculate_acc_input_hash env.keccak old.batch.acc_input_hash row.batch.batch_l2_data
            row.batch.l1_info_root
            (u64 (unix row.batch.timestamp))
            row.batch.coinbase
            parent
    pub witness : (b : DbBatch) → get_batch n db0 ≡ some b → row.witness ≡ b.witness
    pub others : (k : ℕ) → k ≢ n → get_batch k db ≡ get_batch k db0
    pub proofs : db.proofs ≡ db0.proofs

  abbrev pub SavedOf : ℕ → Stream eth.Tx → Db → Type 0
  SavedOf n s =
      Saved n s.current_stream_batch_raw s.current_stream_batch.batch_type
        s.current_batch_stream_data

  saved :
      (n : ℕ) (s : Stream eth.Tx) (old : DbBatch) (parent : Bytes) (row : DbBatch) (db : Db)
      → IsData s.current_stream_batch_raw s.current_stream_batch.batch_type
          s.current_stream_batch.batch_l2_data
      → get_batch (u64 (n + (2 ^ 64 - 1))) db0 ≡ some old
      → (n ≢ 1 → parent ≡ replicate 32 0)
      → Written n
          (set_batch (with_hash env eth rounds old.batch.acc_input_hash parent) (with_root n s))
          row
          db
      → SavedOf n s db
  unfolding with_hash
  saved n s old parent row db is_data found none_else x = record {
    row = row;
    stored = x.stored;
    same_stream = x.datastream;
    l2_data = λ h. is_data h ∙ ap (λ b. ok b.batch_l2_data) (sym x.fields);
    old = old;
    before = found;
    parent = parent;
    no_parent = none_else;
    chained =
        subst
          (λ b.
            b.acc_input_hash
            ≡ calculate_acc_input_hash env.keccak old.batch.acc_input_hash b.batch_l2_data
                b.l1_info_root (u64 (unix b.timestamp)) b.coinbase parent)
          (sym x.fields) refl;
    witness = x.witness;
    others = x.others;
    proofs = x.proofs;
  }

  hash_batch-Post :
      (n : ℕ) (v : VirtualBatch) (s : Stream eth.Tx) (w : World)
      → w.db ≡ db0
      → s.current_stream_batch.batch_number ≡ n
      → IsData s.current_stream_batch_raw s.current_stream_batch.batch_type
          s.current_stream_batch.batch_l2_data
      → Post (λ _ _ w'. SavedOf n s w'.db) Before (hash_batch env eth rounds n v) s w
  unfolding hash_batch with_hash
  hash_batch-Post n v s w e number is_data =
      Post-step Q (get_db_batch env (u64 (n + (2 ^ 64 - 1)))) _ s w e (get_db_batch-Quiet env _)
        (λ old w2 e2 h.
          Post-bind Before (λ parent s3 w3. Post Q Before (last old parent) s3 w3) Q
            (forced_hash env eth rounds n v) (last old) s w2
            (forced_hash-Post (λ parent s3 w3. Post Q Before (last old parent) s3 w3) n v s w2 e2
              (λ parent w3 e3 none_else. record {
                meets =
                    (Post-weaken Before _ Q (store_batch env eth rounds n)
                      (set_batch (with_hash env eth rounds old.batch.acc_input_hash parent)
                        (with_root n s))
                      w3
                      (λ _ _ w4 (row, x).
                        saved n s old parent row w4.db is_data
                          (ap (get_batch _) (sym e) ∙ get_db_batch_found env _ w old h) none_else x)
                      (store_batch-Post n
                        (set_batch (with_hash env eth rounds old.batch.acc_input_hash parent)
                          (with_root n s))
                        w3 e3 number)).meets;
              }))
            (λ parent s3 w3 p. p))
    where
      Q : Unit {0} → Stream eth.Tx → World → Type 0
      Q _ _ w' = SavedOf n s w'.db

      last : DbBatch → Bytes → Handler eth.Tx (Unit {0})
      last old parent =
          modify (set_batch (with_hash env eth rounds old.batch.acc_input_hash parent))
          >> store_batch env eth rounds n

  finish_batch-Post :
      (n : ℕ) (v : VirtualBatch) (bs : Bytes) (s : Stream eth.Tx) (w : World)
      → w.db ≡ db0
      → s.current_stream_batch.batch_number ≡ n
      → IsData s.current_stream_batch_raw s.current_stream_batch.batch_type bs
      → Post (λ _ s' w'. SavedOf n s w'.db) Before (finish_batch env eth rounds n v bs) s w
  unfolding finish_batch
  finish_batch-Post n v bs s w e number is_data = record {
    meets =
        (Post-step (λ _ s' w'. SavedOf n s w'.db) (get_sequence env rounds n) _
          (set_batch (λ b. record b { batch_l2_data = bs }) s) w e (get_sequence-Quiet env rounds n)
          (λ q w1 e1 _. record {
            meets =
                (hash_batch-Post n v
                  (set_batch (set_sequence q) (set_batch (λ b. record b { batch_l2_data = bs }) s))
                  w1 e1 number is_data).meets;
          })).meets;
  }

  pub save_batch-Post :
      (n : ℕ) (s : Stream eth.Tx) (w : World)
      → w.db ≡ db0
      → s.current_stream_batch.batch_number ≡ n
      → Post (λ _ s' w'. SavedOf n s w'.db) Before (save_batch env eth rounds n) s w
  unfolding save_batch
  save_batch-Post n s w e number =
      Post-step _ (get_virtual_batch env rounds n) _ s w e (get_virtual_batch-Quiet env rounds n)
        (λ v w1 e1 _.
          Post-bind Before
            (λ bs s2 w2.
              Post (λ _ s' w'. SavedOf n s w'.db) Before (finish_batch env eth rounds n v bs) s2 w2)
            (λ _ s' w'. SavedOf n s w'.db) (batch_data env eth rounds v) _ s w1
            (batch_data-Post _ v s w1 e1 (λ bs w2 e2 h. finish_batch-Post n v bs s w2 e2 number h))
            (λ bs s2 w2 p. p))
