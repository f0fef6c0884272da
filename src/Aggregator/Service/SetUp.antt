-- ===== src/Aggregator/Service/SetUp.antt =====
-- What the tables hold once `Start` has set them up.
use zkevm_aggregator.Prelude.{
  ℕ, ◌+◌, sym, ◌<◌, ◌≡◌, refl, ◌∙◌, ap, subst, Bool, true, false, Option, none, some, List, [], ◌∷◌,
  Memᴰ, ◌==◌, arith, keep_if, find?, Bool-cases, inl, inr,
}
use zkevm_aggregator.Prelude.Members.{keep_if_parts}
use zkevm_aggregator.Prelude.Result.{Result, ok, err, panic}
use zkevm_aggregator.State.{Bytes, Proof, DbBatch}
use zkevm_aggregator.State.Storage.{
  Db, is_none, get_batch, add_batch, delete_ungenerated_proofs,
  delete_batches_older_than_batch_number,
}
use zkevm_aggregator.State.Storage.Batches.{
  get_batch-add_batch, get_batch-add_batch_other, proofs-add_batch,
}
use zkevm_aggregator.Aggregator.{Err, eth_failure, Env, World, or_throw, ◌>>=◌}
use zkevm_aggregator.Aggregator.Post.{Post, Meets, Post-bind, Post-or_throw, Post-exec}
use zkevm_aggregator.Aggregator.Calls.{ask, exec, pool, get_latest_verified_batch_num}
use zkevm_aggregator.Aggregator.Service.{dummy_db_batch, set_up}

unsome : {A : Type 0} (a b : A) → some a ≡ some b → b ≡ a
unsome a b e = ground arith

module _ (env : Env) (get_batch_acc_input_hash : ℕ → ℕ → Option Bytes) (db0 : Db) where
  -- The tables after each statement.
  abbrev cleaned : ℕ → Db → Db
  cleaned last db = delete_ungenerated_proofs (delete_batches_older_than_batch_number last db)

  -- L1's answers: the last verified batch at the first call, its hash at the fourth.
  pub record Given (w : World) (last : ℕ) (hash : Bytes) : Type 0 where
    pub verified : env.latest_verified_batch w.calls ≡ some last
    pub hashed : get_batch_acc_input_hash (w.calls + 3) last ≡ some hash

  -- The tables and the number of calls made.
  record At (d : Db) (calls : ℕ) (w : World) : Type 0 where
    tables : w.db ≡ d
    counted : w.calls ≡ calls

  exec-Post :
      (f : Db → Db) (d : Db) (k : ℕ) (w : World)
      → At d k w
      → Post (λ _. At (f d) (k + 1)) (λ _ _. Unit) (exec env pool (λ db. some (f db))) w
  exec-Post f d k w a =
      Post-exec (λ _ _. Unit) (At (f d) (k + 1)) env (λ db. some (f db)) w tt
        (λ db g. record {
          tables = unsome (f w.db) db g ∙ ap f a.tables;
          counted = ap (λ n. n + 1) a.counted;
        })

  -- A call of L1, whose answer is there, and the value that it gives.
  asked-Post :
      {A : Type 0} (f : ℕ → Option A) (d : Db) (k : ℕ) (w : World)
      → At d k w
      → Post
          (λ a w'. At d (k + 1) w' × (f k ≡ some a))
          (λ _ _. Unit)
          (ask env f >>= or_throw eth_failure)
          w
  asked-Post f d k w a =
      Post-bind _ (λ o w'. At d (k + 1) w' × (o ≡ f k)) _ (ask env f) _ w
        (record {
          meets =
              (record { tables = a.tables; counted = ap (λ n. n + 1) a.counted }, ap f a.counted);
        })
        (λ o w1 (a1, e). Post-or_throw _ _ eth_failure o w1 (λ _. tt) (λ x g. (a1, sym e ∙ g)))

  at_third :
      (last : ℕ) (hash : Bytes) (w : World)
      → get_batch_acc_input_hash (w.calls + 1 + 1 + 1) last ≡ some hash
      → get_batch_acc_input_hash (w.calls + 3) last ≡ some hash
  at_third last hash w g = subst (λ k. get_batch_acc_input_hash k last ≡ some hash) (omega arith) g

  set_up-Post :
      (w : World)
      → w.db ≡ db0
      → Post
          (λ _ w'.
            (last : ℕ) × (hash : Bytes) × Given w last hash
            × (w'.db ≡ add_batch (dummy_db_batch env last hash) (cleaned last db0)))
          (λ _ _. Unit)
          (set_up env get_batch_acc_input_hash)
          w
  unfolding set_up
  set_up-Post w e =
      Post-bind _
        (λ last w1. At db0 (w.calls + 1) w1 × (env.latest_verified_batch w.calls ≡ some last)) _
        (get_latest_verified_batch_num env) _ w
        (asked-Post env.latest_verified_batch db0 w.calls w (record { tables = e; counted = refl }))
        (λ last w1 (a1, v).
          Post-bind _ _ _ _ _ w1
            (exec-Post (delete_batches_older_than_batch_number last) db0 (w.calls + 1) w1 a1)
            (λ _ w2 a2.
              Post-bind _ _ _ _ _ w2 (exec-Post delete_ungenerated_proofs _ _ w2 a2) (λ _ w3 a3.
                Post-bind _
                  (λ hash w4.
                    At (cleaned last db0) (w.calls + 1 + 1 + 1 + 1) w4
                    × (get_batch_acc_input_hash (w.calls + 1 + 1 + 1) last ≡ some hash))
                  _ (ask env (λ k. get_batch_acc_input_hash k last) >>= or_throw eth_failure) _ w3
                  (asked-Post (λ k. get_batch_acc_input_hash k last) _ _ w3 a3)
                  (λ hash w4 (a4, g).
                    Post-bind _ _ _ _ _ w4
                      (exec-Post (add_batch (dummy_db_batch env last hash)) _ _ w4 a4)
                      (λ _ w5 a5. record {
                        meets = (
                          last,
                          hash,
                          record { verified = v; hashed = at_third last hash w g },
                          a5.tables,
                        );
                      })))))

keep_if-find_none :
    (f : DbBatch → Bool) (n : ℕ) (bs : List DbBatch)
    → ((b : DbBatch) → (b.batch.batch_number == n) ≡ true → f b ≡ false)
    → find? (λ b. b.batch.batch_number == n) (keep_if f bs) ≡ none
keep_if-find_none f n [] h = refl
keep_if-find_none f n (b ∷ bs) h = elim (Bool-cases (b.batch.batch_number == n)) [
  | inl e ↦ ground (arith, h b e, keep_if-find_none f n bs h)
  | inr e ↦ ground (arith, keep_if-find_none f n bs h)
]

old_batch :
    (last n : ℕ) (db : Db)
    → n < last
    → get_batch n (delete_ungenerated_proofs (delete_batches_older_than_batch_number last db))
      ≡ none
unfolding get_batch delete_ungenerated_proofs delete_batches_older_than_batch_number
old_batch last n db h = keep_if-find_none _ n db.batches (λ b e. ground arith)

idle_of_mem :
    (ps : List Proof) (p : Proof)
    → Memᴰ p (keep_if (λ p. is_none p.generating_since) ps)
    → p.generating_since ≡ none
idle_of_mem ps p m =
    let (_, idle) = keep_if_parts (λ p. is_none p.generating_since) ps m in ground (arith, idle)

idle_left :
    (db : Db) (p : Proof) → Memᴰ p (delete_ungenerated_proofs db).proofs → p.generating_since ≡ none
unfolding delete_ungenerated_proofs
idle_left db p m = idle_of_mem db.proofs p m

-- What `Start` leaves: the row of the batch that L1 gave as the last verified one, with the hash that
-- L1 gave for it, no row of a batch before it, and no proof that is being generated.
pub record Ready (env : Env) (get_batch_acc_input_hash : ℕ → ℕ → Option Bytes) (w w' : World)
    : Type 0 where
  pub last : ℕ
  pub hash : Bytes
  pub given : Given env get_batch_acc_input_hash w.db w last hash
  pub row : DbBatch
  pub stored : get_batch last w'.db ≡ some row
  pub numbered : row.batch.batch_number ≡ last
  pub hashed : row.batch.acc_input_hash ≡ hash
  pub none_before : (n : ℕ) → n < last → get_batch n w'.db ≡ none
  pub idle : (p : Proof) → Memᴰ p w'.db.proofs → p.generating_since ≡ none

tables-Ready :
    (env : Env) (hashes : ℕ → ℕ → Option Bytes) (w : World) (last : ℕ) (hash : Bytes) (w' : World)
    → Given env hashes w.db w last hash
    → w'.db
      ≡ add_batch
          (dummy_db_batch env last hash)
          (delete_ungenerated_proofs (delete_batches_older_than_batch_number last w.db))
    → Ready env hashes w w'
tables-Ready env hashes w last hash w' g e =
    let d : Db = cleaned env hashes w.db last w.db in
    record {
      last = last;
      hash = hash;
      given = g;
      row = dummy_db_batch env last hash;
      stored = ap (get_batch last) e ∙ get_batch-add_batch (dummy_db_batch env last hash) d;
      numbered = refl;
      hashed = refl;
      none_before = λ n h.
          ap (get_batch n) e
          ∙ (get_batch-add_batch_other n (dummy_db_batch env last hash) _
                (λ same. absurd (omega (arith, same)))
              ∙ old_batch last n w.db h);
      idle = λ p m. idle_left (delete_batches_older_than_batch_number last w.db) p (
          subst (λ ps. Memᴰ p ps)
            (ap (λ d. d.proofs) e ∙ proofs-add_batch (dummy_db_batch env last hash) d) m);
    }

tables-Meets :
    (env : Env) (hashes : ℕ → ℕ → Option Bytes) (w : World) (r : Result Err (Unit {0})) (w' : World)
    → Meets
        (λ _ w'.
          (last : ℕ) × (hash : Bytes) × Given env hashes w.db w last hash
          × (w'.db
              ≡ add_batch
                  (dummy_db_batch env last hash)
                  (delete_ungenerated_proofs (delete_batches_older_than_batch_number last w.db))))
        (λ _ _. Unit)
        r
        w'
    → Meets (λ _. Ready env hashes w) (λ _ _. Unit) r w'
tables-Meets env hashes w (ok _) w' (last, hash, g, e) = tables-Ready env hashes w last hash w' g e
tables-Meets env hashes w (err x) w' h = tt
tables-Meets env hashes w panic w' h = h

-- If the set-up of `Start` returns no error, the batch that L1 gave as the last verified one has a row
-- with the hash that L1 gave for it, no earlier batch has a row, and no proof is being generated,
-- whatever the tables held before. It does not panic.
pub set_up-Ready :
    (env : Env) (get_batch_acc_input_hash : ℕ → ℕ → Option Bytes) (w : World)
    → Post
        (λ _. Ready env get_batch_acc_input_hash w)
        (λ _ _. Unit)
        (set_up env get_batch_acc_input_hash)
        w
set_up-Ready env hashes w = record {
  meets = tables-Meets env hashes w _ _ (set_up-Post env hashes w.db w refl).meets;
}
