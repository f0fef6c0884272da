-- ===== src/Aggregator/BatchProof/Locked.antt =====
-- `getAndLockBatchToProve`: what it locks, and what it leaves as it was.
use zkevm_aggregator.Prelude.{
  ℕ, ◌+◌, ◌<◌, ◌^◌, ◌≡◌, refl, sym, ◌∙◌, ap, subst, Bool, true, false, Option, none, some, List, [],
  ◌∷◌, ◌++◌, arith, ◌==◌, leb, Bool-cases, inl, inr, any, find?, ◌||◌, ◌&&◌,
}
use zkevm_aggregator.Prelude.Result.{Result, ok, err, panic}
use zkevm_aggregator.State.{Bytes, Batch, Sequence, Proof, DbBatch}
use zkevm_aggregator.State.Storage.{
  Db, covers, check_proof_exists_for_batch, add_generated_proof, add_sequence, get_batch,
}
use zkevm_aggregator.State.Storage.Coverage.{covered-add}
use zkevm_aggregator.Aggregator.{Err, Env, World, not_found, or_throw, eth_failure, pure}
use zkevm_aggregator.Profitability.{is_profitable}
use zkevm_aggregator.Synchronizer.{L1Answer, answered, absent, broken, SequencedBatches}
use zkevm_aggregator.Aggregator.Post.{Meets, Post, Post-bind, Post-or_throw, Post-query, Post-exec}
use zkevm_aggregator.Aggregator.Calls.{
  ask, query, add_proof, pool, get_db_batch, get_latest_verified_batch_num,
}
use zkevm_aggregator.Aggregator.BatchProof.{
  greatest, new_batch_proof, sequence_of, check_witness, ready_batch, lock_batch, find_unproved,
  get_and_lock_batch_to_prove,
}
use zkevm_aggregator.Aggregator.BatchProof.Search.{
  FirstUnproved, Unproved, find_unproved-FirstUnproved, find_unproved-Unproved, find_unproved-Quiet,
}

find_batch :
    (n : ℕ) (bs : List DbBatch) (b : DbBatch)
    → find? (λ b. b.batch.batch_number == n) bs ≡ some b
    → b.batch.batch_number ≡ n
find_batch n [] b e = cc
find_batch n (c ∷ cs) b e = elim (Bool-cases (c.batch.batch_number == n)) [
  | inl h ↦ ground arith
  | inr h ↦ find_batch n cs b (ground arith)
]

get_batch_number :
    (n : ℕ) (db : Db) (b : DbBatch) → get_batch n db ≡ some b → b.batch.batch_number ≡ n
unfolding get_batch
get_batch_number n db b e = find_batch n db.batches b e

add_sequence-proofs :
    (s : Sequence) (db db' : Db) → add_sequence s db ≡ some db' → db'.proofs ≡ db.proofs
unfolding add_sequence
add_sequence-proofs s db db' e = ground arith

module _ (env : Env) (n : ℕ) (ps : List Proof) where
  -- The rows of the proofs are these.
  abbrev Rows : World → Type 0
  Rows w = w.db.proofs ≡ ps

  abbrev IsFound : DbBatch → World → Type 0
  IsFound b w = (b.batch.batch_number ≡ n) × Rows w

  sequence_of-Post :
      (a : L1Answer (Option SequencedBatches)) (w : World)
      → Rows w
      → Post (λ _. Rows) (λ _. Rows) (sequence_of env a) w
  sequence_of-Post (answered (some s)) w h = record { meets = h }
  sequence_of-Post (answered none) w h = record { meets = h }
  sequence_of-Post absent w h = record { meets = h }
  sequence_of-Post broken w h = record { meets = h }

  check_witness-Post :
      (b : Bytes) (w : World) → Rows w → Post (λ _. Rows) (λ _. Rows) (check_witness env b) w
  check_witness-Post [] w h = record { meets = h }
  check_witness-Post (x ∷ xs) w h = record { meets = h }

  get_db_batch-Post : (w : World) → Rows w → Post IsFound (λ _. Rows) (get_db_batch env n) w
  get_db_batch-Post w h =
      Post-bind (λ _. Rows) (λ o w. (o ≡ get_batch n w.db) × Rows w) IsFound
        (query env pool (get_batch n)) (or_throw not_found) w
        (Post-query (λ _. Rows) (λ o w. (o ≡ get_batch n w.db) × Rows w) env pool (get_batch n) w h
          (refl, h))
        (λ o w' (e, h').
          Post-or_throw (λ _. Rows) IsFound not_found o w' (λ _. h')
            (λ b g. (get_batch_number n w'.db b (sym e ∙ g), h')))

  ready_batch-Post : (w : World) → Rows w → Post IsFound (λ _. Rows) (ready_batch env n) w
  ready_batch-Post w h =
      Post-bind (λ _. Rows) (λ _. Rows) IsFound _ _ w
        (Post-bind (λ _. Rows) (λ _. Rows) (λ _. Rows)
          (ask env (λ k. env.l1.sequence_by_batch_number k n)) (sequence_of env) w
          (record { meets = h }) sequence_of-Post)
        (λ s w1 h1.
          Post-bind (λ _. Rows) IsFound IsFound _ _ w1 (get_db_batch-Post w1 h1)
            (λ b w2 (number, h2).
              Post-bind (λ _. Rows) (λ _. Rows) IsFound _ _ w2 (check_witness-Post b.witness w2 h2)
                (λ _ w3 h3.
                  Post-bind (λ _. Rows) (λ _. Rows) IsFound _ _ w3
                    (Post-exec (λ _. Rows) Rows env (add_sequence s) w3 h3
                      (λ db g. add_sequence-proofs s w3.db db g ∙ h3))
                    (λ _ w4 h4. record { meets = (number, h4) }))))

-- No batch number that the search tries reaches 2^64.
abbrev pub Fits : ℕ → Db → Type 0
Fits last db = last + greatest db.proofs + 2 < 2 ^ 64

-- The batch had no proof and now has one, locked, by a row of its own; every other batch is as it was.
-- It is the first one after the last verified batch with no proof, where no number tried reaches 2^64.
pub record TakenBatch (env : Env) (n last : ℕ) (p : Proof) (w w' : World) : Type 0 where
  pub row : (now : ℕ) × (p ≡ new_batch_proof env n now)
  pub unproved : check_proof_exists_for_batch n w.db ≡ false
  pub proved :
      (k : ℕ) → check_proof_exists_for_batch k w'.db ≡ check_proof_exists_for_batch k w.db || k == n
  pub first : Fits last w.db → FirstUnproved w.db last (ok n)
  pub added :
      (now : ℕ) × (w'.db.proofs
        ≡ w.db.proofs ++ (record p { created_at = now; updated_at = now } ∷ []))

-- What a call leaves that fails nowhere.
abbrev pub Taken : Env → World → Option (Batch × Bytes × Proof) → World → Type 0
Taken env w none w' =
    (is_profitable env.cfg.profitability_checker 0 ≡ false) × (w'.db.proofs ≡ w.db.proofs)
Taken env w (some (b, witness, p)) w' =
    (last : ℕ) × (env.latest_verified_batch w.calls ≡ some last)
    × TakenBatch env b.batch_number last p w w'

pub check_of_rows :
    (k : ℕ) (db db' : Db)
    → db'.proofs ≡ db.proofs
    → check_proof_exists_for_batch k db' ≡ check_proof_exists_for_batch k db
unfolding check_proof_exists_for_batch
check_of_rows k db db' e = ap (any (covers k)) e

covers-one : (k n : ℕ) → leb n k && leb k n ≡ k == n
covers-one k n = ground arith

pub add_generated_proof-rows :
    (now : ℕ) (p : Proof) (db db' : Db)
    → add_generated_proof now p db ≡ some db'
    → db'.proofs ≡ db.proofs ++ (record p { created_at = now; updated_at = now } ∷ [])
unfolding add_generated_proof
add_generated_proof-rows now p db db' e = ground arith

module _ (env : Env) (w : World) where
  -- The row is the last one.
  abbrev Added : Proof → World → Type 0
  Added p w' =
      (now : ℕ) × (w'.db.proofs
        ≡ w.db.proofs ++ (record p { created_at = now; updated_at = now } ∷ []))

  add_proof-Post :
      (p : Proof) (w1 : World)
      → w1.db.proofs ≡ w.db.proofs
      → Post
          (λ _ w'.
            ((k : ℕ)
              → check_proof_exists_for_batch k w'.db
                ≡ check_proof_exists_for_batch k w.db || covers k p)
            × Added p w')
          (λ e w'. w'.db.proofs ≡ w.db.proofs)
          (add_proof env pool p)
          w1
  add_proof-Post p w1 rows =
      Post-bind _ (λ _ w2. w2.db.proofs ≡ w.db.proofs) _ (ask env env.clock) _ w1
        (record { meets = rows })
        (λ now w2 rows2. Post-exec _ _ env (add_generated_proof now p) w2 rows2 (λ db g. (
          λ k.
              covered-add k now p w2.db db g
              ∙ ap (λ c. c || covers k p) (check_of_rows k w.db w2.db rows2),
          (
            now,
            add_generated_proof-rows now p w2.db db g
                ∙ ap (λ rows. rows ++ (record p { created_at = now; updated_at = now } ∷ [])) rows2,
          ),
        )))

  -- What the search answers.
  abbrev Found : ℕ → ℕ → Type 0
  Found last n =
      (check_proof_exists_for_batch n w.db ≡ false)
      × (Fits last w.db → FirstUnproved w.db last (ok n))

  lock_batch-Taken :
      (last : ℕ) (b : DbBatch) (w1 : World) (profitable : Bool)
      → env.latest_verified_batch w.calls ≡ some last
      → is_profitable env.cfg.profitability_checker 0 ≡ profitable
      → Found last b.batch.batch_number
      → w1.db.proofs ≡ w.db.proofs
      → Post (Taken env w) (λ e w'. w'.db.proofs ≡ w.db.proofs) (lock_batch env b profitable) w1
  lock_batch-Taken last b w1 false le ep h rows = record { meets = (ep, rows) }
  lock_batch-Taken last b w1 true le ep (h1, h2) rows =
      Post-bind _ (λ _ w2. w2.db.proofs ≡ w.db.proofs) _ (ask env env.clock) _ w1
        (record { meets = rows })
        (λ now w2 rows2.
          Post-bind _ _ (Taken env w) _
            (λ _. pure (some (b.batch, b.witness, new_batch_proof env b.batch.batch_number now))) w2
            (add_proof-Post (new_batch_proof env b.batch.batch_number now) w2 rows2)
            (λ _ w3 (proved, added). record {
              meets = (
                last,
                le,
                record {
                  row = (now, refl);
                  unproved = h1;
                  proved = λ k.
                      proved k
                      ∙ ap (λ c. check_proof_exists_for_batch k w.db || c)
                          (covers-one k b.batch.batch_number);
                  first = h2;
                  added = added;
                },
              );
            }))

  search-Meets :
      (last : ℕ) (r : Result Err ℕ) (w' : World)
      → Unproved w.db r
      → (Fits last w.db → FirstUnproved w.db last r)
      → w'.db ≡ w.db
      → Meets (λ n w2. Found last n × (w2.db ≡ w.db)) (λ e w'. w'.db.proofs ≡ w.db.proofs) r w'
  search-Meets last (ok n) w' u h e = ((u, h), e)
  search-Meets last (err x) w' u h e = ap (λ d. d.proofs) e
  search-Meets last panic w' u h e = u

  find_unproved-Post :
      (last : ℕ) (w1 : World)
      → w1.db ≡ w.db
      → Post
          (λ n w2. Found last n × (w2.db ≡ w.db))
          (λ e w'. w'.db.proofs ≡ w.db.proofs)
          (find_unproved env last)
          w1
  find_unproved-Post last w1 e = record {
    meets =
        search-Meets last _ _
          (subst (λ d. Unproved d (find_unproved env last w1).0) e
            (find_unproved-Unproved env last w1))
          (λ small.
            subst (λ d. FirstUnproved d last (find_unproved env last w1).0) e
              (find_unproved-FirstUnproved env last w1 (subst (Fits last) (sym e) small)))
          (((find_unproved-Quiet env last).run w1).db ∙ e);
  }

  latest-Post :
      Post
        (λ v w1. (env.latest_verified_batch w.calls ≡ some v) × (w1.db ≡ w.db))
        (λ e w'. w'.db.proofs ≡ w.db.proofs)
        (get_latest_verified_batch_num env)
        w
  latest-Post =
      Post-bind _ (λ o w1. (env.latest_verified_batch w.calls ≡ o) × (w1.db ≡ w.db)) _
        (ask env env.latest_verified_batch) _ w (record { meets = (refl, refl) })
        (λ o w1 (e, same).
          Post-or_throw _ _ eth_failure o w1 (λ _. ap (λ d. d.proofs) same) (λ v g. (e ∙ g, same)))

  pub get_and_lock_batch_to_prove-Taken :
      Post (Taken env w) (λ e w'. w'.db.proofs ≡ w.db.proofs) (get_and_lock_batch_to_prove env) w
  unfolding get_and_lock_batch_to_prove
  get_and_lock_batch_to_prove-Taken =
      Post-bind _ (λ v w1. (env.latest_verified_batch w.calls ≡ some v) × (w1.db ≡ w.db)) _
        (get_latest_verified_batch_num env) _ w latest-Post
        (λ v w1 (le, e1).
          Post-bind _ (λ n w2. Found v n × (w2.db ≡ w.db)) _ (find_unproved env v) _ w1
            (find_unproved-Post v w1 e1)
            (λ n w2 (h, e2).
              Post-bind _ _ _ (ready_batch env n) _ w2
                (ready_batch-Post env n w.db.proofs w2 (ap (λ d. d.proofs) e2))
                (λ b w3 (number, rows).
                  lock_batch-Taken v b w3 _ le refl (subst (Found v) (sym number) h) rows)))
