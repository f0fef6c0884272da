-- ===== src/State/Storage/Batches.antt =====
-- The rows of batches, by number.
use zkevm_aggregator.Prelude.{ℕ, ◌≡◌, ◌≢◌, refl, some, List, [], ◌∷◌, ◌==◌, arith, find?}
use zkevm_aggregator.State.{DbBatch}
use zkevm_aggregator.State.Storage.{Db, upsert_batch, add_batch, get_batch}

find-upsert_same :
    (b : DbBatch) (bs : List DbBatch)
    → find? (λ c. c.batch.batch_number == b.batch.batch_number) (upsert_batch b bs) ≡ some b
find-upsert_same b [] = ground arith
find-upsert_same b (c ∷ cs) = ground (arith, find-upsert_same b cs)

find-upsert_other :
    (k : ℕ) (b : DbBatch) (bs : List DbBatch)
    → k ≢ b.batch.batch_number
    → find? (λ c. c.batch.batch_number == k) (upsert_batch b bs)
      ≡ find? (λ c. c.batch.batch_number == k) bs
find-upsert_other k b [] h = ground arith
find-upsert_other k b (c ∷ cs) h = ground (arith, find-upsert_other k b cs h)

-- The row that was written is read back.
pub get_batch-add_batch :
    (b : DbBatch) (db : Db) → get_batch b.batch.batch_number (add_batch b db) ≡ some b
unfolding get_batch add_batch
get_batch-add_batch b db = find-upsert_same b db.batches

pub get_batch-add_batch_other :
    (k : ℕ) (b : DbBatch) (db : Db)
    → k ≢ b.batch.batch_number
    → get_batch k (add_batch b db) ≡ get_batch k db
unfolding get_batch add_batch
get_batch-add_batch_other k b db h = find-upsert_other k b db.batches h

pub proofs-add_batch : (b : DbBatch) (db : Db) → (add_batch b db).proofs ≡ db.proofs
unfolding add_batch
proofs-add_batch b db = refl
