-- ===== src/State/Storage.antt =====
-- state/pgstatestorage: the three tables and the statements run on them. A table is the list of its
-- rows in the order in which Postgres happens to return them, which no statement here fixes; every
-- lemma holds for every order. The tables' keys and references are those of
-- db/migrations/aggregator. Numbers are in the range of BIGINT, as the driver requires.
-- The two string columns that a query tests with IS NOT NULL are written from Go strings, never from
-- nil, so those tests always pass.
pub mod Coverage
pub mod Interval
pub mod Select
pub mod Batches
use zkevm_aggregator.Prelude.{
  ℕ, suc, ◌+◌, ◌≡◌, Bool, true, false, not, ◌&&◌, ◌||◌, Option, none, some, List, [], ◌∷◌, ◌++◌,
  map, ltb, leb, ◌==◌, if◌then◌else◌, any, keep_if, find?, first_min,
}
use zkevm_aggregator.Prelude.Members.{pairs}
use zkevm_aggregator.State.{Batch, Sequence, Proof, DbBatch, u64}

pub record Db : Type 0 where
  pub proofs : List Proof
  pub sequences : List Sequence
  pub batches : List DbBatch

abbrev pub is_none {ℓ} : {A : Type ℓ} → Option A → Bool
is_none none = true
is_none (some a) = false

-- `$1 >= p.batch_num AND $1 <= p.batch_num_final`
abbrev pub covers : ℕ → Proof → Bool
covers n p = leb p.batch_number n && leb n p.batch_number_final

unfoldable pub check_proof_exists_for_batch : ℕ → Db → Bool
check_proof_exists_for_batch n db = any (covers n) db.proofs

abbrev pub sequence_from : ℕ → Db → Bool
sequence_from n db = any (λ s. s.from_batch_number == n) db.sequences

abbrev pub sequence_to : ℕ → Db → Bool
sequence_to n db = any (λ s. s.to_batch_number == n) db.sequences

unfoldable pub check_proof_contains_complete_sequences : Proof → Db → Bool
check_proof_contains_complete_sequences p db =
    sequence_from p.batch_number db && sequence_to p.batch_number_final db

-- The WHERE clause of `GetProofReadyToVerify`; `$1` is `lastVerfiedBatchNumber+1`.
abbrev pub ready_to_verify : Db → ℕ → Proof → Bool
ready_to_verify db n p =
    p.batch_number == n
    && (is_none p.generating_since
        && (sequence_from p.batch_number db && sequence_to p.batch_number_final db))

-- `none` is `state.ErrNotFound`.
unfoldable pub get_proof_ready_to_verify : ℕ → Db → Option Proof
get_proof_ready_to_verify last db = find? (ready_to_verify db (u64 (last + 1))) db.proofs

abbrev pub within : ℕ → Sequence → Bool
within n s = leb s.from_batch_number n && leb n s.to_batch_number

abbrev pub in_one_sequence : Proof → Proof → Sequence → Bool
in_one_sequence p1 p2 s =
    within p1.batch_number s
    && (within p1.batch_number_final s
        && (within p2.batch_number s && within p2.batch_number_final s))

-- The ON and WHERE clauses of `GetProofsToAggregate`.
abbrev pub can_aggregate : Db → Proof × Proof → Bool
can_aggregate db (p1, p2) =
    p1.batch_number_final + 1 == p2.batch_number
    && (is_none p1.generating_since
        && (is_none p2.generating_since
            && (any (in_one_sequence p1 p2) db.sequences
                || (sequence_from p1.batch_number db
                    && (sequence_to p1.batch_number_final db
                        && (sequence_from p2.batch_number db
                            && sequence_to p2.batch_number_final db))))))

unfoldable pub get_proofs_to_aggregate : Db → Option (Proof × Proof)
get_proofs_to_aggregate db =
    first_min (λ q. q.0.batch_number) (keep_if (can_aggregate db) (pairs db.proofs db.proofs))

abbrev pub same_key : Proof → Proof → Bool
same_key p q = q.batch_number == p.batch_number && q.batch_number_final == p.batch_number_final

abbrev pub has_batch : ℕ → Db → Bool
has_batch n db = any (λ b. b.batch.batch_number == n) db.batches

-- `none` is a violated key or reference. The clock is the first argument.
unfoldable pub add_generated_proof : ℕ → Proof → Db → Option Db
add_generated_proof now p db =
    if any (same_key p) db.proofs
    then none
    else if has_batch p.batch_number db
    then some
        (record db { proofs = db.proofs ++ (record p { created_at = now; updated_at = now } ∷ []) })
    else none

-- What UPDATE writes over a row of the same key: all but the key and `created_at`.
abbrev pub overwrite : ℕ → Proof → Proof → Proof
overwrite now p q =
    if same_key p q
    then record q {
      proof = p.proof;
      proof_id = p.proof_id;
      input_prover = p.input_prover;
      prover = p.prover;
      prover_id = p.prover_id;
      generating_since = p.generating_since;
      updated_at = now;
    }
    else q

unfoldable pub update_generated_proof : ℕ → Proof → Db → Db
update_generated_proof now p db = record db { proofs = map (overwrite now p) db.proofs }

abbrev pub in_range : ℕ → ℕ → Proof → Bool
in_range from to p = leb from p.batch_number && leb p.batch_number_final to

unfoldable pub delete_generated_proofs : ℕ → ℕ → Db → Db
delete_generated_proofs from to db = record db {
  proofs = keep_if (λ p. not (in_range from to p)) db.proofs;
}

unfoldable pub cleanup_generated_proofs : ℕ → Db → Db
cleanup_generated_proofs n db = record db {
  proofs = keep_if (λ p. not (leb p.batch_number_final n)) db.proofs;
}

-- `generating_since < NOW() - interval`; a comparison with NULL does not hold.
abbrev pub is_stale : ℕ → ℕ → Proof → Bool
is_stale now interval p = elim p.generating_since [ none ↦ false | some t ↦ ltb (t + interval) now ]

unfoldable pub cleanup_locked_proofs : ℕ → ℕ → Db → Db
cleanup_locked_proofs now interval db = record db {
  proofs = keep_if (λ p. not (is_stale now interval p)) db.proofs;
}

unfoldable pub delete_ungenerated_proofs : Db → Db
delete_ungenerated_proofs db = record db {
  proofs = keep_if (λ p. is_none p.generating_since) db.proofs;
}

-- ON CONFLICT (from_batch_num) DO UPDATE; `none` is a violated reference.
abbrev upsert_sequence : Sequence → List Sequence → List Sequence
upsert_sequence s [] = s ∷ []
upsert_sequence s (t ∷ ts) =
    let rest = upsert_sequence s ts in
    if t.from_batch_number == s.from_batch_number
    then record t { to_batch_number = s.to_batch_number } ∷ ts
    else t ∷ rest

unfoldable pub add_sequence : Sequence → Db → Option Db
add_sequence s db =
    if has_batch s.from_batch_number db
    then some (record db { sequences = upsert_sequence s db.sequences })
    else none

-- ON CONFLICT (batch_num) DO UPDATE.
abbrev upsert_batch : DbBatch → List DbBatch → List DbBatch
upsert_batch b [] = b ∷ []
upsert_batch b (c ∷ cs) =
    let rest = upsert_batch b cs in
    if c.batch.batch_number == b.batch.batch_number then b ∷ cs else c ∷ rest

unfoldable pub add_batch : DbBatch → Db → Db
add_batch b db = record db { batches = upsert_batch b db.batches }

unfoldable pub get_batch : ℕ → Db → Option DbBatch
get_batch n db = find? (λ b. b.batch.batch_number == n) db.batches

-- A deleted batch takes the proofs and sequences that refer to it along (ON DELETE CASCADE).
abbrev delete_batches : (ℕ → Bool) → Db → Db
delete_batches doomed db = record {
  proofs = keep_if (λ p. not (doomed p.batch_number)) db.proofs;
  sequences = keep_if (λ s. not (doomed s.from_batch_number)) db.sequences;
  batches = keep_if (λ b. not (doomed b.batch.batch_number)) db.batches;
}

unfoldable pub delete_batches_older_than_batch_number : ℕ → Db → Db
delete_batches_older_than_batch_number n = delete_batches (λ m. ltb m n)

unfoldable pub delete_batches_newer_than_batch_number : ℕ → Db → Db
delete_batches_newer_than_batch_number n = delete_batches (λ m. ltb n m)
