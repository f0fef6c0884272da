-- ===== src/State/Storage/Select.antt =====
-- What the queries of proof.go find, against a description of the rows that they look for.
use zkevm_aggregator.Prelude.{
  ℕ, ◌+◌, ◌≤◌, ◌≡◌, refl, sym, ap, subst, ◌⊎◌, inl, inr, true, ◌&&◌, ◌||◌, Option, none, some, List,
  Memᴰ, arith, ◌==◌, and_parts, or_right, Bool-cases, any, keep_if, first_min, find?-mem,
  any-witness, any_of_mem,
}
use zkevm_aggregator.Prelude.{find?, ◌<◌, ◌^◌, ◌∙◌}
use zkevm_aggregator.Prelude.Members.{
  pairs, mem_pairs, pairs_parts, mem_keep_if, keep_if_parts, first_min_lem, first_min-none,
  find?-none,
}
use zkevm_aggregator.State.{Sequence, Proof}
use zkevm_aggregator.State.Storage.{
  Db, is_none, ready_to_verify, sequence_from, sequence_to, in_one_sequence,
  get_proof_ready_to_verify, can_aggregate, get_proofs_to_aggregate,
}

-- A sequence of the table starts, or ends, at the batch.
abbrev pub StartsAt : Db → ℕ → Type 0
StartsAt db n = (s : Sequence) × Memᴰ s db.sequences × (s.from_batch_number ≡ n)

abbrev pub EndsAt : Db → ℕ → Type 0
EndsAt db n = (s : Sequence) × Memᴰ s db.sequences × (s.to_batch_number ≡ n)

abbrev pub Spans : Db → Proof → Proof → Type 0
Spans db p1 p2 =
    (s : Sequence) × Memᴰ s db.sequences
    × (s.from_batch_number ≤ p1.batch_number)
    × (p1.batch_number ≤ s.to_batch_number)
    × (s.from_batch_number ≤ p1.batch_number_final)
    × (p1.batch_number_final ≤ s.to_batch_number)
    × (s.from_batch_number ≤ p2.batch_number)
    × (p2.batch_number ≤ s.to_batch_number)
    × (s.from_batch_number ≤ p2.batch_number_final)
    × (p2.batch_number_final ≤ s.to_batch_number)

-- Two rows that may be aggregated: adjacent, both idle, and either inside one sequence or each made
-- of whole sequences.
pub record Aggregatable (db : Db) (p1 p2 : Proof) : Type 0 where
  pub adjacent : p1.batch_number_final + 1 ≡ p2.batch_number
  pub idle1 : p1.generating_since ≡ none
  pub idle2 : p2.generating_since ≡ none
  pub sequenced :
      Spans db p1 p2
      ⊎ (StartsAt db p1.batch_number
          × EndsAt db p1.batch_number_final
          × StartsAt db p2.batch_number
          × EndsAt db p2.batch_number_final)

StartsAt-of_test : (db : Db) (n : ℕ) → sequence_from n db ≡ true → StartsAt db n
StartsAt-of_test db n h =
    let (s, m, e) = any-witness (λ (s : Sequence). s.from_batch_number == n) db.sequences h in
    (s, m, ground arith)

EndsAt-of_test : (db : Db) (n : ℕ) → sequence_to n db ≡ true → EndsAt db n
EndsAt-of_test db n h =
    let (s, m, e) = any-witness (λ (s : Sequence). s.to_batch_number == n) db.sequences h in
    (s, m, ground arith)

pub sequenced_of_test :
    (db : Db) (p1 p2 : Proof)
    → (any (in_one_sequence p1 p2) db.sequences
        || (sequence_from p1.batch_number db
            && (sequence_to p1.batch_number_final db
                && (sequence_from p2.batch_number db && sequence_to p2.batch_number_final db))))
      ≡ true
    → Spans db p1 p2
      ⊎ (StartsAt db p1.batch_number
          × EndsAt db p1.batch_number_final
          × StartsAt db p2.batch_number
          × EndsAt db p2.batch_number_final)
sequenced_of_test db p1 p2 h = elim (Bool-cases (any (in_one_sequence p1 p2) db.sequences)) [
  | inl one ↦
      let (s, m, e) = any-witness (in_one_sequence p1 p2) db.sequences one in
      inl (
        s,
        m,
        ground arith,
        ground arith,
        ground arith,
        ground arith,
        ground arith,
        ground arith,
        ground arith,
        ground arith,
      )
  | inr e ↦
      let whole = or_right _ _ h e in
      let (f1, rest) = and_parts _ _ whole in
      let (t1, more) = and_parts _ _ rest in
      let (f2, t2) = and_parts _ _ more in
      inr (
        StartsAt-of_test db p1.batch_number f1,
        EndsAt-of_test db p1.batch_number_final t1,
        StartsAt-of_test db p2.batch_number f2,
        EndsAt-of_test db p2.batch_number_final t2,
      )
]

pub Aggregatable-of_test :
    (db : Db) (p1 p2 : Proof) → can_aggregate db (p1, p2) ≡ true → Aggregatable db p1 p2
Aggregatable-of_test db p1 p2 h = record {
  adjacent = ground arith;
  idle1 = ground arith;
  idle2 = ground arith;
  sequenced = sequenced_of_test db p1 p2 (ground arith);
}

-- The test accepts every such pair.
test_of_Spans :
    (db : Db) (p1 p2 : Proof) → Spans db p1 p2 → any (in_one_sequence p1 p2) db.sequences ≡ true
test_of_Spans db p1 p2 (s, m, a, b, c, d, e, f, g, h) =
    any_of_mem (in_one_sequence p1 p2) m (ground arith)

test_of_StartsAt : (db : Db) (n : ℕ) → StartsAt db n → sequence_from n db ≡ true
test_of_StartsAt db n (s, m, h) =
    any_of_mem (λ (s : Sequence). s.from_batch_number == n) m (ground arith)

test_of_EndsAt : (db : Db) (n : ℕ) → EndsAt db n → sequence_to n db ≡ true
test_of_EndsAt db n (s, m, h) =
    any_of_mem (λ (s : Sequence). s.to_batch_number == n) m (ground arith)

pub test_of_Aggregatable :
    (db : Db) (p1 p2 : Proof) → Aggregatable db p1 p2 → can_aggregate db (p1, p2) ≡ true
test_of_Aggregatable db p1 p2 a = elim a.sequenced [
  | inl spans ↦ ground (arith, a, test_of_Spans db p1 p2 spans)
  | inr (f1, t1, f2, t2) ↦ ground (
    arith,
    a,
    test_of_StartsAt db p1.batch_number f1,
    test_of_EndsAt db p1.batch_number_final t1,
    test_of_StartsAt db p2.batch_number f2,
    test_of_EndsAt db p2.batch_number_final t2,
  )
]

-- What `GetProofsToAggregate` promises: a pair of rows that may be aggregated, of which no other
-- starts earlier, or `ErrNotFound` where there is none.
abbrev pub AggregateAnswer : Db → Option (Proof × Proof) → Type 0
AggregateAnswer db none =
    (q1 q2 : Proof) → Memᴰ q1 db.proofs → Memᴰ q2 db.proofs → ¬ Aggregatable db q1 q2
AggregateAnswer db (some (p1, p2)) =
    Memᴰ p1 db.proofs
    × Memᴰ p2 db.proofs
    × Aggregatable db p1 p2
    × ((q1 q2 : Proof)
        → Memᴰ q1 db.proofs
        → Memᴰ q2 db.proofs
        → Aggregatable db q1 q2
        → p1.batch_number ≤ q1.batch_number)

candidate :
    (db : Db) (q1 q2 : Proof)
    → Memᴰ q1 db.proofs
    → Memᴰ q2 db.proofs
    → Aggregatable db q1 q2
    → Memᴰ {A = Proof × Proof} (q1, q2) (keep_if (can_aggregate db) (pairs db.proofs db.proofs))
candidate db q1 q2 m1 m2 a =
    mem_keep_if (can_aggregate db) (pairs db.proofs db.proofs) (mem_pairs db.proofs m1 m2)
      (test_of_Aggregatable db q1 q2 a)

-- `GetProofsToAggregate` finds an aggregatable pair with the least first batch, whenever there is
-- an aggregatable pair at all.
pub get_proofs_to_aggregate_lem : (db : Db) → AggregateAnswer db (get_proofs_to_aggregate db)
get_proofs_to_aggregate_lem db = go (get_proofs_to_aggregate db) refl
  where
    rows : List (Proof × Proof)
    rows = keep_if (can_aggregate db) (pairs db.proofs db.proofs)

    found : get_proofs_to_aggregate db ≡ first_min (λ q. q.0.batch_number) rows
    found = unfold get_proofs_to_aggregate in refl

    go : (r : Option (Proof × Proof)) → get_proofs_to_aggregate db ≡ r → AggregateAnswer db r
    go none e = λ q1 q2 m1 m2 a.
        let empty = first_min-none _ rows (sym found ∙ e) in
        elim (subst (Memᴰ {A = Proof × Proof} (q1, q2)) empty (candidate db q1 q2 m1 m2 a)) [ ]
    go (some (p1, p2)) e =
        let (m, below) = first_min_lem _ rows (sym found ∙ e) in
        let (n, test) = keep_if_parts (can_aggregate db) (pairs db.proofs db.proofs) m in
        let (m1, m2) = pairs_parts db.proofs db.proofs n in
        (
          m1,
          m2,
          Aggregatable-of_test db p1 p2 test,
          λ q1 q2 n1 n2 a. below (q1, q2) (candidate db q1 q2 n1 n2 a),
        )

-- A row that can be sent for verification after batch `last`.
pub record Ready (db : Db) (last : ℕ) (p : Proof) : Type 0 where
  pub next : p.batch_number ≡ last + 1
  pub idle : p.generating_since ≡ none
  pub starts : StartsAt db p.batch_number
  pub ends : EndsAt db p.batch_number_final

pub Ready-of_test :
    (db : Db) (last : ℕ) (p : Proof) → ready_to_verify db (last + 1) p ≡ true → Ready db last p
Ready-of_test db last p h =
    let (_, rest) = and_parts (p.batch_number == last + 1) _ h in
    let (_, more) = and_parts (is_none p.generating_since) _ rest in
    let (f, t) = and_parts (sequence_from p.batch_number db) _ more in
    record {
      next = ground (arith, h);
      idle = ground (arith, h);
      starts = StartsAt-of_test db p.batch_number f;
      ends = EndsAt-of_test db p.batch_number_final t;
    }

test_of_Ready :
    (db : Db) (last : ℕ) (p : Proof) → Ready db last p → ready_to_verify db (last + 1) p ≡ true
test_of_Ready db last p r = ground (
  arith,
  r.next,
  r.idle,
  test_of_StartsAt db p.batch_number r.starts,
  test_of_EndsAt db p.batch_number_final r.ends,
)

abbrev pub ReadyAnswer : Db → ℕ → Option Proof → Type 0
ReadyAnswer db last none = (q : Proof) → Memᴰ q db.proofs → ¬ Ready db last q
ReadyAnswer db last (some p) = Memᴰ p db.proofs × Ready db last p

-- `GetProofReadyToVerify` finds an idle row that starts at the batch after the last verified one
-- and is made of whole sequences, whenever there is such a row. The batch is below 2^64.
pub get_proof_ready_to_verify_lem :
    (db : Db) (last : ℕ)
    → last + 1 < 2 ^ 64
    → ReadyAnswer db last (get_proof_ready_to_verify last db)
get_proof_ready_to_verify_lem db last h = go (get_proof_ready_to_verify last db) refl
  where
    found : get_proof_ready_to_verify last db ≡ find? (ready_to_verify db (last + 1)) db.proofs
    found =
        unfold get_proof_ready_to_verify in
        ap (λ n. find? (ready_to_verify db n) db.proofs) (omega arith)

    go : (r : Option Proof) → get_proof_ready_to_verify last db ≡ r → ReadyAnswer db last r
    go none e = λ q m r.
        cc (find?-none (ready_to_verify db (last + 1)) m (sym found ∙ e), test_of_Ready db last q r)
    go (some p) e =
        let (m, test) = find?-mem (ready_to_verify db (last + 1)) db.proofs (sym found ∙ e) in
        (m, Ready-of_test db last p test)
