-- ===== src/Aggregator/Verify/Offered.antt =====
-- What checking a proof and building a final proof of it do to the rows.
use zkevm_aggregator.Prelude.{
  ℕ, ◌+◌, ◌<◌, ◌^◌, ◌≡◌, refl, ap, ◌⊎◌, inl, inr, not, ◌&&◌, List, keep_if, arith, Bool-cases, ltb,
  leb, ◌==◌,
}
use zkevm_aggregator.Prelude.Result.{Result, ok}
use zkevm_aggregator.State.{Proof, u64}
use zkevm_aggregator.State.Storage.{in_range, delete_generated_proofs}
use zkevm_aggregator.Aggregator.{Err, Env, World, FinalProof, Try}
use zkevm_aggregator.Aggregator.Verify.{
  check_complete_sequences, discard, validate_eligible_final_proof, build_final_proof,
}

-- The rows are as they were, or those within a proof that ends before the batch are gone.
abbrev pub DroppedFrom : ℕ → Proof → List Proof → World → Type 0
DroppedFrom n p rows w' =
    (w'.db.proofs ≡ rows)
    ⊎ ((p.batch_number_final < n)
        × (w'.db.proofs ≡ keep_if (λ x. not (in_range p.batch_number p.batch_number_final x)) rows))

abbrev pub Dropped : ℕ → Proof → World → World → Type 0
Dropped n p w = DroppedFrom n p w.db.proofs

module _ (env : Env) where
  check-same : (p : Proof) (w : World) → (check_complete_sequences env p w).1.db ≡ w.db
  unfolding check_complete_sequences
  check-same p w = ground arith

  discard-Dropped :
      (n : ℕ) (p : Proof) (w : World) → p.batch_number_final < n → Dropped n p w (discard env p w).1
  unfolding discard delete_generated_proofs
  discard-Dropped n p w h = elim (Bool-cases (env.db_fails w.calls)) [
    | inl e ↦ inl (rw e refl)
    | inr e ↦ inr (h, rw e refl)
  ]

  -- Every batch up to `last` lies before `n`.
  pub validate-Dropped :
      (n : ℕ) (p : Proof) (last : ℕ) (w : World)
      → last < n
      → n < 2 ^ 64
      → Dropped n p w (validate_eligible_final_proof env p last w).1
  unfolding validate_eligible_final_proof
  validate-Dropped n p last w h fits = elim (Bool-cases (p.batch_number == u64 (last + 1))) [
    | inl e ↦ inl (rw e (ap (λ d. d.proofs) (check-same p w)))
    | inr e ↦
        elim (Bool-cases
          (ltb p.batch_number (u64 (last + 1)) && leb (u64 (last + 1)) p.batch_number_final)) [
            | inl f ↦ inl (rw (e, f) (ap (λ d. d.proofs) (check-same p w)))
            | inr f ↦ elim (Bool-cases (ltb p.batch_number_final (u64 (last + 1)))) [
              | inl g ↦ rw (e, f, g) (discard-Dropped n p w (ground arith))
              | inr g ↦ inl (rw (e, f, g) refl)
            ]
          ]
  ]

  -- The proof keeps its batches, and no table changes.
  abbrev pub BuiltOf : Proof → World → Result Err (Proof × Try FinalProof) → World → Type 0
  BuiltOf p w (ok (q, _)) w' =
      (q.batch_number ≡ p.batch_number)
      × (q.batch_number_final ≡ p.batch_number_final)
      × (w'.db ≡ w.db)
  BuiltOf p w _ w' = Unit {0}

  pub build_final_proof-BuiltOf :
      (p : Proof) (w : World) → let (r, w') = build_final_proof env p w in BuiltOf p w r w'
  unfolding build_final_proof
  build_final_proof-BuiltOf p w = ground arith
