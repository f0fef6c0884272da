-- ===== src/State/Storage/Coverage.antt =====
-- Which batches have a proof, and what each statement of proof.go does to that.
use zkevm_aggregator.Prelude.{
  ℕ, ◌+◌, ◌<◌, ◌≡◌, refl, ◌⊎◌, inl, inr, true, not, ◌||◌, some, List, [], ◌∷◌, map, Memᴰ, arith,
  Bool-cases, any, keep_if, any-append, any_of_mem,
}
use zkevm_aggregator.State.{Proof}
use zkevm_aggregator.State.Storage.{
  Db, covers, check_proof_exists_for_batch, overwrite, update_generated_proof, in_range,
  delete_generated_proofs, add_generated_proof,
}

any-overwrite :
    (n now : ℕ) (p : Proof) (ps : List Proof)
    → any (covers n) (map (overwrite now p) ps) ≡ any (covers n) ps
any-overwrite n now p [] = refl
any-overwrite n now p (q ∷ ps) = ground (arith, any-overwrite n now p ps)

-- An update leaves every batch proved or unproved as it was.
pub covered-update :
    (n now : ℕ) (p : Proof) (db : Db)
    → check_proof_exists_for_batch n (update_generated_proof now p db)
      ≡ check_proof_exists_for_batch n db
unfolding check_proof_exists_for_batch update_generated_proof
covered-update n now p db = any-overwrite n now p db.proofs

any-delete_outside :
    (n from to : ℕ) (ps : List Proof)
    → (n < from) ⊎ (to < n)
    → any (covers n) (keep_if (λ p. not (in_range from to p)) ps) ≡ any (covers n) ps
any-delete_outside n from to [] h = refl
any-delete_outside n from to (q ∷ ps) h = ground (arith, any-delete_outside n from to ps h)

-- Deleting the proofs inside a range changes nothing for the batches outside it.
pub covered-delete_outside :
    (n from to : ℕ) (db : Db)
    → (n < from) ⊎ (to < n)
    → check_proof_exists_for_batch n (delete_generated_proofs from to db)
      ≡ check_proof_exists_for_batch n db
unfolding check_proof_exists_for_batch delete_generated_proofs
covered-delete_outside n from to db h = any-delete_outside n from to db.proofs h

-- A new row proves the batches of its range, besides those proved before.
pub covered-add :
    (n now : ℕ) (p : Proof) (db db' : Db)
    → add_generated_proof now p db ≡ some db'
    → check_proof_exists_for_batch n db' ≡ check_proof_exists_for_batch n db || covers n p
unfolding check_proof_exists_for_batch add_generated_proof
covered-add n now p db db' e =
    ground (
      arith,
      any-append (covers n) db.proofs (record p { created_at = now; updated_at = now } ∷ []),
    )

pub covered_of_mem :
    (n : ℕ) (db : Db) {p : Proof}
    → Memᴰ p db.proofs
    → covers n p ≡ true
    → check_proof_exists_for_batch n db ≡ true
unfolding check_proof_exists_for_batch
covered_of_mem n db m c = any_of_mem (covers n) m c

-- The rows of two adjacent ranges, both proved, replaced by one row over both: no batch gains or loses its proof.
pub covered-replace :
    (n now : ℕ) (p1 p2 p : Proof) (db db' : Db)
    → (covers n p1 ≡ true → check_proof_exists_for_batch n db ≡ true)
    → (covers n p2 ≡ true → check_proof_exists_for_batch n db ≡ true)
    → p1.batch_number_final + 1 ≡ p2.batch_number
    → p.batch_number ≡ p1.batch_number
    → p.batch_number_final ≡ p2.batch_number_final
    → add_generated_proof now p (delete_generated_proofs p1.batch_number p2.batch_number_final db)
      ≡ some db'
    → check_proof_exists_for_batch n db' ≡ check_proof_exists_for_batch n db
covered-replace n now p1 p2 p db db' c1 c2 adj hf ht e = elim (Bool-cases (covers n p)) [
  | inl inside ↦ elim (Bool-cases (covers n p1)) [
    | inl c ↦ ground (arith, added, c1 c)
    | inr c ↦ ground (arith, added, c2 (ground arith))
  ]
  | inr outside ↦ ground (
    arith,
    added,
    covered-delete_outside n p1.batch_number p2.batch_number_final db (ground arith),
  )
]
  where
    added :
        check_proof_exists_for_batch n db'
        ≡ check_proof_exists_for_batch n
            (delete_generated_proofs p1.batch_number p2.batch_number_final db)
          || covers n p
    added =
        covered-add n now p (delete_generated_proofs p1.batch_number p2.batch_number_final db) db' e
