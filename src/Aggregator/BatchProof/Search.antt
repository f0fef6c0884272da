-- ===== src/Aggregator/BatchProof/Search.antt =====
-- The search for the first batch with no proof: what it finds, and that it ends.
use zkevm_aggregator.Prelude.{
  ℕ, zero, suc, ◌+◌, ◌≤◌, ◌<◌, ◌^◌, ◌%◌, ◌≡◌, ◌≢◌, true, false, List, [], ◌∷◌, arith, Bool-cases,
  inl, inr, any, ◌==◌,
}
use zkevm_aggregator.Prelude.Result.{Result, ok, err, panic}
use zkevm_aggregator.State.{Proof, u64}
use zkevm_aggregator.State.Storage.{Db, covers, check_proof_exists_for_batch}
use zkevm_aggregator.Aggregator.{Err, out_of_fuel, Env, World, next_call}
use zkevm_aggregator.Aggregator.Calls.{pool, query}
use zkevm_aggregator.Aggregator.Quiet.{Quiet, Quiet-throw, Quiet-bind, Quiet-query, Quiet-pure}
use zkevm_aggregator.Aggregator.BatchProof.{greatest, after_check, next_unproved, find_unproved}

covers-le-greatest : (k : ℕ) (ps : List Proof) → any (covers k) ps ≡ true → k ≤ greatest ps
covers-le-greatest k [] h = cc
covers-le-greatest k (p ∷ ps) h = elim (Bool-cases (covers k p)) [
  | inl c ↦ ground arith
  | inr c ↦ let r : k ≤ greatest ps = covers-le-greatest k ps (ground arith) in ground arith
]

reached : (k : ℕ) (db : Db) → check_proof_exists_for_batch k db ≡ true → k ≤ greatest db.proofs
unfolding check_proof_exists_for_batch
reached k db c = covers-le-greatest k db.proofs c

-- The first batch after `n` with no proof; an error is one of the source's.
abbrev pub FirstUnproved : Db → ℕ → Result Err ℕ → Type 0
FirstUnproved db n (ok m) =
    (check_proof_exists_for_batch m db ≡ false)
    × (n < m)
    × ((k : ℕ) → n < k → k < m → check_proof_exists_for_batch k db ≡ true)
FirstUnproved db n (err e) = e ≢ out_of_fuel
FirstUnproved db n panic = ⊥

-- What is found has no proof, whatever the numbers.
abbrev pub Unproved : Db → Result Err ℕ → Type 0
Unproved db (ok m) = check_proof_exists_for_batch m db ≡ false
Unproved db (err e) = Unit
Unproved db panic = ⊥

the_same : (k m : ℕ) → (k == m) ≡ true → k ≡ m
the_same k m e = ground arith

module _ (env : Env) where
  FirstUnproved-later :
      (db : Db) (n : ℕ) (r : Result Err ℕ)
      → check_proof_exists_for_batch (n + 1) db ≡ true
      → FirstUnproved db (n + 1) r
      → FirstUnproved db n r
  FirstUnproved-later db n (ok m) c (h1, h2, h3) = (
    h1,
    omega arith,
    λ k lo hi. elim (Bool-cases (k == n + 1)) [
      | inl e ↦ rw (the_same k (n + 1) e) c
      | inr e ↦ h3 k (ground arith) hi
    ],
  )
  FirstUnproved-later db n (err e) c h = h
  FirstUnproved-later db n panic c h = h

  next_unproved-FirstUnproved :
      (fuel n : ℕ) (w : World)
      → 0 < fuel
      → n + fuel < 2 ^ 64
      → greatest w.db.proofs < n + fuel
      → FirstUnproved w.db n (next_unproved env fuel n w).0
  unfolding next_unproved
  next_unproved-FirstUnproved zero n w some_fuel small enough = absurd (ground arith)
  next_unproved-FirstUnproved (suc fuel) n w some_fuel small enough =
      let u : (n + 1) % 2 ^ 64 ≡ n + 1 = omega arith in
      elim (Bool-cases (env.db_fails w.calls)) [
        | inl e ↦ rw e (cc)
        | inr e ↦ elim (Bool-cases (check_proof_exists_for_batch (n + 1) w.db)) [
          | inl c ↦
              let below : n + 1 ≤ greatest w.db.proofs = reached (n + 1) w.db c in
              rw (e, u, c)
                (FirstUnproved-later w.db n _ c (
                  next_unproved-FirstUnproved fuel (n + 1) (next_call w) (omega arith) (omega arith)
                    (omega arith)))
          | inr c ↦ rw (e, u, c) (c, omega arith, λ k lo hi. absurd (omega arith))
        ]
      ]

  -- The search finds the first batch after the last verified one that has no proof, whatever rows
  -- there are, or a statement fails; it ends. No batch number that it tries reaches 2^64.
  pub find_unproved-FirstUnproved :
      (last : ℕ) (w : World)
      → last + greatest w.db.proofs + 2 < 2 ^ 64
      → FirstUnproved w.db last (find_unproved env last w).0
  unfolding find_unproved
  find_unproved-FirstUnproved last w small =
      next_unproved-FirstUnproved (suc (suc (greatest w.db.proofs))) last w (omega arith)
        (omega arith) (omega arith)

  next_unproved-Unproved : (fuel n : ℕ) (w : World) → Unproved w.db (next_unproved env fuel n w).0
  unfolding next_unproved
  next_unproved-Unproved zero n w = tt
  next_unproved-Unproved (suc fuel) n w = elim (Bool-cases (env.db_fails w.calls)) [
    | inl e ↦ rw e tt
    | inr e ↦ elim (Bool-cases (check_proof_exists_for_batch (u64 (n + 1)) w.db)) [
      | inl c ↦ rw (e, c) (next_unproved-Unproved fuel (u64 (n + 1)) (next_call w))
      | inr c ↦ rw (e, c) c
    ]
  ]

  pub find_unproved-Unproved : (last : ℕ) (w : World) → Unproved w.db (find_unproved env last w).0
  unfolding find_unproved
  find_unproved-Unproved last w = next_unproved-Unproved (suc (suc (greatest w.db.proofs))) last w

  next_unproved-Quiet : (fuel n : ℕ) → Quiet (next_unproved env fuel n)
  unfolding next_unproved
  next_unproved-Quiet zero n = Quiet-throw out_of_fuel
  next_unproved-Quiet (suc fuel) n =
      Quiet-bind (query env pool (check_proof_exists_for_batch (u64 (n + 1))))
        (after_check env (next_unproved env fuel (u64 (n + 1))) (u64 (n + 1)))
        (Quiet-query env pool (check_proof_exists_for_batch (u64 (n + 1))))
        (elim [ true ↦ next_unproved-Quiet fuel (u64 (n + 1)) | false ↦ Quiet-pure (u64 (n + 1)) ])

  pub find_unproved-Quiet : (last : ℕ) → Quiet (find_unproved env last)
  unfolding find_unproved
  find_unproved-Quiet last = record {
    run = λ w. (next_unproved-Quiet (suc (suc (greatest w.db.proofs))) last).run w;
  }
