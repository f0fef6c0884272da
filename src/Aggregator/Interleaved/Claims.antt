-- ===== src/Aggregator/Interleaved/Claims.antt =====
-- The abstract view of the goroutines: which keys one of them holds, and what it may do to the rows.
use zkevm_aggregator.Prelude.{
  ℕ, ◌+◌, ◌<◌, ◌≤◌, ◌≡◌, ◌∙◌, inl, inr, Bool, true, false, not, ◌&&◌, none, some, List, [], ◌∷◌,
  ◌++◌, map, Memᴰ, arith, leb, ◌==◌, any, keep_if, any_of_mem, Bool-cases,
}
use zkevm_aggregator.State.{Proof}
use zkevm_aggregator.State.Storage.{covers, overwrite, in_range}
use zkevm_aggregator.Aggregator.Interleaved.Rows.{
  Key, key, has_key, is_stranger, is_idle, is_empty, over-update, stranger-update,
  idle-update_other, over-delete_other, empty-update, none-keep_if,
}

abbrev pub over : ℕ → Key → Bool
over n k = leb k.0 n && leb n k.1

-- One of the keys is over the batch.
abbrev pub works_on : ℕ → List Key → Bool
works_on n = any (over n)

-- A key over the batch is not `k`.
abbrev pub strays : ℕ → Key → List Key → Bool
strays n k = any (λ c. over n c && not (c.0 == k.0 && c.1 == k.1))

-- Two keys that are held together are adjacent, and neither is empty.
abbrev pub Shape : List Key → Type 0
Shape (a ∷ b ∷ _) = (a.1 + 1 ≡ b.0) × (a.0 ≤ a.1) × (b.0 ≤ b.1)
Shape _ = Unit {0}

abbrev pub without : Key → List Proof → List Proof
without k = keep_if (λ p. not (in_range k.0 k.1 p))

-- What a goroutine that holds some keys may do to the rows, and what it holds then. A proof that is
-- unfinished may be removed.
pub data Act (n : ℕ) (unfinished : Bool) (rows rows' : List Proof)
    : List Key → List Key → Type 0 where
  stay : (ks : List Key) → rows' ≡ rows → Act n unfinished rows rows' ks ks
  leave : (ks : List Key) → rows' ≡ rows → Act n unfinished rows rows' ks []
  lock :
      (r q : Proof) (now t : ℕ)
      → Memᴰ r rows
      → r.generating_since ≡ none
      → key q ≡ key r
      → q.generating_since ≡ some t
      → rows' ≡ map (overwrite now q) rows
      → Act n unfinished rows rows' [] (key q ∷ [])
  lock_both :
      (r1 r2 q1 q2 : Proof) (now1 now2 t1 t2 : ℕ)
      → Memᴰ r1 rows
      → Memᴰ r2 rows
      → r1.generating_since ≡ none
      → r2.generating_since ≡ none
      → key q1 ≡ key r1
      → key q2 ≡ key r2
      → q1.generating_since ≡ some t1
      → q2.generating_since ≡ some t2
      → q1.batch_number_final + 1 ≡ q2.batch_number
      → rows' ≡ map (overwrite now2 q2) (map (overwrite now1 q1) rows)
      → Act n unfinished rows rows' [] (key q1 ∷ key q2 ∷ [])
  begin :
      (p : Proof) (t : ℕ)
      → any (covers p.batch_number) rows ≡ false
      → p.batch_number_final ≡ p.batch_number
      → p.generating_since ≡ some t
      → rows' ≡ rows ++ (p ∷ [])
      → Act n unfinished rows rows' [] (key p ∷ [])
  merge :
      (a b : Key) (q : Proof) (t : ℕ)
      → key q ≡ (a.0, b.1)
      → q.generating_since ≡ some t
      → rows' ≡ without (a.0, b.1) rows ++ (q ∷ [])
      → Act n unfinished rows rows' (a ∷ b ∷ []) (key q ∷ [])
  unlock :
      (p : Proof) (now : ℕ)
      → rows' ≡ map (overwrite now p) rows
      → Act n unfinished rows rows' (key p ∷ []) []
  unlock_both :
      (p1 p2 : Proof) (now1 now2 : ℕ)
      → rows' ≡ map (overwrite now2 p2) (map (overwrite now1 p1) rows)
      → Act n unfinished rows rows' (key p1 ∷ key p2 ∷ []) []
  remove :
      (k : Key)
      → unfinished ≡ true
      → rows' ≡ without k rows
      → Act n unfinished rows rows' (k ∷ []) []
  -- A proof that ends before the batch.
  outdated :
      (k : Key) → k.1 < n → rows' ≡ without k rows → Act n unfinished rows rows' (k ∷ []) (k ∷ [])

-- All rows over the batch have one key, and no row is empty.
pub record IsOrdered (n : ℕ) (k : Key) (rows : List Proof) : Type 0 where
  pub single : any (is_stranger n k) rows ≡ false
  pub proper : any is_empty rows ≡ false

-- The batch has a row, and all its rows are locked.
pub record IsTaken (n : ℕ) (rows : List Proof) : Type 0 where
  pub present : any (covers n) rows ≡ true
  pub locked : any (is_idle n) rows ≡ false

module _ (n : ℕ) (k : Key) where
  pub update-IsOrdered :
      (now : ℕ) (q : Proof) (rows : List Proof)
      → IsOrdered n k rows
      → IsOrdered n k (map (overwrite now q) rows)
  update-IsOrdered now q rows o = record {
    single = stranger-update n k now q rows ∙ o.single;
    proper = empty-update now q rows ∙ o.proper;
  }

  pub delete-IsOrdered :
      (d : Key) (rows : List Proof) → IsOrdered n k rows → IsOrdered n k (without d rows)
  delete-IsOrdered d rows o = record {
    single = none-keep_if (is_stranger n k) _ rows o.single;
    proper = none-keep_if is_empty _ rows o.proper;
  }

  pub update_other-IsTaken :
      (now : ℕ) (q : Proof) (rows : List Proof)
      → covers n q ≡ false
      → IsTaken n rows
      → IsTaken n (map (overwrite now q) rows)
  update_other-IsTaken now q rows c t = record {
    present = over-update n now q rows ∙ t.present;
    locked = idle-update_other n now q rows c ∙ t.locked;
  }

  pub delete_other-IsTaken :
      (d : Key) (rows : List Proof) → over n d ≡ false → IsTaken n rows → IsTaken n (without d rows)
  delete_other-IsTaken d rows c t = record {
    present = over-delete_other n d.0 d.1 rows c ∙ t.present;
    locked = none-keep_if (is_idle n) _ rows t.locked;
  }

  -- An idle row is not over a batch that is taken.
  pub idle_elsewhere :
      (r : Proof) (rows : List Proof)
      → IsTaken n rows
      → Memᴰ r rows
      → r.generating_since ≡ none
      → covers n r ≡ false
  idle_elsewhere r rows t m i = elim (Bool-cases (covers n r)) [
    | inr c ↦ c
    | inl c ↦ cc (t.locked, any_of_mem (is_idle n) m (ground arith))
  ]

  -- The row over the batch has the key.
  pub key_of_member :
      (r : Proof) (rows : List Proof)
      → IsOrdered n k rows
      → Memᴰ r rows
      → covers n r ≡ true
      → key r ≡ k
  key_of_member r rows o m c = elim (Bool-cases (has_key k r)) [
    | inl h ↦ ground arith
    | inr h ↦ cc (o.single, any_of_mem (is_stranger n k) m (ground arith))
  ]

  pub proper_member :
      (r : Proof) (rows : List Proof)
      → IsOrdered n k rows
      → Memᴰ r rows
      → r.batch_number ≤ r.batch_number_final
  proper_member r rows o m = elim (Bool-cases (is_empty r)) [
    | inl h ↦ cc (o.proper, any_of_mem is_empty m h)
    | inr h ↦ ground arith
  ]
