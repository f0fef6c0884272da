-- ===== src/Aggregator/Interleaved/Rows.antt =====
-- What an update, a deletion and an insertion do to the rows over one batch.
use zkevm_aggregator.Prelude.{
  ℕ, ◌≤◌, ◌≡◌, refl, Bool, false, not, ◌&&◌, some, List, [], ◌∷◌, ◌++◌, map, arith, ltb, leb, ◌==◌,
  any, keep_if, any-append,
}
use zkevm_aggregator.State.{Proof}
use zkevm_aggregator.State.Storage.{is_none, covers, overwrite, in_range}

-- The first and the last batch of a proof.
abbrev pub Key : Type 0
Key = ℕ × ℕ

abbrev pub key : Proof → Key
key p = (p.batch_number, p.batch_number_final)

abbrev pub has_key : Key → Proof → Bool
has_key k x = x.batch_number == k.0 && x.batch_number_final == k.1

-- A row over the batch that has another key.
abbrev pub is_stranger : ℕ → Key → Proof → Bool
is_stranger n k x = covers n x && not (has_key k x)

-- A row over the batch that is not locked.
abbrev pub is_idle : ℕ → Proof → Bool
is_idle n x = covers n x && is_none x.generating_since

abbrev pub is_empty : Proof → Bool
is_empty x = ltb x.batch_number_final x.batch_number

module _ (n : ℕ) where
  pub over-update :
      (now : ℕ) (q : Proof) (rows : List Proof)
      → any (covers n) (map (overwrite now q) rows) ≡ any (covers n) rows
  over-update now q [] = refl
  over-update now q (x ∷ rows) = ground (arith, over-update now q rows)

  pub stranger-update :
      (k : Key) (now : ℕ) (q : Proof) (rows : List Proof)
      → any (is_stranger n k) (map (overwrite now q) rows) ≡ any (is_stranger n k) rows
  stranger-update k now q [] = refl
  stranger-update k now q (x ∷ rows) = ground (arith, stranger-update k now q rows)

  pub idle-update_locked :
      (now t : ℕ) (q : Proof) (rows : List Proof)
      → q.generating_since ≡ some t
      → any (is_idle n) rows ≡ false
      → any (is_idle n) (map (overwrite now q) rows) ≡ false
  idle-update_locked now t q [] h f = refl
  idle-update_locked now t q (x ∷ rows) h f = ground (arith, idle-update_locked now t q rows)

  -- All rows over the batch have the key of the update.
  pub idle-update_own :
      (now t : ℕ) (q : Proof) (rows : List Proof)
      → q.generating_since ≡ some t
      → any (is_stranger n (key q)) rows ≡ false
      → any (is_idle n) (map (overwrite now q) rows) ≡ false
  idle-update_own now t q [] h f = refl
  idle-update_own now t q (x ∷ rows) h f = ground (arith, idle-update_own now t q rows)

  pub idle-update_other :
      (now : ℕ) (q : Proof) (rows : List Proof)
      → covers n q ≡ false
      → any (is_idle n) (map (overwrite now q) rows) ≡ any (is_idle n) rows
  idle-update_other now q [] h = refl
  idle-update_other now q (x ∷ rows) h = ground (arith, idle-update_other now q rows)

  -- Of a range that the batch is not in, no row over the batch is deleted.
  pub over-delete_other :
      (from to : ℕ) (rows : List Proof)
      → (leb from n && leb n to) ≡ false
      → any (covers n) (keep_if (λ p. not (in_range from to p)) rows) ≡ any (covers n) rows
  over-delete_other from to [] h = refl
  over-delete_other from to (x ∷ rows) h = ground (arith, over-delete_other from to rows)

  -- Where the key of all rows over the batch lies in the range, none is left.
  pub over-delete_own :
      (k : Key) (from to : ℕ) (rows : List Proof)
      → from ≤ k.0
      → k.1 ≤ to
      → any (is_stranger n k) rows ≡ false
      → any (covers n) (keep_if (λ p. not (in_range from to p)) rows) ≡ false
  over-delete_own k from to [] h g f = refl
  over-delete_own k from to (x ∷ rows) h g f = ground (arith, over-delete_own k from to rows)

pub empty-update :
    (now : ℕ) (q : Proof) (rows : List Proof)
    → any is_empty (map (overwrite now q) rows) ≡ any is_empty rows
empty-update now q [] = refl
empty-update now q (x ∷ rows) = ground (arith, empty-update now q rows)

-- What no row is, no row is that is left.
pub none-keep_if :
    (t f : Proof → Bool) (rows : List Proof) → any t rows ≡ false → any t (keep_if f rows) ≡ false
none-keep_if t f [] h = refl
none-keep_if t f (x ∷ rows) h = ground (arith, none-keep_if t f rows)

pub none-append :
    (t : Proof → Bool) (rows : List Proof) (p : Proof)
    → any t rows ≡ false
    → t p ≡ false
    → any t (rows ++ (p ∷ [])) ≡ false
none-append t rows p h g = ground (arith, any-append t rows (p ∷ []))

-- Where no row is over the batch, none is a stranger or idle.
pub none_over :
    (n : ℕ) (k : Key) (rows : List Proof)
    → any (covers n) rows ≡ false
    → (any (is_stranger n k) rows ≡ false) × (any (is_idle n) rows ≡ false)
none_over n k [] h = (refl, refl)
none_over n k (x ∷ rows) h = ground (arith, none_over n k rows)
