-- ===== src/Aggregator/Interleaved/Owner.antt =====
-- What a goroutine does to a batch that no other one holds.
use zkevm_aggregator.Prelude.{
  ℕ, ◌+◌, ◌≤◌, ◌≡◌, refl, sym, ap, subst, ◌∙◌, ◌⊎◌, inl, inr, Bool, true, false, some, List, [],
  ◌∷◌, ◌++◌, map, Memᴰ, arith, any, any-append, any_of_mem, Bool-cases,
}
use zkevm_aggregator.State.{Proof}
use zkevm_aggregator.State.Storage.{covers, overwrite}
use zkevm_aggregator.Aggregator.Interleaved.Rows.{
  Key, key, is_stranger, is_idle, is_empty, none-append, none-keep_if, none_over, over-update,
  over-delete_own, idle-update_own,
}
use zkevm_aggregator.Aggregator.Interleaved.Claims.{
  over, works_on, strays, Shape, without, Act, IsOrdered, IsTaken, update-IsOrdered,
  delete-IsOrdered, update_other-IsTaken, key_of_member, proper_member,
}

-- Nothing is held over the batch, or its row is locked and has the key that is held.
abbrev pub Claim : ℕ → Key → List Proof → List Key → Type 0
Claim n k rows ks = (works_on n ks ≡ false) ⊎ (IsTaken n rows × (strays n k ks ≡ false))

pub record Own (n : ℕ) (rows' : List Proof) (ks' : List Key) : Type 0 where
  pub k : Key
  pub ordered : IsOrdered n k rows'
  pub claim : Claim n k rows' ks'
  pub shape : Shape ks'

module _ (n : ℕ) where
  -- The row that all rows over the batch share is locked.
  lock-IsTaken :
      (k : Key) (rows : List Proof) (now t : ℕ) (q : Proof)
      → IsOrdered n k rows
      → any (covers n) rows ≡ true
      → key q ≡ k
      → q.generating_since ≡ some t
      → IsTaken n (map (overwrite now q) rows)
  lock-IsTaken k rows now t q o present same g = record {
    present = over-update n now q rows ∙ present;
    locked =
        idle-update_own n now t q rows g
          (subst (λ c. any (is_stranger n c) rows ≡ false) (sym same) o.single);
  }

  -- A row is added over a batch that has none.
  fresh :
      (rows : List Proof) (p : Proof) (t : ℕ)
      → any (covers n) rows ≡ false
      → any is_empty rows ≡ false
      → covers n p ≡ true
      → p.generating_since ≡ some t
      → Own n (rows ++ (p ∷ [])) (key p ∷ [])
  fresh rows p t absent proper c g =
      let (single, idle) = none_over n (key p) rows absent in
      record {
        k = key p;
        ordered = record {
          single = none-append (is_stranger n (key p)) rows p single (ground arith);
          proper = none-append is_empty rows p proper (ground arith);
        };
        claim = inr (
          record {
            present = any-append (covers n) rows (p ∷ []) ∙ ground arith;
            locked = none-append (is_idle n) rows p idle (ground arith);
          },
          ground arith,
        );
        shape = tt;
      }

  -- A row over other batches is added.
  beside :
      (k : Key) (rows : List Proof) (p : Proof)
      → IsOrdered n k rows
      → covers n p ≡ false
      → p.batch_number ≤ p.batch_number_final
      → Own n (rows ++ (p ∷ [])) (key p ∷ [])
  beside k rows p o c proper = record {
    k = k;
    ordered = record {
      single = none-append (is_stranger n k) rows p o.single (ground arith);
      proper = none-append is_empty rows p o.proper (ground arith);
    };
    claim = inl (ground arith);
    shape = tt;
  }

  begin-Own :
      (k : Key) (rows : List Proof) (p : Proof) (t : ℕ)
      → IsOrdered n k rows
      → any (covers p.batch_number) rows ≡ false
      → p.batch_number_final ≡ p.batch_number
      → p.generating_since ≡ some t
      → Own n (rows ++ (p ∷ [])) (key p ∷ [])
  begin-Own k rows p t o absent same g = elim (Bool-cases (covers n p)) [
    | inl c ↦
        let e : p.batch_number ≡ n = ground (arith, same) in
        fresh rows p t (subst (λ b. any (covers b) rows ≡ false) e absent) o.proper c g
    | inr c ↦ beside k rows p o c (omega arith)
  ]

  lock-Own :
      (k : Key) (rows : List Proof) (r q : Proof) (now t : ℕ)
      → IsOrdered n k rows
      → Memᴰ r rows
      → key q ≡ key r
      → q.generating_since ≡ some t
      → Own n (map (overwrite now q) rows) (key q ∷ [])
  lock-Own k rows r q now t o m same g = record {
    k = k;
    ordered = update-IsOrdered n k now q rows o;
    claim = claim;
    shape = tt;
  }
    where
      claim : Claim n k (map (overwrite now q) rows) (key q ∷ [])
      claim = elim (Bool-cases (covers n q)) [
        | inr c ↦ inl (ground arith)
        | inl c ↦
            let c' : covers n r ≡ true = sym (ap (over n) same) ∙ c in
            let e : key q ≡ k = same ∙ key_of_member n k r rows o m c' in
            inr (
              lock-IsTaken k rows now t q o (any_of_mem (covers n) m c') e g,
              ground (arith, ap (λ x. x.0) e, ap (λ x. x.1) e),
            )
      ]

  merge_in :
      (k a b : Key) (rows : List Proof)
      → Shape (a ∷ b ∷ [])
      → strays n k (a ∷ b ∷ []) ≡ false
      → over n (a.0, b.1) ≡ true
      → (a.0 ≤ k.0) × (k.1 ≤ b.1)
  merge_in k a b rows (adjacent, pa, pb) h c = ground arith

  merge-Own :
      (k a b : Key) (rows : List Proof) (q : Proof) (t : ℕ)
      → IsOrdered n k rows
      → Claim n k rows (a ∷ b ∷ [])
      → Shape (a ∷ b ∷ [])
      → key q ≡ (a.0, b.1)
      → q.generating_since ≡ some t
      → Own n (without (a.0, b.1) rows ++ (q ∷ [])) (key q ∷ [])
  merge-Own k a b rows q t o claim shape same g = elim (Bool-cases (over n (a.0, b.1))) [
    | inr c ↦
        beside k (without (a.0, b.1) rows) q (delete-IsOrdered n k (a.0, b.1) rows o)
          (ap (over n) same ∙ c) (ground (arith, ap (λ x. x.0) same, ap (λ x. x.1) same, shape))
    | inl c ↦ elim claim [
      | inl away ↦ absurd (merged_over a b shape away c)
      | inr (taken, kept) ↦
          let (lo, hi) = merge_in k a b rows shape kept c in
          fresh (without (a.0, b.1) rows) q t (over-delete_own n k a.0 b.1 rows lo hi o.single)
            (none-keep_if is_empty _ rows o.proper) (ap (over n) same ∙ c) g
    ]
  ]
    where
      merged_over :
          (a b : Key)
          → Shape (a ∷ b ∷ [])
          → works_on n (a ∷ b ∷ []) ≡ false
          → over n (a.0, b.1) ≡ true
          → ⊥
      merged_over a b (adjacent, pa, pb) h c = ground arith

  lock_both-Own :
      (k : Key) (rows : List Proof) (r1 r2 q1 q2 : Proof) (now1 now2 t1 t2 : ℕ)
      → IsOrdered n k rows
      → Memᴰ r1 rows
      → Memᴰ r2 rows
      → key q1 ≡ key r1
      → key q2 ≡ key r2
      → q1.generating_since ≡ some t1
      → q2.generating_since ≡ some t2
      → q1.batch_number_final + 1 ≡ q2.batch_number
      → Own n (map (overwrite now2 q2) (map (overwrite now1 q1) rows)) (key q1 ∷ key q2 ∷ [])
  lock_both-Own k rows r1 r2 q1 q2 now1 now2 t1 t2 o m1 m2 same1 same2 g1 g2 adjacent = record {
    k = k;
    ordered = update-IsOrdered n k now2 q2 _ first;
    claim = claim;
    shape = (
      adjacent,
      ground (arith, ap (λ x. x.0) same1, ap (λ x. x.1) same1, proper_member n k r1 rows o m1),
      ground (arith, ap (λ x. x.0) same2, ap (λ x. x.1) same2, proper_member n k r2 rows o m2),
    );
  }
    where
      first : IsOrdered n k (map (overwrite now1 q1) rows)
      first = update-IsOrdered n k now1 q1 rows o

      claim :
          Claim n k (map (overwrite now2 q2) (map (overwrite now1 q1) rows)) (key q1 ∷ key q2 ∷ [])
      claim = elim (Bool-cases (covers n q1)) [
        | inl c ↦
            let c' : covers n r1 ≡ true = sym (ap (over n) same1) ∙ c in
            let e : key q1 ≡ k = same1 ∙ key_of_member n k r1 rows o m1 c' in
            let other : covers n q2 ≡ false = ground arith in
            let taken = lock-IsTaken k rows now1 t1 q1 o (any_of_mem (covers n) m1 c') e g1 in
            inr (
              update_other-IsTaken n k now2 q2 _ other taken,
              ground (arith, ap (λ x. x.0) e, ap (λ x. x.1) e),
            )
        | inr c ↦ elim (Bool-cases (covers n q2)) [
          | inr d ↦ inl (ground arith)
          | inl d ↦
              let d' : covers n r2 ≡ true = sym (ap (over n) same2) ∙ d in
              let e : key q2 ≡ k = same2 ∙ key_of_member n k r2 rows o m2 d' in
              let present = over-update n now1 q1 rows ∙ any_of_mem (covers n) m2 d' in
              inr (
                lock-IsTaken k _ now2 t2 q2 first present e g2,
                ground (arith, ap (λ x. x.0) e, ap (λ x. x.1) e),
              )
        ]
      ]

-- Whatever it does, the goroutine holds the batch's row, locked, or nothing over the batch; and all rows
-- over the batch have one key.
pub Act-Own :
    (n : ℕ) (k : Key) (u : Bool) (rows rows' : List Proof) (ks ks' : List Key)
    → IsOrdered n k rows
    → Claim n k rows ks
    → Shape ks
    → Act n u rows rows' ks ks'
    → Own n rows' ks'
Act-Own n k u rows rows' ks _ o c s (Act.stay _ e) =
    rw e (record { k = k; ordered = o; claim = c; shape = s })
Act-Own n k u rows rows' ks _ o c s (Act.leave _ e) =
    rw e (record { k = k; ordered = o; claim = inl refl; shape = tt })
Act-Own n k u rows rows' _ _ o c s (Act.lock r q now t m i same g e) =
    rw e (lock-Own n k rows r q now t o m same g)
Act-Own n k u rows rows' _ _ o c s
      (Act.lock_both r1 r2 q1 q2 now1 now2 t1 t2 m1 m2 i1 i2 same1 same2 g1 g2 adjacent e) =
    rw e (lock_both-Own n k rows r1 r2 q1 q2 now1 now2 t1 t2 o m1 m2 same1 same2 g1 g2 adjacent)
Act-Own n k u rows rows' _ _ o c s (Act.begin p t h same g e) =
    rw e (begin-Own n k rows p t o h same g)
Act-Own n k u rows rows' _ _ o c s (Act.merge a b q t same g e) =
    rw e (merge-Own n k a b rows q t o c s same g)
Act-Own n k u rows rows' _ _ o c s (Act.unlock p now e) =
    rw e
      (record { k = k; ordered = update-IsOrdered n k now p rows o; claim = inl refl; shape = tt })
Act-Own n k u rows rows' _ _ o c s (Act.unlock_both p1 p2 now1 now2 e) = rw e (record {
  k = k;
  ordered = update-IsOrdered n k now2 p2 _ (update-IsOrdered n k now1 p1 rows o);
  claim = inl refl;
  shape = tt;
})
Act-Own n k u rows rows' _ _ o c s (Act.remove d _ e) =
    rw e (record { k = k; ordered = delete-IsOrdered n k d rows o; claim = inl refl; shape = tt })
Act-Own n k u rows rows' _ _ o c s (Act.outdated d h e) = rw e (record {
  k = k;
  ordered = delete-IsOrdered n k d rows o;
  claim = inl (ground arith);
  shape = tt;
})
