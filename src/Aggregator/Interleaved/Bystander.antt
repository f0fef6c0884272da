-- ===== src/Aggregator/Interleaved/Bystander.antt =====
-- A goroutine that holds nothing over a batch leaves it to the one that does.
use zkevm_aggregator.Prelude.{
  ℕ, ◌≤◌, ◌≡◌, ◌≢◌, refl, ap, subst, ◌∙◌, Bool, true, false, List, [], ◌∷◌, ◌++◌, map, arith, any,
  any-append,
}
use zkevm_aggregator.State.{Proof}
use zkevm_aggregator.State.Storage.{covers, overwrite}
use zkevm_aggregator.Aggregator.Interleaved.Rows.{
  Key, key, is_stranger, is_idle, is_empty, none-append,
}
use zkevm_aggregator.Aggregator.Interleaved.Claims.{
  over, works_on, Shape, without, Act, IsOrdered, IsTaken, update-IsOrdered, delete-IsOrdered,
  update_other-IsTaken, delete_other-IsTaken, idle_elsewhere, proper_member,
}

pub record Left (n : ℕ) (k : Key) (rows' : List Proof) (ks' : List Key) : Type 0 where
  pub ordered : IsOrdered n k rows'
  pub taken : IsTaken n rows'
  pub away : works_on n ks' ≡ false
  pub shape : Shape ks'

module _ (n : ℕ) (k : Key) (rows : List Proof) (o : IsOrdered n k rows) (t : IsTaken n rows) where
  same-Left : (ks : List Key) → works_on n ks ≡ false → Shape ks → Left n k rows ks
  same-Left ks away shape = record { ordered = o; taken = t; away = away; shape = shape }

  update-Left :
      (now : ℕ) (q : Proof) (ks : List Key)
      → covers n q ≡ false
      → works_on n ks ≡ false
      → Shape ks
      → Left n k (map (overwrite now q) rows) ks
  update-Left now q ks c away shape = record {
    ordered = update-IsOrdered n k now q rows o;
    taken = update_other-IsTaken n k now q rows c t;
    away = away;
    shape = shape;
  }

  delete-Left :
      (d : Key) (ks : List Key)
      → over n d ≡ false
      → works_on n ks ≡ false
      → Shape ks
      → Left n k (without d rows) ks
  delete-Left d ks c away shape = record {
    ordered = delete-IsOrdered n k d rows o;
    taken = delete_other-IsTaken n k d rows c t;
    away = away;
    shape = shape;
  }

  -- A locked row over other batches is added.
  append-Left :
      (p : Proof)
      → covers n p ≡ false
      → p.batch_number ≤ p.batch_number_final
      → Left n k (rows ++ (p ∷ [])) (key p ∷ [])
  append-Left p c proper = record {
    ordered = record {
      single = none-append (is_stranger n k) rows p o.single (ground arith);
      proper = none-append is_empty rows p o.proper (ground arith);
    };
    taken = record {
      present = any-append (covers n) rows (p ∷ []) ∙ ground (arith, t.present);
      locked = none-append (is_idle n) rows p t.locked (ground arith);
    };
    away = ground arith;
    shape = tt;
  }

  other_batch : (b : ℕ) → any (covers b) rows ≡ false → n ≢ b
  other_batch b h e =
      let c : any (covers b) rows ≡ true = subst (λ m. any (covers m) rows ≡ true) e t.present in
      cc (c, h)

merged_elsewhere :
    (n : ℕ) (a b : Key)
    → Shape (a ∷ b ∷ [])
    → works_on n (a ∷ b ∷ []) ≡ false
    → over n (a.0, b.1) ≡ false
merged_elsewhere n a b (adjacent, pa, pb) h = ground arith

-- Whatever it does, the goroutine leaves the batch's row as it is, locked, and holds nothing over it.
pub Act-Left :
    (n : ℕ) (k : Key) (b : Bool) (rows rows' : List Proof) (ks ks' : List Key)
    → IsOrdered n k rows
    → IsTaken n rows
    → Shape ks
    → works_on n ks ≡ false
    → Act n b rows rows' ks ks'
    → Left n k rows' ks'
Act-Left n k v rows rows' ks _ o t s away (Act.stay _ e) = rw e (same-Left n k rows o t ks away s)
Act-Left n k v rows rows' ks _ o t s away (Act.leave _ e) = rw e (same-Left n k rows o t [] refl tt)
Act-Left n k v rows rows' _ _ o t s away (Act.lock r q now u m i same g e) =
    let c : covers n q ≡ false = ap (over n) same ∙ idle_elsewhere n k r rows t m i in
    rw e (update-Left n k rows o t now q (key q ∷ []) c (ground arith) tt)
Act-Left n k v rows rows' _ _ o t s away
      (Act.lock_both r1 r2 q1 q2 now1 now2 t1 t2 m1 m2 i1 i2 same1 same2 g1 g2 adjacent e) =
    let c1 : covers n q1 ≡ false = ap (over n) same1 ∙ idle_elsewhere n k r1 rows t m1 i1 in
    let c2 : covers n q2 ≡ false = ap (over n) same2 ∙ idle_elsewhere n k r2 rows t m2 i2 in
    let first = update-Left n k rows o t now1 q1 [] c1 refl tt in
    rw e (
      update-Left n k _ first.ordered first.taken now2 q2 (key q1 ∷ key q2 ∷ []) c2 (ground arith) (
        adjacent,
        ground (arith, same1, proper_member n k r1 rows o m1),
        ground (arith, same2, proper_member n k r2 rows o m2),
      ))
Act-Left n k v rows rows' _ _ o t s away (Act.begin p u h same g e) =
    let d = other_batch n k rows o t p.batch_number h in
    rw e (append-Left n k rows o t p (ground (arith, d)) (omega arith))
Act-Left n k v rows rows' _ _ o t s away (Act.merge a b q u same g e) =
    let c = merged_elsewhere n a b s away in
    let left = delete-Left n k rows o t (a.0, b.1) [] c refl tt in
    rw e
      (append-Left n k _ left.ordered left.taken q (ap (over n) same ∙ c) (ground (arith, same, s)))
Act-Left n k v rows rows' _ _ o t s away (Act.unlock p now e) =
    rw e (update-Left n k rows o t now p [] (ground arith) refl tt)
Act-Left n k v rows rows' _ _ o t s away (Act.unlock_both p1 p2 now1 now2 e) =
    let first = update-Left n k rows o t now1 p1 [] (ground arith) refl tt in
    rw e (update-Left n k _ first.ordered first.taken now2 p2 [] (ground arith) refl tt)
Act-Left n k v rows rows' _ _ o t s away (Act.remove d _ e) =
    rw e (delete-Left n k rows o t d [] (ground arith) refl tt)
Act-Left n k v rows rows' _ _ o t s away (Act.outdated d h e) =
    rw e (delete-Left n k rows o t d (d ∷ []) (ground arith) away tt)
