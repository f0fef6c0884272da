-- ===== src/Aggregator/Interleaved/Held.antt =====
-- What a goroutine holds, and what the functions that it calls do to the rows.
use zkevm_aggregator.Prelude.{
  ℕ, ◌+◌, ◌<◌, ◌^◌, ◌≡◌, refl, sym, ap, subst, ◌∙◌, inl, inr, Bool, true, false, none, some, List,
  [], ◌∷◌, Option-cases, any,
}
use zkevm_aggregator.Prelude.Result.{ok}
use zkevm_aggregator.State.{Proof}
use zkevm_aggregator.State.Storage.{
  Db, is_none, check_proof_exists_for_batch, covers, update_generated_proof,
  delete_generated_proofs,
}
use zkevm_aggregator.State.Storage.Select.{
  AggregateAnswer, get_proofs_to_aggregate_lem, ReadyAnswer, get_proof_ready_to_verify_lem,
}
use zkevm_aggregator.Aggregator.{Env, World}
use zkevm_aggregator.Aggregator.Locks.{unlocked}
use zkevm_aggregator.Aggregator.Locks.Atomic.{PairLock, PairUnlock, ReadyLock}
use zkevm_aggregator.Aggregator.Settle.Released.{Untouched}
use zkevm_aggregator.Aggregator.Verify.Offered.{Dropped}
use zkevm_aggregator.Aggregator.Aggregate.Covered.{Replaced}
use zkevm_aggregator.Aggregator.BatchProof.Locked.{TakenBatch, add_generated_proof-rows}
use zkevm_aggregator.Aggregator.Interleaved.{
  Pc, idle, aggregating, releasing, proving, discarding, hanging, offering, storing, building,
  sending, settling,
}
use zkevm_aggregator.Aggregator.Interleaved.Rows.{Key, key}
use zkevm_aggregator.Aggregator.Interleaved.Claims.{Act}

-- The keys of the proofs that it has locked.
abbrev pub held : Pc → List Key
held idle = []
held (aggregating p1 p2) = key p1 ∷ key p2 ∷ []
held (releasing p1 p2) = key p1 ∷ key p2 ∷ []
held (proving b w p) = key p ∷ []
held (discarding p) = key p ∷ []
held (hanging p) = key p ∷ []
held (offering p) = key p ∷ []
held (storing p) = key p ∷ []
held (building own p) = key p ∷ []
held (sending own msg) = key msg.recursive_proof ∷ []
held (settling msg) = key msg.recursive_proof ∷ []

-- The proof of one batch is being made, or is to be removed.
abbrev pub unfinished : Pc → Bool
unfinished (proving b w p) = true
unfinished (discarding p) = true
unfinished (hanging p) = true
unfinished _ = false

pub proofs_of : {d e : Db} → d ≡ e → d.proofs ≡ e.proofs
proofs_of h = ap (λ (d : Db). d.proofs) h

pub is_locked :
    (q : Proof) → is_none q.generating_since ≡ false → (t : ℕ) × (q.generating_since ≡ some t)
is_locked q h = elim (Option-cases q.generating_since) [ inl e ↦ cc | inr x ↦ x ]

module _ (n : ℕ) (u : Bool) (w : World) where
  abbrev pub Does : World → List Key → List Key → Type 0
  Does w' = Act n u w.db.proofs w'.db.proofs

  pub PairLock-Act :
      (env : Env) (q1 q2 : Proof) (w' : World)
      → PairLock env w (ok (q1, q2)) w'
      → Does w' [] (key q1 ∷ key q2 ∷ [])
  unfolding update_generated_proof
  PairLock-Act env q1 q2 w' (found, g1, g2, e) =
      let (m1, m2, pair, _) =
        subst (AggregateAnswer w.db) found (get_proofs_to_aggregate_lem w.db) in
      Act.lock_both (record q1 { generating_since = none }) (record q2 { generating_since = none })
        q1 q2 _ _ _ _ m1 m2 refl refl refl refl g1 g2 pair.adjacent (proofs_of e)

  pub ReadyLock-Act :
      (env : Env) (last : ℕ) (q : Proof) (w' : World)
      → last + 1 < 2 ^ 64
      → ReadyLock env last w (ok q) w'
      → Does w' [] (key q ∷ [])
  unfolding update_generated_proof
  ReadyLock-Act env last q w' fits (found, g, e) =
      let (m, _) =
        subst (ReadyAnswer w.db last) found (get_proof_ready_to_verify_lem w.db last fits) in
      Act.lock (record q { generating_since = none }) q _ _ m refl refl g (proofs_of e)

  pub PairUnlock-Act :
      (env : Env) (p1 p2 : Proof) (w' : World)
      → PairUnlock env p1 p2 w (ok tt) w'
      → Does w' (key p1 ∷ key p2 ∷ []) []
  unfolding update_generated_proof
  PairUnlock-Act env p1 p2 w' e = Act.unlock_both (unlocked p1) (unlocked p2) _ _ (proofs_of e)

  pub Replaced-Act :
      (env : Env) (p1 p2 q : Proof) (now : ℕ) (w' : World)
      → Replaced env p1 p2 now w (ok q) w'
      → Does w' (key p1 ∷ key p2 ∷ []) (key q ∷ [])
  unfolding delete_generated_proofs
  Replaced-Act env p1 p2 q now w' (hf, ht, e, l) =
      let (t, g) = is_locked q l in
      Act.merge (key p1) (key p2) (record q { created_at = now; updated_at = now }) t
        (λ i. (hf i, ht i)) g (add_generated_proof-rows now q _ w'.db e)

  pub TakenBatch-Act :
      (env : Env) (b last : ℕ) (p : Proof) (w' : World)
      → TakenBatch env b last p w w'
      → Does w' [] (key p ∷ [])
  unfolding check_proof_exists_for_batch
  TakenBatch-Act env b last p w' taken =
      let number : p.batch_number ≡ b = ap (λ q. q.batch_number) taken.row.1 in
      let final : p.batch_number_final ≡ b = ap (λ q. q.batch_number_final) taken.row.1 in
      let (now, e) = taken.added in
      Act.begin (record p { created_at = now; updated_at = now }) taken.row.0
        (subst (λ m. any (covers m) w.db.proofs ≡ false) (sym number) taken.unproved)
        (final ∙ sym number) (ap (λ q. q.generating_since) taken.row.1) e

  pub Untouched-Act : (p : Proof) (w' : World) → Untouched p w w' → Does w' (key p ∷ []) []
  unfolding update_generated_proof
  Untouched-Act p w' (inl e) = Act.leave (key p ∷ []) (proofs_of e)
  Untouched-Act p w' (inr (now, e)) = Act.unlock (unlocked p) now (proofs_of e)

  pub Dropped-Act : (p : Proof) (w' : World) → Dropped n p w w' → Does w' (key p ∷ []) (key p ∷ [])
  Dropped-Act p w' (inl e) = Act.stay (key p ∷ []) e
  Dropped-Act p w' (inr (below, e)) = Act.outdated (key p) below e
