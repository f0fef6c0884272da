-- ===== src/Aggregator/Locks/Exclusive.antt =====
-- A locked proof is handed to no other prover.
use zkevm_aggregator.Prelude.{
  ℕ, ◌+◌, ◌≡◌, refl, ap, subst, inl, inr, Bool, false, ◌&&◌, none, some, List, [], ◌∷◌, map, Memᴰ,
  arith, Bool-cases, any, any_of_mem,
}
use zkevm_aggregator.Prelude.Result.{ok}
use zkevm_aggregator.State.{Proof}
use zkevm_aggregator.State.Storage.{
  Db, is_none, same_key, overwrite, update_generated_proof, get_proofs_to_aggregate,
}
use zkevm_aggregator.State.Storage.Select.{AggregateAnswer, get_proofs_to_aggregate_lem}
use zkevm_aggregator.Aggregator.{Env, World}
use zkevm_aggregator.Aggregator.Locks.{get_and_lock_proofs_to_aggregate}
use zkevm_aggregator.Aggregator.Locks.Atomic.{PairLock, get_and_lock_proofs_to_aggregate_atomic}

-- Some row of the key of `q` is idle.
abbrev pub is_free : Proof → List Proof → Bool
is_free q = any (λ x. same_key q x && is_none x.generating_since)

update-is_free_self :
    (now t : ℕ) (p : Proof) (rows : List Proof)
    → p.generating_since ≡ some t
    → is_free p (map (overwrite now p) rows) ≡ false
update-is_free_self now t p [] h = refl
update-is_free_self now t p (x ∷ rows) h = ground (arith, update-is_free_self now t p rows h)

update-is_free :
    (now t : ℕ) (p q : Proof) (rows : List Proof)
    → p.generating_since ≡ some t
    → is_free q rows ≡ false
    → is_free q (map (overwrite now p) rows) ≡ false
update-is_free now t p q [] h f = refl
update-is_free now t p q (x ∷ rows) h f = ground (arith, update-is_free now t p q rows h)

-- An idle row of a table in which `q` is not free has another key.
other_key :
    (q r : Proof) (rows : List Proof)
    → is_free q rows ≡ false
    → Memᴰ r rows
    → r.generating_since ≡ none
    → same_key q r ≡ false
other_key q r rows f m i = elim (Bool-cases (same_key q r)) [
  | inr other ↦ other
  | inl same ↦ cc (f, any_of_mem (λ x. same_key q x && is_none x.generating_since) m (ground arith))
]

locked-is_free :
    (env : Env) (w w' : World) (q1 q2 : Proof)
    → PairLock env w (ok (q1, q2)) w'
    → (is_free q1 w'.db.proofs ≡ false) × (is_free q2 w'.db.proofs ≡ false)
unfolding update_generated_proof
locked-is_free env w w' q1 q2 (_, h1, h2, e) = rw (ap (λ (d : Db). d.proofs) e) (
  update-is_free (env.clock (w.calls + 5)) (env.clock (w.calls + 2)) q2 q1 _ h2
      (update-is_free_self (env.clock (w.calls + 3)) (env.clock (w.calls + 2)) q1 w.db.proofs h1),
  update-is_free_self (env.clock (w.calls + 5)) (env.clock (w.calls + 2)) q2 _ h2,
)

-- When `getAndLockProofsToAggregate` has locked a pair, a pair that the query finds in the tables
-- right after has no row of the key of either.
pub get_and_lock_proofs_to_aggregate_exclusive :
    (env : Env) (w w' : World) (q1 q2 r1 r2 : Proof)
    → get_and_lock_proofs_to_aggregate env w ≡ (ok (q1, q2), w')
    → get_proofs_to_aggregate w'.db ≡ some (r1, r2)
    → (same_key q1 r1 ≡ false)
      × (same_key q1 r2 ≡ false)
      × (same_key q2 r1 ≡ false)
      × (same_key q2 r2 ≡ false)
get_and_lock_proofs_to_aggregate_exclusive env w w' q1 q2 r1 r2 e found =
    let lock : PairLock env w (ok (q1, q2)) w' =
      subst (λ x. PairLock env w x.0 x.1) e (get_and_lock_proofs_to_aggregate_atomic env w) in
    let (f1, f2) = locked-is_free env w w' q1 q2 lock in
    let (m1, m2, pair, _) =
      subst (AggregateAnswer w'.db) found (get_proofs_to_aggregate_lem w'.db) in
    (
      other_key q1 r1 w'.db.proofs f1 m1 pair.idle1,
      other_key q1 r2 w'.db.proofs f1 m2 pair.idle2,
      other_key q2 r1 w'.db.proofs f2 m1 pair.idle1,
      other_key q2 r2 w'.db.proofs f2 m2 pair.idle2,
    )
