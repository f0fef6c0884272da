-- ===== src/Aggregator/Interleaved/Kept.antt =====
-- No finished proof is lost, in whatever order the goroutines take their steps.
use zkevm_aggregator.Prelude.{
  ℕ, ◌<◌, ◌^◌, ◌≡◌, refl, sym, ap, subst, ◌∙◌, inl, inr, Bool, true, false, Option, none, some,
  List, [], ◌∷◌, ◌++◌, arith, ◌==◌, Bool-cases, any, any-append,
}
use zkevm_aggregator.Prelude.Result.{Result, ok, err, panic}
use zkevm_aggregator.State.{Bytes, Batch, Proof}
use zkevm_aggregator.State.Storage.{covers, check_proof_exists_for_batch}
use zkevm_aggregator.Ethereum.{Ethereum}
use zkevm_aggregator.Aggregator.{
  Env, World, FinalProof, FinalProofMsg, hangs, attempt, Try, done, failed, tried, continue, Err,
}
use zkevm_aggregator.Aggregator.Post.{Meets}
use zkevm_aggregator.Aggregator.Locks.{get_and_lock_proofs_to_aggregate}
use zkevm_aggregator.Aggregator.Verify.{can_verify_proof}
use zkevm_aggregator.Aggregator.Yields.{Yields, Yields-bind, Yields-pure}
use zkevm_aggregator.Aggregator.Stream.{Datastream}
use zkevm_aggregator.Aggregator.Stream.Rows.{handle-Untouched}
use zkevm_aggregator.Aggregator.BatchProof.Locked.{
  Taken, check_of_rows, get_and_lock_batch_to_prove-Taken,
}
use zkevm_aggregator.Aggregator.Interleaved.{
  Pc, idle, aggregating, releasing, proving, discarding, hanging, offering, storing, building,
  sending, settling, Choice, aggregate, verify, prove, after_pair, after_ready, after_take,
  lock_ready, if_can_verify, begins, after_aggregate, after_prove, after_validate, validate,
  if_can_offer, after_build, build, give_up, goes_on, update, System, Step, Reach,
}
use zkevm_aggregator.Aggregator.Interleaved.Rows.{Key, key, over-update, over-delete_other}
use zkevm_aggregator.Aggregator.Interleaved.Claims.{over, works_on, Act, without}
use zkevm_aggregator.Aggregator.Interleaved.Held.{held, unfinished}
use zkevm_aggregator.Aggregator.Interleaved.Acts.{Leads, goes_on-Leads, begins-Leads}
use zkevm_aggregator.Aggregator.Interleaved.Exclusive.{on_update}

present_after :
    (n : ℕ) (k : Key) (rows : List Proof) (q : Proof)
    → key q ≡ k
    → any (covers n) rows ≡ true
    → any (covers n) (without k rows ++ (q ∷ [])) ≡ true
present_after n k rows q same h = elim (Bool-cases (over n k)) [
  | inl c ↦
      let new : covers n q ≡ true = ap (over n) same ∙ c in
      any-append (covers n) (without k rows) (q ∷ []) ∙ ground (arith, new)
  | inr c ↦
      any-append (covers n) (without k rows) (q ∷ [])
      ∙ ground (arith, over-delete_other n k.0 k.1 rows c)
]

-- A batch that has a row keeps one, where no unfinished proof over it is removed.
Act-present :
    (n : ℕ) (u : Bool) (rows rows' : List Proof) (ks ks' : List Key)
    → (u ≡ true → works_on n ks ≡ false)
    → any (covers n) rows ≡ true
    → Act n u rows rows' ks ks'
    → any (covers n) rows' ≡ true
Act-present n u rows rows' ks _ away h (Act.stay _ e) = rw e h
Act-present n u rows rows' ks _ away h (Act.leave _ e) = rw e h
Act-present n u rows rows' _ _ away h (Act.lock r q now t m i same g e) =
    rw e (over-update n now q rows ∙ h)
Act-present n u rows rows' _ _ away h
      (Act.lock_both r1 r2 q1 q2 now1 now2 t1 t2 m1 m2 i1 i2 same1 same2 g1 g2 adj e) =
    rw e (over-update n now2 q2 _ ∙ over-update n now1 q1 rows ∙ h)
Act-present n u rows rows' _ _ away h (Act.begin p t absent same g e) =
    rw e (any-append (covers n) rows (p ∷ []) ∙ ground (arith, h))
Act-present n u rows rows' _ _ away h (Act.merge a b q t same g e) =
    rw e (present_after n (a.0, b.1) rows q same h)
Act-present n u rows rows' _ _ away h (Act.unlock p now e) = rw e (over-update n now p rows ∙ h)
Act-present n u rows rows' _ _ away h (Act.unlock_both p1 p2 now1 now2 e) =
    rw e (over-update n now2 p2 _ ∙ over-update n now1 p1 rows ∙ h)
Act-present n u rows rows' _ _ away h (Act.remove d doomed e) =
    let off = away doomed in rw e (over-delete_other n d.0 d.1 rows (ground (arith, off)) ∙ h)
Act-present n u rows rows' _ _ away h (Act.outdated d below e) =
    rw e (over-delete_other n d.0 d.1 rows (ground (arith, below)) ∙ h)

-- An unfinished proof comes of an unfinished one with the same range.
abbrev OfUnfinished : Pc → Pc → Type 0
OfUnfinished pc q = unfinished q ≡ true → (unfinished pc ≡ true) × (held q ≡ held pc)

OfUnfinished-finished : (pc q : Pc) → unfinished q ≡ false → OfUnfinished pc q
OfUnfinished-finished pc q h f = cc

module _ (env : Env) (eth : Ethereum) where
  after_aggregate-Yields :
      (pc : Pc) (p1 p2 : Proof) (r : Try Proof)
      → Yields (OfUnfinished pc) (after_aggregate env p1 p2 r)
  after_aggregate-Yields pc p1 p2 (done q) = Yields-pure _ _ (λ f. cc)
  after_aggregate-Yields pc p1 p2 (failed e) = Yields-pure _ _ (λ f. cc)

  failed_prove-Yields :
      (b : Batch) (wit : Bytes) (p : Proof) (e : Err)
      → Yields (OfUnfinished (proving b wit p)) (after_prove env p (failed e))
  failed_prove-Yields b wit p hangs = Yields-pure _ _ (λ f. (refl, refl))
  failed_prove-Yields b wit p e = Yields-pure _ _ (λ f. (refl, refl))

  after_prove-Yields :
      (b : Batch) (wit : Bytes) (p : Proof) (r : Try Proof)
      → Yields (OfUnfinished (proving b wit p)) (after_prove env p r)
  after_prove-Yields b wit p (done q) = Yields-pure _ _ (λ f. cc)
  after_prove-Yields b wit p (failed e) = failed_prove-Yields b wit p e

  after_validate-Yields :
      (pc : Pc) (p : Proof) (r : Try Bool) → Yields (OfUnfinished pc) (after_validate env p r)
  after_validate-Yields pc p (done true) = Yields-pure _ _ (λ f. cc)
  after_validate-Yields pc p (done false) = Yields-pure _ _ (λ f. cc)
  after_validate-Yields pc p (failed e) = Yields-pure _ _ (λ f. cc)

  validate-Yields : (pc : Pc) (p : Proof) (r : Try ℕ) → Yields (OfUnfinished pc) (validate env p r)
  validate-Yields pc p (done v) = Yields-bind _ _ _ (after_validate-Yields pc p)
  validate-Yields pc p (failed e) = Yields-pure _ _ (λ f. cc)

  if_can_offer-Yields :
      (pc : Pc) (p : Proof) (can : Bool) → Yields (OfUnfinished pc) (if_can_offer env p can)
  if_can_offer-Yields pc p true = Yields-bind _ _ _ (validate-Yields pc p)
  if_can_offer-Yields pc p false = Yields-pure _ _ (λ f. cc)

  after_build-Yields :
      (pc : Pc) (own : Bool) (r : Proof × Try FinalProof)
      → Yields (OfUnfinished pc) (after_build env own r)
  after_build-Yields pc own (p, done f) = Yields-pure _ _ (λ f. cc)
  after_build-Yields pc own (p, failed e) = Yields-pure _ _ (λ f. cc)

  build-Yields :
      (pc : Pc) (own : Bool) (p : Proof) (id : Option Bytes)
      → Yields (OfUnfinished pc) (build env own p id)
  build-Yields pc own p none = record { run = λ w w' a e. absurd (cc) }
  build-Yields pc own p (some id) = Yields-bind _ _ _ (after_build-Yields pc own)

  give_up-Yields :
      (pc : Pc) (own : Bool) (msg : FinalProofMsg) → Yields (OfUnfinished pc) (give_up env own msg)
  give_up-Yields pc true msg = Yields-pure _ _ (λ f. cc)
  give_up-Yields pc false msg = Yields-pure _ _ (λ f. cc)

  goes_on-Yields : (pc : Pc) → Yields (OfUnfinished pc) (goes_on env eth pc)
  unfolding goes_on
  goes_on-Yields idle = Yields-pure _ _ (λ f. cc)
  goes_on-Yields (aggregating p1 p2) =
      Yields-bind _ _ _ (after_aggregate-Yields (aggregating p1 p2) p1 p2)
  goes_on-Yields (releasing p1 p2) = Yields-bind _ _ _ (λ _. Yields-pure _ _ (λ f. cc))
  goes_on-Yields (proving b wit p) = Yields-bind _ _ _ (after_prove-Yields b wit p)
  goes_on-Yields (discarding p) = Yields-bind _ _ _ (λ _. Yields-pure _ _ (λ f. cc))
  goes_on-Yields (hanging p) = Yields-pure _ _ (λ f. (refl, refl))
  goes_on-Yields (offering p) = Yields-bind _ _ _ (if_can_offer-Yields (offering p) p)
  goes_on-Yields (storing p) = Yields-bind _ _ _ (λ _. Yields-pure _ _ (λ f. cc))
  goes_on-Yields (building own p) = build-Yields (building own p) own p p.proof_id
  goes_on-Yields (sending own msg) = give_up-Yields (sending own msg) own msg
  goes_on-Yields (settling msg) = Yields-bind _ _ _ (λ _. Yields-pure _ _ (λ f. cc))

module _ (env : Env) (n : ℕ) where
  -- An unfinished proof is not over the batch.
  abbrev ElsewhereAt : Pc → Type 0
  ElsewhereAt q = unfinished q ≡ true → works_on n (held q) ≡ false

  after_ready-Yields : (r : Try Proof) → Yields ElsewhereAt (after_ready env r)
  after_ready-Yields (done p) = Yields-pure _ _ (λ f. cc)
  after_ready-Yields (failed e) = Yields-pure _ _ (λ f. cc)

  lock_ready-Yields : (r : Try ℕ) → Yields ElsewhereAt (lock_ready env r)
  lock_ready-Yields (done v) = Yields-bind _ _ _ after_ready-Yields
  lock_ready-Yields (failed e) = Yields-pure _ _ (λ f. cc)

  if_can_verify-Yields : (can : Bool) → Yields ElsewhereAt (if_can_verify env can)
  if_can_verify-Yields true = Yields-bind _ _ _ lock_ready-Yields
  if_can_verify-Yields false = Yields-pure _ _ (λ f. cc)

  after_pair-Yields : (r : Try (Proof × Proof)) → Yields ElsewhereAt (after_pair env r)
  after_pair-Yields (done (p1, p2)) = Yields-pure _ _ (λ f. cc)
  after_pair-Yields (failed e) = Yields-pure _ _ (λ f. cc)

  -- The batch that is taken has no row.
  Taken-elsewhere :
      (w w1 w' : World) (r : Result Err (Option (Batch × Bytes × Proof))) (pc : Pc)
      → check_proof_exists_for_batch n w.db ≡ true
      → Meets (Taken env w) (λ e w'. w'.db.proofs ≡ w.db.proofs) r w1
      → continue (after_take env) (tried r) w1 ≡ (ok pc, w')
      → ElsewhereAt pc
  Taken-elsewhere w w1 w' (ok none) pc h m e = absurd (cc)
  Taken-elsewhere w w1 w' (ok (some (b, wit, p))) pc h (last, _, t) e =
      (Yields-pure ElsewhereAt (proving b wit p) (λ _. away)).run w1 w' pc e
    where
      away : works_on n (key p ∷ []) ≡ false
      away = elim (Bool-cases (n == b.batch_number)) [
        | inl same ↦
            let at : n ≡ b.batch_number = ground arith in
            let has = subst (λ m. check_proof_exists_for_batch m w.db ≡ true) at h in
            cc (has, t.unproved)
        | inr other ↦
            ground (arith, ap (λ q. q.batch_number) t.row.1, ap (λ q. q.batch_number_final) t.row.1)
      ]
  Taken-elsewhere w w1 w' (err x) pc h m e = (Yields-pure ElsewhereAt idle (λ f. cc)).run w1 w' pc e
  Taken-elsewhere w w1 w' panic pc h m e = absurd (cc)

  begins-Elsewhere :
      (c : Choice) (w w' : World) (pc : Pc)
      → check_proof_exists_for_batch n w.db ≡ true
      → begins env c w ≡ (ok pc, w')
      → ElsewhereAt pc
  unfolding begins
  begins-Elsewhere aggregate w w' pc h =
      (Yields-bind ElsewhereAt (attempt (get_and_lock_proofs_to_aggregate env)) (after_pair env)
          after_pair-Yields).run
        w w' pc
  begins-Elsewhere verify w w' pc h =
      (Yields-bind ElsewhereAt (can_verify_proof env) (if_can_verify env) if_can_verify-Yields).run
        w w' pc
  begins-Elsewhere prove w w' pc h =
      Taken-elsewhere w _ w' _ pc h (get_and_lock_batch_to_prove-Taken env w).meets

-- The batch has a row, and no unfinished proof is over it.
pub record IsProved (n : ℕ) (t : System) : Type 0 where
  pub exists : check_proof_exists_for_batch n t.world.db ≡ true
  pub elsewhere : (i : ℕ) → unfinished (t.doing i) ≡ true → works_on n (held (t.doing i)) ≡ false

module _ (env : ℕ → Env) (eth : Ethereum) (ds : Datastream) (n : ℕ)
    (above : (i k v : ℕ) → (env i).latest_verified_batch k ≡ some v → v < n)
    (fits : n < 2 ^ 64) where
  exists_after :
      (u : Bool) (w w' : World) (ks : List Key) (pc : Pc) (r : Result Err Pc × World)
      → (u ≡ true → works_on n ks ≡ false)
      → check_proof_exists_for_batch n w.db ≡ true
      → Leads n u w ks r.0 r.1
      → r ≡ (ok pc, w')
      → check_proof_exists_for_batch n w'.db ≡ true
  unfolding check_proof_exists_for_batch
  exists_after u w w' ks pc r away h leads e =
      Act-present n u w.db.proofs w'.db.proofs ks (held pc) away h
        (subst (λ q. Leads n u w ks q.0 q.1) e leads)

  Step-IsProved : {s t : System} → Step env eth ds s t → IsProved n s → IsProved n t
  Step-IsProved {s} (Step.goes i pc w e) h = record {
    exists =
        exists_after (unfinished (s.doing i)) s.world w (held (s.doing i)) pc _ (h.elsewhere i)
          h.exists (goes_on-Leads (env i) n (above i) fits _ eth (s.doing i) s.world refl) e;
    elsewhere =
        on_update (λ _. ElsewhereAt (env i) n) s.doing i pc
          (λ f.
            let (was, same) = (goes_on-Yields (env i) eth (s.doing i)).run s.world w pc e f in
            subst (λ ks. works_on n ks ≡ false) (sym same) (h.elsewhere i was))
          (λ j _. h.elsewhere j);
  }
  Step-IsProved {s} (Step.starts i c pc w _ free e) h = record {
    exists =
        exists_after false s.world w [] pc _ (λ f. cc) h.exists
          (begins-Leads (env i) n (above i) fits false c s.world) e;
    elsewhere =
        on_update (λ _. ElsewhereAt (env i) n) s.doing i pc
          (begins-Elsewhere (env i) n c s.world w pc h.exists e) (λ j _. h.elsewhere j);
  }
  Step-IsProved {s} (Step.hands_over i own msg e free) h = record {
    exists = h.exists;
    elsewhere =
        on_update (λ _. ElsewhereAt (env i) n) (update s.doing i idle) 0 (settling msg) (λ f. cc)
          (λ j _.
            on_update (λ _. ElsewhereAt (env i) n) s.doing i idle (λ f. cc) (λ m _. h.elsewhere m)
              j);
  }
  Step-IsProved {s} (Step.receives rounds entry st) h = record {
    exists =
        check_of_rows n s.world.db _ ((handle-Untouched (env 0) eth ds rounds entry).run st s.world)
        ∙ h.exists;
    elsewhere = h.elsewhere;
  }

  -- However the goroutines interleave their steps, and wherever the database, L1 and the provers fail, a
  -- batch with a proof that is not in the making keeps a proof, and no goroutine comes to make one
  -- for it or to remove it as failed. The batch is below 2^64 and above every number that L1 answers for
  -- the last verified one.
  pub reach-IsProved : {s t : System} → IsProved n s → Reach env eth ds s t → IsProved n t
  reach-IsProved h Reach.here = h
  reach-IsProved h (Reach.later r step) = Step-IsProved step (reach-IsProved h r)
