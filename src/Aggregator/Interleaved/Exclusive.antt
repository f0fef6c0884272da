-- ===== src/Aggregator/Interleaved/Exclusive.antt =====
-- No two goroutines work on one batch, in whatever order they take their steps.
use zkevm_aggregator.Prelude.{
  ℕ, ◌<◌, ◌^◌, ◌≡◌, ◌≢◌, refl, sym, ap, subst, ◌∙◌, ◌⊎◌, inl, inr, Bool, true, false, some, List,
  [], Memᴰ, arith, ◌==◌, Bool-cases,
}
use zkevm_aggregator.Prelude.Result.{Result, ok}
use zkevm_aggregator.State.{Proof}
use zkevm_aggregator.State.Storage.{covers}
use zkevm_aggregator.Ethereum.{Ethereum}
use zkevm_aggregator.Aggregator.{Env, World}
use zkevm_aggregator.Aggregator.Stream.{Datastream}
use zkevm_aggregator.Aggregator.Stream.Rows.{handle-Untouched}
use zkevm_aggregator.Aggregator.Interleaved.{
  Pc, idle, settling, update, System, Step, Reach, goes_on, begins,
}
use zkevm_aggregator.Aggregator.Interleaved.Rows.{Key, key}
use zkevm_aggregator.Aggregator.Interleaved.Claims.{
  works_on, strays, Shape, Act, IsOrdered, IsTaken, key_of_member,
}
use zkevm_aggregator.Aggregator.Interleaved.Owner.{Own, Act-Own}
use zkevm_aggregator.Aggregator.Interleaved.Bystander.{Left, Act-Left}
use zkevm_aggregator.Aggregator.Interleaved.Held.{held, unfinished}
use zkevm_aggregator.Aggregator.Interleaved.Acts.{Leads, goes_on-Leads, begins-Leads}

-- What holds of the goroutine that takes a step and of every other one holds of all after it.
pub on_update :
    (P : ℕ → Pc → Type 0) (doing : ℕ → Pc) (i : ℕ) (pc : Pc)
    → P i pc
    → ((j : ℕ) → j ≢ i → P j (doing j))
    → (j : ℕ) → P j (update doing i pc j)
on_update P doing i pc h others j = elim (Bool-cases (j == i)) [
  | inl e ↦ let same : i ≡ j = ground arith in rw e (subst (λ m. P m pc) same h)
  | inr e ↦ rw e (others j (λ same. absurd (ground (arith, same))))
]

update_self : (doing : ℕ → Pc) (i : ℕ) (pc : Pc) → update doing i pc i ≡ pc
update_self doing i pc = ground arith

update_other : (doing : ℕ → Pc) (i j : ℕ) (pc : Pc) → j ≢ i → update doing i pc j ≡ doing j
update_other doing i j pc h = ground (arith, h)

module _ (n : ℕ) where
  abbrev AwayAt : Pc → Type 0
  AwayAt pc = works_on n (held pc) ≡ false

  -- Nobody works on the batch, or one goroutine alone does, and has its row locked.
  abbrev Holder : Key → List Proof → (ℕ → Pc) → Type 0
  Holder k rows doing =
      ((i : ℕ) → AwayAt (doing i))
      ⊎ ((i : ℕ) × IsTaken n rows
          × (strays n k (held (doing i)) ≡ false)
          × ((j : ℕ) → j ≢ i → AwayAt (doing j)))

  record IsSafe (rows : List Proof) (doing : ℕ → Pc) : Type 0 where
    k : Key
    ordered : IsOrdered n k rows
    shape : (i : ℕ) → Shape (held (doing i))
    holder : Holder k rows doing

  -- The one that takes the step may come to hold the batch, where all others are away.
  Own-IsSafe :
      (rows' : List Proof) (doing : ℕ → Pc) (i : ℕ) (pc : Pc)
      → ((j : ℕ) → Shape (held (doing j)))
      → ((j : ℕ) → j ≢ i → AwayAt (doing j))
      → Own n rows' (held pc)
      → IsSafe rows' (update doing i pc)
  Own-IsSafe rows' doing i pc shapes away own = record {
    k = own.k;
    ordered = own.ordered;
    shape = on_update (λ _ q. Shape (held q)) doing i pc own.shape (λ j _. shapes j);
    holder = elim own.claim [
      | inl off ↦ inl (on_update (λ _. AwayAt) doing i pc off away)
      | inr (taken, kept) ↦ inr (
        i,
        taken,
        subst (λ q. strays n own.k (held q) ≡ false) (sym (update_self doing i pc)) kept,
        λ j h. subst AwayAt (sym (update_other doing i j pc h)) (away j h),
      )
    ];
  }

  Left-IsSafe :
      (k : Key) (rows' : List Proof) (doing : ℕ → Pc) (h i : ℕ) (pc : Pc)
      → h ≢ i
      → ((j : ℕ) → Shape (held (doing j)))
      → strays n k (held (doing h)) ≡ false
      → ((j : ℕ) → j ≢ h → AwayAt (doing j))
      → Left n k rows' (held pc)
      → IsSafe rows' (update doing i pc)
  Left-IsSafe k rows' doing h i pc apart shapes kept away left = record {
    k = k;
    ordered = left.ordered;
    shape = on_update (λ _ q. Shape (held q)) doing i pc left.shape (λ j _. shapes j);
    holder = inr (
      h,
      left.taken,
      subst (λ q. strays n k (held q) ≡ false) (sym (update_other doing i h pc apart)) kept,
      on_update (λ j q. j ≢ h → AwayAt q) doing i pc (λ _. left.away) (λ j _. away j),
    );
  }

  Act-IsSafe :
      (u : Bool) (rows rows' : List Proof) (doing : ℕ → Pc) (i : ℕ) (pc : Pc)
      → IsSafe rows doing
      → Act n u rows rows' (held (doing i)) (held pc)
      → IsSafe rows' (update doing i pc)
  Act-IsSafe u rows rows' doing i pc s act = elim s.holder [
    | inl off ↦
        Own-IsSafe rows' doing i pc s.shape (λ j _. off j)
          (Act-Own n s.k u rows rows' _ _ s.ordered (inl (off i)) (s.shape i) act)
    | inr (h, taken, kept, away) ↦ elim (Bool-cases (h == i)) [
      | inl e ↦
          let same : h ≡ i = ground arith in
          Own-IsSafe rows' doing i pc s.shape (λ j g. away j (λ q. g (q ∙ same)))
            (Act-Own n s.k u rows rows' _ _ s.ordered
              (inr (taken, subst (λ m. strays n s.k (held (doing m)) ≡ false) same kept))
              (s.shape i) act)
      | inr e ↦
          let apart : h ≢ i = (λ q. absurd (ground (arith, q))) in
          Left-IsSafe s.k rows' doing h i pc apart s.shape kept away (
            Act-Left n s.k u rows rows' _ _ s.ordered taken (s.shape i)
              (away i (λ q. apart (sym q))) act)
    ]
  ]

  Leads-IsSafe :
      (u : Bool) (w w' : World) (doing : ℕ → Pc) (i : ℕ) (pc : Pc) (r : Result _ Pc × World)
      → IsSafe w.db.proofs doing
      → Leads n u w (held (doing i)) r.0 r.1
      → r ≡ (ok pc, w')
      → IsSafe w'.db.proofs (update doing i pc)
  Leads-IsSafe u w w' doing i pc r s h e =
      Act-IsSafe u w.db.proofs w'.db.proofs doing i pc s
        (subst (λ q. Leads n u w (held (doing i)) q.0 q.1) e h)

  -- What is held passes from one goroutine to another.
  module _ (rows : List Proof) (doing : ℕ → Pc) (i : ℕ) (pc : Pc) (empty : held (doing 0) ≡ [])
      (same : held pc ≡ held (doing i)) where
    passed : ℕ → Pc
    passed = update (update doing i idle) 0 pc

    away_of_giver : AwayAt (doing i) → AwayAt pc
    away_of_giver = subst (λ ks. works_on n ks ≡ false) (sym same)

    pass_off : ((j : ℕ) → AwayAt (doing j)) → (j : ℕ) → AwayAt (passed j)
    unfolding passed
    pass_off off =
        on_update (λ _. AwayAt) (update doing i idle) 0 pc (away_of_giver (off i))
          (λ j _. on_update (λ _. AwayAt) doing i idle refl (λ m _. off m) j)

    pass_giver : ((j : ℕ) → j ≢ i → AwayAt (doing j)) → (j : ℕ) → j ≢ 0 → AwayAt (passed j)
    unfolding passed
    pass_giver away =
        on_update (λ j q. j ≢ 0 → AwayAt q) (update doing i idle) 0 pc (λ g. absurd (g refl))
          (λ j _ _. on_update (λ _. AwayAt) doing i idle refl away j)

    pass_other :
        (h : ℕ)
        → AwayAt (doing i)
        → ((j : ℕ) → j ≢ h → AwayAt (doing j))
        → (j : ℕ) → j ≢ h
        → AwayAt (passed j)
    unfolding passed
    pass_other h there away =
        on_update (λ j q. j ≢ h → AwayAt q) (update doing i idle) 0 pc (λ _. away_of_giver there)
          (λ j _. on_update (λ j q. j ≢ h → AwayAt q) doing i idle (λ _. refl) (λ m _. away m) j)

    pass_kept : (h : ℕ) → h ≢ i → h ≢ 0 → passed h ≡ doing h
    unfolding passed
    pass_kept h a b = update_other (update doing i idle) 0 h pc b ∙ update_other doing i h idle a

    pass-Holder : (k : Key) → Holder k rows doing → Holder k rows passed
    pass-Holder k (inl off) = inl (pass_off off)
    pass-Holder k (inr (h, taken, kept, away)) = elim (Bool-cases (h == i)) [
      | inl e ↦
          let at : h ≡ i = ground arith in
          inr (
            0,
            taken,
            unfold passed in
                subst (λ ks. strays n k ks ≡ false) (sym same)
                  (subst (λ m. strays n k (held (doing m)) ≡ false) at kept),
            pass_giver (λ j g. away j (λ q. g (q ∙ at))),
          )
      | inr e ↦
          let apart : h ≢ i = (λ q. absurd (ground (arith, q))) in
          let there = away i (λ q. apart (sym q)) in
          elim (Bool-cases (h == 0)) [
            | inl z ↦ inl (
                pass_off (λ j. elim (Bool-cases (j == 0)) [
                  | inl f ↦
                      let at : 0 ≡ j = ground arith in
                      subst (λ m. AwayAt (doing m)) at
                        (subst (λ ks. works_on n ks ≡ false) (sym empty) refl)
                  | inr f ↦ away j (λ q. absurd (ground (arith, q)))
                ]))
            | inr z ↦
                let busy : h ≢ 0 = (λ q. absurd (ground (arith, q))) in
                inr (
                  h,
                  taken,
                  subst (λ q. strays n k (held q) ≡ false) (sym (pass_kept h apart busy)) kept,
                  pass_other h there away,
                )
          ]
    ]

    pass-IsSafe : IsSafe rows doing → IsSafe rows passed
    unfolding passed
    pass-IsSafe s = record {
      k = s.k;
      ordered = s.ordered;
      shape =
          on_update (λ _ q. Shape (held q)) (update doing i idle) 0 pc
            (subst Shape (sym same) (s.shape i))
            (λ j _. on_update (λ _ q. Shape (held q)) doing i idle tt (λ m _. s.shape m) j);
      holder = unfold passed in pass-Holder s.k s.holder;
    }

module _ (env : ℕ → Env) (eth : Ethereum) (ds : Datastream) (n : ℕ)
    (above : (i k v : ℕ) → (env i).latest_verified_batch k ≡ some v → v < n)
    (fits : n < 2 ^ 64) where
  Step-IsSafe :
      {s t : System}
      → Step env eth ds s t
      → IsSafe n s.world.db.proofs s.doing
      → IsSafe n t.world.db.proofs t.doing
  Step-IsSafe {s} (Step.goes i pc w e) h =
      Leads-IsSafe n (unfinished (s.doing i)) s.world w s.doing i pc
        (goes_on (env i) eth (s.doing i) s.world) h
        (goes_on-Leads (env i) n (above i) fits _ eth (s.doing i) s.world refl) e
  Step-IsSafe {s} (Step.starts i c pc w _ free e) h =
      Leads-IsSafe n false s.world w s.doing i pc (begins (env i) c s.world) h
        (subst
          (λ q.
            Leads n false s.world (held q) (begins (env i) c s.world).0
              (begins (env i) c s.world).1)
          (sym free) (begins-Leads (env i) n (above i) fits false c s.world))
        e
  Step-IsSafe {s} (Step.hands_over i own msg e free) h =
      unfold passed in
      pass-IsSafe n s.world.db.proofs s.doing i (settling msg) (ap held free) (sym (ap held e)) h
  Step-IsSafe {s} (Step.receives rounds entry st) h =
      subst (λ rows. IsSafe n rows s.doing)
        (sym ((handle-Untouched (env 0) eth ds rounds entry).run st s.world)) h

  Reach-IsSafe :
      {s t : System}
      → IsSafe n s.world.db.proofs s.doing
      → Reach env eth ds s t
      → IsSafe n t.world.db.proofs t.doing
  Reach-IsSafe h Reach.here = h
  Reach-IsSafe h (Reach.later r step) = Step-IsSafe step (Reach-IsSafe h r)

-- At most one goroutine works on the batch; while one does, the batch has a row and all its rows are
-- locked; and all its rows have one range.
pub record IsExclusive (n : ℕ) (t : System) : Type 0 where
  pub alone :
      (i j : ℕ)
      → works_on n (held (t.doing i)) ≡ true
      → works_on n (held (t.doing j)) ≡ true
      → i ≡ j
  pub taken : (i : ℕ) → works_on n (held (t.doing i)) ≡ true → IsTaken n t.world.db.proofs
  pub one_range :
      (p q : Proof)
      → Memᴰ p t.world.db.proofs
      → Memᴰ q t.world.db.proofs
      → covers n p ≡ true
      → covers n q ≡ true
      → key p ≡ key q

only_holder :
    (n h i : ℕ) (doing : ℕ → Pc)
    → ((j : ℕ) → j ≢ h → works_on n (held (doing j)) ≡ false)
    → works_on n (held (doing i)) ≡ true
    → i ≡ h
only_holder n h i doing away busy = elim (Bool-cases (i == h)) [
  | inl e ↦ ground arith
  | inr e ↦ cc (away i (λ q. absurd (ground (arith, q))), busy)
]

IsSafe-IsExclusive : (n : ℕ) (t : System) → IsSafe n t.world.db.proofs t.doing → IsExclusive n t
IsSafe-IsExclusive n t s = record {
  alone = λ i j bi bj. elim s.holder [
    | inl off ↦ cc (off i, bi)
    | inr (h, _, _, away) ↦
        only_holder n h i t.doing away bi ∙ sym (only_holder n h j t.doing away bj)
  ];
  taken = λ i b. elim s.holder [ inl off ↦ cc (off i, b) | inr (h, taken, _, _) ↦ taken ];
  one_range = λ p q mp mq cp cq.
      key_of_member n s.k p _ s.ordered mp cp ∙ sym (key_of_member n s.k q _ s.ordered mq cq);
}

-- However the goroutines of the provers, the sender of final proofs and the stream interleave their
-- steps, and wherever the database, L1 and the provers fail, no two of them ever work on one batch:
-- while one does, the batch has rows and all of them are locked; and all rows over the batch have
-- one range. It starts with all goroutines idle and with the rows over the batch of one range and no
-- row of an empty range. The batch is below 2^64 and above every number that L1 answers for the last
-- verified one.
pub reach-IsExclusive :
    (env : ℕ → Env) (eth : Ethereum) (ds : Datastream) (n : ℕ) (k : Key) (s t : System)
    → ((i j v : ℕ) → (env i).latest_verified_batch j ≡ some v → v < n)
    → n < 2 ^ 64
    → ((i : ℕ) → s.doing i ≡ idle)
    → IsOrdered n k s.world.db.proofs
    → Reach env eth ds s t
    → IsExclusive n t
reach-IsExclusive env eth ds n k s t above fits free ordered r =
    IsSafe-IsExclusive n t (Reach-IsSafe env eth ds n above fits start r)
  where
    start : IsSafe n s.world.db.proofs s.doing
    start = record {
      k = k;
      ordered = ordered;
      shape = λ i. subst (λ q. Shape (held q)) (sym (free i)) tt;
      holder = inl (λ i. subst (λ q. works_on n (held q) ≡ false) (sym (free i)) refl);
    }
