-- ===== src/Aggregator/BatchProof/Proofs.antt =====
-- `buildInputProver`: each block's L1 data carries a Merkle proof against the batch's root.
use zkevm_aggregator.Prelude.{
  ℕ, ◌+◌, ◌<◌, ◌≤◌, ◌^◌, ◌≡◌, ◌≢◌, refl, sym, ◌∙◌, subst, true, ◌||◌, List, [], ◌∷◌, ◌++◌, Memᴰ,
  ◌==◌, length, get_or, any-append, arith, Bool-cases, inl, inr,
}
use zkevm_aggregator.State.{Bytes}
use zkevm_aggregator.L1InfoTree.{zero_leaf}
use zkevm_aggregator.L1InfoTree.MerkleProof.{climb, compute_merkle_proof-climb}
use zkevm_aggregator.Synchronizer.{L1InfoTreeLeaf}
use zkevm_aggregator.Prover.Input.{L1Data}
use zkevm_aggregator.Aggregator.{Err, eth_failure, Env, World, pure, or_throw, ◌>>=◌, ◌>>◌}
use zkevm_aggregator.Aggregator.Calls.{ask}
use zkevm_aggregator.Aggregator.Verify.{byte_eq}
use zkevm_aggregator.Aggregator.Post.{Post, Post-bind, Post-or_throw, Post-weaken, Post-if}
use zkevm_aggregator.Aggregator.BatchProof.Input.{
  check_root, contained, l1_data, entry_for, entries_for,
}

byte_eq_lem : (xs ys : Bytes) → byte_eq xs ys ≡ true → xs ≡ ys
unfolding byte_eq
byte_eq_lem [] [] h = refl
byte_eq_lem [] (y ∷ ys) h = cc
byte_eq_lem (x ∷ xs) [] h = cc
byte_eq_lem (x ∷ xs) (y ∷ ys) h = ground (arith, byte_eq_lem xs ys)

module _ (env : Env) (height : ℕ) (root : Bytes) (leaves : List Bytes) where
  -- One sibling per level, which lead from the index's leaf to the root.
  pub record IsProof (i : ℕ) (d : L1Data) : Type 0 where
    pub levels : length d.smt_proof ≡ height
    pub leads : climb env.keccak (get_or leaves i zero_leaf) i d.smt_proof ≡ root

  abbrev pub Proved : ℕ × L1Data → Type 0
  Proved e = IsProof e.0 e.1

  abbrev Anything : Err → World → Type 0
  Anything e w = Unit

  checked :
      (i : ℕ) (leaf : L1InfoTreeLeaf) (siblings : List Bytes) (computed : Bytes) (w : World)
      → length siblings ≡ height
      → climb env.keccak (get_or leaves i zero_leaf) i siblings ≡ computed
      → Post
          (λ e _. (e.0 ≡ i) × Proved e)
          Anything
          (check_root env root computed >> pure (i, l1_data env leaf siblings))
          w
  unfolding check_root
  checked i leaf siblings computed w levels leads = elim (Bool-cases (byte_eq root computed)) [
    | inl e ↦ record {
      meets =
          rw e
            (refl, record { levels = levels; leads = leads ∙ sym (byte_eq_lem root computed e) });
    }
    | inr e ↦ record { meets = rw e tt }
  ]

  entry_for-Proved :
      (i : ℕ) (w : World)
      → 0 < height
      → length leaves ≤ 2 ^ height
      → length leaves + 1 < 2 ^ 32
      → i < 2 ^ height
      → Post (λ e _. (e.0 ≡ i) × Proved e) Anything (entry_for env height root leaves i) w
  unfolding entry_for
  entry_for-Proved i w positive fits few small =
      let (siblings, e, levels, leads) =
        compute_merkle_proof-climb env.keccak height i leaves positive fits few small in
      Post-bind Anything (λ _ _. Unit) _
        (ask env (λ k. env.l1.l1_info_tree_leaf k i) >>= or_throw eth_failure) _ w
        (Post-bind Anything (λ _ _. Unit) _ (ask env (λ k. env.l1.l1_info_tree_leaf k i)) _ w
          (record { meets = tt })
          (λ o w1 _. Post-or_throw Anything _ eth_failure o w1 (λ _. tt) (λ _ _. tt)))
        (λ leaf w1 _. record { meets = rw e (checked i leaf siblings _ w1 levels leads).meets })

  -- Every entry has a proof.
  abbrev pub AllProved : List (ℕ × L1Data) → Type 0
  AllProved entries = (e : ℕ × L1Data) → Memᴰ e entries → Proved e

  -- Every index other than 0 has an entry.
  abbrev pub Has : List ℕ → List (ℕ × L1Data) → Type 0
  Has is entries = (i : ℕ) → Memᴰ i is → i ≢ 0 → contained i entries ≡ true

  snoc-AllProved :
      (entries : List (ℕ × L1Data)) (e : ℕ × L1Data)
      → AllProved entries
      → Proved e
      → AllProved (entries ++ (e ∷ []))
  snoc-AllProved [] e all one x (Memᴰ.head h) = subst Proved (sym h) one
  snoc-AllProved [] e all one x (Memᴰ.tail m) = elim m [ ]
  snoc-AllProved (f ∷ fs) e all one x (Memᴰ.head h) = all x (Memᴰ.head h)
  snoc-AllProved (f ∷ fs) e all one x (Memᴰ.tail m) =
      snoc-AllProved fs e (λ y n. all y (Memᴰ.tail n)) one x m

  -- What the loop answers from some entries on.
  abbrev Complete : List ℕ → List (ℕ × L1Data) → List (ℕ × L1Data) → Type 0
  Complete is entries es =
      AllProved es × Has is es × ((i : ℕ) → contained i entries ≡ true → contained i es ≡ true)

  skipped :
      (i : ℕ) (is : List ℕ) (entries es : List (ℕ × L1Data))
      → (contained i entries || i == 0) ≡ true
      → Complete is entries es
      → Complete (i ∷ is) entries es
  skipped i is entries es c (all, has, keeps) = (all, has', keeps)
    where
      has' : Has (i ∷ is) es
      has' j (Memᴰ.head e) h =
          keeps j (subst (λ k. contained k entries ≡ true) (sym e) (ground (arith, e)))
      has' j (Memᴰ.tail m) h = has j m h

  contained-snoc_same :
      (i : ℕ) (entries : List (ℕ × L1Data)) (e : ℕ × L1Data)
      → e.0 ≡ i
      → contained i (entries ++ (e ∷ [])) ≡ true
  contained-snoc_same i entries e h =
      any-append (λ e. e.0 == i) entries (e ∷ []) ∙ ground (arith, h)

  contained-snoc :
      (i : ℕ) (entries : List (ℕ × L1Data)) (e : ℕ × L1Data)
      → contained i entries ≡ true
      → contained i (entries ++ (e ∷ [])) ≡ true
  contained-snoc i entries e h = any-append (λ e. e.0 == i) entries (e ∷ []) ∙ ground (arith, h)

  added :
      (i : ℕ) (is : List ℕ) (entries es : List (ℕ × L1Data)) (e : ℕ × L1Data)
      → e.0 ≡ i
      → Complete is (entries ++ (e ∷ [])) es
      → Complete (i ∷ is) entries es
  added i is entries es e h (all, has, keeps) =
      (all, has', λ j c. keeps j (contained-snoc j entries e c))
    where
      has' : Has (i ∷ is) es
      has' j (Memᴰ.head same) nonzero = keeps j (contained-snoc_same j entries e (h ∙ sym same))
      has' j (Memᴰ.tail m) nonzero = has j m nonzero

  entries_for-Complete :
      (is : List ℕ) (entries : List (ℕ × L1Data)) (w : World)
      → 0 < height
      → length leaves ≤ 2 ^ height
      → length leaves + 1 < 2 ^ 32
      → ((i : ℕ) → Memᴰ i is → i < 2 ^ height)
      → AllProved entries
      → Post
          (λ es _. Complete is entries es)
          Anything
          (entries_for env height root leaves is entries)
          w
  unfolding entries_for
  entries_for-Complete [] entries w positive fits few small all = record {
    meets = (all, λ i m. elim m [ ], λ i h. h);
  }
  entries_for-Complete (i ∷ is) entries w positive fits few small all =
      Post-if Anything _ (contained i entries || i == 0) _ _ w
        (λ c.
          Post-weaken Anything _ _ _ w (λ es _ x. skipped i is entries es c x)
            (entries_for-Complete is entries w positive fits few (λ j m. small j (Memᴰ.tail m))
              all))
        (λ c.
          Post-bind Anything _ _ (entry_for env height root leaves i)
            (λ e. entries_for env height root leaves is (entries ++ (e ∷ []))) w
            (entry_for-Proved i w positive fits few (small i (Memᴰ.head refl)))
            (λ e w1 (same, proved).
              Post-weaken Anything _ _ _ w1 (λ es _ x. added i is entries es e same x)
                (entries_for-Complete is (entries ++ (e ∷ [])) w1 positive fits few
                  (λ j m. small j (Memᴰ.tail m)) (snoc-AllProved entries e all proved))))

  -- The loop of `buildInputProver` over the indices of a batch's blocks, if no call fails and every
  -- root agrees, gives each index other than 0 an entry, and each entry one sibling per level, which
  -- lead from the leaf at its index (a zero leaf past the last one) to the batch's root. It does not
  -- panic. The height is not 0, the leaves fit in the tree and are fewer than 2^32 - 1, and the indices
  -- fit too.
  pub entries_for-Proved :
      (is : List ℕ) (w : World)
      → 0 < height
      → length leaves ≤ 2 ^ height
      → length leaves + 1 < 2 ^ 32
      → ((i : ℕ) → Memᴰ i is → i < 2 ^ height)
      → Post
          (λ es _. AllProved es × Has is es)
          (λ _ _. Unit)
          (entries_for env height root leaves is [])
          w
  entries_for-Proved is w positive fits few small =
      Post-weaken Anything _ _ _ w (λ es _ (all, has, _). (all, has))
        (entries_for-Complete is [] w positive fits few small (λ e m. elim m [ ]))
