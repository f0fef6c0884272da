-- ===== src/L1InfoTree/Incremental.antt =====
-- The tree object: a tree created over some leaves, and grown leaf by leaf, is at every moment the
-- tree over all its leaves.
use zkevm_aggregator.Prelude.{
  ℕ, zero, suc, ◌+◌, ◌/◌, ◌^◌, ◌≤◌, ◌<◌, ◌≡◌, refl, sym, ◌∙◌, ap, true, List, [], ◌∷◌, ◌++◌, length,
  arith, length-append, take, ==_iff, ◌==◌, false,
}
use mathlib.Core.List.{append-nil}
use zkevm_aggregator.Prelude.Result.{Result, ok}
use zkevm_aggregator.State.{Bytes}
use zkevm_aggregator.L1InfoTree.{
  L1InfoTree, TreeError, zero_leaf, is_odd, hash, zero_hashes_from, generate_zero_hashes,
  add_levels, pad, sibling, u32, init_siblings, new_l1_info_tree, add_leaf,
}
use zkevm_aggregator.L1InfoTree.Reference.{tree, pair_up}
use zkevm_aggregator.L1InfoTree.Level.{pad_cons₂, sibling-suc₂}
use zkevm_aggregator.L1InfoTree.Root.{build_l1_info_root-tree}
use zkevm_aggregator.L1InfoTree.MerkleProof.{
  siblings_of, length-siblings_of, compute_merkle_proof-siblings_of,
}
use zkevm_aggregator.L1InfoTree.Frontier.{
  Frontier, full_pairs, length-full_pairs, last_or, parity₂, last_of_odd, add_levels-Added,
}

module _ (keccak : Bytes → Bytes) where
  sibling-last :
      (z : Bytes) (xs more : List Bytes)
      → is_odd (length xs) ≡ true
      → sibling z (pad z (xs ++ more)) (length xs) ≡ last_or zero_leaf xs
  sibling-last z [] more h = cc
  sibling-last z (a ∷ []) [] h = unfold sibling pad in refl
  sibling-last z (a ∷ []) (b ∷ more) h = rw (pad_cons₂ z a b more) (unfold sibling in ground arith)
  sibling-last z (a ∷ b ∷ xs) more h =
      let h' : is_odd (length xs) ≡ true = sym (parity₂ (length xs)) ∙ h in
      rw
        (
          pad_cons₂ z a b (xs ++ more),
          sibling-suc₂ keccak z a b (pad z (xs ++ more)) (length xs),
          last_of_odd keccak a b xs h',
        )
        (sibling-last z xs more h')

  -- The next level of a longer list begins with the complete pairs.
  pair_up-append :
      (z : Bytes) (xs more : List Bytes)
      → (rest : List Bytes) × (pair_up keccak z (xs ++ more) ≡ full_pairs keccak xs ++ rest)
  unfolding pair_up full_pairs
  pair_up-append z [] more = (pair_up keccak z more, refl)
  pair_up-append z (a ∷ []) more = (pair_up keccak z (a ∷ more), refl)
  pair_up-append z (a ∷ b ∷ xs) more =
      let (rest, e) = pair_up-append z xs more in (rest, ap (◌∷◌ (hash keccak a b)) e)

  -- The proof's siblings for the index of the next leaf serve as the frontier.
  siblings_of-Frontier :
      (r : ℕ) (z : Bytes) (n : ℕ) (xs more all : List Bytes)
      → n ≡ length xs
      → all ≡ xs ++ more
      → Frontier keccak xs (siblings_of keccak r z n all)
  unfolding siblings_of
  siblings_of-Frontier zero z n xs more all hn ha = tt
  siblings_of-Frontier (suc r) z n xs more all hn ha =
      let (rest, e) = pair_up-append z xs more in
      (
        λ odd. rw (hn, ha) (sibling-last z xs more odd),
        siblings_of-Frontier r (hash keccak z z) (n / 2) (full_pairs keccak xs) rest
            (pair_up keccak z all) (omega (arith, length-full_pairs keccak xs))
            (ap (pair_up keccak z) ha ∙ e),
      )

  -- Nothing is asked of the frontier of no leaves.
  Frontier-nil : (ss : List Bytes) → Frontier keccak [] ss
  unfolding full_pairs
  Frontier-nil [] = tt
  Frontier-nil (s ∷ ss) = (λ p. cc, Frontier-nil ss)

  -- The tree object holds these leaves.
  pub record Holds (t : L1InfoTree) (leaves : List Bytes) : Type 0 where
    pub counted : t.count ≡ length leaves
    pub rooted : t.current_root ≡ tree keccak zero_leaf t.height leaves
    pub sized : length t.siblings ≡ t.height
    pub frontier : Frontier keccak leaves t.siblings

  length-take_zeros : (r : ℕ) (z : Bytes) → length (take r (zero_hashes_from keccak r z)) ≡ r
  unfolding zero_hashes_from
  length-take_zeros zero z = refl
  length-take_zeros (suc r) z = ap suc (length-take_zeros r (hash keccak z z))

  -- `NewL1InfoTree` returns a tree of the height that holds the leaves: their number, the reference
  -- root and the frontier. The height is positive, the leaves fit it and are fewer than 2^32 - 1.
  pub new_l1_info_tree-Holds :
      (height : ℕ) (leaves : List Bytes)
      → 0 < height
      → length leaves ≤ 2 ^ height
      → length leaves + 1 < 2 ^ 32
      → (t : L1InfoTree) × (new_l1_info_tree keccak height leaves ≡ ok t)
        × (t.height ≡ height)
        × Holds t leaves
  unfolding new_l1_info_tree init_siblings generate_zero_hashes
  new_l1_info_tree-Holds zero leaves h k l = absurd (omega arith)
  new_l1_info_tree-Holds (suc r) [] h k l =
      let t : L1InfoTree = record {
        height = suc r;
        count = 0;
        siblings = take (suc r) (generate_zero_hashes keccak (suc r));
        current_root = tree keccak zero_leaf (suc r) [];
      } in
      (
        t,
        rw (build_l1_info_root-tree keccak (suc r) [] h k),
        refl,
        record {
          counted = refl;
          rooted = refl;
          sized = length-take_zeros (suc r) zero_leaf;
          frontier = Frontier-nil (take (suc r) (generate_zero_hashes keccak (suc r)));
        },
      )
  new_l1_info_tree-Holds (suc r) (x ∷ xs) h k l =
      let not_empty : (u32 (length (x ∷ xs)) == 0) ≡ false = ground arith in
      let n : ℕ = u32 (length (x ∷ xs)) in
      let t : L1InfoTree = record {
        height = suc r;
        count = n;
        siblings = siblings_of keccak (suc r) zero_leaf n (x ∷ xs);
        current_root = tree keccak zero_leaf (suc r) (x ∷ xs);
      } in
      (
        t,
        rw (not_empty, compute_merkle_proof-siblings_of keccak r n (x ∷ xs) k l),
        refl,
        record {
          counted = omega arith;
          rooted = refl;
          sized = length-siblings_of keccak (suc r) zero_leaf n (x ∷ xs);
          frontier =
              siblings_of-Frontier (suc r) zero_leaf n (x ∷ xs) [] (x ∷ xs) (omega arith)
                (sym (append-nil (x ∷ xs)));
        },
      )

  -- `AddLeaf` at the end of a tree that holds some leaves: the root returned is the reference root of
  -- all leaves, and the object holds them. One leaf more fits the height, and is below 2^32.
  pub add_leaf-Holds :
      (t : L1InfoTree) (leaves : List Bytes) (leaf : Bytes)
      → Holds t leaves
      → length leaves + 1 ≤ 2 ^ t.height
      → length leaves + 1 < 2 ^ 32
      → (t' : L1InfoTree) × (add_leaf keccak t (length leaves) leaf
          ≡ ok (t', tree keccak zero_leaf t.height (leaves ++ (leaf ∷ []))))
        × (t'.height ≡ t.height)
        × Holds t' (leaves ++ (leaf ∷ []))
  unfolding add_leaf generate_zero_hashes
  add_leaf-Holds t leaves leaf h k l =
      let (root, front, len) =
        add_levels-Added keccak t.height zero_leaf (length leaves) leaves leaf true t.siblings refl
          h.sized k h.frontier in
      let added =
        add_levels keccak (generate_zero_hashes keccak t.height) (length leaves) leaf true
          t.siblings in
      let t' : L1InfoTree = record t {
        siblings = added.0;
        current_root = added.1;
        count = u32 (t.count + 1);
      } in
      (
        t',
        rw ((==_iff (length leaves) t.count).1 (sym h.counted))
            (ap {B = Result TreeError (L1InfoTree × Bytes)} (λ v. ok (t', v)) root),
        refl,
        record {
          counted = omega (arith, h.counted, length-append leaves (leaf ∷ []));
          rooted = root;
          sized = len;
          frontier = front;
        },
      )
