-- ===== src/L1InfoTree/Root.antt =====
-- `BuildL1InfoRoot` computes the root of the reference tree.
use zkevm_aggregator.Prelude.{
  ℕ, zero, suc, ◌+◌, ◌/◌, ◌^◌, ◌≤◌, ◌<◌, ◌≡◌, refl, ◌∙◌, ap, List, [], ◌∷◌, length, arith, get_or,
}
use zkevm_aggregator.Prelude.Result.{ok, ◌>>=◌}
use zkevm_aggregator.State.{Bytes}
use zkevm_aggregator.L1InfoTree.{
  Node, zero_leaf, single_root, or_zero_leaf, hash, zero_hashes_from, generate_zero_hashes,
  build_levels, build_l1_info_root,
}
use zkevm_aggregator.L1InfoTree.Reference.{tree, pair_up, tree-pair_up}
use zkevm_aggregator.L1InfoTree.Level.{nodes, build_intermediate-pad, length-pair_up}
use native.Mathlib.Nat.{two-pow-succ}

pub half_fits : (n r : ℕ) → n ≤ 2 ^ suc r → (n + 1) / 2 ≤ 2 ^ r
half_fits n r h = omega (arith, two-pow-succ r)

one-le-pow : (r : ℕ) → 1 ≤ 2 ^ r
one-le-pow zero = omega arith
one-le-pow (suc r) = omega (arith, one-le-pow r, two-pow-succ r)

module _ (keccak : Bytes → Bytes) where
  -- The last level of a non-empty tree that fits has one node, and it holds the root.
  pub single_root-nodes :
      (z : Bytes) (xs : List Bytes)
      → 0 < length xs
      → length xs ≤ 2
      → single_root (nodes keccak z xs) ≡ ok (tree keccak z 1 xs)
  unfolding single_root tree
  single_root-nodes z [] h k = absurd (omega arith)
  single_root-nodes z (a ∷ []) h k = refl
  single_root-nodes z (a ∷ b ∷ []) h k = refl
  single_root-nodes z (a ∷ b ∷ c ∷ xs) h k = absurd (omega arith)

  build_levels-tree :
      (rounds : ℕ) (z : Bytes) (xs : List Bytes) (ns : List Node)
      → 0 < length xs
      → length xs ≤ 2 ^ suc rounds
      → (build_levels keccak (zero_hashes_from keccak (suc rounds) z) xs ns (suc rounds)
          >>= single_root)
        ≡ ok (tree keccak z (suc rounds) xs)
  unfolding build_levels zero_hashes_from
  build_levels-tree zero z xs ns h k =
      rw (build_intermediate-pad keccak z xs) (single_root-nodes z xs h k)
  build_levels-tree (suc rounds) z xs ns h k =
      rw (build_intermediate-pad keccak z xs, tree-pair_up keccak (suc rounds) z xs)
        (build_levels-tree rounds (hash keccak z z) (pair_up keccak z xs) (nodes keccak z xs)
          (omega (arith, length-pair_up keccak z xs))
          (omega (arith, length-pair_up keccak z xs, half_fits (length xs) (suc rounds) k)))

  -- A leaf of the value of a missing one changes nothing.
  tree-missing : (h : ℕ) (z : Bytes) → tree keccak z h (z ∷ []) ≡ tree keccak z h []
  tree-missing zero z = unfold tree in refl
  tree-missing (suc h) z =
      let one : pair_up keccak z (z ∷ []) ≡ hash keccak z z ∷ [] = unfold pair_up in refl in
      let none : pair_up keccak z [] ≡ [] = unfold pair_up in refl in
      rw (tree-pair_up keccak h z (z ∷ []), tree-pair_up keccak h z [], one, none)
        (tree-missing h (hash keccak z z))

  pub first_zero_hash : (h : ℕ) → get_or (generate_zero_hashes keccak h) 0 zero_leaf ≡ zero_leaf
  unfolding generate_zero_hashes
  first_zero_hash zero = refl
  first_zero_hash (suc h) = refl

  pub tree-or_zero_leaf :
      (h : ℕ) (xs : List Bytes)
      → tree keccak zero_leaf h (or_zero_leaf (generate_zero_hashes keccak h) xs)
        ≡ tree keccak zero_leaf h xs
  tree-or_zero_leaf h [] =
      ap (λ z. tree keccak zero_leaf h (z ∷ [])) (first_zero_hash h) ∙ tree-missing h zero_leaf
  tree-or_zero_leaf h (x ∷ xs) = refl

  pub length-or_zero_leaf :
      (zs xs : List Bytes) (r : ℕ)
      → length xs ≤ 2 ^ r
      → (0 < length (or_zero_leaf zs xs)) × (length (or_zero_leaf zs xs) ≤ 2 ^ r)
  length-or_zero_leaf zs [] r h = (omega arith, omega (arith, one-le-pow r))
  length-or_zero_leaf zs (x ∷ xs) r h = (omega arith, h)

  -- For a positive height and no more leaves than fit, `BuildL1InfoRoot` returns the reference root.
  pub build_l1_info_root-tree :
      (height : ℕ) (leaves : List Bytes)
      → 0 < height
      → length leaves ≤ 2 ^ height
      → build_l1_info_root keccak height leaves ≡ ok (tree keccak zero_leaf height leaves)
  build_l1_info_root-tree zero leaves h k = absurd (omega arith)
  build_l1_info_root-tree (suc r) leaves h k =
      let zs = generate_zero_hashes keccak (suc r) in
      let (pos, fits) = length-or_zero_leaf zs leaves (suc r) k in
      let built : build_l1_info_root keccak (suc r) leaves
          ≡ ok (tree keccak zero_leaf (suc r) (or_zero_leaf zs leaves)) =
        unfold build_l1_info_root generate_zero_hashes in
        build_levels-tree r zero_leaf (or_zero_leaf zs leaves) [] pos fits in
      built ∙ ap ok (tree-or_zero_leaf (suc r) leaves)
