-- ===== src/L1InfoTree/MerkleProof.antt =====
-- `ComputeMerkleProof`: the proof leads from the leaf to the root.
use zkevm_aggregator.Prelude.{
  ℕ, zero, suc, ◌+◌, ◌/◌, ◌^◌, ◌≤◌, ◌<◌, ◌≡◌, refl, sym, ◌∙◌, ap, List, [], ◌∷◌, length,
  length-append, arith, get_or,
}
use zkevm_aggregator.Prelude.Result.{ok, ◌>>=◌}
use zkevm_aggregator.State.{Bytes}
use zkevm_aggregator.L1InfoTree.{
  Node, zero_leaf, single_root, or_zero_leaf, hash, zero_hashes_from, generate_zero_hashes, pad,
  sibling, proof_sibling, u32, proof_levels, compute_merkle_proof,
}
use zkevm_aggregator.L1InfoTree.Reference.{tree, pair_up, tree-pair_up}
use zkevm_aggregator.L1InfoTree.Level.{
  nodes, build_intermediate-pad, length-pair_up, parent, parent-sibling,
}
use zkevm_aggregator.L1InfoTree.Root.{
  half_fits, first_zero_hash, single_root-nodes, tree-or_zero_leaf, length-or_zero_leaf,
}
use native.Mathlib.Nat.{two-pow-succ}

module _ (keccak : Bytes → Bytes) where
  -- What a verifier computes from a leaf, its index and the siblings on its way up.
  pub climb : Bytes → ℕ → List Bytes → Bytes
  climb cur index [] = cur
  climb cur index (s ∷ ss) = climb (parent keccak index cur s) (index / 2) ss

  -- The siblings of an index, level by level.
  unfoldable pub siblings_of : ℕ → Bytes → ℕ → List Bytes → List Bytes
  siblings_of zero z index xs = []
  siblings_of (suc rounds) z index xs =
      sibling z (pad z xs) index
      ∷ siblings_of rounds (hash keccak z z) (index / 2) (pair_up keccak z xs)

  length-pad : (z : Bytes) (xs : List Bytes) → length (pad z xs) ≤ length xs + 1
  unfolding pad
  length-pad z xs = ground (arith, length-append xs (z ∷ []))

  -- The conversion changes nothing where the padded level is below 2^32.
  proof_sibling-sibling :
      (z : Bytes) (xs : List Bytes) (index : ℕ)
      → length xs + 1 < 2 ^ 32
      → proof_sibling z (pad z xs) index ≡ sibling z (pad z xs) index
  unfolding proof_sibling sibling
  proof_sibling-sibling z xs index small =
      let same : u32 (length (pad z xs)) ≡ length (pad z xs) = omega (arith, length-pad z xs) in
      rw same refl

  proof_levels-siblings_of :
      (rounds : ℕ) (z : Bytes) (index : ℕ) (xs : List Bytes) (ns : List Node)
      → 0 < length xs
      → length xs ≤ 2 ^ suc rounds
      → length xs + 1 < 2 ^ 32
      → (last : List Node) × (proof_levels keccak
            (zero_hashes_from keccak (suc rounds) z)
            index
            xs
            ns
            (suc rounds)
          ≡ ok (siblings_of (suc rounds) z index xs, last))
        × (single_root last ≡ ok (tree keccak z (suc rounds) xs))
  unfolding proof_levels zero_hashes_from siblings_of
  proof_levels-siblings_of zero z index xs ns h k small = (
    nodes keccak z xs,
    rw (build_intermediate-pad keccak z xs, proof_sibling-sibling z xs index small),
    single_root-nodes keccak z xs h k,
  )
  proof_levels-siblings_of (suc rounds) z index xs ns h k small =
      let (last, e, r) =
        proof_levels-siblings_of rounds (hash keccak z z) (index / 2) (pair_up keccak z xs)
          (nodes keccak z xs) (omega (arith, length-pair_up keccak z xs))
          (omega (arith, length-pair_up keccak z xs, half_fits (length xs) (suc rounds) k))
          (omega (arith, length-pair_up keccak z xs)) in
      (
        last,
        rw (build_intermediate-pad keccak z xs, proof_sibling-sibling z xs index small)
            (ap (λ m. m >>= λ x. ok (sibling z (pad z xs) index ∷ x.0, x.1)) e),
        r ∙ ap ok (sym (tree-pair_up keccak (suc rounds) z xs)),
      )

  pub length-siblings_of :
      (rounds : ℕ) (z : Bytes) (index : ℕ) (xs : List Bytes)
      → length (siblings_of rounds z index xs) ≡ rounds
  unfolding siblings_of
  length-siblings_of zero z index xs = refl
  length-siblings_of (suc rounds) z index xs =
      ap suc (length-siblings_of rounds (hash keccak z z) (index / 2) (pair_up keccak z xs))

  climb-siblings_of :
      (rounds : ℕ) (z : Bytes) (index : ℕ) (xs : List Bytes)
      → index < 2 ^ rounds
      → climb (get_or xs index z) index (siblings_of rounds z index xs) ≡ tree keccak z rounds xs
  unfolding climb siblings_of
  climb-siblings_of zero z index [] h = unfold tree in refl
  climb-siblings_of zero z zero (x ∷ xs) h = unfold tree in refl
  climb-siblings_of zero z (suc i) (x ∷ xs) h = absurd (omega arith)
  climb-siblings_of (suc rounds) z index xs h =
      ap
        (λ c.
          climb c (index / 2)
            (siblings_of rounds (hash keccak z z) (index / 2) (pair_up keccak z xs)))
        (sym (parent-sibling keccak z xs index))
      ∙ climb-siblings_of rounds (hash keccak z z) (index / 2) (pair_up keccak z xs)
          (omega (arith, two-pow-succ rounds))
      ∙ sym (tree-pair_up keccak rounds z xs)

  get_or-or_zero_leaf :
      (h : ℕ) (xs : List Bytes) (index : ℕ)
      → get_or (or_zero_leaf (generate_zero_hashes keccak h) xs) index zero_leaf
        ≡ get_or xs index zero_leaf
  get_or-or_zero_leaf h [] zero = first_zero_hash keccak h
  get_or-or_zero_leaf h [] (suc i) = refl
  get_or-or_zero_leaf h (x ∷ xs) index = refl

  below_or_zero_leaf :
      (zs leaves : List Bytes)
      → length leaves + 1 < 2 ^ 32
      → length (or_zero_leaf zs leaves) + 1 < 2 ^ 32
  below_or_zero_leaf zs [] h = omega arith
  below_or_zero_leaf zs (x ∷ xs) h = h

  -- What `ComputeMerkleProof` returns, as siblings and root of the reference.
  pub compute_merkle_proof-siblings_of :
      (r index : ℕ) (leaves : List Bytes)
      → length leaves ≤ 2 ^ suc r
      → length leaves + 1 < 2 ^ 32
      → compute_merkle_proof keccak (suc r) index leaves
        ≡ ok (
          siblings_of
              (suc r)
              zero_leaf
              index
              (or_zero_leaf (generate_zero_hashes keccak (suc r)) leaves),
          tree keccak zero_leaf (suc r) leaves,
        )
  unfolding compute_merkle_proof generate_zero_hashes
  compute_merkle_proof-siblings_of r index leaves k small =
      let zs = generate_zero_hashes keccak (suc r) in
      let (pos, fits) = length-or_zero_leaf keccak zs leaves (suc r) k in
      let (last, e, root) =
        proof_levels-siblings_of r zero_leaf index (or_zero_leaf zs leaves) [] pos fits
          (below_or_zero_leaf zs leaves small) in
      ap (λ m. m >>= λ x. single_root x.1 >>= λ root. ok (x.0, root)) e
      ∙ ap
          (λ m.
            m >>= λ root. ok (siblings_of (suc r) zero_leaf index (or_zero_leaf zs leaves), root))
          (root ∙ ap ok (tree-or_zero_leaf keccak (suc r) leaves))

  -- For a positive height, leaves that fit and are fewer than 2^32 - 1, and an index below the
  -- capacity, `ComputeMerkleProof` returns the reference root and one sibling for each level, and these lead from the leaf at the
  -- index (a zero leaf past the last one) to that root.
  pub compute_merkle_proof-climb :
      (height index : ℕ) (leaves : List Bytes)
      → 0 < height
      → length leaves ≤ 2 ^ height
      → length leaves + 1 < 2 ^ 32
      → index < 2 ^ height
      → (siblings : List Bytes) × (compute_merkle_proof keccak height index leaves
          ≡ ok (siblings, tree keccak zero_leaf height leaves))
        × (length siblings ≡ height)
        × (climb (get_or leaves index zero_leaf) index siblings
            ≡ tree keccak zero_leaf height leaves)
  compute_merkle_proof-climb zero index leaves h k small l = absurd (omega arith)
  compute_merkle_proof-climb (suc r) index leaves h k small l =
      let xs = or_zero_leaf (generate_zero_hashes keccak (suc r)) leaves in
      (
        siblings_of (suc r) zero_leaf index xs,
        compute_merkle_proof-siblings_of r index leaves k small,
        length-siblings_of (suc r) zero_leaf index xs,
        ap (λ c. climb c index (siblings_of (suc r) zero_leaf index xs))
              (sym (get_or-or_zero_leaf (suc r) leaves index))
            ∙ climb-siblings_of (suc r) zero_leaf index xs l
            ∙ tree-or_zero_leaf keccak (suc r) leaves,
      )
