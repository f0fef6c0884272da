-- ===== src/L1InfoTree/Level.antt =====
-- One level of the loops, against the reference.
use zkevm_aggregator.Prelude.{
  ℕ, zero, suc, ◌+◌, ◌/◌, ◌≡◌, refl, List, [], ◌∷◌, length, arith, if◌then◌else◌, get_or,
}
use zkevm_aggregator.Prelude.Result.{ok}
use zkevm_aggregator.State.{Bytes}
use zkevm_aggregator.L1InfoTree.{Node, is_odd, hash, pad, build_intermediate, sibling}
use zkevm_aggregator.L1InfoTree.Reference.{pair_up}

-- The nodes of a level.
abbrev pub nodes : (Bytes → Bytes) → Bytes → List Bytes → List Node
nodes keccak z [] = []
nodes keccak z (a ∷ []) = record { value = hash keccak a z; left = a; right = z } ∷ []
nodes keccak z (a ∷ b ∷ xs) =
    record { value = hash keccak a b; left = a; right = b } ∷ nodes keccak z xs

pub pad_cons₂ : (z a b : Bytes) (xs : List Bytes) → pad z (a ∷ b ∷ xs) ≡ a ∷ b ∷ pad z xs
unfolding pad
pad_cons₂ z a b xs = ground arith

-- The parent of a node and its sibling, in the order that the index asks for.
unfoldable pub parent : (Bytes → Bytes) → ℕ → Bytes → Bytes → Bytes
parent keccak index cur sib = if is_odd index then hash keccak sib cur else hash keccak cur sib

module _ (keccak : Bytes → Bytes) (z : Bytes) where
  -- The padded level is even, so no node lacks its right child.
  pub build_intermediate-pad :
      (xs : List Bytes)
      → build_intermediate keccak (pad z xs) ≡ ok (nodes keccak z xs, pair_up keccak z xs)
  unfolding build_intermediate pair_up
  build_intermediate-pad [] = unfold pad in refl
  build_intermediate-pad (a ∷ []) = unfold pad in refl
  build_intermediate-pad (a ∷ b ∷ xs) = rw (pad_cons₂ z a b xs, build_intermediate-pad xs)

  pub length-pair_up : (xs : List Bytes) → length (pair_up keccak z xs) ≡ (length xs + 1) / 2
  unfolding pair_up
  length-pair_up [] = refl
  length-pair_up (a ∷ []) = refl
  length-pair_up (a ∷ b ∷ xs) = omega (arith, length-pair_up xs)

  pub sibling-suc₂ :
      (a b : Bytes) (ys : List Bytes) (j : ℕ)
      → sibling z (a ∷ b ∷ ys) (suc (suc j)) ≡ sibling z ys j
  unfolding sibling
  sibling-suc₂ a b ys zero = ground arith
  sibling-suc₂ a b ys (suc j) = ground arith

  half-suc₂ : (j : ℕ) → suc (suc j) / 2 ≡ suc (j / 2)
  half-suc₂ j = omega arith

  parity-suc₂ : (j : ℕ) → is_odd (suc (suc j)) ≡ is_odd j
  parity-suc₂ j = ground arith

  -- The parent of a node at the next level, for every index, also past the last node.
  pub parent-sibling :
      (xs : List Bytes) (i : ℕ)
      → get_or (pair_up keccak z xs) (i / 2) (hash keccak z z)
        ≡ parent keccak i (get_or xs i z) (sibling z (pad z xs) i)
  unfolding pair_up parent
  parent-sibling [] i = unfold sibling pad in ground arith
  parent-sibling (a ∷ []) zero = unfold sibling pad in refl
  parent-sibling (a ∷ []) (suc zero) = unfold sibling pad in refl
  parent-sibling (a ∷ []) (suc (suc j)) = unfold sibling pad in rw (half-suc₂ j) (ground arith)
  parent-sibling (a ∷ b ∷ xs) zero = unfold sibling pad in ground arith
  parent-sibling (a ∷ b ∷ xs) (suc zero) = unfold sibling pad in ground arith
  parent-sibling (a ∷ b ∷ xs) (suc (suc j)) =
      rw (pad_cons₂ z a b xs, half-suc₂ j, sibling-suc₂ a b (pad z xs) j, parity-suc₂ j)
        (parent-sibling xs j)
