-- ===== src/L1InfoTree/Reference.antt =====
-- What the tree is: its leaves filled up with zeros to a power of two, hashed pairwise.
use mathlib.Core.Path.{ap₂}
use zkevm_aggregator.Prelude.{
  ℕ, zero, suc, ◌+◌, ◌^◌, ◌≡◌, refl, sym, ◌∙◌, ap, List, [], ◌∷◌, take, drop, arith,
}
use zkevm_aggregator.State.{Bytes}
use zkevm_aggregator.L1InfoTree.{hash}
use native.Mathlib.Nat.{two-pow-succ}

abbrev double : ℕ → ℕ
double zero = 0
double (suc k) = suc (suc (double k))

double-eq-add : (k : ℕ) → double k ≡ k + k
double-eq-add zero = refl
double-eq-add (suc k) = omega (arith, double-eq-add k)

pow-double : (h : ℕ) → 2 ^ suc h ≡ double (2 ^ h)
pow-double h = two-pow-succ h ∙ sym (double-eq-add (2 ^ h))

drop-nil {ℓ} : {A : Type ℓ} (n : ℕ) → drop {A = A} n [] ≡ []
drop-nil zero = refl
drop-nil (suc n) = refl

take-nil {ℓ} : {A : Type ℓ} (n : ℕ) → take {A = A} n [] ≡ []
take-nil zero = refl
take-nil (suc n) = refl

-- The node above two halves; `z` is the value of a leaf that is not there.
module _ (keccak : Bytes → Bytes) where
  unfoldable pub tree : Bytes → ℕ → List Bytes → Bytes
  tree z zero [] = z
  tree z zero (x ∷ xs) = x
  tree z (suc h) xs = hash keccak (tree z h (take (2 ^ h) xs)) (tree z h (drop (2 ^ h) xs))

  -- The next level of a list of nodes, the lone last one paired with `z`.
  unfoldable pub pair_up : Bytes → List Bytes → List Bytes
  pair_up z [] = []
  pair_up z (a ∷ []) = hash keccak a z ∷ []
  pair_up z (a ∷ b ∷ xs) = hash keccak a b ∷ pair_up z xs

  unfoldable pub zero_at : ℕ → Bytes → Bytes
  zero_at zero z = z
  zero_at (suc h) z = zero_at h (hash keccak z z)

  -- A missing pair is a pair of missing nodes.
  pair_up-take :
      (k : ℕ) (z : Bytes) (xs : List Bytes) → pair_up z (take (double k) xs) ≡ take k (pair_up z xs)
  unfolding pair_up
  pair_up-take zero z xs = refl
  pair_up-take (suc k) z [] = refl
  pair_up-take (suc k) z (a ∷ []) = ap (◌∷◌ (hash keccak a z)) (sym (take-nil k))
  pair_up-take (suc zero) z (a ∷ b ∷ xs) = refl
  pair_up-take (suc (suc k)) z (a ∷ b ∷ xs) = ap (◌∷◌ (hash keccak a b)) (pair_up-take (suc k) z xs)

  pair_up-drop :
      (k : ℕ) (z : Bytes) (xs : List Bytes) → pair_up z (drop (double k) xs) ≡ drop k (pair_up z xs)
  unfolding pair_up
  pair_up-drop zero z xs = refl
  pair_up-drop (suc k) z [] = refl
  pair_up-drop (suc k) z (a ∷ []) = sym (drop-nil k)
  pair_up-drop (suc k) z (a ∷ b ∷ xs) = pair_up-drop k z xs

  -- A tree of height h + 1 over some nodes is a tree of height h over the next level.
  pub tree-pair_up :
      (h : ℕ) (z : Bytes) (xs : List Bytes)
      → tree z (suc h) xs ≡ tree (hash keccak z z) h (pair_up z xs)
  unfolding tree pair_up
  tree-pair_up zero z [] = refl
  tree-pair_up zero z (a ∷ []) = refl
  tree-pair_up zero z (a ∷ b ∷ xs) = refl
  tree-pair_up (suc h) z xs =
      ap₂ (hash keccak)
        (tree-pair_up h z (take (2 ^ suc h) xs)
          ∙ ap (tree (hash keccak z z) h)
              (ap (λ n. pair_up z (take n xs)) (pow-double h) ∙ pair_up-take (2 ^ h) z xs))
        (tree-pair_up h z (drop (2 ^ suc h) xs)
          ∙ ap (tree (hash keccak z z) h)
              (ap (λ n. pair_up z (drop n xs)) (pow-double h) ∙ pair_up-drop (2 ^ h) z xs))
