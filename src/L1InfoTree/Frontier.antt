-- ===== src/L1InfoTree/Frontier.antt =====
-- `AddLeaf` keeps only one node for each level. It computes what building the whole tree would.
use zkevm_aggregator.Prelude.{
  ℕ, zero, suc, ◌+◌, ◌/◌, ◌^◌, ◌≤◌, ◌≡◌, refl, sym, ◌∙◌, ap, subst, inl, inr, Bool, true, false,
  List, [], ◌∷◌, ◌++◌, length, arith, if◌then◌else◌, Bool-cases, length-append,
}
use zkevm_aggregator.State.{Bytes}
use zkevm_aggregator.L1InfoTree.{zero_leaf, is_odd, hash, zero_hashes_from, add_levels}
use zkevm_aggregator.L1InfoTree.Reference.{tree, pair_up, tree-pair_up}
use native.Mathlib.Nat.{two-pow-succ}

-- The last of the nodes.
abbrev pub last_or {ℓ} : {A : Type ℓ} → A → List A → A
last_or d [] = d
last_or d (x ∷ []) = x
last_or d (x ∷ y ∷ xs) = last_or d (y ∷ xs)

last_or-snoc {ℓ} : {A : Type ℓ} (d x : A) (xs : List A) → last_or d (xs ++ (x ∷ [])) ≡ x
last_or-snoc d x [] = refl
last_or-snoc d x (y ∷ []) = refl
last_or-snoc d x (y ∷ w ∷ xs) = last_or-snoc d x (w ∷ xs)

pub parity₂ : (n : ℕ) → is_odd (suc (suc n)) ≡ is_odd n
parity₂ n = ground arith

module _ (keccak : Bytes → Bytes) where
  -- The complete nodes of the next level.
  unfoldable pub full_pairs : List Bytes → List Bytes
  full_pairs [] = []
  full_pairs (a ∷ []) = []
  full_pairs (a ∷ b ∷ xs) = hash keccak a b ∷ full_pairs xs

  pub length-full_pairs : (xs : List Bytes) → length (full_pairs xs) ≡ length xs / 2
  unfolding full_pairs
  length-full_pairs [] = refl
  length-full_pairs (a ∷ []) = refl
  length-full_pairs (a ∷ b ∷ xs) = omega (arith, length-full_pairs xs)

  pub last_of_odd :
      (a b : Bytes) (xs : List Bytes)
      → is_odd (length xs) ≡ true
      → last_or zero_leaf (a ∷ b ∷ xs) ≡ last_or zero_leaf xs
  last_of_odd a b [] h = cc
  last_of_odd a b (x ∷ xs) h = refl

  -- A node added behind an odd number of complete nodes meets the last of them, otherwise `z`.
  pair_up-snoc_odd :
      (z x : Bytes) (xs : List Bytes)
      → is_odd (length xs) ≡ true
      → pair_up keccak z (xs ++ (x ∷ []))
        ≡ full_pairs xs ++ (hash keccak (last_or zero_leaf xs) x ∷ [])
  unfolding pair_up full_pairs
  pair_up-snoc_odd z x [] h = cc
  pair_up-snoc_odd z x (a ∷ []) h = refl
  pair_up-snoc_odd z x (a ∷ b ∷ xs) h =
      let h' : is_odd (length xs) ≡ true = sym (parity₂ (length xs)) ∙ h in
      rw (last_of_odd a b xs h') (ap (◌∷◌ (hash keccak a b)) (pair_up-snoc_odd z x xs h'))

  pair_up-snoc_even :
      (z x : Bytes) (xs : List Bytes)
      → is_odd (length xs) ≡ false
      → pair_up keccak z (xs ++ (x ∷ [])) ≡ full_pairs xs ++ (hash keccak x z ∷ [])
  unfolding pair_up full_pairs
  pair_up-snoc_even z x [] h = refl
  pair_up-snoc_even z x (a ∷ []) h = cc
  pair_up-snoc_even z x (a ∷ b ∷ xs) h =
      ap (◌∷◌ (hash keccak a b)) (pair_up-snoc_even z x xs (sym (parity₂ (length xs)) ∙ h))

  full_pairs-snoc_odd :
      (x : Bytes) (xs : List Bytes)
      → is_odd (length xs) ≡ true
      → full_pairs (xs ++ (x ∷ [])) ≡ full_pairs xs ++ (hash keccak (last_or zero_leaf xs) x ∷ [])
  unfolding full_pairs
  full_pairs-snoc_odd x [] h = cc
  full_pairs-snoc_odd x (a ∷ []) h = refl
  full_pairs-snoc_odd x (a ∷ b ∷ xs) h =
      let h' : is_odd (length xs) ≡ true = sym (parity₂ (length xs)) ∙ h in
      rw (last_of_odd a b xs h') (ap (◌∷◌ (hash keccak a b)) (full_pairs-snoc_odd x xs h'))

  full_pairs-snoc_even :
      (x : Bytes) (xs : List Bytes)
      → is_odd (length xs) ≡ false
      → full_pairs (xs ++ (x ∷ [])) ≡ full_pairs xs
  unfolding full_pairs
  full_pairs-snoc_even x [] h = refl
  full_pairs-snoc_even x (a ∷ []) h = cc
  full_pairs-snoc_even x (a ∷ b ∷ xs) h =
      ap (◌∷◌ (hash keccak a b)) (full_pairs-snoc_even x xs (sym (parity₂ (length xs)) ∙ h))

  -- The siblings kept for some complete nodes: on each level with an odd number of them, the last.
  abbrev pub Frontier : List Bytes → List Bytes → Type 0
  Frontier xs [] = Unit {0}
  Frontier xs (s ∷ ss) =
      (is_odd (length xs) ≡ true → s ≡ last_or zero_leaf xs) × Frontier (full_pairs xs) ss

  parity-snoc_odd :
      (x : Bytes) (xs : List Bytes)
      → is_odd (length xs) ≡ true
      → is_odd (length (xs ++ (x ∷ []))) ≡ false
  parity-snoc_odd x xs h = ground (arith, length-append xs (x ∷ []))

  -- One level whose number of complete nodes is odd, and one where it is even.
  Frontier-odd :
      (xs : List Bytes) (s cur : Bytes) (filled : Bool) (ss : List Bytes)
      → is_odd (length xs) ≡ true
      → s ≡ last_or zero_leaf xs
      → Frontier (if filled then full_pairs xs ++ (hash keccak s cur ∷ []) else full_pairs xs) ss
      → Frontier (if filled then xs ++ (cur ∷ []) else xs) (s ∷ ss)
  Frontier-odd xs s cur true ss odd e f = (
    λ p. cc (p, parity-snoc_odd cur xs odd),
    subst (λ l. Frontier l ss)
        (ap (λ t. full_pairs xs ++ (hash keccak t cur ∷ [])) e
          ∙ sym (full_pairs-snoc_odd cur xs odd))
        f,
  )
  Frontier-odd xs s cur false ss odd e f = (λ _. e, f)

  Frontier-even :
      (xs : List Bytes) (s cur : Bytes) (filled : Bool) (ss : List Bytes)
      → is_odd (length xs) ≡ false
      → Frontier (full_pairs xs) ss
      → Frontier (if filled then xs ++ (cur ∷ []) else xs) ((if filled then cur else s) ∷ ss)
  Frontier-even xs s cur true ss even f = (
    λ _. sym (last_or-snoc zero_leaf cur xs),
    subst (λ l. Frontier l ss) (sym (full_pairs-snoc_even cur xs even)) f,
  )
  Frontier-even xs s cur false ss even f = (λ p. cc (p, even), f)

  -- The loop of `AddLeaf` on one level's complete nodes `xs`: the root is that of the tree with `cur`
  -- added, and the siblings are those of the nodes that are complete afterwards.
  abbrev pub Added : ℕ → Bytes → List Bytes → Bytes → Bool → List Bytes × Bytes → Type 0
  Added r z xs cur filled (ss, root) =
      (root ≡ tree keccak z r (xs ++ (cur ∷ [])))
      × Frontier (if filled then xs ++ (cur ∷ []) else xs) ss
      × (length ss ≡ r)

  pub add_levels-Added :
      (r : ℕ) (z : Bytes) (n : ℕ) (xs : List Bytes) (cur : Bytes) (filled : Bool) (ss : List Bytes)
      → n ≡ length xs
      → length ss ≡ r
      → length xs + 1 ≤ 2 ^ r
      → Frontier xs ss
      → Added r z xs cur filled (add_levels keccak (zero_hashes_from keccak r z) n cur filled ss)
  unfolding add_levels zero_hashes_from
  add_levels-Added zero z n [] cur true [] hn hl h f = (unfold tree in refl, tt, refl)
  add_levels-Added zero z n [] cur false [] hn hl h f = (unfold tree in refl, tt, refl)
  add_levels-Added zero z n (x ∷ xs) cur filled [] hn hl h f = absurd (omega arith)
  add_levels-Added zero z n xs cur filled (s ∷ ss) hn hl h f = absurd (omega arith)
  add_levels-Added (suc r) z n xs cur filled [] hn hl h f = absurd (omega arith)
  add_levels-Added (suc r) z n xs cur filled (s ∷ ss) hn hl h (fs, f) =
      let half : n / 2 ≡ length (full_pairs xs) = omega (arith, length-full_pairs xs) in
      let fits : length (full_pairs xs) + 1 ≤ 2 ^ r =
        omega (arith, length-full_pairs xs, two-pow-succ r) in
      elim (Bool-cases (is_odd n)) [
        | inl odd ↦
            let odd' : is_odd (length xs) ≡ true = ap is_odd (sym hn) ∙ odd in
            let (root, front, len) =
              add_levels-Added r (hash keccak z z) (n / 2) (full_pairs xs) (hash keccak s cur)
                filled ss half (omega arith) fits f in
            rw odd (
              root
                  ∙ ap
                      (λ t.
                        tree keccak (hash keccak z z) r (full_pairs xs ++ (hash keccak t cur ∷ [])))
                      (fs odd')
                  ∙ ap (tree keccak (hash keccak z z) r) (sym (pair_up-snoc_odd z cur xs odd'))
                  ∙ sym (tree-pair_up keccak r z (xs ++ (cur ∷ []))),
              Frontier-odd xs s cur filled _ odd' (fs odd') front,
              ap suc len,
            )
        | inr even ↦
            let even' : is_odd (length xs) ≡ false = ap is_odd (sym hn) ∙ even in
            let (root, front, len) =
              add_levels-Added r (hash keccak z z) (n / 2) (full_pairs xs) (hash keccak cur z) false
                ss half (omega arith) fits f in
            rw even (
              root
                  ∙ ap (tree keccak (hash keccak z z) r) (sym (pair_up-snoc_even z cur xs even'))
                  ∙ sym (tree-pair_up keccak r z (xs ++ (cur ∷ []))),
              Frontier-even xs s cur filled _ even' front,
              ap suc len,
            )
      ]
