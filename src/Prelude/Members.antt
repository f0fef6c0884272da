-- ===== src/Prelude/Members.antt =====
-- Membership in the lists that the queries build: joins, filtered tables, the first least row.
use Prim.Native.Nat.{ℕ, ◌≤◌}
use mathlib.Core.Path.{◌≡◌, refl, sym, ap, subst, ◌∙◌}
use mathlib.Core.Logic.{◌⊎◌, inl, inr}
use mathlib.Core.Bool.{Bool, true, false}
use mathlib.Core.List.{List, [], ◌∷◌, ◌++◌, map, Memᴰ}
use mathlib.Core.Option.{none, some}
use native.Mathlib.Omega.{arith}
use zkevm_aggregator.Prelude.Tests.{Bool-cases, Option-cases, leb, leb→le, le_of_not_leb}
use zkevm_aggregator.Prelude.Lists.{keep_if, find?, first_min}

-- The rows of a join of two tables, left rows first.
abbrev pub pairs {ℓ} : {A : Type ℓ} → List A → List A → List (A × A)
pairs [] ys = []
pairs (x ∷ xs) ys = map (λ y. (x, y)) ys ++ pairs xs ys

module _ {ℓ} {A : Type ℓ} where
  pub mem_append_left : {x : A} {xs : List A} → (ys : List A) → Memᴰ x xs → Memᴰ x (xs ++ ys)
  mem_append_left ys (Memᴰ.head e) = Memᴰ.head e
  mem_append_left ys (Memᴰ.tail m) = Memᴰ.tail (mem_append_left ys m)

  pub mem_append_right : {x : A} (xs : List A) {ys : List A} → Memᴰ x ys → Memᴰ x (xs ++ ys)
  mem_append_right [] m = m
  mem_append_right (z ∷ xs) m = Memᴰ.tail (mem_append_right xs m)

  pub mem_append_cases :
      {x : A} (xs : List A) {ys : List A} → Memᴰ x (xs ++ ys) → Memᴰ x xs ⊎ Memᴰ x ys
  mem_append_cases [] m = inr m
  mem_append_cases (z ∷ xs) (Memᴰ.head e) = inl (Memᴰ.head e)
  mem_append_cases (z ∷ xs) (Memᴰ.tail m) = elim (mem_append_cases xs m) [
    | inl l ↦ inl (Memᴰ.tail l)
    | inr r ↦ inr r
  ]

module _ {ℓ} {A : Type ℓ} where
  mem_map_pair :
      (x : A) {y : A} {ys : List A} → Memᴰ y ys → Memᴰ {A = A × A} (x, y) (map (λ z. (x, z)) ys)
  mem_map_pair x (Memᴰ.head e) = Memᴰ.head (ap (λ z. (x, z)) e)
  mem_map_pair x (Memᴰ.tail m) = Memᴰ.tail (mem_map_pair x m)

  pub mem_pairs :
      {x y : A} (xs : List A) {ys : List A}
      → Memᴰ x xs
      → Memᴰ y ys
      → Memᴰ {A = A × A} (x, y) (pairs xs ys)
  mem_pairs [] m n = elim m [ ]
  mem_pairs {x} {y} (z ∷ xs) {ys} (Memᴰ.head e) n =
      mem_append_left (pairs xs ys)
        (subst (λ w. Memᴰ {A = A × A} (x, y) (map (λ v. (w, v)) ys)) e (mem_map_pair x n))
  mem_pairs (z ∷ xs) {ys} (Memᴰ.tail m) n =
      mem_append_right (map (λ v. (z, v)) ys) (mem_pairs xs m n)

  mem_map_pair_parts :
      (x : A) {q : A × A} (ys : List A) → Memᴰ q (map (λ z. (x, z)) ys) → (q.0 ≡ x) × Memᴰ q.1 ys
  mem_map_pair_parts x [] m = elim m [ ]
  mem_map_pair_parts x (y ∷ ys) (Memᴰ.head e) =
      (ap (λ (r : A × A). r.0) e, Memᴰ.head (ap (λ (r : A × A). r.1) e))
  mem_map_pair_parts x (y ∷ ys) (Memᴰ.tail m) =
      let (e, n) = mem_map_pair_parts x ys m in (e, Memᴰ.tail n)

  pub pairs_parts : {q : A × A} (xs ys : List A) → Memᴰ q (pairs xs ys) → Memᴰ q.0 xs × Memᴰ q.1 ys
  pairs_parts [] ys m = elim m [ ]
  pairs_parts (x ∷ xs) ys m = elim (mem_append_cases (map (λ z. (x, z)) ys) m) [
    | inl here ↦ let (e, n) = mem_map_pair_parts x ys here in (Memᴰ.head e, n)
    | inr later ↦ let (l, r) = pairs_parts xs ys later in (Memᴰ.tail l, r)
  ]

  pub mem_keep_if :
      (f : A → Bool) {x : A} (xs : List A) → Memᴰ x xs → f x ≡ true → Memᴰ x (keep_if f xs)
  mem_keep_if f [] m h = elim m [ ]
  mem_keep_if f (y ∷ xs) (Memᴰ.head e) h = rw (sym (ap f e) ∙ h) (Memᴰ.head e)
  mem_keep_if f (y ∷ xs) (Memᴰ.tail m) h = elim (Bool-cases (f y)) [
    | inl p ↦ rw p (Memᴰ.tail (mem_keep_if f xs m h))
    | inr p ↦ rw p (mem_keep_if f xs m h)
  ]

  pub keep_if_parts :
      (f : A → Bool) {x : A} (xs : List A) → Memᴰ x (keep_if f xs) → Memᴰ x xs × (f x ≡ true)
  keep_if_parts f [] m = elim m [ ]
  keep_if_parts f {x} (y ∷ xs) m = elim (Bool-cases (f y)) [
    | inl p ↦ kept (keep_if_parts f xs) p (rw p at m)
    | inr p ↦ let (n, h) = keep_if_parts f xs (rw p at m) in (Memᴰ.tail n, h)
  ]
    where
      kept :
          (Memᴰ x (keep_if f xs) → Memᴰ x xs × (f x ≡ true))
          → f y ≡ true
          → Memᴰ x (y ∷ keep_if f xs)
          → Memᴰ x (y ∷ xs) × (f x ≡ true)
      kept rest p (Memᴰ.head e) = (Memᴰ.head e, ap f e ∙ p)
      kept rest p (Memᴰ.tail n) = let (k, h) = rest n in (Memᴰ.tail k, h)

  pub first_min-none : (key : A → ℕ) (xs : List A) → first_min key xs ≡ none → xs ≡ []
  first_min-none key [] e = refl
  first_min-none key (x ∷ xs) e = ground arith

  abbrev IsLeast : (A → ℕ) → List A → A → Type ℓ
  IsLeast key xs x = Memᴰ x xs × ((y : A) → Memᴰ y xs → key x ≤ key y)

  IsLeast-head :
      (key : A → ℕ) {x z : A} (xs : List A)
      → z ≡ x
      → ((y : A) → Memᴰ y xs → key z ≤ key y)
      → IsLeast key (z ∷ xs) x
  IsLeast-head key {x} {z} xs e below = (Memᴰ.head (sym e), lower)
    where
      lower : (y : A) → Memᴰ y (z ∷ xs) → key x ≤ key y
      lower y (Memᴰ.head p) = omega (arith, ap key e, ap key p)
      lower y (Memᴰ.tail m) = omega (arith, ap key e, below y m)

  IsLeast-tail :
      (key : A → ℕ) {x z : A} (xs : List A)
      → IsLeast key xs x
      → key x ≤ key z
      → IsLeast key (z ∷ xs) x
  IsLeast-tail key {x} {z} xs (m, below) h = (Memᴰ.tail m, lower)
    where
      lower : (y : A) → Memᴰ y (z ∷ xs) → key x ≤ key y
      lower y (Memᴰ.head p) = omega (arith, ap key p)
      lower y (Memᴰ.tail n) = below y n

  -- The entry found is in the list, and none has a lesser key.
  pub first_min_lem :
      (key : A → ℕ) (xs : List A) {x : A}
      → first_min key xs ≡ some x
      → Memᴰ x xs × ((y : A) → Memᴰ y xs → key x ≤ key y)
  first_min_lem key [] e = cc
  first_min_lem key (z ∷ xs) {x} e = elim (Option-cases (first_min key xs)) [
    | inl n ↦
        IsLeast-head key xs (ground arith)
          (λ y m. elim (subst (Memᴰ y) (first_min-none key xs n) m) [ ])
    | inr (w, s) ↦ elim (Bool-cases (leb (key z) (key w))) [
      | inl le ↦
          let (m, below) = first_min_lem key xs s in
          IsLeast-head key xs (ground arith) (λ y n. omega (arith, leb→le _ _ le, below y n))
      | inr gt ↦
          let (m, below) = first_min_lem key xs s in
          let e' : w ≡ x = ground arith in
          IsLeast-tail key xs (subst (IsLeast key xs) e' (m, below))
            (omega (arith, le_of_not_leb _ _ gt, ap key e'))
    ]
  ]

  pub find?-none :
      (f : A → Bool) {x : A} {xs : List A} → Memᴰ x xs → find? f xs ≡ none → f x ≡ false
  find?-none f {xs = []} m h = elim m [ ]
  find?-none f {xs = y ∷ ys} (Memᴰ.head e) h = rw (ap f e) (ground arith)
  find?-none f {xs = y ∷ ys} (Memᴰ.tail m) h = find?-none f m (ground arith)
