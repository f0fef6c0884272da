-- ===== src/Prelude/Lists.antt =====
-- Lists measured, indexed and searched by native numbers and Boolean tests, under the library's
-- names where it has one. Go slices are lists, and `append`, slicing and `range` are these.
use Prim.Native.Nat.{ℕ, zero, suc, ◌+◌, ◌-◌, min}
use mathlib.Core.Path.{◌≡◌, refl, ap}
use mathlib.Core.Bool.{Bool, true, false, ◌||◌}
use mathlib.Core.List.{List, [], ◌∷◌, ◌++◌, Memᴰ}
use mathlib.Core.Option.{Option, none, some}
use native.Mathlib.Omega.{arith}
use zkevm_aggregator.Prelude.Tests.{if◌then◌else◌, Bool-cases, leb}
use mathlib.Core.Logic.{inl, inr}

module _ {ℓ} {A : Type ℓ} where
  abbrev pub length : List A → ℕ
  length [] = 0
  length (x ∷ xs) = suc (length xs)

  abbrev pub get_elem? : List A → ℕ → Option A
  get_elem? [] i = none
  get_elem? (x ∷ xs) zero = some x
  get_elem? (x ∷ xs) (suc i) = get_elem? xs i

  abbrev pub get_or : List A → ℕ → A → A
  get_or [] i d = d
  get_or (x ∷ xs) zero d = x
  get_or (x ∷ xs) (suc i) d = get_or xs i d

  -- A write out of bounds changes nothing.
  abbrev pub set : List A → ℕ → A → List A
  set [] i v = []
  set (x ∷ xs) zero v = v ∷ xs
  set (x ∷ xs) (suc i) v = x ∷ set xs i v

  abbrev pub take : ℕ → List A → List A
  take zero xs = []
  take (suc n) [] = []
  take (suc n) (x ∷ xs) = x ∷ take n xs

  abbrev pub drop : ℕ → List A → List A
  drop zero xs = xs
  drop (suc n) [] = []
  drop (suc n) (x ∷ xs) = drop n xs

  abbrev pub replicate : ℕ → A → List A
  replicate zero a = []
  replicate (suc n) a = a ∷ replicate n a

  abbrev pub any : (A → Bool) → List A → Bool
  any f [] = false
  any f (x ∷ xs) = f x || any f xs

  abbrev pub keep_if : (A → Bool) → List A → List A
  keep_if f [] = []
  keep_if f (x ∷ xs) = let rest = keep_if f xs in if f x then x ∷ rest else rest

  abbrev pub find? : (A → Bool) → List A → Option A
  find? f [] = none
  find? f (x ∷ xs) = if f x then some x else find? f xs

  -- `ORDER BY key ASC LIMIT 1`.
  abbrev pub first_min : (A → ℕ) → List A → Option A
  first_min key [] = none
  first_min key (x ∷ xs) = elim (first_min key xs) [
    | none ↦ some x
    | some y ↦ if leb (key x) (key y) then some x else some y
  ]

module _ {ℓ} {A : Type ℓ} where
  pub append_assoc : (xs ys zs : List A) → (xs ++ ys) ++ zs ≡ xs ++ (ys ++ zs)
  append_assoc [] ys zs = refl
  append_assoc (x ∷ xs) ys zs = ap (◌∷◌ x) (append_assoc xs ys zs)

  pub append_nil : (xs : List A) → xs ++ [] ≡ xs
  append_nil [] = refl
  append_nil (x ∷ xs) = ap (◌∷◌ x) (append_nil xs)

  pub length-append : (xs ys : List A) → length (xs ++ ys) ≡ length xs + length ys
  length-append [] ys = omega arith
  length-append (x ∷ xs) ys = omega (arith, length-append xs ys)

  pub length-replicate : (n : ℕ) (a : A) → length (replicate n a) ≡ n
  length-replicate zero a = refl
  length-replicate (suc n) a = ap suc (length-replicate n a)

  pub take-append_self : (xs ys : List A) → take (length xs) (xs ++ ys) ≡ xs
  take-append_self [] ys = refl
  take-append_self (x ∷ xs) ys = ap (◌∷◌ x) (take-append_self xs ys)

  pub drop-append_self : (xs ys : List A) → drop (length xs) (xs ++ ys) ≡ ys
  drop-append_self [] ys = refl
  drop-append_self (x ∷ xs) ys = drop-append_self xs ys

  pub length-take : (n : ℕ) (xs : List A) → length (take n xs) ≡ min n (length xs)
  length-take zero xs = omega arith
  length-take (suc n) [] = omega arith
  length-take (suc n) (x ∷ xs) = omega (arith, length-take n xs)

  pub length-drop : (n : ℕ) (xs : List A) → length (drop n xs) ≡ length xs - n
  length-drop zero xs = omega arith
  length-drop (suc n) [] = omega arith
  length-drop (suc n) (x ∷ xs) = omega (arith, length-drop n xs)

module _ {ℓ} {A : Type ℓ} where
  pub any-append : (f : A → Bool) (xs ys : List A) → any f (xs ++ ys) ≡ any f xs || any f ys
  any-append f [] ys = refl
  any-append f (x ∷ xs) ys = ground (arith, any-append f xs ys)

  -- A test that holds of some entry has a witness, and an entry that passes makes it hold.
  pub any-witness :
      (f : A → Bool) (xs : List A) → any f xs ≡ true → (x : A) × Memᴰ x xs × (f x ≡ true)
  any-witness f [] h = cc
  any-witness f (x ∷ xs) h = elim (Bool-cases (f x)) [
    | inl p ↦ (x, Memᴰ.head refl, p)
    | inr p ↦ let (y, m, q) = any-witness f xs (ground arith) in (y, Memᴰ.tail m, q)
  ]

  pub any_of_mem : (f : A → Bool) {x : A} {xs : List A} → Memᴰ x xs → f x ≡ true → any f xs ≡ true
  any_of_mem f (Memᴰ.head e) p = ground (arith, ap f e)
  any_of_mem f (Memᴰ.tail m) p = ground (arith, any_of_mem f m p)

  pub find?-mem :
      (f : A → Bool) (xs : List A) {x : A} → find? f xs ≡ some x → Memᴰ x xs × (f x ≡ true)
  find?-mem f [] e = cc
  find?-mem f (y ∷ xs) {x} e = elim (Bool-cases (f y)) [
    | inl p ↦ (Memᴰ.head (ground arith), ground arith)
    | inr p ↦ let (m, q) = find?-mem f xs (ground arith) in (Memᴰ.tail m, q)
  ]
