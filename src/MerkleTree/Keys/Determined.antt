-- ===== src/MerkleTree/Keys/Determined.antt =====
-- What the key of a leaf determines.
use zkevm_aggregator.Prelude.{
  ℕ, zero, suc, ◌+◌, ◌*◌, ◌^◌, ◌<◌, ◌≤◌, ◌≡◌, refl, sym, ◌∙◌, ap, Option, none, some, List, [], ◌∷◌,
  length, arith,
}
use zkevm_aggregator.Prelude.Result.{ok, ◌>>=◌}
use zkevm_aggregator.State.{Bytes}
use zkevm_aggregator.Ethereum.{from_bytes, from_bytes_onto}
use zkevm_aggregator.Hex.RoundTrip.{AllBytes}
use zkevm_aggregator.MerkleTree.Limbs.{word0, word1, word2, word3, joined}
use zkevm_aggregator.Prelude.{get_or, lt→ltb, take, drop}
use zkevm_aggregator.MerkleTree.{
  big_endian, scalar2fea, h4_to_scalar, scalar_to_filled_byte_slice, h4_to_filled_byte_slice,
}
use zkevm_aggregator.MerkleTree.Keys.{
  LeafType, KeyError, hashed, balance, nonce, code, storage, sc_length, leaf_number, key1,
  key_eth_addr,
}

onto-injective :
    (m n : ℕ) (xs ys : Bytes)
    → AllBytes xs
    → AllBytes ys
    → length xs ≡ length ys
    → from_bytes_onto m xs ≡ from_bytes_onto n ys
    → (m ≡ n) × (xs ≡ ys)
onto-injective m n [] [] hx hy l e = (e, refl)
onto-injective m n [] (y ∷ ys) hx hy l e = absurd (omega (arith, l))
onto-injective m n (x ∷ xs) [] hx hy l e = absurd (omega (arith, l))
onto-injective m n (x ∷ xs) (y ∷ ys) (bx, hx) (by, hy) l e =
    let (e1, e2) = onto-injective (m * 256 + x) (n * 256 + y) xs ys hx hy (omega (arith, l)) e in
    (omega arith, grind arith)

-- One more than the greatest number that so many bytes make after `n`.
abbrev top : ℕ → ℕ → ℕ
top n zero = n + 1
top n (suc k) = top (n * 256 + 255) k

onto_below : (m n : ℕ) (xs : Bytes) → m ≤ n → AllBytes xs → from_bytes_onto m xs < top n (length xs)
onto_below m n [] h all = omega arith
onto_below m n (x ∷ xs) h (b, all) = onto_below (m * 256 + x) (n * 256 + 255) xs (omega arith) all

address_below : (addr : Bytes) → length addr ≡ 20 → AllBytes addr → from_bytes addr < 2 ^ 160
address_below addr l all = omega (arith, onto_below 0 0 addr (omega arith) all, ap (top 0) l)

-- Four words of 64 bits.
pub data AreWords : List ℕ → Type 0 where
  four :
      (a b c d : ℕ)
      → a < 2 ^ 64
      → b < 2 ^ 64
      → c < 2 ^ 64
      → d < 2 ^ 64
      → AreWords (a ∷ b ∷ c ∷ d ∷ [])

big_endian-injective :
    (s t : ℕ) → s < 2 ^ 256 → t < 2 ^ 256 → big_endian 32 s ≡ big_endian 32 t → s ≡ t
big_endian-injective s t hs ht e =
    sym (joined s _ _ _ _ hs (word0 s) (word1 s) (word2 s) (word3 s))
    ∙ joined t _ _ _ _ ht (ap (λ b. from_bytes (drop 24 b)) e ∙ word0 t)
        (ap (λ b. from_bytes (take 8 (drop 16 b))) e ∙ word1 t)
        (ap (λ b. from_bytes (take 8 (drop 8 b))) e ∙ word2 t)
        (ap (λ b. from_bytes (take 8 b)) e ∙ word3 t)

abbrev scalar_of : List ℕ → ℕ
scalar_of (a ∷ b ∷ c ∷ d ∷ _) = a + b * 2 ^ 64 + c * 2 ^ 128 + d * 2 ^ 192
scalar_of _ = 0

scalar_of_below : (r : List ℕ) → AreWords r → scalar_of r < 2 ^ 256
scalar_of_below _ (AreWords.four a b c d ha hb hc hd) = omega arith

scalar_of-injective : (r q : List ℕ) → AreWords r → AreWords q → scalar_of r ≡ scalar_of q → r ≡ q
scalar_of-injective _ _ (AreWords.four a b c d ha hb hc hd) (AreWords.four x y z w hx hy hz hw) e =
    let e1 : a ≡ x = omega arith in
    let e2 : b ≡ y = omega arith in
    let e3 : c ≡ z = omega arith in let e4 : d ≡ w = omega arith in cc

h4_to_filled_words :
    {E : Type 0} (r : List ℕ)
    → AreWords r
    → h4_to_filled_byte_slice {E = E} r ≡ ok (big_endian 32 (scalar_of r))
unfolding h4_to_filled_byte_slice h4_to_scalar scalar_to_filled_byte_slice
h4_to_filled_words _ (AreWords.four a b c d ha hb hc hd) =
    simp (lt→ltb (a + b * 2 ^ 64 + c * 2 ^ 128 + d * 2 ^ 192) (2 ^ 256) (omega arith)) refl

abbrev type_of : ℕ → LeafType
type_of zero = balance
type_of (suc zero) = nonce
type_of (suc (suc zero)) = code
type_of (suc (suc (suc zero))) = storage
type_of (suc (suc (suc (suc n)))) = sc_length

type_of-leaf_number : (t : LeafType) → type_of (leaf_number t) ≡ t
type_of-leaf_number balance = refl
type_of-leaf_number nonce = refl
type_of-leaf_number code = refl
type_of-leaf_number storage = refl
type_of-leaf_number sc_length = refl

key1-injective :
    (t u : LeafType) (v w : ℕ)
    → v < 2 ^ 160
    → w < 2 ^ 160
    → key1 t (scalar2fea v) ≡ key1 u (scalar2fea w)
    → (t ≡ u) × (v ≡ w)
unfolding scalar2fea
key1-injective t u v w hv hw e =
    let e0 = ap (λ l. get_or l 0 0) e in
    let e1 = ap (λ l. get_or l 1 0) e in
    let e2 = ap (λ l. get_or l 2 0) e in
    let e3 = ap (λ l. get_or l 3 0) e in
    let e4 = ap (λ l. get_or l 4 0) e in
    (
      sym (type_of-leaf_number t) ∙ ap (λ l. type_of (get_or l 6 0)) e ∙ type_of-leaf_number u,
      omega (arith, e0, e1, e2, e3, e4),
    )

-- Two answers, both made into the same key, are the same words.
same_words :
    (o p : Option (List ℕ)) (k : Bytes)
    → ((r : List ℕ) → o ≡ some r → AreWords r)
    → ((r : List ℕ) → p ≡ some r → AreWords r)
    → hashed o >>= h4_to_filled_byte_slice ≡ ok k
    → hashed p >>= h4_to_filled_byte_slice ≡ ok k
    → (r : List ℕ) × (o ≡ some r) × (p ≡ some r)
same_words none p k ho hp e f = absurd (cc)
same_words (some r) none k ho hp e f = absurd (cc)
same_words (some r) (some q) k ho hp e f =
    let wr = ho r refl in
    let wq = hp q refl in
    let same = sym (h4_to_filled_words {E = KeyError} r wr) ∙ e ∙ sym f ∙ h4_to_filled_words q wq in
    (
      r,
      refl,
      ap some (
          sym (
            scalar_of-injective r q wr wq
              (big_endian-injective _ _ (scalar_of_below r wr) (scalar_of_below q wq) (cc)))),
    )

module _ (poseidon : List ℕ → List ℕ → Option (List ℕ))
    (words : (xs c r : List ℕ) → poseidon xs c ≡ some r → AreWords r) where
  -- Two leaves with one key have the same type, address and capacity, unless Poseidon gives one hash to
  -- their two inputs. Poseidon's hashes are four words of 64 bits, and an address is 20 bytes.
  pub key_eth_addr-injective :
      (addr other : Bytes) (t u : LeafType) (c d : List ℕ) (key : Bytes)
      → length addr ≡ 20
      → AllBytes addr
      → length other ≡ 20
      → AllBytes other
      → ((r : List ℕ)
          → poseidon (key1 t (scalar2fea (from_bytes addr))) c ≡ some r
          → poseidon (key1 u (scalar2fea (from_bytes other))) d ≡ some r
          → (key1 t (scalar2fea (from_bytes addr)) ≡ key1 u (scalar2fea (from_bytes other)))
            × (c ≡ d))
      → key_eth_addr poseidon addr t c ≡ ok key
      → key_eth_addr poseidon other u d ≡ ok key
      → (t ≡ u) × (addr ≡ other) × (c ≡ d)
  unfolding key_eth_addr
  key_eth_addr-injective addr other t u c d key la ha lb hb no_collision e f =
      let (r, ea, eb) = same_words _ _ key (words _ _) (words _ _) e f in
      let (same, capacity) = no_collision r ea eb in
      let (types, numbers) =
        key1-injective t u _ _ (address_below addr la ha) (address_below other lb hb) same in
      (types, (onto-injective 0 0 addr other ha hb (la ∙ sym lb) numbers).1, capacity)
