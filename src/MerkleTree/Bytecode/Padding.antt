-- ===== src/MerkleTree/Bytecode/Padding.antt =====
-- The padding of a bytecode, and the chunks that are hashed.
use zkevm_aggregator.Prelude.{
  ℕ, zero, suc, ◌-◌, ◌<◌, sym, if◌then◌else◌, replicate, append_assoc, append_nil, take, ◌+◌, ◌*◌,
  ◌/◌, ◌%◌, ◌≡◌, ◌≤◌, refl, ap, ◌∙◌, ◌⊎◌, inl, inr, true, false, Option, some, List, [], ◌∷◌, ◌++◌,
  length, ◌==◌, arith, Bool-cases, length-append, drop,
}
use zkevm_aggregator.Prelude.Result.{ok}
use zkevm_aggregator.State.{Bytes}
use zkevm_aggregator.MerkleTree.Bytecode.{
  pad_zeros, mark_last, pad_bytecode, element, elements, hash_chunks, hash_contract_bytecode,
}

length-mark_last : (bs : Bytes) → length (mark_last bs) ≡ length bs
length-mark_last [] = refl
length-mark_last (b ∷ []) = refl
length-mark_last (b ∷ c ∷ bs) = omega (arith, length-mark_last (c ∷ bs))

abbrev Enough : ℕ → ℕ → Type 0
Enough rounds n = (n % 56 ≡ 0) ⊎ (56 ≤ rounds + n % 56)

Enough-after :
    (rounds n : ℕ) → (n % 56 == 0) ≡ false → Enough (suc rounds) n → Enough rounds (n + 1)
Enough-after rounds n e (inl h) = absurd (ground (arith, e, h))
Enough-after rounds n e (inr h) = elim (Bool-cases ((n + 1) % 56 == 0)) [
  | inl last ↦ inl (ground (arith, last))
  | inr more ↦ inr (ground (arith, more, h))
]

same_multiple : (n : ℕ) → (n % 56 == 0) ≡ false → (n + 1 + 55) / 56 * 56 ≡ (n + 55) / 56 * 56
same_multiple n e = ground (arith, e)

-- One round is enough for each byte that is missing.
length-pad_zeros :
    (rounds : ℕ) (code : Bytes)
    → Enough rounds (length code)
    → length (pad_zeros rounds code) ≡ (length code + 55) / 56 * 56
unfolding pad_zeros
length-pad_zeros zero code (inl h) = omega arith
length-pad_zeros zero code (inr h) = absurd (omega arith)
length-pad_zeros (suc rounds) code h = elim (Bool-cases (length code % 56 == 0)) [
  | inl e ↦ ground (arith, e)
  | inr e ↦ rw e (
      length-pad_zeros rounds (code ++ (0 ∷ []))
        (rw (length-append code (0 ∷ [])) (Enough-after rounds (length code) e h))
      ∙ ap (λ n. (n + 55) / 56 * 56) (length-append code (0 ∷ []))
      ∙ same_multiple (length code) e)
]

length-pad_bytecode : (code : Bytes) → length (pad_bytecode code) ≡ (length code / 56 + 1) * 56
unfolding pad_bytecode
length-pad_bytecode code =
    length-mark_last (pad_zeros 56 (code ++ (1 ∷ [])))
    ∙ length-pad_zeros 56 (code ++ (1 ∷ [])) (inr (omega arith))
    ∙ ap (λ n. (n + 55) / 56 * 56) (length-append code (1 ∷ []))
    ∙ omega arith

-- The end that the padding adds to a code of this length: a 1, zeros, and the top bit in the last byte
-- of the chunk, which may be the byte of the 1.
pub end_mark : ℕ → Bytes
end_mark n = if n % 56 == 55 then 129 ∷ [] else (1 ∷ replicate (54 - n % 56) 0) ++ (128 ∷ [])

mark_last-snoc :
    (xs : Bytes) (b : ℕ) → b < 128 → mark_last (xs ++ (b ∷ [])) ≡ xs ++ ((b + 128) ∷ [])
mark_last-snoc [] b h = ground arith
mark_last-snoc (x ∷ []) b h = ground arith
mark_last-snoc (x ∷ y ∷ xs) b h = ap (◌∷◌ x) (mark_last-snoc (y ∷ xs) b h)

-- How many zeros are missing.
abbrev missing : ℕ → ℕ
missing n = (56 - n % 56) % 56

zeros_first : (k : ℕ) → replicate {A = ℕ} (suc k) 0 ≡ replicate k 0 ++ (0 ∷ [])
zeros_first zero = refl
zeros_first (suc k) = ap (◌∷◌ 0) (zeros_first k)

missing_next : (n : ℕ) → (n % 56 == 0) ≡ false → missing n ≡ suc (missing (n + 1))
missing_next n e = ground (arith, e)

missing_none : (n : ℕ) → n % 56 ≡ 0 → missing n ≡ 0
missing_none n e = omega (arith, e)

pad_zeros-missing :
    (rounds : ℕ) (code : Bytes)
    → Enough rounds (length code)
    → pad_zeros rounds code ≡ code ++ replicate (missing (length code)) 0
unfolding pad_zeros
pad_zeros-missing zero code (inl h) = rw (missing_none (length code) h) (sym (append_nil code))
pad_zeros-missing zero code (inr h) = absurd (omega arith)
pad_zeros-missing (suc rounds) code h = elim (Bool-cases (length code % 56 == 0)) [
  | inl e ↦ rw (e, missing_none (length code) (ground (arith, e))) (sym (append_nil code))
  | inr e ↦
      rw (e, missing_next (length code) e)
        (pad_zeros-missing rounds (code ++ (0 ∷ []))
            (rw (length-append code (0 ∷ [])) (Enough-after rounds (length code) e h))
          ∙ ap (λ n. (code ++ (0 ∷ [])) ++ replicate (missing n) 0) (length-append code (0 ∷ []))
          ∙ append_assoc code (0 ∷ []) (replicate (missing (length code + 1)) 0))
]

-- The end with so many zeros after the 1.
abbrev tail : ℕ → Bytes
tail zero = 129 ∷ []
tail (suc k) = (1 ∷ replicate k 0) ++ (128 ∷ [])

mark_last-tail :
    (code : Bytes) (k : ℕ) → mark_last ((code ++ (1 ∷ [])) ++ replicate k 0) ≡ code ++ tail k
mark_last-tail code zero =
    ap mark_last (append_nil (code ++ (1 ∷ []))) ∙ mark_last-snoc code 1 (omega arith)
mark_last-tail code (suc k) =
    ap (λ z. mark_last ((code ++ (1 ∷ [])) ++ z)) (zeros_first k)
    ∙ ap mark_last (sym (append_assoc (code ++ (1 ∷ [])) (replicate k 0) (0 ∷ [])))
    ∙ mark_last-snoc ((code ++ (1 ∷ [])) ++ replicate k 0) 0 (omega arith)
    ∙ append_assoc (code ++ (1 ∷ [])) (replicate k 0) (128 ∷ [])
    ∙ append_assoc code (1 ∷ []) (replicate k 0 ++ (128 ∷ []))

last_byte : (n : ℕ) → (n % 56 == 55) ≡ true → missing (n + 1) ≡ 0
last_byte n e = ground (arith, e)

not_last_byte : (n : ℕ) → (n % 56 == 55) ≡ false → missing (n + 1) ≡ suc (54 - n % 56)
not_last_byte n e = ground (arith, e)

tail-end_mark : (n : ℕ) → tail (missing (n + 1)) ≡ end_mark n
unfolding end_mark
tail-end_mark n = elim (Bool-cases (n % 56 == 55)) [
  | inl e ↦ ap tail (last_byte n e) ∙ rw e refl
  | inr e ↦ ap tail (not_last_byte n e) ∙ rw e refl
]

-- `pad_bytecode` adds the end to the code.
pad_bytecode-end_mark : (code : Bytes) → pad_bytecode code ≡ code ++ end_mark (length code)
unfolding pad_bytecode
pad_bytecode-end_mark code =
    ap mark_last (pad_zeros-missing 56 (code ++ (1 ∷ [])) (inr (omega arith)))
    ∙ mark_last-tail code (missing (length (code ++ (1 ∷ []))))
    ∙ ap (λ n. code ++ tail (missing n)) (length-append code (1 ∷ []))
    ∙ ap (λ t. code ++ t) (tail-end_mark (length code))

-- The number of some bytes, the lowest first.
pub little_endian : Bytes → ℕ
little_endian [] = 0
little_endian (b ∷ bs) = b + 256 * little_endian bs

-- Words of seven bytes.
pub words_of : ℕ → Bytes → List ℕ
words_of zero bs = []
words_of (suc k) bs = little_endian (take 7 bs) ∷ words_of k (drop 7 bs)

take_nil : (k : ℕ) → take {A = ℕ} k [] ≡ []
take_nil zero = refl
take_nil (suc k) = refl

element-little_endian : (k : ℕ) (bs : Bytes) → element k bs ≡ little_endian (take k bs)
unfolding little_endian
element-little_endian zero bs = refl
element-little_endian (suc k) [] =
    omega (arith, element-little_endian k [], ap little_endian (take_nil k))
element-little_endian (suc k) (b ∷ bs) = ap (λ n. b + 256 * n) (element-little_endian k bs)

cons : {m n : ℕ} {xs ys : List ℕ} → m ≡ n → xs ≡ ys → m ∷ xs ≡ n ∷ ys
cons h t = cc

elements-words_of : (k : ℕ) (bs : Bytes) → elements k bs ≡ words_of k bs
unfolding words_of
elements-words_of zero bs = refl
elements-words_of (suc k) bs = cons (element-little_endian 7 bs) (elements-words_of k (drop 7 bs))

module _ (poseidon : List ℕ → List ℕ → Option (List ℕ))
    (answers : (xs c : List ℕ) → (h : List ℕ) × (poseidon xs c ≡ some h)) where
  -- The capacity of a hash is the hash before it.
  pub sponge : ℕ → List ℕ → Bytes → List ℕ
  sponge zero h code = h
  sponge (suc n) h code = sponge n (answers (words_of 8 code) h).0 (drop 56 code)

  hash_chunks-sponge :
      (n : ℕ) (h : List ℕ) (code : Bytes) → hash_chunks poseidon n h code ≡ ok (sponge n h code)
  unfolding hash_chunks sponge
  hash_chunks-sponge zero h code = refl
  hash_chunks-sponge (suc n) h code =
      rw (elements-words_of 8 code, (answers (words_of 8 code) h).1)
        (hash_chunks-sponge n (answers (words_of 8 code) h).0 (drop 56 code))

  -- Where Poseidon never fails, `HashContractBytecode` returns a hash over the code with an end: a 1,
  -- zeros up to a multiple of 56 bytes, and the top bit set in the last byte. The hash is the last one
  -- of as many as there are chunks of 56 bytes, one more than the whole chunks of the code, each over
  -- eight words of seven bytes, the lowest byte first, with the hash before as its capacity and zeros
  -- at first.
  pub hash_contract_bytecode-sponge :
      (code : Bytes)
      → (length (code ++ end_mark (length code)) ≡ (length code / 56 + 1) * 56)
        × (hash_contract_bytecode poseidon code
            ≡ ok (
                sponge
                  (length code / 56 + 1)
                  (0 ∷ 0 ∷ 0 ∷ 0 ∷ [])
                  (code ++ end_mark (length code))))
  unfolding hash_contract_bytecode
  hash_contract_bytecode-sponge code = (
    ap length (sym (pad_bytecode-end_mark code)) ∙ length-pad_bytecode code,
    hash_chunks-sponge _ (0 ∷ 0 ∷ 0 ∷ 0 ∷ []) (pad_bytecode code)
        ∙ ap (λ n. ok (sponge n (0 ∷ 0 ∷ 0 ∷ 0 ∷ []) (pad_bytecode code)))
            (omega (arith, length-pad_bytecode code))
        ∙ ap (λ p. ok (sponge (length code / 56 + 1) (0 ∷ 0 ∷ 0 ∷ 0 ∷ []) p))
            (pad_bytecode-end_mark code),
  )
