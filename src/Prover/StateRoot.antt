-- ===== src/Prover/StateRoot.antt =====
-- aggregator/prover/prover.go: the state root that a recursive proof carries, and the recursive
-- proof with it. `publics` is `json.Unmarshal` into the struct with the one field "publics".
use zkevm_aggregator.Prelude.{
  ℕ, zero, suc, ◌+◌, ◌-◌, ◌*◌, ◌/◌, ◌%◌, ◌^◌, Bool, true, false, ◌&&◌, ◌||◌, Option, none, some,
  List, [], ◌∷◌, leb, ltb, ◌==◌, if◌then◌else◌, replicate, get_elem?,
}
use zkevm_aggregator.Prelude.Result.{Result, ok, err, panic}
use zkevm_aggregator.Prelude.Text.{codes}
use zkevm_aggregator.State.{Bytes, u64}
use zkevm_aggregator.Prover.{Stream, ProverError, ProofBody, recursive_proof, wait_proof}

-- `poseidon.NROUNDSF` is 8. The sum is over big.Int, where nothing wraps.
unfoldable pub fea2scalar : List ℕ → ℕ
fea2scalar (a ∷ b ∷ c ∷ d ∷ e ∷ f ∷ g ∷ h ∷ []) =
    a + b * 2 ^ 32 + c * 2 ^ 64 + d * 2 ^ 96 + e * 2 ^ 128 + f * 2 ^ 160 + g * 2 ^ 192 + h * 2 ^ 224
fea2scalar _ = 0

abbrev starts_with : Bytes → Bytes → Bool
starts_with [] s = true
starts_with (c ∷ cs) [] = false
starts_with (c ∷ cs) (d ∷ ds) = c == d && starts_with cs ds

-- `strings.Contains`.
abbrev pub contains : Bytes → Bytes → Bool
contains [] sub = starts_with sub []
contains (c ∷ cs) sub = starts_with sub (c ∷ cs) || contains cs sub

abbrev digits : ℕ → Bytes → Option ℕ
digits acc [] = some acc
digits acc (c ∷ cs) = if leb b'0' c && leb c b'9' then digits (acc * 10 + (c - b'0')) cs else none

abbrev positive : Option ℕ → Option ℕ
positive none = none
positive (some n) = if ltb n (2 ^ 63) then some n else none

abbrev negative : Option ℕ → Option ℕ
negative none = none
negative (some n) = if leb n (2 ^ 63) then some (u64 (2 ^ 64 - n)) else none

abbrev digits_of : Bytes → Option ℕ
digits_of [] = none
digits_of (c ∷ cs) = digits 0 (c ∷ cs)

-- `uint64` of what `strconv.ParseInt(s, 10, 64)` reads.
unfoldable pub parse_int : Bytes → Option ℕ
parse_int [] = none
parse_int (c ∷ cs) =
    if c == b'-'
    then negative (digits_of cs)
    else if c == b'+'
    then positive (digits_of cs)
    else positive (digits_of (c ∷ cs))

-- `log.Fatal` on a text that is no number, an index out of range: both end the program.
abbrev pub read_limbs : List Bytes → ℕ → ℕ → Option (List ℕ)
unfolding parse_int
read_limbs texts i zero = some []
read_limbs texts i (suc n) = elim (get_elem? texts i) [
  | none ↦ none
  | some text ↦ elim (parse_int text) [
    | none ↦ none
    | some v ↦ elim (read_limbs texts (i + 1) n) [ none ↦ none | some vs ↦ some (v ∷ vs) ]
  ]
]

abbrev big_endian : ℕ → ℕ → Bytes
big_endian zero n = []
big_endian (suc k) n = n / 256 ^ k % 256 ∷ big_endian k n

-- `common.HexToHash` of the number's digits: its low 32 bytes.
abbrev pub hash_of : ℕ → Bytes
hash_of n = big_endian 32 n

abbrev pub zero_hash : Bytes
zero_hash = replicate 32 0

abbrev pub root_of : Option (List ℕ) → Result ProverError Bytes
unfolding fea2scalar
root_of none = panic
root_of (some v) = ok (hash_of (fea2scalar v))

module _ (publics : Bytes → Option (List Bytes)) where
  -- An error of json goes with the zero hash, and the caller goes on with that hash: so does this.
  unfoldable pub get_state_root_from_proof : Bytes → Result ProverError Bytes
  get_state_root_from_proof proof =
      if contains proof (codes "publics")
      then elim (publics proof) [
        | none ↦ ok zero_hash
        | some texts ↦ root_of (read_limbs texts 19 8)
      ]
      else ok zero_hash

  abbrev with_root : Bytes → Result ProverError Bytes → Result ProverError (Bytes × Bytes)
  with_root proof (ok sr) = ok (proof, sr)
  with_root proof (err e) = err e
  with_root proof panic = panic

  -- A failed type assertion panics.
  abbrev pub recursive_with_root :
      {A : Type 0} → Result ProverError (ProofBody A) → Result ProverError (Bytes × Bytes)
  unfolding get_state_root_from_proof
  recursive_with_root (ok (recursive_proof proof)) =
      with_root proof (get_state_root_from_proof proof)
  recursive_with_root (ok _) = panic
  recursive_with_root (err e) = err e
  recursive_with_root panic = panic

  unfoldable pub wait_recursive_proof :
      {A : Type 0} → (ℕ → Bool) → Bytes → Stream A → Result ProverError (Bytes × Bytes) × Stream A
  unfolding wait_proof
  wait_recursive_proof is_done id s =
      let (r, s') = wait_proof is_done id s in (recursive_with_root r, s')
