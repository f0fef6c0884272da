-- ===== src/State/BatchV2/Fields.antt =====
-- state/helper.go: what `RlpFieldsToLegacyTx` makes of the fields that RLP reads, and the byte of V.
use zkevm_aggregator.Prelude.{
  ℕ, ◌+◌, ◌-◌, ◌*◌, ◌%◌, ◌^◌, ◌<◌, ◌≡◌, ◌⊎◌, inl, inr, ap, ◌∙◌, some, none, List, [], ◌∷◌, ◌++◌,
  length, arith, Option, drop, replicate,
}
use zkevm_aggregator.Prelude.Result.{ok}
use zkevm_aggregator.State.{Bytes, u64}
use zkevm_aggregator.Ethereum.{Field, number, bytes, address, from_bytes}
use zkevm_aggregator.State.BatchV2.Tx.{rlp_fields_to_legacy_tx, to_field, tx_v}

-- What RLP makes of an item: the big-endian bytes of a number, and bytes as they are.
pub data Stands : List Field → List Bytes → Type 0 where
  no_fields : Stands [] []
  a_number :
      {n : ℕ} {b : Bytes} {fs : List Field} {bs : List Bytes}
      → from_bytes b ≡ n
      → Stands fs bs
      → Stands (number n ∷ fs) (b ∷ bs)
  some_bytes :
      {b : Bytes} {fs : List Field} {bs : List Bytes}
      → Stands fs bs
      → Stands (bytes b ∷ fs) (b ∷ bs)
  no_address :
      {fs : List Field} {bs : List Bytes} → Stands fs bs → Stands (address none ∷ fs) ([] ∷ bs)
  an_address :
      {a : Bytes} {fs : List Field} {bs : List Bytes}
      → Stands fs bs
      → Stands (address (some a) ∷ fs) (a ∷ bs)

-- An address has 20 bytes.
abbrev pub IsAddress : Option Bytes → Type 0
IsAddress none = Unit {0}
IsAddress (some a) = length a ≡ 20

no_wrap : (n : ℕ) → n < 2 ^ 64 → u64 n ≡ n
no_wrap n h = omega arith

to_field-address : (a : Bytes) → length a ≡ 20 → to_field a ≡ some a
to_field-address [] h = absurd (omega arith)
to_field-address (b ∷ a) h =
    let no_zeros : 20 - length (b ∷ a) ≡ 0 = omega arith in
    let none_dropped : length (b ∷ a) - 20 ≡ 0 = omega arith in
    ap (λ k. some (replicate k 0 ++ drop (length (b ∷ a) - 20) (b ∷ a))) no_zeros
    ∙ ap (λ k. some (drop k (b ∷ a))) none_dropped

pub legacy_fields :
    (n p g val w rn sn v : ℕ) (to : Option Bytes) (data_ : Bytes) (chain : List Field)
    (strings : List Bytes) (r s : Bytes)
    → Stands
        (number n ∷ number p ∷ number g ∷ address to ∷ number val ∷ bytes data_ ∷ chain)
        strings
    → n < 2 ^ 64
    → g < 2 ^ 64
    → IsAddress to
    → ((tail : List Bytes) → Stands chain tail → tx_v tail (v ∷ []) ≡ w)
    → from_bytes r ≡ rn
    → from_bytes s ≡ sn
    → rlp_fields_to_legacy_tx strings (v ∷ []) r s
      ≡ ok (record {
        nonce = n;
        gas_price = p;
        gas = g;
        to = to;
        value = val;
        payload = data_;
        v = w;
        r = rn;
        s = sn;
      })
unfolding rlp_fields_to_legacy_tx
legacy_fields n p g val w rn sn v to data_ chain strings r s
      (a_number en (a_number ep (a_number eg (no_address (a_number ev (some_bytes tail)))))) hn hg
      ha hv hr hs =
    λ i. ok (record {
      nonce = (ap u64 en ∙ no_wrap n hn) i;
      gas_price = ep i;
      gas = (ap u64 eg ∙ no_wrap g hg) i;
      to = none;
      value = ev i;
      payload = data_;
      v = hv _ tail i;
      r = hr i;
      s = hs i;
    })
legacy_fields n p g val w rn sn v to data_ chain strings r s
      (a_number en (a_number ep (a_number eg (an_address {a = a} (a_number ev (some_bytes tail))))))
      hn hg ha hv hr hs =
    λ i. ok (record {
      nonce = (ap u64 en ∙ no_wrap n hn) i;
      gas_price = ep i;
      gas = (ap u64 eg ∙ no_wrap g hg) i;
      to = to_field-address a ha i;
      value = ev i;
      payload = data_;
      v = hv _ tail i;
      r = hr i;
      s = hs i;
    })

pub homestead_v : (tail : List Bytes) (v : ℕ) → Stands [] tail → tx_v tail (v ∷ []) ≡ v
homestead_v tail v no_fields = omega arith

pub protected_v :
    (tail : List Bytes) (c v : ℕ)
    → Stands (number c ∷ number 0 ∷ number 0 ∷ []) tail
    → tx_v tail (v ∷ []) ≡ v + c * 2 + 35 - 27
protected_v tail c v (a_number e rest) = ap (λ n. 0 + v + n * 2 + 35 - 27) e ∙ (omega arith)

-- The byte of V that is written holds the parity of V.
pub parity_homestead : (v : ℕ) → (v ≡ 27) ⊎ (v ≡ 28) → 27 + (1 - u64 v % 2) ≡ v
parity_homestead v (inl e) = omega arith
parity_homestead v (inr e) = omega arith

pub parity_protected :
    (c v : ℕ) → (v ≡ 2 * c + 35) ⊎ (v ≡ 2 * c + 36) → 27 + (1 - u64 v % 2) + c * 2 + 35 - 27 ≡ v
parity_protected c v (inl e) = omega arith
parity_protected c v (inr e) = omega arith
