-- ===== src/Aggregator/Signed/Determined.antt =====
-- What the hash of a transaction for the AggLayer covers, and whose signature it is.
use zkevm_aggregator.Prelude.{
  ℕ, ◌≡◌, refl, sym, ap, ◌≢◌, subst, ◌∙◌, ◌↔◌, some, none, ◌∷◌, ◌++◌, length, append_assoc,
  Option-cases, inl, inr,
}
use zkevm_aggregator.State.{Bytes}
use zkevm_aggregator.Hex.{encode_to_hex, encode_to_string, decode_string}
use zkevm_aggregator.Hex.RoundTrip.{AllBytes, decode_string-encode_to_string}
use zkevm_aggregator.Hex.Numbers.{encode_uint64}
use zkevm_aggregator.Hex.Numerals.{hexadecimal, written, read}
use zkevm_aggregator.Hex.Numerals.Written.{read-written}
use zkevm_aggregator.Aggregator.{AggLayerTx}
use zkevm_aggregator.Aggregator.Signed.{SignedTx, Crypto, hashed_text, tx_hash, sign, signer}
use zkevm_aggregator.Aggregator.Signed.Cuts.{
  tail_eq, cut_first, cut_last, cut_parts, NoX-written, NoX-encode_to_string,
}

-- The hashes of Go are arrays of 32 bytes.
pub record IsSized (t : AggLayerTx) : Type 0 where
  pub state_root : length t.new_state_root ≡ 32
  pub exit_root : length t.new_local_exit_root ≡ 32
  pub proof : AllBytes t.proof

-- Every field but the identifier of the rollup.
pub record SameContent (t t' : AggLayerTx) : Type 0 where
  pub last_verified_batch : t.last_verified_batch ≡ t'.last_verified_batch
  pub new_verified_batch : t.new_verified_batch ≡ t'.new_verified_batch
  pub new_state_root : t.new_state_root ≡ t'.new_state_root
  pub new_local_exit_root : t.new_local_exit_root ≡ t'.new_local_exit_root
  pub proof : t.proof ≡ t'.proof

some_eq : {A : Type 0} {x y : A} → some x ≡ some y → x ≡ y
some_eq e = cc

not_some : {A : Type 0} {x : A} → none ≢ some x
not_some e = cc

written_eq : (m n : ℕ) → written hexadecimal m ≡ written hexadecimal n → m ≡ n
written_eq m n e =
    some_eq
      (sym (read-written hexadecimal m) ∙ ap (read hexadecimal) e ∙ read-written hexadecimal n)

encoded_eq :
    (a b : Bytes) → AllBytes a → AllBytes b → encode_to_string a ≡ encode_to_string b → a ≡ b
encoded_eq a b ha hb e = some_eq (
    sym (decode_string-encode_to_string a ha)
    ∙ ap decode_string e
    ∙ decode_string-encode_to_string b hb)

grouped : (b r e s : Bytes) → (b ++ (r ++ e)) ++ s ≡ b ++ (r ++ (e ++ s))
grouped b r e s = append_assoc b (r ++ e) s ∙ ap (λ x. b ++ x) (append_assoc r e s)

module _ (uint64_hex : ℕ → Bytes) (bytes_hex : Bytes → Bytes)
    (uint64_hex_lem : (n : ℕ) → uint64_hex n ≡ encode_uint64 n)
    (bytes_hex_lem : (b : Bytes) → bytes_hex b ≡ encode_to_hex b) where
  -- The text that is written out.
  hashed_text-written :
      (t : AggLayerTx)
      → hashed_text uint64_hex bytes_hex t
        ≡ b'0'
          ∷ b'x'
          ∷ (written hexadecimal t.last_verified_batch
              ++ b'0'
                ∷ b'x'
                ∷ ((written hexadecimal t.new_verified_batch
                      ++ (t.new_state_root ++ t.new_local_exit_root))
                    ++ b'0' ∷ b'x' ∷ encode_to_string t.proof))
  unfolding hashed_text encode_uint64 encode_to_hex
  hashed_text-written t =
      rw
        (
          uint64_hex_lem t.last_verified_batch,
          uint64_hex_lem t.new_verified_batch,
          bytes_hex_lem t.proof,
          grouped (written hexadecimal t.new_verified_batch) t.new_state_root t.new_local_exit_root
              (b'0' ∷ b'x' ∷ encode_to_string t.proof),
        )
        refl

  same :
      (t t' : AggLayerTx)
      → IsSized t
      → IsSized t'
      → hashed_text uint64_hex bytes_hex t ≡ hashed_text uint64_hex bytes_hex t'
      → SameContent t t'
  same t t' h h' e =
      let (last, rest) =
        cut_first _ _ _ _ (NoX-written t.last_verified_batch) (NoX-written t'.last_verified_batch)
          (tail_eq (tail_eq (sym (hashed_text-written t) ∙ e ∙ hashed_text-written t'))) in
      let (front, proof) =
        cut_last _ _ _ _ (NoX-encode_to_string t.proof h.proof)
          (NoX-encode_to_string t'.proof h'.proof) rest in
      let (new, (root, exit)) =
        cut_parts (written hexadecimal t.new_verified_batch) t.new_state_root t.new_local_exit_root
          (written hexadecimal t'.new_verified_batch) t'.new_state_root t'.new_local_exit_root
          (h.state_root ∙ sym h'.state_root) (h.exit_root ∙ sym h'.exit_root) front in
      record {
        last_verified_batch = written_eq t.last_verified_batch t'.last_verified_batch last;
        new_verified_batch = written_eq t.new_verified_batch t'.new_verified_batch new;
        new_state_root = root;
        new_local_exit_root = exit;
        proof = encoded_eq t.proof t'.proof h.proof h'.proof proof;
      }

  -- The text under the hash of `Hash` is the same exactly for transactions that agree on every field
  -- but the identifier of the rollup: texts of variable length stand next to each other, and still
  -- no two contents share a text. The roots have 32 bytes, each byte of a proof is below 256, and
  -- `ArgUint64` and `ArgBytes` write hexadecimal behind 0x.
  pub hashed_text_lem :
      (t t' : AggLayerTx)
      → IsSized t
      → IsSized t'
      → (hashed_text uint64_hex bytes_hex t ≡ hashed_text uint64_hex bytes_hex t')
        ↔ SameContent t t'
  unfolding hashed_text
  hashed_text_lem t t' h h' = (
    same t t' h h',
    λ s.
        rw
          (
            s.last_verified_batch, s.new_verified_batch, s.new_state_root, s.new_local_exit_root,
            s.proof,
          )
          refl,
  )

module _ {K P : Type 0} (uint64_hex : ℕ → Bytes) (bytes_hex : Bytes → Bytes)
    (crypto : Crypto K P) where
  -- `Signer` gives the address of the key that `Sign` signed with, where `SigToPub` recovers the
  -- public key of a signature.
  pub signer-sign :
      (public : K → P)
      → ((hash sig : Bytes) (k : K)
          → crypto.sign_hash hash k ≡ some sig
          → crypto.sig_to_pub hash sig ≡ some (public k))
      → (t : AggLayerTx) (k : K) (s : SignedTx) → sign uint64_hex bytes_hex crypto t k ≡ some s
      → signer uint64_hex bytes_hex crypto s ≡ some (crypto.pubkey_to_address (public k))
  unfolding sign signer
  signer-sign public recovers t k s e =
      elim (Option-cases (crypto.sign_hash (tx_hash uint64_hex bytes_hex crypto t) k)) [
        | inl f ↦ absurd (not_some (rw f at e))
        | inr (sig, f) ↦
            subst
              (λ x.
                signer uint64_hex bytes_hex crypto x ≡ some (crypto.pubkey_to_address (public k)))
              (some_eq (rw f at e)) (rw (recovers _ sig k f) refl)
      ]
