-- ===== src/State/BatchV2/Sent.antt =====
-- state/helper.go: a transaction that `prepareRLPTxData` writes, and what the decoder makes of its bytes.
use zkevm_aggregator.Prelude.{
  ℕ, ◌+◌, ◌-◌, ◌*◌, ◌%◌, ◌^◌, ◌<◌, ◌≡◌, ◌⊎◌, refl, ap, ◌∙◌, true, false, some, List, [], ◌∷◌, ◌++◌,
  arith, subst,
}
use zkevm_aggregator.Prelude.Result.{ok}
use zkevm_aggregator.State.{Bytes, u64}
use zkevm_aggregator.Ethereum.{Ethereum, LegacyTx, number}
use zkevm_aggregator.Hex.RoundTrip.{AllBytes}
use zkevm_aggregator.State.BatchV2.{transaction, rlp_failure, hex_failure}
use zkevm_aggregator.State.BatchV2.Tx.{
  prepare_rlp_tx_data, is_pre_eip155_tx, chain_fields, tx_fields, tx_bytes, from_option, tx_v,
}
use zkevm_aggregator.State.BatchV2.Relayed.{Encodes, ok_bind}
use zkevm_aggregator.State.BatchV2.Encoded.{IsList, list_length, text-bytes}
use zkevm_aggregator.State.BatchV2.Signature.{word, from_bytes-word, length-word}
use zkevm_aggregator.State.BatchV2.Fields.{
  Stands, IsAddress, legacy_fields, homestead_v, protected_v, parity_homestead, parity_protected,
}

module _ (eth : Ethereum) where
  -- The V of a signature made before EIP-155, and of one that holds the chain id.
  pub data SignedV (tx : eth.Tx) : Type 0 where
    homestead :
        is_pre_eip155_tx eth tx ≡ true → (eth.sig_v tx ≡ 27) ⊎ (eth.sig_v tx ≡ 28) → SignedV tx
    protected :
        is_pre_eip155_tx eth tx ≡ false
        → (eth.sig_v tx ≡ 2 * eth.chain_id tx + 35) ⊎ (eth.sig_v tx ≡ 2 * eth.chain_id tx + 36)
        → SignedV tx

  abbrev pub legacy_of : eth.Tx → LegacyTx
  legacy_of tx = record {
    nonce = eth.nonce tx;
    gas_price = eth.gas_price tx;
    gas = eth.gas tx;
    to = eth.to tx;
    value = eth.value tx;
    payload = eth.payload tx;
    v = eth.sig_v tx;
    r = eth.sig_r tx;
    s = eth.sig_s tx;
  }

  -- A signed legacy transaction, and what RLP makes of its fields: a list of bytes that reads back as
  -- the fields' bytes.
  pub record IsSent (tx : eth.Tx) : Type 0 where
    pub first : ℕ
    pub rest : Bytes
    pub strings : List Bytes
    pub coded : eth.rlp_encode (tx_fields eth tx) ≡ some (first ∷ rest)
    pub all_bytes : AllBytes (first ∷ rest)
    pub is_list : IsList first rest
    pub decoded : eth.rlp_decode (first ∷ rest) ≡ some strings
    pub stands : Stands (tx_fields eth tx) strings
    pub nonce_small : eth.nonce tx < 2 ^ 64
    pub gas_small : eth.gas tx < 2 ^ 64
    pub is_address : IsAddress (eth.to tx)
    pub r_small : eth.sig_r tx < 2 ^ 256
    pub s_small : eth.sig_s tx < 2 ^ 256
    pub signed : SignedV tx
    pub is_legacy : eth.new_tx (legacy_of tx) ≡ tx

  abbrev sign : eth.Tx → ℕ
  sign tx = 1 - u64 (eth.sig_v tx) % 2

  sign_small : (tx : eth.Tx) → sign tx < 2
  sign_small tx = omega arith

  no_chain : (tx : eth.Tx) → is_pre_eip155_tx eth tx ≡ true → chain_fields eth tx ≡ []
  unfolding chain_fields
  no_chain tx e = rw e refl

  some_chain :
      (tx : eth.Tx)
      → is_pre_eip155_tx eth tx ≡ false
      → chain_fields eth tx ≡ number (eth.chain_id tx) ∷ number 0 ∷ number 0 ∷ []
  unfolding chain_fields
  some_chain tx e = rw e refl

  chain_v :
      (tx : eth.Tx) (tail : List Bytes)
      → SignedV tx
      → Stands (chain_fields eth tx) tail
      → tx_v tail ((27 + sign tx) ∷ []) ≡ eth.sig_v tx
  chain_v tx tail (homestead e v) stands =
      homestead_v tail (27 + sign tx) (subst (λ fs. Stands fs tail) (no_chain tx e) stands)
      ∙ parity_homestead (eth.sig_v tx) v
  chain_v tx tail (protected e v) stands =
      protected_v tail (eth.chain_id tx) (27 + sign tx)
        (subst (λ fs. Stands fs tail) (some_chain tx e) stands)
      ∙ parity_protected (eth.chain_id tx) (eth.sig_v tx) v

  abbrev pub encoded_sent : (tx : eth.Tx) → IsSent tx → Bytes
  encoded_sent tx h =
      (h.first ∷ h.rest) ++ (word (eth.sig_r tx) ++ (word (eth.sig_s tx) ++ (27 + sign tx) ∷ []))

  pub tx_bytes-sent :
      (tx : eth.Tx) (h : IsSent tx) → tx_bytes eth (transaction tx) ≡ ok (encoded_sent tx h)
  unfolding tx_bytes prepare_rlp_tx_data
  tx_bytes-sent tx h = ok_bind _ (ap (from_option rlp_failure) h.coded) (
      ap (from_option hex_failure) (
        text-bytes (h.first ∷ h.rest) (eth.sig_r tx) (eth.sig_s tx) (sign tx) h.all_bytes h.r_small
          h.s_small (sign_small tx)))

  pub sent-Encodes : (tx : eth.Tx) (h : IsSent tx) → Encodes eth (encoded_sent tx h) tx
  sent-Encodes tx h = record {
    first = h.first;
    rest = h.rest;
    r = word (eth.sig_r tx);
    s = word (eth.sig_s tx);
    v = 27 + sign tx;
    fields = h.strings;
    legacy = legacy_of tx;
    made = refl;
    is_byte = h.all_bytes.0;
    states = list_length h.first h.rest h.is_list;
    length_r = length-word (eth.sig_r tx);
    length_s = length-word (eth.sig_s tx);
    decoded = h.decoded;
    fields_of =
        legacy_fields (eth.nonce tx) (eth.gas_price tx) (eth.gas tx) (eth.value tx) (eth.sig_v tx)
          (eth.sig_r tx) (eth.sig_s tx) (27 + sign tx) (eth.to tx) (eth.payload tx)
          (chain_fields eth tx) h.strings (word (eth.sig_r tx)) (word (eth.sig_s tx)) h.stands
          h.nonce_small h.gas_small h.is_address (λ tail e. chain_v tx tail h.signed e)
          (from_bytes-word (eth.sig_r tx) h.r_small) (from_bytes-word (eth.sig_s tx) h.s_small);
    is_tx = h.is_legacy;
  }
