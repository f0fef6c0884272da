-- ===== src/State/Txs/Percentages.antt =====
-- state/helper.go, `DecodeTxs`: as many efficiency percentages as transactions.
use zkevm_aggregator.Prelude.{
  ℕ, zero, suc, ◌+◌, ◌≡◌, refl, sym, ◌∙◌, Bool, true, false, Option, some, none, List, [], ◌∷◌,
  ◌++◌, ltb, leb, length, length-append, arith,
}
use zkevm_aggregator.Prelude.Result.{Result, ok}
use zkevm_aggregator.State.{Bytes, u64}
use Prim.{tt}
use zkevm_aggregator.Ethereum.{Ethereum}
use zkevm_aggregator.State.BatchV2.{BatchError, invalid_data, c0, slice, at}
use zkevm_aggregator.State.BatchV2.Tx.{from_option, rlp_fields_to_legacy_tx}
use zkevm_aggregator.State.BatchV2.Progress.{OnOk, AnyOf, OnOk-bind, OnOk-if_err, OnOk-any}
use zkevm_aggregator.State.Txs.{
  forkid_etrog, list_length, percentages_of, decode_one, checked, Decoded, at_end, with_length,
  decode_txs_from, decode_txs, percentage_length,
}

abbrev pub IsOne : List ℕ → Type 0
IsOne ps = length ps ≡ 1

OnOk-ok : {A : Type 0} (P : A → Type 0) (a : A) → P a → OnOk {E = BatchError} P (ok a)
OnOk-ok P a h = record { holds = h }

percentages_of-IsOne :
    (bs : Bytes) (from to : ℕ) → OnOk IsOne (percentages_of forkid_etrog bs from to)
percentages_of-IsOne bs from to =
    OnOk-bind AnyOf IsOne (slice bs from to) _ (OnOk-any _)
      λ s _. OnOk-bind AnyOf IsOne (at s 0) _ (OnOk-any _) λ p _. OnOk-ok IsOne (p ∷ []) refl

both_longer : (n : ℕ) {m k : ℕ} → n ≡ m → k ≡ 1 → n + k ≡ m + 1
both_longer n h e = omega arith

module _ (eth : Ethereum) where
  abbrev pub OneEach : List ℕ × eth.Tx → Type 0
  OneEach r = length r.0 ≡ 1

  abbrev pub SameLength : Decoded eth → Type 0
  SameLength r = length r.1 ≡ length r.0

  decode_one-OneEach :
      (bs : Bytes) (pos end_pos data_start : ℕ)
      → OnOk OneEach (decode_one eth forkid_etrog bs pos end_pos data_start)
  unfolding decode_one
  decode_one-OneEach bs pos end_pos data_start =
      OnOk-bind AnyOf OneEach (slice bs pos end_pos) _ (OnOk-any _) λ full _.
        OnOk-bind AnyOf OneEach (slice bs pos data_start) _ (OnOk-any _) λ tx _.
          OnOk-bind AnyOf OneEach (slice bs data_start _) _ (OnOk-any _) λ r _.
            OnOk-bind AnyOf OneEach (slice bs _ _) _ (OnOk-any _) λ s _.
              OnOk-bind AnyOf OneEach (slice bs _ _) _ (OnOk-any _) λ v _.
                OnOk-bind IsOne OneEach
                  (percentages_of forkid_etrog bs (u64 (data_start + 65)) end_pos) _
                  (percentages_of-IsOne bs (u64 (data_start + 65)) end_pos)
                  λ ps one.
                    OnOk-bind AnyOf OneEach (from_option invalid_data (eth.rlp_decode tx)) _
                      (OnOk-any _)
                      λ fields _.
                        OnOk-bind AnyOf OneEach (rlp_fields_to_legacy_tx fields v r s) _
                          (OnOk-any _) λ legacy _. OnOk-ok OneEach _ one

  at_end-SameLength :
      (b : Bool) (done : Decoded eth) (turn : ℕ → Result BatchError (Decoded eth))
      → SameLength done
      → OnOk SameLength (turn 0)
      → OnOk SameLength (at_end eth b done turn)
  at_end-SameLength true done turn h k = OnOk-ok SameLength done h
  at_end-SameLength false done turn h k = k

  with_length-SameLength :
      (o : Option ℕ) (turn : ℕ → Result BatchError (Decoded eth))
      → ((len : ℕ) → OnOk SameLength (turn len))
      → OnOk SameLength (with_length eth o turn)
  with_length-SameLength none turn h = OnOk-ok SameLength ([], []) refl
  with_length-SameLength (some len) turn h = h len

  decode_txs_from-SameLength :
      (fuel : ℕ) (bs : Bytes) (pos : ℕ) (txs : List eth.Tx) (ps : List ℕ)
      → length ps ≡ length txs
      → OnOk SameLength (decode_txs_from eth fuel forkid_etrog bs pos txs ps)
  unfolding decode_txs_from
  decode_txs_from-SameLength zero bs pos txs ps same = record { holds = tt }
  decode_txs_from-SameLength (suc fuel) bs pos txs ps same =
      at_end-SameLength (leb (length bs) pos) (txs, ps) _ same
        (OnOk-bind AnyOf SameLength (at bs pos) _ (OnOk-any _) λ num _.
          OnOk-if_err SameLength (ltb num c0) invalid_data _ λ _.
            OnOk-bind AnyOf SameLength (list_length bs pos num) _ (OnOk-any _) λ answer _.
              with_length-SameLength answer _ λ len.
                OnOk-bind AnyOf SameLength
                  (checked eth bs pos (u64 (pos + len + 66 + percentage_length forkid_etrog))) _
                  (OnOk-any _)
                  λ end_pos _.
                    OnOk-bind OneEach SameLength
                      (decode_one eth forkid_etrog bs pos end_pos (u64 (pos + len + 1))) _
                      (decode_one-OneEach bs pos end_pos _)
                      λ (q, tx) one.
                        decode_txs_from-SameLength fuel bs end_pos (txs ++ tx ∷ []) (ps ++ q) (
                          length-append ps q
                          ∙ both_longer (length ps) same one
                          ∙ sym (length-append txs (tx ∷ []))))

  -- What `DecodeTxs` returns for the fork Etrog has as many efficiency percentages as transactions,
  -- so the sanity check of `DecodeForcedBatchV2` never fails.
  pub decode_txs-SameLength : (bs : Bytes) → OnOk SameLength (decode_txs eth bs forkid_etrog)
  unfolding decode_txs
  decode_txs-SameLength bs = decode_txs_from-SameLength (suc (length bs)) bs 0 [] [] refl
