-- ===== src/State/Txs.antt =====
-- state/helper.go, `DecodeTxs`, and state/encoding_batch_v2.go, `DecodeForcedBatchV2`: transactions
-- with no block headers between them. The bytes that `DecodeTxs` returns are those it got, and are
-- left out.
pub mod Percentages
pub mod Termination
use zkevm_aggregator.Prelude.{
  ℕ, zero, suc, ◌+◌, ◌-◌, ◌%◌, ◌^◌, Bool, true, false, Option, some, none, List, [], ◌∷◌, ◌++◌, ltb,
  leb, ◌==◌, length, get_elem?, if◌then◌else◌,
}
use zkevm_aggregator.Prelude.Result.{Result, ok, err, panic, ◌>>=◌}
use zkevm_aggregator.State.{Bytes, u64}
use zkevm_aggregator.Ethereum.{Ethereum}
use zkevm_aggregator.State.BatchV2.{
  BatchError, invalid_data, invalid_rlp, out_of_fuel, L2TxRaw, transaction, slice, at, c0, f7,
  short_rlp, parse_uint,
}
use zkevm_aggregator.State.BatchV2.Tx.{from_option, rlp_fields_to_legacy_tx}

abbrev pub forkid_dragonfruit : ℕ
forkid_dragonfruit = 5

abbrev pub forkid_etrog : ℕ
forkid_etrog = 7

-- The length that the header states. `none` is the return of the outer `err`, which is nil, where
-- the bytes of the length are missing.
unfoldable pub list_length : Bytes → ℕ → ℕ → Result BatchError (Option ℕ)
list_length txs_data pos num =
    if ltb short_rlp (num - c0)
    then (if ltb (length txs_data) (u64 (pos + 1 + (num - f7)))
        then ok none
        else slice txs_data (pos + 1) (pos + 1 + (num - f7)) >>= λ bs. parse_uint bs >>= λ n.
            if ltb (u64 (n + num)) f7 then err invalid_data else ok (some (u64 (n + num) - f7)))
    else ok (some (num - c0))

abbrev pub percentage_length : ℕ → ℕ
percentage_length fork_id = if leb forkid_dragonfruit fork_id then 1 else 0

abbrev pub percentages_of : ℕ → Bytes → ℕ → ℕ → Result BatchError (List ℕ)
percentages_of fork_id txs_data from to =
    if leb forkid_dragonfruit fork_id
    then (slice txs_data from to >>= λ bs. at bs 0 >>= λ p. ok (p ∷ []))
    else ok []

module _ (eth : Ethereum) where
  unfoldable pub decode_one : ℕ → Bytes → ℕ → ℕ → ℕ → Result BatchError (List ℕ × eth.Tx)
  unfolding rlp_fields_to_legacy_tx
  decode_one fork_id txs_data pos end_pos data_start = do
    full_data_tx ← slice txs_data pos end_pos
    tx_info ← slice txs_data pos data_start
    r_data ← slice txs_data data_start (u64 (data_start + 32))
    s_data ← slice txs_data (u64 (data_start + 32)) (u64 (data_start + 64))
    v_data ← slice txs_data (u64 (data_start + 64)) (u64 (data_start + 65))
    percentage ← percentages_of fork_id txs_data (u64 (data_start + 65)) end_pos
    fields ← from_option invalid_data (eth.rlp_decode tx_info)
    legacy_tx ← rlp_fields_to_legacy_tx fields v_data r_data s_data
    ok (percentage, eth.new_tx legacy_tx)

  -- The checks between the length and the slices.
  abbrev pub checked : Bytes → ℕ → ℕ → Result BatchError ℕ
  checked txs_data pos end_pos =
      if ltb (length txs_data) end_pos
      then err invalid_data
      else if ltb end_pos pos
      then err invalid_data
      else ok end_pos

  abbrev pub Decoded : Type 0
  Decoded = List eth.Tx × List ℕ

  abbrev pub at_end : Bool → Decoded → (ℕ → Result BatchError Decoded) → Result BatchError Decoded
  at_end true done turn = ok done
  at_end false done turn = turn 0

  abbrev pub with_length : Option ℕ → (ℕ → Result BatchError Decoded) → Result BatchError Decoded
  with_length none turn = ok ([], [])
  with_length (some len) turn = turn len

  unfoldable pub decode_txs_from :
      ℕ → ℕ → Bytes → ℕ → List eth.Tx → List ℕ → Result BatchError Decoded
  unfolding list_length decode_one
  decode_txs_from zero fork_id txs_data pos txs percentages = err out_of_fuel
  decode_txs_from (suc fuel) fork_id txs_data pos txs percentages =
      at_end (leb (length txs_data) pos) (txs, percentages)
        λ _. at txs_data pos >>= λ num.
          if ltb num c0
          then err invalid_data
          else list_length txs_data pos num >>= λ answer. with_length answer λ len.
            checked txs_data pos (u64 (pos + len + 66 + percentage_length fork_id)) >>= λ end_pos.
            decode_one fork_id txs_data pos end_pos (u64 (pos + len + 1)) >>= λ (percentage, tx).
            decode_txs_from fuel fork_id txs_data end_pos (txs ++ tx ∷ [])
              (percentages ++ percentage)

  -- Every turn moves `pos` forward, so that the bytes are fuel enough.
  unfoldable pub decode_txs : Bytes → ℕ → Result BatchError Decoded
  unfolding decode_txs_from
  decode_txs txs_data fork_id = decode_txs_from (suc (length txs_data)) fork_id txs_data 0 [] []

  abbrev pub forced : List eth.Tx → List ℕ → List (L2TxRaw eth.Tx)
  forced [] ps = []
  forced (tx ∷ txs) [] = []
  forced (tx ∷ txs) (p ∷ ps) =
      record { efficiency_percentage = p; body = transaction tx } ∷ forced txs ps

  unfoldable pub decode_forced_batch_v2 : Bytes → Result BatchError (List (L2TxRaw eth.Tx))
  unfolding decode_txs
  decode_forced_batch_v2 txs_data = decode_txs txs_data forkid_etrog >>= λ (txs, ps).
      if length ps == length txs then ok (forced txs ps) else err invalid_rlp
