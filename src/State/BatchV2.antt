-- ===== src/State/BatchV2.antt =====
-- state/encoding_batch_v2.go: the bytes of a batch in the Etrog format. Positions are of type `int`
-- or uint64 in the code; the sums that can wrap are written with `u64`. A slice whose bounds are out
-- of order or past the end panics (a slice's capacity is taken to be its length).
pub mod Tx
pub mod Progress
pub mod Termination
pub mod Header
pub mod Located
pub mod Relayed
pub mod Signature
pub mod Encoded
pub mod Fields
pub mod Sent
pub mod RoundTrip
use zkevm_aggregator.Prelude.{
  ℕ, zero, suc, ◌+◌, ◌-◌, ◌*◌, ◌/◌, ◌%◌, ◌^◌, Bool, true, false, ◌&&◌, Option, none, some, List, [],
  ◌∷◌, ◌++◌, ltb, leb, ◌==◌, if◌then◌else◌, length, take, drop, get_elem?,
}
use zkevm_aggregator.Prelude.Result.{Result, ok, err, panic, ◌>>=◌}
use zkevm_aggregator.State.{Bytes, u64}
use zkevm_aggregator.Ethereum.{Ethereum, from_bytes}

-- `not_supported` is `types.ErrTxTypeNotSupported`; `out_of_fuel` is no Go error.
pub data BatchError : Type 0 where
  dont_start_with_change_l2_block invalid_batch_v2 invalid_rlp invalid_data : BatchError
  rlp_failure hex_failure parse_failure not_supported out_of_fuel : BatchError

pub record ChangeL2BlockHeader : Type 0 where
  pub delta_timestamp : ℕ
  pub index_l1_info_tree : ℕ

-- `L2TxRaw`: with `TxAlreadyEncoded` only `Data` is meaningful, without it only `Tx`.
pub data L2TxBody (Tx : Type 0) : Type 0 where
  already_encoded : Bytes → L2TxBody Tx
  transaction : Tx → L2TxBody Tx

pub record L2TxRaw (Tx : Type 0) : Type 0 where
  pub efficiency_percentage : ℕ
  pub body : L2TxBody Tx

-- `BlockNumber` is neither encoded nor set by the decoder.
pub record L2BlockRaw (Tx : Type 0) : Type 0 where
  pub header : ChangeL2BlockHeader
  pub transactions : List (L2TxRaw Tx)

abbrev pub change_l2_block : ℕ
change_l2_block = 11

unfoldable pub encode_uint32 : ℕ → Bytes
encode_uint32 v = v / 2 ^ 24 % 256 ∷ v / 2 ^ 16 % 256 ∷ v / 2 ^ 8 % 256 ∷ v % 256 ∷ []

abbrev pub slice : Bytes → ℕ → ℕ → Result BatchError Bytes
slice bs from to =
    if leb from to && leb to (length bs) then ok (take (to - from) (drop from bs)) else panic

abbrev pub at : Bytes → ℕ → Result BatchError ℕ
at bs i = elim (get_elem? bs i) [ none ↦ panic | some b ↦ ok b ]

unfoldable pub decode_uint32 : Bytes → ℕ → Result BatchError (ℕ × ℕ)
decode_uint32 txs_data pos =
    if ltb (length txs_data) (pos + 4)
    then err invalid_batch_v2
    else ok (pos + 4, from_bytes (take 4 (drop pos txs_data)))

-- `ChangeL2BlockHeader.Encode`.
unfoldable pub encode_header : ChangeL2BlockHeader → Bytes → Bytes
unfolding encode_uint32
encode_header c batch_data =
    ((batch_data ++ change_l2_block ∷ []) ++ encode_uint32 c.delta_timestamp)
    ++ encode_uint32 c.index_l1_info_tree

unfoldable pub decode_block_header :
    {Tx : Type 0} → Bytes → ℕ → Result BatchError (ℕ × L2BlockRaw Tx)
unfolding decode_uint32
decode_block_header txs_data pos = do
  (pos1, delta) ← decode_uint32 txs_data pos
  (pos2, index) ← decode_uint32 txs_data pos1
  ok (
    pos2,
    record {
      header = record { delta_timestamp = delta; index_l1_info_tree = index };
      transactions = [];
    },
  )

abbrev pub c0 : ℕ
c0 = 192

abbrev pub f7 : ℕ
f7 = 247

abbrev pub short_rlp : ℕ
short_rlp = 55

-- `strconv.ParseUint(hex.EncodeToString(bs), 16, 64)`.
abbrev pub parse_uint : Bytes → Result BatchError ℕ
parse_uint [] = err parse_failure
parse_uint (b ∷ bs) =
    let n = from_bytes (b ∷ bs) in if ltb n (2 ^ 64) then ok n else err parse_failure

-- The length of a list whose first byte is `num`, above 0xf7: the bytes after it hold the length.
abbrev pub long_length : Bytes → ℕ → ℕ → Result BatchError ℕ
long_length txs_data offset num =
    if ltb (length txs_data) (u64 (offset + 1 + (num - f7)))
    then err invalid_rlp
    else slice txs_data (offset + 1) (offset + 1 + (num - f7)) >>= λ bs.
        parse_uint bs >>= λ n. ok (u64 (u64 (n + num - f7) + 1))

unfoldable pub decode_rlp_list_length_from_offset : Bytes → ℕ → Result BatchError ℕ
decode_rlp_list_length_from_offset txs_data offset = at txs_data offset >>= λ num.
    if ltb num c0
    then err invalid_rlp
    else if ltb short_rlp (num - c0)
    then long_length txs_data offset num
    else ok (num - c0 + 1)
