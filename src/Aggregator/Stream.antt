-- ===== src/Aggregator/Stream.antt =====
-- aggregator.go: the fields in which the aggregator collects a batch from the data stream, and the
-- monad of the functions that write them. A step that fails leaves what was written before it.
-- The stream's client and the protocol buffers are parameters.
pub mod AccInputHash
pub mod Waits
pub mod Waiting
pub mod Save
pub mod Entry
pub mod Post
pub mod Assembled
pub mod Silent
pub mod Stored
pub mod Refinement
pub mod Ended
pub mod Rows
use zkevm_aggregator.Prelude.{
  ℕ, ◌+◌, Bool, true, false, Option, none, some, List, [], ◌∷◌, ◌++◌, ◌==◌, if◌then◌else◌,
}
use zkevm_aggregator.Prelude.Result.{Result, ok, err, panic}
use zkevm_aggregator.State.{Bytes, Batch, BatchType, DbBatch}
use zkevm_aggregator.State.BatchV2.{L2BlockRaw}
use zkevm_aggregator.Aggregator.{Err, failure, World, M}

-- The types of `datastreamer.FileEntry`; `other` is any that the handler does not know.
pub data EntryType : Type 0 where
  bookmark batch_start batch_end l2_block transaction other : EntryType

pub record FileEntry : Type 0 where
  pub entry_type : EntryType
  pub data_bytes : Bytes

-- The messages of the stream. A batch type that is no constant of the protocol counts as unspecified.
pub record BatchStart : Type 0 where
  pub number : ℕ
  pub chain_id : ℕ
  pub fork_id : ℕ
  pub batch_type : BatchType

pub record BatchEnd : Type 0 where
  pub local_exit_root : Bytes
  pub state_root : Bytes

pub record L2Block : Type 0 where
  pub number : ℕ
  pub delta_timestamp : ℕ
  pub l1_infotree_index : ℕ
  pub coinbase : Bytes
  pub global_exit_root : Bytes

pub record Transaction : Type 0 where
  pub encoded : Bytes
  pub effective_gas_price_percentage : ℕ

-- `entry.Encode` and `proto.Unmarshal`; `none` is an error.
pub record Datastream : Type 0 where
  pub encode : FileEntry → Bytes
  pub unmarshal_batch_start : Bytes → Option BatchStart
  pub unmarshal_batch_end : Bytes → Option BatchEnd
  pub unmarshal_l2_block : Bytes → Option L2Block
  pub unmarshal_transaction : Bytes → Option Transaction

-- `block_number` is `BlockNumber` of `current_stream_l2_block`; 0 stands for no block. The last field
-- is what was sent into the channel `witnessRetrievalChan`.
pub record Stream (Tx : Type 0) : Type 0 where
  pub halted : Bool
  pub current_batch_stream_data : Bytes
  pub current_stream_batch : Batch
  pub current_stream_batch_raw : List (L2BlockRaw Tx)
  pub current_stream_l2_block : L2BlockRaw Tx
  pub block_number : ℕ
  pub witness_retrieval_chan : List DbBatch

abbrev pub Handler : Type 0 → Type 0 → Type 0
Handler Tx A = Stream Tx → World → Result Err A × (Stream Tx × World)

abbrev pub give : {Tx A : Type 0} → A → Handler Tx A
give a s w = (ok a, (s, w))

abbrev pub fail : {Tx A : Type 0} → Err → Handler Tx A
fail e s w = (err e, (s, w))

abbrev pub stream : {Tx : Type 0} → Handler Tx (Stream Tx)
stream s w = (ok s, (s, w))

abbrev pub modify : {Tx : Type 0} → (Stream Tx → Stream Tx) → Handler Tx (Unit {0})
modify f s w = (ok tt, (f s, w))

-- A function that does not touch the stream's fields.
abbrev pub call : {Tx A : Type 0} → M A → Handler Tx A
call m s w = let (r, w') = m w in (r, (s, w'))

abbrev pub given : {Tx A : Type 0} → Err → Option A → Handler Tx A
given e none s w = (err e, (s, w))
given e (some a) s w = (ok a, (s, w))

abbrev pub follow :
    {Tx A B : Type 0}
    → (A → Handler Tx B)
    → Result Err A
    → Stream Tx × World
    → Result Err B × (Stream Tx × World)
follow f (ok a) (s, w) = f a s w
follow f (err e) q = (err e, q)
follow f panic q = (panic, q)

infixl 5 ◌>>=◌ ◌>>◌
abbrev pub ◌>>=◌ : {Tx A B : Type 0} → Handler Tx A → (A → Handler Tx B) → Handler Tx B
◌>>=◌ m f s w = let (r, q) = m s w in follow f r q

abbrev pub ◌>>◌ : {Tx A B : Type 0} → Handler Tx A → Handler Tx B → Handler Tx B
m >> k = m >>= λ _. k
