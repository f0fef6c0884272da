-- ===== src/Lib.antt =====
-- The aggregator of a zkEVM network. It takes batches from the sequencer's stream, has provers prove
-- them, has adjacent proofs aggregated into one, has a final proof built over whole sequences, and
-- settles that on L1 or through the AggLayer. All its parts meet in a Postgres database: a proof is
-- a row, and a row being worked on has `generating_since` set, which is the lock.
--
-- What is modelled, and where:
-- - State.antt: the records of state/types.go. State/Storage.antt: the tables and every statement of
--   state/pgstatestorage (proof.go, batch.go, sequence.go), each a function of the tables;
--   State/Storage/Select describes what the two searches find, State/Storage/Coverage which batches
--   keep a proof.
-- - Aggregator.antt: the state of aggregator/aggregator.go and the monad of its functions. Its
--   children hold the calls that leave the program (Calls), the locks (Locks: getAndLock...,
--   unlockProofsToAggregate), tryBuildFinalProof with what it calls (Verify), tryAggregateProofs
--   (Aggregate), getAndLockBatchToProve, buildInputProver and tryGenerateBatchProof (BatchProof),
--   a turn of sendFinalProof (Settle), handleReceivedDataStream (Stream), and the turns of Start,
--   Channel, cleanupLockedProofs, retrieveWitness and handleReorg (Service). Keeps, Quiet and Post have
--   the rules by which a function leaves a view of the tables, or the tables, alone, or meets a
--   condition. BatchProof/Proofs is about the L1 data of a batch's blocks, Service/Reach about the turns
--   one after the other.
-- - Aggregator/Interleaved.antt: the same turns cut into steps that goroutines interleave, as a step
--   relation. Interleaved/Claims is the abstract view, which keys a goroutine holds and what it may do to
--   the rows; Interleaved/Acts refines it, Interleaved/Owner and Bystander are its invariant.
-- - Aggregator/Stream.antt: the fields that collect a batch from the stream. Assembled says what the
--   messages do to a list of blocks, Refinement that the fields stand for it, Stored and Ended what
--   a batch's end stores. A send into a channel appends to its list: where the code would wait for a worker
--   to receive, the model goes on from there. AccInputHash is aggregator/accinputhash/accinputhash.go.
-- - Profitability.antt: aggregator/profitabilitychecker.go. Synchronizer.antt and Prover/Input.antt:
--   the types of what L1 answers and of what the prover is sent.
-- - Prover.antt: aggregator/prover/prover.go, the requests of the client and its polling loop;
--   Prover/StateRoot the state root in a proof, Prover/Client what New makes.
-- - L1InfoTree.antt: the package l1infotree, tree.go and hash.go; Reference says what the tree is.
-- - State/BatchV2.antt and State/BatchV2/Tx.antt: state/encoding_batch_v2.go and, of
--   state/helper.go, what it calls. State/Txs.antt: DecodeTxs of state/helper.go and
--   DecodeForcedBatchV2. BatchV2/Relayed and BatchV2/Located are about the bytes of a transaction where
--   they stand in a batch, BatchV2/Signature, Encoded, Fields and Sent about what prepareRLPTxData writes
--   and what is read from it, BatchV2/RoundTrip about a whole batch.
-- - MerkleTree.antt: merkletree/split.go, the limbs of a number of 256 bits;
--   MerkleTree/Keys.antt: merkletree/key.go and leaf.go, the keys of leaves,
--   and MerkleTree/Bytecode.antt HashContractBytecode;
--   MerkleTree/Text.antt: the limbs as text, H4ToString and StringToh4.
-- - Hex.antt and Hex/Numbers.antt: hex/hex.go. Hex/Numerals.antt: what it uses of strconv and math/big.
--   Encoding.antt: encoding/encoding.go.
-- - Aggregator/Signed.antt: aggregator/agglayer_tx.go. State/Storage/Interval.antt: toPostgresInterval.
-- - Prelude.antt: lists, tests and results. Examples.antt: small runs.
--
-- A function keeps the name of the Go function in snake_case. A function on `*Aggregator` takes the
-- world (the tables, the open transaction, the fields of the aggregator) to a result and the world
-- after it. Postgres, L1, the prover, the clock and cancellation answer through the record `Env`,
-- by the number of calls made so far, so that a theorem for every `Env` covers every failure at
-- every call. A mutex held over a function makes it one step, and so does a
-- transaction: the isolation of Postgres is taken for granted. go-ethereum is the record `Ethereum`,
-- Keccak, Poseidon and encoding/json are arguments. A panic is a result of its own.
--
-- Bounds and fuel: uint64 and uint32 arithmetic is written with its wrap (`u64`, `u32`); numbers of
-- `big.Int` are not negative where no text is read or written. Times are in microseconds since the
-- zero time of Go, the year 1. The polling loop of the prover runs
-- on one turn more than its stream has exchanges, and a turn takes one. The two decoders of
-- transactions run on one turn more than there are bytes, and a turn reads one at least. The search
-- for a batch with no proof makes two turns more than the greatest batch of a row, past which no
-- batch has one. The loops of the stream that wait for L1, and the retrieval of a witness, have no
-- bound in the code: their rounds are an argument. `hangs` is the code in a loop without an end.
-- The padding of a bytecode adds 55 zeros at most. A number is written by recursion on its
-- quotients. All else is structural.
--
-- Not modelled: logs, metrics, events, configuration and commands (input and output only); the
-- contract bindings and protocol buffers (generated; what they read is a parameter of the stream);
-- the servers and goroutines that Start begins. Hexadecimal columns and the JSON of a stored batch are
-- taken as lossless.
pub mod Prelude
pub mod State
pub mod Ethereum
pub mod Synchronizer
pub mod Profitability
pub mod Hex
pub mod Encoding
pub mod L1InfoTree
pub mod Aggregator
pub mod Prover
pub mod MerkleTree
pub mod Examples
