-- ===== src/Examples/Texts.antt =====
-- Runs of the texts of numbers, of the transaction for the AggLayer and of the cleanup of locks.
use zkevm_aggregator.Prelude.{ℕ, ◌-◌, ◌^◌, ◌≡◌, ◌↔◌, refl, some, none, [], ◌∷◌, arith, replicate}
use native.Mathlib.Decide.{dec_lt}
use zkevm_aggregator.Prelude.Text.{codes}
use zkevm_aggregator.Prelude.Result.{ok, panic, ◌>>=◌}
use zkevm_aggregator.State.Storage.Interval.{to_postgres_interval}
use zkevm_aggregator.Hex.{encode_to_hex}
use zkevm_aggregator.Hex.Numerals.{written_from, lt_wf, pos, negsuc, out_of_range, syntax}
use zkevm_aggregator.Hex.Numbers.{encode_big}
use zkevm_aggregator.Hex.Numbers as HexNumbers
use zkevm_aggregator.Encoding.{
  decode_uint64_or_hex, decode_int64_or_hex, decode_uint256_or_hex, encode_big_int,
  decode_big_int_hex_or_decimal,
}
use zkevm_aggregator.Encoding.RoundTrip.{decode_uint256_or_hex-encode_big_int}
use zkevm_aggregator.MerkleTree.Text.{h4_to_string, string_to_h4}
use zkevm_aggregator.MerkleTree.Text.RoundTrip.{string_to_h4-h4_to_string}
use zkevm_aggregator.Aggregator.{AggLayerTx, Env}
use zkevm_aggregator.State.Storage.{Db, cleanup_locked_proofs}
use zkevm_aggregator.Aggregator.Locks.{locked_at}
use zkevm_aggregator.Examples.{four_rows, row, quiet, start}
use zkevm_aggregator.Aggregator.Signed.{hashed_text}
use zkevm_aggregator.Aggregator.Signed.Determined.{IsSized, SameContent, hashed_text_lem}
use zkevm_aggregator.Aggregator.Service.{cleanup_turn}
use zkevm_aggregator.Aggregator.Service.Cleanup.{Kept, cleanup_turn-Kept}

minutes : to_postgres_interval (codes "10m") ≡ ok (codes "10 minutes")
unfolding to_postgres_interval
minutes = refl

one_second : to_postgres_interval (codes "1s") ≡ ok (codes "1 second")
unfolding to_postgres_interval
one_second = refl

no_duration : to_postgres_interval [] ≡ panic
unfolding to_postgres_interval
no_duration = refl

milliseconds : to_postgres_interval (codes "100ms") ≡ ok (codes "100m seconds")
unfolding to_postgres_interval
milliseconds = refl

too_large :
    decode_uint64_or_hex (some (codes "18446744073709551616")) ≡ (2 ^ 64 - 1, some out_of_range)
unfolding decode_uint64_or_hex
too_large = refl

no_number : decode_uint64_or_hex (some (codes "0x")) ≡ (0, some syntax)
unfolding decode_uint64_or_hex
no_number = refl

int64_wraps : decode_int64_or_hex (some (codes "0xffffffffffffffff")) ≡ (negsuc 0, none)
unfolding decode_int64_or_hex
int64_wraps = refl

odd_digits_lost : decode_big_int_hex_or_decimal (encode_big_int (pos 15)) ≡ ok (pos 0)
unfolding decode_big_int_hex_or_decimal encode_big_int written_from lt_wf dec_lt
odd_digits_lost = refl

sign_in_front : encode_big (negsuc 30) ≡ codes "-0x1f"
unfolding encode_big written_from lt_wf dec_lt
sign_in_front = refl

decode_uint256_example :
    decode_uint256_or_hex (some (encode_big_int (negsuc 30))) ≡ ok (some (negsuc 30))
decode_uint256_example = decode_uint256_or_hex-encode_big_int (negsuc 30)

h4_text_example : h4_to_string (7 ∷ 0 ∷ 300 ∷ 5 ∷ []) >>= string_to_h4 ≡ ok (7 ∷ 0 ∷ 300 ∷ 5 ∷ [])
h4_text_example =
    string_to_h4-h4_to_string 7 0 300 5 (omega arith) (omega arith) (omega arith) (omega arith)

abbrev tx_for : ℕ → AggLayerTx
tx_for id = record {
  last_verified_batch = 18;
  new_verified_batch = 2;
  new_state_root = replicate 32 7;
  new_local_exit_root = replicate 32 8;
  proof = 1 ∷ 255 ∷ [];
  rollup_id = id;
}

tx_for-IsSized : (id : ℕ) → IsSized (tx_for id)
tx_for-IsSized id = record {
  state_root = refl;
  exit_root = refl;
  proof = (omega arith, (omega arith, tt));
}

hashed_text_example :
    (hashed_text HexNumbers.encode_uint64 encode_to_hex (tx_for 1)
      ≡ hashed_text HexNumbers.encode_uint64 encode_to_hex (tx_for 2))
    ↔ SameContent (tx_for 1) (tx_for 2)
hashed_text_example =
    hashed_text_lem HexNumbers.encode_uint64 encode_to_hex (λ n. refl) (λ b. refl) (tx_for 1)
      (tx_for 2) (tx_for-IsSized 1) (tx_for-IsSized 2)

abbrev stale : Db
stale = record four_rows { proofs = locked_at 5 (row 1) ∷ locked_at 95 (row 2) ∷ row 3 ∷ [] }

abbrev cleaning : Env
cleaning = record quiet {
  cfg = record quiet.cfg { generating_proof_cleanup_threshold = codes "30s" };
}

-- The interval is 30 seconds, at time 100: of the rows that are locked the first is removed.
stale_removed :
    (cleanup_turn cleaning (λ _. some 30) (start stale)).1.db.proofs
    ≡ locked_at 95 (row 2) ∷ row 3 ∷ []
unfolding cleanup_turn cleanup_locked_proofs
stale_removed = refl

cleanup_turn_example : Kept stale (cleanup_turn cleaning (λ _. some 30) (start stale)).1.db
cleanup_turn_example = cleanup_turn-Kept cleaning (λ _. some 30) (start stale)
