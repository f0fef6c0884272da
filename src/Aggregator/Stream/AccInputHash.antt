-- ===== src/Aggregator/Stream/AccInputHash.antt =====
-- aggregator/accinputhash/accinputhash.go. `keccak256.Hash` of several slices is the hash of their
-- concatenation; it is the argument `keccak`.
use zkevm_aggregator.Prelude.{
  ℕ, zero, suc, ◌-◌, ◌/◌, ◌%◌, [], ◌∷◌, ◌++◌, length, replicate, if◌then◌else◌, ◌==◌,
}
use zkevm_aggregator.State.{Bytes}
use zkevm_aggregator.Ethereum.{bytes_to_hash}

-- Zeros in front until there are `n` bytes.
abbrev pub add_0s : ℕ → Bytes → Bytes
add_0s n bs = replicate (n - length bs) 0 ++ bs

-- `big.Int.Bytes`: the bytes of a number below 256^fuel, high byte first, with no zero in front.
abbrev big_bytes_onto : ℕ → ℕ → Bytes → Bytes
big_bytes_onto zero n acc = acc
big_bytes_onto (suc fuel) n acc =
    let rest = big_bytes_onto fuel (n / 256) (n % 256 ∷ acc) in if n == 0 then acc else rest

-- A uint64 has 8 bytes at most.
abbrev pub big_bytes : ℕ → Bytes
big_bytes n = big_bytes_onto 8 n []

abbrev pub acc_input : Bytes → Bytes → Bytes → ℕ → Bytes → Bytes → Bytes
acc_input old batch_hash l1_info_root timestamp_limit sequencer forced =
    add_0s 32 old
    ++ (batch_hash
        ++ (add_0s 32 l1_info_root
            ++ (add_0s 8 (big_bytes timestamp_limit) ++ (add_0s 20 sequencer ++ add_0s 32 forced))))

unfoldable pub calculate_acc_input_hash :
    (Bytes → Bytes) → Bytes → Bytes → Bytes → ℕ → Bytes → Bytes → Bytes
calculate_acc_input_hash keccak old batch_data l1_info_root timestamp_limit sequencer forced =
    bytes_to_hash
      (keccak (acc_input old (keccak batch_data) l1_info_root timestamp_limit sequencer forced))
