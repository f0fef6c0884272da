-- ===== src/State/BatchV2/Termination.antt =====
-- state/encoding_batch_v2.go: the loop of `DecodeBatchV2` ends.
use zkevm_aggregator.Prelude.{
  ℕ, zero, suc, ◌+◌, ◌-◌, ◌^◌, ◌<◌, ◌≤◌, ◌≡◌, ◌≢◌, refl, subst, Bool, true, false, Option, some,
  none, List, [], ◌∷◌, ltb, ◌==◌, length, get_elem?, if◌then◌else◌, arith,
}
use zkevm_aggregator.Prelude.Result.{Result, ok, err, panic, ◌>>=◌}
use zkevm_aggregator.State.{Bytes, u64}
use Prim.{Unit, tt}
use zkevm_aggregator.Ethereum.{Ethereum}
use zkevm_aggregator.State.BatchV2.{
  BatchError, dont_start_with_change_l2_block, invalid_batch_v2, invalid_rlp, rlp_failure,
  out_of_fuel, L2TxRaw, L2BlockRaw, change_l2_block, decode_uint32, decode_block_header,
  decode_rlp_list_length_from_offset, slice, at, f7, parse_uint, long_length,
}
use zkevm_aggregator.State.BatchV2.Tx.{
  decode_tx_rlp, decode_parts, from_option, rlp_fields_to_legacy_tx, no_block, on_byte, on_current,
  with_current, with_tx, decode_from, decode_batch_v2,
}
use zkevm_aggregator.State.BatchV2.Progress.{OnOk, HoldsOn, Progress, decode_tx_rlp-Progress}

abbrev pub ErrorsAreReal : {A : Type 0} → Result BatchError A → Type 0
ErrorsAreReal (ok a) = Unit
ErrorsAreReal (err e) = e ≢ out_of_fuel
ErrorsAreReal panic = Unit

-- A result is a value, a panic, or an error of the source.
pub record Ends {A : Type 0} (r : Result BatchError A) : Type 0 where
  pub ends : ErrorsAreReal r

pub Ends-ok : {A : Type 0} (a : A) → Ends (ok a)
Ends-ok a = record { ends = tt }

pub Ends-err : {A : Type 0} (e : BatchError) → e ≢ out_of_fuel → Ends {A = A} (err e)
Ends-err e h = record { ends = h }

pub Ends-bind :
    {A B : Type 0} (r : Result BatchError A) (f : A → Result BatchError B)
    → Ends r
    → ((a : A) → r ≡ ok a → Ends (f a))
    → Ends (r >>= f)
Ends-bind (ok a) f p h = h a refl
Ends-bind (err e) f p h = record { ends = p.ends }
Ends-bind panic f p h = record { ends = tt }

pub Ends-if :
    {A : Type 0} (b : Bool) (x y : Result BatchError A)
    → Ends x
    → Ends y
    → Ends (if b then x else y)
Ends-if true x y p q = p
Ends-if false x y p q = q

Ends-panic : {A : Type 0} → Ends {A = A} panic
Ends-panic = record { ends = tt }

pub Ends-slice : (bs : Bytes) (from to : ℕ) → Ends (slice bs from to)
Ends-slice bs from to = Ends-if _ _ _ (Ends-ok _) Ends-panic

pub Ends-at : (bs : Bytes) (i : ℕ) → Ends (at bs i)
Ends-at [] i = Ends-panic
Ends-at (b ∷ bs) zero = Ends-ok b
Ends-at (b ∷ bs) (suc i) = Ends-at bs i

pub Ends-from_option :
    {A : Type 0} (e : BatchError) (o : Option A) → e ≢ out_of_fuel → Ends (from_option e o)
Ends-from_option e none h = Ends-err e h
Ends-from_option e (some a) h = Ends-ok a

pub Ends-parse_uint : (bs : Bytes) → Ends (parse_uint bs)
Ends-parse_uint [] = Ends-err _ (cc)
Ends-parse_uint (b ∷ bs) = Ends-if _ _ _ (Ends-ok _) (Ends-err _ (cc))

pub Ends-rlp_fields_to_legacy_tx :
    (fields : List Bytes) (v r s : Bytes) → Ends (rlp_fields_to_legacy_tx fields v r s)
unfolding rlp_fields_to_legacy_tx
Ends-rlp_fields_to_legacy_tx [] v r s = Ends-err _ (cc)
Ends-rlp_fields_to_legacy_tx (a ∷ []) v r s = Ends-err _ (cc)
Ends-rlp_fields_to_legacy_tx (a ∷ b ∷ []) v r s = Ends-err _ (cc)
Ends-rlp_fields_to_legacy_tx (a ∷ b ∷ c ∷ []) v r s = Ends-err _ (cc)
Ends-rlp_fields_to_legacy_tx (a ∷ b ∷ c ∷ d ∷ []) v r s = Ends-err _ (cc)
Ends-rlp_fields_to_legacy_tx (a ∷ b ∷ c ∷ d ∷ e ∷ []) v r s = Ends-err _ (cc)
Ends-rlp_fields_to_legacy_tx (a ∷ b ∷ c ∷ d ∷ e ∷ f ∷ rest) v r s = Ends-ok _

Ends-long_length : (bs : Bytes) (offset num : ℕ) → Ends (long_length bs offset num)
Ends-long_length bs offset num =
    Ends-if (ltb (length bs) (u64 (offset + 1 + (num - f7)))) _ _ (Ends-err invalid_rlp (cc)) (
      Ends-bind _ _ (Ends-slice bs (offset + 1) (offset + 1 + (num - f7))) λ digits _.
        Ends-bind _ _ (Ends-parse_uint digits) λ n _. Ends-ok (u64 (u64 (n + num - f7) + 1)))

Ends-decode_rlp_list_length_from_offset :
    (bs : Bytes) (offset : ℕ) → Ends (decode_rlp_list_length_from_offset bs offset)
unfolding decode_rlp_list_length_from_offset
Ends-decode_rlp_list_length_from_offset bs offset = Ends-bind _ _ (Ends-at bs offset) λ num _.
    Ends-if _ _ _ (Ends-err _ (cc)) (Ends-if _ _ _ (Ends-long_length bs offset num) (Ends-ok _))

Ends-decode_uint32 : (bs : Bytes) (pos : ℕ) → Ends (decode_uint32 bs pos)
unfolding decode_uint32
Ends-decode_uint32 bs pos = Ends-if _ _ _ (Ends-err _ (cc)) (Ends-ok _)

Ends-decode_block_header :
    {Tx : Type 0} (bs : Bytes) (pos : ℕ) → Ends (decode_block_header {Tx = Tx} bs pos)
unfolding decode_block_header
Ends-decode_block_header bs pos =
    Ends-bind _ _ (Ends-decode_uint32 bs pos)
      λ r _. Ends-bind _ _ (Ends-decode_uint32 bs r.0) λ s _. Ends-ok _

pub value_of :
    {A : Type 0} (P : A → Type 0) {r : Result BatchError A} {a : A} → OnOk P r → r ≡ ok a → P a
value_of P h e = subst (HoldsOn P) e h.holds

decode_uint32_forward :
    (bs : Bytes) (pos : ℕ) {r : ℕ × ℕ}
    → decode_uint32 bs pos ≡ ok r
    → (r.0 ≡ pos + 4) × (r.0 ≤ length bs)
unfolding decode_uint32
decode_uint32_forward bs pos {r} e = ground arith

header_forward :
    {Tx : Type 0} (bs : Bytes) (pos : ℕ) {r : ℕ × L2BlockRaw Tx}
    → decode_block_header bs pos ≡ ok r
    → (pos < r.0) × (r.0 ≤ length bs)
unfolding decode_block_header decode_uint32
header_forward bs pos {r} e = ground arith

module _ (eth : Ethereum) where
  Ends-decode_parts :
      (bs : Bytes) (offset end_pos data_start : ℕ)
      → Ends (decode_parts eth bs offset end_pos data_start)
  unfolding decode_parts
  Ends-decode_parts bs offset end_pos data_start =
      Ends-bind _ _ (Ends-slice bs offset end_pos) λ full _.
        Ends-bind _ _ (Ends-slice bs offset data_start) λ tx _.
          Ends-bind _ _ (Ends-slice bs data_start _) λ r _. Ends-bind _ _ (Ends-slice bs _ _) λ s _.
            Ends-bind _ _ (Ends-slice bs _ _) λ v _. Ends-bind _ _ (Ends-at bs _) λ p _.
              Ends-bind _ _ (Ends-from_option rlp_failure (eth.rlp_decode tx) (cc)) λ fields _.
                Ends-bind _ _ (Ends-rlp_fields_to_legacy_tx fields v r s) λ legacy _. Ends-ok _

  Ends-decode_tx_rlp : (bs : Bytes) (offset : ℕ) → Ends (decode_tx_rlp eth bs offset)
  unfolding decode_tx_rlp
  Ends-decode_tx_rlp bs offset =
      Ends-bind _ _ (Ends-decode_rlp_list_length_from_offset bs offset)
        λ len _. Ends-if _ _ _ (Ends-err invalid_batch_v2 (cc)) (Ends-decode_parts bs offset _ _)

  Ends-no_block : (r : Result BatchError (ℕ × L2TxRaw eth.Tx)) → Ends (no_block eth r)
  Ends-no_block (ok a) = Ends-err dont_start_with_change_l2_block (cc)
  Ends-no_block (err e) = Ends-err invalid_batch_v2 (cc)
  Ends-no_block panic = Ends-panic

  abbrev Blocks : Type 0
  Blocks = List (L2BlockRaw eth.Tx)

  Ends-on_byte :
      (o : Option ℕ) (x : Result BatchError Blocks) (header tx : ℕ → Result BatchError Blocks)
      → Ends x
      → ((b : ℕ) → Ends (header b))
      → ((b : ℕ) → Ends (tx b))
      → Ends (on_byte eth o x header tx)
  Ends-on_byte none x header tx hx hh ht = hx
  Ends-on_byte (some b) x header tx hx hh ht = pick (b == change_l2_block) (hh b) (ht b)
    where
      pick : (c : Bool) → Ends (header b) → Ends (tx b) → Ends ((if c then header else tx) b)
      pick true p q = p
      pick false p q = q

  Ends-on_current :
      (o : Option (L2BlockRaw eth.Tx)) (f : ℕ → Result BatchError Blocks)
      (g : L2BlockRaw eth.Tx → Result BatchError Blocks)
      → ((b : ℕ) → Ends (f b))
      → ((block : L2BlockRaw eth.Tx) → Ends (g block))
      → (b : ℕ) → Ends (on_current eth o f g b)
  Ends-on_current none f g hf hg b = hf b
  Ends-on_current (some block) f g hf hg b = hg block

  Ends-decode_from :
      (fuel : ℕ) (bs : Bytes) (pos : ℕ) (blocks : Blocks) (current : Option (L2BlockRaw eth.Tx))
      → length bs < 2 ^ 63
      → pos ≤ length bs
      → length bs < fuel + pos
      → Ends (decode_from eth fuel bs pos blocks current)
  unfolding decode_from
  Ends-decode_from zero bs pos blocks current small inside enough = absurd (ground arith)
  Ends-decode_from (suc fuel) bs pos blocks current small inside enough =
      Ends-on_byte (get_elem? bs pos) _ _ _ (Ends-ok _)
        (λ b. Ends-bind _ _ (Ends-decode_block_header bs (pos + 1)) λ r e.
          let (h1, h2) = header_forward bs (pos + 1) e in
          Ends-decode_from fuel bs r.0 (with_current eth blocks current) (some r.1) small h2
            (omega arith))
        (Ends-on_current current _ _ (λ b. Ends-no_block (decode_tx_rlp eth bs pos))
          (λ block. Ends-bind _ _ (Ends-decode_tx_rlp bs pos) λ r e.
            let (h1, h2) =
              value_of (Progress eth bs pos) (decode_tx_rlp-Progress eth bs pos small) e in
            Ends-decode_from fuel bs r.0 blocks (some (with_tx eth block r.1)) small h2
              (omega arith)))

  -- The loop of `DecodeBatchV2` ends for any bytes, with blocks, an error or a panic: it never uses up its
  -- rounds, one more than there are bytes. The data is shorter than 2^63 bytes, as a slice is.
  pub decode_batch_v2_ends :
      (bs : Bytes) → length bs < 2 ^ 63 → decode_batch_v2 eth bs ≢ err out_of_fuel
  unfolding decode_batch_v2
  decode_batch_v2_ends bs small e =
      (subst Ends e
          (Ends-decode_from (suc (length bs)) bs 0 [] none small (omega arith) (omega arith))).ends
        refl
