-- ===== src/State/BatchV2/Progress.antt =====
-- state/encoding_batch_v2.go: where the decoder stands after a transaction, although its sums wrap.
use zkevm_aggregator.Prelude.{
  ℕ, zero, suc, ◌+◌, ◌^◌, ◌<◌, ◌≤◌, ◌≡◌, refl, Bool, true, false, [], ◌∷◌, ltb, length,
  if◌then◌else◌, arith,
}
use zkevm_aggregator.Prelude.Result.{Result, ok, err, panic, ◌>>=◌}
use zkevm_aggregator.State.{Bytes, u64}
use Prim.{Unit, tt}
use zkevm_aggregator.Ethereum.{Ethereum}
use zkevm_aggregator.State.BatchV2.{
  BatchError, rlp_failure, L2TxRaw, slice, at, decode_rlp_list_length_from_offset,
}
use zkevm_aggregator.State.BatchV2.Tx.{
  decode_tx_rlp, decode_parts, from_option, rlp_fields_to_legacy_tx,
}

abbrev pub HoldsOn : {E A : Type 0} → (A → Type 0) → Result E A → Type 0
HoldsOn P (ok a) = P a
HoldsOn P (err e) = Unit
HoldsOn P panic = Unit

-- The value of a result, when it is a value, satisfies `P`.
pub record OnOk {E A : Type 0} (P : A → Type 0) (r : Result E A) : Type 0 where
  pub holds : HoldsOn P r

pub OnOk-bind :
    {E A B : Type 0} (P : A → Type 0) (Q : B → Type 0) (r : Result E A) (f : A → Result E B)
    → OnOk P r
    → ((a : A) → P a → OnOk Q (f a))
    → OnOk Q (r >>= f)
OnOk-bind P Q (ok a) f p h = h a p.holds
OnOk-bind P Q (err e) f p h = record { holds = tt }
OnOk-bind P Q panic f p h = record { holds = tt }

OnOk-weaken :
    {E A : Type 0} (P Q : A → Type 0) (r : Result E A) → OnOk P r → ((a : A) → P a → Q a) → OnOk Q r
OnOk-weaken P Q (ok a) p h = record { holds = h a p.holds }
OnOk-weaken P Q (err e) p h = record { holds = tt }
OnOk-weaken P Q panic p h = record { holds = tt }

pub OnOk-if_err :
    {E A : Type 0} (Q : A → Type 0) (b : Bool) (e : E) (r : Result E A)
    → (b ≡ false → OnOk Q r)
    → OnOk Q (if b then err e else r)
OnOk-if_err Q true e r h = record { holds = tt }
OnOk-if_err Q false e r h = h refl

abbrev pub AnyOf : {A : Type 0} → A → Type 0
AnyOf a = Unit

pub any_of : {E A : Type 0} (r : Result E A) → HoldsOn AnyOf r
any_of (ok a) = tt
any_of (err e) = tt
any_of panic = tt

pub OnOk-any : {E A : Type 0} (r : Result E A) → OnOk AnyOf r
OnOk-any r = record { holds = any_of r }

abbrev pub Ordered : Bytes → ℕ → ℕ → Bytes → Type 0
Ordered bs from to s = (from ≤ to) × (to ≤ length bs)

pub slice-Ordered : (bs : Bytes) (from to : ℕ) → OnOk (Ordered bs from to) (slice bs from to)
slice-Ordered bs from to = record { holds = ground arith }

abbrev pub Inside : Bytes → ℕ → ℕ → Type 0
Inside bs i b = i < length bs

inside : (bs : Bytes) (i : ℕ) → HoldsOn (Inside bs i) (at bs i)
inside [] i = tt
inside (b ∷ bs) zero = ground arith
inside (b ∷ bs) (suc i) = ground (arith, inside bs i)

at-Inside : (bs : Bytes) (i : ℕ) → OnOk (Inside bs i) (at bs i)
at-Inside bs i = record { holds = inside bs i }

module _ (eth : Ethereum) where
  -- What the slices of `DecodeTxRLP` say of its positions when none of them panics.
  abbrev pub Parts : Bytes → ℕ → ℕ → ℕ → ℕ × L2TxRaw eth.Tx → Type 0
  Parts bs offset end_pos data_start r =
      (r.0 ≡ end_pos)
      × (offset ≤ data_start)
      × (data_start ≤ u64 (data_start + 32))
      × (u64 (data_start + 32) ≤ u64 (data_start + 64))
      × (u64 (data_start + 64) ≤ u64 (data_start + 65))
      × (u64 (data_start + 65) < length bs)

  Parts-ok :
      (bs : Bytes) (offset end_pos data_start : ℕ) (tx : L2TxRaw eth.Tx)
      → Parts bs offset end_pos data_start (end_pos, tx)
      → OnOk {E = BatchError} (Parts bs offset end_pos data_start) (ok (end_pos, tx))
  Parts-ok bs offset end_pos data_start tx h = record { holds = h }

  decode_parts-ordered :
      (bs : Bytes) (offset end_pos data_start : ℕ)
      → OnOk (Parts bs offset end_pos data_start) (decode_parts eth bs offset end_pos data_start)
  unfolding decode_parts
  decode_parts-ordered bs offset end_pos data_start =
      OnOk-bind _ _ _ _ (slice-Ordered bs offset end_pos) λ full _.
        OnOk-bind _ _ _ _ (slice-Ordered bs offset data_start) λ tx (h1, _).
          OnOk-bind _ _ _ _ (slice-Ordered bs data_start (u64 (data_start + 32))) λ r (h2, _).
            OnOk-bind _ _ _ _ (slice-Ordered bs (u64 (data_start + 32)) (u64 (data_start + 64)))
              λ s (h3, _).
                OnOk-bind _ _ _ _ (slice-Ordered bs (u64 (data_start + 64)) (u64 (data_start + 65)))
                  λ v (h4, _). OnOk-bind _ _ _ _ (at-Inside bs (u64 (data_start + 65))) λ p h5.
                    OnOk-bind _ _ _ _ (OnOk-any (from_option rlp_failure (eth.rlp_decode tx)))
                      λ fields _.
                        OnOk-bind _ (Parts bs offset end_pos data_start) _ _
                          (OnOk-any (rlp_fields_to_legacy_tx fields v r s))
                          λ legacy _.
                            Parts-ok bs offset end_pos data_start _ (refl, h1, h2, h3, h4, h5)

  abbrev pub Progress : Bytes → ℕ → ℕ × L2TxRaw eth.Tx → Type 0
  Progress bs offset r = (offset + 66 ≤ r.0) × (r.0 ≤ length bs)

  Parts-Progress :
      (bs : Bytes) (offset len : ℕ)
      → length bs < 2 ^ 63
      → ltb (length bs) (u64 (offset + len + 66)) ≡ false
      → (r : ℕ × L2TxRaw eth.Tx) → Parts bs offset (u64 (offset + len + 66)) (u64 (offset + len)) r
      → Progress bs offset r
  Parts-Progress bs offset len small e r (h0, h1, h2, h3, h4, h5) = (omega arith, ground arith)

  -- A transaction that `DecodeTxRLP` decodes at `offset` is inside the data and takes 66 bytes or
  -- more, whatever length its header states: the position after it is at least 66 past `offset` and
  -- not past the end of the data, although the sums of uint64 may wrap. The data is shorter than
  -- 2^63 bytes, as a slice is.
  pub decode_tx_rlp-Progress :
      (bs : Bytes) (offset : ℕ)
      → length bs < 2 ^ 63
      → OnOk (Progress bs offset) (decode_tx_rlp eth bs offset)
  unfolding decode_tx_rlp
  decode_tx_rlp-Progress bs offset small =
      OnOk-bind AnyOf (Progress bs offset) (decode_rlp_list_length_from_offset bs offset) _
        (OnOk-any _)
        λ len _. OnOk-if_err (Progress bs offset) _ _ _ λ e.
          OnOk-weaken _ _ _
            (decode_parts-ordered bs offset (u64 (offset + len + 66)) (u64 (offset + len)))
            (Parts-Progress bs offset len small e)
