-- ===== src/State/Storage/Interval.antt =====
-- state/pgstatestorage/proof.go, `toPostgresInterval`: a duration as Postgres writes an interval.
use zkevm_aggregator.Prelude.{
  ℕ, Bool, not, ◌||◌, Option, none, some, [], ◌∷◌, ◌++◌, ltb, ◌==◌, if◌then◌else◌, length,
}
use zkevm_aggregator.Prelude.Text.{codes}
use zkevm_aggregator.Prelude.Result.{Result, ok, err, panic}
use zkevm_aggregator.State.{Bytes}

pub data IntervalError : Type 0 where
  unsupported_duration : IntervalError

abbrev pub pg_unit : ℕ → Option Bytes
pg_unit unit =
    if unit == b's'
    then some (codes "second")
    else if unit == b'm'
    then some (codes "minute")
    else if unit == b'h'
    then some (codes "hour")
    else none

-- The last byte, which is there, and what stands before it.
abbrev pub last_of : ℕ → Bytes → ℕ
last_of c [] = c
last_of c (d ∷ s) = last_of d s

abbrev pub before_last : ℕ → Bytes → Bytes
before_last c [] = []
before_last c (d ∷ s) = c ∷ before_last d s

abbrev pub is_more_than_one : ℕ → Bytes → Bool
is_more_than_one c s = not (c == b'1') || ltb 2 (length (c ∷ s))

abbrev pub interval_text : Bytes → Bool → Option Bytes → Result IntervalError Bytes
interval_text number many none = err unsupported_duration
interval_text number many (some unit) =
    ok (number ++ b' ' ∷ (if many then unit ++ b's' ∷ [] else unit))

-- An empty text is an index out of range.
unfoldable pub to_postgres_interval : Bytes → Result IntervalError Bytes
to_postgres_interval [] = panic
to_postgres_interval (c ∷ s) =
    interval_text (before_last c s) (is_more_than_one c s) (pg_unit (last_of c s))
