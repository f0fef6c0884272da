-- ===== src/Hex/Numerals/Parsed.antt =====
-- What `parse_uint` accepts, and what it returns.
use zkevm_aggregator.Prelude.{
  ℕ, ◌+◌, ◌*◌, ◌^◌, ◌<◌, ◌≤◌, ◌≡◌, ◌↔◌, none, some, [], ◌∷◌, arith, inl, inr, Option-cases,
}
use zkevm_aggregator.State.{Bytes}
use zkevm_aggregator.Hex.Numerals.{
  Base, radix, decimal, hexadecimal, digit?, read_onto, read, parse_onto, parse_uint,
}

grows : (base : Base) (n d : ℕ) → n ≤ n * radix base + d
grows decimal n d = omega arith
grows hexadecimal n d = omega arith

le-read_onto : (base : Base) (s : Bytes) (n v : ℕ) → read_onto base n s ≡ some v → n ≤ v
unfolding read_onto
le-read_onto base [] n v h = ground arith
le-read_onto base (c ∷ s) n v h = elim (Option-cases (digit? base c)) [
  | inl e ↦ ground arith
  | inr (d, e) ↦ ground (arith, le-read_onto base s (n * radix base + d) v, grows base n d)
]

parse_onto_sound :
    (base : Base) (s : Bytes) (n v : ℕ)
    → n < 2 ^ 64
    → parse_onto base n s ≡ (v, none)
    → (read_onto base n s ≡ some v) × (v < 2 ^ 64)
unfolding parse_onto read_onto
parse_onto_sound base [] n v fits h = ground arith
parse_onto_sound base (c ∷ s) n v fits h = elim (Option-cases (digit? base c)) [
  | inl e ↦ ground arith
  | inr (d, e) ↦ ground (arith, parse_onto_sound base s (n * radix base + d) v)
]

parse_onto_complete :
    (base : Base) (s : Bytes) (n v : ℕ)
    → read_onto base n s ≡ some v
    → v < 2 ^ 64
    → parse_onto base n s ≡ (v, none)
unfolding parse_onto read_onto
parse_onto_complete base [] n v h fits = ground arith
parse_onto_complete base (c ∷ s) n v h fits = elim (Option-cases (digit? base c)) [
  | inl e ↦ ground arith
  | inr (d, e) ↦
      let m = n * radix base + d in
      ground (arith, parse_onto_complete base s m v, le-read_onto base s m v)
]

-- `ParseUint` returns a number with no error exactly for a text of one or more digits that spell a
-- number below 2^64, and it is that number.
pub parse_uint_lem :
    (base : Base) (s : Bytes) (v : ℕ)
    → (parse_uint base s ≡ (v, none)) ↔ ((read base s ≡ some v) × (v < 2 ^ 64))
unfolding parse_uint read
parse_uint_lem base [] v = ground arith
parse_uint_lem base (c ∷ s) v = (
  parse_onto_sound base (c ∷ s) 0 v (omega arith),
  λ (h, fits). parse_onto_complete base (c ∷ s) 0 v h fits,
)
