-- ===== src/Hex/Numerals/Written.antt =====
-- Reading what was written.
use zkevm_aggregator.Prelude.{
  suc, ap, Option-cases, inl, inr, ℕ, ◌+◌, ◌*◌, ◌/◌, ◌%◌, ◌<◌, ◌≡◌, ◌≢◌, refl, ◌==◌, false, some,
  [], ◌∷◌, arith,
}
use zkevm_aggregator.State.{Bytes}
use zkevm_aggregator.Hex.{digit}
use zkevm_aggregator.Hex.Numerals.{
  Base, decimal, hexadecimal, radix, lt_wf, quotient_lt, written_from, written, digit?, read_onto,
  read, ℤ, pos, negsuc, signed, negated, set_string, text16,
}
use mathlib.Core.Logic.{ite, dite}
use mathlib.Core.WellFounded
use mathlib.Core.WellFounded.{Acc, Acc-prop}
use mathlib.Core.List.{cons-ne-nil}
use native.Mathlib.Decide.{dec_lt}

-- Two proofs of `Acc` are equal, so the loop may go on with any.
written_from_step :
    (base : Base) (n : ℕ) (w : Acc ◌<◌ n) (w' : Acc ◌<◌ (n / radix base)) (out : Bytes)
    → written_from base n w out
      ≡ ite (dec_lt 0 n) (written_from base (n / radix base) w' (digit (n % radix base) ∷ out)) out
unfolding written_from
written_from_step base n (Acc.intro _ smaller) w' out = λ i.
    dite (dec_lt 0 n)
      (λ h.
        written_from base (n / radix base)
          (Acc-prop (smaller (n / radix base) (quotient_lt base h)) w' i)
          (digit (n % radix base) ∷ out))
      (λ _. out)

pub written_step :
    (base : Base) (n : ℕ) (out : Bytes)
    → written_from base n (lt_wf.apply n) out
      ≡ ite
          (dec_lt 0 n)
          (written_from base
            (n / radix base)
            (lt_wf.apply (n / radix base))
            (digit (n % radix base) ∷ out))
          out
written_step base n = written_from_step base n _ _

pub digit?-digit : (base : Base) (d : ℕ) → d < radix base → digit? base (digit d) ≡ some d
unfolding digit?
digit?-digit decimal d h = ground arith
digit?-digit hexadecimal d h = ground arith

pub divided : (base : Base) (n : ℕ) → n / radix base * radix base + n % radix base ≡ n
divided decimal n = omega arith
divided hexadecimal n = omega arith

pub remainder_lt : (base : Base) (n : ℕ) → n % radix base < radix base
remainder_lt decimal n = omega arith
remainder_lt hexadecimal n = omega arith

-- Reading the last digit of `n` behind the digits before it gives `n`.
read_last :
    (base : Base) (n : ℕ) (out : Bytes)
    → read_onto base (n / radix base) (digit (n % radix base) ∷ out) ≡ read_onto base n out
unfolding read_onto
read_last base n out = rw (digit?-digit base _ (remainder_lt base n), divided base n) refl

read_onto-written_from :
    (base : Base) (n : ℕ) (out : Bytes)
    → read_onto base 0 (written_from base n (lt_wf.apply n) out) ≡ read_onto base n out
read_onto-written_from base n =
    WellFounded.induction lt_wf
      {C = λ m.
        (out : Bytes)
        → read_onto base 0 (written_from base m (lt_wf.apply m) out) ≡ read_onto base m out}
      n
      λ m ih out. grind (
        arith,
        written_step base m out,
        read_last base m out,
        quotient_lt base,
        ih (m / radix base),
      )

written_from-ne-nil :
    (base : Base) (n : ℕ) (out : Bytes) → out ≢ [] → written_from base n (lt_wf.apply n) out ≢ []
written_from-ne-nil base n =
    WellFounded.induction lt_wf
      {C = λ m. (out : Bytes) → out ≢ [] → written_from base m (lt_wf.apply m) out ≢ []} n
      λ m ih out h. grind (arith, written_step base m out, quotient_lt base, ih (m / radix base))

pub read-read_onto : (base : Base) (s : Bytes) → s ≢ [] → read base s ≡ read_onto base 0 s
unfolding read
read-read_onto base [] h = absurd (h refl)
read-read_onto base (c ∷ s) _ = refl

written-ne-nil : (base : Base) (n : ℕ) → written base n ≢ []
unfolding written
written-ne-nil base n = ground (
  arith,
  written_step base n [],
  written_from-ne-nil base (n / radix base) _ (cons-ne-nil (digit (n % radix base)) []),
)

zero_or_digits : (base : Base) (n : ℕ) → read_onto base 0 (written base n) ≡ some n
unfolding written read_onto digit?
zero_or_digits decimal n = ground (arith, read_onto-written_from decimal n [])
zero_or_digits hexadecimal n = ground (arith, read_onto-written_from hexadecimal n [])

pub read-written : (base : Base) (n : ℕ) → read base (written base n) ≡ some n
unfolding written
read-written base n = rw (read-read_onto base _ (written-ne-nil base n)) (zero_or_digits base n)

-- A digit is no sign.
pub digit_no_sign :
    (base : Base) (c : ℕ) {d : ℕ}
    → digit? base c ≡ some d
    → ((c == b'-') ≡ false) × ((c == b'+') ≡ false)
unfolding digit?
digit_no_sign decimal c h = ground arith
digit_no_sign hexadecimal c h = ground arith

-- A text of digits has no sign.
pub set_string_digits :
    (base : Base) (s : Bytes) {n : ℕ} → read base s ≡ some n → set_string base s ≡ some (pos n)
unfolding set_string read read_onto
set_string_digits base [] h = ground arith
set_string_digits base (c ∷ s) {n} h = elim (Option-cases (digit? base c)) [
  | inl e ↦ ground arith
  | inr (d, e) ↦
      let (no_minus, no_plus) = digit_no_sign base c e in rw (no_minus, no_plus) (ap (signed pos) h)
]

pub set_string-text16 : (b : ℤ) → set_string hexadecimal (text16 b) ≡ some b
unfolding text16 set_string
set_string-text16 (pos n) =
    set_string_digits hexadecimal (written hexadecimal n) (read-written hexadecimal n)
set_string-text16 (negsuc n) = ap (signed negated) (read-written hexadecimal (suc n))
