-- ===== src/Aggregator/Signed/Cuts.antt =====
-- Texts that are cut at their first and at their last x.
use zkevm_aggregator.Prelude.{
  ℕ, Bool-cases, inl, inr, ◌<◌, ◌≡◌, refl, sym, ap, ◌∙◌, subst, ◌≢◌, arith, [], ◌∷◌, ◌++◌, length,
  length-append, append_assoc, ◌==◌, ◌/◌, ◌%◌,
}
use zkevm_aggregator.State.{Bytes}
use zkevm_aggregator.Hex.{digit, encode_to_string}
use zkevm_aggregator.Hex.RoundTrip.{AllBytes}
use zkevm_aggregator.Hex.Numerals.{hexadecimal, lt_wf, written_from, written}
use mathlib.Core.Logic.{ite}
use mathlib.Core.WellFounded
use native.Mathlib.Decide.{dec_lt}
use zkevm_aggregator.Hex.Numerals.Written.{written_step}

-- No character is an x.
abbrev pub NoX : Bytes → Type 0
NoX [] = Unit {0}
NoX (c ∷ s) = (c ≢ b'x') × NoX s

NoX-append : (s t : Bytes) → NoX (s ++ t) → NoX t
NoX-append [] t h = h
NoX-append (c ∷ s) t (_, h) = NoX-append s t h

pub tail_eq : {c d : ℕ} {s t : Bytes} → c ∷ s ≡ d ∷ t → s ≡ t
tail_eq e = cc

head_eq : {c d : ℕ} {s t : Bytes} → c ∷ s ≡ d ∷ t → c ≡ d
head_eq e = cc

both : {c d : ℕ} {s t : Bytes} → c ≡ d → s ≡ t → c ∷ s ≡ d ∷ t
both h t = cc

-- Texts are cut at the first x.
first_x : (a b r s : Bytes) → NoX a → NoX b → a ++ b'x' ∷ r ≡ b ++ b'x' ∷ s → (a ≡ b) × (r ≡ s)
first_x [] [] r s ha hb e = (refl, cc)
first_x [] (c ∷ b) r s ha (hc, hb) e = absurd (hc (sym (head_eq e)))
first_x (c ∷ a) [] r s (hc, ha) hb e = absurd (hc (head_eq e))
first_x (c ∷ a) (d ∷ b) r s (_, ha) (_, hb) e =
    let (h, t) = first_x a b r s ha hb (tail_eq e) in (both (head_eq e) h, t)

-- Texts are cut at the last x.
last_x : (a b r s : Bytes) → NoX r → NoX s → a ++ b'x' ∷ r ≡ b ++ b'x' ∷ s → (a ≡ b) × (r ≡ s)
last_x [] [] r s hr hs e = (refl, cc)
last_x [] (c ∷ b) r s hr hs e = absurd ((NoX-append b (b'x' ∷ s) (subst NoX (tail_eq e) hr)).0 refl)
last_x (c ∷ a) [] r s hr hs e =
    absurd ((NoX-append a (b'x' ∷ r) (subst NoX (sym (tail_eq e)) hs)).0 refl)
last_x (c ∷ a) (d ∷ b) r s hr hs e =
    let (h, t) = last_x a b r s hr hs (tail_eq e) in (both (head_eq e) h, t)

-- Parts of the same length are the same.
same_length : (a b r s : Bytes) → length a ≡ length b → a ++ r ≡ b ++ s → (a ≡ b) × (r ≡ s)
same_length [] [] r s h e = (refl, e)
same_length [] (c ∷ b) r s h e = absurd (omega arith)
same_length (c ∷ a) [] r s h e = absurd (omega arith)
same_length (c ∷ a) (d ∷ b) r s h e =
    let (x, y) = same_length a b r s (omega arith) (tail_eq e) in (both (head_eq e) x, y)

NoX-digit : (d : ℕ) → d < 16 → digit d ≢ b'x'
NoX-digit d h e = absurd (ground arith)

pub NoX-encode_to_string : (bs : Bytes) → AllBytes bs → NoX (encode_to_string bs)
unfolding encode_to_string
NoX-encode_to_string [] h = tt
NoX-encode_to_string (b ∷ bs) (hb, h) = (
  NoX-digit (b / 16) (omega arith),
  (NoX-digit (b % 16) (omega arith), NoX-encode_to_string bs h),
)

NoX-written_from :
    (n : ℕ) (out : Bytes) → NoX out → NoX (written_from hexadecimal n (lt_wf.apply n) out)
NoX-written_from n =
    WellFounded.induction lt_wf
      {C = λ m. (out : Bytes) → NoX out → NoX (written_from hexadecimal m (lt_wf.apply m) out)} n
      λ m ih out h.
        rw (written_step hexadecimal m out)
          (elim (dec_lt 0 m)
            as (λ d. NoX (
              ite d
                (written_from hexadecimal (m / 16) (lt_wf.apply (m / 16)) (digit (m % 16) ∷ out))
                out)) [
                  | yes lt ↦
                      ih (m / 16) (omega arith) (digit (m % 16) ∷ out)
                        (NoX-digit (m % 16) (omega arith), h)
                  | no _ ↦ h
                ])

pub NoX-written : (n : ℕ) → NoX (written hexadecimal n)
unfolding written
NoX-written n = elim (Bool-cases (n == 0)) [
  | inl e ↦ rw e ((λ h. absurd (omega (arith, h))), tt)
  | inr e ↦ rw e (NoX-written_from n [] tt)
]

-- A zero, which stands before an x.
NoX-zero : (s : Bytes) → NoX s → NoX (s ++ b'0' ∷ [])
NoX-zero [] h = ((λ e. absurd (omega (arith, e))), tt)
NoX-zero (c ∷ s) (hc, h) = (hc, NoX-zero s h)

without_zero : (a b : Bytes) → a ++ b'0' ∷ [] ≡ b ++ b'0' ∷ [] → a ≡ b
without_zero a b e =
    (same_length a b (b'0' ∷ []) (b'0' ∷ [])
      (omega (arith, length-append a (b'0' ∷ []), length-append b (b'0' ∷ []), ap length e)) e).0

-- A text of hexadecimal digits, the second prefix, and what follows.
pub cut_first :
    (a s a' s' : Bytes)
    → NoX a
    → NoX a'
    → a ++ b'0' ∷ b'x' ∷ s ≡ a' ++ b'0' ∷ b'x' ∷ s'
    → (a ≡ a') × (s ≡ s')
cut_first a s a' s' na na' h =
    let (x, y) =
      first_x (a ++ b'0' ∷ []) (a' ++ b'0' ∷ []) s s' (NoX-zero a na) (NoX-zero a' na') (
        append_assoc a (b'0' ∷ []) (b'x' ∷ s)
        ∙ h
        ∙ sym (append_assoc a' (b'0' ∷ []) (b'x' ∷ s'))) in
    (without_zero a a' x, y)

pub cut_last :
    (s f s' f' : Bytes)
    → NoX f
    → NoX f'
    → s ++ b'0' ∷ b'x' ∷ f ≡ s' ++ b'0' ∷ b'x' ∷ f'
    → (s ≡ s') × (f ≡ f')
cut_last s f s' f' nf nf' h =
    let (x, y) =
      last_x (s ++ b'0' ∷ []) (s' ++ b'0' ∷ []) f f' nf nf' (
        append_assoc s (b'0' ∷ []) (b'x' ∷ f)
        ∙ h
        ∙ sym (append_assoc s' (b'0' ∷ []) (b'x' ∷ f'))) in
    (without_zero s s' x, y)

-- The last two of three parts have their lengths.
pub cut_parts :
    (b r e b' r' e' : Bytes)
    → length r ≡ length r'
    → length e ≡ length e'
    → b ++ (r ++ e) ≡ b' ++ (r' ++ e')
    → (b ≡ b') × ((r ≡ r') × (e ≡ e'))
cut_parts b r e b' r' e' hr he h =
    let (x, y) =
      same_length b b' (r ++ e) (r' ++ e')
        (omega (
          arith,
          length-append b (r ++ e),
          length-append b' (r' ++ e'),
          length-append r e,
          length-append r' e',
          ap length h,
        ))
        h in
    (x, same_length r r' e e' hr y)
