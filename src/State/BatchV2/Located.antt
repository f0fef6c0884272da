-- ===== src/State/BatchV2/Located.antt =====
-- state/encoding_batch_v2.go: slices and the length of an RLP list, where the bytes stand at a position.
use zkevm_aggregator.Prelude.{
  ℕ, zero, suc, ◌+◌, ◌-◌, ◌^◌, ◌<◌, ◌≤◌, ◌≡◌, refl, ap, sym, ◌∙◌, Bool, if◌then◌else◌, Bool-cases,
  get_elem?, some, none, inl, inr, [], ◌∷◌, ◌++◌, ltb, leb, take-append_self, true, false, length,
  take, drop, length-drop, length-append, arith, append_assoc,
}
use zkevm_aggregator.Prelude.Result.{Result, ok, err, panic, ◌>>=◌}
use zkevm_aggregator.State.{Bytes, u64}
use zkevm_aggregator.State.BatchV2.{
  at, BatchError, invalid_rlp, parse_uint, slice, f7, c0, short_rlp, long_length,
  decode_rlp_list_length_from_offset,
}
use zkevm_aggregator.State.BatchV2.Header.{drop_add, get_elem?_of_drop, suc_one}

drop_front : (x y : Bytes) → drop (length x) (x ++ y) ≡ y
drop_front [] y = refl
drop_front (a ∷ x) y = drop_front x y

cut_at : (k : ℕ) (x : Bytes) → take k x ++ drop k x ≡ x
cut_at zero x = refl
cut_at (suc k) [] = refl
cut_at (suc k) (a ∷ x) = ap (◌∷◌ a) (cut_at k x)

length_taken : (k : ℕ) (x : Bytes) → k ≤ length x → length (take k x) ≡ k
length_taken zero x h = refl
length_taken (suc k) [] h = absurd (omega arith)
length_taken (suc k) (a ∷ x) h = omega (arith, length_taken k x (omega arith))

-- What follows bytes that stand at a position.
pub drop_past :
    (bs : Bytes) (from : ℕ) (x post : Bytes)
    → drop from bs ≡ x ++ post
    → drop (from + length x) bs ≡ post
drop_past bs from x post e =
    drop_add from (length x) bs ∙ ap (drop (length x)) e ∙ drop_front x post

pub length_at :
    (bs : Bytes) (from : ℕ) (x post : Bytes)
    → drop from bs ≡ x ++ post
    → length bs - from ≡ length x + length post
length_at bs from x post e = sym (length-drop from bs) ∙ ap length e ∙ length-append x post

pub leb_of_le : (a b : ℕ) → a ≤ b → leb a b ≡ true
leb_of_le a b h = ground arith

add_less : (a b : ℕ) → a + b - a ≡ b
add_less a b = omega arith

-- Bytes that stand at a position are the slice there.
pub slice_at :
    (bs : Bytes) (from to : ℕ) (x post : Bytes)
    → drop from bs ≡ x ++ post
    → 0 < length x
    → to ≡ from + length x
    → slice bs from to ≡ ok x
slice_at bs from to x post e pos h = simp (
  h,
  leb_of_le from (from + length x) (omega arith),
  leb_of_le (from + length x) (length bs) (omega (arith, length_at bs from x post e)),
  add_less from (length x),
  e,
  take-append_self x post,
)

same_long :
    (c : ℕ) {t t' : Bool} {s s' : Result BatchError Bytes}
    → t ≡ false
    → t' ≡ false
    → s ≡ s'
    → (if t
        then err invalid_rlp
        else s >>= λ bs. parse_uint bs >>= λ n. ok (u64 (u64 (n + c - f7) + 1)))
      ≡ (if t'
          then err invalid_rlp
          else s' >>= λ bs. parse_uint bs >>= λ n. ok (u64 (u64 (n + c - f7) + 1)))
same_long c ht ht' hs = rw (ht, ht', hs) refl

lacks :
    (bs : Bytes) (end_pos : ℕ)
    → end_pos ≤ length bs
    → length bs < 2 ^ 63
    → ltb (length bs) (u64 end_pos) ≡ false
lacks bs end_pos h small = ground arith

-- The list `c ∷ cs` at `offset`, whose header is followed by `k` bytes of length.
long_length_at :
    (bs : Bytes) (offset c : ℕ) (cs post : Bytes)
    → length bs < 2 ^ 63
    → 248 ≤ c
    → c < 256
    → drop offset bs ≡ c ∷ (cs ++ post)
    → c - f7 ≤ length cs
    → long_length bs offset c ≡ long_length (c ∷ cs) 0 c
long_length_at bs offset c cs post small lo hi e inside =
    let k = c - f7 in
    let x = take k cs in
    let lx = length_taken k cs inside in
    let (g, e1) = get_elem?_of_drop offset bs e in
    let here =
      slice_at bs (offset + 1) (offset + 1 + k) x (drop k cs ++ post)
        (ap (λ n. drop n bs) (sym (suc_one offset))
          ∙ e1
          ∙ ap (λ y. y ++ post) (sym (cut_at k cs))
          ∙ append_assoc x (drop k cs) post)
        (omega (arith, lx)) (omega (arith, lx)) in
    let there =
      slice_at (c ∷ cs) (0 + 1) (0 + 1 + k) x (drop k cs) (sym (cut_at k cs)) (omega (arith, lx))
        (omega (arith, lx)) in
    same_long c
      (lacks bs (offset + 1 + k) (omega (arith, length_at bs offset (c ∷ cs) post e)) small)
      (lacks (c ∷ cs) (0 + 1 + k) (omega arith)
        (omega (arith, length_at bs offset (c ∷ cs) post e)))
      (here ∙ sym there)

abbrev header_length : Bytes → ℕ → ℕ → Result BatchError ℕ
header_length bs offset num =
    if ltb num c0
    then err invalid_rlp
    else if ltb short_rlp (num - c0)
    then long_length bs offset num
    else ok (num - c0 + 1)

pub at-some : (bs : Bytes) (i : ℕ) {b : ℕ} → get_elem? bs i ≡ some b → at bs i ≡ ok b
at-some bs i e = ap (λ o. elim o [ none ↦ panic | some b ↦ ok b ]) e

at_head :
    (bs : Bytes) (offset c : ℕ)
    → get_elem? bs offset ≡ some c
    → decode_rlp_list_length_from_offset bs offset ≡ header_length bs offset c
unfolding decode_rlp_list_length_from_offset
at_head bs offset c g = ap (λ r. r >>= header_length bs offset) (at-some bs offset g)

-- The bytes of the length, where the header has any, are inside the list.
length_inside :
    (c n : ℕ) (cs : Bytes)
    → c < 256
    → ltb short_rlp (c - c0) ≡ true
    → long_length (c ∷ cs) 0 c ≡ ok n
    → c - f7 ≤ length cs
length_inside c n cs hi long h = ground arith

long_of :
    (c n : ℕ) (bs : Bytes)
    → ltb c c0 ≡ false
    → ltb short_rlp (c - c0) ≡ true
    → header_length bs 0 c ≡ ok n
    → long_length bs 0 c ≡ ok n
long_of c n bs high long h = sym (rw (high, long) refl) ∙ h

header_length_at :
    (bs : Bytes) (offset c n : ℕ) (cs post : Bytes)
    → length bs < 2 ^ 63
    → c < 256
    → drop offset bs ≡ c ∷ (cs ++ post)
    → header_length (c ∷ cs) 0 c ≡ ok n
    → header_length bs offset c ≡ ok n
header_length_at bs offset c n cs post small hi e h = elim (Bool-cases (ltb c c0)) [
  | inl low ↦ ground arith
  | inr high ↦ elim (Bool-cases (ltb short_rlp (c - c0))) [
    | inl long ↦
        rw (high, long)
          (long_length_at bs offset c cs post small (ground arith) hi e
              (length_inside c n cs hi long (long_of c n (c ∷ cs) high long h))
            ∙ long_of c n (c ∷ cs) high long h)
    | inr short ↦ ground arith
  ]
]

-- The length that the header of an RLP list states does not depend on where the list stands.
pub list_length_at :
    (bs : Bytes) (offset c n : ℕ) (cs post : Bytes)
    → length bs < 2 ^ 63
    → c < 256
    → drop offset bs ≡ c ∷ (cs ++ post)
    → decode_rlp_list_length_from_offset (c ∷ cs) 0 ≡ ok n
    → decode_rlp_list_length_from_offset bs offset ≡ ok n
list_length_at bs offset c n cs post small hi e h =
    at_head bs offset c (get_elem?_of_drop offset bs e).0
    ∙ header_length_at bs offset c n cs post small hi e (sym (at_head (c ∷ cs) 0 c refl) ∙ h)
