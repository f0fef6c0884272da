-- ===== src/State/BatchV2/Encoded.antt =====
-- state/helper.go: the bytes that `prepareRLPTxData` writes for a transaction, and what the decoder makes
-- of them. Of go-ethereum it takes what RLP documents.
use zkevm_aggregator.Prelude.{
  ℕ, zero, suc, ◌+◌, ◌-◌, ◌/◌, ◌%◌, ◌^◌, ◌<◌, ◌≤◌, ◌≡◌, refl, ap, ◌∙◌, false, some, [], ◌∷◌, ◌++◌,
  length, length-append, arith, append_assoc, ltb,
}
use zkevm_aggregator.Prelude.Result.{ok}
use zkevm_aggregator.State.{Bytes, u64}
use zkevm_aggregator.Ethereum.{from_bytes}
use zkevm_aggregator.Hex.{digit, encode_to_string, decode_string}
use zkevm_aggregator.Hex.RoundTrip.{AllBytes, decode_string-encode_to_string}
use zkevm_aggregator.State.BatchV2.{f7, decode_rlp_list_length_from_offset, long_length, parse_uint}
use zkevm_aggregator.State.BatchV2.Tx.{hex_digits, padded_hex}
use zkevm_aggregator.State.BatchV2.Relayed.{ok_bind}
use zkevm_aggregator.State.BatchV2.Located.{slice_at}
use zkevm_aggregator.State.BatchV2.Signature.{word, padded_hex-word, AllBytes-word}

-- The bytes of an RLP list: up to 55 bytes behind a byte that states their number, or more behind the
-- bytes of their number and a byte that states how many those are.
pub data IsList : ℕ → Bytes → Type 0 where
  short : (items : Bytes) → length items ≤ 55 → IsList (192 + length items) items
  long :
      (size items : Bytes)
      → 0 < length size
      → length size ≤ 8
      → from_bytes size ≡ length items
      → 55 < length items
      → length items < 2 ^ 63
      → IsList (247 + length size) (size ++ items)

parse_uint_lem :
    (bs : Bytes) (n : ℕ) → 0 < length bs → from_bytes bs ≡ n → n < 2 ^ 64 → parse_uint bs ≡ ok n
parse_uint_lem [] n h e k = absurd (omega arith)
parse_uint_lem (b ∷ bs) n h e k = rw e (ground arith)

long_length_lem :
    (first : ℕ) (size items : Bytes)
    → 0 < length size
    → length size ≤ 8
    → first ≡ 247 + length size
    → from_bytes size ≡ length items
    → 55 < length items
    → length items < 2 ^ 63
    → long_length (first ∷ (size ++ items)) 0 first ≡ ok (suc (length (size ++ items)))
long_length_lem first size items pos few e stated big small =
    let cut =
      slice_at (first ∷ (size ++ items)) 1 (0 + 1 + (first - f7)) size items refl pos
        (omega arith) in
    let parsed = parse_uint_lem size (length items) pos stated (omega arith) in
    let inside : ltb (length (first ∷ (size ++ items))) (u64 (0 + 1 + (first - f7))) ≡ false =
      ground (arith, length-append size items) in
    rw inside (ok_bind _ cut (ok_bind _ parsed (ap ok (omega (arith, length-append size items)))))

pub list_length :
    (first : ℕ) (rest : Bytes)
    → IsList first rest
    → decode_rlp_list_length_from_offset (first ∷ rest) 0 ≡ ok (length (first ∷ rest))
unfolding decode_rlp_list_length_from_offset
list_length first rest (short items h) = ground arith
list_length first rest (long size items pos few stated big small) =
    rw (long_length_lem (247 + length size) size items pos few refl stated big small) (ground arith)

encode_to_string-append :
    (a b : Bytes) → encode_to_string (a ++ b) ≡ encode_to_string a ++ encode_to_string b
unfolding encode_to_string
encode_to_string-append [] b = refl
encode_to_string-append (x ∷ a) b =
    ap (λ t. digit (x / 16) ∷ digit (x % 16) ∷ t) (encode_to_string-append a b)

AllBytes-append : (a b : Bytes) → AllBytes a → AllBytes b → AllBytes (a ++ b)
AllBytes-append [] b ha hb = hb
AllBytes-append (x ∷ a) b (hx, ha) hb = (hx, AllBytes-append a b ha hb)

padded_v : (sign : ℕ) → sign < 2 → padded_hex 2 (27 + sign) ≡ encode_to_string ((27 + sign) ∷ [])
unfolding encode_to_string hex_digits
padded_v zero h = refl
padded_v (suc zero) h = refl
padded_v (suc (suc n)) h = absurd (omega arith)

joined :
    (a b c d : Bytes)
    → ((encode_to_string a ++ encode_to_string b) ++ encode_to_string c) ++ encode_to_string d
      ≡ encode_to_string (a ++ (b ++ (c ++ d)))
joined a b c d = simp (
  encode_to_string-append a (b ++ (c ++ d)),
  encode_to_string-append b (c ++ d),
  encode_to_string-append c d,
  append_assoc,
)

-- The text of a list, of two numbers and of a byte is the text of their bytes.
text_lem :
    (coded : Bytes) (r s sign : ℕ)
    → r < 2 ^ 256
    → s < 2 ^ 256
    → sign < 2
    → ((encode_to_string coded ++ padded_hex 64 r) ++ padded_hex 64 s) ++ padded_hex 2 (27 + sign)
      ≡ encode_to_string (coded ++ (word r ++ (word s ++ (27 + sign) ∷ [])))
text_lem coded r s sign hr hs hv =
    ap (λ t. ((encode_to_string coded ++ t) ++ padded_hex 64 s) ++ padded_hex 2 (27 + sign))
      (padded_hex-word r hr)
    ∙ ap
        (λ t.
          ((encode_to_string coded ++ encode_to_string (word r)) ++ t) ++ padded_hex 2 (27 + sign))
        (padded_hex-word s hs)
    ∙ ap
        (λ t.
          ((encode_to_string coded ++ encode_to_string (word r)) ++ encode_to_string (word s)) ++ t)
        (padded_v sign hv)
    ∙ joined coded (word r) (word s) ((27 + sign) ∷ [])

pub text-bytes :
    (coded : Bytes) (r s sign : ℕ)
    → AllBytes coded
    → r < 2 ^ 256
    → s < 2 ^ 256
    → sign < 2
    → decode_string (
        ((encode_to_string coded ++ padded_hex 64 r) ++ padded_hex 64 s)
        ++ padded_hex 2 (27 + sign))
      ≡ some (coded ++ (word r ++ (word s ++ (27 + sign) ∷ [])))
text-bytes coded r s sign hc hr hs hv =
    ap decode_string (text_lem coded r s sign hr hs hv)
    ∙ decode_string-encode_to_string (coded ++ (word r ++ (word s ++ (27 + sign) ∷ []))) (
        AllBytes-append coded (word r ++ (word s ++ (27 + sign) ∷ [])) hc (
          AllBytes-append (word r) (word s ++ (27 + sign) ∷ []) (AllBytes-word r)
            (AllBytes-append (word s) ((27 + sign) ∷ []) (AllBytes-word s) (omega arith, tt))))
