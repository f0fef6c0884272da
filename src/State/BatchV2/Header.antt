-- ===== src/State/BatchV2/Header.antt =====
-- state/encoding_batch_v2.go: block headers, encoded and decoded again.
use zkevm_aggregator.Prelude.{
  ℕ, zero, suc, ◌+◌, ◌-◌, ◌^◌, ◌<◌, ◌≡◌, refl, ap, sym, ◌∙◌, some, none, List, [], ◌∷◌, ◌++◌,
  length, take, drop, get_elem?, length-drop, arith, append_assoc,
}
use zkevm_aggregator.Prelude.Result.{ok}
use zkevm_aggregator.State.{Bytes}
use zkevm_aggregator.Ethereum.{from_bytes}
use zkevm_aggregator.State.BatchV2.{
  ChangeL2BlockHeader, L2BlockRaw, encode_uint32, decode_uint32, encode_header, decode_block_header,
  change_l2_block,
}

pub suc_one : (n : ℕ) → suc n ≡ n + 1
suc_one n = omega arith

-- Both fields of a header are of type uint32.
abbrev pub IsHeader : ChangeL2BlockHeader → Type 0
IsHeader c = (c.delta_timestamp < 2 ^ 32) × (c.index_l1_info_tree < 2 ^ 32)

abbrev pub empty_block : {Tx : Type 0} → ChangeL2BlockHeader → L2BlockRaw Tx
empty_block c = record { header = c; transactions = [] }

from_bytes-encode_uint32 : (v : ℕ) → v < 2 ^ 32 → from_bytes (encode_uint32 v) ≡ v
unfolding encode_uint32
from_bytes-encode_uint32 v h = omega arith

drop_nil : {A : Type 0} (m : ℕ) → drop {A = A} m [] ≡ []
drop_nil zero = refl
drop_nil (suc m) = refl

suc_add : (n m : ℕ) → suc n + m ≡ suc (n + m)
suc_add n m = omega arith

pub drop_add : {A : Type 0} (n m : ℕ) (xs : List A) → drop (n + m) xs ≡ drop m (drop n xs)
drop_add zero m xs = ap (λ k. drop k xs) (omega arith)
drop_add (suc n) m [] = drop_nil (suc n + m) ∙ sym (drop_nil m)
drop_add (suc n) m (x ∷ xs) = ap (λ k. drop k (x ∷ xs)) (suc_add n m) ∙ drop_add n m xs

pub get_elem?_of_drop :
    {A : Type 0} (n : ℕ) (xs : List A) {x : A} {ys : List A}
    → drop n xs ≡ x ∷ ys
    → (get_elem? xs n ≡ some x) × (drop (suc n) xs ≡ ys)
get_elem?_of_drop zero [] e = cc
get_elem?_of_drop zero (x ∷ xs) e = (ground arith, ground arith)
get_elem?_of_drop (suc n) [] e = cc
get_elem?_of_drop (suc n) (x ∷ xs) e = get_elem?_of_drop n xs e

pub get_elem?-none : {A : Type 0} (n : ℕ) (xs : List A) → drop n xs ≡ [] → get_elem? xs n ≡ none
get_elem?-none zero [] e = refl
get_elem?-none zero (x ∷ xs) e = cc
get_elem?-none (suc n) [] e = refl
get_elem?-none (suc n) (x ∷ xs) e = get_elem?-none n xs e

decode_there :
    (bs : Bytes) (pos v rest : ℕ)
    → v < 2 ^ 32
    → length bs - pos ≡ suc (suc (suc (suc rest)))
    → take 4 (drop pos bs) ≡ encode_uint32 v
    → decode_uint32 bs pos ≡ ok (pos + 4, v)
unfolding decode_uint32
decode_there bs pos v rest h len e =
    ground (arith, len, ap from_bytes e ∙ from_bytes-encode_uint32 v h)

-- An encoded number that stands at a position is read there, and what follows it stands after it.
decode_uint32_at :
    (bs : Bytes) (pos v : ℕ) (post : Bytes)
    → v < 2 ^ 32
    → drop pos bs ≡ encode_uint32 v ++ post
    → (decode_uint32 bs pos ≡ ok (pos + 4, v)) × (drop (pos + 4) bs ≡ post)
unfolding decode_uint32 encode_uint32
decode_uint32_at bs pos v post h e = (
  decode_there bs pos v (length post) h (sym (length-drop pos bs) ∙ ap length e) (ap (take 4) e),
  drop_add pos 4 bs ∙ ap (drop 4) e,
)

pub decode_block_header_at :
    {Tx : Type 0} (bs : Bytes) (pos : ℕ) (c : ChangeL2BlockHeader) (post : Bytes)
    → IsHeader c
    → drop pos bs ≡ encode_uint32 c.delta_timestamp ++ (encode_uint32 c.index_l1_info_tree ++ post)
    → (decode_block_header {Tx = Tx} bs pos ≡ ok (pos + 4 + 4, empty_block c))
      × (drop (pos + 4 + 4) bs ≡ post)
unfolding decode_block_header
decode_block_header_at bs pos c post (hd, hi) e =
    let (r1, e1) =
      decode_uint32_at bs pos c.delta_timestamp (encode_uint32 c.index_l1_info_tree ++ post) hd e in
    let (r2, e2) = decode_uint32_at bs (pos + 4) c.index_l1_info_tree post hi e1 in
    (simp (r1, r2), e2)

pub encode_header_lem :
    (c : ChangeL2BlockHeader) (acc rest : Bytes)
    → encode_header c acc ++ rest
      ≡ acc
        ++ (change_l2_block
            ∷ (encode_uint32 c.delta_timestamp ++ (encode_uint32 c.index_l1_info_tree ++ rest)))
unfolding encode_header
encode_header_lem c acc rest = simp append_assoc
