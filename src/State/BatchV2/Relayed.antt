-- ===== src/State/BatchV2/Relayed.antt =====
-- state/encoding_batch_v2.go: the bytes of a transaction in a batch that is encoded, and what the
-- decoder reads there.
use zkevm_aggregator.Prelude.{
  ℕ, suc, ◌+◌, ◌-◌, ◌^◌, ◌<◌, ◌≤◌, ◌≡◌, refl, ap, sym, ◌∙◌, some, List, [], ◌∷◌, ◌++◌, ◌==◌, ltb,
  false, length, take, drop, length-append, arith, append_assoc,
}
use zkevm_aggregator.Prelude.Result.{Result, ok, ◌>>=◌}
use zkevm_aggregator.State.{Bytes, u64}
use zkevm_aggregator.Ethereum.{Ethereum, LegacyTx}
use zkevm_aggregator.State.BatchV2.{
  change_l2_block, rlp_failure, transaction, slice, decode_rlp_list_length_from_offset,
}
use zkevm_aggregator.State.BatchV2.Tx.{
  decode_tx_rlp, decode_parts, rlp_fields_to_legacy_tx, from_option,
}
use zkevm_aggregator.State.BatchV2.Header.{get_elem?_of_drop, suc_one}
use zkevm_aggregator.State.BatchV2.Located.{
  drop_past, length_at, slice_at, leb_of_le, list_length_at, at-some,
}

pub ok_bind :
    {E A B : Type 0} {r : Result E A} {a : A} (f : A → Result E B) {x : Result E B}
    → r ≡ ok a
    → f a ≡ x
    → r >>= f ≡ x
ok_bind f e h = ap (λ y. y >>= f) e ∙ h

slice_inside :
    (bs : Bytes) (from to : ℕ)
    → from ≤ to
    → to ≤ length bs
    → slice bs from to ≡ ok (take (to - from) (drop from bs))
slice_inside bs from to h h' = simp (leb_of_le from to h, leb_of_le to (length bs) h') refl

-- The signature, the percentage and what is before them end inside the data.
room :
    (bs : Bytes) (start : ℕ) (r s : Bytes) (v p : ℕ) (post : Bytes)
    → length r ≡ 32
    → length s ≡ 32
    → drop start bs ≡ r ++ (s ++ v ∷ p ∷ post)
    → start + 66 ≤ length bs
room bs start r s v p post hr hl e =
    omega (arith, length_at bs start r (s ++ v ∷ p ∷ post) e, length-append s (v ∷ p ∷ post))

past32 :
    (bs : Bytes) (start k : ℕ)
    → k ≡ 32
    → start + 66 ≤ length bs
    → length bs < 2 ^ 63
    → u64 (start + 32) ≡ start + k
past32 bs start k hk long small = omega arith

past64 :
    (bs : Bytes) (start k : ℕ)
    → k ≡ 32
    → start + 66 ≤ length bs
    → length bs < 2 ^ 63
    → u64 (start + 64) ≡ u64 (start + 32) + k
past64 bs start k hk long small = omega arith

past65 :
    (bs : Bytes) (start : ℕ)
    → start + 66 ≤ length bs
    → length bs < 2 ^ 63
    → u64 (start + 65) ≡ suc (u64 (start + 64))
past65 bs start long small = omega arith

no_wrap : (n : ℕ) (bs : Bytes) → n ≤ length bs → length bs < 2 ^ 63 → u64 n ≡ n
no_wrap n bs h small = omega arith

fits : (bs : Bytes) (n : ℕ) → n ≤ length bs → ltb (length bs) n ≡ false
fits bs n h = ground arith

spread :
    (coded r s : Bytes) (v : ℕ) (post : Bytes)
    → (coded ++ (r ++ (s ++ v ∷ []))) ++ post ≡ coded ++ (r ++ (s ++ v ∷ post))
spread coded r s v post =
    append_assoc coded (r ++ (s ++ v ∷ [])) post
    ∙ ap (λ x. coded ++ x)
        (append_assoc r (s ++ v ∷ []) post ∙ ap (λ x. r ++ x) (append_assoc s (v ∷ []) post))

module _ (eth : Ethereum) where
  -- The bytes of a transaction: an RLP list whose header states its length, the signature's numbers,
  -- and what go-ethereum makes of them.
  pub record Encodes (bs : Bytes) (tx : eth.Tx) : Type 0 where
    pub first : ℕ
    pub rest : Bytes
    pub r : Bytes
    pub s : Bytes
    pub v : ℕ
    pub fields : List Bytes
    pub legacy : LegacyTx
    pub made : bs ≡ (first ∷ rest) ++ (r ++ (s ++ v ∷ []))
    pub is_byte : first < 256
    pub states : decode_rlp_list_length_from_offset (first ∷ rest) 0 ≡ ok (length (first ∷ rest))
    pub length_r : length r ≡ 32
    pub length_s : length s ≡ 32
    pub decoded : eth.rlp_decode (first ∷ rest) ≡ some fields
    pub fields_of : rlp_fields_to_legacy_tx fields (v ∷ []) r s ≡ ok legacy
    pub is_tx : eth.new_tx legacy ≡ tx

  -- The parts that `DecodeTxRLP` cuts out, at the places where they stand.
  decode_parts_at :
      (bs : Bytes) (offset start p : ℕ) (coded r s post : Bytes) (v : ℕ) (fields : List Bytes)
      (legacy : LegacyTx)
      → length bs < 2 ^ 63
      → start ≡ offset + length coded
      → 0 < length coded
      → length r ≡ 32
      → length s ≡ 32
      → drop offset bs ≡ coded ++ (r ++ (s ++ v ∷ p ∷ post))
      → eth.rlp_decode coded ≡ some fields
      → rlp_fields_to_legacy_tx fields (v ∷ []) r s ≡ ok legacy
      → decode_parts eth bs offset (start + 66) start
        ≡ ok (
          start + 66,
          record { efficiency_percentage = p; body = transaction (eth.new_tx legacy) },
        )
  unfolding decode_parts
  decode_parts_at bs offset start p coded r s post v fields legacy small hs pos hr hl e dec leg =
      let e1 = ap (λ n. drop n bs) hs ∙ drop_past bs offset coded (r ++ (s ++ v ∷ p ∷ post)) e in
      let long = room bs start r s v p post hr hl e1 in
      let e2 =
        ap (λ n. drop n bs) (past32 bs start (length r) hr long small)
        ∙ drop_past bs start r (s ++ v ∷ p ∷ post) e1 in
      let e3 =
        ap (λ n. drop n bs) (past64 bs start (length s) hl long small)
        ∙ drop_past bs (u64 (start + 32)) s (v ∷ p ∷ post) e2 in
      let (g, e4) = get_elem?_of_drop (u64 (start + 64)) bs e3 in
      let e5 = ap (λ n. drop n bs) (past65 bs start long small) ∙ e4 in
      let (g', _) = get_elem?_of_drop (u64 (start + 65)) bs e5 in
      ok_bind _ (slice_inside bs offset (start + 66) (omega (arith, hs)) long) (
        ok_bind _ (slice_at bs offset start coded (r ++ (s ++ v ∷ p ∷ post)) e pos hs) (
          ok_bind _
            (slice_at bs start (u64 (start + 32)) r (s ++ v ∷ p ∷ post) e1 (omega (arith, hr))
              (past32 bs start (length r) hr long small))
            (ok_bind _
              (slice_at bs (u64 (start + 32)) (u64 (start + 64)) s (v ∷ p ∷ post) e2
                (omega (arith, hl)) (past64 bs start (length s) hl long small))
              (ok_bind _
                (slice_at bs (u64 (start + 64)) (u64 (start + 65)) (v ∷ []) (p ∷ post) e3
                  (omega arith) (past65 bs start long small ∙ suc_one (u64 (start + 64))))
                (ok_bind _ (at-some bs (u64 (start + 65)) g')
                  (ok_bind _ (ap (from_option rlp_failure) dec) (ok_bind _ leg refl)))))))

  -- A transaction is decoded where its bytes stand, with the percentage after them.
  pub decode_tx_rlp_at :
      (bs : Bytes) (offset p : ℕ) (t post : Bytes) (tx : eth.Tx) (h : Encodes t tx)
      → length bs < 2 ^ 63
      → drop offset bs ≡ t ++ p ∷ post
      → decode_tx_rlp eth bs offset
        ≡ ok (
          offset + suc (length h.rest) + 66,
          record { efficiency_percentage = p; body = transaction tx },
        )
  unfolding decode_tx_rlp
  decode_tx_rlp_at bs offset p t post tx h small e =
      let e' =
        e ∙ ap (λ x. x ++ p ∷ post) h.made ∙ spread (h.first ∷ h.rest) h.r h.s h.v (p ∷ post) in
      let start = offset + suc (length h.rest) in
      let long =
        room bs start h.r h.s h.v p post h.length_r h.length_s
          (drop_past bs offset (h.first ∷ h.rest) (h.r ++ (h.s ++ h.v ∷ p ∷ post)) e') in
      ok_bind _
        (list_length_at bs offset h.first (suc (length h.rest)) h.rest
          (h.r ++ (h.s ++ h.v ∷ p ∷ post)) small h.is_byte e' h.states)
        (rw
          (
            no_wrap (start + 66) bs long small,
            no_wrap start bs (omega arith) small,
            fits bs (start + 66) long,
          )
          (decode_parts_at bs offset start p (h.first ∷ h.rest) h.r h.s post h.v h.fields h.legacy
              small refl (omega arith) h.length_r h.length_s e' h.decoded h.fields_of
            ∙ ap (λ x. ok (start + 66, record { efficiency_percentage = p; body = transaction x }))
                h.is_tx))

  -- What follows the percentage.
  pub past_tx :
      (bs : Bytes) (offset p : ℕ) (t post : Bytes) (tx : eth.Tx) (h : Encodes t tx)
      → drop offset bs ≡ t ++ p ∷ post
      → drop (offset + suc (length h.rest) + 66) bs ≡ post
  past_tx bs offset p t post tx h e =
      ap (λ n. drop n bs)
        (omega (
          arith,
          length-append t (p ∷ []),
          ap length h.made,
          length-append (h.first ∷ h.rest) (h.r ++ (h.s ++ h.v ∷ [])),
          length-append h.r (h.s ++ h.v ∷ []),
          length-append h.s (h.v ∷ []),
          h.length_r,
          h.length_s,
        ))
      ∙ drop_past bs offset (t ++ p ∷ []) post (e ∙ sym (append_assoc t (p ∷ []) post))

  -- The first byte of a list does not start a block.
  pub starts_no_block :
      (first n : ℕ) (rest : Bytes)
      → decode_rlp_list_length_from_offset (first ∷ rest) 0 ≡ ok n
      → (first == change_l2_block) ≡ false
  unfolding decode_rlp_list_length_from_offset
  starts_no_block first n rest h = ground arith
