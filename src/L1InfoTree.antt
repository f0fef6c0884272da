-- ===== src/L1InfoTree.antt =====
-- l1infotree: the Merkle tree over the L1 info leaves. Keccak is a parameter, `keccak`, of which
-- nothing is assumed. A [32]byte is a list of bytes.
pub mod Reference
pub mod Level
pub mod Root
pub mod MerkleProof
pub mod Frontier
pub mod Incremental
use zkevm_aggregator.Prelude.{
  ℕ, zero, suc, ◌+◌, ◌-◌, ◌*◌, ◌/◌, ◌%◌, ◌^◌, Bool, true, false, Option, none, some, List, [], ◌∷◌,
  ◌++◌, map, leb, ◌==◌, if◌then◌else◌, length, get_or, take, replicate, set,
}
use zkevm_aggregator.Prelude.Result.{Result, ok, err, panic, ◌>>=◌}
use zkevm_aggregator.State.{Bytes}

pub data TreeError : Type 0 where
  more_than_one_root count_mismatch leaf_count_mismatch : TreeError

-- `copy` into a fresh [32]byte.
abbrev pub copy_32 : Bytes → Bytes
copy_32 bs = take 32 (bs ++ replicate 32 0)

abbrev pub zero_leaf : Bytes
zero_leaf = replicate 32 0

-- The bytes of a uint64, high byte first.
abbrev pub big_endian_64 : ℕ → Bytes
big_endian_64 n =
    n / 2 ^ 56 % 256
    ∷ n / 2 ^ 48 % 256
    ∷ n / 2 ^ 40 % 256
    ∷ n / 2 ^ 32 % 256
    ∷ n / 2 ^ 24 % 256
    ∷ n / 2 ^ 16 % 256
    ∷ n / 2 ^ 8 % 256
    ∷ n % 256
    ∷ []

abbrev pub is_odd : ℕ → Bool
is_odd n = n % 2 == 1

-- `append(leaves, mt.zeroHashes[h])` where the number of leaves is odd.
pub pad : Bytes → List Bytes → List Bytes
pad z leaves = if is_odd (length leaves) then leaves ++ (z ∷ []) else leaves

-- A node: its hash and its two children.
pub record Node : Type 0 where
  pub value : Bytes
  pub left : Bytes
  pub right : Bytes

pub record L1InfoTree : Type 0 where
  pub height : ℕ
  pub count : ℕ
  pub siblings : List Bytes
  pub current_root : Bytes

-- uint32 arithmetic wraps.
abbrev pub u32 : ℕ → ℕ
u32 n = n % 2 ^ 32

-- The root is the value of the only node of the last level.
pub single_root : List Node → Result TreeError Bytes
single_root [] = err more_than_one_root
single_root (n ∷ []) = ok n.value
single_root (n ∷ m ∷ ns) = err more_than_one_root

abbrev pub or_zero_leaf : List Bytes → List Bytes → List Bytes
or_zero_leaf zs [] = get_or zs 0 zero_leaf ∷ []
or_zero_leaf zs (x ∷ xs) = x ∷ xs

-- The neighbour of a node, the zero hash past the end.
pub sibling : Bytes → List Bytes → ℕ → Bytes
sibling z leaves index =
    if leb (length leaves) index
    then z
    else if is_odd index
    then get_or leaves (index - 1) z
    else get_or leaves (index + 1) z

-- The sibling that `ComputeMerkleProof` appends; the number of leaves is converted to uint32. The
-- padded level has an even length, so `index + 1` is in range.
pub proof_sibling : Bytes → List Bytes → ℕ → Bytes
proof_sibling z leaves index =
    if leb (u32 (length leaves)) index
    then z
    else if is_odd index
    then get_or leaves (index - 1) z
    else get_or leaves (index + 1) z

unfoldable pub get_current_root_count_and_siblings : L1InfoTree → Bytes × ℕ × List Bytes
get_current_root_count_and_siblings t = (t.current_root, t.count, t.siblings)

module _ (keccak : Bytes → Bytes) where
  -- `Hash` of two values.
  unfoldable pub hash : Bytes → Bytes → Bytes
  hash a b = copy_32 (keccak (a ++ b))

  unfoldable pub hash_leaf_data : Bytes → Bytes → ℕ → Bytes
  hash_leaf_data ger prev_block_hash min_timestamp =
      copy_32 (keccak (ger ++ (prev_block_hash ++ big_endian_64 min_timestamp)))

  -- Each entry after the first is the hash of the last one with itself.
  pub zero_hashes_from : ℕ → Bytes → List Bytes
  zero_hashes_from zero last = last ∷ []
  zero_hashes_from (suc rounds) last = last ∷ zero_hashes_from rounds (hash last last)

  pub generate_zero_hashes : ℕ → List Bytes
  unfolding zero_hashes_from
  generate_zero_hashes height = zero_hashes_from height zero_leaf

  -- A lone last leaf is an index out of range.
  pub build_intermediate : List Bytes → Result TreeError (List Node × List Bytes)
  build_intermediate [] = ok ([], [])
  build_intermediate (a ∷ []) = panic
  build_intermediate (a ∷ b ∷ leaves) = do
    (nodes, hashes) ← build_intermediate leaves
    ok (record { value = hash a b; left = a; right = b } ∷ nodes, hash a b ∷ hashes)

  -- The loop of `BuildL1InfoRoot` over the levels, with the zero hashes from the current level on.
  pub build_levels : List Bytes → List Bytes → List Node → ℕ → Result TreeError (List Node)
  build_levels zs leaves ns zero = ok ns
  build_levels [] leaves ns (suc rounds) = panic
  build_levels (z ∷ zs) leaves ns (suc rounds) = do
    (nodes, hashes) ← build_intermediate (pad z leaves)
    build_levels zs hashes nodes rounds

  unfoldable pub build_l1_info_root : ℕ → List Bytes → Result TreeError Bytes
  unfolding build_levels
  build_l1_info_root height leaves = do
    ns ←
        build_levels (generate_zero_hashes height)
          (or_zero_leaf (generate_zero_hashes height) leaves) [] height
    single_root ns

  -- The loop of `ComputeMerkleProof`. `uint32(float64(index) / 2)` is exact.
  pub proof_levels :
      List Bytes → ℕ → List Bytes → List Node → ℕ → Result TreeError (List Bytes × List Node)
  proof_levels zs index leaves ns zero = ok ([], ns)
  proof_levels [] index leaves ns (suc rounds) = panic
  proof_levels (z ∷ zs) index leaves ns (suc rounds) = do
    (nodes, hashes) ← build_intermediate (pad z leaves)
    (siblings, last) ← proof_levels zs (index / 2) hashes nodes rounds
    ok (proof_sibling z (pad z leaves) index ∷ siblings, last)

  pub compute_merkle_proof : ℕ → ℕ → List Bytes → Result TreeError (List Bytes × Bytes)
  unfolding proof_levels
  compute_merkle_proof height index leaves = do
    (siblings, ns) ←
        proof_levels (generate_zero_hashes height) index
          (or_zero_leaf (generate_zero_hashes height) leaves) [] height
    root ← single_root ns
    ok (siblings, root)

  -- `mt.count` is `uint32(len(initialLeaves))` by construction, so the mismatch of the source cannot arise.
  pub init_siblings : ℕ → List Bytes → Result TreeError (List Bytes × Bytes)
  init_siblings height leaves =
      if u32 (length leaves) == 0
      then (do
        root ← build_l1_info_root height leaves
        ok (take height (generate_zero_hashes height), root))
      else compute_merkle_proof height (u32 (length leaves)) leaves

  pub new_l1_info_tree : ℕ → List Bytes → Result TreeError L1InfoTree
  new_l1_info_tree height leaves = do
    (siblings, root) ← init_siblings height leaves
    ok (record {
      height = height;
      count = u32 (length leaves);
      siblings = siblings;
      current_root = root;
    })

  unfoldable pub reset_l1_info_tree : List Bytes → Result TreeError L1InfoTree
  reset_l1_info_tree leaves = new_l1_info_tree 32 leaves

  -- The loop of `AddLeaf` over the levels, one sibling to each: `index` is shifted right by the level, so its lowest bit is the one tested.
  pub add_levels : List Bytes → ℕ → Bytes → Bool → List Bytes → List Bytes × Bytes
  add_levels zs index cur filled [] = ([], cur)
  add_levels [] index cur filled (s ∷ ss) = (s ∷ ss, cur)
  add_levels (z ∷ zs) index cur filled (s ∷ ss) =
      if is_odd index
      then (let (ss', root) = add_levels zs (index / 2) (hash s cur) filled ss in (s ∷ ss', root))
      else (let (ss', root) = add_levels zs (index / 2) (hash cur z) false ss in
          ((if filled then cur else s) ∷ ss', root))

  pub add_leaf : L1InfoTree → ℕ → Bytes → Result TreeError (L1InfoTree × Bytes)
  add_leaf t index leaf =
      if index == t.count
      then (let (siblings, root) =
            add_levels (generate_zero_hashes t.height) index leaf true t.siblings in
          ok (
            record t { siblings = siblings; current_root = root; count = u32 (t.count + 1) },
            root,
          ))
      else err leaf_count_mismatch
