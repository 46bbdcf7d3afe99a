-- ===== src/Ring/Bucket.antt =====
-- RingBucket.cpp and the client's choice of slots: a bucket as the client sees it, decrypted.
pub mod Offsets
use unified_oramhub.Base.{
  ℕ, zero, suc, ◌+◌, ◌-◌, List, [], ◌∷◌, ◌++◌, map, Bool, true, false, ◌&&◌, not, Option, none,
  some, Result, ok, err, invalid_argument, runtime_error, undefined, guard, or_fail, ◌>>=◌, ◌>>◌,
  length, get_elem?, set, take, replicate, filter, ltb, leb, ◌==◌, if◌then◌else◌,
}
use unified_oramhub.Core.Memory.{Bytes}
use unified_oramhub.Ring.{RingBlock, dummy_address, dummy_block, is_dummy}

pub record RingBucket : Type 0 where
  pub z : ℕ
  pub s : ℕ
  pub block_size : ℕ
  pub count : ℕ
  pub valids : List Bool
  pub addrs : List ℕ
  pub leaves : List ℕ
  pub ptrs : List ℕ
  pub slots : List RingBlock

-- `std::iota`.
unfoldable pub iota : ℕ → ℕ → List ℕ
iota zero start = []
iota (suc n) start = start ∷ iota n (start + 1)

unfoldable pub new_ring_bucket : ℕ → ℕ → ℕ → RingBucket
new_ring_bucket z s block_size = record {
  z = z;
  s = s;
  block_size = block_size;
  count = 0;
  valids = replicate (z + s) true;
  addrs = replicate z dummy_address;
  leaves = replicate z 0;
  ptrs = iota z 0;
  slots = replicate (z + s) (dummy_block block_size);
}

-- `block.data.resize(block_size, 0)`.
unfoldable pub resize : ℕ → Bytes → Bytes
resize size bytes = take size bytes ++ replicate (size - length bytes) 0

abbrev pub normalize_block : ℕ → RingBlock → RingBlock
normalize_block block_size b = record b { bytes = resize block_size b.bytes }

unfoldable pub has_dummy : List RingBlock → Bool
has_dummy [] = false
has_dummy (b ∷ bs) = let rest = has_dummy bs in if is_dummy b then true else rest

-- The last loop of ResetWithBlocks from entry `i` on.
unfoldable pub place_blocks : List RingBlock → ℕ → RingBucket → Result RingBucket
place_blocks [] i bucket = ok bucket
place_blocks (b ∷ bs) i bucket = do
  offset ← or_fail (get_elem? bucket.ptrs i) undefined
  place_blocks bs (i + 1) (record bucket {
    addrs = set bucket.addrs i b.addr;
    leaves = set bucket.leaves i b.leaf;
    slots = set bucket.slots offset (normalize_block bucket.block_size b);
  })

-- `permutation` is what MakePermutation returned.
unfoldable pub reset_with_blocks : List RingBlock → List ℕ → RingBucket → Result RingBucket
reset_with_blocks blocks permutation bucket = do
  guard (leb (length blocks) bucket.z) invalid_argument
  guard (not (has_dummy blocks)) invalid_argument
  place_blocks blocks 0 (record bucket {
    count = 0;
    valids = replicate (length bucket.valids) true;
    addrs = replicate (length bucket.addrs) dummy_address;
    leaves = replicate (length bucket.leaves) 0;
    slots = replicate (bucket.z + bucket.s) (dummy_block bucket.block_size);
    ptrs = take (length bucket.ptrs) permutation;
  })

-- `offset < bucket.valids.size() && bucket.valids[offset]`.
abbrev pub is_valid : List Bool → ℕ → Bool
is_valid [] offset = false
is_valid (v ∷ vs) zero = v
is_valid (v ∷ vs) (suc offset) = is_valid vs offset

-- The entries with their pointers: the loop `for (i = 0; i < addrs.size(); ++i)`.
unfoldable pub entries : List ℕ → List ℕ → List (ℕ × ℕ)
entries [] ptrs = []
entries (a ∷ addrs) [] = []
entries (a ∷ addrs) (p ∷ ptrs) = (a, p) ∷ entries addrs ptrs

unfoldable pub valid_real_offsets : RingBucket → List ℕ
valid_real_offsets b =
    map (λ e. e.1)
      (filter (λ e. not (e.0 == dummy_address) && is_valid b.valids e.1) (entries b.addrs b.ptrs))

unfoldable pub contains : List ℕ → ℕ → Bool
contains [] x = false
contains (y ∷ ys) x = let rest = contains ys x in if y == x then true else rest

unfoldable pub valid_dummy_offsets : RingBucket → List ℕ
valid_dummy_offsets b =
    filter (λ offset. is_valid b.valids offset && not (contains (valid_real_offsets b) offset))
      (iota (length b.valids) 0)

-- The valid slot of the first entry for the address.
unfoldable pub find_offset : ℕ → List Bool → List (ℕ × ℕ) → Option ℕ
find_offset addr valids [] = none
find_offset addr valids (e ∷ es) =
    let rest = find_offset addr valids es in
    if e.0 == addr && is_valid valids e.1 then some e.1 else rest

-- GetBlockOffset; `draw` is what the distribution over the dummies returned.
unfoldable pub get_block_offset : RingBucket → ℕ → ℕ → Result ℕ
get_block_offset b addr draw = elim (find_offset addr b.valids (entries b.addrs b.ptrs)) [
  | some offset ↦ ok offset
  | none ↦
      guard (ltb 0 (length (valid_dummy_offsets b))) runtime_error
      >> or_fail (get_elem? (valid_dummy_offsets b) draw) undefined
]

-- The loop of ReadPath over the entries.
unfoldable pub any_entry : List Bool → ℕ → ℕ → List (ℕ × ℕ) → Bool
any_entry valids addr offset [] = false
any_entry valids addr offset (e ∷ es) =
    let rest = any_entry valids addr offset es in
    if e.0 == addr && (e.1 == offset && is_valid valids offset) then true else rest

-- Whether the slot that ReadPath chose holds the block.
unfoldable pub selected_target : RingBucket → ℕ → ℕ → Bool
selected_target b addr offset = any_entry b.valids addr offset (entries b.addrs b.ptrs)
