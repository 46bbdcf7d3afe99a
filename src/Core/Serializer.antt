-- ===== src/Core/Serializer.antt =====
-- include/oram/core/Serializer.h. A block is its identifier, the size of its data and the data; a
-- bucket is the number of its blocks and the blocks. The reader keeps an offset and checks no
-- bounds: a read past the end is `undefined` here.
pub mod RoundTrip
pub mod Sizes
use unified_oramhub.Base.{
  ℕ, zero, suc, ◌+◌, ◌≤◌, ◌<◌, ◌≡◌, refl, ap, List, [], ◌∷◌, ◌++◌, append-nil, append_assoc, Result,
  ok, ◌>>=◌, arith, length, length-append,
}
use unified_oramhub.Core.Memory.{
  Bytes, u64_mod, u64_bytes, load_u64, load_bytes, At, At-next, load_u64-At, load_bytes-At,
  length-le_bytes,
}
use unified_oramhub.Core.{Block, Bucket, new_bucket, get_block_count, add_block}

unfoldable pub serialize_block : Block → Bytes
serialize_block b = u64_bytes b.id ++ (u64_bytes (length b.bytes) ++ b.bytes)

unfoldable pub deserialize_block : Bytes → ℕ → Result (Block × ℕ)
deserialize_block bytes offset = do
  (id, offset₁) ← load_u64 bytes offset
  (size, offset₂) ← load_u64 bytes offset₁
  (content, offset₃) ← load_bytes bytes offset₂ size
  ok (record { id = id; bytes = content }, offset₃)

pub serialize_blocks : List Block → Bytes
serialize_blocks [] = []
serialize_blocks (b ∷ bs) = serialize_block b ++ serialize_blocks bs

unfoldable pub serialize_bucket : Bucket → Bytes
serialize_bucket bucket = u64_bytes (get_block_count bucket) ++ serialize_blocks bucket.blocks

-- The loop over `count`. The result of `AddBlock` is not looked at.
unfoldable pub read_blocks : ℕ → Bytes → ℕ → Bucket → Result (Bucket × ℕ)
read_blocks zero bytes offset bucket = ok (bucket, offset)
read_blocks (suc n) bytes offset bucket = do
  (block, offset') ← deserialize_block bytes offset
  read_blocks n bytes offset' (add_block bucket block).0

unfoldable pub deserialize_bucket : Bytes → ℕ → Result Bucket
deserialize_bucket bytes capacity = do
  (count, offset) ← load_u64 bytes 0
  (bucket, offset') ← read_blocks count bytes offset (new_bucket capacity)
  ok bucket

-- What fits the fields of the format, with data of less than `limit` bytes.
pub record BlockFits (limit : ℕ) (b : Block) : Type 0 where
  pub id_fits : b.id < u64_mod
  pub size_fits : length b.bytes < limit

abbrev pub BlocksFit : ℕ → List Block → Type 0
BlocksFit limit [] = Unit {0}
BlocksFit limit (b ∷ bs) = BlockFits limit b × BlocksFit limit bs

pub record BucketFits (limit capacity : ℕ) (b : Bucket) : Type 0 where
  pub same_capacity : b.capacity ≡ capacity
  pub within : get_block_count b ≤ capacity
  pub count_fits : get_block_count b < u64_mod
  pub blocks_fit : BlocksFit limit b.blocks
