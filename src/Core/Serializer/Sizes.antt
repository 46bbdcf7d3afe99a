-- ===== src/Core/Serializer/Sizes.antt =====
-- How many bytes Serializer.h writes.
use unified_oramhub.Base.{ℕ, ◌+◌, ◌*◌, ◌≤◌, List, [], ◌∷◌, arith, length, length-append}
use unified_oramhub.Core.Memory.{u64_bytes, length-le_bytes}
use unified_oramhub.Core.{Block, Bucket, get_block_count}
use unified_oramhub.Core.Serializer.{
  serialize_block, serialize_blocks, serialize_bucket, BlocksFit, BucketFits,
}
use unified_oramhub.Core.Serializer.RoundTrip.{length-serialize_block}

length-serialize_blocks :
    (limit : ℕ) (bs : List Block)
    → BlocksFit limit bs
    → length (serialize_blocks bs) ≤ length bs * (16 + limit)
unfolding serialize_blocks
length-serialize_blocks limit [] fits = omega arith
length-serialize_blocks limit (b ∷ bs) fits =
    let later = length-serialize_blocks limit bs fits.1 in
    let first = length-serialize_block b in
    let sum = length-append (serialize_block b) (serialize_blocks bs) in
    let small = fits.0.size_fits in grind arith

-- A bucket with data of less than `limit` bytes.
pub length-serialize_bucket :
    {limit : ℕ} (capacity : ℕ) (b : Bucket)
    → BucketFits limit capacity b
    → length (serialize_bucket b) ≤ 8 + capacity * (16 + limit)
unfolding serialize_bucket
length-serialize_bucket {limit} capacity b fits =
    let blocks = length-serialize_blocks limit b.blocks fits.blocks_fit in
    let sum = length-append (u64_bytes (get_block_count b)) (serialize_blocks b.blocks) in
    let count = length-le_bytes 8 (get_block_count b) in let within = fits.within in grind arith
