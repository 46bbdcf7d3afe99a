-- ===== src/Core/Serializer/RoundTrip.antt =====
-- Reading back what Serializer.h wrote.
use unified_oramhub.Base.{
  ℕ, suc, ◌+◌, ◌≤◌, ◌≡◌, refl, List, [], ◌∷◌, ◌++◌, append-nil, append_assoc, ok, arith, length,
  length-append,
}
use unified_oramhub.Core.Memory.{
  Bytes, u64_mod, u64_bytes, At, At-next, load_u64-At, load_bytes-At, length-le_bytes,
}
use unified_oramhub.Core.{Block, Bucket, new_bucket, get_block_count, add_block}
use unified_oramhub.Core.Serializer.{
  serialize_block, deserialize_block, serialize_blocks, serialize_bucket, read_blocks,
  deserialize_bucket, BlockFits, BlocksFit, BucketFits,
}

pub length-serialize_block : (b : Block) → length (serialize_block b) ≡ 16 + length b.bytes
unfolding serialize_block
length-serialize_block b = omega (
  arith,
  length-append (u64_bytes b.id) (u64_bytes (length b.bytes) ++ b.bytes),
  length-append (u64_bytes (length b.bytes)) b.bytes,
  length-le_bytes 8 b.id,
  length-le_bytes 8 (length b.bytes),
)

-- A block is read back wherever it stands, and the offset moves past it.
pub deserialize-serialize_block :
    {limit : ℕ} (bytes : Bytes) (offset : ℕ) (b : Block) (rest : Bytes)
    → limit ≤ u64_mod
    → BlockFits limit b
    → At bytes offset (serialize_block b ++ rest)
    → deserialize_block bytes offset ≡ ok (b, offset + 8 + 8 + length b.bytes)
unfolding deserialize_block serialize_block
deserialize-serialize_block bytes offset b rest small f h = rw (
  load_u64-At bytes offset b.id (size ++ (b.bytes ++ rest)) f.id_fits at₁,
  load_u64-At bytes (offset + 8) (length b.bytes) (b.bytes ++ rest)
      (omega (arith, small, f.size_fits)) at₂,
  load_bytes-At bytes (offset + 8 + 8) (length b.bytes) b.bytes rest refl at₃,
)
  where
    size : Bytes
    size = u64_bytes (length b.bytes)

    at₁ : At bytes offset (u64_bytes b.id ++ (size ++ (b.bytes ++ rest)))
    at₁ =
        rw (append_assoc (u64_bytes b.id) (size ++ b.bytes) rest, append_assoc size b.bytes rest) at
          h

    at₂ : At bytes (offset + 8) (size ++ (b.bytes ++ rest))
    at₂ = At-next bytes offset 8 (u64_bytes b.id) _ (length-le_bytes 8 b.id) at₁

    at₃ : At bytes (offset + 8 + 8) (b.bytes ++ rest)
    at₃ = At-next bytes (offset + 8) 8 size _ (length-le_bytes 8 (length b.bytes)) at₂

add_block-room :
    (bucket : Bucket) (b : Block)
    → suc (get_block_count bucket) ≤ bucket.capacity
    → (add_block bucket b).0 ≡ record bucket { blocks = bucket.blocks ++ b ∷ [] }
unfolding add_block
add_block-room bucket b room = ground arith

after_block :
    (bytes : Bytes) (offset : ℕ) (b : Block) (rest : Bytes)
    → At bytes offset (serialize_block b ++ rest)
    → At bytes (offset + 8 + 8 + length b.bytes) rest
after_block bytes offset b rest h =
    let e : offset + 8 + 8 + length b.bytes ≡ offset + (16 + length b.bytes) = omega arith in
    rw e (At-next bytes offset _ (serialize_block b) rest (length-serialize_block b) h)

pub read-serialize_blocks :
    (limit : ℕ) (bs : List Block) (bytes : Bytes) (offset : ℕ) (rest : Bytes) (bucket : Bucket)
    → limit ≤ u64_mod
    → BlocksFit limit bs
    → get_block_count bucket + length bs ≤ bucket.capacity
    → At bytes offset (serialize_blocks bs ++ rest)
    → (end : ℕ) × (read_blocks (length bs) bytes offset bucket
        ≡ ok (record bucket { blocks = bucket.blocks ++ bs }, end))
unfolding read_blocks serialize_blocks
read-serialize_blocks limit [] bytes offset rest bucket small f room h =
    (offset, rw (append-nil bucket.blocks))
read-serialize_blocks limit (b ∷ bs) bytes offset rest bucket small f room h =
    let here : At bytes offset (serialize_block b ++ (serialize_blocks bs ++ rest)) =
      rw append_assoc at h in
    let grown : Bucket = record bucket { blocks = bucket.blocks ++ b ∷ [] } in
    let (end, later) =
      read-serialize_blocks limit bs bytes (offset + 8 + 8 + length b.bytes) rest grown small f.1
        (omega (arith, length-append bucket.blocks (b ∷ []))) (after_block bytes offset b _ here) in
    (
      end,
      rw (
        deserialize-serialize_block bytes offset b _ small f.0 here,
        add_block-room bucket b (omega arith),
        later,
        append_assoc bucket.blocks (b ∷ []) bs,
      ),
    )

-- A bucket whose fields fit the format, with data below a limit of at most 2 ^ 64 bytes, is read
-- back from its own bytes.
pub deserialize-serialize_bucket :
    {limit : ℕ} (capacity : ℕ) (b : Bucket)
    → limit ≤ u64_mod
    → BucketFits limit capacity b
    → deserialize_bucket (serialize_bucket b) capacity ≡ ok b
unfolding deserialize_bucket serialize_bucket
deserialize-serialize_bucket {limit} capacity b small f =
    rw (load_u64-At bytes 0 (get_block_count b) _ f.count_fits start, body.1)
      (ground (arith, f.same_capacity))
  where
    bytes : Bytes
    bytes = u64_bytes (get_block_count b) ++ serialize_blocks b.blocks

    start : At bytes 0 (u64_bytes (get_block_count b) ++ serialize_blocks b.blocks)
    start = (refl, omega arith)

    body_at : At bytes 8 (serialize_blocks b.blocks ++ [])
    body_at =
        rw append-nil
          (At-next bytes 0 8 (u64_bytes (get_block_count b)) _ (length-le_bytes 8 _) start)

    body :
        (end : ℕ) × (read_blocks (length b.blocks) bytes 8 (new_bucket capacity)
          ≡ ok (record { capacity = capacity; blocks = b.blocks }, end))
    body =
        read-serialize_blocks limit b.blocks bytes 8 [] (new_bucket capacity) small f.blocks_fit
          (omega (arith, f.within)) body_at
