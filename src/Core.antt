-- ===== src/Core.antt =====
-- include/oram/core and src/core: blocks, buckets and the read or write flag of the RAM interface.
-- The children hold byte strings and the serializer.
pub mod Memory
pub mod Serializer
use unified_oramhub.Base.{ℕ, List, [], ◌∷◌, ◌++◌, Bool, true, false, length, leb, if◌then◌else◌}
use Memory.{Bytes}

-- `Block`: an identifier and its data.
pub record Block : Type 0 where
  pub id : ℕ
  pub bytes : Bytes

-- `Bucket`: a bounded vector of blocks.
pub record Bucket : Type 0 where
  pub capacity : ℕ
  pub blocks : List Block

abbrev pub new_bucket : ℕ → Bucket
new_bucket capacity = record { capacity = capacity; blocks = [] }

abbrev pub get_block_count : Bucket → ℕ
get_block_count b = length b.blocks

-- `AddBlock`: refused when the bucket is full.
unfoldable pub add_block : Bucket → Block → Bucket × Bool
add_block b block =
    if leb b.capacity (get_block_count b)
    then (b, false)
    else (record b { blocks = b.blocks ++ block ∷ [] }, true)

pub data Op : Type 0 where
  read write : Op
