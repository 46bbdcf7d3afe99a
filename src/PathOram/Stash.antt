-- ===== src/PathOram/Stash.antt =====
-- PathORAMClient.cpp: the stash and the eviction from it.
pub mod Weights
pub mod Eviction
use unified_oramhub.Base.{
  ℕ, zero, suc, ◌+◌, List, [], ◌∷◌, ◌++◌, Bool, not, ◌&&◌, Option, none, some, Result, ok, err,
  undefined, ◌>>=◌, or_fail, length, get_elem?, filter, ltb, ◌==◌, if◌then◌else◌,
}
use unified_oramhub.Core.Memory.{Bytes}
use unified_oramhub.Core.{Block, Bucket, get_block_count, add_block, Op, read, write}
use unified_oramhub.Tree.{can_place_in_bucket}
use unified_oramhub.PathOram.Buckets.{bucket_size, block_size, dummy_id}
use unified_oramhub.Base.{replicate}

-- `FindBlockInStash`: the first block with the identifier.
unfoldable pub find_block_in_stash : ℕ → List Block → Option Block
find_block_in_stash id [] = none
find_block_in_stash id (b ∷ bs) =
    let rest = find_block_in_stash id bs in if b.id == id then some b else rest

-- `RemoveBlockFromStash`: erase all of them.
unfoldable pub remove_block_from_stash : ℕ → List Block → List Block
remove_block_from_stash id = filter (λ b. not (b.id == id))

-- ReadPath: the blocks of the path's buckets, leaf bucket first, without the dummies.
unfoldable pub real_blocks : List Bucket → List Block
real_blocks [] = []
real_blocks (b ∷ bs) = filter (λ x. not (x.id == dummy_id)) b.blocks ++ real_blocks bs

-- The result of the block that was found; `result.resize(kBlockSize, 0)` if there is none.
unfoldable pub found_data : Option Block → Bytes
found_data none = replicate block_size 0
found_data (some b) = b.bytes

-- Step 4 of Access: the result, and the stash after it.
unfoldable pub serve_from_stash : Op → ℕ → Bytes → List Block → Bytes × List Block
serve_from_stash read addr content stash = (found_data (find_block_in_stash addr stash), stash)
serve_from_stash write addr content stash = (
  content,
  (elim (find_block_in_stash addr stash) [
    | none ↦ stash
    | some b ↦ remove_block_from_stash addr stash
  ])
      ++ record { id = addr; bytes = content } ∷ [],
)

abbrev pub push_bucket : Bucket → Option (List Bucket) → Option (List Bucket)
push_bucket b none = none
push_bucket b (some bs) = some (b ∷ bs)

-- The inner loop of EvictBlocksToPath: the first bucket from the leaf that has room and lies on
-- the block's path. `none` means that the block was not placed.
unfoldable pub place_block : ℕ → ℕ → Block → ℕ → List Bucket → Option (List Bucket)
place_block block_leaf leaf block i [] = none
place_block block_leaf leaf block i (b ∷ bs) =
    let rest = place_block block_leaf leaf block (i + 1) bs in
    if ltb (get_block_count b) bucket_size && can_place_in_bucket block_leaf leaf i
    then some ((add_block b block).0 ∷ bs)
    else push_bucket b rest

-- The outer loop over the copy of the stash; `kept` is the stash that it builds. To look up an
-- identifier outside the position map is undefined.
unfoldable pub evict_blocks :
    List ℕ → ℕ → List Block → List Bucket → List Block → Result (List Bucket × List Block)
evict_blocks position_map leaf [] buckets kept = ok (buckets, kept)
evict_blocks position_map leaf (b ∷ bs) buckets kept = do
  block_leaf ← or_fail (get_elem? position_map b.id) undefined
  elim (place_block block_leaf leaf b 0 buckets) [
    | none ↦ evict_blocks position_map leaf bs buckets (kept ++ b ∷ [])
    | some buckets' ↦ evict_blocks position_map leaf bs buckets' kept
  ]
