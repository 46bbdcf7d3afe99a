-- ===== src/Ring/Stash.antt =====
-- RingORAMClient.cpp: the stash. It lives in a file, which every operation reads first and, where it
-- changes the stash, writes at once.
pub mod OnDisk
use unified_oramhub.Base.{
  ℕ, zero, suc, ◌+◌, ◌≡◌, refl, ap, ◌∙◌, List, [], ◌∷◌, ◌++◌, Bool, true, false, ◌&&◌, not, Option,
  none, some, Result, ok, err, runtime_error, length, filter, ltb, ◌==◌, if◌then◌else◌,
}
use unified_oramhub.Base.State.{State, pure, lift, gets, modify, check, ◌>>=◌, ◌>>◌}
use unified_oramhub.Core.Memory.{Bytes}
use unified_oramhub.Tree.{is_bucket_on_leaf_path}
use unified_oramhub.Ring.{RingBlock, is_dummy}
use unified_oramhub.Ring.Bucket.{RingBucket, reset_with_blocks}
use unified_oramhub.Ring.Format.{serialize_ring_blocks, deserialize_ring_blocks}

-- `file` is what stash_file_path_ holds, and `writable` says that it can be written.
pub record Stash : Type 0 where
  pub block_size : ℕ
  pub file : Option Bytes
  pub file_initialized : Bool
  pub writable : Bool
  pub blocks : List RingBlock

unfoldable pub all_sized : ℕ → List RingBlock → Bool
all_sized size [] = true
all_sized size (b ∷ bs) = length b.bytes == size && all_sized size bs

abbrev pub set_blocks : List RingBlock → State Stash Unit
set_blocks bs = modify (λ c. record c { blocks = bs })

-- The bytes of a file that is there.
unfoldable pub load_bytes_of_stash : Bytes → State Stash Unit
load_bytes_of_stash bytes = do
  blocks ← lift (deserialize_ring_blocks bytes)
  set_blocks blocks
  size ← gets (λ c. c.block_size)
  check (all_sized size blocks) runtime_error

abbrev pub load_file : Option Bytes → State Stash Unit
load_file none c = (check (not c.file_initialized) runtime_error >> set_blocks []) c
load_file (some bytes) c = load_bytes_of_stash bytes c

unfoldable pub load_stash_from_disk : State Stash Unit
load_stash_from_disk c = load_file c.file c

unfoldable pub save_stash_to_disk : State Stash Unit
save_stash_to_disk = do
  writable ← gets (λ c. c.writable)
  check writable runtime_error
  modify (λ c. record c { file = some (serialize_ring_blocks c.blocks) })

abbrev pub without : ℕ → List RingBlock → List RingBlock
without addr = filter (λ b. not (b.addr == addr))

unfoldable pub put_block_in_stash : RingBlock → State Stash Unit
put_block_in_stash block =
    if is_dummy block
    then pure tt
    else load_stash_from_disk
      >> (modify (λ c. record c { blocks = without block.addr c.blocks ++ block ∷ [] })
          >> save_stash_to_disk)

abbrev keep : RingBlock → Option (RingBlock × List RingBlock) → Option (RingBlock × List RingBlock)
keep b none = none
keep b (some (x, xs)) = some (x, b ∷ xs)

-- The first block with the address, and the others.
unfoldable pub take_first : ℕ → List RingBlock → Option (RingBlock × List RingBlock)
take_first addr [] = none
take_first addr (b ∷ bs) =
    let rest = take_first addr bs in if b.addr == addr then some (b, bs) else keep b rest

abbrev pub take_found : Option (RingBlock × List RingBlock) → State Stash (Option RingBlock)
take_found none = pure none
take_found (some (b, rest)) = do set_blocks rest; save_stash_to_disk; pure (some b)

unfoldable pub take_block_from_stash : ℕ → State Stash (Option RingBlock)
take_block_from_stash addr = do
  load_stash_from_disk
  blocks ← gets (λ c. c.blocks)
  take_found (take_first addr blocks)

unfoldable pub remove_block_from_stash : ℕ → State Stash Unit
remove_block_from_stash addr = do
  load_stash_from_disk
  blocks ← gets (λ c. c.blocks)
  set_blocks (without addr blocks)
  (if length (without addr blocks) == length blocks then pure tt else save_stash_to_disk)

-- FillBucketFromStash: the blocks that go into the bucket, at most `room`, and those that stay.
-- The residence test is run while there is room.
unfoldable pub select_blocks : ℕ → ℕ → ℕ → List RingBlock → Result (List RingBlock × List RingBlock)
select_blocks room height bucket_idx [] = ok ([], [])
select_blocks zero height bucket_idx (b ∷ bs) = ok ([], b ∷ bs)
select_blocks (suc room) height bucket_idx (b ∷ bs) =
    if is_dummy b
    then keep_block b (select_blocks (suc room) height bucket_idx bs)
    else choose b (is_bucket_on_leaf_path height bucket_idx b.leaf)
        (select_blocks room height bucket_idx bs) (select_blocks (suc room) height bucket_idx bs)
  where
    keep_block :
        RingBlock
        → Result (List RingBlock × List RingBlock)
        → Result (List RingBlock × List RingBlock)
    keep_block b (ok (chosen, kept)) = ok (chosen, b ∷ kept)
    keep_block b (err e) = err e

    with_block :
        RingBlock
        → Result (List RingBlock × List RingBlock)
        → Result (List RingBlock × List RingBlock)
    with_block b (ok (chosen, kept)) = ok (b ∷ chosen, kept)
    with_block b (err e) = err e

    choose :
        RingBlock
        → Result Bool
        → Result (List RingBlock × List RingBlock)
        → Result (List RingBlock × List RingBlock)
        → Result (List RingBlock × List RingBlock)
    choose b (ok true) taken kept = with_block b taken
    choose b (ok false) taken kept = keep_block b kept
    choose b (err e) taken kept = err e

-- `permutation` is what MakePermutation returned for the bucket. When the residence test throws, the
-- stash in memory is left as it is here; the next operation reads it from the file anyway.
unfoldable pub fill_bucket_from_stash : ℕ → ℕ → List ℕ → RingBucket → State Stash RingBucket
fill_bucket_from_stash height bucket_idx permutation bucket = do
  load_stash_from_disk
  blocks ← gets (λ c. c.blocks)
  (selected, kept) ← lift (select_blocks bucket.z height bucket_idx blocks)
  set_blocks kept
  filled ← lift (reset_with_blocks selected permutation bucket)
  save_stash_to_disk
  pure filled
