-- ===== src/Ring/Stash/OnDisk.antt =====
-- The stash of RingORAMClient.cpp and its file.
use unified_oramhub.Base.{ℕ, ◌<◌, ◌≡◌, List, true, some, length}
use unified_oramhub.Core.Memory.{u64_mod}
use unified_oramhub.Ring.{RingBlock}
use unified_oramhub.Ring.Format.{serialize_ring_blocks}
use unified_oramhub.Ring.Format.Reads.{AllOk, RingBlockFits}
use unified_oramhub.Ring.Stash.{Stash, all_sized}

-- Blocks that the file can hold.
pub record StashFits (size : ℕ) (bs : List RingBlock) : Type 0 where
  pub fit : AllOk RingBlockFits bs
  pub sized : all_sized size bs ≡ true
  pub few : length bs < u64_mod
  pub small : length (serialize_ring_blocks bs) < u64_mod

abbrev pub holding : Stash → List RingBlock → Stash
holding c bs = record c { blocks = bs; file = some (serialize_ring_blocks bs) }
