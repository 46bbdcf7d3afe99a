-- ===== src/PathOram/Invariant.antt =====
-- The invariant of Path ORAM between two accesses, over the client and the tree that the server
-- stores, and what an access means to the user: the memory that the two together represent.
use unified_oramhub.Base.{
  ℕ, suc, ◌+◌, ◌^◌, ◌≤◌, ◌<◌, ◌≡◌, ◌≢◌, List, [], ◌++◌, not, ◌&&◌, Option, none, some, length,
  get_elem?, leb, ◌==◌, if◌then◌else◌, update,
}
use unified_oramhub.Core.Memory.{Bytes}
use unified_oramhub.Core.{Block, Bucket, Op, read, write}
use unified_oramhub.Core.Serializer.{BlocksFit}
use unified_oramhub.Tree.{shr, get_num_tree_nodes}
use unified_oramhub.Tree.Levels.{node_at}
use unified_oramhub.PathOram.Buckets.{dummy_id}
use unified_oramhub.PathOram.Stash.{find_block_in_stash, real_blocks, found_data}
use unified_oramhub.PathOram.Stash.Weights.{weigh, weigh_buckets, copies, has_id}
use unified_oramhub.PathOram.Stash.Eviction.{IdsBelow}
use unified_oramhub.PathOram.Writes.{path_of}
use unified_oramhub.PathOram.Server.Stored.{Stores}
use unified_oramhub.PathOram.Client.{Client, World}

-- Counts the blocks that are neither dummies nor blocks of the memory.
abbrev pub stray : ℕ → Block → ℕ
stray n b = if leb n b.id && not (b.id == dummy_id) then 1 else 0

abbrev pub whole_path : (ℕ → Bucket) → ℕ → ℕ → List Bucket
whole_path tree h leaf = path_of tree (suc h) h leaf 0

pub record Inv (limit h : ℕ) (c : Client) (tree : ℕ → Bucket) : Type 0 where
  pub height : c.tree_height ≡ h
  pub sized : length c.position_map ≡ c.num_blocks
  pub few : c.num_blocks ≤ dummy_id
  pub leaves : (id p : ℕ) → get_elem? c.position_map id ≡ some p → p < 2 ^ h
  pub stash_known : IdsBelow c.num_blocks c.stash
  pub stash_fit : BlocksFit limit c.stash
  pub tree_known :
      (i : ℕ) → i < get_num_tree_nodes h → weigh (stray c.num_blocks) (tree i).blocks ≡ 0
  -- A block stands on the path of its leaf, or in the stash.
  pub on_path :
      (id p : ℕ)
      → get_elem? c.position_map id ≡ some p
      → (m j : ℕ) → m < 2 ^ h
      → j ≤ h
      → shr m j ≢ shr p j
      → copies id (tree (node_at h m j)).blocks ≡ 0
  -- There is at most one copy of it.
  pub once :
      (id p : ℕ)
      → get_elem? c.position_map id ≡ some p
      → copies id c.stash + weigh_buckets (has_id id) (whole_path tree h p) ≤ 1

-- What the client would find after reading the path of a leaf.
abbrev pub visible : Client → (ℕ → Bucket) → ℕ → ℕ → List Block
visible c tree h leaf = c.stash ++ real_blocks (whole_path tree h leaf)

abbrev pub content_at : Client → (ℕ → Bucket) → ℕ → ℕ → Option ℕ → Bytes
content_at c tree h id none = []
content_at c tree h id (some p) = found_data (find_block_in_stash id (visible c tree h p))

-- The content of a block: that of the copy on its path or in the stash, or zeros.
abbrev pub content : Client → (ℕ → Bucket) → ℕ → ℕ → Bytes
content c tree h id = content_at c tree h id (get_elem? c.position_map id)

-- The world holds a memory of `n` blocks, whose data has less than `limit` bytes.
pub record Represents (limit h n : ℕ) (w : World) (mem : ℕ → Bytes) : Type 0 where
  pub tree : ℕ → Bucket
  pub blocks : w.client.num_blocks ≡ n
  pub stored : Stores limit h tree w.server
  pub inv : Inv limit h w.client tree
  pub agree : (id : ℕ) → id < n → content w.client tree h id ≡ mem id

-- A plain memory.
unfoldable pub ram_access : Op → ℕ → Bytes → (ℕ → Bytes) → Bytes × (ℕ → Bytes)
ram_access read addr bytes mem = (mem addr, mem)
ram_access write addr bytes mem = (bytes, update mem addr bytes)
