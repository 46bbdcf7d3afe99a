-- ===== src/Tree.antt =====
-- The binary tree of buckets, stored in an array with the root at 0 and the children of n at
-- 2 n + 1 and 2 n + 2. All three protocols have their own copies of these functions: Config.h,
-- PathORAMClient.cpp (bottom up), RingORAMClient.cpp, RingORAMServer.cpp, OnionRingClient.cpp and
-- OnionRingServer.cpp (top down). Indices are exact: for heights below 63 none of them wraps.
pub mod Levels
pub mod Paths
use unified_oramhub.Base.{
  ℕ, zero, suc, ◌+◌, ◌-◌, ◌*◌, ◌/◌, ◌%◌, ◌^◌, List, [], ◌∷◌, Bool, ◌==◌, if◌then◌else◌, Result, ok,
  err, out_of_range, guard, ◌>>◌, ◌>>=◌, ltb, leb,
}

-- Config.h: `GetNumTreeNodes`, `GetNumLeaves`, `GetLeafOffset`.
unfoldable pub get_num_tree_nodes : ℕ → ℕ
get_num_tree_nodes height = 2 ^ (height + 1) - 1

unfoldable pub get_num_leaves : ℕ → ℕ
get_num_leaves height = 2 ^ height

unfoldable pub get_leaf_offset : ℕ → ℕ
get_leaf_offset height = 2 ^ height - 1

-- `x >> k`.
abbrev pub shr : ℕ → ℕ → ℕ
shr x k = x / 2 ^ k

-- PathORAMClient::GetPathIndices: `while (true) { push; if (current == 0) break; … }`.
unfoldable pub path_loop : ℕ → ℕ → List ℕ
path_loop zero current = []
path_loop (suc fuel) current =
    let rest = path_loop fuel ((current - 1) / 2) in current ∷ (if current == 0 then [] else rest)

-- The indices halve, so one more round than the first index is fuel enough.
unfoldable pub get_path_indices : ℕ → ℕ → List ℕ
get_path_indices height leaf =
    path_loop (get_leaf_offset height + leaf + 1) (get_leaf_offset height + leaf)

-- PathORAMClient::CanPlaceInBucket; level 0 is the leaf.
unfoldable pub can_place_in_bucket : ℕ → ℕ → ℕ → Bool
can_place_in_bucket block_leaf target_leaf level = shr block_leaf level == shr target_leaf level

-- The child on the way to `leaf` of a node at depth `depth`.
unfoldable pub child_towards : ℕ → ℕ → ℕ → ℕ → ℕ
child_towards height leaf depth node = 2 * node + 1 + shr leaf (height - 1 - depth) % 2

-- GetBucketIndex: `n` more steps down from `node` at depth `depth`.
unfoldable pub descend : ℕ → ℕ → ℕ → ℕ → ℕ → ℕ
descend zero height leaf depth node = node
descend (suc n) height leaf depth node =
    descend n height leaf (depth + 1) (child_towards height leaf depth node)

unfoldable pub get_bucket_index : ℕ → ℕ → ℕ → ℕ
get_bucket_index height leaf level = descend level height leaf 0 0

-- The checked GetBucketIndex of Ring ORAM.
unfoldable pub checked_bucket_index : ℕ → ℕ → ℕ → Result ℕ
checked_bucket_index height leaf level = do
  guard (ltb leaf (get_num_leaves height)) out_of_range
  guard (leb level height) out_of_range
  ok (get_bucket_index height leaf level)

-- GetPathIndices of Ring ORAM and Onion Ring ORAM, from the root down.
unfoldable pub path_down : ℕ → ℕ → ℕ → ℕ → ℕ → List ℕ
path_down zero height leaf depth node = node ∷ []
path_down (suc n) height leaf depth node =
    node ∷ path_down n height leaf (depth + 1) (child_towards height leaf depth node)

unfoldable pub get_path_from_root : ℕ → ℕ → List ℕ
get_path_from_root height leaf = path_down height height leaf 0 0

unfoldable pub checked_path_from_root : ℕ → ℕ → Result (List ℕ)
checked_path_from_root height leaf = do
  guard (ltb leaf (get_num_leaves height)) out_of_range
  ok (get_path_from_root height leaf)

-- GetNodeLevel: the number of steps up to the root.
unfoldable pub level_loop : ℕ → ℕ → ℕ → ℕ
level_loop zero idx level = level
level_loop (suc fuel) idx level =
    let rest = level_loop fuel ((idx - 1) / 2) (level + 1) in if idx == 0 then level else rest

unfoldable pub get_node_level : ℕ → ℕ
get_node_level idx = level_loop (idx + 1) idx 0

-- The checked GetNodeLevel and IsBucketOnLeafPath of Ring ORAM.
unfoldable pub checked_node_level : ℕ → ℕ → Result ℕ
checked_node_level height idx = do
  guard (ltb idx (get_num_tree_nodes height)) out_of_range
  ok (get_node_level idx)

unfoldable pub is_bucket_on_leaf_path : ℕ → ℕ → ℕ → Result Bool
is_bucket_on_leaf_path height idx leaf = do
  level ← checked_node_level height idx
  node ← checked_bucket_index height leaf level
  ok (node == idx)
