-- ===== src/Tests/TreeTests.antt =====
-- The tree functions on a tree of height 2.
use mathlib.Core.List.{reverse}
use unified_oramhub.Base.{◌≡◌, refl, [], ◌∷◌, ◌↔◌, true, ok, arith}
use unified_oramhub.Tree.{
  path_loop, get_leaf_offset, get_path_indices, get_path_from_root, get_bucket_index,
  get_node_level, can_place_in_bucket, is_bucket_on_leaf_path,
}
use unified_oramhub.Tree.Levels.{node_at, nodes_from}
use unified_oramhub.Tree.Paths.{
  get_path_indices-nodes_from, get_bucket_index-node_at, get_path_from_root-reverse,
  get_node_level-get_bucket_index, can_place_in_bucket_iff, is_bucket_on_leaf_path_iff,
}

get_path_indices_run : get_path_indices 2 3 ≡ 6 ∷ 2 ∷ 0 ∷ []
unfolding get_path_indices path_loop get_leaf_offset
get_path_indices_run = refl

get_path_indices-nodes_from_example : get_path_indices 2 3 ≡ nodes_from 3 2 3 0
get_path_indices-nodes_from_example = get_path_indices-nodes_from 2 3 (omega arith)

get_bucket_index-node_at_example : get_bucket_index 2 3 1 ≡ node_at 2 3 1
get_bucket_index-node_at_example = get_bucket_index-node_at 2 3 1 (omega arith) (omega arith)

get_path_from_root-reverse_example : get_path_from_root 2 3 ≡ reverse (get_path_indices 2 3)
get_path_from_root-reverse_example = get_path_from_root-reverse 2 3 (omega arith)

get_node_level-get_bucket_index_example : get_node_level (get_bucket_index 2 3 1) ≡ 1
get_node_level-get_bucket_index_example =
    get_node_level-get_bucket_index 2 3 1 (omega arith) (omega arith)

can_place_in_bucket_iff_example :
    (can_place_in_bucket 2 3 1 ≡ true) ↔ (node_at 2 2 1 ≡ node_at 2 3 1)
can_place_in_bucket_iff_example = can_place_in_bucket_iff 2 2 3 1 (omega arith)

is_bucket_on_leaf_path_iff_example :
    is_bucket_on_leaf_path 2 (node_at 2 3 1) 2 ≡ ok (can_place_in_bucket 2 3 1)
is_bucket_on_leaf_path_iff_example =
    is_bucket_on_leaf_path_iff 2 3 2 1 (omega arith) (omega arith) (omega arith)
