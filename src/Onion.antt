-- ===== src/Onion.antt =====
-- src/onion_ring: Onion Ring ORAM, whose server computes on ciphertexts. The server adds up one
-- slot of every bucket of a path; a client that selects its block and zeros otherwise gets the
-- block. Here the configuration, and the library that the ciphertexts come from.
pub mod Torus
pub mod Tfhe
pub mod HomOps
pub mod Adapter
pub mod Waksman
pub mod Slots
pub mod Server
pub mod Ids
pub mod Rebuild
pub mod Client
use unified_oramhub.Base.{ℕ, ◌+◌}
use unified_oramhub.Tree.{get_num_tree_nodes, get_num_leaves, get_leaf_offset}

-- Config.h, without the parameters that go to TFHE only.
pub record RuntimeConfig : Type 0 where
  pub z : ℕ
  pub s : ℕ
  pub a : ℕ
  pub tree_height : ℕ
  pub num_blocks : ℕ
  pub block_size : ℕ

abbrev pub bucket_slots : RuntimeConfig → ℕ
bucket_slots config = config.z + config.s

abbrev pub num_tree_nodes : RuntimeConfig → ℕ
num_tree_nodes config = get_num_tree_nodes config.tree_height

abbrev pub num_leaves : RuntimeConfig → ℕ
num_leaves config = get_num_leaves config.tree_height

abbrev pub leaf_offset : RuntimeConfig → ℕ
leaf_offset config = get_leaf_offset config.tree_height
