-- ===== src/PathOram/Storage.antt =====
-- PathORAMServer.cpp: the server's state and its bucket files, one for each node of the tree.
use unified_oramhub.Base.{
  ℕ, zero, suc, ◌+◌, ◌-◌, ◌%◌, List, [], ◌∷◌, Bool, true, false, ◌&&◌, Option, none, some, Result,
  ok, invalid_argument, out_of_range, runtime_error, ◌>>=◌, ◌>>◌, guard, or_fail, length, get_elem?,
  ltb, leb, ◌==◌, if◌then◌else◌, update,
}
use unified_oramhub.Core.Memory.{Bytes}
use unified_oramhub.Core.{Block, Bucket, new_bucket, get_block_count, add_block}
use unified_oramhub.Core.Serializer.{serialize_bucket, deserialize_bucket}
use unified_oramhub.Tree.{get_num_tree_nodes, get_num_leaves, get_leaf_offset}
use unified_oramhub.PathOram.Buckets.{bucket_size, block_size, fill_bucket_with_dummies}

pub record RequestStats : Type 0 where
  pub read_bucket_requests : ℕ
  pub write_bucket_requests : ℕ
  pub read_path_requests : ℕ
  pub write_path_requests : ℕ

-- `files` is the contents of tree_dir_, by bucket index; `has_tree_dir` says that the directory is
-- there, and `writable` that files can be written.
pub record Server : Type 0 where
  pub tree_height : ℕ
  pub node_count : ℕ
  pub has_tree_dir : Bool
  pub writable : Bool
  pub files : ℕ → Option Bytes
  pub running : Bool
  pub stats : RequestStats

-- The constructor. Nothing is served before `init`.
abbrev pub new_server : ℕ → Bool → Server
new_server height writable = record {
  tree_height = height;
  node_count = 0;
  has_tree_dir = false;
  writable = writable;
  files = λ _. none;
  running = false;
  stats = record {
    read_bucket_requests = 0;
    write_bucket_requests = 0;
    read_path_requests = 0;
    write_path_requests = 0;
  };
}

unfoldable pub validate_initialized : Server → Result (Unit {0})
validate_initialized s =
    guard (s.node_count == get_num_tree_nodes s.tree_height && s.has_tree_dir) runtime_error

unfoldable pub validate_bucket_shape : Bucket → Result (Unit {0})
validate_bucket_shape bucket =
    guard (bucket.capacity == bucket_size && leb (get_block_count bucket) bucket_size)
      invalid_argument

unfoldable pub read_bucket_from_disk : Server → ℕ → Result Bucket
read_bucket_from_disk s idx = do
  guard (ltb idx s.node_count) out_of_range
  bytes ← or_fail (s.files idx) runtime_error
  guard (leb 8 (length bytes)) runtime_error
  bucket ← deserialize_bucket bytes bucket_size
  validate_bucket_shape bucket
  ok bucket

-- The directory is made before the file is opened.
unfoldable pub write_bucket_to_disk : Server → ℕ → Bucket → Result Server
write_bucket_to_disk s idx bucket = do
  guard (ltb idx s.node_count) out_of_range
  validate_bucket_shape bucket
  guard s.writable runtime_error
  ok (record s { has_tree_dir = true; files = update s.files idx (some (serialize_bucket bucket)) })

-- `std::rand() % 256`, `kBlockSize` times; `rand` is the sequence of draws for one dummy.
unfoldable pub random_data : ℕ → (ℕ → ℕ) → Bytes
random_data zero rand = []
random_data (suc n) rand = (rand n % 256) ∷ random_data n rand

abbrev pub leaf_block : Option Block → Bucket → Bucket
leaf_block none bucket = bucket
leaf_block (some block) bucket = (add_block bucket block).0

-- The bucket that Init writes at an index: leaf number i holds block i, all else is dummies.
-- `rand bucket slot byte` are the draws.
unfoldable pub initial_bucket : ℕ → List Block → (ℕ → ℕ → ℕ → ℕ) → ℕ → Bucket
initial_bucket height blocks rand idx =
    let empty : Bucket = new_bucket bucket_size in
    fill_bucket_with_dummies (λ slot. random_data block_size (rand idx slot))
      (if leb (get_leaf_offset height) idx
        then leaf_block (get_elem? blocks (idx - get_leaf_offset height)) empty
        else empty)

-- `for (bucket_index = idx; …)`, `n` rounds.
unfoldable pub init_loop : ℕ → ℕ → List Block → (ℕ → ℕ → ℕ → ℕ) → Server → Result Server
init_loop zero idx blocks rand s = ok s
init_loop (suc n) idx blocks rand s = do
  s' ← write_bucket_to_disk s idx (initial_bucket s.tree_height blocks rand idx)
  init_loop n (idx + 1) blocks rand s'

unfoldable pub init : List Block → (ℕ → ℕ → ℕ → ℕ) → Server → Result Server
init blocks rand s = do
  guard (leb (length blocks) (get_num_leaves s.tree_height)) invalid_argument
  init_loop (get_num_tree_nodes s.tree_height) 0 blocks rand (record s {
    has_tree_dir = true;
    files = λ _. none;
    node_count = get_num_tree_nodes s.tree_height;
  })
