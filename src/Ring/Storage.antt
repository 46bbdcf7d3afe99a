-- ===== src/Ring/Storage.antt =====
-- RingORAMServer.cpp: the server's state, its checks and its bucket files.
use unified_oramhub.Base.{
  ℕ, Bool, true, false, ◌&&◌, not, Option, some, Result, ok, invalid_argument, out_of_range,
  runtime_error, guard, or_fail, ◌>>=◌, ◌>>◌, length, ltb, ◌==◌, update,
}
use unified_oramhub.Core.Memory.{Bytes}
use unified_oramhub.Tree.{get_num_tree_nodes}
use unified_oramhub.Ring.{EncryptedRingBucket, RingBucketMetadata, RuntimeConfig, bucket_slots}
use unified_oramhub.Ring.Format.{serialize_encrypted_ring_bucket, deserialize_encrypted_ring_bucket}

-- `files` is the contents of tree_dir_, by bucket index.
pub record Server : Type 0 where
  pub config : RuntimeConfig
  pub node_count : ℕ
  pub has_tree_dir : Bool
  pub writable : Bool
  pub files : ℕ → Option Bytes
  pub running : Bool
  pub xor_path_read_count : ℕ
  pub last_xor_path_slot_count : ℕ

unfoldable pub validate_config : RuntimeConfig → Result (Unit {0})
validate_config config = do
  guard (not (config.num_blocks == 0)) invalid_argument
  guard (ltb config.tree_depth 63) invalid_argument
  guard (not (config.z == 0)) invalid_argument
  guard (not (config.s == 0)) invalid_argument
  guard (not (config.a == 0)) invalid_argument
  guard (not (config.block_size == 0)) invalid_argument

-- The constructor makes the directory.
unfoldable pub new_server : RuntimeConfig → Bool → (ℕ → Option Bytes) → Result Server
new_server config writable files = do
  validate_config config
  ok (record {
    config = config;
    node_count = 0;
    has_tree_dir = true;
    writable = writable;
    files = files;
    running = false;
    xor_path_read_count = 0;
    last_xor_path_slot_count = 0;
  })

unfoldable pub validate_initialized : Server → Result (Unit {0})
validate_initialized s =
    guard (s.node_count == get_num_tree_nodes s.config.tree_depth && s.has_tree_dir) runtime_error

unfoldable pub validate_bucket_shape : RuntimeConfig → EncryptedRingBucket → Result (Unit {0})
validate_bucket_shape config b =
    guard
      (length b.valids == bucket_slots config
        && (length b.addrs == config.z
            && (length b.leaves == config.z
                && (length b.ptrs == config.z && length b.slots == bucket_slots config))))
      invalid_argument

unfoldable pub read_bucket_from_disk : Server → ℕ → Result EncryptedRingBucket
read_bucket_from_disk s idx = do
  guard (ltb idx s.node_count) out_of_range
  bytes ← or_fail (s.files idx) runtime_error
  bucket ← deserialize_encrypted_ring_bucket bytes
  validate_bucket_shape s.config bucket
  ok bucket

unfoldable pub write_bucket_to_disk : Server → ℕ → EncryptedRingBucket → Result Server
write_bucket_to_disk s idx bucket = do
  guard (ltb idx s.node_count) out_of_range
  validate_bucket_shape s.config bucket
  guard s.writable runtime_error
  ok (record s {
    has_tree_dir = true;
    files = update s.files idx (some (serialize_encrypted_ring_bucket bucket));
  })

abbrev pub metadata_from_bucket : EncryptedRingBucket → RingBucketMetadata
metadata_from_bucket b = record {
  count = b.count;
  valids = b.valids;
  addrs = b.addrs;
  leaves = b.leaves;
  ptrs = b.ptrs;
}
