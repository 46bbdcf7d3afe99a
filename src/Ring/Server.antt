-- ===== src/Ring/Server.antt =====
-- RingORAMServer.cpp: the handlers of requests; the request loop is in Requests. A message is
-- the values that both sides exchange, and what a handler has changed stays changed when it
-- throws.
pub mod Requests
pub mod Stored
pub mod PathSlots
pub mod Rounds
pub mod SpentRounds
pub mod SpentSlots
pub mod WholeBuckets
use unified_oramhub.Base.{
  ℕ, zero, suc, ◌+◌, ◌%◌, List, [], ◌∷◌, Bool, true, false, Option, none, some, Result, ok, err,
  invalid_argument, out_of_range, runtime_error, undefined, or_fail, length, get_elem?, set,
  replicate, ltb, leb, ◌==◌,
}
use unified_oramhub.Base.State.{State, pure, lift, gets, modify, check, ◌>>=◌, ◌>>◌}
use unified_oramhub.Core.Memory.{Bytes, u64_mod}
use unified_oramhub.Tree.{get_num_tree_nodes, checked_path_from_root}
use unified_oramhub.Ring.{EncryptedField, EncryptedRingBucket, RingBucketMetadata}
use unified_oramhub.Ring.Format.{
  serialize_encrypted_ring_bucket, deserialize_encrypted_ring_bucket,
  serialize_ring_bucket_metadata,
}
use unified_oramhub.Ring.Storage.{
  Server, validate_initialized, validate_bucket_shape, read_bucket_from_disk, write_bucket_to_disk,
  metadata_from_bucket,
}
use unified_oramhub.Ring.Xor.{xor_into}

abbrev pub initialized : State Server Unit
initialized s = (validate_initialized s, s)

abbrev pub load : ℕ → State Server EncryptedRingBucket
load idx s = (read_bucket_from_disk s idx, s)

abbrev pub store : ℕ → EncryptedRingBucket → State Server Unit
store idx bucket s = elim (write_bucket_to_disk s idx bucket) [
  | ok s' ↦ (ok tt, s')
  | err e ↦ (err e, s)
]

-- The loop of HandleInit, `n` rounds from an index: a bucket for each. To receive from a connection
-- that was closed throws.
unfoldable pub init_buckets : ℕ → ℕ → List Bytes → State Server Unit
init_buckets zero idx messages = pure tt
init_buckets (suc n) idx [] = lift (err runtime_error)
init_buckets (suc n) idx (bytes ∷ rest) = do
  config ← gets (λ s. s.config)
  bucket ← lift (deserialize_encrypted_ring_bucket bytes)
  lift (validate_bucket_shape config bucket)
  store idx bucket
  init_buckets n (idx + 1) rest

-- `messages` follow the number of nodes in the stream. The normal end is the acknowledgement.
unfoldable pub handle_init : ℕ → List Bytes → State Server Unit
handle_init node_count messages = do
  config ← gets (λ s. s.config)
  check (node_count == get_num_tree_nodes config.tree_depth) invalid_argument
  modify (λ s. record s { has_tree_dir = true; files = λ _. none; node_count = node_count })
  init_buckets node_count 0 messages

unfoldable pub read_metadata_path : List ℕ → State Server (List Bytes)
read_metadata_path [] = pure []
read_metadata_path (idx ∷ path) = do
  bucket ← load idx
  later ← read_metadata_path path
  pure (serialize_ring_bucket_metadata (metadata_from_bucket bucket) ∷ later)

unfoldable pub handle_read_path_metadata : ℕ → State Server (List Bytes)
handle_read_path_metadata leaf = do
  initialized
  config ← gets (λ s. s.config)
  path ← lift (checked_path_from_root config.tree_depth leaf)
  read_metadata_path path

-- One round of the loop of HandleXorPathSlots: the slot is read, and is not valid afterwards.
unfoldable pub take_slot : ℕ → ℕ → Bytes → State Server (Bytes × Bytes)
take_slot idx offset aggregate = do
  config ← gets (λ s. s.config)
  bucket ← load idx
  slot ← lift (or_fail (get_elem? bucket.slots offset) out_of_range)
  valid ← lift (or_fail (get_elem? bucket.valids offset) out_of_range)
  check valid runtime_error
  check (length slot.ciphertext == config.block_size) runtime_error
  aggregate' ← lift (xor_into aggregate slot.ciphertext)
  store idx (record bucket {
    valids = set bucket.valids offset false;
    count = (bucket.count + 1) % u64_mod;
  })
  pure (aggregate', slot.iv)

-- The loop over the path, with the aggregate so far. There are as many offsets as buckets.
unfoldable pub take_slots : List ℕ → List ℕ → Bytes → State Server (Bytes × List Bytes)
take_slots [] offsets aggregate = pure (aggregate, [])
take_slots (idx ∷ path) [] aggregate = lift (err undefined)
take_slots (idx ∷ path) (offset ∷ offsets) aggregate = do
  (aggregate', iv) ← take_slot idx offset aggregate
  (total, ivs) ← take_slots path offsets aggregate'
  pure (total, iv ∷ ivs)

unfoldable pub handle_xor_path_slots : ℕ → List ℕ → State Server (Bytes × List Bytes)
handle_xor_path_slots leaf offsets = do
  initialized
  config ← gets (λ s. s.config)
  path ← lift (checked_path_from_root config.tree_depth leaf)
  check (length offsets == length path) invalid_argument
  reply ← take_slots path offsets (replicate config.block_size 0)
  modify (λ s. record s {
    xor_path_read_count = (s.xor_path_read_count + 1) % u64_mod;
    last_xor_path_slot_count = length offsets;
  })
  pure reply

unfoldable pub handle_read_bucket : ℕ → State Server Bytes
handle_read_bucket idx = do
  initialized
  bucket ← load idx
  pure (serialize_encrypted_ring_bucket bucket)

unfoldable pub handle_write_bucket : ℕ → Bytes → State Server Unit
handle_write_bucket idx bytes = do
  initialized
  config ← gets (λ s. s.config)
  bucket ← lift (deserialize_encrypted_ring_bucket bytes)
  lift (validate_bucket_shape config bucket)
  store idx bucket

unfoldable pub handle_read_bucket_count : ℕ → State Server ℕ
handle_read_bucket_count idx = do initialized; bucket ← load idx; pure bucket.count

unfoldable pub handle_read_stats : State Server (ℕ × ℕ)
handle_read_stats = gets (λ s. (s.xor_path_read_count, s.last_xor_path_slot_count))
