-- ===== src/Tests/RingTests.antt =====
-- A Ring ORAM tree of height 1 with one block: its slots hold one byte.
use unified_oramhub.Base.{
  ℕ, ◌≡◌, refl, List, [], ◌∷◌, true, false, some, none, ok, Error, err, arith, replicate, update,
  take,
}
use unified_oramhub.Core.Memory.{Bytes, le_bytes}
use unified_oramhub.Crypto.{CtrCipher}
use unified_oramhub.Tree.{
  get_num_tree_nodes, checked_path_from_root, get_num_leaves, get_path_from_root, path_down,
  child_towards,
}
use unified_oramhub.Ring.{EncryptedField, EncryptedRingBucket, RuntimeConfig}
use unified_oramhub.Ring.Format.{
  serialize_encrypted_ring_bucket, deserialize_encrypted_ring_bucket,
  serialize_ring_bucket_metadata, deserialize_ring_bucket_metadata, append_bool_vector,
  append_fields, append_all, append_field, append_bytes,
}
use unified_oramhub.Ring.Format.RoundTrip.{
  RingBucketFits, MetadataFits, deserialize-serialize_encrypted_ring_bucket,
  deserialize-serialize_ring_bucket_metadata,
}
use unified_oramhub.Ring.Storage.{Server, metadata_from_bucket}
use unified_oramhub.Ring.Server.{
  handle_init, handle_xor_path_slots, handle_read_bucket, handle_write_bucket,
  handle_read_bucket_count,
}
use unified_oramhub.Ring.Server.Stored.{Stores, Shaped}
use unified_oramhub.Ring.Server.PathSlots.{PathSlots, spend_path, handle_xor_path_slots-Stores}
use unified_oramhub.Ring.Server.SpentSlots.{after_requests, handle_xor_path_slots_once}
use unified_oramhub.Ring.Server.WholeBuckets.{
  messages_of, handle_init-Stores, handle_read_bucket-Stores, handle_write_bucket-Stores,
}
use unified_oramhub.Ring.Fetch.{fetch_xor_path}
use unified_oramhub.Ring.Fetch.Unmask.{Dummy, aggregate_of}
use unified_oramhub.Ring.Read.{read_path-target}

abbrev zero_cipher : CtrCipher
zero_cipher = record {
  run = λ iv input. input;
  encrypt_init = λ iv. true;
  encrypt_update = λ iv input n. some (take n input);
  encrypt_final = λ iv. true;
  run_twice = λ iv input. refl;
  length-run = λ iv input. refl;
  init_ok = λ iv len. refl;
  update_ok = λ iv input n len le small. refl;
  final_ok = λ iv len. refl;
}

abbrev config : RuntimeConfig
config = record { num_blocks = 1; tree_depth = 1; z = 1; s = 1; a = 1; block_size = 1 }

abbrev zero_iv : Bytes
zero_iv = replicate 16 0

abbrev dummy : EncryptedField
dummy = record { iv = zero_iv; ciphertext = 0 ∷ [] }

abbrev target : EncryptedField
target = record { iv = zero_iv; ciphertext = 7 ∷ [] }

abbrev bucket : EncryptedRingBucket
bucket = record {
  count = 0;
  valids = true ∷ true ∷ [];
  addrs = dummy ∷ [];
  leaves = dummy ∷ [];
  ptrs = dummy ∷ [];
  slots = target ∷ dummy ∷ [];
}

bucket-Fits : RingBucketFits bucket
unfolding serialize_encrypted_ring_bucket append_bool_vector append_fields append_all append_field
    append_bytes le_bytes
bucket-Fits = record {
  count_fits = omega arith;
  addrs_fit = omega arith;
  leaves_fit = omega arith;
  ptrs_fit = omega arith;
  slots_fit = omega arith;
  size_fits = omega arith;
}

deserialize-serialize_encrypted_ring_bucket_example :
    deserialize_encrypted_ring_bucket (serialize_encrypted_ring_bucket bucket) ≡ ok bucket
deserialize-serialize_encrypted_ring_bucket_example =
    deserialize-serialize_encrypted_ring_bucket bucket bucket-Fits

metadata-Fits : MetadataFits (metadata_from_bucket bucket)
unfolding serialize_ring_bucket_metadata append_bool_vector append_fields append_all append_field
    append_bytes le_bytes
metadata-Fits = record {
  count_fits = omega arith;
  addrs_fit = omega arith;
  leaves_fit = omega arith;
  ptrs_fit = omega arith;
  size_fits = omega arith;
}

deserialize-serialize_ring_bucket_metadata_example :
    deserialize_ring_bucket_metadata (serialize_ring_bucket_metadata (metadata_from_bucket bucket))
    ≡ ok (metadata_from_bucket bucket)
deserialize-serialize_ring_bucket_metadata_example =
    deserialize-serialize_ring_bucket_metadata (metadata_from_bucket bucket) metadata-Fits

bucket-Shaped : Shaped config bucket
bucket-Shaped = record {
  valids_shape = refl;
  addrs_shape = refl;
  leaves_shape = refl;
  ptrs_shape = refl;
  slots_shape = refl;
  fits = bucket-Fits;
}

abbrev tree : ℕ → EncryptedRingBucket
tree i = bucket

abbrev new : Server
new = record {
  config = config;
  node_count = 0;
  has_tree_dir = true;
  writable = true;
  files = λ _. none;
  running = true;
  xor_path_read_count = 0;
  last_xor_path_slot_count = 0;
}

handle_init-Stores_example :
    (s' : Server) × (handle_init
        (get_num_tree_nodes 1)
        (messages_of tree (get_num_tree_nodes 1) 0)
        new
      ≡ (ok tt, s'))
    × Stores config tree s'
handle_init-Stores_example = handle_init-Stores config tree (λ i lt. bucket-Shaped) new refl refl

abbrev server : Server
server = (handle_init-Stores config tree (λ i lt. bucket-Shaped) new refl refl).0

server-Stores : Stores config tree server
server-Stores = (handle_init-Stores config tree (λ i lt. bucket-Shaped) new refl refl).2

nodes_are_three : get_num_tree_nodes 1 ≡ 3
unfolding get_num_tree_nodes
nodes_are_three = refl

handle_read_bucket-Stores_example :
    (handle_read_bucket 1 server ≡ (ok (serialize_encrypted_ring_bucket bucket), server))
    × (handle_read_bucket_count 1 server ≡ (ok 0, server))
handle_read_bucket-Stores_example =
    handle_read_bucket-Stores server-Stores 1 (omega (arith, nodes_are_three))

handle_write_bucket-Stores_example :
    (s' : Server) × (handle_write_bucket 2 (serialize_encrypted_ring_bucket bucket) server
      ≡ (ok tt, s'))
    × Stores config (update tree 2 bucket) s'
handle_write_bucket-Stores_example =
    handle_write_bucket-Stores server-Stores 2 (omega (arith, nodes_are_three)) bucket bucket-Shaped

path_of_leaf_zero : checked_path_from_root 1 0 ≡ ok (0 ∷ 1 ∷ [])
unfolding checked_path_from_root get_num_leaves get_path_from_root path_down child_towards
path_of_leaf_zero = refl

slots-PathSlots : PathSlots config tree (0 ∷ 1 ∷ []) (1 ∷ 0 ∷ []) (dummy ∷ target ∷ [])
slots-PathSlots = (
  record { below = omega (arith, nodes_are_three); stands = refl; valid = refl; sized = refl },
  (
    record { below = omega (arith, nodes_are_three); stands = refl; valid = refl; sized = refl },
    tt,
  ),
)

abbrev spent : ℕ → EncryptedRingBucket
spent = spend_path tree (0 ∷ 1 ∷ []) (1 ∷ 0 ∷ [])

handle_xor_path_slots-Stores_example :
    (s' : Server) × (handle_xor_path_slots 0 (1 ∷ 0 ∷ []) server
      ≡ (ok (aggregate_of (0 ∷ []) (dummy ∷ target ∷ []), zero_iv ∷ zero_iv ∷ []), s'))
    × Stores config spent s'
handle_xor_path_slots-Stores_example =
    handle_xor_path_slots-Stores tree server 0 (0 ∷ 1 ∷ []) (1 ∷ 0 ∷ []) (dummy ∷ target ∷ [])
      server-Stores path_of_leaf_zero refl slots-PathSlots

-- The reply and the server after the request for the path of leaf 0.
abbrev answer : Bytes × List Bytes
answer = (aggregate_of (0 ∷ []) (dummy ∷ target ∷ []), zero_iv ∷ zero_iv ∷ [])

abbrev answered : Server
answered =
    (handle_xor_path_slots-Stores tree server 0 (0 ∷ 1 ∷ []) (1 ∷ 0 ∷ []) (dummy ∷ target ∷ [])
      server-Stores path_of_leaf_zero refl slots-PathSlots).0

answered_run : handle_xor_path_slots 0 (1 ∷ 0 ∷ []) server ≡ (ok answer, answered)
answered_run =
    (handle_xor_path_slots-Stores tree server 0 (0 ∷ 1 ∷ []) (1 ∷ 0 ∷ []) (dummy ∷ target ∷ [])
      server-Stores path_of_leaf_zero refl slots-PathSlots).1

path_of_leaf_one : checked_path_from_root 1 1 ≡ ok (0 ∷ 2 ∷ [])
unfolding checked_path_from_root get_num_leaves get_path_from_root path_down child_towards
path_of_leaf_one = refl

-- The other slots of the path of leaf 0 are read, then the root's first slot again on the path of
-- leaf 1.
handle_xor_path_slots_once_example :
    (e : Error) × ((handle_xor_path_slots 1
        (1 ∷ 0 ∷ [])
        (after_requests ((0, 0 ∷ 1 ∷ []) ∷ []) answered)).0
      ≡ err e)
handle_xor_path_slots_once_example =
    handle_xor_path_slots_once tree server answered 0 1 (0 ∷ 1 ∷ []) (1 ∷ 0 ∷ []) (0 ∷ 2 ∷ [])
      (1 ∷ 0 ∷ []) answer ((0, 0 ∷ 1 ∷ []) ∷ []) 0 1 0 0 server-Stores answered_run
      path_of_leaf_zero refl refl path_of_leaf_one refl refl

dummy-Dummy : Dummy zero_cipher 1 dummy
dummy-Dummy = record { iv_ok = refl; masked = refl }

read_path-target_example :
    (reply : Bytes × List Bytes) × (s' : Server) × (handle_xor_path_slots 0 (1 ∷ 0 ∷ []) server
      ≡ (ok reply, s'))
    × (fetch_xor_path zero_cipher 1 2 (false ∷ true ∷ []) reply.0 reply.1 ≡ ok (some (7 ∷ [])))
    × Stores config spent s'
read_path-target_example =
    read_path-target zero_cipher tree server 0 (0 ∷ 1 ∷ []) (1 ∷ 0 ∷ []) (dummy ∷ []) [] zero_iv
      (7 ∷ []) server-Stores path_of_leaf_zero refl slots-PathSlots (dummy-Dummy, tt) tt refl refl
      (omega arith) (omega arith, tt)
