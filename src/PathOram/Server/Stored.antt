-- ===== src/PathOram/Server/Stored.antt =====
-- The bucket files of PathORAMServer.cpp as a tree of buckets.
use unified_oramhub.Base.{
  ℕ, ◌≤◌, ◌<◌, ◌≡◌, refl, true, some, ok, arith, length, update, length-append,
}
use unified_oramhub.Core.Memory.{length-le_bytes, u64_bytes, u64_mod}
use unified_oramhub.Core.{Bucket, get_block_count}
use unified_oramhub.Core.Serializer.{serialize_bucket, serialize_blocks, BucketFits}
use unified_oramhub.Core.Serializer.RoundTrip.{deserialize-serialize_bucket}
use unified_oramhub.Tree.{get_num_tree_nodes}
use unified_oramhub.PathOram.Buckets.{bucket_size}
use unified_oramhub.PathOram.Storage.{
  Server, validate_initialized, validate_bucket_shape, read_bucket_from_disk, write_bucket_to_disk,
}

pub record Stores (limit height : ℕ) (tree : ℕ → Bucket) (s : Server) : Type 0 where
  pub same_height : s.tree_height ≡ height
  pub initialized : s.node_count ≡ get_num_tree_nodes height
  pub has_dir : s.has_tree_dir ≡ true
  pub can_write : s.writable ≡ true
  pub on_disk :
      (i : ℕ) → i < get_num_tree_nodes height → s.files i ≡ some (serialize_bucket (tree i))
  pub fits : (i : ℕ) → i < get_num_tree_nodes height → BucketFits limit bucket_size (tree i)

Fits-valid :
    {limit : ℕ} (b : Bucket) → BucketFits limit bucket_size b → validate_bucket_shape b ≡ ok tt
unfolding validate_bucket_shape
Fits-valid b f = ground (arith, f.same_capacity, f.within)

eight-le-serialize : (b : Bucket) → 8 ≤ length (serialize_bucket b)
unfolding serialize_bucket
eight-le-serialize b = omega (
  arith,
  length-append (u64_bytes (get_block_count b)) (serialize_blocks b.blocks),
  length-le_bytes 8 (get_block_count b),
)

module _ {limit height : ℕ} {tree : ℕ → Bucket} {s : Server} (st : Stores limit height tree s) where
  pub Stores-initialized : validate_initialized s ≡ ok tt
  unfolding validate_initialized
  Stores-initialized = ground (arith, st.same_height, st.initialized, st.has_dir)

  -- Reading a bucket file gives the tree's bucket.
  pub read-Stores :
      (i : ℕ)
      → limit ≤ u64_mod
      → i < get_num_tree_nodes height
      → read_bucket_from_disk s i ≡ ok (tree i)
  unfolding read_bucket_from_disk
  read-Stores i small lt = ground (
    arith,
    st.initialized,
    st.on_disk i lt,
    eight-le-serialize (tree i),
    deserialize-serialize_bucket bucket_size (tree i) small (st.fits i lt),
    Fits-valid (tree i) (st.fits i lt),
  )

  -- Writing one changes that bucket and no other.
  pub write-Stores :
      (i : ℕ) (b : Bucket)
      → i < get_num_tree_nodes height
      → BucketFits limit bucket_size b
      → (s' : Server) × (write_bucket_to_disk s i b ≡ ok s')
        × Stores limit height (update tree i b) s'
  unfolding write_bucket_to_disk
  write-Stores i b lt f = (
    record s { has_tree_dir = true; files = update s.files i (some (serialize_bucket b)) },
    ground (arith, st.initialized, st.can_write, Fits-valid b f),
    record {
      same_height = st.same_height;
      initialized = st.initialized;
      has_dir = refl;
      can_write = st.can_write;
      on_disk = λ j lj. ground (arith, st.on_disk j lj);
      fits = λ j lj. ground (arith, st.fits j lj, f);
    },
  )
