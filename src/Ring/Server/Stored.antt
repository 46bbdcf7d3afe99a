-- ===== src/Ring/Server/Stored.antt =====
-- The bucket files of RingORAMServer.cpp as a tree of encrypted buckets.
use unified_oramhub.Base.{
  ℕ, suc, ◌+◌, ◌%◌, ◌<◌, ◌≡◌, refl, ap, ◌∙◌, List, [], ◌∷◌, ◌++◌, map, Bool, true, false, some, ok,
  arith, length, set, update, length-append, length-set,
}
use unified_oramhub.Core.Memory.{Bytes, u64_mod, u64_bytes, length-le_bytes}
use unified_oramhub.Tree.{get_num_tree_nodes}
use unified_oramhub.Ring.{EncryptedRingBucket, RuntimeConfig, bucket_slots}
use unified_oramhub.Ring.Format.{
  serialize_encrypted_ring_bucket, append_bool_vector, append_fields, bool_byte,
}
use unified_oramhub.Ring.Format.RoundTrip.{
  RingBucketFits, deserialize-serialize_encrypted_ring_bucket,
}
use unified_oramhub.Ring.Storage.{
  Server, validate_initialized, validate_bucket_shape, read_bucket_from_disk, write_bucket_to_disk,
}

pub record Shaped (config : RuntimeConfig) (b : EncryptedRingBucket) : Type 0 where
  pub valids_shape : length b.valids ≡ bucket_slots config
  pub addrs_shape : length b.addrs ≡ config.z
  pub leaves_shape : length b.leaves ≡ config.z
  pub ptrs_shape : length b.ptrs ≡ config.z
  pub slots_shape : length b.slots ≡ bucket_slots config
  pub fits : RingBucketFits b

pub record Stores (config : RuntimeConfig) (tree : ℕ → EncryptedRingBucket) (s : Server)
    : Type 0 where
  pub same_config : s.config ≡ config
  pub node_count_ok : s.node_count ≡ get_num_tree_nodes config.tree_depth
  pub has_dir : s.has_tree_dir ≡ true
  pub can_write : s.writable ≡ true
  pub on_disk :
      (i : ℕ)
      → i < get_num_tree_nodes config.tree_depth
      → s.files i ≡ some (serialize_encrypted_ring_bucket (tree i))
  pub shaped : (i : ℕ) → i < get_num_tree_nodes config.tree_depth → Shaped config (tree i)

pub Shaped-valid :
    (config : RuntimeConfig) (b : EncryptedRingBucket)
    → Shaped config b
    → validate_bucket_shape config b ≡ ok tt
unfolding validate_bucket_shape
Shaped-valid config b h =
    ground (arith, h.valids_shape, h.addrs_shape, h.leaves_shape, h.ptrs_shape, h.slots_shape)

-- What a read of a slot leaves of the bucket.
abbrev pub spend : EncryptedRingBucket → ℕ → EncryptedRingBucket
spend b offset = record b { valids = set b.valids offset false; count = (b.count + 1) % u64_mod }

length-bool_bytes : (xs : List Bool) → length (map bool_byte xs) ≡ length xs
length-bool_bytes [] = refl
length-bool_bytes (x ∷ xs) = ap suc (length-bool_bytes xs)

length-spend :
    (b : EncryptedRingBucket) (offset : ℕ)
    → length (serialize_encrypted_ring_bucket (spend b offset))
      ≡ length (serialize_encrypted_ring_bucket b)
unfolding serialize_encrypted_ring_bucket append_bool_vector
length-spend b offset =
    let vs = set b.valids offset false in
    let later : Bytes =
      append_fields b.addrs
      ++ (append_fields b.leaves ++ (append_fields b.ptrs ++ append_fields b.slots)) in
    omega (
      arith,
      length-append (u64_bytes b.count)
          ((u64_bytes (length b.valids) ++ map bool_byte b.valids) ++ later),
      length-append (u64_bytes ((b.count + 1) % u64_mod))
          ((u64_bytes (length vs) ++ map bool_byte vs) ++ later),
      length-append (u64_bytes (length b.valids) ++ map bool_byte b.valids) later,
      length-append (u64_bytes (length vs) ++ map bool_byte vs) later,
      length-append (u64_bytes (length b.valids)) (map bool_byte b.valids),
      length-append (u64_bytes (length vs)) (map bool_byte vs),
      length-bool_bytes b.valids,
      length-bool_bytes vs,
      length-set b.valids offset false,
      length-le_bytes 8 b.count,
      length-le_bytes 8 ((b.count + 1) % u64_mod),
      length-le_bytes 8 (length b.valids),
      length-le_bytes 8 (length vs),
    )

pub spend-Shaped :
    (config : RuntimeConfig) (b : EncryptedRingBucket) (offset : ℕ)
    → Shaped config b
    → Shaped config (spend b offset)
spend-Shaped config b offset h = record {
  valids_shape = length-set b.valids offset false ∙ h.valids_shape;
  addrs_shape = h.addrs_shape;
  leaves_shape = h.leaves_shape;
  ptrs_shape = h.ptrs_shape;
  slots_shape = h.slots_shape;
  fits = record {
    count_fits = omega arith;
    addrs_fit = h.fits.addrs_fit;
    leaves_fit = h.fits.leaves_fit;
    ptrs_fit = h.fits.ptrs_fit;
    slots_fit = h.fits.slots_fit;
    size_fits = omega (arith, length-spend b offset, h.fits.size_fits);
  };
}

module _ {config : RuntimeConfig} {tree : ℕ → EncryptedRingBucket} {s : Server}
    (st : Stores config tree s) where
  pub Stores-initialized : validate_initialized s ≡ ok tt
  unfolding validate_initialized
  Stores-initialized = ground (
    arith,
    st.node_count_ok,
    st.has_dir,
    ap (λ c. get_num_tree_nodes c.tree_depth) st.same_config,
  )

  pub read-Stores :
      (i : ℕ) → i < get_num_tree_nodes config.tree_depth → read_bucket_from_disk s i ≡ ok (tree i)
  unfolding read_bucket_from_disk
  read-Stores i lt =
      let shape =
        ap (λ c. validate_bucket_shape c (tree i)) st.same_config
        ∙ Shaped-valid config (tree i) (st.shaped i lt) in
      ground (
        arith,
        st.node_count_ok,
        st.on_disk i lt,
        shape,
        deserialize-serialize_encrypted_ring_bucket (tree i) (st.shaped i lt).fits,
      )

  pub write-Stores :
      (i : ℕ) (b : EncryptedRingBucket)
      → i < get_num_tree_nodes config.tree_depth
      → Shaped config b
      → (s' : Server) × (write_bucket_to_disk s i b ≡ ok s') × Stores config (update tree i b) s'
  unfolding write_bucket_to_disk
  write-Stores i b lt h = (
    record s {
      has_tree_dir = true;
      files = update s.files i (some (serialize_encrypted_ring_bucket b));
    },
    ground (
      arith,
      st.node_count_ok,
      st.can_write,
      ap (λ c. validate_bucket_shape c b) st.same_config ∙ Shaped-valid config b h,
    ),
    record {
      same_config = st.same_config;
      node_count_ok = st.node_count_ok;
      has_dir = refl;
      can_write = st.can_write;
      on_disk = λ j lj. ground (arith, st.on_disk j lj);
      shaped = λ j lj. ground (arith, st.shaped j lj, h);
    },
  )
