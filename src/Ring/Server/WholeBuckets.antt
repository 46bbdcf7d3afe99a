-- ===== src/Ring/Server/WholeBuckets.antt =====
-- The requests for whole buckets on a server that stores a tree.
use mathlib.Core.Path.{subst}
use unified_oramhub.Base.{
  ℕ, zero, suc, ◌+◌, ◌<◌, ◌≡◌, refl, sym, ap, ◌∙◌, List, [], ◌∷◌, ◌++◌, append-nil, true, some,
  none, ok, arith, ◌==◌, update, eq→==,
}
use unified_oramhub.Base.State.{>>=-eq_of_ok}
use unified_oramhub.Core.Memory.{Bytes}
use unified_oramhub.Tree.{get_num_tree_nodes}
use unified_oramhub.Ring.{EncryptedRingBucket, RuntimeConfig}
use unified_oramhub.Ring.Format.{serialize_encrypted_ring_bucket}
use unified_oramhub.Ring.Format.RoundTrip.{deserialize-serialize_encrypted_ring_bucket}
use unified_oramhub.Ring.Storage.{Server, validate_bucket_shape, write_bucket_to_disk}
use unified_oramhub.Ring.Server.{
  store, init_buckets, handle_init, handle_read_bucket, handle_write_bucket,
  handle_read_bucket_count,
}
use unified_oramhub.Ring.Server.Stored.{
  Stores, Shaped, Shaped-valid, Stores-initialized, read-Stores, write-Stores,
}

module _ {config : RuntimeConfig} {tree : ℕ → EncryptedRingBucket} {s : Server}
    (st : Stores config tree s) (idx : ℕ) (lt : idx < get_num_tree_nodes config.tree_depth) where
  -- A server that stores a tree answers a request for a bucket of the tree with its bytes and
  -- a request for its count with the count that stands in it, and stays as it is.
  pub handle_read_bucket-Stores :
      (handle_read_bucket idx s ≡ (ok (serialize_encrypted_ring_bucket (tree idx)), s))
      × (handle_read_bucket_count idx s ≡ (ok (tree idx).count, s))
  unfolding handle_read_bucket handle_read_bucket_count
  handle_read_bucket-Stores = (
    rw (Stores-initialized st, read-Stores st idx lt),
    rw (Stores-initialized st, read-Stores st idx lt),
  )

  -- On a server that stores a tree, a bucket of the configured shape that is written at an
  -- index of the tree replaces that bucket and no other.
  pub handle_write_bucket-Stores :
      (b : EncryptedRingBucket)
      → Shaped config b
      → (s' : Server) × (handle_write_bucket idx (serialize_encrypted_ring_bucket b) s
          ≡ (ok tt, s'))
        × Stores config (update tree idx b) s'
  unfolding handle_write_bucket
  handle_write_bucket-Stores b h =
      let (s', written, st') = write-Stores st idx b lt h in
      (
        s',
        rw (Stores-initialized st, deserialize-serialize_encrypted_ring_bucket b h.fits)
            (ground (
              arith,
              written,
              ap (λ c. validate_bucket_shape c b) st.same_config ∙ Shaped-valid config b h,
            )),
        st',
      )

-- The messages of `n` buckets of a tree from index `k` on.
abbrev pub messages_of : (ℕ → EncryptedRingBucket) → ℕ → ℕ → List Bytes
messages_of tree zero k = []
messages_of tree (suc n) k = serialize_encrypted_ring_bucket (tree k) ∷ messages_of tree n (k + 1)

module _ (config : RuntimeConfig) (tree : ℕ → EncryptedRingBucket)
    (shaped : (i : ℕ) → i < get_num_tree_nodes config.tree_depth → Shaped config (tree i)) where
  -- The server while it receives: the first `k` files are written.
  record Received (k : ℕ) (s : Server) : Type 0 where
    pub same_config : s.config ≡ config
    pub node_count_ok : s.node_count ≡ get_num_tree_nodes config.tree_depth
    pub has_dir : s.has_tree_dir ≡ true
    pub can_write : s.writable ≡ true
    pub on_disk : (i : ℕ) → i < k → s.files i ≡ some (serialize_encrypted_ring_bucket (tree i))

  receive : (s : Server) (k : ℕ) → Received k s → Server
  receive s k r = record s {
    has_tree_dir = true;
    files = update s.files k (some (serialize_encrypted_ring_bucket (tree k)));
  }

  receive-write :
      (s : Server) (k : ℕ) (r : Received k s)
      → k < get_num_tree_nodes config.tree_depth
      → write_bucket_to_disk s k (tree k) ≡ ok (receive s k r)
  unfolding write_bucket_to_disk receive
  receive-write s k r lt = ground (
    arith,
    r.node_count_ok,
    r.can_write,
    ap (λ c. validate_bucket_shape c (tree k)) r.same_config
        ∙ Shaped-valid config (tree k) (shaped k lt),
  )

  receive-Received : (s : Server) (k : ℕ) (r : Received k s) → Received (k + 1) (receive s k r)
  unfolding receive
  receive-Received s k r = record {
    same_config = r.same_config;
    node_count_ok = r.node_count_ok;
    has_dir = refl;
    can_write = r.can_write;
    on_disk = λ i lt. ground (arith, r.on_disk i);
  }

  init_buckets-Received :
      (n k : ℕ) (s : Server) (rest : List Bytes)
      → k + n ≡ get_num_tree_nodes config.tree_depth
      → Received k s
      → (s' : Server) × (init_buckets n k (messages_of tree n k ++ rest) s ≡ (ok tt, s'))
        × Received (k + n) s'
  unfolding init_buckets
  init_buckets-Received zero k s rest e r = (s, refl, subst (λ j. Received j s) (omega arith) r)
  init_buckets-Received (suc n) k s rest e r =
      let lt : k < get_num_tree_nodes config.tree_depth = omega arith in
      let shape =
        ap (λ c. validate_bucket_shape c (tree k)) r.same_config
        ∙ Shaped-valid config (tree k) (shaped k lt) in
      let (s', run, r') =
        init_buckets-Received n (k + 1) (receive s k r) rest (omega arith)
          (receive-Received s k r) in
      (
        s',
        rw (deserialize-serialize_encrypted_ring_bucket (tree k) (shaped k lt).fits, shape)
            (>>=-eq_of_ok (store k (tree k))
                (λ _. init_buckets n (k + 1) (messages_of tree n (k + 1) ++ rest)) s tt
                (receive s k r) (rw (store, receive-write s k r lt))
              ∙ run),
        subst (λ j. Received j s') (omega arith) r',
      )

  -- A server that can write its files and receives the buckets of a tree, all of the
  -- configured shape, stores that tree.
  pub handle_init-Stores :
      (s : Server)
      → s.config ≡ config
      → s.writable ≡ true
      → (s' : Server) × (handle_init
            (get_num_tree_nodes config.tree_depth)
            (messages_of tree (get_num_tree_nodes config.tree_depth) 0)
            s
          ≡ (ok tt, s'))
        × Stores config tree s'
  unfolding handle_init
  handle_init-Stores s same writable =
      let n = get_num_tree_nodes config.tree_depth in
      let s₀ : Server = record s { has_tree_dir = true; files = λ _. none; node_count = n } in
      let (s', run, r) = init_buckets-Received n 0 s₀ [] (omega arith) (record {
        same_config = same;
        node_count_ok = refl;
        has_dir = refl;
        can_write = writable;
        on_disk = λ i lt. absurd (omega arith);
      }) in
      let count : (n == get_num_tree_nodes s.config.tree_depth) ≡ true =
        eq→== _ _ (ap (λ c. get_num_tree_nodes c.tree_depth) (sym same)) in
      (
        s',
        rw count (ap (λ m. init_buckets n 0 m s₀) (sym (append-nil (messages_of tree n 0))) ∙ run),
        record {
          same_config = r.same_config;
          node_count_ok = r.node_count_ok;
          has_dir = r.has_dir;
          can_write = r.can_write;
          on_disk = λ i lt. r.on_disk i (omega (arith, lt));
          shaped = shaped;
        },
      )
