-- ===== src/PathOram/Server/PathMessages.antt =====
-- HandleReadPath and HandleWritePath of PathORAMServer.cpp on a server that stores a tree.
use unified_oramhub.Base.{
  ℕ, suc, ◌+◌, ◌<◌, ◌≡◌, refl, ap, List, [], ◌∷◌, ◌++◌, map, true, ok, arith, length, ◌==◌, update,
  eq→==,
}
use unified_oramhub.Core.Memory.{Bytes}
use unified_oramhub.Core.{Bucket}
use unified_oramhub.Core.Serializer.{serialize_bucket, BucketFits}
use unified_oramhub.Crypto.{CtrCipher, iv_size}
use unified_oramhub.Tree.{get_num_tree_nodes}
use unified_oramhub.PathOram.Buckets.{
  bucket_size, data_limit, data_limit-encrypt_bucket, decrypt_all, encrypt_entries,
}
use unified_oramhub.PathOram.Storage.{Server}
use unified_oramhub.PathOram.Server.{
  read_buckets, handle_read_path, write_buckets, handle_write_path,
}
use unified_oramhub.PathOram.Server.Stored.{Stores, Stores-initialized, read-Stores, write-Stores}
use unified_oramhub.PathOram.Stash.Eviction.{AllFit}
use unified_oramhub.PathOram.Writes.{write_tree}

abbrev pub AllBelow : ℕ → List ℕ → Type 0
AllBelow n [] = Unit {0}
AllBelow n (i ∷ is) = (i < n) × AllBelow n is

-- Every vector drawn has the size that `GenerateIV` gives it.
abbrev pub AreIvs : (ℕ → Bytes) → Type 0
AreIvs ivs = (i : ℕ) → length (ivs i) ≡ iv_size

module _ (cipher : CtrCipher) where
  -- A bucket as it travels.
  abbrev pub seal : Bucket → Bytes → Bytes
  seal b iv = iv ++ cipher.run iv (serialize_bucket b)

  abbrev pub seal_path : (ℕ → Bucket) → List ℕ → (ℕ → Bytes) → ℕ → List Bytes
  seal_path tree [] ivs i = []
  seal_path tree (idx ∷ is) ivs i = seal (tree idx) (ivs i) ∷ seal_path tree is ivs (i + 1)

  abbrev pub seal_entries : List ℕ → List Bucket → (ℕ → Bytes) → ℕ → List (ℕ × Bytes)
  seal_entries [] bs ivs i = []
  seal_entries (idx ∷ is) [] ivs i = []
  seal_entries (idx ∷ is) (b ∷ bs) ivs i = (idx, seal b (ivs i)) ∷ seal_entries is bs ivs (i + 1)

  pub length-seal_path :
      (tree : ℕ → Bucket) (is : List ℕ) (ivs : ℕ → Bytes) (i : ℕ)
      → length (seal_path tree is ivs i) ≡ length is
  length-seal_path tree [] ivs i = refl
  length-seal_path tree (x ∷ is) ivs i = ap suc (length-seal_path tree is ivs (i + 1))

  length-seal_entries :
      (is : List ℕ) (bs : List Bucket) (ivs : ℕ → Bytes) (i : ℕ)
      → length is ≡ length bs
      → length (seal_entries is bs ivs i) ≡ length is
  length-seal_entries [] bs ivs i e = refl
  length-seal_entries (x ∷ is) [] ivs i e = absurd (omega arith)
  length-seal_entries (x ∷ is) (b ∷ bs) ivs i e =
      ap suc (length-seal_entries is bs ivs (i + 1) (omega arith))

  pub decrypt_all-seal_path :
      (N : ℕ) (tree : ℕ → Bucket) (is : List ℕ) (ivs : ℕ → Bytes) (i : ℕ)
      → ((j : ℕ) → j < N → BucketFits data_limit bucket_size (tree j))
      → AllBelow N is
      → AreIvs ivs
      → decrypt_all cipher (seal_path tree is ivs i) ≡ ok (map tree is)
  unfolding decrypt_all
  decrypt_all-seal_path N tree [] ivs i fits below sized = refl
  decrypt_all-seal_path N tree (x ∷ is) ivs i fits below sized = rw (
    (data_limit-encrypt_bucket cipher (tree x) (ivs i) (fits x below.0) (sized i)).1,
    decrypt_all-seal_path N tree is ivs (i + 1) fits below.1 sized,
  )

  pub encrypt_entries-seal_entries :
      (is : List ℕ) (bs : List Bucket) (ivs : ℕ → Bytes) (i : ℕ)
      → AllFit data_limit bs
      → AreIvs ivs
      → encrypt_entries cipher is bs ivs i ≡ ok (seal_entries is bs ivs i)
  unfolding encrypt_entries
  encrypt_entries-seal_entries [] bs ivs i fit sized = refl
  encrypt_entries-seal_entries (x ∷ is) [] ivs i fit sized = refl
  encrypt_entries-seal_entries (x ∷ is) (b ∷ bs) ivs i fit sized = rw (
    (data_limit-encrypt_bucket cipher b (ivs i) fit.0 (sized i)).0,
    encrypt_entries-seal_entries is bs ivs (i + 1) fit.1 sized,
  )

  module _ {height : ℕ} {tree : ℕ → Bucket} where
    read_buckets-Stores :
        (s : Server) (is : List ℕ) (ivs : ℕ → Bytes) (i : ℕ)
        → Stores data_limit height tree s
        → AllBelow (get_num_tree_nodes height) is
        → AreIvs ivs
        → read_buckets cipher is ivs i s ≡ (ok (seal_path tree is ivs i), s)
    unfolding read_buckets
    read_buckets-Stores s [] ivs i st below sized = refl
    read_buckets-Stores s (x ∷ is) ivs i st below sized = rw (
      read-Stores st x (omega arith) below.0,
      (data_limit-encrypt_bucket cipher (tree x) (ivs i) (st.fits x below.0) (sized i)).0,
      read_buckets-Stores s is ivs (i + 1) st below.1 sized,
    )

    -- A server that stores a tree with data of less than data_limit = 536870893 bytes in a
    -- block answers a read of height + 1 indices of the tree, under vectors of 16 bytes,
    -- with the encrypted buckets of the tree, in that order, and still stores the tree.
    pub handle_read_path-Stores :
        (s : Server) (is : List ℕ) (ivs : ℕ → Bytes)
        → Stores data_limit height tree s
        → length is ≡ height + 1
        → AllBelow (get_num_tree_nodes height) is
        → AreIvs ivs
        → (s' : Server) × (handle_read_path cipher is ivs s ≡ (ok (seal_path tree is ivs 0), s'))
          × Stores data_limit height tree s'
    unfolding handle_read_path
    handle_read_path-Stores s is ivs st len below sized =
        let s' : Server = record s {
          stats = record s.stats { read_path_requests = s.stats.read_path_requests + 1 };
        } in
        let st' : Stores data_limit height tree s' = record {
          same_height = st.same_height;
          initialized = st.initialized;
          has_dir = st.has_dir;
          can_write = st.can_write;
          on_disk = st.on_disk;
          fits = st.fits;
        } in
        let count : (length is == s.tree_height + 1) ≡ true =
          eq→== _ _ (omega (arith, st.same_height)) in
        (
          s',
          rw (Stores-initialized st, count) (read_buckets-Stores s' is ivs 0 st' below sized),
          st',
        )

  write_buckets-Stores :
      (height : ℕ) (is : List ℕ) (bs : List Bucket) (tree : ℕ → Bucket) (s : Server)
      (ivs : ℕ → Bytes) (i : ℕ)
      → Stores data_limit height tree s
      → AllBelow (get_num_tree_nodes height) is
      → AllFit data_limit bs
      → AreIvs ivs
      → (s' : Server) × (write_buckets cipher (seal_entries is bs ivs i) s ≡ (ok tt, s'))
        × Stores data_limit height (write_tree is bs tree) s'
  unfolding write_buckets write_tree
  write_buckets-Stores height [] bs tree s ivs i st below fit sized = (s, refl, st)
  write_buckets-Stores height (x ∷ is) [] tree s ivs i st below fit sized = (s, refl, st)
  write_buckets-Stores height (x ∷ is) (b ∷ bs) tree s ivs i st below fit sized =
      let (s₁, written, st₁) = write-Stores st x b below.0 fit.0 in
      let (s₂, later, st₂) =
        write_buckets-Stores height is bs (update tree x b) s₁ ivs (i + 1) st₁ below.1 fit.1
          sized in
      (
        s₂,
        ground
            (arith, (data_limit-encrypt_bucket cipher b (ivs i) fit.0 (sized i)).1, written, later),
        st₂,
      )

  -- A server that stores a tree answers a write of height + 1 buckets that fit with data of
  -- less than data_limit = 536870893 bytes, as that of the tree, encrypted under vectors of 16
  -- bytes, at indices of the tree with success and stores the tree with these buckets
  -- replaced.
  pub handle_write_path-Stores :
      (height : ℕ) (is : List ℕ) (bs : List Bucket) (tree : ℕ → Bucket) (s : Server)
      (ivs : ℕ → Bytes)
      → Stores data_limit height tree s
      → length is ≡ height + 1
      → length is ≡ length bs
      → AllBelow (get_num_tree_nodes height) is
      → AllFit data_limit bs
      → AreIvs ivs
      → (s' : Server) × (handle_write_path cipher (seal_entries is bs ivs 0) s ≡ (ok tt, s'))
        × Stores data_limit height (write_tree is bs tree) s'
  unfolding handle_write_path
  handle_write_path-Stores height is bs tree s ivs st len same below fit sized =
      let (s₁, run, st₁) = write_buckets-Stores height is bs tree s ivs 0 st below fit sized in
      let count : (length (seal_entries is bs ivs 0) == s.tree_height + 1) ≡ true =
        eq→== _ _ (omega (arith, st.same_height, length-seal_entries is bs ivs 0 same)) in
      (
        record s₁ {
          stats = record s₁.stats { write_path_requests = s₁.stats.write_path_requests + 1 };
        },
        rw (Stores-initialized st, count, run),
        record {
          same_height = st₁.same_height;
          initialized = st₁.initialized;
          has_dir = st₁.has_dir;
          can_write = st₁.can_write;
          on_disk = st₁.on_disk;
          fits = st₁.fits;
        },
      )
