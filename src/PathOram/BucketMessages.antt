-- ===== src/PathOram/BucketMessages.antt =====
-- The two requests for single buckets on a server that stores a tree.
use unified_oramhub.Base.{ℕ, ◌+◌, ◌<◌, ◌≡◌, ok, arith, length, update}
use unified_oramhub.Core.Memory.{Bytes}
use unified_oramhub.Core.{Bucket}
use unified_oramhub.Core.Serializer.{BucketFits}
use unified_oramhub.Crypto.{CtrCipher, iv_size}
use unified_oramhub.Tree.{get_num_tree_nodes}
use unified_oramhub.PathOram.Buckets.{bucket_size, data_limit, data_limit-encrypt_bucket}
use unified_oramhub.PathOram.Storage.{Server}
use unified_oramhub.PathOram.Server.{handle_read_bucket, handle_write_bucket}
use unified_oramhub.PathOram.Server.Stored.{Stores, Stores-initialized, read-Stores, write-Stores}
use unified_oramhub.PathOram.Client.{World, read_bucket_from_server, write_bucket_to_server}

module _ (cipher : CtrCipher) {height : ℕ} where
  write_bucket-Stores :
      (tree : ℕ → Bucket) (w : World) (idx : ℕ) (b : Bucket) (iv : Bytes)
      → Stores data_limit height tree w.server
      → idx < get_num_tree_nodes height
      → BucketFits data_limit bucket_size b
      → length iv ≡ iv_size
      → (w' : World) × (write_bucket_to_server cipher idx b iv w ≡ (ok tt, w'))
        × Stores data_limit height (update tree idx b) w'.server
  unfolding write_bucket_to_server handle_write_bucket
  write_bucket-Stores tree w idx b iv st lt fits len =
      let s : Server = record w.server {
        stats = record w.server.stats {
          write_bucket_requests = w.server.stats.write_bucket_requests + 1;
        };
      } in
      let st₁ : Stores data_limit height tree s = record {
        same_height = st.same_height;
        initialized = st.initialized;
        has_dir = st.has_dir;
        can_write = st.can_write;
        on_disk = st.on_disk;
        fits = st.fits;
      } in
      let (s', written, st') = write-Stores st₁ idx b lt fits in
      (
        record w { server = s' },
        rw
            (
              (data_limit-encrypt_bucket cipher b iv fits len).0,
              Stores-initialized st,
              (data_limit-encrypt_bucket cipher b iv fits len).1,
            )
            (ground (arith, written)),
        st',
      )

  read_bucket-Stores :
      (tree : ℕ → Bucket) (w : World) (idx : ℕ) (iv : Bytes)
      → Stores data_limit height tree w.server
      → idx < get_num_tree_nodes height
      → length iv ≡ iv_size
      → (w' : World) × (read_bucket_from_server cipher idx iv w ≡ (ok (tree idx), w'))
  unfolding read_bucket_from_server handle_read_bucket
  read_bucket-Stores tree w idx iv st lt len =
      let s : Server = record w.server {
        stats = record w.server.stats {
          read_bucket_requests = w.server.stats.read_bucket_requests + 1;
        };
      } in
      let st₁ : Stores data_limit height tree s = record {
        same_height = st.same_height;
        initialized = st.initialized;
        has_dir = st.has_dir;
        can_write = st.can_write;
        on_disk = st.on_disk;
        fits = st.fits;
      } in
      (
        record w { server = s },
        rw (
          Stores-initialized st,
          read-Stores st₁ idx (omega arith) lt,
          (data_limit-encrypt_bucket cipher (tree idx) iv (st.fits idx lt) len).0,
          (data_limit-encrypt_bucket cipher (tree idx) iv (st.fits idx lt) len).1,
        ),
      )

  -- On a server that stores a tree with data of less than data_limit = 536870893 bytes in a
  -- block, a bucket that fits with such data and is written at an index of the tree under a
  -- vector of 16 bytes is what a read of that index returns.
  pub read_bucket-write_bucket :
      (tree : ℕ → Bucket) (w : World) (idx : ℕ) (b : Bucket) (write_iv read_iv : Bytes)
      → Stores data_limit height tree w.server
      → idx < get_num_tree_nodes height
      → BucketFits data_limit bucket_size b
      → length write_iv ≡ iv_size
      → length read_iv ≡ iv_size
      → (w' w'' : World) × (write_bucket_to_server cipher idx b write_iv w ≡ (ok tt, w'))
        × (read_bucket_from_server cipher idx read_iv w' ≡ (ok b, w''))
  read_bucket-write_bucket tree w idx b write_iv read_iv st lt fits len len' =
      let (w', written, st') = write_bucket-Stores tree w idx b write_iv st lt fits len in
      let (w'', run) = read_bucket-Stores (update tree idx b) w' idx read_iv st' lt len' in
      (w', w'', written, ground (arith, run))
