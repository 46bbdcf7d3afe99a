-- ===== src/Ring/Read.antt =====
-- A read of a path in Ring ORAM, with the server's part and the client's part together.
use unified_oramhub.Base.{ℕ, ◌<◌, ◌≡◌, List, ◌∷◌, ◌++◌, true, some, ok, length}
use unified_oramhub.Core.Memory.{Bytes}
use unified_oramhub.Crypto.{CtrCipher, iv_size, int_limit}
use unified_oramhub.Crypto.Counter.{AreBytes}
use unified_oramhub.Tree.{checked_path_from_root}
use unified_oramhub.Ring.{EncryptedField, EncryptedRingBucket, RuntimeConfig}
use unified_oramhub.Ring.Storage.{Server}
use unified_oramhub.Ring.Server.{handle_xor_path_slots}
use unified_oramhub.Ring.Server.Stored.{Stores}
use unified_oramhub.Ring.Server.PathSlots.{PathSlots, spend_path, handle_xor_path_slots-Stores}
use unified_oramhub.Ring.Fetch.{fetch_xor_path}
use unified_oramhub.Ring.Fetch.Unmask.{Dummies, no_flags, fetch_xor_path-target}

-- When a block's size is below 2 ^ 31, one slot of a path holds the encryption of data of that
-- size, and all the other slots hold encryptions of zeros, all of them valid, a server that
-- stores the tree answers, and the server's reply to the request for them lets the client
-- recover the data; the slots are spent.
pub read_path-target :
    (cipher : CtrCipher) {config : RuntimeConfig} (tree : ℕ → EncryptedRingBucket) (s : Server)
    (leaf : ℕ) (path offsets : List ℕ) (before after : List EncryptedField) (iv content : Bytes)
    → Stores config tree s
    → checked_path_from_root config.tree_depth leaf ≡ ok path
    → length offsets ≡ length path
    → PathSlots config tree path offsets
        (before ++ record { iv = iv; ciphertext = cipher.run iv content } ∷ after)
    → Dummies cipher config.block_size before
    → Dummies cipher config.block_size after
    → length iv ≡ iv_size
    → length content ≡ config.block_size
    → config.block_size < int_limit
    → AreBytes (cipher.run iv content)
    → (reply : Bytes × List Bytes) × (s' : Server) × (handle_xor_path_slots leaf offsets s
        ≡ (ok reply, s'))
      × (fetch_xor_path cipher config.block_size
            (length (before ++ record { iv = iv; ciphertext = cipher.run iv content } ∷ after))
            (no_flags cipher config.block_size before
              ++ true ∷ no_flags cipher config.block_size after)
            reply.0
            reply.1
          ≡ ok (some content))
      × Stores config (spend_path tree path offsets) s'
read_path-target cipher {config} tree s leaf path offsets before after iv content st found len slots
      before_ok after_ok iv_ok sized short masked =
    let (s', run, st') =
      handle_xor_path_slots-Stores tree s leaf path offsets _ st found len slots in
    (
      _,
      s',
      run,
      fetch_xor_path-target cipher config.block_size before after iv content before_ok after_ok
          iv_ok sized short masked,
      st',
    )
