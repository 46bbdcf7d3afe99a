-- ===== src/PathOram/Server.antt =====
-- PathORAMServer.cpp: the handlers of requests. A message stands for the bytes that both sides
-- send and receive for it; the vectors of `GenerateIV` are arguments. What a handler has changed
-- stays changed when it throws.
pub mod Stored
pub mod Requests
pub mod PathMessages
use unified_oramhub.Base.{
  ℕ, zero, suc, ◌+◌, List, [], ◌∷◌, ◌++◌, Bool, true, false, Result, ok, err, Error,
  invalid_argument, length, ◌==◌, if◌then◌else◌,
}
use unified_oramhub.Base.State.{State, pure, lift, gets, modify, check, ◌>>=◌, ◌>>◌}
use unified_oramhub.Core.Memory.{Bytes}
use unified_oramhub.Core.{Bucket}
use unified_oramhub.Crypto.{CtrCipher}
use unified_oramhub.PathOram.Buckets.{encrypt_bucket, decrypt_bucket}
use unified_oramhub.PathOram.Storage.{
  Server, RequestStats, validate_initialized, read_bucket_from_disk, write_bucket_to_disk,
}

abbrev pub count_stats : (RequestStats → RequestStats) → Server → Server
count_stats f s = record s { stats = f s.stats }

abbrev store : ℕ → Bucket → State Server Unit
store idx bucket s = elim (write_bucket_to_disk s idx bucket) [
  | ok s' ↦ (ok tt, s')
  | err e ↦ (err e, s)
]

module _ (cipher : CtrCipher) where
  unfoldable pub handle_read_bucket : ℕ → Bytes → State Server Bytes
  handle_read_bucket idx iv = do
    initialized ← (λ s. (validate_initialized s, s))
    modify (count_stats (λ t. record t { read_bucket_requests = t.read_bucket_requests + 1 }))
    bucket ← (λ s. (read_bucket_from_disk s idx, s))
    lift (encrypt_bucket cipher bucket iv)

  unfoldable pub handle_write_bucket : ℕ → Bytes → State Server Unit
  handle_write_bucket idx encrypted = do
    initialized ← (λ s. (validate_initialized s, s))
    modify (count_stats (λ t. record t { write_bucket_requests = t.write_bucket_requests + 1 }))
    bucket ← lift (decrypt_bucket cipher encrypted)
    store idx bucket

  -- The loop over the requested indices; `i` counts the vectors drawn.
  unfoldable pub read_buckets : List ℕ → (ℕ → Bytes) → ℕ → State Server (List Bytes)
  read_buckets [] ivs i = pure []
  read_buckets (idx ∷ rest) ivs i = do
    bucket ← (λ s. (read_bucket_from_disk s idx, s))
    encrypted ← lift (encrypt_bucket cipher bucket (ivs i))
    later ← read_buckets rest ivs (i + 1)
    pure (encrypted ∷ later)

  unfoldable pub handle_read_path : List ℕ → (ℕ → Bytes) → State Server (List Bytes)
  handle_read_path indices ivs = do
    initialized ← (λ s. (validate_initialized s, s))
    height ← gets (λ s. s.tree_height)
    check (length indices == height + 1) invalid_argument
    modify (count_stats (λ t. record t { read_path_requests = t.read_path_requests + 1 }))
    read_buckets indices ivs 0

  unfoldable pub write_buckets : List (ℕ × Bytes) → State Server Unit
  write_buckets [] = pure tt
  write_buckets ((idx, encrypted) ∷ rest) = do
    bucket ← lift (decrypt_bucket cipher encrypted)
    store idx bucket
    write_buckets rest

  -- The acknowledgement is the normal end of the handler.
  unfoldable pub handle_write_path : List (ℕ × Bytes) → State Server Unit
  handle_write_path entries = do
    initialized ← (λ s. (validate_initialized s, s))
    height ← gets (λ s. s.tree_height)
    check (length entries == height + 1) invalid_argument
    write_buckets entries
    modify (count_stats (λ t. record t { write_path_requests = t.write_path_requests + 1 }))
