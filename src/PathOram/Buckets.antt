-- ===== src/PathOram/Buckets.antt =====
-- path_oram/Config.h, and what client and server do alike to buckets: padding with dummies,
-- EncryptBucket and DecryptBucket.
use unified_oramhub.Base.{
  ℕ, zero, suc, ◌+◌, ◌≤◌, ◌<◌, ◌≡◌, refl, true, List, [], ◌∷◌, ◌++◌, Result, ok, ◌>>=◌, ◌>>◌, guard,
  runtime_error, arith, length, take, drop, ltb, leb, if◌then◌else◌, take-length-append,
  drop-length-append, length-append,
}
use unified_oramhub.Core.Memory.{Bytes, u64_mod}
use unified_oramhub.Core.{Block, Bucket, get_block_count, add_block}
use unified_oramhub.Core.Serializer.{serialize_bucket, deserialize_bucket, BucketFits}
use unified_oramhub.Core.Serializer.RoundTrip.{deserialize-serialize_bucket}
use unified_oramhub.Core.Serializer.Sizes.{length-serialize_bucket}
use unified_oramhub.Crypto.{CtrCipher, iv_size, int_limit, encrypt, decrypt, encrypt-run}

abbrev pub bucket_size : ℕ
bucket_size = 4

abbrev pub block_size : ℕ
block_size = 256

-- Four blocks with data of less than this many bytes are less than 2 ^ 31 bytes in the format.
abbrev pub data_limit : ℕ
data_limit = 536870893

-- `~0ULL`.
abbrev pub dummy_id : ℕ
dummy_id = 18446744073709551615

-- `while (bucket.GetBlockCount() < kBucketSize)`: `kBucketSize` rounds are enough. The data of a
-- dummy is the argument, by its slot: zeros in the client, random bytes in the server.
unfoldable pub fill_loop : ℕ → (ℕ → Bytes) → Bucket → Bucket
fill_loop zero filler bucket = bucket
fill_loop (suc fuel) filler bucket =
    let dummy : Block = record { id = dummy_id; bytes = filler (get_block_count bucket) } in
    let rest = fill_loop fuel filler (add_block bucket dummy).0 in
    if ltb (get_block_count bucket) bucket_size then rest else bucket

unfoldable pub fill_bucket_with_dummies : (ℕ → Bytes) → Bucket → Bucket
fill_bucket_with_dummies = fill_loop bucket_size

module _ (cipher : CtrCipher) where
  -- `EncryptBucket`; `iv` is what `GenerateIV` returned.
  unfoldable pub encrypt_bucket : Bucket → Bytes → Result Bytes
  encrypt_bucket bucket iv = do
    ciphertext ← encrypt cipher (serialize_bucket bucket) iv
    ok (iv ++ ciphertext)

  unfoldable pub decrypt_bucket : Bytes → Result Bucket
  decrypt_bucket encrypted = do
    guard (leb iv_size (length encrypted)) runtime_error
    plaintext ← decrypt cipher (drop iv_size encrypted) (take iv_size encrypted)
    deserialize_bucket plaintext bucket_size

  -- The client's loop over the replies to a path read.
  unfoldable pub decrypt_all : List Bytes → Result (List Bucket)
  decrypt_all [] = ok []
  decrypt_all (e ∷ es) = do bucket ← decrypt_bucket e; later ← decrypt_all es; ok (bucket ∷ later)

  -- The client's loop over the path and its buckets; `i` counts the vectors drawn.
  unfoldable pub encrypt_entries :
      List ℕ → List Bucket → (ℕ → Bytes) → ℕ → Result (List (ℕ × Bytes))
  encrypt_entries [] buckets ivs i = ok []
  encrypt_entries (idx ∷ path) [] ivs i = ok []
  encrypt_entries (idx ∷ path) (b ∷ bs) ivs i = do
    encrypted ← encrypt_bucket b (ivs i)
    later ← encrypt_entries path bs ivs (i + 1)
    ok ((idx, encrypted) ∷ later)

  -- EncryptBucket of a bucket that fits the format and whose bytes are less than 2 ^ 31, under
  -- a vector of 16 bytes, succeeds with the vector followed by the ciphertext, and
  -- DecryptBucket reads the bucket back.
  pub decrypt-encrypt_bucket :
      {limit : ℕ} (bucket : Bucket) (iv : Bytes)
      → limit ≤ u64_mod
      → BucketFits limit bucket_size bucket
      → length (serialize_bucket bucket) < int_limit
      → length iv ≡ iv_size
      → (encrypt_bucket bucket iv ≡ ok (iv ++ cipher.run iv (serialize_bucket bucket)))
        × (decrypt_bucket (iv ++ cipher.run iv (serialize_bucket bucket)) ≡ ok bucket)
  unfolding encrypt_bucket decrypt_bucket decrypt
  decrypt-encrypt_bucket bucket iv below fits small len =
      let sealed : Bytes = cipher.run iv (serialize_bucket bucket) in
      let sealed_small : length sealed < int_limit =
        omega (arith, small, cipher.length-run iv (serialize_bucket bucket)) in
      let long : leb iv_size (length (iv ++ sealed)) ≡ true =
        ground (arith, len, length-append iv sealed) in
      (
        rw (encrypt-run cipher (serialize_bucket bucket) iv len small) refl,
        rw
            (
              long,
              drop-length-append iv_size iv sealed len,
              take-length-append iv_size iv sealed len,
              encrypt-run cipher sealed iv len sealed_small,
              cipher.run_twice iv (serialize_bucket bucket),
              deserialize-serialize_bucket bucket_size bucket below fits,
            )
            refl,
      )

  -- A bucket whose data is below the limit is one of these.
  pub data_limit-encrypt_bucket :
      (bucket : Bucket) (iv : Bytes)
      → BucketFits data_limit bucket_size bucket
      → length iv ≡ iv_size
      → (encrypt_bucket bucket iv ≡ ok (iv ++ cipher.run iv (serialize_bucket bucket)))
        × (decrypt_bucket (iv ++ cipher.run iv (serialize_bucket bucket)) ≡ ok bucket)
  data_limit-encrypt_bucket bucket iv fits len =
      decrypt-encrypt_bucket bucket iv (omega arith) fits
        (omega (arith, length-serialize_bucket bucket_size bucket fits)) len
