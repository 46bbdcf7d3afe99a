-- ===== src/Ring/Format/RoundTrip.antt =====
-- Reading back what RingBucket.cpp wrote.
use unified_oramhub.Base.{
  ℕ, ◌<◌, ◌≡◌, sym, List, [], ◌++◌, Bool, append-nil, Result, ok, ◌>>=◌, arith, length,
}
use unified_oramhub.Core.Memory.{Bytes, u64_mod}
use unified_oramhub.Ring.{RingBlock, EncryptedField, EncryptedRingBucket, RingBucketMetadata}
use unified_oramhub.Ring.Format.{
  whole, append_fields, read_u64, read_bool_vector, read_fields, read_all, append_ring_block,
  read_ring_block_payload, deserialize_ring_block, serialize_ring_blocks, read_ring_blocks,
  deserialize_ring_blocks, serialize_ring_bucket_metadata, read_metadata,
  deserialize_ring_bucket_metadata, serialize_encrypted_ring_bucket, read_bucket,
  deserialize_encrypted_ring_bucket,
}
use unified_oramhub.Ring.Format.Reads.{
  Reads, AllOk, RingBlockFits, Reads-then, Reads-last, read_u64-Reads, read_bool_vector-Reads,
  read_fields-Reads, read_ring_block-Reads, read_all_blocks-Reads,
}

whole-Reads {ℓ} :
    {A : Type ℓ} (reader : Bytes → ℕ → Result (A × ℕ)) (bytes : Bytes) (x : A)
    → Reads bytes (reader bytes) x bytes
    → whole reader bytes ≡ ok x
whole-Reads reader bytes x r = rw (r 0 [] (sym (append-nil bytes), omega arith)) (ground arith)

-- One to four vectors of fields in a row.
module _ {ℓ} {A : Type ℓ} (bytes : Bytes) where
  abbrev one : (List EncryptedField → A) → ℕ → Result (A × ℕ)
  one make offset = read_fields bytes offset >>= λ p. ok (make p.0, p.1)

  abbrev two : (List EncryptedField → List EncryptedField → A) → ℕ → Result (A × ℕ)
  two make offset = read_fields bytes offset >>= λ p. one (make p.0) p.1

  abbrev three :
      (List EncryptedField → List EncryptedField → List EncryptedField → A) → ℕ → Result (A × ℕ)
  three make offset = read_fields bytes offset >>= λ p. two (make p.0) p.1

  abbrev four :
      (List EncryptedField → List EncryptedField → List EncryptedField → List EncryptedField → A)
      → ℕ
      → Result (A × ℕ)
  four make offset = read_fields bytes offset >>= λ p. three (make p.0) p.1

  module _ (small : length bytes < u64_mod) (a b c : List EncryptedField)
      (a_fits : length a < u64_mod) (b_fits : length b < u64_mod)
      (c_fits : length c < u64_mod) where
    three-Reads :
        (make : List EncryptedField → List EncryptedField → List EncryptedField → A)
        → Reads bytes
            (three make)
            (make a b c)
            (append_fields a ++ (append_fields b ++ append_fields c))
    three-Reads make =
        Reads-then bytes (read_fields bytes) (λ x. two (make x)) a _ _ _
          (read_fields-Reads bytes small a a_fits)
          (Reads-then bytes (read_fields bytes) (λ x. one (make a x)) b _ _ _
            (read_fields-Reads bytes small b b_fits)
            (Reads-last bytes (read_fields bytes) (make a b) c _
              (read_fields-Reads bytes small c c_fits)))

-- What fits the fields of the format. The vectors of a C++ program always do.
pub record MetadataFits (m : RingBucketMetadata) : Type 0 where
  pub count_fits : m.count < u64_mod
  pub addrs_fit : length m.addrs < u64_mod
  pub leaves_fit : length m.leaves < u64_mod
  pub ptrs_fit : length m.ptrs < u64_mod
  pub size_fits : length (serialize_ring_bucket_metadata m) < u64_mod

pub record RingBucketFits (b : EncryptedRingBucket) : Type 0 where
  pub count_fits : b.count < u64_mod
  pub addrs_fit : length b.addrs < u64_mod
  pub leaves_fit : length b.leaves < u64_mod
  pub ptrs_fit : length b.ptrs < u64_mod
  pub slots_fit : length b.slots < u64_mod
  pub size_fits : length (serialize_encrypted_ring_bucket b) < u64_mod

metadata-Reads :
    (bytes : Bytes)
    → length bytes < u64_mod
    → (m : RingBucketMetadata) → MetadataFits m
    → Reads bytes (read_metadata bytes) m (serialize_ring_bucket_metadata m)
unfolding read_metadata serialize_ring_bucket_metadata
metadata-Reads bytes small m f =
    Reads-then bytes (read_u64 bytes)
      (λ c offset. read_bool_vector bytes offset >>= λ p. three bytes (make c p.0) p.1) m.count m _
      _ (read_u64-Reads bytes small m.count f.count_fits)
      (Reads-then bytes (read_bool_vector bytes) (λ v. three bytes (make m.count v)) m.valids m _ _
        (read_bool_vector-Reads bytes small m.valids)
        (three-Reads bytes small m.addrs m.leaves m.ptrs f.addrs_fit f.leaves_fit f.ptrs_fit
          (make m.count m.valids)))
  where
    make :
        ℕ
        → List Bool
        → List EncryptedField
        → List EncryptedField
        → List EncryptedField
        → RingBucketMetadata
    make c v a l p = record { count = c; valids = v; addrs = a; leaves = l; ptrs = p }

bucket-Reads :
    (bytes : Bytes)
    → length bytes < u64_mod
    → (b : EncryptedRingBucket) → RingBucketFits b
    → Reads bytes (read_bucket bytes) b (serialize_encrypted_ring_bucket b)
unfolding read_bucket serialize_encrypted_ring_bucket
bucket-Reads bytes small b f =
    Reads-then bytes (read_u64 bytes)
      (λ c offset. read_bool_vector bytes offset >>= λ p. four bytes (make c p.0) p.1) b.count b _ _
      (read_u64-Reads bytes small b.count f.count_fits)
      (Reads-then bytes (read_bool_vector bytes) (λ v. four bytes (make b.count v)) b.valids b _ _
        (read_bool_vector-Reads bytes small b.valids)
        (Reads-then bytes (read_fields bytes) (λ a. three bytes (make b.count b.valids a)) b.addrs b
          _ _ (read_fields-Reads bytes small b.addrs f.addrs_fit)
          (three-Reads bytes small b.leaves b.ptrs b.slots f.leaves_fit f.ptrs_fit f.slots_fit
            (make b.count b.valids b.addrs))))
  where
    make :
        ℕ
        → List Bool
        → List EncryptedField
        → List EncryptedField
        → List EncryptedField
        → List EncryptedField
        → EncryptedRingBucket
    make c v a l p s = record { count = c; valids = v; addrs = a; leaves = l; ptrs = p; slots = s }

-- Metadata whose sizes fit the format are read back from their own bytes, with no bytes left
-- over.
pub deserialize-serialize_ring_bucket_metadata :
    (m : RingBucketMetadata)
    → MetadataFits m
    → deserialize_ring_bucket_metadata (serialize_ring_bucket_metadata m) ≡ ok m
unfolding deserialize_ring_bucket_metadata
deserialize-serialize_ring_bucket_metadata m f =
    whole-Reads read_metadata (serialize_ring_bucket_metadata m) m
      (metadata-Reads (serialize_ring_bucket_metadata m) f.size_fits m f)

-- An encrypted bucket whose sizes fit the format is read back from its own bytes, with no bytes
-- left over.
pub deserialize-serialize_encrypted_ring_bucket :
    (b : EncryptedRingBucket)
    → RingBucketFits b
    → deserialize_encrypted_ring_bucket (serialize_encrypted_ring_bucket b) ≡ ok b
unfolding deserialize_encrypted_ring_bucket
deserialize-serialize_encrypted_ring_bucket b f =
    whole-Reads read_bucket (serialize_encrypted_ring_bucket b) b
      (bucket-Reads (serialize_encrypted_ring_bucket b) f.size_fits b f)

-- The blocks of a stash are read back from their own bytes.
pub deserialize-serialize_ring_blocks :
    (bs : List RingBlock)
    → AllOk RingBlockFits bs
    → length bs < u64_mod
    → length (serialize_ring_blocks bs) < u64_mod
    → deserialize_ring_blocks (serialize_ring_blocks bs) ≡ ok bs
unfolding deserialize_ring_blocks
deserialize-serialize_ring_blocks bs good few small =
    whole-Reads read_ring_blocks (serialize_ring_blocks bs) bs (
      unfold read_ring_blocks serialize_ring_blocks in
      Reads-then (serialize_ring_blocks bs) (read_u64 (serialize_ring_blocks bs))
        (read_all (read_ring_block_payload (serialize_ring_blocks bs))) (length bs) bs _ _
        (read_u64-Reads (serialize_ring_blocks bs) small (length bs) few)
        (read_all_blocks-Reads (serialize_ring_blocks bs) small bs good))

-- A block is read back from its own bytes.
pub deserialize-append_ring_block :
    (b : RingBlock)
    → RingBlockFits b
    → length (append_ring_block b) < u64_mod
    → deserialize_ring_block (append_ring_block b) ≡ ok b
unfolding deserialize_ring_block
deserialize-append_ring_block b fits small =
    whole-Reads read_ring_block_payload (append_ring_block b) b
      (read_ring_block-Reads (append_ring_block b) small b fits)
