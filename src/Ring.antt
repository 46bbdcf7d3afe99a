-- ===== src/Ring.antt =====
-- include/oram/ring_oram: the data of Ring ORAM. A bucket has `z` entries for real blocks, each with
-- a pointer to one of its `z + s` slots.
pub mod Format
pub mod Storage
pub mod Xor
pub mod Server
pub mod Bucket
pub mod Fetch
pub mod Stash
pub mod Read
use unified_oramhub.Base.{ℕ, ◌+◌, List, Bool, length, replicate, ◌==◌}
use unified_oramhub.Core.Memory.{Bytes}

-- `std::numeric_limits<uint64_t>::max()`.
abbrev pub dummy_address : ℕ
dummy_address = 18446744073709551615

pub record RingBlock : Type 0 where
  pub addr : ℕ
  pub leaf : ℕ
  pub bytes : Bytes

abbrev pub is_dummy : RingBlock → Bool
is_dummy b = b.addr == dummy_address

abbrev pub dummy_block : ℕ → RingBlock
dummy_block block_size = record { addr = dummy_address; leaf = 0; bytes = replicate block_size 0 }

pub record EncryptedField : Type 0 where
  pub iv : Bytes
  pub ciphertext : Bytes

pub record EncryptedRingBucket : Type 0 where
  pub count : ℕ
  pub valids : List Bool
  pub addrs : List EncryptedField
  pub leaves : List EncryptedField
  pub ptrs : List EncryptedField
  pub slots : List EncryptedField

pub record RingBucketMetadata : Type 0 where
  pub count : ℕ
  pub valids : List Bool
  pub addrs : List EncryptedField
  pub leaves : List EncryptedField
  pub ptrs : List EncryptedField

pub record RuntimeConfig : Type 0 where
  pub num_blocks : ℕ
  pub tree_depth : ℕ
  pub z : ℕ
  pub s : ℕ
  pub a : ℕ
  pub block_size : ℕ

abbrev pub bucket_slots : RuntimeConfig → ℕ
bucket_slots config = config.z + config.s
