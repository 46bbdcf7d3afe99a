-- ===== src/Ring/Format.antt =====
-- RingBucket.cpp: the wire format. `append_…` is what the function adds to its output; `read_…`
-- moves an offset through the bytes and throws at a truncated input. An offset never passes the
-- end of the bytes, so adding 8 to it does not wrap; adding a size that was read may.
pub mod Reads
pub mod RoundTrip
use unified_oramhub.Base.{
  ℕ, zero, suc, ◌+◌, ◌%◌, List, [], ◌∷◌, ◌++◌, map, Bool, true, false, not, Result, ok, err,
  invalid_argument, length_error, undefined, guard, ◌>>=◌, ◌>>◌, length, take, drop, ltb, leb, ◌==◌,
  if◌then◌else◌,
}
use unified_oramhub.Core.Memory.{Bytes, u64_mod, u64_bytes, le_value}
use unified_oramhub.Ring.{RingBlock, EncryptedField, EncryptedRingBucket, RingBucketMetadata}

unfoldable pub read_u64 : Bytes → ℕ → Result (ℕ × ℕ)
read_u64 bytes offset = do
  guard (leb (offset + 8) (length bytes)) invalid_argument
  ok (le_value (take 8 (drop offset bytes)), offset + 8)

unfoldable pub append_bytes : Bytes → Bytes
append_bytes bytes = u64_bytes (length bytes) ++ bytes

-- The test computes modulo 2 ^ 64. After a wrap the constructor would be given an end before its
-- beginning.
unfoldable pub read_bytes : Bytes → ℕ → Result (Bytes × ℕ)
read_bytes bytes start = do
  (size, offset) ← read_u64 bytes start
  guard (leb ((offset + size) % u64_mod) (length bytes)) invalid_argument
  guard (ltb (offset + size) u64_mod) undefined
  ok (take size (drop offset bytes), offset + size)

abbrev pub bool_byte : Bool → ℕ
bool_byte true = 1
bool_byte false = 0

abbrev pub byte_bool : ℕ → Bool
byte_bool b = not (b == 0)

unfoldable pub append_bool_vector : List Bool → Bytes
append_bool_vector values = u64_bytes (length values) ++ map bool_byte values

-- After a wrap of the test, the vector would have more than 2 ^ 63 elements, which its constructor
-- refuses.
unfoldable pub read_bool_vector : Bytes → ℕ → Result (List Bool × ℕ)
read_bool_vector bytes start = do
  (size, offset) ← read_u64 bytes start
  guard (leb ((offset + size) % u64_mod) (length bytes)) invalid_argument
  guard (ltb (offset + size) u64_mod) length_error
  ok (map byte_bool (take size (drop offset bytes)), offset + size)

unfoldable pub append_field : EncryptedField → Bytes
append_field field = append_bytes field.iv ++ append_bytes field.ciphertext

unfoldable pub read_field : Bytes → ℕ → Result (EncryptedField × ℕ)
read_field bytes offset = do
  (iv, offset₁) ← read_bytes bytes offset
  (ciphertext, offset₂) ← read_bytes bytes offset₁
  ok (record { iv = iv; ciphertext = ciphertext }, offset₂)

unfoldable pub append_all {ℓ} : {A : Type ℓ} → (A → Bytes) → List A → Bytes
append_all append [] = []
append_all append (x ∷ xs) = append x ++ append_all append xs

-- `for (i = 0; i < count; ++i) result.push_back(reader(bytes, offset))`.
unfoldable pub read_all {ℓ} : {A : Type ℓ} → (ℕ → Result (A × ℕ)) → ℕ → ℕ → Result (List A × ℕ)
read_all reader zero offset = ok ([], offset)
read_all reader (suc count) offset = do
  (x, offset') ← reader offset
  (xs, end) ← read_all reader count offset'
  ok (x ∷ xs, end)

unfoldable pub append_fields : List EncryptedField → Bytes
append_fields fields = u64_bytes (length fields) ++ append_all append_field fields

unfoldable pub read_fields : Bytes → ℕ → Result (List EncryptedField × ℕ)
read_fields bytes start = do
  (size, offset) ← read_u64 bytes start
  read_all (read_field bytes) size offset

unfoldable pub append_ring_block : RingBlock → Bytes
append_ring_block block = u64_bytes block.addr ++ (u64_bytes block.leaf ++ append_bytes block.bytes)

unfoldable pub read_ring_block_payload : Bytes → ℕ → Result (RingBlock × ℕ)
read_ring_block_payload bytes offset = do
  (addr, offset₁) ← read_u64 bytes offset
  (leaf, offset₂) ← read_u64 bytes offset₁
  (content, offset₃) ← read_bytes bytes offset₂
  ok (record { addr = addr; leaf = leaf; bytes = content }, offset₃)

-- A reader from the start, and the refusal of trailing bytes.
abbrev pub whole {ℓ} : {A : Type ℓ} → (Bytes → ℕ → Result (A × ℕ)) → Bytes → Result A
whole reader bytes = do
  (x, offset) ← reader bytes 0
  guard (offset == length bytes) invalid_argument
  ok x

unfoldable pub deserialize_ring_block : Bytes → Result RingBlock
deserialize_ring_block = whole read_ring_block_payload

unfoldable pub serialize_ring_blocks : List RingBlock → Bytes
serialize_ring_blocks blocks = u64_bytes (length blocks) ++ append_all append_ring_block blocks

unfoldable pub read_ring_blocks : Bytes → ℕ → Result (List RingBlock × ℕ)
read_ring_blocks bytes start = do
  (count, offset) ← read_u64 bytes start
  read_all (read_ring_block_payload bytes) count offset

unfoldable pub deserialize_ring_blocks : Bytes → Result (List RingBlock)
deserialize_ring_blocks = whole read_ring_blocks

unfoldable pub serialize_ring_bucket_metadata : RingBucketMetadata → Bytes
serialize_ring_bucket_metadata m =
    u64_bytes m.count
    ++ (append_bool_vector m.valids
        ++ (append_fields m.addrs ++ (append_fields m.leaves ++ append_fields m.ptrs)))

unfoldable pub read_metadata : Bytes → ℕ → Result (RingBucketMetadata × ℕ)
read_metadata bytes start = do
  (count, offset₁) ← read_u64 bytes start
  (valids, offset₂) ← read_bool_vector bytes offset₁
  (addrs, offset₃) ← read_fields bytes offset₂
  (leaves, offset₄) ← read_fields bytes offset₃
  (ptrs, offset₅) ← read_fields bytes offset₄
  ok (
    record { count = count; valids = valids; addrs = addrs; leaves = leaves; ptrs = ptrs },
    offset₅,
  )

unfoldable pub deserialize_ring_bucket_metadata : Bytes → Result RingBucketMetadata
deserialize_ring_bucket_metadata = whole read_metadata

unfoldable pub serialize_encrypted_ring_bucket : EncryptedRingBucket → Bytes
serialize_encrypted_ring_bucket b =
    u64_bytes b.count
    ++ (append_bool_vector b.valids
        ++ (append_fields b.addrs
            ++ (append_fields b.leaves ++ (append_fields b.ptrs ++ append_fields b.slots))))

unfoldable pub read_bucket : Bytes → ℕ → Result (EncryptedRingBucket × ℕ)
read_bucket bytes start = do
  (count, offset₁) ← read_u64 bytes start
  (valids, offset₂) ← read_bool_vector bytes offset₁
  (addrs, offset₃) ← read_fields bytes offset₂
  (leaves, offset₄) ← read_fields bytes offset₃
  (ptrs, offset₅) ← read_fields bytes offset₄
  (slots, offset₆) ← read_fields bytes offset₅
  ok (
    record {
      count = count;
      valids = valids;
      addrs = addrs;
      leaves = leaves;
      ptrs = ptrs;
      slots = slots;
    },
    offset₆,
  )

unfoldable pub deserialize_encrypted_ring_bucket : Bytes → Result EncryptedRingBucket
deserialize_encrypted_ring_bucket = whole read_bucket
