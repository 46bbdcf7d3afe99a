-- ===== src/Core/Memory.antt =====
-- Byte strings: a `uint64_t` is copied to and from memory by memcpy, little-endian, 8 bytes.
use unified_oramhub.Base.{
  ℕ, zero, suc, ◌+◌, ◌*◌, ◌/◌, ◌%◌, ◌^◌, ◌≤◌, ◌<◌, ◌≡◌, refl, ap, List, [], ◌∷◌, ◌++◌, Result, ok,
  undefined, guard, ◌>>◌, arith, length, take, drop, leb, take-length-append, drop-length-append,
  length-drop, drop-drop, length-append,
}

abbrev pub Bytes : Type 0
Bytes = List ℕ

abbrev pub u64_mod : ℕ
u64_mod = 18446744073709551616

unfoldable pub le_bytes : ℕ → ℕ → Bytes
le_bytes zero v = []
le_bytes (suc w) v = (v % 256) ∷ le_bytes w (v / 256)

unfoldable pub le_value : Bytes → ℕ
le_value [] = 0
le_value (b ∷ bs) = b + 256 * le_value bs

-- The 8 bytes of a `uint64_t` in memory.
abbrev pub u64_bytes : ℕ → Bytes
u64_bytes v = le_bytes 8 v

-- `memcpy(&value, data + offset, 8)`: to read past the end is undefined.
unfoldable pub load_u64 : Bytes → ℕ → Result (ℕ × ℕ)
load_u64 bytes offset = do
  guard (leb (offset + 8) (length bytes)) undefined
  ok (le_value (take 8 (drop offset bytes)), offset + 8)

-- `vector(data + offset, data + offset + size)`.
unfoldable pub load_bytes : Bytes → ℕ → ℕ → Result (Bytes × ℕ)
load_bytes bytes offset size = do
  guard (leb (offset + size) (length bytes)) undefined
  ok (take size (drop offset bytes), offset + size)

pub length-le_bytes : (w v : ℕ) → length (le_bytes w v) ≡ w
unfolding le_bytes
length-le_bytes zero v = refl
length-le_bytes (suc w) v = ap suc (length-le_bytes w (v / 256))

-- The value comes back when it fits the width.
pub le_value-le_bytes : (w v : ℕ) → v < 256 ^ w → le_value (le_bytes w v) ≡ v
unfolding le_bytes le_value
le_value-le_bytes zero v h = omega arith
le_value-le_bytes (suc w) v h = omega (arith, le_value-le_bytes w (v / 256) (omega arith))

pub le_value-u64_bytes : (v : ℕ) → v < u64_mod → le_value (u64_bytes v) ≡ v
le_value-u64_bytes v h = le_value-le_bytes 8 v h

-- What stands at an offset: the bytes from there on begin with `chunk`.
abbrev pub At : Bytes → ℕ → Bytes → Type 0
At bytes offset rest = (drop offset bytes ≡ rest) × (offset ≤ length bytes)

pub At-length :
    (bytes : Bytes) (offset : ℕ) (chunk rest : Bytes)
    → At bytes offset (chunk ++ rest)
    → offset + length chunk ≤ length bytes
At-length bytes offset chunk rest h =
    omega (arith, ap length h.0, length-drop offset bytes, length-append chunk rest)

pub At-next :
    (bytes : Bytes) (offset n : ℕ) (chunk rest : Bytes)
    → length chunk ≡ n
    → At bytes offset (chunk ++ rest)
    → At bytes (offset + n) rest
At-next bytes offset n chunk rest e h = (
  rw (← drop-drop offset n bytes, h.0) (drop-length-append n chunk rest e),
  omega (arith, At-length bytes offset chunk rest h),
)

pub load_u64-At :
    (bytes : Bytes) (offset v : ℕ) (rest : Bytes)
    → v < u64_mod
    → At bytes offset (u64_bytes v ++ rest)
    → load_u64 bytes offset ≡ ok (v, offset + 8)
unfolding load_u64
load_u64-At bytes offset v rest small h =
    rw
      (
        h.0,
        take-length-append 8 (u64_bytes v) rest (length-le_bytes 8 v),
        le_value-u64_bytes v small,
      )
      (ground (arith, At-length bytes offset (u64_bytes v) rest h, length-le_bytes 8 v))

pub load_bytes-At :
    (bytes : Bytes) (offset n : ℕ) (chunk rest : Bytes)
    → length chunk ≡ n
    → At bytes offset (chunk ++ rest)
    → load_bytes bytes offset n ≡ ok (chunk, offset + n)
unfolding load_bytes
load_bytes-At bytes offset n chunk rest e h =
    rw (h.0, take-length-append n chunk rest e)
      (ground (arith, At-length bytes offset chunk rest h))
