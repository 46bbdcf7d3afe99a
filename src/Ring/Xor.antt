-- ===== src/Ring/Xor.antt =====
-- The XOR of bytes and of byte strings, as the client and the server of Ring ORAM use it.
use unified_oramhub.Base.{
  ℕ, zero, suc, ◌+◌, ◌*◌, ◌/◌, ◌%◌, ◌^◌, ◌<◌, ◌≡◌, refl, ap, [], ◌∷◌, Result, ok, invalid_argument,
  guard, ◌>>◌, arith, length, replicate, ◌==◌,
}
use unified_oramhub.Core.Memory.{Bytes}
use unified_oramhub.Crypto.Counter.{AreBytes}

-- `a ^ b` on the lowest `w` bits.
unfoldable pub xor_bits : ℕ → ℕ → ℕ → ℕ
xor_bits zero a b = 0
xor_bits (suc w) a b = (a % 2 + b % 2) % 2 + 2 * xor_bits w (a / 2) (b / 2)

abbrev pub xor_byte : ℕ → ℕ → ℕ
xor_byte = xor_bits 8

-- The loop over two vectors of the same size.
unfoldable pub xor_bytes : Bytes → Bytes → Bytes
xor_bytes [] ys = []
xor_bytes (x ∷ xs) [] = x ∷ xs
xor_bytes (x ∷ xs) (y ∷ ys) = xor_byte x y ∷ xor_bytes xs ys

-- `XorInto` with a target that is there, and `XorBuffers`.
unfoldable pub xor_into : Bytes → Bytes → Result Bytes
xor_into target source = do
  guard (length target == length source) invalid_argument
  ok (xor_bytes target source)

xor_bits_self : (w a b : ℕ) → a < 2 ^ w → xor_bits w (xor_bits w a b) b ≡ a
unfolding xor_bits
xor_bits_self zero a b h = omega arith
xor_bits_self (suc w) a b h =
    let half : ((a % 2 + b % 2) % 2 + 2 * xor_bits w (a / 2) (b / 2)) / 2
        ≡ xor_bits w (a / 2) (b / 2) =
      omega arith in
    rw half (omega (arith, xor_bits_self w (a / 2) (b / 2) (omega arith)))

xor_bits_assoc : (w a b c : ℕ) → xor_bits w (xor_bits w a b) c ≡ xor_bits w a (xor_bits w b c)
unfolding xor_bits
xor_bits_assoc zero a b c = refl
xor_bits_assoc (suc w) a b c =
    let left : ((a % 2 + b % 2) % 2 + 2 * xor_bits w (a / 2) (b / 2)) / 2
        ≡ xor_bits w (a / 2) (b / 2) =
      omega arith in
    let right : ((b % 2 + c % 2) % 2 + 2 * xor_bits w (b / 2) (c / 2)) / 2
        ≡ xor_bits w (b / 2) (c / 2) =
      omega arith in
    rw (left, right) (omega (arith, xor_bits_assoc w (a / 2) (b / 2) (c / 2)))

xor_bits_comm : (w a b : ℕ) → xor_bits w a b ≡ xor_bits w b a
unfolding xor_bits
xor_bits_comm zero a b = refl
xor_bits_comm (suc w) a b = omega (arith, xor_bits_comm w (a / 2) (b / 2))

pub length-xor_bytes : (xs ys : Bytes) → length (xor_bytes xs ys) ≡ length xs
unfolding xor_bytes
length-xor_bytes [] ys = refl
length-xor_bytes (x ∷ xs) [] = refl
length-xor_bytes (x ∷ xs) (y ∷ ys) = ap suc (length-xor_bytes xs ys)

-- To XOR the same bytes twice changes nothing.
pub xor_bytes_self :
    (xs ys : Bytes) → length xs ≡ length ys → AreBytes xs → xor_bytes (xor_bytes xs ys) ys ≡ xs
unfolding xor_bytes
xor_bytes_self [] ys e h = refl
xor_bytes_self (x ∷ xs) [] e h = refl
xor_bytes_self (x ∷ xs) (y ∷ ys) e h =
    rw (xor_bits_self 8 x y h.0, xor_bytes_self xs ys (omega arith) h.1)

pub xor_bytes-swap :
    (xs ys zs : Bytes)
    → length xs ≡ length ys
    → length xs ≡ length zs
    → xor_bytes (xor_bytes xs ys) zs ≡ xor_bytes (xor_bytes xs zs) ys
unfolding xor_bytes
xor_bytes-swap [] ys zs e f = refl
xor_bytes-swap (x ∷ xs) [] zs e f = absurd (omega arith)
xor_bytes-swap (x ∷ xs) (y ∷ ys) [] e f = absurd (omega arith)
xor_bytes-swap (x ∷ xs) (y ∷ ys) (z ∷ zs) e f = rw (
  xor_bytes-swap xs ys zs (omega arith) (omega arith),
  xor_bits_assoc 8 x y z,
  xor_bits_comm 8 y z,
  ← xor_bits_assoc 8 x z y,
)

xor_bits-lt : (w a b : ℕ) → xor_bits w a b < 2 ^ w
unfolding xor_bits
xor_bits-lt zero a b = omega arith
xor_bits-lt (suc w) a b = omega (arith, xor_bits-lt w (a / 2) (b / 2))

pub xor_bytes-AreBytes : (xs ys : Bytes) → AreBytes xs → AreBytes (xor_bytes xs ys)
unfolding xor_bytes
xor_bytes-AreBytes [] ys h = tt
xor_bytes-AreBytes (x ∷ xs) [] h = h
xor_bytes-AreBytes (x ∷ xs) (y ∷ ys) h = (xor_bits-lt 8 x y, xor_bytes-AreBytes xs ys h.1)

xor_bits-zero : (w b : ℕ) → b < 2 ^ w → xor_bits w 0 b ≡ b
unfolding xor_bits
xor_bits-zero zero b h = omega arith
xor_bits-zero (suc w) b h = omega (arith, xor_bits-zero w (b / 2) (omega arith))

pub zero_bytes-xor : (xs : Bytes) → AreBytes xs → xor_bytes (replicate (length xs) 0) xs ≡ xs
unfolding xor_bytes
zero_bytes-xor [] h = refl
zero_bytes-xor (x ∷ xs) h = rw (xor_bits-zero 8 x h.0, zero_bytes-xor xs h.1)

pub zeros-AreBytes : (n : ℕ) → AreBytes (replicate n 0)
zeros-AreBytes zero = tt
zeros-AreBytes (suc n) = (omega arith, zeros-AreBytes n)
