-- ===== src/Crypto.antt =====
-- include/oram/crypto and src/crypto/AES_CTR.cpp. OpenSSL's calls are a parameter.
pub mod Counter
use mathlib.Core.List.{reverse}
use unified_oramhub.Base.{
  ℕ, zero, suc, ◌+◌, ◌-◌, ◌/◌, ◌%◌, ◌^◌, ◌≤◌, ◌<◌, ◌≡◌, refl, ◌∙◌, List, [], ◌∷◌, ◌++◌, append-nil,
  Bool, true, Option, some, ◌==◌, if◌then◌else◌, Result, ok, err, invalid_argument, runtime_error,
  guard, or_fail, ◌>>=◌, ◌>>◌, arith, length, take, drop, replicate, ◌||◌, eq→==, length-take_le,
  drop-replicate, take_all,
}
use unified_oramhub.Core.Memory.{Bytes}

abbrev pub iv_size : ℕ
iv_size = 16

-- A `static_cast<int>` keeps the low 32 bits, and gives a negative number from this one on.
abbrev pub int_limit : ℕ
int_limit = 2147483648

abbrev pub u32_mod : ℕ
u32_mod = 4294967296

-- OpenSSL's calls of AES-256 in CTR mode under the object's key: whether EVP_EncryptInit_ex and
-- EVP_EncryptFinal_ex succeed, and what EVP_EncryptUpdate writes when it succeeds. The number
-- that the last one takes is the bit pattern of its `int`. `run` is the cipher as OpenSSL
-- documents it: it XORs the input with a key stream that depends on the vector alone. Nothing is
-- known of a call with a negative number.
pub record CtrCipher : Type 0 where
  pub run : Bytes → Bytes → Bytes
  pub encrypt_init : Bytes → Bool
  pub encrypt_update : Bytes → Bytes → ℕ → Option Bytes
  pub encrypt_final : Bytes → Bool
  pub run_twice : (iv input : Bytes) → run iv (run iv input) ≡ input
  pub length-run : (iv input : Bytes) → length (run iv input) ≡ length input
  pub init_ok : (iv : Bytes) → length iv ≡ iv_size → encrypt_init iv ≡ true
  pub update_ok :
      (iv input : Bytes) (n : ℕ)
      → length iv ≡ iv_size
      → n ≤ length input
      → n < int_limit
      → encrypt_update iv input n ≡ some (run iv (take n input))
  pub final_ok : (iv : Bytes) → length iv ≡ iv_size → encrypt_final iv ≡ true

module _ (cipher : CtrCipher) where
  -- `CipherOperation` on a buffer: the length is cast to `int`, and the bytes that the cipher does
  -- not write stay.
  unfoldable pub cipher_operation : Bytes → Bytes → Bytes → Result Bytes
  cipher_operation output input iv = do
    guard (cipher.encrypt_init iv) runtime_error
    written ← or_fail (cipher.encrypt_update iv input (length input % u32_mod)) runtime_error
    guard (cipher.encrypt_final iv) runtime_error
    ok (written ++ drop (length written) output)

  -- `Encrypt`: the buffer is a new vector of the plaintext's size.
  unfoldable pub encrypt : Bytes → Bytes → Result Bytes
  encrypt plaintext iv = do
    guard (length iv == iv_size) invalid_argument
    cipher_operation (replicate (length plaintext) 0) plaintext iv

  -- `Decrypt`: the same operation.
  unfoldable pub decrypt : Bytes → Bytes → Result Bytes
  decrypt ciphertext iv = encrypt ciphertext iv

  -- Encrypt of n bytes under a vector of 16 bytes, when the low 32 bits of n are not negative
  -- as an int, returns n bytes of which only the first n % 2 ^ 32 are the cipher's output, and
  -- the others are zeros.
  pub encrypt_lem :
      (plaintext iv : Bytes)
      → length iv ≡ iv_size
      → length plaintext % u32_mod < int_limit
      → encrypt plaintext iv
        ≡ ok (
            cipher.run iv (take (length plaintext % u32_mod) plaintext)
            ++ replicate (length plaintext - length plaintext % u32_mod) 0)
  unfolding encrypt cipher_operation
  encrypt_lem plaintext iv len small =
      let n : ℕ = length plaintext % u32_mod in
      let n_le : n ≤ length plaintext = omega arith in
      let wrote : length (cipher.run iv (take n plaintext)) ≡ n =
        cipher.length-run iv (take n plaintext) ∙ length-take_le n plaintext n_le in
      rw
        (
          eq→== _ _ len,
          cipher.init_ok iv len,
          cipher.update_ok iv plaintext n len n_le small,
          cipher.final_ok iv len,
          wrote,
          drop-replicate {A = ℕ} n (length plaintext) 0,
        )
        refl

  -- Below 2 ^ 31 bytes all of them are encrypted.
  pub encrypt-run :
      (plaintext iv : Bytes)
      → length iv ≡ iv_size
      → length plaintext < int_limit
      → encrypt plaintext iv ≡ ok (cipher.run iv plaintext)
  encrypt-run plaintext iv len small =
      let same : length plaintext % u32_mod ≡ length plaintext = omega arith in
      let none_left : length plaintext - length plaintext ≡ 0 = omega arith in
      rw
        (
          encrypt_lem plaintext iv len (omega arith),
          same,
          take_all plaintext,
          none_left,
          append-nil (cipher.run iv plaintext),
        )
        refl

-- `IncrementCounter`: the vector's bytes from the last one backwards, with the carry in
-- `increment`, a `size_t`. The loop stops when nothing is left to add.
unfoldable pub increment_loop : Bytes → ℕ → Bytes
increment_loop [] increment = []
increment_loop (b ∷ bs) increment =
    let sum = b + increment % 256 in
    let rest = increment_loop bs (increment / 256 + sum / 256) in
    if increment == 0 then b ∷ bs else (sum % 256) ∷ rest

unfoldable pub increment_counter : Bytes → ℕ → Bytes
increment_counter iv increment = reverse (increment_loop (reverse iv) increment)
