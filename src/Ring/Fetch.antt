-- ===== src/Ring/Fetch.antt =====
-- RingORAMClient::FetchXorPath after the server's reply: one block is unmasked from the XOR of the
-- path's slots, by the ciphertexts of zeros that all the other slots hold.
pub mod Unmask
use unified_oramhub.Base.{
  ℕ, zero, suc, ◌+◌, List, [], ◌∷◌, ◌++◌, Bool, true, false, Option, none, some, Result, ok, err,
  invalid_argument, runtime_error, undefined, guard, or_fail, ◌>>=◌, ◌>>◌, length, replicate, ◌==◌,
}
use unified_oramhub.Core.Memory.{Bytes}
use unified_oramhub.Crypto.{CtrCipher, encrypt, decrypt}
use unified_oramhub.Ring.Xor.{xor_into}

module _ (cipher : CtrCipher) where
  -- The loop over the flags: the vector of the target found so far, and the bytes unmasked so far.
  unfoldable pub unmask :
      ℕ → List Bool → List Bytes → Option Bytes → Bytes → Result (Option Bytes × Bytes)
  unmask block_size [] ivs found unmasked = ok (found, unmasked)
  unmask block_size (flag ∷ flags) [] found unmasked = err undefined
  unmask block_size (true ∷ flags) (iv ∷ ivs) (some target_iv) unmasked = err runtime_error
  unmask block_size (true ∷ flags) (iv ∷ ivs) none unmasked =
      unmask block_size flags ivs (some iv) unmasked
  unmask block_size (false ∷ flags) (iv ∷ ivs) found unmasked = do
    dummy_ciphertext ← encrypt cipher (replicate block_size 0) iv
    unmasked' ← xor_into unmasked dummy_ciphertext
    unmask block_size flags ivs found unmasked'

  unfoldable pub decrypt_target : Option Bytes × Bytes → Result (Option Bytes)
  decrypt_target (none, unmasked) = ok none
  decrypt_target (some iv, unmasked) = do content ← decrypt cipher unmasked iv; ok (some content)

  -- `offset_count` is the number of offsets that were sent.
  unfoldable pub fetch_xor_path : ℕ → ℕ → List Bool → Bytes → List Bytes → Result (Option Bytes)
  fetch_xor_path block_size offset_count target_flags aggregate selected_ivs = do
    guard (offset_count == length target_flags) invalid_argument
    guard (length aggregate == block_size) runtime_error
    guard (length selected_ivs == offset_count) runtime_error
    result ← unmask block_size target_flags selected_ivs none aggregate
    decrypt_target result
