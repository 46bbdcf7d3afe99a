-- ===== src/Onion/Adapter.antt =====
-- TFHEAdapter.cpp: blocks and bits as ciphertexts. The classes RLWECiphertext and RGSWCiphertext own
-- a sample each and are the samples here.
pub mod RoundTrip
use unified_oramhub.Base.{
  ℕ, zero, suc, ◌-◌, ◌%◌, List, [], ◌∷◌, ◌++◌, map, Bool, true, false, not, Result, ok, err,
  invalid_argument, runtime_error, undefined, guard, ◌>>=◌, ◌>>◌, length, replicate, leb, ◌==◌,
  if◌then◌else◌,
}
use unified_oramhub.Core.Memory.{Bytes}
use unified_oramhub.Onion.Tfhe.{Tfhe}

-- Which keys are there (`!= nullptr`).
pub record TfheContext : Type 0 where
  pub tlwe_key : Bool
  pub tgsw_key : Bool

abbrev pub client_context : TfheContext
client_context = record { tlwe_key = true; tgsw_key = true }

abbrev pub server_context : TfheContext
server_context = record { tlwe_key = false; tgsw_key = false }

module _ (tfhe : Tfhe) where
  unfoldable pub encode_block : Bytes → Result (List ℕ)
  encode_block block = do
    guard (leb (length block) tfhe.dimension) invalid_argument
    ok (map tfhe.mod_switch_to_torus32 block ++ replicate (tfhe.dimension - length block) 0)

  unfoldable pub decode_block : List ℕ → ℕ → Result Bytes
  decode_block coefs zero = ok []
  decode_block [] (suc block_size) = err undefined
  decode_block (c ∷ coefs) (suc block_size) = do
    rest ← decode_block coefs block_size
    ok ((tfhe.mod_switch_from_torus32 c % 256) ∷ rest)

  unfoldable pub encrypt_block : Bytes → TfheContext → ℕ → Result tfhe.Rlwe
  encrypt_block block ctx noise = do
    guard ctx.tlwe_key runtime_error
    poly ← encode_block block
    ok (tfhe.sym_encrypt poly noise)

  unfoldable pub decrypt_block : tfhe.Rlwe → TfheContext → ℕ → Result Bytes
  decrypt_block ciphertext ctx block_size = do
    guard ctx.tlwe_key runtime_error
    guard (leb block_size tfhe.dimension) invalid_argument
    decode_block (tfhe.sym_decrypt ciphertext) block_size

  unfoldable pub encrypt_bit : Bool → TfheContext → ℕ → Result tfhe.Rgsw
  encrypt_bit bit ctx noise = do
    guard ctx.tgsw_key runtime_error
    ok (tfhe.sym_encrypt_int (if bit then 1 else 0) noise)

  unfoldable pub decrypt_bit : tfhe.Rgsw → TfheContext → Result Bool
  decrypt_bit ciphertext ctx = do
    guard ctx.tgsw_key runtime_error
    ok (not (tfhe.sym_decrypt_int ciphertext == 0))
