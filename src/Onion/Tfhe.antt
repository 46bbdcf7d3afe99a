-- ===== src/Onion/Tfhe.antt =====
-- The TFHE library (tfhe.h), a parameter: the calls of src/onion_ring, for one set of parameters and
-- the keys of one client.
use unified_oramhub.Base.{ℕ, ◌+◌, ◌-◌, ◌*◌, ◌%◌, ◌<◌, ◌≡◌, Bool, List, length, if◌then◌else◌, at}
use unified_oramhub.Core.Memory.{Bytes}
use unified_oramhub.Onion.Torus.{torus, unit, Close}

pub record Tfhe : Type 1 where
  -- TLweSample and TGswSample.
  pub Rlwe : Type 0
  pub Rgsw : Type 0
  -- `params->N`, the number of coefficients of a TorusPolynomial.
  pub dimension : ℕ
  -- tLweClear, tLweAddTo, tLweSubTo and tGswExternProduct, by their results.
  pub clear : Rlwe
  pub add_to : Rlwe → Rlwe → Rlwe
  pub sub_to : Rlwe → Rlwe → Rlwe
  pub extern_product : Rgsw → Rlwe → Rlwe
  -- tLweSymEncrypt and tGswSymEncryptInt; the second argument is the state of the library's
  -- generator of noise. tLweSymDecrypt with message size 256, the constant coefficient of
  -- tGswSymDecrypt with message size 2.
  pub sym_encrypt : List ℕ → ℕ → Rlwe
  pub sym_decrypt : Rlwe → List ℕ
  pub sym_encrypt_int : ℕ → ℕ → Rgsw
  pub sym_decrypt_int : Rgsw → ℕ
  -- modSwitchToTorus32 and modSwitchFromTorus32 with message size 256.
  pub mod_switch_to_torus32 : ℕ → ℕ
  pub mod_switch_from_torus32 : ℕ → ℕ
  -- export_tlweSample_toStream and import_tlweSample_fromStream, and the two for TGswSample.
  pub export_tlwe : Rlwe → Bytes
  pub import_tlwe : Bytes → Rlwe
  pub export_tgsw : Rgsw → Bytes
  pub import_tgsw : Bytes → Rgsw

-- Every coefficient is a message.
abbrev pub IsMessage : ℕ → Type 0
IsMessage t = (m : ℕ) × ((m < 256) × (t ≡ m * unit))

-- What the library documents, for noise that stays within its bounds. The phase of a sample is
-- what the key gives before it is rounded to a message; it is linear, and an external product has
-- the error `growth` in it.
pub record TfheLaws (tfhe : Tfhe) : Type 1 where
  pub phase : tfhe.Rlwe → ℕ → ℕ
  pub EncryptsBit : tfhe.Rgsw → Bool → Type 0
  pub fresh : ℕ
  pub growth : ℕ
  pub phase-lt : (c : tfhe.Rlwe) (i : ℕ) → phase c i < torus
  pub phase-clear : (i : ℕ) → phase tfhe.clear i ≡ 0
  pub phase-add_to :
      (c d : tfhe.Rlwe) (i : ℕ) → phase (tfhe.add_to c d) i ≡ (phase c i + phase d i) % torus
  pub phase-sub_to :
      (c d : tfhe.Rlwe) (i : ℕ)
      → phase (tfhe.sub_to c d) i ≡ (phase c i + (torus - phase d i)) % torus
  pub phase-extern_product :
      (g : tfhe.Rgsw) (bit : Bool) (c : tfhe.Rlwe) (i : ℕ)
      → EncryptsBit g bit
      → Close growth (phase (tfhe.extern_product g c) i) (if bit then phase c i else 0)
  pub phase-sym_encrypt :
      (poly : List ℕ) (noise i : ℕ)
      → length poly ≡ tfhe.dimension
      → i < tfhe.dimension
      → Close fresh (phase (tfhe.sym_encrypt poly noise) i) (at poly i)
  pub sym_decrypt_eq :
      (c : tfhe.Rlwe) (poly : List ℕ) (e : ℕ)
      → length poly ≡ tfhe.dimension
      → ((i : ℕ) → i < tfhe.dimension → IsMessage (at poly i) × Close e (phase c i) (at poly i))
      → 2 * e < unit
      → tfhe.sym_decrypt c ≡ poly
  pub sym_encrypt_int-EncryptsBit :
      (bit : Bool) (noise : ℕ) → EncryptsBit (tfhe.sym_encrypt_int (if bit then 1 else 0) noise) bit
  pub sym_decrypt_int_eq :
      (g : tfhe.Rgsw) (bit : Bool)
      → EncryptsBit g bit
      → tfhe.sym_decrypt_int g ≡ (if bit then 1 else 0)
  pub mod_switch_to : (m : ℕ) → m < 256 → tfhe.mod_switch_to_torus32 m ≡ m * unit
  pub mod_switch_from : (m : ℕ) → m < 256 → tfhe.mod_switch_from_torus32 (m * unit) ≡ m
  pub import-export_tlwe : (c : tfhe.Rlwe) → tfhe.import_tlwe (tfhe.export_tlwe c) ≡ c
  pub import-export_tgsw : (g : tfhe.Rgsw) → tfhe.import_tgsw (tfhe.export_tgsw g) ≡ g
