-- ===== src/Onion/HomOps.antt =====
-- HomOps.cpp: what the server computes on ciphertexts.
use unified_oramhub.Base.{ℕ, Bool, if◌then◌else◌}
use unified_oramhub.Onion.Torus.{Close, Close-select}
use unified_oramhub.Onion.Tfhe.{Tfhe, TfheLaws}

module _ (tfhe : Tfhe) where
  unfoldable pub external_product : tfhe.Rgsw → tfhe.Rlwe → tfhe.Rlwe
  external_product rgsw rlwe = tfhe.extern_product rgsw rlwe

  -- `CMux`: control · (d1 - d0) + d0.
  unfoldable pub cmux : tfhe.Rgsw → tfhe.Rlwe → tfhe.Rlwe → tfhe.Rlwe
  cmux control d1 d0 = tfhe.add_to (tfhe.extern_product control (tfhe.sub_to d1 d0)) d0

module _ (tfhe : Tfhe) (laws : TfheLaws tfhe) where
  pub cmux_selects :
      (control : tfhe.Rgsw) (bit : Bool) (d1 d0 : tfhe.Rlwe) (i : ℕ)
      → laws.EncryptsBit control bit
      → Close laws.growth
          (laws.phase (cmux tfhe control d1 d0) i)
          (if bit then laws.phase d1 i else laws.phase d0 i)
  unfolding cmux
  cmux_selects control bit d1 d0 i h =
      rw (laws.phase-add_to (tfhe.extern_product control (tfhe.sub_to d1 d0)) d0 i) (
        Close-select laws.growth (laws.phase (tfhe.extern_product control (tfhe.sub_to d1 d0)) i)
          (laws.phase d1 i) (laws.phase d0 i) bit (laws.phase-lt d1 i) (laws.phase-lt d0 i)
          (rw (← laws.phase-sub_to d1 d0 i)
            (laws.phase-extern_product control bit (tfhe.sub_to d1 d0) i h)))
