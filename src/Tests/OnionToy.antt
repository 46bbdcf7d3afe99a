-- ===== src/Tests/OnionToy.antt =====
-- A concrete library in place of TFHE: samples are numbers of the torus, with one coefficient, and a
-- fresh encryption is wrong by the lowest bit of the noise. Bits are not hidden.
use unified_oramhub.Base.{
  ℕ, zero, suc, ◌+◌, ◌-◌, ◌*◌, ◌/◌, ◌%◌, ◌<◌, ◌≡◌, refl, ◌⊎◌, inl, inr, List, [], ◌∷◌, Bool, true,
  false, ◌==◌, arith, length, if◌then◌else◌, at,
}
use unified_oramhub.Onion.Torus.{torus, unit, Close, Close-self, Close-weaken}
use unified_oramhub.Onion.Tfhe.{Tfhe, TfheLaws, IsMessage}

abbrev pub toy : Tfhe
toy = record {
  Rlwe = ℕ;
  Rgsw = Bool;
  dimension = 1;
  clear = 0;
  add_to = λ c d. (c + d) % torus;
  sub_to = λ c d. (c + (torus - d % torus)) % torus;
  extern_product = λ g c. if g then c else 0;
  sym_encrypt = λ poly noise. at poly 0 + noise % 2;
  sym_decrypt = λ c. ((c + 8388608) / unit % 256 * unit) ∷ [];
  sym_encrypt_int = λ n noise. n == 1;
  sym_decrypt_int = λ g. if g then 1 else 0;
  mod_switch_to_torus32 = λ m. m * unit;
  mod_switch_from_torus32 = λ t. t / unit % 256;
  export_tlwe = λ c. c ∷ [];
  import_tlwe = λ bytes. at bytes 0;
  export_tgsw = λ g. (if g then 1 else 0) ∷ [];
  import_tgsw = λ bytes. at bytes 0 == 1;
}

rounded :
    (c m e : ℕ)
    → m < 256
    → Close e (c % torus) (m * unit)
    → 2 * e < unit
    → (c + 8388608) / unit % 256 ≡ m
rounded c m e lt close small = omega (arith, close.1.1.0, close.1.1.1)

pub one_message :
    (c e : ℕ) (poly : List ℕ)
    → length poly ≡ 1
    → ((i : ℕ) → i < 1 → IsMessage (at poly i) × Close e (c % torus) (at poly i))
    → 2 * e < unit
    → toy.sym_decrypt c ≡ poly
one_message c e [] len h small = absurd (omega (arith, len))
one_message c e (p ∷ q ∷ poly) len h small = absurd (omega (arith, len))
one_message c e (p ∷ []) len h small =
    let here = h 0 (omega arith) in
    let m = here.0.0 in
    let close : Close e (c % torus) (m * unit) =
      (here.1.0, (here.1.1.0, (here.1.1.1.0, omega (arith, here.1.1.1.1, here.0.1.1)))) in
    let same : (c + 8388608) / unit % 256 * unit ≡ p =
      omega (arith, rounded c m e here.0.1.0 close small, here.0.1.1) in
    rw same refl

low_bit : (p noise : ℕ) → Close 1 ((p + noise % 2) % torus) p
low_bit p noise = elim (noise_cases noise) [
  | inl e ↦ (0, (0, (omega arith, omega (arith, e))))
  | inr e ↦ (0, (1, (omega arith, omega (arith, e))))
]
  where
    noise_cases : (n : ℕ) → (n % 2 ≡ 0) ⊎ (n % 2 ≡ 1)
    noise_cases n = ground arith

pub fresh_phase :
    (poly : List ℕ) (noise i : ℕ)
    → length poly ≡ 1
    → i < 1
    → Close 1 ((at poly 0 + noise % 2) % torus) (at poly i)
fresh_phase poly noise zero len lt = low_bit (at poly 0) noise
fresh_phase poly noise (suc i) len lt = absurd (omega (arith, lt))

pub product_phase :
    (g bit : Bool) (c : ℕ)
    → g ≡ bit
    → Close 1 ((if g then c else 0) % torus) (if bit then c % torus else 0)
product_phase true true c h = Close-weaken 0 1 _ _ (omega arith) (Close-self (c % torus))
product_phase true false c h = ground (arith, h)
product_phase false true c h = ground (arith, h)
product_phase false false c h = Close-weaken 0 1 _ _ (omega arith) (Close-self 0)

pub bit_encrypted : (bit : Bool) → ((if bit then 1 else 0) == 1) ≡ bit
bit_encrypted true = refl
bit_encrypted false = refl

pub bit_exported : (g : Bool) → (at ((if g then 1 else 0) ∷ []) 0 == 1) ≡ g
bit_exported true = refl
bit_exported false = refl

pub bit_decrypted : (g bit : Bool) → g ≡ bit → toy.sym_decrypt_int g ≡ (if bit then 1 else 0)
bit_decrypted g bit e = rw e refl

abbrev pub toy_laws : TfheLaws toy
toy_laws = record {
  phase = λ c i. c % torus;
  EncryptsBit = λ g bit. g ≡ bit;
  fresh = 1;
  growth = 1;
  phase-lt = λ c i. omega arith;
  phase-clear = λ i. refl;
  phase-add_to = λ c d i. omega arith;
  phase-sub_to = λ c d i. omega arith;
  phase-extern_product = λ g bit c i h. product_phase g bit c h;
  phase-sym_encrypt = fresh_phase;
  sym_decrypt_eq = λ c poly e len h small. one_message c e poly len h small;
  sym_encrypt_int-EncryptsBit = λ bit noise. bit_encrypted bit;
  sym_decrypt_int_eq = bit_decrypted;
  mod_switch_to = λ m lt. refl;
  mod_switch_from = λ m lt. omega arith;
  import-export_tlwe = λ c. refl;
  import-export_tgsw = bit_exported;
}
