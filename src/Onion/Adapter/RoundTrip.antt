-- ===== src/Onion/Adapter/RoundTrip.antt =====
-- TFHEAdapter.cpp: what a ciphertext holds, and that EncryptBlock and DecryptBlock put it in and
-- take it out.
use unified_oramhub.Base.{
  ℕ, zero, suc, ◌-◌, ◌*◌, ◌%◌, ◌≤◌, ◌<◌, ◌≡◌, refl, ap, List, [], ◌∷◌, ◌++◌, map, Bool, true, false,
  ok, ◌>>=◌, arith, length, replicate, leb, at, length-append, length-replicate,
}
use unified_oramhub.Core.Memory.{Bytes}
use unified_oramhub.Onion.Torus.{unit, Close}
use unified_oramhub.Onion.Tfhe.{Tfhe, TfheLaws}
use unified_oramhub.Onion.Adapter.{
  client_context, encode_block, decode_block, encrypt_block, decrypt_block, encrypt_bit,
  decrypt_bit,
}

abbrev pub IsBytes : Bytes → Type 0
IsBytes block = (i : ℕ) → at block i < 256

abbrev padded : (ℕ → ℕ) → Bytes → ℕ → List ℕ
padded to block k = map to block ++ replicate k 0

length-map : (f : ℕ → ℕ) (xs : List ℕ) → length (map f xs) ≡ length xs
length-map f [] = refl
length-map f (x ∷ xs) = ap suc (length-map f xs)

pub at-replicate : (k i : ℕ) → at (replicate k 0) i ≡ 0
at-replicate zero i = refl
at-replicate (suc k) zero = refl
at-replicate (suc k) (suc i) = at-replicate k i

module _ (tfhe : Tfhe) (laws : TfheLaws tfhe) where
  -- The sample `c` is an encryption of `block` with noise up to `e`.
  abbrev pub Encrypts : ℕ → tfhe.Rlwe → Bytes → Type 0
  Encrypts e c block = (i : ℕ) → i < tfhe.dimension → Close e (laws.phase c i) (at block i * unit)

  at-padded :
      (block : Bytes) (k i : ℕ)
      → IsBytes block
      → at (padded tfhe.mod_switch_to_torus32 block k) i ≡ at block i * unit
  at-padded [] k i h = at-replicate k i
  at-padded (b ∷ block) k zero h = laws.mod_switch_to b (h 0)
  at-padded (b ∷ block) k (suc i) h = at-padded block k i (λ j. h (suc j))

  decode_block-padded :
      (block : Bytes) (k : ℕ)
      → IsBytes block
      → decode_block tfhe (padded tfhe.mod_switch_to_torus32 block k) (length block) ≡ ok block
  unfolding decode_block
  decode_block-padded [] k h = refl
  decode_block-padded (b ∷ block) k h =
      let same : b % 256 ≡ b = omega (arith, h 0) in
      rw
        (
          decode_block-padded block k (λ j. h (suc j)),
          laws.mod_switch_to b (h 0),
          laws.mod_switch_from b (h 0),
          same,
        )
        refl

  module _ (block : Bytes) (fits : length block ≤ tfhe.dimension) (h : IsBytes block) where
    abbrev poly : List ℕ
    poly = padded tfhe.mod_switch_to_torus32 block (tfhe.dimension - length block)

    length-poly : length poly ≡ tfhe.dimension
    length-poly = omega (
      arith,
      length-append (map tfhe.mod_switch_to_torus32 block)
          (replicate (tfhe.dimension - length block) 0),
      length-map tfhe.mod_switch_to_torus32 block,
      length-replicate {A = ℕ} (tfhe.dimension - length block) 0,
    )

    -- `EncryptBlock` returns a fresh encryption.
    pub encrypt_block-Encrypts :
        (noise : ℕ)
        → (c : tfhe.Rlwe) × ((encrypt_block tfhe block client_context noise ≡ ok c)
            × Encrypts laws.fresh c block)
    unfolding encrypt_block encode_block
    encrypt_block-Encrypts noise =
        let small : leb (length block) tfhe.dimension ≡ true = ground (arith, fits) in
        (
          tfhe.sym_encrypt poly noise,
          (
            rw small refl,
            λ i lt.
                rw (← at-padded block (tfhe.dimension - length block) i h)
                  (laws.phase-sym_encrypt poly noise i length-poly lt),
          ),
        )

    pub decrypt_block-Encrypts :
        (c : tfhe.Rlwe) (e : ℕ)
        → Encrypts e c block
        → 2 * e < unit
        → decrypt_block tfhe c client_context (length block) ≡ ok block
    unfolding decrypt_block
    decrypt_block-Encrypts c e enc small =
        let le : leb (length block) tfhe.dimension ≡ true = ground (arith, fits) in
        let same = at-padded block (tfhe.dimension - length block) in
        let out : tfhe.sym_decrypt c ≡ poly =
          laws.sym_decrypt_eq c poly e length-poly
            (λ i lt. rw (same i h) ((at block i, (h i, refl)), enc i lt)) small in
        rw (le, out) (decode_block-padded block (tfhe.dimension - length block) h)

  -- A block of bytes that fits TFHE's polynomials is what DecryptBlock returns for
  -- EncryptBlock of it, when fresh noise is less than half a message.
  pub decrypt_block-encrypt_block :
      (block : Bytes) (noise : ℕ)
      → length block ≤ tfhe.dimension
      → IsBytes block
      → 2 * laws.fresh < unit
      → (encrypt_block tfhe block client_context noise >>= λ c.
          decrypt_block tfhe c client_context (length block))
        ≡ ok block
  decrypt_block-encrypt_block block noise fits h small =
      let c = encrypt_block-Encrypts block fits h noise in
      rw c.1.0 (decrypt_block-Encrypts block fits h c.0 laws.fresh c.1.1 small)

  pub decrypt_bit-encrypt_bit :
      (bit : Bool) (noise : ℕ)
      → (encrypt_bit tfhe bit client_context noise >>= λ g. decrypt_bit tfhe g client_context)
        ≡ ok bit
  unfolding encrypt_bit decrypt_bit
  decrypt_bit-encrypt_bit true noise =
      rw (laws.sym_decrypt_int_eq _ true (laws.sym_encrypt_int-EncryptsBit true noise)) refl
  decrypt_bit-encrypt_bit false noise =
      rw (laws.sym_decrypt_int_eq _ false (laws.sym_encrypt_int-EncryptsBit false noise)) refl

-- The constructor's sample of zeros, tLweClear.
module _ (tfhe : Tfhe) (laws : TfheLaws tfhe) where
  pub clear-Encrypts : (k : ℕ) → Encrypts tfhe laws 0 tfhe.clear (replicate k 0)
  clear-Encrypts k i lt = rw (laws.phase-clear i, at-replicate k i) (0, (0, (omega arith, refl)))
