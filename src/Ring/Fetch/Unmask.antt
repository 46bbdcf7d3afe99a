-- ===== src/Ring/Fetch/Unmask.antt =====
-- FetchXorPath of RingORAMClient.cpp on the server's aggregate.
use unified_oramhub.Base.{
  ℕ, suc, ◌<◌, ◌≡◌, refl, sym, ap, ◌∙◌, List, [], ◌∷◌, ◌++◌, append-nil, map, Bool, true, false,
  Option, none, some, ok, arith, length, replicate, ◌==◌, eq→==, length-replicate, length-append,
}
use unified_oramhub.Core.Memory.{Bytes}
use unified_oramhub.Crypto.{CtrCipher, encrypt, decrypt, iv_size, int_limit, encrypt-run}
use unified_oramhub.Crypto.Counter.{AreBytes}
use unified_oramhub.Ring.{EncryptedField}
use unified_oramhub.Ring.Xor.{
  xor_bytes, xor_into, length-xor_bytes, xor_bytes_self, xor_bytes-swap, zero_bytes-xor,
  xor_bytes-AreBytes,
}
use unified_oramhub.Ring.Fetch.{unmask, decrypt_target, fetch_xor_path}

-- What the server adds up.
unfoldable pub aggregate_of : Bytes → List EncryptedField → Bytes
aggregate_of acc [] = acc
aggregate_of acc (f ∷ fs) = aggregate_of (xor_bytes acc f.ciphertext) fs

abbrev pub ivs_of : List EncryptedField → List Bytes
ivs_of = map (λ f. f.iv)

module _ (cipher : CtrCipher) (block_size : ℕ) where
  -- A slot that the client asked for without looking for it: an encryption of zeros.
  pub record Dummy (f : EncryptedField) : Type 0 where
    pub iv_ok : length f.iv ≡ iv_size
    pub masked : f.ciphertext ≡ cipher.run f.iv (replicate block_size 0)

  abbrev pub Dummies : List EncryptedField → Type 0
  Dummies [] = Unit {0}
  Dummies (f ∷ fs) = Dummy f × Dummies fs

  abbrev pub no_flags : List EncryptedField → List Bool
  no_flags = map (λ _. false)

  length-no_flags : (fs : List EncryptedField) → length (no_flags fs) ≡ length fs
  length-no_flags [] = refl
  length-no_flags (f ∷ fs) = ap suc (length-no_flags fs)

  length-ivs_of : (fs : List EncryptedField) → length (ivs_of fs) ≡ length fs
  length-ivs_of [] = refl
  length-ivs_of (f ∷ fs) = ap suc (length-ivs_of fs)

  length-Dummy : (f : EncryptedField) → Dummy f → length f.ciphertext ≡ block_size
  length-Dummy f d =
      ap length d.masked
      ∙ cipher.length-run f.iv (replicate block_size 0)
      ∙ length-replicate block_size 0

  aggregate_of-swap :
      (acc c : Bytes) (fs : List EncryptedField)
      → length acc ≡ block_size
      → length c ≡ block_size
      → Dummies fs
      → aggregate_of (xor_bytes acc c) fs ≡ xor_bytes (aggregate_of acc fs) c
  unfolding aggregate_of
  aggregate_of-swap acc c [] e k ds = refl
  aggregate_of-swap acc c (f ∷ fs) e k (d, ds) =
      ap (λ x. aggregate_of x fs)
        (xor_bytes-swap acc c f.ciphertext (omega (arith, e, k))
          (omega (arith, e, length-Dummy f d)))
      ∙ aggregate_of-swap (xor_bytes acc f.ciphertext) c fs (length-xor_bytes acc f.ciphertext ∙ e)
          k ds

  length-aggregate_of :
      (acc : Bytes) (fs : List EncryptedField) → length (aggregate_of acc fs) ≡ length acc
  unfolding aggregate_of
  length-aggregate_of acc [] = refl
  length-aggregate_of acc (f ∷ fs) =
      length-aggregate_of (xor_bytes acc f.ciphertext) fs ∙ length-xor_bytes acc f.ciphertext

  aggregate_of-AreBytes :
      (acc : Bytes) (fs : List EncryptedField) → AreBytes acc → AreBytes (aggregate_of acc fs)
  unfolding aggregate_of
  aggregate_of-AreBytes acc [] b = b
  aggregate_of-AreBytes acc (f ∷ fs) b =
      aggregate_of-AreBytes (xor_bytes acc f.ciphertext) fs (xor_bytes-AreBytes acc f.ciphertext b)

  aggregate_of_comm :
      (acc : Bytes) (fs gs : List EncryptedField)
      → length acc ≡ block_size
      → Dummies fs
      → Dummies gs
      → aggregate_of (aggregate_of acc fs) gs ≡ aggregate_of (aggregate_of acc gs) fs
  unfolding aggregate_of
  aggregate_of_comm acc [] gs e ds es = refl
  aggregate_of_comm acc (f ∷ fs) gs e (d, ds) es =
      aggregate_of_comm (xor_bytes acc f.ciphertext) fs gs (length-xor_bytes acc f.ciphertext ∙ e)
        ds es
      ∙ ap (λ x. aggregate_of x fs) (aggregate_of-swap acc f.ciphertext gs e (length-Dummy f d) es)

  encrypt-Dummy :
      (f : EncryptedField)
      → block_size < int_limit
      → Dummy f
      → encrypt cipher (replicate block_size 0) f.iv ≡ ok f.ciphertext
  encrypt-Dummy f short d =
      encrypt-run cipher (replicate block_size 0) f.iv d.iv_ok
        (omega (arith, length-replicate {A = ℕ} block_size 0, short))
      ∙ ap ok (sym d.masked)

  -- Slots without the target cancel out.
  unmask-Dummies :
      (fs : List EncryptedField) (flags : List Bool) (ivs : List Bytes) (found : Option Bytes)
      (acc : Bytes)
      → length acc ≡ block_size
      → AreBytes acc
      → block_size < int_limit
      → Dummies fs
      → unmask cipher block_size
          (no_flags fs ++ flags)
          (ivs_of fs ++ ivs)
          found
          (aggregate_of acc fs)
        ≡ unmask cipher block_size flags ivs found acc
  unfolding aggregate_of unmask xor_into
  unmask-Dummies [] flags ivs found acc e b short ds = refl
  unmask-Dummies (f ∷ fs) flags ivs found acc e b short (d, ds) =
      let total : ℕ = length (aggregate_of acc fs) in
      let same : (length (xor_bytes (aggregate_of acc fs) f.ciphertext) == length f.ciphertext)
          ≡ true =
        eq→== _ _ (
          omega (
            arith,
            length-xor_bytes (aggregate_of acc fs) f.ciphertext,
            length-aggregate_of acc fs,
            length-Dummy f d,
            e,
          )) in
      rw
        (
          aggregate_of-swap acc f.ciphertext fs e (length-Dummy f d) ds,
          encrypt-Dummy f short d,
          same,
          xor_bytes_self (aggregate_of acc fs) f.ciphertext
              (omega (arith, length-aggregate_of acc fs, length-Dummy f d, e))
              (aggregate_of-AreBytes acc fs b),
        )
        (unmask-Dummies fs flags ivs found acc e b short ds)

  -- The slots of a path of which one holds the block.
  module _ (before after : List EncryptedField) (iv content : Bytes) (before_ok : Dummies before)
      (after_ok : Dummies after) (iv_ok : length iv ≡ iv_size) (sized : length content ≡ block_size)
      (short : block_size < int_limit) (masked_ok : AreBytes (cipher.run iv content)) where
    abbrev target : EncryptedField
    target = record { iv = iv; ciphertext = cipher.run iv content }

    length-target : length target.ciphertext ≡ block_size
    length-target = cipher.length-run iv content ∙ sized

    aggregate_of-append :
        (acc : Bytes) (fs : List EncryptedField)
        → aggregate_of acc (fs ++ target ∷ after)
          ≡ aggregate_of (xor_bytes (aggregate_of acc fs) target.ciphertext) after
    unfolding aggregate_of
    aggregate_of-append acc [] = refl
    aggregate_of-append acc (f ∷ fs) = aggregate_of-append (xor_bytes acc f.ciphertext) fs

    total :
        aggregate_of (replicate block_size 0) (before ++ target ∷ after)
        ≡ aggregate_of (aggregate_of target.ciphertext after) before
    total =
        aggregate_of-append (replicate block_size 0) before
        ∙ ap (λ x. aggregate_of x after)
            (sym (
                aggregate_of-swap (replicate block_size 0) target.ciphertext before
                  (length-replicate block_size 0) length-target before_ok)
              ∙ ap (λ x. aggregate_of x before) from_zeros)
        ∙ aggregate_of_comm target.ciphertext before after length-target before_ok after_ok
      where
        from_zeros : xor_bytes (replicate block_size 0) target.ciphertext ≡ target.ciphertext
        from_zeros =
            ap (λ k. xor_bytes (replicate k 0) target.ciphertext) (sym length-target)
            ∙ zero_bytes-xor target.ciphertext masked_ok

    map-append :
        {A : Type 0} (f : EncryptedField → A) (xs ys : List EncryptedField)
        → map f (xs ++ ys) ≡ map f xs ++ map f ys
    map-append f [] ys = refl
    map-append f (x ∷ xs) ys = ap (λ r. f x ∷ r) (map-append f xs ys)

    rest :
        unmask cipher block_size
          (no_flags after)
          (ivs_of after)
          (some iv)
          (aggregate_of target.ciphertext after)
        ≡ ok (some iv, target.ciphertext)
    rest =
        ap
          (λ x.
            unmask cipher block_size x (ivs_of after) (some iv)
              (aggregate_of target.ciphertext after))
          (sym (append-nil (no_flags after)))
        ∙ ap
            (λ x.
              unmask cipher block_size (no_flags after ++ []) x (some iv)
                (aggregate_of target.ciphertext after))
            (sym (append-nil (ivs_of after)))
        ∙ unmask-Dummies after [] [] (some iv) target.ciphertext length-target masked_ok short
            after_ok
        ∙ (unfold unmask in refl)

    unmask-total :
        unmask cipher block_size
          (no_flags before ++ true ∷ no_flags after)
          (ivs_of (before ++ target ∷ after))
          none
          (aggregate_of (replicate block_size 0) (before ++ target ∷ after))
        ≡ ok (some iv, target.ciphertext)
    unmask-total =
        rw (total, map-append (λ f. f.iv) before (target ∷ after))
          (unmask-Dummies before (true ∷ no_flags after) (iv ∷ ivs_of after) none
              (aggregate_of target.ciphertext after)
              (length-aggregate_of target.ciphertext after ∙ length-target)
              (aggregate_of-AreBytes target.ciphertext after masked_ok) short before_ok
            ∙ (unfold unmask in rest))

    -- The client gets the data of a block of less than 2 ^ 31 bytes out of the XOR of all the slots
    -- of the path, one of which is the encryption of the block and the others encryptions of zeros.
    pub fetch_xor_path-target :
        fetch_xor_path cipher block_size
          (length (before ++ target ∷ after))
          (no_flags before ++ true ∷ no_flags after)
          (aggregate_of (replicate block_size 0) (before ++ target ∷ after))
          (ivs_of (before ++ target ∷ after))
        ≡ ok (some content)
    unfolding fetch_xor_path decrypt_target decrypt
    fetch_xor_path-target =
        let slots : List EncryptedField = before ++ target ∷ after in
        let flags : (length slots == length (no_flags before ++ true ∷ no_flags after)) ≡ true =
          eq→== _ _ (
            omega (
              arith,
              length-append before (target ∷ after),
              length-append (no_flags before) (true ∷ no_flags after),
              length-no_flags before,
              length-no_flags after,
            )) in
        let sum : (length (aggregate_of (replicate block_size 0) slots) == block_size) ≡ true =
          eq→== _ _
            (length-aggregate_of (replicate block_size 0) slots ∙ length-replicate block_size 0) in
        let ivs : (length (ivs_of slots) == length slots) ≡ true =
          eq→== _ _ (length-ivs_of slots) in
        let decrypted : encrypt cipher (cipher.run iv content) iv ≡ ok content =
          encrypt-run cipher (cipher.run iv content) iv iv_ok (omega (arith, length-target, short))
          ∙ ap ok (cipher.run_twice iv content) in
        rw (flags, sum, ivs, unmask-total, decrypted) refl
