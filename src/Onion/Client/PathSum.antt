-- ===== src/Onion/Client/PathSum.antt =====
-- HandleAccess as the client uses it: the sum of the selected slots of a path is an encryption of the
-- block.
use mathlib.Core.Path.{subst}
use unified_oramhub.Base.{
  ℕ, ◌+◌, ◌*◌, ◌%◌, ◌<◌, ◌≡◌, refl, sym, inl, inr, List, [], ◌∷◌, true, none, some, ok, ltb, arith,
  length, at,
}
use unified_oramhub.Core.Memory.{Bytes}
use unified_oramhub.Onion.{RuntimeConfig, bucket_slots}
use unified_oramhub.Onion.Torus.{torus, unit, Close, Close-sum, Close-trans, Close-weaken}
use unified_oramhub.Onion.Tfhe.{Tfhe, TfheLaws}
use unified_oramhub.Onion.Adapter.RoundTrip.{Encrypts, at-replicate}
use unified_oramhub.Onion.Slots.{path_sum, receive_selections}
use unified_oramhub.Onion.Ids.{Ids}
use unified_oramhub.Onion.Client.Cells.{cell, row_of}
use unified_oramhub.Onion.Client.OnPath.{On, Distinct}
use unified_oramhub.Onion.Client.Holding.{Holding, Selected, zeros}

module _ (tfhe : Tfhe) (laws : TfheLaws tfhe) where
  same_sum : (e x y z : ℕ) → x + y ≡ z → Close 0 ((x * unit + y * unit) % torus) (z * unit)
  same_sum e x y z h = (0, (0, (omega arith, omega (arith, h))))

  pub add_to-Encrypts :
      (e f : ℕ) (a c : tfhe.Rlwe) (x y z : Bytes)
      → Encrypts tfhe laws e a x
      → Encrypts tfhe laws f c y
      → ((i : ℕ) → at x i + at y i ≡ at z i)
      → Encrypts tfhe laws (e + f) (tfhe.add_to a c) z
  add_to-Encrypts e f a c x y z p q h i lt = rw (laws.phase-add_to a c i) (
      Close-weaken (e + f + 0) (e + f) _ _ (omega arith) (
        Close-trans (e + f) 0 _ ((at x i * unit + at y i * unit) % torus) _
          (Close-sum e f (laws.phase a i) (at x i * unit) (laws.phase c i) (at y i * unit) (p i lt)
            (q i lt))
          (same_sum e (at x i) (at y i) (at z i) (h i))))

  module _ (config : RuntimeConfig) (id_map : List Ids) (tree : List (List tfhe.Rlwe))
      (pos : List ℕ) (memory : ℕ → Bytes)
      (holding : Holding tfhe laws config id_map tree pos memory) (addr : ℕ) where
    -- No bucket of the path has the block.
    abbrev pub Missing : List ℕ → Type 0
    Missing path = (i j : ℕ) → On i path → cell id_map i j ≡ some (some addr) → ⊥

    pub record Summed (path slots : List ℕ) (start : tfhe.Rlwe) (e : ℕ) (block : Bytes)
        : Type 0 where
      pub sample : tfhe.Rlwe
      pub returns : path_sum tfhe tree path slots start ≡ ok sample
      pub encrypts : Encrypts tfhe laws (length path * laws.fresh + e) sample block

    at-zeros : (i : ℕ) → at (zeros config) i ≡ 0
    at-zeros i = at-replicate config.block_size i

    add_slot :
        (path slots : List ℕ) (n s e : ℕ) (start c : tfhe.Rlwe) (block : Bytes)
        → cell tree n s ≡ some c
        → Summed path slots (tfhe.add_to start c) (e + laws.fresh) block
        → Summed (n ∷ path) (s ∷ slots) start e block
    unfolding path_sum
    add_slot path slots n s e start c block at_c rest =
        let row = row_of tree n s c at_c in
        let more : length path * laws.fresh + (e + laws.fresh)
            ≡ length (n ∷ path) * laws.fresh + e =
          omega arith in
        record {
          sample = rest.sample;
          returns = rw (row.1.0, row.1.1) rest.returns;
          encrypts = subst (λ k. Encrypts tfhe laws k rest.sample block) more rest.encrypts;
        }

    none_left :
        (path slots : List ℕ) (start : tfhe.Rlwe) (e : ℕ) (block : Bytes)
        → Selected id_map addr path slots
        → Missing path
        → Encrypts tfhe laws e start block
        → Summed path slots start e block
    unfolding path_sum
    none_left [] [] start e block sel miss enc = record {
      sample = start;
      returns = refl;
      encrypts = subst (λ k. Encrypts tfhe laws k start block) (omega arith) enc;
    }
    none_left [] (s ∷ slots) start e block sel miss enc = elim sel [ ]
    none_left (n ∷ path) [] start e block sel miss enc = elim sel [ ]
    none_left (n ∷ path) (s ∷ slots) start e block (inl own, sel) miss enc =
        absurd (miss n s (inl refl) own)
    none_left (n ∷ path) (s ∷ slots) start e block (inr free, sel) miss enc =
        let slot = holding.stored n s none free.0 in
        add_slot path slots n s e start slot.0 block slot.1.0 (
          none_left path slots (tfhe.add_to start slot.0) (e + laws.fresh) block sel
            (λ i j o. miss i j (inr o))
            (add_to-Encrypts e laws.fresh start slot.0 block (zeros config) block enc slot.1.1
              (λ i. omega (arith, at-zeros i))))

    pub path_sum-Summed :
        (path slots : List ℕ) (start : tfhe.Rlwe) (e : ℕ)
        → Selected id_map addr path slots
        → Distinct path
        → (Missing path → memory addr ≡ zeros config)
        → Encrypts tfhe laws e start (zeros config)
        → Summed path slots start e (memory addr)
    unfolding path_sum
    path_sum-Summed [] [] start e sel d found enc = record {
      sample = start;
      returns = refl;
      encrypts =
          subst (λ b. Encrypts tfhe laws (0 * laws.fresh + e) start b)
            (sym (found (λ i j o. absurd o)))
            (subst (λ k. Encrypts tfhe laws k start (zeros config)) (omega arith) enc);
    }
    path_sum-Summed [] (s ∷ slots) start e sel d found enc = elim sel [ ]
    path_sum-Summed (n ∷ path) [] start e sel d found enc = elim sel [ ]
    path_sum-Summed (n ∷ path) (s ∷ slots) start e (inl own, sel) d found enc =
        let slot = holding.stored n s (some addr) own in
        add_slot path slots n s e start slot.0 (memory addr) slot.1.0 (
          none_left path slots (tfhe.add_to start slot.0) (e + laws.fresh) (memory addr) sel
            (λ i j o other.
              d.0 (subst (λ k. On k path) (sym (holding.unique addr n s i j own other).0) o))
            (add_to-Encrypts e laws.fresh start slot.0 (zeros config) (memory addr) (memory addr)
              enc slot.1.1 (λ i. omega (arith, at-zeros i))))
    path_sum-Summed (n ∷ path) (s ∷ slots) start e (inr free, sel) d found enc =
        let slot = holding.stored n s none free.0 in
        add_slot path slots n s e start slot.0 (memory addr) slot.1.0 (
          path_sum-Summed path slots (tfhe.add_to start slot.0) (e + laws.fresh) sel d.1
            (λ miss. found (λ i j o own. elim o [
              | inl same ↦ free.1 j (subst (λ k. cell id_map k j ≡ some (some addr)) (sym same) own)
              | inr later ↦ miss i j later own
            ]))
            (add_to-Encrypts e laws.fresh start slot.0 (zeros config) (zeros config) (zeros config)
              enc slot.1.1 (λ i. omega (arith, at-zeros i))))

    -- The slots are within the bounds that the server checks.
    pub receive_selections-Selected :
        (path slots : List ℕ)
        → Selected id_map addr path slots
        → receive_selections (bucket_slots config) path slots ≡ ok slots
    unfolding receive_selections
    receive_selections-Selected [] [] sel = refl
    receive_selections-Selected [] (s ∷ slots) sel = elim sel [ ]
    receive_selections-Selected (n ∷ path) [] sel = elim sel [ ]
    receive_selections-Selected (n ∷ path) (s ∷ slots) sel =
        let small : s < bucket_slots config = elim sel.0 [
          | inl own ↦ holding.narrow n s (some addr) own
          | inr free ↦ holding.narrow n s none free.0
        ] in
        let test : ltb s (bucket_slots config) ≡ true = ground (arith, small) in
        rw (test, receive_selections-Selected path slots sel.1) refl
