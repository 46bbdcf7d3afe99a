-- ===== src/Onion/Waksman/Evaluate/Permutes.antt =====
-- EvalWaksman with the swap bits of GenerateSwapBits.
use mathlib.Core.Path.{subst}
use unified_oramhub.Base.{
  ℕ, zero, suc, ◌+◌, ◌*◌, ◌≤◌, ◌<◌, ◌≡◌, refl, sym, ◌∙◌, ap, inl, inr, List, [], ◌∷◌, map, Bool,
  true, some, ok, arith, length, get_elem?, leb, Bool-cases, eq→==, at, get_elem?-lt_length,
  get_elem?_total,
}
use unified_oramhub.Core.Memory.{Bytes}
use unified_oramhub.Onion.Adapter.RoundTrip.{Encrypts, IsBytes, decrypt_block-Encrypts}
use unified_oramhub.Onion.Adapter.{client_context, decrypt_block}
use unified_oramhub.Onion.Torus.{unit, Close, Close-trans}
use unified_oramhub.Onion.Tfhe.{Tfhe, TfheLaws}
use unified_oramhub.Onion.Waksman.{
  WaksmanNetwork, build_network, new_waksman_network, generate_swap_bits,
}
use unified_oramhub.Onion.Waksman.Sorting.{InRange, build_network-InRange}
use unified_oramhub.Onion.Waksman.Synthesis.{Holds, Numbered, build_network-Numbered}
use unified_oramhub.Onion.Waksman.SwapBits.{
  IsPermutation, routed, routed_self, Routes, generate_swap_bits_total,
}
use unified_oramhub.Onion.Waksman.Evaluate.{all_present, eval_waksman}
use unified_oramhub.Onion.Waksman.Evaluate.Gates.{EncryptBits, eval_gates-Evaluated}

all_present-some :
    (tfhe : Tfhe) (bits : List tfhe.Rgsw) → all_present tfhe (map some bits) ≡ ok bits
unfolding all_present
all_present-some tfhe [] = refl
all_present-some tfhe (bit ∷ bits) = rw (all_present-some tfhe bits) refl

-- The bits that GenerateSwapBits returned are routes of the permutation.
Routes-of :
    (network : WaksmanNetwork) (size : ℕ) (permutation : List ℕ) (bits : List Bool)
    → new_waksman_network size ≡ ok network
    → generate_swap_bits network permutation ≡ ok bits
    → IsPermutation size permutation × Routes size permutation bits
Routes-of network size permutation bits built generated =
    elim (generate_swap_bits_total network size permutation built) [
      | inl found ↦ (
        found.0,
        subst (λ bs. Routes size permutation bs) (ground (arith, generated, found.1.1.0))
            found.1.1.1,
      )
      | inr refused ↦ ground (arith, generated, refused.1)
    ]

gates_of :
    (network : WaksmanNetwork) (size : ℕ)
    → new_waksman_network size ≡ ok network
    → (2 ≤ size) × (network ≡ record { size = size; gates = build_network size })
unfolding new_waksman_network
gates_of network size h = elim (Bool-cases (leb 2 size)) [
  | inl big ↦ (ground (arith, big), ground (arith, h, big))
  | inr small ↦ ground (arith, h, small)
]

abbrev at_or : {A : Type 0} → A → List A → ℕ → A
at_or a [] p = a
at_or a (x ∷ xs) zero = x
at_or a (x ∷ xs) (suc p) = at_or a xs p

get_elem?-at_or :
    {A : Type 0} (a : A) (xs : List A) (p : ℕ)
    → p < length xs
    → get_elem? xs p ≡ some (at_or a xs p)
get_elem?-at_or a [] p h = elim h [ ]
get_elem?-at_or a (x ∷ xs) zero h = refl
get_elem?-at_or a (x ∷ xs) (suc p) h = get_elem?-at_or a xs p (omega arith)

module _ (tfhe : Tfhe) (laws : TfheLaws tfhe) (network : WaksmanNetwork) (size : ℕ)
    (permutation : List ℕ) (bits : List Bool) (built : new_waksman_network size ≡ ok network)
    (generated : generate_swap_bits network permutation ≡ ok bits) (samples : List tfhe.Rlwe)
    (sized : length samples ≡ size) (swap_bits : List tfhe.Rgsw)
    (as_many : length swap_bits ≡ length bits)
    (encrypted : EncryptBits tfhe laws 0 bits swap_bits) where
  -- Under encryption the network permutes.
  record Permuted : Type 0 where
    out : List tfhe.Rlwe
    returns : eval_waksman tfhe samples (map some swap_bits) ≡ ok out
    as_large : length out ≡ size
    permuted :
        (p e : ℕ) (c d : tfhe.Rlwe) (block : Bytes)
        → get_elem? samples (at permutation p) ≡ some c
        → get_elem? out p ≡ some d
        → Encrypts tfhe laws e c block
        → Encrypts tfhe laws (length network.gates * laws.growth + e) d block

  eval_waksman_permutes : Permuted
  unfolding eval_waksman
  eval_waksman_permutes =
      let shape = gates_of network size built in
      let gates = network.gates in
      let same : network.gates ≡ build_network size = ap (λ n. n.gates) shape.1 in
      let found = Routes-of network size permutation bits built generated in
      let before = at_or tfhe.clear samples in
      let sound : Holds size samples before = record {
        sized = sized;
        elements = λ p h. get_elem?-at_or tfhe.clear samples p (omega (arith, sized));
      } in
      let run =
        eval_gates-Evaluated tfhe laws size 0 gates bits swap_bits samples before
          (subst (InRange size) (sym same) (build_network-InRange size))
          (subst (Numbered 0) (sym same) (build_network-Numbered size))
          (found.1.sized ∙ ap length (sym same)) encrypted sound in
      record {
        out = run.out;
        returns =
            rw (sized, all_present-some tfhe swap_bits, built)
              (let big : leb 2 size ≡ true = ground (arith, shape.0) in
                let many =
                  eq→== (length swap_bits) (length gates)
                    (as_many ∙ found.1.sized ∙ ap length (sym same)) in
                rw (big, many) run.returns);
        as_large = run.holds.sized;
        permuted = λ p e c d block at_c at_d enc t lt.
            let small : p < size =
              omega (arith, get_elem?-lt_length run.out p at_d, run.holds.sized) in
            let is_d : run.element p ≡ d = ground (arith, run.holds.elements p small, at_d) in
            let from : routed gates bits (λ q. q) p ≡ at permutation p =
              subst (λ gs. routed gs bits (λ q. q) p ≡ at permutation p) (sym same)
                (found.1.routes p small) in
            let is_c : routed gates bits before p ≡ c =
              routed_self gates bits before p
              ∙ ap before from
              ∙ ground (
                arith,
                at_c,
                get_elem?-at_or tfhe.clear samples (at permutation p)
                    (get_elem?-lt_length samples (at permutation p) at_c),
              ) in
            subst (λ x. Close (length gates * laws.growth + e) (laws.phase x t) (at block t * unit))
              is_d
              (Close-trans (length gates * laws.growth) e (laws.phase (run.element p) t)
                (laws.phase c t) (at block t * unit)
                (subst
                  (λ x.
                    Close (length gates * laws.growth) (laws.phase (run.element p) t)
                      (laws.phase x t))
                  is_c (run.close p t))
                (enc t lt));
      }

  -- With encryptions of the swap bits of a permutation, EvalWaksman of as many samples
  -- succeeds, and where a sample encrypts a block that fits and its noise and that of the
  -- gates stay below half a message, the destination of the permutation decrypts to that
  -- block.
  pub decrypt_block-eval_waksman :
      (p e : ℕ) (c : tfhe.Rlwe) (block : Bytes)
      → p < size
      → get_elem? samples (at permutation p) ≡ some c
      → Encrypts tfhe laws e c block
      → IsBytes block
      → length block ≤ tfhe.dimension
      → 2 * (length network.gates * laws.growth + e) < unit
      → (out : List tfhe.Rlwe) × ((eval_waksman tfhe samples (map some swap_bits) ≡ ok out)
          × ((d : tfhe.Rlwe) × ((get_elem? out p ≡ some d)
                × (decrypt_block tfhe d client_context (length block) ≡ ok block))))
  decrypt_block-eval_waksman p e c block lt at_c enc bytes fits budget =
      let run = eval_waksman_permutes in
      let here = get_elem?_total run.out p (omega (arith, run.as_large)) in
      (
        run.out,
        (
          run.returns,
          (
            here.0,
            (
              here.1,
              decrypt_block-Encrypts tfhe laws block fits bytes here.0
                  (length network.gates * laws.growth + e)
                  (run.permuted p e c here.0 block at_c here.1 enc) budget,
            ),
          ),
        ),
      )
