-- ===== src/Onion/Waksman/Evaluate/Gates.antt =====
-- The loop of EvalWaksman over the gates, on encryptions of the swap bits.
use unified_oramhub.Base.{
  ℕ, suc, ◌+◌, ◌*◌, ◌<◌, ◌≡◌, refl, sym, ◌∙◌, ap, inl, inr, List, [], ◌∷◌, Bool, true, false, some,
  ok, arith, length, get_elem?, set, ◌==◌, if◌then◌else◌, eq-or-ne, eq→==, get_elem?-set,
  length-set,
}
use unified_oramhub.Onion.Torus.{Close, Close-self, Close-trans, Close-weaken}
use unified_oramhub.Onion.Tfhe.{Tfhe, TfheLaws}
use unified_oramhub.Onion.HomOps.{cmux, cmux_selects}
use unified_oramhub.Onion.Waksman.{WaksmanGate}
use unified_oramhub.Onion.Waksman.Exchange.{origin}
use unified_oramhub.Onion.Waksman.Sorting.{InRange}
use unified_oramhub.Onion.Waksman.Synthesis.{Holds, Numbered}
use unified_oramhub.Onion.Waksman.SwapBits.{routed, routed_self}
use unified_oramhub.Onion.Waksman.Evaluate.{eval_gates}

module _ (tfhe : Tfhe) (laws : TfheLaws tfhe) where
  -- From number `b` on, the swap bits are encryptions of `bits`.
  abbrev pub EncryptBits : ℕ → List Bool → List tfhe.Rgsw → Type 0
  EncryptBits b bits swap_bits =
      (k : ℕ) (bit : Bool)
      → get_elem? bits k ≡ some bit
      → (g : tfhe.Rgsw) × ((get_elem? swap_bits (b + k) ≡ some g) × laws.EncryptsBit g bit)

  -- The samples after a gate at `i` and `i + 1`.
  abbrev mixed : tfhe.Rgsw → (ℕ → tfhe.Rlwe) → ℕ → ℕ → tfhe.Rlwe
  mixed g c i p =
      if p == i
      then cmux tfhe g (c (i + 1)) (c i)
      else if p == i + 1
      then cmux tfhe g (c i) (c (i + 1))
      else c p

  mixed-Close :
      (g : tfhe.Rgsw) (bit : Bool) (c : ℕ → tfhe.Rlwe) (i p t : ℕ)
      → laws.EncryptsBit g bit
      → Close laws.growth (laws.phase (mixed g c i p) t) (laws.phase (c (origin bit i p)) t)
  mixed-Close g bit c i p t h = elim (eq-or-ne p i) [
    | inl e ↦ rw (e, eq→== i i refl) (at_first bit h)
    | inr ne ↦ elim (eq-or-ne p (i + 1)) [
      | inl e ↦
          let far : (i + 1 == i) ≡ false = ground arith in
          rw (e, far, eq→== (i + 1) (i + 1) refl) (at_second bit h)
      | inr ne' ↦ rw (ne, ne') (other bit)
    ]
  ]
    where
      at_first :
          (bit : Bool)
          → laws.EncryptsBit g bit
          → Close laws.growth
              (laws.phase (cmux tfhe g (c (i + 1)) (c i)) t)
              (laws.phase (c (if bit then i + 1 else i)) t)
      at_first true h = cmux_selects tfhe laws g true (c (i + 1)) (c i) t h
      at_first false h = cmux_selects tfhe laws g false (c (i + 1)) (c i) t h

      at_second :
          (bit : Bool)
          → laws.EncryptsBit g bit
          → Close laws.growth
              (laws.phase (cmux tfhe g (c i) (c (i + 1))) t)
              (laws.phase (c (if bit then i else i + 1)) t)
      at_second true h = cmux_selects tfhe laws g true (c i) (c (i + 1)) t h
      at_second false h = cmux_selects tfhe laws g false (c i) (c (i + 1)) t h

      other :
          (bit : Bool)
          → Close laws.growth (laws.phase (c p) t) (laws.phase (c (if bit then p else p)) t)
      other true = Close-weaken 0 laws.growth _ _ (omega arith) (Close-self (laws.phase (c p) t))
      other false = Close-weaken 0 laws.growth _ _ (omega arith) (Close-self (laws.phase (c p) t))

  mixed-Holds :
      (size : ℕ) (g : tfhe.Rgsw) (samples : List tfhe.Rlwe) (c : ℕ → tfhe.Rlwe) (i : ℕ)
      → i + 1 < size
      → Holds size samples c
      → Holds size
          (set
            (set samples i (cmux tfhe g (c (i + 1)) (c i)))
            (i + 1)
            (cmux tfhe g (c i) (c (i + 1))))
          (mixed g c i)
  mixed-Holds size g samples c i lt h =
      let a = cmux tfhe g (c (i + 1)) (c i) in
      let b = cmux tfhe g (c i) (c (i + 1)) in
      record {
        sized = length-set (set samples i a) (i + 1) b ∙ length-set samples i a ∙ h.sized;
        elements = λ p k. ground (
          arith,
          get_elem?-set (set samples i a) (i + 1) p b,
          get_elem?-set samples i p a,
          h.elements p k,
          length-set samples i a,
          h.sized,
        );
      }

  -- What the gates leave: where each element comes from, up to the noise of a gate each.
  pub record Evaluated (size : ℕ) (gs : List WaksmanGate) (bits : List Bool)
      (swap_bits : List tfhe.Rgsw) (samples : List tfhe.Rlwe) (c : ℕ → tfhe.Rlwe) : Type 0 where
    pub out : List tfhe.Rlwe
    pub element : ℕ → tfhe.Rlwe
    pub returns : eval_gates tfhe gs swap_bits samples ≡ ok out
    pub holds : Holds size out element
    pub close :
        (p t : ℕ)
        → Close
            (length gs * laws.growth)
            (laws.phase (element p) t)
            (laws.phase (routed gs bits c p) t)

  pub eval_gates-Evaluated :
      (size b : ℕ) (gs : List WaksmanGate) (bits : List Bool) (swap_bits : List tfhe.Rgsw)
      (samples : List tfhe.Rlwe) (c : ℕ → tfhe.Rlwe)
      → InRange size gs
      → Numbered b gs
      → length bits ≡ length gs
      → EncryptBits b bits swap_bits
      → Holds size samples c
      → Evaluated size gs bits swap_bits samples c
  unfolding eval_gates routed Numbered
  eval_gates-Evaluated size b [] bits swap_bits samples c range num len enc h = record {
    out = samples;
    element = c;
    returns = refl;
    holds = h;
    close =
        λ p t. Close-weaken 0 (0 * laws.growth) _ _ (omega arith) (Close-self (laws.phase (c p) t));
  }
  eval_gates-Evaluated size b (g ∷ gs) [] swap_bits samples c range num len enc h =
      absurd (omega (arith, len))
  eval_gates-Evaluated size b (g ∷ gs) (bit ∷ bits) swap_bits samples c range num len enc h =
      let lt = range.0.1 in
      let control = enc 0 bit refl in
      let here : b + 0 ≡ b = omega arith in
      let found : get_elem? swap_bits b ≡ some control.0 =
        ap (get_elem? swap_bits) (sym here) ∙ control.1.0 in
      let ih =
        eval_gates-Evaluated size (b + 1) gs bits swap_bits _ (mixed control.0 c g.i) range.1 num.1
          (omega (arith, len))
          (λ k v e.
            let next = enc (suc k) v e in
            let same : b + suc k ≡ b + 1 + k = omega arith in
            (next.0, (ap (get_elem? swap_bits) (sym same) ∙ next.1.0, next.1.1)))
          (mixed-Holds size control.0 samples c g.i lt h) in
      record {
        out = ih.out;
        element = ih.element;
        returns =
            rw (num.0, range.0.0, found, h.elements g.i (omega arith), h.elements (g.i + 1) lt)
              ih.returns;
        holds = ih.holds;
        close = λ p t.
            let q = routed gs bits (λ r. r) p in
            let step = mixed-Close control.0 bit c g.i q t control.1.1 in
            let all =
              Close-trans (length gs * laws.growth) laws.growth (laws.phase (ih.element p) t)
                (laws.phase (routed gs bits (mixed control.0 c g.i) p) t)
                (laws.phase (routed gs bits (λ r. c (origin bit g.i r)) p) t) (ih.close p t)
                (rw
                  (
                    routed_self gs bits (mixed control.0 c g.i) p,
                    routed_self gs bits (λ r. c (origin bit g.i r)) p,
                  )
                  step) in
            Close-weaken _ (length (g ∷ gs) * laws.growth) _ _ (omega arith) all;
      }
