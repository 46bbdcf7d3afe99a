-- ===== src/Onion/Waksman/SwapBits.antt =====
-- GenerateSwapBits as a whole: permutations and the other vectors of indices.
use mathlib.Core.Path.{subst}
use unified_oramhub.Base.{
  ℕ, zero, suc, ◌+◌, ◌<◌, ◌≡◌, refl, sym, ◌∙◌, ap, ◌⊎◌, inl, inr, List, [], ◌∷◌, Bool, true, false,
  some, Result, ok, err, invalid_argument, arith, length, replicate, leb, Bool-cases, eq-or-ne,
  eq→==, get_elem?-lt_length, at, at_eq, get_elem?-at,
}
use unified_oramhub.Onion.Waksman.{
  WaksmanGate, WaksmanNetwork, build_network, new_waksman_network, rank_loop, synthesize, indices,
  same_list, generate_swap_bits,
}
use unified_oramhub.Onion.Waksman.Exchange.{origin, exchange}
use unified_oramhub.Onion.Waksman.Phases.{exchange_all}
use unified_oramhub.Onion.Waksman.Sorting.{
  InRange, IsArrangement, origin-lt, build_network-InRange, build_network-sorts,
}
use unified_oramhub.Onion.Waksman.Synthesis.{
  Holds, decide, decisions, moved, moved-exchange_all, Synthesized, synthesize-Synthesized,
  build_network-Numbered, length-decisions, overwrite, overwrite-replicate,
}
use unified_oramhub.Onion.Waksman.Ranks.{at-Holds, Ranked, ranked, rejected, rank_loop-start}

-- Each index below `size` exactly once.
pub record IsPermutation (size : ℕ) (permutation : List ℕ) : Type 0 where
  pub sized : length permutation ≡ size
  pub arrangement : IsArrangement size (at permutation)

-- The elements after the gates `gs`, where the bits `bs` decide.
unfoldable pub routed : {A : Type 0} → List WaksmanGate → List Bool → (ℕ → A) → ℕ → A
routed [] bs x = x
routed (g ∷ gs) [] x = x
routed (g ∷ gs) (b ∷ bs) x = routed gs bs (λ p. x (origin b g.i p))

pub routed_self :
    {A : Type 0} (gs : List WaksmanGate) (bs : List Bool) (x : ℕ → A) (p : ℕ)
    → routed gs bs x p ≡ x (routed gs bs (λ q. q) p)
unfolding routed
routed_self [] bs x p = refl
routed_self (g ∷ gs) [] x p = refl
routed_self (g ∷ gs) (b ∷ bs) x p =
    routed_self gs bs (λ q. x (origin b g.i q)) p
    ∙ ap x (sym (routed_self gs bs (λ q. origin b g.i q) p))

moved-routed :
    (gs : List WaksmanGate) (r c : ℕ → ℕ) (p : ℕ)
    → moved gs r c p ≡ routed gs (decisions gs r c) c p
unfolding moved routed decisions
moved-routed [] r c p = refl
moved-routed (g ∷ gs) r c p = moved-routed gs r (λ q. c (origin (decide r c g) g.i q)) p

-- Every value after the exchanges was there before.
exchange_all_source :
    (size : ℕ) (gs : List WaksmanGate) (x : ℕ → ℕ) (p : ℕ)
    → InRange size gs
    → p < size
    → (q : ℕ) × ((q < size) × (x q ≡ exchange_all gs x p))
unfolding exchange_all exchange
exchange_all_source size [] x p range h = (p, (h, refl))
exchange_all_source size (g ∷ gs) x p range h =
    let before = exchange_all_source size gs (exchange g.i x) p range.1 h in
    let b = decide (λ q. q) x g in
    (origin b g.i before.0, (origin-lt b g.i before.0 size range.0.1 before.1.0, before.1.1))

-- An arrangement reaches every number below `size`.
pub IsArrangement_onto :
    (size : ℕ) (x : ℕ → ℕ) (v : ℕ)
    → IsArrangement size x
    → v < size
    → (q : ℕ) × ((q < size) × (x q ≡ v))
IsArrangement_onto size x v a h =
    let s = exchange_all_source size (build_network size) x v (build_network-InRange size) h in
    (s.0, (s.1.0, s.1.1 ∙ build_network-sorts size x a v h))

module _ (size : ℕ) (x : ℕ → ℕ) (rank : List ℕ) (k : Ranked size x rank) where
  Ranked-IsArrangement : IsArrangement size x
  Ranked-IsArrangement = record {
    bounded = λ p h. ground (arith, get_elem?-lt_length rank (x p) (k.inverse p h), k.sized);
    different = λ p q h l e.
        sym (at_eq rank (x p) (k.inverse p h)) ∙ ap (at rank) e ∙ at_eq rank (x q) (k.inverse q l);
  }

  rank-IsArrangement : IsArrangement size (at rank)
  rank-IsArrangement = record {
    bounded = λ q h.
        let s = IsArrangement_onto size x q Ranked-IsArrangement h in
        ground (arith, ap (at rank) s.1.1, at_eq rank (x s.0) (k.inverse s.0 s.1.0), s.1.0);
    different = λ p q h l e.
        let s = IsArrangement_onto size x p Ranked-IsArrangement h in
        let t = IsArrangement_onto size x q Ranked-IsArrangement l in
        let same : s.0 ≡ t.0 =
          sym (at_eq rank (x s.0) (k.inverse s.0 s.1.0))
          ∙ ap (at rank) s.1.1
          ∙ e
          ∙ sym (ap (at rank) t.1.1)
          ∙ at_eq rank (x t.0) (k.inverse t.0 t.1.0) in
        sym s.1.1 ∙ ap x same ∙ t.1.1;
  }

  moved_lt :
      (gs : List WaksmanGate) (c : ℕ → ℕ) (p : ℕ)
      → InRange size gs
      → ((q : ℕ) → q < size → c q < size)
      → p < size
      → moved gs (at rank) c p < size
  unfolding moved
  moved_lt [] c p range b h = b p h
  moved_lt (g ∷ gs) c p range b h =
      let d = decide (at rank) c g in
      moved_lt gs (λ q. c (origin d g.i q)) p range.1
        (λ q l. b (origin d g.i q) (origin-lt d g.i q size range.0.1 l)) h

  -- Sorted by their ranks, the indices stand as the permutation says.
  moved_indices : (p : ℕ) → p < size → moved (build_network size) (at rank) (λ q. q) p ≡ x p
  moved_indices p h =
      let y = moved (build_network size) (at rank) (λ q. q) p in
      let in_place : at rank y ≡ p =
        moved-exchange_all (build_network size) (at rank) (λ q. q) p
        ∙ build_network-sorts size (at rank) rank-IsArrangement p h in
      let source =
        IsArrangement_onto size x y Ranked-IsArrangement
          (moved_lt (build_network size) (λ q. q) p (build_network-InRange size) (λ q l. l) h) in
      let same : source.0 ≡ p =
        sym (at_eq rank (x source.0) (k.inverse source.0 source.1.0))
        ∙ ap (at rank) source.1.1
        ∙ in_place in
      sym source.1.1 ∙ ap x same

same_list_of :
    (xs ys : List ℕ)
    → length xs ≡ length ys
    → ((p : ℕ) → p < length xs → at xs p ≡ at ys p)
    → same_list xs ys ≡ true
unfolding same_list
same_list_of [] [] e h = refl
same_list_of [] (y ∷ ys) e h = absurd (omega (arith, e))
same_list_of (x ∷ xs) [] e h = absurd (omega (arith, e))
same_list_of (x ∷ xs) (y ∷ ys) e h =
    rw (eq→== x y (h 0 (omega arith)))
      (same_list_of xs ys (omega (arith, e)) (λ p lt. h (suc p) (omega arith)))

pub at-indices : (n start p : ℕ) → p < n → at (indices n start) p ≡ start + p
unfolding indices
at-indices zero start p h = absurd (omega arith)
at-indices (suc n) start zero h = omega arith
at-indices (suc n) start (suc p) h = omega (arith, at-indices n (start + 1) p (omega arith))

pub length-indices : (n start : ℕ) → length (indices n start) ≡ n
unfolding indices
length-indices zero start = refl
length-indices (suc n) start = ap suc (length-indices n (start + 1))

indices-Holds : (size : ℕ) → Holds size (indices size 0) (λ p. p)
indices-Holds size = record {
  sized = length-indices size 0;
  elements = λ p h.
      get_elem?-at (indices size 0) p (omega (arith, length-indices size 0))
      ∙ ap some (at-indices size 0 p h ∙ omega arith);
}

-- What GenerateSwapBits returns: the bits of the gates, which route the entries of the permutation.
pub record Routes (size : ℕ) (permutation : List ℕ) (bits : List Bool) : Type 0 where
  pub sized : length bits ≡ length (build_network size)
  pub routes : (p : ℕ) → p < size → routed (build_network size) bits (λ q. q) p ≡ at permutation p

-- The final comparison of GenerateSwapBits succeeds, whatever the permutation.
module _ (size : ℕ) (permutation rank : List ℕ) (e : length permutation ≡ size)
    (k : Ranked size (at permutation) rank) where
  network_synthesis :
      Synthesized size
        (build_network size)
        (at rank)
        (λ p. p)
        rank
        (indices size 0)
        (replicate (length (build_network size)) false)
        0
  network_synthesis =
      synthesize-Synthesized size 0 (build_network size) (at rank) (λ p. p) rank (indices size 0)
        (replicate (length (build_network size)) false) (build_network-InRange size)
        (build_network-Numbered size) (at-Holds size rank k.sized) (indices-Holds size) (λ p h. h)

  final_same : same_list network_synthesis.final permutation ≡ true
  final_same =
      let h = network_synthesis.holds in
      same_list_of network_synthesis.final permutation (h.sized ∙ sym e) (λ p lt.
        at_eq network_synthesis.final p (h.elements p (omega (arith, h.sized)))
        ∙ moved_indices size (at permutation) rank k p (omega (arith, h.sized)))

  abbrev network_bits : List Bool
  network_bits = decisions (build_network size) (at rank) (λ p. p)

  synthesize-network :
      synthesize
        (build_network size)
        rank
        (indices size 0)
        (replicate (length (build_network size)) false)
      ≡ ok (network_bits, network_synthesis.final)
  synthesize-network =
      let n = length-decisions (build_network size) (at rank) (λ p. p) in
      network_synthesis.returns
      ∙ ap (λ bits. ok (bits, network_synthesis.final))
          (ap (λ n. overwrite (replicate n false) 0 network_bits) (sym n)
            ∙ overwrite-replicate network_bits)

  network_bits-Routes : Routes size permutation network_bits
  network_bits-Routes = record {
    sized = length-decisions (build_network size) (at rank) (λ p. p);
    routes = λ p h.
        sym (moved-routed (build_network size) (at rank) (λ q. q) p)
        ∙ moved_indices size (at permutation) rank k p h;
  }

  ranked_cases :
      rank_loop size permutation 0 (replicate size false) (replicate size 0) ≡ ok rank
      → generate_swap_bits (record { size = size; gates = build_network size }) permutation
        ≡ ok network_bits
  unfolding generate_swap_bits
  ranked_cases loop = rw (eq→== _ _ e, loop, synthesize-network, final_same) refl

abbrev pub Generated : ℕ → List ℕ → Result (List Bool) → Type 0
Generated size permutation result =
    (IsPermutation size permutation
      × ((bits : List Bool) × ((result ≡ ok bits) × Routes size permutation bits)))
    ⊎ ((IsPermutation size permutation → ⊥) × (result ≡ err invalid_argument))

generate_swap_bits-Generated :
    (size : ℕ) (permutation : List ℕ)
    → Generated size permutation
        (generate_swap_bits (record { size = size; gates = build_network size }) permutation)
generate_swap_bits-Generated size permutation = elim (eq-or-ne (length permutation) size) [
  | inr ne ↦ inr ((λ p. ground (arith, ne, p.sized)), (unfold generate_swap_bits in rw ne refl))
  | inl e ↦ elim (rank_loop-start size permutation e) [
    | rejected loop invalid ↦
        inr
          ((λ p. invalid p.arrangement), (unfold generate_swap_bits in rw (eq→== _ _ e, loop) refl))
    | ranked rank loop k ↦ inl (
      record { sized = e; arrangement = Ranked-IsArrangement size (at permutation) rank k },
      (
        network_bits size permutation rank e k,
        (
          ranked_cases size permutation rank e k loop,
          network_bits-Routes size permutation rank e k,
        ),
      ),
    )
  ]
]

-- GenerateSwapBits of a network that was constructed has two outcomes only: for a permutation of
-- its size it returns one bit for each gate, with which the gates route the indices as the
-- permutation says, and for any other vector it throws invalid_argument.
pub generate_swap_bits_total :
    (network : WaksmanNetwork) (size : ℕ) (permutation : List ℕ)
    → new_waksman_network size ≡ ok network
    → Generated size permutation (generate_swap_bits network permutation)
unfolding new_waksman_network
generate_swap_bits_total network size permutation h = elim (Bool-cases (leb 2 size)) [
  | inl big ↦
      let same : record { size = size; gates = build_network size } ≡ network =
        ground (arith, h, big) in
      subst (λ n. Generated size permutation (generate_swap_bits n permutation)) same
        (generate_swap_bits-Generated size permutation)
  | inr small ↦ ground (arith, h, small)
]
