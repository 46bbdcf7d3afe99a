-- ===== src/Onion/Waksman/Synthesis.antt =====
-- GenerateSwapBits on a permutation: the loop over the gates moves the indices as the exchanges of
-- their ranks do.
use mathlib.Core.Path.{subst}
use unified_oramhub.Base.{
  ℕ, zero, suc, ◌+◌, ◌%◌, ◌<◌, ◌≡◌, refl, sym, ◌∙◌, ap, inl, inr, List, [], ◌∷◌, ◌++◌, Bool, true,
  false, some, ok, arith, length, get_elem?, set, replicate, ltb, if◌then◌else◌, Bool-cases,
  get_elem?-set, length-set, length-append, append_assoc,
}
use unified_oramhub.Onion.Waksman.{
  WaksmanGate, phase_gates, phases, build_network, swapped, synthesize,
}
use unified_oramhub.Onion.Waksman.Exchange.{origin, exchange}
use unified_oramhub.Onion.Waksman.Phases.{exchange_all}
use unified_oramhub.Onion.Waksman.Sorting.{InRange, origin-lt}

-- A vector of `size` elements, as a function of the index.
pub record Holds {A : Type 0} (size : ℕ) (xs : List A) (x : ℕ → A) : Type 0 where
  pub sized : length xs ≡ size
  pub elements : (p : ℕ) → p < size → get_elem? xs p ≡ some (x p)

module _ {A : Type 0} (size : ℕ) (xs : List A) (x : ℕ → A) (h : Holds size xs x) (i : ℕ)
    (lt : i + 1 < size) where
  swapped-Holds : Holds size (swapped xs i (i + 1) (x i) (x (i + 1))) (λ p. x (origin true i p))
  swapped-Holds = record {
    sized = length-set (set xs i (x (i + 1))) (i + 1) (x i) ∙ length-set xs i (x (i + 1)) ∙ h.sized;
    elements = λ p k. ground (
      arith,
      get_elem?-set (set xs i (x (i + 1))) (i + 1) p (x i),
      get_elem?-set xs i p (x (i + 1)),
      h.elements p k,
      length-set xs i (x (i + 1)),
      h.sized,
      ap x,
    );
  }

  pub move-Holds :
      (b : Bool)
      → Holds size
          (if b then swapped xs i (i + 1) (x i) (x (i + 1)) else xs)
          (λ p. x (origin b i p))
  move-Holds true = swapped-Holds
  move-Holds false = h

-- The decision at a gate, by the ranks `r` of the indices `c`.
abbrev pub decide : (ℕ → ℕ) → (ℕ → ℕ) → WaksmanGate → Bool
decide r c g = ltb (r (c (g.i + 1))) (r (c g.i))

unfoldable pub decisions : List WaksmanGate → (ℕ → ℕ) → (ℕ → ℕ) → List Bool
decisions [] r c = []
decisions (g ∷ gs) r c = decide r c g ∷ decisions gs r (λ p. c (origin (decide r c g) g.i p))

unfoldable pub moved : List WaksmanGate → (ℕ → ℕ) → (ℕ → ℕ) → ℕ → ℕ
moved [] r c = c
moved (g ∷ gs) r c = moved gs r (λ p. c (origin (decide r c g) g.i p))

pub moved-exchange_all :
    (gs : List WaksmanGate) (r c : ℕ → ℕ) (p : ℕ)
    → r (moved gs r c p) ≡ exchange_all gs (λ q. r (c q)) p
unfolding moved exchange_all exchange
moved-exchange_all [] r c p = refl
moved-exchange_all (g ∷ gs) r c p = moved-exchange_all gs r (λ q. c (origin (decide r c g) g.i q)) p

-- The bits after the gates: gate after gate, from number `b` on.
unfoldable pub Numbered : ℕ → List WaksmanGate → Type 0
Numbered b [] = Unit {0}
Numbered b (g ∷ gs) = (g.bit_idx ≡ b) × Numbered (b + 1) gs

-- Bits written one after the other from position `b` on.
unfoldable pub overwrite : List Bool → ℕ → List Bool → List Bool
overwrite bits b [] = bits
overwrite bits b (d ∷ ds) = overwrite (set bits b d) (b + 1) ds

pub record Synthesized (size : ℕ) (gs : List WaksmanGate) (r c : ℕ → ℕ) (rank current : List ℕ)
    (bits : List Bool) (b : ℕ) : Type 0 where
  pub final : List ℕ
  pub returns : synthesize gs rank current bits ≡ ok (overwrite bits b (decisions gs r c), final)
  pub holds : Holds size final (moved gs r c)

pub synthesize-Synthesized :
    (size b : ℕ) (gs : List WaksmanGate) (r c : ℕ → ℕ) (rank current : List ℕ) (bits : List Bool)
    → InRange size gs
    → Numbered b gs
    → Holds size rank r
    → Holds size current c
    → ((p : ℕ) → p < size → c p < size)
    → Synthesized size gs r c rank current bits b
unfolding synthesize decisions moved overwrite Numbered
synthesize-Synthesized size b [] r c rank current bits range num hr hc bound = record {
  final = current;
  returns = refl;
  holds = hc;
}
synthesize-Synthesized size b (g ∷ gs) r c rank current bits range num hr hc bound =
    let d = decide r c g in
    let lt = range.0.1 in
    let next = if d then swapped current g.i (g.i + 1) (c g.i) (c (g.i + 1)) else current in
    let ih =
      synthesize-Synthesized size (b + 1) gs r (λ p. c (origin d g.i p)) rank next (set bits b d)
        range.1 num.1 hr (move-Holds size current c hc g.i lt d)
        (λ p h. bound (origin d g.i p) (origin-lt d g.i p size lt h)) in
    record {
      final = ih.final;
      returns =
          rw
            (
              range.0.0,
              num.0,
              hc.elements g.i (omega arith),
              hc.elements (g.i + 1) lt,
              hr.elements (c g.i) (bound g.i (omega arith)),
              hr.elements (c (g.i + 1)) (bound (g.i + 1) lt),
            )
            ih.returns;
      holds = ih.holds;
    }

-- The gates of the network are numbered from 0.
Numbered-append :
    (b : ℕ) (gs hs : List WaksmanGate)
    → Numbered b gs
    → Numbered (b + length gs) hs
    → Numbered b (gs ++ hs)
unfolding Numbered
Numbered-append b [] hs m n = subst (λ k. Numbered k hs) (omega arith) n
Numbered-append b (g ∷ gs) hs m n =
    (m.0, Numbered-append (b + 1) gs hs m.1 (subst (λ k. Numbered k hs) (omega arith) n))

phase_gates-Numbered : (fuel size i b : ℕ) → Numbered b (phase_gates fuel size i b)
unfolding phase_gates Numbered
phase_gates-Numbered zero size i b = tt
phase_gates-Numbered (suc fuel) size i b = elim (Bool-cases (ltb (i + 1) size)) [
  | inl h ↦ rw h (refl, phase_gates-Numbered fuel size (i + 2) (b + 1))
  | inr h ↦ rw h tt
]

phases-Numbered : (n t size b : ℕ) → Numbered b (phases n t size b)
unfolding phases Numbered
phases-Numbered zero t size b = tt
phases-Numbered (suc n) t size b =
    let gates = phase_gates size size (t % 2) b in
    Numbered-append b gates _ (phase_gates-Numbered size size (t % 2) b)
      (phases-Numbered n (t + 1) size (b + length gates))

pub build_network-Numbered : (size : ℕ) → Numbered 0 (build_network size)
unfolding build_network
build_network-Numbered size = phases-Numbered size 0 size 0

pub length-decisions : (gs : List WaksmanGate) (r c : ℕ → ℕ) → length (decisions gs r c) ≡ length gs
unfolding decisions
length-decisions [] r c = refl
length-decisions (g ∷ gs) r c =
    ap suc (length-decisions gs r (λ p. c (origin (decide r c g) g.i p)))

set-append :
    (pre : List Bool) (x v : Bool) (post : List Bool) (n : ℕ)
    → length pre ≡ n
    → set (pre ++ x ∷ post) n v ≡ pre ++ v ∷ post
set-append [] x v post zero e = refl
set-append [] x v post (suc n) e = absurd (omega arith)
set-append (p ∷ pre) x v post zero e = absurd (omega arith)
set-append (p ∷ pre) x v post (suc n) e = ap (λ r. p ∷ r) (set-append pre x v post n (omega arith))

overwrite_all :
    (ds pre : List Bool) (b : ℕ)
    → length pre ≡ b
    → overwrite (pre ++ replicate (length ds) false) b ds ≡ pre ++ ds
unfolding overwrite
overwrite_all [] pre b e = refl
overwrite_all (d ∷ ds) pre b e =
    rw
      (
        set-append pre false d (replicate (length ds) false) b e,
        sym (append_assoc pre (d ∷ []) (replicate (length ds) false)),
        sym (append_assoc pre (d ∷ []) ds),
      )
      (overwrite_all ds (pre ++ d ∷ []) (b + 1) (omega (arith, length-append pre (d ∷ []), e)))

pub overwrite-replicate : (ds : List Bool) → overwrite (replicate (length ds) false) 0 ds ≡ ds
overwrite-replicate ds = overwrite_all ds [] 0 refl
