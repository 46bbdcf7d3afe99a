-- ===== src/Onion/Waksman/Sorting.antt =====
-- The network on a sequence of different values below its size: every value comes to the position
-- of its own number.
use unified_oramhub.Base.{
  ℕ, zero, suc, ◌+◌, ◌-◌, ◌%◌, ◌≤◌, ◌<◌, ◌≡◌, refl, ap, inl, inr, List, [], ◌∷◌, ◌++◌, length, Bool,
  arith, ltb, leb, Bool-cases, eq-or-ne,
}
use unified_oramhub.Onion.Waksman.{WaksmanGate, phase_gates, phases, build_network}
use unified_oramhub.Onion.Waksman.Exchange.{origin, exchange, one_if, count, count-suc, count_le}
use unified_oramhub.Onion.Waksman.Phases.{exchange_all, build_network-count}

-- Gates of neighbours below `size`.
abbrev pub InRange : ℕ → List WaksmanGate → Type 0
InRange size [] = Unit {0}
InRange size (g ∷ gs) = ((g.j ≡ g.i + 1) × (g.i + 1 < size)) × InRange size gs

InRange-append :
    (size : ℕ) (gs hs : List WaksmanGate)
    → InRange size gs
    → InRange size hs
    → InRange size (gs ++ hs)
InRange-append size [] hs r q = q
InRange-append size (g ∷ gs) hs r q = (r.0, InRange-append size gs hs r.1 q)

phase_gates-InRange : (fuel size i b : ℕ) → InRange size (phase_gates fuel size i b)
unfolding phase_gates
phase_gates-InRange zero size i b = tt
phase_gates-InRange (suc fuel) size i b = elim (Bool-cases (ltb (i + 1) size)) [
  | inl h ↦ rw h ((refl, ground (arith, h)), phase_gates-InRange fuel size (i + 2) (b + 1))
  | inr h ↦ rw h tt
]

phases-InRange : (n t size b : ℕ) → InRange size (phases n t size b)
unfolding phases
phases-InRange zero t size b = tt
phases-InRange (suc n) t size b =
    let gates = phase_gates size size (t % 2) b in
    InRange-append size gates _ (phase_gates-InRange size size (t % 2) b)
      (phases-InRange n (t + 1) size (b + length gates))

pub build_network-InRange : (size : ℕ) → InRange size (build_network size)
unfolding build_network
build_network-InRange size = phases-InRange size 0 size 0

-- Different values below `size`.
pub record IsArrangement (size : ℕ) (x : ℕ → ℕ) : Type 0 where
  pub bounded : (p : ℕ) → p < size → x p < size
  pub different : (p q : ℕ) → p < size → q < size → x p ≡ x q → p ≡ q

pub origin-lt : (swap : Bool) (i p size : ℕ) → i + 1 < size → p < size → origin swap i p < size
origin-lt swap i p size lt h = ground arith

origin_inj : (swap : Bool) (i p q : ℕ) → origin swap i p ≡ origin swap i q → p ≡ q
origin_inj swap i p q e = ground arith

exchange-IsArrangement :
    (size i : ℕ) (x : ℕ → ℕ)
    → i + 1 < size
    → IsArrangement size x
    → IsArrangement size (exchange i x)
unfolding exchange
exchange-IsArrangement size i x lt a =
    let b = ltb (x (i + 1)) (x i) in
    record {
      bounded = λ p h. a.bounded (origin b i p) (origin-lt b i p size lt h);
      different = λ p q h k e. origin_inj b i p q (
          a.different (origin b i p) (origin b i q) (origin-lt b i p size lt h)
            (origin-lt b i q size lt k) e);
    }

exchange_all-IsArrangement :
    (size : ℕ) (gs : List WaksmanGate) (x : ℕ → ℕ)
    → InRange size gs
    → IsArrangement size x
    → IsArrangement size (exchange_all gs x)
unfolding exchange_all
exchange_all-IsArrangement size [] x r a = a
exchange_all-IsArrangement size (g ∷ gs) x r a =
    exchange_all-IsArrangement size gs (exchange g.i x) r.1
      (exchange-IsArrangement size g.i x r.0.1 a)

count_longer : (v : ℕ) (x : ℕ → ℕ) (k m j : ℕ) → count v x m (j + k) ≤ count v x (k + m) j
unfolding count
count_longer v x zero m j =
    let e : j + 0 ≡ j = omega arith in let f : 0 + m ≡ m = omega arith in rw (e, f) (omega arith)
count_longer v x (suc k) m j =
    let e : j + suc k ≡ j + 1 + k = omega arith in
    let f : suc k + m ≡ suc (k + m) = omega arith in
    rw (e, f) (ground (arith, count_longer v x k m (j + 1)))

module _ (size : ℕ) (x : ℕ → ℕ) where
  abbrev y : ℕ → ℕ
  y = exchange_all (build_network size) x

  sorted : (j m : ℕ) → j + suc (suc m) ≡ size → y j ≤ y (j + 1)
  sorted j m e = elim (Bool-cases (leb (y j) (y (j + 1)))) [
    | inl h ↦ ground (arith, h)
    | inr h ↦
        let v = y j in
        let from_j = count-suc v y (suc m) j in
        let from_next = count-suc v y m (j + 1) in
        let few = count_le v y m (j + 1 + 1) in
        let total = count_longer v y j (suc (suc m)) 0 in
        let z : 0 + j ≡ j = omega arith in
        let part = ap (λ q. count v y (suc (suc m)) q) z in
        let whole = ap (λ n. count v y n 0) e in
        let high : one_if (leb v (y j)) ≡ 1 = ground arith in
        let low : one_if (leb v (y (j + 1))) ≡ 0 = rw h refl in
        absurd (
          omega (
            arith,
            build_network-count size v x (suc m) (j + 1) (omega arith),
            from_j,
            from_next,
            few,
            total,
            part,
            whole,
            high,
            low,
          ))
  ]

  module _ (a : IsArrangement size x) where
    after : IsArrangement size y
    after = exchange_all-IsArrangement size (build_network size) x (build_network-InRange size) a

    climb : (m p : ℕ) → p + m < size → y p + m ≤ y (p + m)
    climb zero p h = let e : p + 0 ≡ p = omega arith in rw e (omega arith)
    climb (suc m) p h =
        let step : y p < y (p + 1) = elim (eq-or-ne (y p) (y (p + 1))) [
          | inl same ↦
              absurd (omega (arith, after.different p (p + 1) (omega arith) (omega arith) same))
          | inr ne ↦ ground (arith, ne, sorted p (size - 2 - p) (omega arith))
        ] in
        let e : p + suc m ≡ p + 1 + m = omega arith in
        rw e (omega (arith, climb m (p + 1) (omega arith), step))

    -- The network sorts.
    pub build_network-sorts : (p : ℕ) → p < size → y p ≡ p
    build_network-sorts p h =
        let up = climb p 0 (omega arith) in
        let down = climb (size - 1 - p) p (omega arith) in
        let z : 0 + p ≡ p = omega arith in
        let last : p + (size - 1 - p) ≡ size - 1 = omega arith in
        omega (arith, up, down, ap y z, ap y last, after.bounded (size - 1) (omega arith))
