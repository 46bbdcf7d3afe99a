-- ===== src/Onion/Waksman/Phases.antt =====
-- Odd and even phases of exchanges in turn move every value that counts to the right, one position
-- a phase once its way is free.
use mathlib.Core.Path.{subst}
use unified_oramhub.Base.{
  List, [], ◌∷◌, ◌++◌, length, Bool-cases, ℕ, zero, suc, ◌+◌, ◌-◌, ◌*◌, ◌/◌, ◌%◌, ◌≤◌, ◌<◌, ◌≡◌,
  refl, sym, ◌∙◌, ap, ◌⊎◌, inl, inr, Bool, true, false, arith, ltb, leb, if◌then◌else◌,
}
use unified_oramhub.Onion.Waksman.{WaksmanGate, phase_gates, phases, build_network}
use unified_oramhub.Onion.Waksman.Exchange.{
  exchange, one_if, count, count-suc, count_shorter, count-exchange_above, count-exchange_second,
  count-exchange_below,
}

-- `size` positions, of which `k` count; after `t` phases the suffix from `j` on has `s` that count.
abbrev pub Good : ℕ → ℕ → ℕ → ℕ → ℕ → Type 0
Good size k t j s = (k ≤ s) ⊎ ((size ≤ j + s) ⊎ (2 * ((k - 1) / 2) + t < j + 2 * s))

Good-second :
    (size k t i s₀ s₂ : ℕ) (b b' : Bool)
    → Good size k t i s₀
    → Good size k t (i + 2) s₂
    → s₀ ≡ one_if b + (one_if b' + s₂)
    → Good size k (t + 1) (i + 1) ((if b then 1 else one_if b') + s₂)
Good-second size k t i s₀ s₂ true true g₀ g₂ e = ground arith
Good-second size k t i s₀ s₂ true false g₀ g₂ e = ground arith
Good-second size k t i s₀ s₂ false true g₀ g₂ e = ground arith
Good-second size k t i s₀ s₂ false false g₀ g₂ e = ground arith

-- A position of the parity of the phase has nothing to gain from it.
Good_skip : (size k t j s : ℕ) → j % 2 ≡ t % 2 → Good size k t j s → Good size k (t + 1) j s
Good_skip size k t j s e g = ground arith

Good_last : (size k j s : ℕ) → Good size k size j s → (k ≤ s) ⊎ (size ≤ j + s)
Good_last size k j s g = ground arith

Good_weaken : (size k t j s : ℕ) → Good size k (t + 1) j s → Good size k t j s
Good_weaken size k t j s g = ground arith

Good_start : (size k m j s : ℕ) → j + m ≡ size → k ≤ j + s → Good size k 0 j s
Good_start size k m j s e le = ground arith

three_ways : (j i : ℕ) → (j ≤ i) ⊎ ((j ≡ i + 1) ⊎ (i + 2 ≤ j))
three_ways j i = ground arith

-- The exchanges of a list of gates, on the sequence of values.
unfoldable pub exchange_all : List WaksmanGate → (ℕ → ℕ) → ℕ → ℕ
exchange_all [] x = x
exchange_all (g ∷ gates) x = exchange_all gates (exchange g.i x)

pub exchange_all-append :
    (gs hs : List WaksmanGate) (x : ℕ → ℕ)
    → exchange_all (gs ++ hs) x ≡ exchange_all hs (exchange_all gs x)
unfolding exchange_all
exchange_all-append [] hs x = refl
exchange_all-append (g ∷ gs) hs x = exchange_all-append gs hs (exchange g.i x)

module _ (size v k : ℕ) where
  -- After `t` phases.
  pub record Reached (t : ℕ) (x : ℕ → ℕ) : Type 0 where
    pub total : count v x size 0 ≡ k
    pub good : (m j : ℕ) → j + m ≡ size → Good size k t j (count v x m j)

  -- In phase `t`, with the pairs to the left of position `i` done.
  record Within (t i : ℕ) (x : ℕ → ℕ) : Type 0 where
    reached : Reached t x
    ahead : (m j : ℕ) → j + m ≡ size → j ≤ i → Good size k (t + 1) j (count v x m j)

  count-exchange_left :
      (x : ℕ → ℕ) (i m j : ℕ)
      → j ≤ i
      → i + 1 < size
      → j + m ≡ size
      → count v (exchange i x) m j ≡ count v x m j
  count-exchange_left x i m j le lt e =
      let split : m ≡ i - j + suc (suc (m - 2 - (i - j))) = omega arith in
      subst (λ n. count v (exchange i x) n j ≡ count v x n j) (sym split)
        (count-exchange_below v x i (i - j) (m - 2 - (i - j)) j (omega arith))

  second :
      (t i : ℕ) (x : ℕ → ℕ) (m : ℕ)
      → i + 1 + suc m ≡ size
      → Reached t x
      → Good size k (t + 1) (i + 1) (count v (exchange i x) (suc m) (i + 1))
  second t i x m e r =
      let same : i + 1 + 1 ≡ i + 2 = omega arith in
      let next : count v x (suc m) (i + 1) ≡ one_if (leb v (x (i + 1))) + count v x m (i + 2) =
        count-suc v x m (i + 1) ∙ ap (λ q. one_if (leb v (x (i + 1))) + count v x m q) same in
      rw (count-exchange_second v x i m) (
        Good-second size k t i (count v x (suc (suc m)) i) (count v x m (i + 2)) (leb v (x i))
          (leb v (x (i + 1))) (r.good (suc (suc m)) i (omega arith))
          (r.good m (i + 2) (omega arith))
          (count-suc v x (suc m) i ∙ ap (λ q. one_if (leb v (x i)) + q) next))

  exchange-Within :
      (t i : ℕ) (x : ℕ → ℕ)
      → i + 1 < size
      → i % 2 ≡ t % 2
      → Within t i x
      → Within t (i + 2) (exchange i x)
  exchange-Within t i x lt par w =
      let r = w.reached in
      let at_second : (m j : ℕ)
          → j + m ≡ size
          → j ≡ i + 1
          → Good size k (t + 1) j (count v (exchange i x) m j) =
        λ m j e same.
          let split : m ≡ suc (m - 1) = omega arith in
          subst (λ n. Good size k (t + 1) j (count v (exchange i x) n j)) (sym split)
            (subst (λ n. Good size k (t + 1) n (count v (exchange i x) (suc (m - 1)) n)) (sym same)
              (second t i x (m - 1) (omega arith) r)) in
      record {
        reached = record {
          total = count-exchange_left x i size 0 (omega arith) lt (omega arith) ∙ r.total;
          good = λ m j e. elim (three_ways j i) [
            | inl le ↦ rw (count-exchange_left x i m j le lt e) (r.good m j e)
            | inr (inl same) ↦
                Good_weaken size k t j (count v (exchange i x) m j) (at_second m j e same)
            | inr (inr ge) ↦ rw (count-exchange_above v x i m j ge) (r.good m j e)
          ];
        };
        ahead = λ m j e le. elim (three_ways j i) [
          | inl left ↦ rw (count-exchange_left x i m j left lt e) (w.ahead m j e left)
          | inr (inl same) ↦ at_second m j e same
          | inr (inr ge) ↦
              rw (count-exchange_above v x i m j ge)
                (Good_skip size k t j (count v x m j) (omega arith) (r.good m j e))
        ];
      }

  phase-Within :
      (fuel t i b : ℕ) (x : ℕ → ℕ)
      → size ≤ i + fuel
      → i % 2 ≡ t % 2
      → Within t i x
      → Reached (t + 1) (exchange_all (phase_gates fuel size i b) x)
  unfolding phase_gates exchange_all
  phase-Within zero t i b x enough par w = record {
    total = w.reached.total;
    good = λ m j e. w.ahead m j e (omega arith);
  }
  phase-Within (suc fuel) t i b x enough par w = elim (Bool-cases (ltb (i + 1) size)) [
    | inl h ↦ rw h (
        phase-Within fuel t (i + 2) (b + 1) (exchange i x) (omega arith) (omega arith)
          (exchange-Within t i x (ground (arith, h)) par w))
    | inr h ↦
        let right : (m j : ℕ) → j + m ≡ size → Good size k (t + 1) j (count v x m j) = λ m j e.
          elim (three_ways j i) [
            | inl le ↦ w.ahead m j e le
            | inr (inl same) ↦ inr (inl (ground (arith, h, same, e)))
            | inr (inr ge) ↦ absurd (ground (arith, h, ge, e))
          ] in
        rw h (record { total = w.reached.total; good = right })
  ]

  start-Within : (t : ℕ) (x : ℕ → ℕ) → Reached t x → Within t (t % 2) x
  start-Within t x r = record { reached = r; ahead = ahead }
    where
      ahead : (m j : ℕ) → j + m ≡ size → j ≤ t % 2 → Good size k (t + 1) j (count v x m j)
      ahead m zero e le = let all : m ≡ size = omega arith in inl (rw all (omega (arith, r.total)))
      ahead m (suc j) e le =
          Good_skip size k t (suc j) (count v x m (suc j)) (omega arith) (r.good m (suc j) e)

  phases-Reached :
      (n t b : ℕ) (x : ℕ → ℕ) → Reached t x → Reached (t + n) (exchange_all (phases n t size b) x)
  unfolding phases exchange_all
  phases-Reached zero t b x r = subst (λ q. Reached q x) (omega arith) r
  phases-Reached (suc n) t b x r =
      let gates = phase_gates size size (t % 2) b in
      let later =
        phases-Reached n (t + 1) (b + length gates) (exchange_all gates x)
          (phase-Within size t (t % 2) b x (omega arith) (omega arith) (start-Within t x r)) in
      rw (exchange_all-append gates (phases n (t + 1) size (b + length gates)) x) (
        subst
          (λ q.
            Reached q
              (exchange_all (phases n (t + 1) size (b + length gates)) (exchange_all gates x)))
          (omega arith) later)

  none_yet : (x : ℕ → ℕ) → count v x size 0 ≡ k → Reached 0 x
  none_yet x e = record {
    total = e;
    good = λ m j split. Good_start size k m j (count v x m j) split (
        let z : 0 + j ≡ j = omega arith in
        omega (
          arith,
          count_shorter v x j m 0,
          e,
          ap (λ n. count v x n 0) split,
          ap (λ q. count v x m q) z,
        ));
  }

-- After the whole network every suffix is full of values that count, or has all of them.
pub build_network-count :
    (size v : ℕ) (x : ℕ → ℕ) (m j : ℕ)
    → j + m ≡ size
    → (count v (exchange_all (build_network size) x) size 0
        ≤ count v (exchange_all (build_network size) x) m j)
      ⊎ (size ≤ j + count v (exchange_all (build_network size) x) m j)
unfolding build_network
build_network-count size v x m j e =
    let k = count v x size 0 in
    let r = phases-Reached size v k size 0 0 x (none_yet size v k x refl) in
    let z : 0 + size ≡ size = omega arith in
    let y = exchange_all (phases size 0 size 0) x in
    rw (r.total) (
      Good_last size k j (count v y m j)
        (subst (λ t. Good size k t j (count v y m j)) z (r.good m j e)))
