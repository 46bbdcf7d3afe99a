-- ===== src/Onion/Ids/Reverse.antt =====
-- OnionRingClient::ReverseBits, which gives the order of the leaves that are evicted.
use native.Mathlib.Nat.{pow-suc}
use unified_oramhub.Base.{
  ℕ, zero, suc, ◌+◌, ◌-◌, ◌*◌, ◌/◌, ◌%◌, ◌^◌, ◌≤◌, ◌<◌, ◌≡◌, refl, ◌∙◌, ap, ◌⊎◌, inl, inr, arith,
}
use unified_oramhub.Core.Memory.{u64_mod}
use unified_oramhub.Tree.{shr}
use unified_oramhub.Tree.Levels.{two_pow_pos, shr-suc, pow-split}
use unified_oramhub.Onion.Ids.{reverse_loop, reverse_bits}

-- The reversal of the lowest `n` bits without the loop.
unfoldable reversed : ℕ → ℕ → ℕ
reversed zero v = 0
reversed (suc n) v = v % 2 * 2 ^ n + reversed n (v / 2)

low_bit : (v : ℕ) → (v % 2 ≡ 0) ⊎ (v % 2 ≡ 1)
low_bit v = ground arith

reversed-suc : (n v : ℕ) → reversed (suc n) v ≡ v % 2 * 2 ^ n + reversed n (v / 2)
unfolding reversed
reversed-suc n v = refl

reversed-zero : (v : ℕ) → reversed 0 v ≡ 0
unfolding reversed
reversed-zero v = refl

reversed-lt : (n v : ℕ) → reversed n v < 2 ^ n
reversed-lt zero v = rw (reversed-zero v) (two_pow_pos 0)
reversed-lt (suc n) v = elim (low_bit v) [
  | inl e ↦ rw (reversed-suc n v, e) (omega (arith, reversed-lt n (v / 2), pow-suc 2 n))
  | inr e ↦ rw (reversed-suc n v, e) (omega (arith, reversed-lt n (v / 2), pow-suc 2 n))
]

-- The highest bit becomes the lowest.
high_zero : (n w : ℕ) → w < 2 ^ n → reversed (suc n) w ≡ 2 * reversed n w
high_zero zero w lt =
    let z : w ≡ 0 = omega (arith, lt) in rw (z, reversed-suc 0 0, reversed-zero 0) refl
high_zero (suc n) w lt =
    let ih = high_zero n (w / 2) (omega (arith, lt, pow-suc 2 n)) in
    elim (low_bit w) [
      | inl e ↦ rw (reversed-suc (suc n) w, ih, reversed-suc n w, e) (omega (arith, pow-suc 2 n))
      | inr e ↦ rw (reversed-suc (suc n) w, ih, reversed-suc n w, e) (omega (arith, pow-suc 2 n))
    ]

high_one : (n w : ℕ) → w < 2 ^ n → reversed (suc n) (2 ^ n + w) ≡ 2 * reversed n w + 1
high_one zero w lt =
    let z : w ≡ 0 = omega (arith, lt) in rw (z, reversed-suc 0 1, reversed-zero 0) refl
high_one (suc n) w lt =
    let ih = high_one n (w / 2) (omega (arith, lt, pow-suc 2 n)) in
    let half : (2 ^ suc n + w) / 2 ≡ 2 ^ n + w / 2 = omega (arith, pow-suc 2 n) in
    let odd : (2 ^ suc n + w) % 2 ≡ w % 2 = omega (arith, pow-suc 2 n) in
    elim (low_bit w) [
      | inl e ↦
          rw (reversed-suc (suc n) (2 ^ suc n + w), half, odd, ih, reversed-suc n w, e)
            (omega (arith, pow-suc 2 n))
      | inr e ↦
          rw (reversed-suc (suc n) (2 ^ suc n + w), half, odd, ih, reversed-suc n w, e)
            (omega (arith, pow-suc 2 n))
    ]

reversed_twice : (n v : ℕ) → v < 2 ^ n → reversed n (reversed n v) ≡ v
reversed_twice zero v lt = rw (reversed-zero (reversed 0 v)) (omega (arith, lt))
reversed_twice (suc n) v lt =
    let ih = reversed_twice n (v / 2) (omega (arith, lt, pow-suc 2 n)) in
    let small = reversed-lt n (v / 2) in
    elim (low_bit v) [
      | inl e ↦
          let low : reversed (suc n) v ≡ reversed n (v / 2) =
            rw (reversed-suc n v, e) (omega arith) in
          rw (low, high_zero n (reversed n (v / 2)) small, ih) (omega (arith, e))
      | inr e ↦
          let low : reversed (suc n) v ≡ 2 ^ n + reversed n (v / 2) =
            rw (reversed-suc n v, e) (omega arith) in
          rw (low, high_one n (reversed n (v / 2)) small, ih) (omega (arith, e))
    ]

le_mul : (r p : ℕ) → 1 ≤ p → r ≤ r * p
le_mul r p h = grind arith

shift_in : (r b p q : ℕ) → q ≡ p * 2 → (r * 2 + b) * p ≡ r * q + b * p
shift_in r b p q e = rw e (grind arith)

-- No bit is lost at the top of the word while the rounds that are left fit it.
reverse_loop-reversed :
    (n i v r : ℕ)
    → r * 2 ^ n + 2 ^ n ≤ u64_mod
    → reverse_loop n i v r ≡ r * 2 ^ n + reversed n (shr v i)
unfolding reverse_loop
reverse_loop-reversed zero i v r le = rw (reversed-zero (shr v i)) (omega arith)
reverse_loop-reversed (suc n) i v r le =
    let b = shr v i % 2 in
    let p = 2 ^ n in
    let shift = shift_in r b p (2 ^ suc n) (pow-suc 2 n) in
    let enough = le_mul r (2 ^ suc n) (two_pow_pos (suc n)) in
    let twice = shift_in r 0 p (2 ^ suc n) (pow-suc 2 n) in
    let room = le_mul (r * 2) p (two_pow_pos n) in
    let fits : r * 2 % u64_mod ≡ r * 2 = omega (arith, le, twice, room, two_pow_pos (suc n)) in
    let index : i + 1 ≡ suc i = omega arith in
    let next : shr v (i + 1) ≡ shr v i / 2 = rw index (shr-suc v i) in
    let ih = reverse_loop-reversed n (i + 1) v (r * 2 + b) (elim (low_bit (shr v i)) [
      | inl e ↦ omega (arith, le, shift, ap (λ c. c * p) e, pow-suc 2 n)
      | inr e ↦ omega (arith, le, shift, ap (λ c. c * p) e, pow-suc 2 n)
    ]) in
    rw (fits, ih, next, reversed-suc n (shr v i)) (omega (arith, shift))

word : (n : ℕ) → n ≤ 64 → 2 ^ n ≤ u64_mod
word n le =
    let e : 2 ^ (n + (64 - n)) ≡ u64_mod =
      let f : n + (64 - n) ≡ 64 = omega (arith, le) in rw f refl in
    omega (arith, e, pow-split n (64 - n), le_mul (2 ^ n) (2 ^ (64 - n)) (two_pow_pos (64 - n)))

reverse_bits-reversed : (n v : ℕ) → n ≤ 64 → reverse_bits v n ≡ reversed n v
unfolding reverse_bits
reverse_bits-reversed n v le =
    let z : shr v 0 ≡ v = omega arith in
    let zero_times : 0 * 2 ^ n ≡ 0 = omega arith in
    reverse_loop-reversed n 0 v 0 (omega (arith, word n le, zero_times))
    ∙ rw z (omega (arith, zero_times))

-- For at most 64 bits, ReverseBits of a leaf number of the tree is a leaf number again, and
-- ReverseBits of that is the number itself: different numbers have different results.
pub reverse_bits_involutive :
    (n v : ℕ)
    → n ≤ 64
    → v < 2 ^ n
    → (reverse_bits v n < 2 ^ n) × (reverse_bits (reverse_bits v n) n ≡ v)
reverse_bits_involutive n v le lt =
    rw (reverse_bits-reversed n v le, reverse_bits-reversed n (reversed n v) le)
      (reversed-lt n v, reversed_twice n v lt)
