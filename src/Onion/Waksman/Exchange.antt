-- ===== src/Onion/Waksman/Exchange.antt =====
-- An exchange of two neighbours in a sequence, and how many values of a suffix are at least `v`.
use unified_oramhub.Base.{
  ℕ, zero, suc, ◌+◌, ◌≤◌, ◌≡◌, refl, Bool, true, false, arith, ltb, leb, ◌==◌, if◌then◌else◌,
}

-- Where the value of position `p` comes from.
abbrev pub origin : Bool → ℕ → ℕ → ℕ
origin swap i p = if swap then (if p == i then i + 1 else if p == i + 1 then i else p) else p

-- The smaller value goes to `i`, the greater one to its right.
unfoldable pub exchange : ℕ → (ℕ → ℕ) → ℕ → ℕ
exchange i x p = x (origin (ltb (x (i + 1)) (x i)) i p)

abbrev pub one_if : Bool → ℕ
one_if true = 1
one_if false = 0

-- The number of positions of `j, …, j + m - 1` whose value is at least `v`.
unfoldable pub count : ℕ → (ℕ → ℕ) → ℕ → ℕ → ℕ
count v x zero j = 0
count v x (suc m) j = one_if (leb v (x j)) + count v x m (j + 1)

pub count-suc :
    (v : ℕ) (x : ℕ → ℕ) (m j : ℕ) → count v x (suc m) j ≡ one_if (leb v (x j)) + count v x m (j + 1)
unfolding count
count-suc v x m j = refl

pub count_le : (v : ℕ) (x : ℕ → ℕ) (m j : ℕ) → count v x m j ≤ m
unfolding count
count_le v x zero j = omega arith
count_le v x (suc m) j = ground (arith, count_le v x m (j + 1))

pub count_congr :
    (v : ℕ) (x y : ℕ → ℕ) (m j : ℕ) → ((p : ℕ) → j ≤ p → y p ≡ x p) → count v y m j ≡ count v x m j
unfolding count
count_congr v x y zero j h = refl
count_congr v x y (suc m) j h =
    rw (h j (omega arith), count_congr v x y m (j + 1) (λ p le. h p (omega arith)))

-- At most the first `k` positions of a suffix are lost when it is shortened by `k`.
pub count_shorter : (v : ℕ) (x : ℕ → ℕ) (k m j : ℕ) → count v x (k + m) j ≤ k + count v x m (j + k)
unfolding count
count_shorter v x zero m j =
    let e : j + 0 ≡ j = omega arith in let f : 0 + m ≡ m = omega arith in rw (e, f) (omega arith)
count_shorter v x (suc k) m j =
    let e : j + suc k ≡ j + 1 + k = omega arith in
    let f : suc k + m ≡ suc (k + m) = omega arith in
    rw (e, f) (ground (arith, count_shorter v x k m (j + 1)))

module _ (v : ℕ) (x : ℕ → ℕ) (i : ℕ) where
  above : (p : ℕ) → i + 2 ≤ p → exchange i x p ≡ x p
  unfolding exchange
  above p h = ground arith

  -- Behind the pair nothing changes.
  pub count-exchange_above : (m j : ℕ) → i + 2 ≤ j → count v (exchange i x) m j ≡ count v x m j
  count-exchange_above m j h = count_congr v x (exchange i x) m j (λ p le. above p (omega arith))

  -- From the second of the pair on there is one more if one of the two counts.
  pub count-exchange_second :
      (m : ℕ)
      → count v (exchange i x) (suc m) (i + 1)
        ≡ (if leb v (x i) then 1 else one_if (leb v (x (i + 1)))) + count v x m (i + 2)
  unfolding count
  count-exchange_second m =
      let e : i + 1 + 1 ≡ i + 2 = omega arith in
      rw (e, count-exchange_above m (i + 2) (omega arith)) (unfold exchange in ground arith)

  -- From the first of the pair on the number is the same.
  pub count-exchange_first :
      (m : ℕ) → count v (exchange i x) (suc (suc m)) i ≡ count v x (suc (suc m)) i
  unfolding exchange
  count-exchange_first m =
      let e : i + 1 + 1 ≡ i + 2 = omega arith in
      rw
        (
          count-suc v (exchange i x) (suc m) i,
          count-exchange_second m,
          count-suc v x (suc m) i,
          count-suc v x m (i + 1),
          e,
        )
        (ground arith)

  pub count-exchange_below :
      (k m j : ℕ)
      → j + k ≡ i
      → count v (exchange i x) (k + suc (suc m)) j ≡ count v x (k + suc (suc m)) j
  unfolding exchange
  count-exchange_below zero m j e =
      let f : j ≡ i = omega arith in
      let g : 0 + suc (suc m) ≡ suc (suc m) = omega arith in rw (f, g) (count-exchange_first m)
  count-exchange_below (suc k) m j e =
      let g : suc k + suc (suc m) ≡ suc (k + suc (suc m)) = omega arith in
      let below : exchange i x j ≡ x j = ground (arith, e) in
      rw (
        g,
        count-suc v (exchange i x) (k + suc (suc m)) j,
        count-suc v x (k + suc (suc m)) j,
        below,
        count-exchange_below k m (j + 1) (omega arith),
      )
