-- ===== src/Onion/Waksman.antt =====
-- WaksmanNetwork.cpp: a fixed network of exchanges of neighbours, and the bits that make it
-- permute. The evaluation on ciphertexts is in Evaluate.
pub mod Exchange
pub mod Phases
pub mod Sorting
pub mod Synthesis
pub mod Ranks
pub mod SwapBits
pub mod Evaluate
use unified_oramhub.Base.{
  ℕ, zero, suc, ◌+◌, ◌%◌, List, [], ◌∷◌, ◌++◌, Bool, true, false, ◌&&◌, ◌||◌, not, Option, none,
  some, Result, ok, err, invalid_argument, runtime_error, undefined, guard, or_fail, ◌>>=◌, ◌>>◌,
  length, get_elem?, set, replicate, ltb, leb, ◌==◌, if◌then◌else◌,
}

pub record WaksmanGate : Type 0 where
  pub i : ℕ
  pub j : ℕ
  pub bit_idx : ℕ

-- `for (i = start; i + 1 < size; i += 2)`; `size` rounds are more than enough.
unfoldable pub phase_gates : ℕ → ℕ → ℕ → ℕ → List WaksmanGate
phase_gates zero size i bit_idx = []
phase_gates (suc fuel) size i bit_idx =
    let rest = phase_gates fuel size (i + 2) (bit_idx + 1) in
    if ltb (i + 1) size then record { i = i; j = i + 1; bit_idx = bit_idx } ∷ rest else []

-- `n` phases from number `phase` on.
unfoldable pub phases : ℕ → ℕ → ℕ → ℕ → List WaksmanGate
phases zero phase size bit_idx = []
phases (suc n) phase size bit_idx =
    let gates = phase_gates size size (phase % 2) bit_idx in
    gates ++ phases n (phase + 1) size (bit_idx + length gates)

unfoldable pub build_network : ℕ → List WaksmanGate
build_network size = phases size 0 size 0

pub record WaksmanNetwork : Type 0 where
  pub size : ℕ
  pub gates : List WaksmanGate

unfoldable pub new_waksman_network : ℕ → Result WaksmanNetwork
new_waksman_network size = do
  guard (leb 2 size) invalid_argument
  ok (record { size = size; gates = build_network size })

-- The first loop of GenerateSwapBits, from destination `dest` on: where every index goes.
unfoldable pub rank_loop : ℕ → List ℕ → ℕ → List Bool → List ℕ → Result (List ℕ)
rank_loop size [] dest seen rank = ok rank
rank_loop size (q ∷ permutation) dest seen rank = do
  guard (ltb q size) invalid_argument
  old ← or_fail (get_elem? seen q) undefined
  guard (not old) invalid_argument
  rank_loop size permutation (dest + 1) (set seen q true) (set rank q dest)

-- `std::swap(values[i], values[j])` of the values `a` and `b` that stand there.
abbrev pub swapped {ℓ} : {A : Type ℓ} → List A → ℕ → ℕ → A → A → List A
swapped values i j a b = set (set values i b) j a

-- The loop over the gates.
unfoldable pub synthesize :
    List WaksmanGate → List ℕ → List ℕ → List Bool → Result (List Bool × List ℕ)
synthesize [] rank current bits = ok (bits, current)
synthesize (g ∷ gates) rank current bits = do
  a ← or_fail (get_elem? current g.i) undefined
  b ← or_fail (get_elem? current g.j) undefined
  rank_a ← or_fail (get_elem? rank a) undefined
  rank_b ← or_fail (get_elem? rank b) undefined
  synthesize gates rank (if ltb rank_b rank_a then swapped current g.i g.j a b else current)
      (set bits g.bit_idx (ltb rank_b rank_a))

-- `std::iota`.
unfoldable pub indices : ℕ → ℕ → List ℕ
indices zero start = []
indices (suc n) start = start ∷ indices n (start + 1)

unfoldable pub same_list : List ℕ → List ℕ → Bool
same_list [] [] = true
same_list [] (y ∷ ys) = false
same_list (x ∷ xs) [] = false
same_list (x ∷ xs) (y ∷ ys) = x == y && same_list xs ys

unfoldable pub generate_swap_bits : WaksmanNetwork → List ℕ → Result (List Bool)
generate_swap_bits network permutation = do
  guard (length permutation == network.size) invalid_argument
  rank ←
      rank_loop network.size permutation 0 (replicate network.size false) (replicate network.size 0)
  (bits, current) ←
      synthesize network.gates rank (indices network.size 0)
        (replicate (length network.gates) false)
  guard (same_list current permutation) runtime_error
  ok bits
