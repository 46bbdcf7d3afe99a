-- ===== src/Tree/Levels.antt =====
-- The node that stands `level` steps above a leaf, in closed form.
use native.Mathlib.Nat.{
  pow-suc, div-div-eq-div-mul, mul-add-div_right, one-le-pow, pow-le-pow_right, mul_assoc,
}
use native.Mathlib.Nat.{div-lt_iff_lt-mul}
use unified_oramhub.Base.{
  ℕ, zero, suc, ◌+◌, ◌-◌, ◌*◌, ◌/◌, ◌^◌, ◌≤◌, ◌<◌, ◌≡◌, sym, ap, ◌≢◌, List, [], ◌∷◌, arith,
}
use unified_oramhub.Tree.{shr}

-- The number of the node among all nodes, counted from 1 at the root.
unfoldable pub label : ℕ → ℕ → ℕ → ℕ
label height leaf level = (2 ^ height + leaf) / 2 ^ level

unfoldable pub node_at : ℕ → ℕ → ℕ → ℕ
node_at height leaf level = label height leaf level - 1

-- The `n` nodes from `level` upwards.
unfoldable pub nodes_from : ℕ → ℕ → ℕ → ℕ → List ℕ
nodes_from zero height leaf level = []
nodes_from (suc n) height leaf level =
    node_at height leaf level ∷ nodes_from n height leaf (suc level)

pub two_pow_pos : (n : ℕ) → 1 ≤ 2 ^ n
two_pow_pos n = one-le-pow n 2 (omega arith)

pub shr-suc : (x k : ℕ) → shr x (suc k) ≡ shr x k / 2
shr-suc x k = rw pow-suc (sym (div-div-eq-div-mul x (2 ^ k) 2))

pub pow-split : (d k : ℕ) → 2 ^ (d + k) ≡ 2 ^ d * 2 ^ k
pow-split d zero = omega (arith, ap (λ (t : ℕ). 2 ^ t) (let e : d + 0 ≡ d = omega arith in e))
pow-split d (suc k) =
    let e : d + suc k ≡ suc (d + k) = omega arith in
    rw (e, pow-suc 2 (d + k), pow-suc 2 k, pow-split d k) (mul_assoc (2 ^ d) (2 ^ k) 2)

pub label-suc : (h l k : ℕ) → label h l (suc k) ≡ label h l k / 2
unfolding label
label-suc h l k = shr-suc (2 ^ h + l) k

-- A node's label is its depth's power of two plus the leading bits of the leaf.
pub label_lem : (h l d k : ℕ) → d + k ≡ h → label h l k ≡ 2 ^ d + shr l k
unfolding label
label_lem h l d k e = rw (← e, pow-split d k) (mul-add-div_right (two_pow_pos k) (2 ^ d) l)

pub shr-lt : (l d k : ℕ) → l < 2 ^ (d + k) → shr l k < 2 ^ d
shr-lt l d k h = (div-lt_iff_lt-mul (two_pow_pos k)).1 (rw (pow-split d k) at h)

pub label-pos : (h l d k : ℕ) → d + k ≡ h → 1 ≤ label h l k
label-pos h l d k e = omega (arith, label_lem h l d k e, two_pow_pos d)

-- Two paths share their node at a level exactly when the leaves agree from that bit up.
pub node_at-eq_of_shr :
    (h l m d k : ℕ) → d + k ≡ h → shr l k ≡ shr m k → node_at h l k ≡ node_at h m k
unfolding node_at
node_at-eq_of_shr h l m d k e s = omega (arith, label_lem h l d k e, label_lem h m d k e)

pub shr-eq_of_node_at :
    (h l m d k : ℕ) → d + k ≡ h → node_at h l k ≡ node_at h m k → shr l k ≡ shr m k
unfolding node_at
shr-eq_of_node_at h l m d k e s =
    omega (arith, label_lem h l d k e, label_lem h m d k e, two_pow_pos d)

pub label-ge : (h l d k : ℕ) → d + k ≡ h → 2 ^ d ≤ label h l k
label-ge h l d k e = omega (arith, label_lem h l d k e)

pub label-lt : (h l d k : ℕ) → d + k ≡ h → l < 2 ^ h → label h l k < 2 ^ suc d
label-lt h l d k e b =
    let b' : l < 2 ^ (d + k) = rw e b in
    omega (arith, label_lem h l d k e, shr-lt l d k b', pow-suc 2 d)

-- Nodes of different levels are different.
pub node_at-ne :
    (h l m d c j k : ℕ) → d + k ≡ h → c + j ≡ h → l < 2 ^ h → d < c → node_at h l k ≢ node_at h m j
unfolding node_at
node_at-ne h l m d c j k e f b lt same =
    let up : 2 ^ suc d ≤ 2 ^ c = pow-le-pow_right (omega arith) lt in
    absurd (
      omega
        (arith, label-lt h l d k e b, label-ge h m c j f, up, two_pow_pos d, label-ge h l d k e))

-- Every node of the path has an index in the tree.
pub node_at-lt : (h l d k : ℕ) → d + k ≡ h → l < 2 ^ h → node_at h l k < 2 ^ (h + 1) - 1
unfolding node_at
node_at-lt h l d k e b =
    let e' : h + 1 ≡ suc h = omega arith in
    let up : 2 ^ suc d ≤ 2 ^ suc h = pow-le-pow_right (omega arith) (omega arith) in
    rw e' (omega (arith, label-lt h l d k e b, up, label-pos h l d k e, two_pow_pos d))
