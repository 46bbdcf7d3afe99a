-- ===== src/Onion/Client/OnPath.antt =====
-- The nodes of a path from the root: the root is one of them, and no node comes twice.
use unified_oramhub.Base.{
  ℕ, zero, suc, ◌+◌, ◌≤◌, ◌≡◌, refl, ◌⊎◌, inl, inr, List, [], ◌∷◌, arith, length,
}
use unified_oramhub.Tree.{child_towards, path_down, get_path_from_root}

abbrev pub On : ℕ → List ℕ → Type 0
On i [] = ⊥
On i (n ∷ path) = (n ≡ i) ⊎ On i path

abbrev pub Distinct : List ℕ → Type 0
Distinct [] = Unit {0}
Distinct (n ∷ path) = (On n path → ⊥) × Distinct path

On-path_down : (n h l d node i : ℕ) → On i (path_down n h l d node) → node ≤ i
unfolding path_down child_towards
On-path_down zero h l d node i (inl e) = omega (arith, e)
On-path_down zero h l d node i (inr o) = absurd o
On-path_down (suc n) h l d node i (inl e) = omega (arith, e)
On-path_down (suc n) h l d node i (inr o) =
    omega (arith, On-path_down n h l (d + 1) (child_towards h l d node) i o)

path_down-Distinct : (n h l d node : ℕ) → Distinct (path_down n h l d node)
unfolding path_down child_towards
path_down-Distinct zero h l d node = ((λ o. o), tt)
path_down-Distinct (suc n) h l d node = (
  (λ o. omega (arith, On-path_down n h l (d + 1) (child_towards h l d node) node o)),
  path_down-Distinct n h l (d + 1) (child_towards h l d node),
)

pub get_path_from_root-Distinct : (h l : ℕ) → Distinct (get_path_from_root h l)
unfolding get_path_from_root
get_path_from_root-Distinct h l = path_down-Distinct h h l 0 0

root_first : (n h l d node : ℕ) → (rest : List ℕ) × (path_down n h l d node ≡ node ∷ rest)
unfolding path_down
root_first zero h l d node = ([], refl)
root_first (suc n) h l d node = (path_down n h l (d + 1) (child_towards h l d node), refl)

pub get_path_from_root-root : (h l : ℕ) → (rest : List ℕ) × (get_path_from_root h l ≡ 0 ∷ rest)
unfolding get_path_from_root
get_path_from_root-root h l = root_first h h l 0 0

length-path_down : (n h l d node : ℕ) → length (path_down n h l d node) ≡ n + 1
unfolding path_down
length-path_down zero h l d node = omega arith
length-path_down (suc n) h l d node =
    omega (arith, length-path_down n h l (d + 1) (child_towards h l d node))

pub length-get_path_from_root : (h l : ℕ) → length (get_path_from_root h l) ≡ h + 1
unfolding get_path_from_root
length-get_path_from_root h l = length-path_down h h l 0 0
