-- ===== src/Onion/Torus.antt =====
-- Torus32, the numbers modulo 2 ^ 32 that TFHE calculates with, up to an error.
use unified_oramhub.Base.{
  ℕ, ◌+◌, ◌-◌, ◌%◌, ◌≤◌, ◌<◌, ◌≡◌, refl, arith, Bool, true, false, if◌then◌else◌,
}

abbrev pub torus : ℕ
torus = 4294967296

-- A byte is a multiple of 2 ^ 24: 256 of them make the torus.
abbrev pub unit : ℕ
unit = 16777216

-- `x` and `y` are at most `e` apart, round the torus either way.
abbrev pub Close : ℕ → ℕ → ℕ → Type 0
Close e x y = (u : ℕ) × ((v : ℕ) × ((u + v ≤ e) × ((x + u) % torus ≡ (y + v) % torus)))

pub Close-self : (x : ℕ) → Close 0 x x
Close-self x = (0, (0, (omega arith, refl)))

pub Close-weaken : (e f x y : ℕ) → e ≤ f → Close e x y → Close f x y
Close-weaken e f x y le c = (c.0, (c.1.0, (omega (arith, c.1.1.0), c.1.1.1)))

pub Close-trans : (e f x y z : ℕ) → Close e x y → Close f y z → Close (e + f) x z
Close-trans e f x y z c d =
    (c.0 + d.0, (c.1.0 + d.1.0, (omega (arith, c.1.1.0, d.1.1.0), omega (arith, c.1.1.1, d.1.1.1))))

pub Close-sum :
    (e f x y x' y' : ℕ)
    → Close e x y
    → Close f x' y'
    → Close (e + f) ((x + x') % torus) ((y + y') % torus)
Close-sum e f x y x' y' c d =
    (c.0 + d.0, (c.1.0 + d.1.0, (omega (arith, c.1.1.0, d.1.1.0), omega (arith, c.1.1.1, d.1.1.1))))

-- A difference that is added again, up to an error.
pub Close-select :
    (e x a b : ℕ) (bit : Bool)
    → a < torus
    → b < torus
    → Close e x (if bit then (a + (torus - b)) % torus else 0)
    → Close e ((x + b) % torus) (if bit then a else b)
Close-select e x a b true h k c = (c.0, (c.1.0, (c.1.1.0, omega (arith, c.1.1.1))))
Close-select e x a b false h k c = (c.0, (c.1.0, (c.1.1.0, omega (arith, c.1.1.1))))
