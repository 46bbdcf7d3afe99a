-- ===== src/Crypto/Counter.antt =====
-- IncrementCounter of AES_CTR.cpp, with the vector read as a number.
use mathlib.Core.List.{reverse, reverse-cons, reverse-reverse}
use native.Mathlib.Nat.{pow-suc}
use unified_oramhub.Base.{
  ℕ, suc, ◌+◌, ◌*◌, ◌/◌, ◌%◌, ◌^◌, ◌<◌, ◌≡◌, refl, [], ◌∷◌, ◌++◌, arith, length, Bool-cases, ◌==◌,
  ==→eq, inl, inr, ap, ◌∙◌, length-append,
}
use unified_oramhub.Core.Memory.{Bytes, le_value}
use unified_oramhub.Crypto.{increment_loop, increment_counter}

abbrev pub AreBytes : Bytes → Type 0
AreBytes [] = Unit {0}
AreBytes (b ∷ bs) = (b < 256) × AreBytes bs

-- The carry that leaves the vector is lost, and nothing else is.
pub increment_loop_lem :
    (bs : Bytes) (n : ℕ)
    → AreBytes bs
    → (carry : ℕ) × (le_value (increment_loop bs n) + carry * 256 ^ length bs ≡ le_value bs + n)
      × (length (increment_loop bs n) ≡ length bs)
      × AreBytes (increment_loop bs n)
unfolding increment_loop le_value
increment_loop_lem [] n h = (n, omega arith, refl, tt)
increment_loop_lem (b ∷ bs) n h = elim (Bool-cases (n == 0)) [
  | inl e ↦ rw e (0, omega (arith, ==→eq n 0 e), refl, h)
  | inr e ↦
      let (carry, sum, len, small) = increment_loop_lem bs (n / 256 + (b + n % 256) / 256) h.1 in
      rw e (
        carry,
        omega (
          arith,
          sum,
          pow-suc 256 (length bs),
          ap (λ (t : ℕ). carry * t) (pow-suc 256 (length bs)),
        ),
        ap suc len,
        (omega arith, small),
      )
]

AreBytes-append : (xs ys : Bytes) → AreBytes xs → AreBytes ys → AreBytes (xs ++ ys)
AreBytes-append [] ys p q = q
AreBytes-append (x ∷ xs) ys p q = (p.0, AreBytes-append xs ys p.1 q)

AreBytes-reverse : (xs : Bytes) → AreBytes xs → AreBytes (reverse xs)
AreBytes-reverse [] p = tt
AreBytes-reverse (x ∷ xs) p =
    rw reverse-cons (AreBytes-append (reverse xs) (x ∷ []) (AreBytes-reverse xs p.1) (p.0, tt))

length-reverse : (xs : Bytes) → length (reverse xs) ≡ length xs
length-reverse [] = refl
length-reverse (x ∷ xs) =
    omega
      (arith, ap length (reverse-cons x xs), length-append (reverse xs) (x ∷ []), length-reverse xs)

le_value-lt : (bs : Bytes) → AreBytes bs → le_value bs < 256 ^ length bs
unfolding le_value
le_value-lt [] h = omega arith
le_value-lt (b ∷ bs) h = omega (arith, le_value-lt bs h.1, pow-suc 256 (length bs))

-- The vector as a big-endian number.
unfoldable pub be_value : Bytes → ℕ
be_value iv = le_value (reverse iv)

-- IncrementCounter adds to the big-endian value of a 16-byte vector modulo 2 ^ 128, and the
-- result is 16 bytes again.
pub be_value-increment_counter :
    (iv : Bytes) (increment : ℕ)
    → AreBytes iv
    → length iv ≡ 16
    → (be_value (increment_counter iv increment) ≡ (be_value iv + increment) % 2 ^ 128)
      × (length (increment_counter iv increment) ≡ 16)
      × AreBytes (increment_counter iv increment)
unfolding be_value increment_counter
be_value-increment_counter iv n bytes len =
    let back = reverse iv in
    let (carry, sum, size, small) = increment_loop_lem back n (AreBytes-reverse iv bytes) in
    let out : Bytes = increment_loop back n in
    let sixteen : length out ≡ 16 = size ∙ length-reverse iv ∙ len in
    let bound : le_value out < 256 ^ 16 = rw sixteen at (le_value-lt out small) in
    let sum' : le_value out + carry * 256 ^ 16 ≡ le_value back + n =
      rw (length-reverse iv, len) at sum in
    (
      rw reverse-reverse (omega (arith, sum', bound)),
      length-reverse out ∙ sixteen,
      AreBytes-reverse out small,
    )
