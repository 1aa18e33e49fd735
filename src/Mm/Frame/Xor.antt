-- ===== src/Mm/Frame/Xor.antt =====
-- The buddy of a block: the bitwise exclusive or of its index with its size.
use native.Mathlib.Nat.{two-pow-succ, add-mul, mul-add}
use Prim.Native.Nat.{digits, differ, bit_xor-bitwise}
use alexos.Base.{
  ℕ, zero, suc, ◌+◌, ◌-◌, ◌*◌, ◌/◌, ◌%◌, ◌^◌, ◌≤◌, ◌≡◌, ◌⊎◌, inl, inr, refl, arith, bit_xor,
  ℕ_discrete, ap,
}
use alexos.Mm.Frame.Cover.{pow_pos}

-- The exclusive or of the digits of `a` and `b`, on fuel.
abbrev xor_digits : ℕ → ℕ → ℕ → ℕ
xor_digits fuel a b = digits (λ c. c) differ fuel a b

none-xor_digits : (fuel b : ℕ) → xor_digits fuel 0 b ≡ b
none-xor_digits zero b = refl
none-xor_digits (suc fuel) b = refl

differ-zero : (x : ℕ) → differ x 0 ≡ x
differ-zero zero = refl
differ-zero (suc x) = refl

xor_digits-none : (fuel a : ℕ) → a ≤ fuel → xor_digits fuel a 0 ≡ a
xor_digits-none fuel zero h = none-xor_digits fuel 0
xor_digits-none zero (suc a) h = absurd (omega arith)
xor_digits-none (suc fuel) (suc a) h =
    omega (arith, xor_digits-none fuel (suc a / 2) (omega arith), differ-zero (suc a % 2))

le-multiple : (q p : ℕ) → 1 ≤ q → p ≤ q * p
le-multiple q p h =
    let e : q ≡ q - 1 + 1 = omega arith in
    omega (arith, add-mul (q - 1) 1 p, ap (λ (t : ℕ). t * p) e)

-- Toggling one digit of a number whose lower digits are zero.
xor_digits-toggle :
    (k fuel a q : ℕ)
    → a ≤ fuel
    → a ≡ q * 2 ^ k
    → ((q % 2 ≡ 0) × (xor_digits fuel a (2 ^ k) ≡ a + 2 ^ k))
      ⊎ ((q % 2 ≡ 1) × (xor_digits fuel a (2 ^ k) + 2 ^ k ≡ a))
xor_digits-toggle k fuel zero q h e = elim (ℕ_discrete q 0) [
  | yes z ↦ rw z (inl (refl, omega (arith, none-xor_digits fuel (2 ^ k))))
  | no ne ↦ absurd (omega (arith, le-multiple q (2 ^ k), pow_pos k))
]
xor_digits-toggle k zero (suc a) q h e = absurd (omega arith)
xor_digits-toggle zero (suc fuel) (suc a) q h e = elim (ℕ_discrete (q % 2) 0) [
  | yes even ↦
      let low : suc a % 2 ≡ 0 = omega arith in
      rw low (inl (even, omega (arith, xor_digits-none fuel (suc a / 2))))
  | no odd ↦
      let low : suc a % 2 ≡ 1 = omega arith in
      rw low (inr (omega arith, omega (arith, xor_digits-none fuel (suc a / 2))))
]
xor_digits-toggle (suc k) (suc fuel) (suc a) q h e =
    let two_halves = two-pow-succ k in
    let half : 2 ^ suc k / 2 ≡ 2 ^ k = omega arith in
    let none_low : 2 ^ suc k % 2 ≡ 0 = omega arith in
    let twice : q * 2 ^ suc k ≡ q * 2 ^ k + q * 2 ^ k = rw two_halves (mul-add q (2 ^ k) (2 ^ k)) in
    let low : suc a % 2 ≡ 0 = omega arith in
    let ih = xor_digits-toggle k fuel (suc a / 2) q (omega arith) (omega arith) in
    rw (half, none_low, low)
      (elim ih [
        | inl (even, up) ↦ inl (even, omega arith)
        | inr (odd, down) ↦ inr (odd, omega arith)
      ])

-- The exclusive or with `2 ^ k` of the multiple `q` of it adds it where `q` is even, and takes it
-- away where `q` is odd.
pub bit_xor-toggle :
    (k a q : ℕ)
    → a ≡ q * 2 ^ k
    → ((q % 2 ≡ 0) × (bit_xor a (2 ^ k) ≡ a + 2 ^ k))
      ⊎ ((q % 2 ≡ 1) × (bit_xor a (2 ^ k) + 2 ^ k ≡ a))
bit_xor-toggle k a q e = rw (bit_xor-bitwise a (2 ^ k)) (xor_digits-toggle k a a q (omega arith) e)
