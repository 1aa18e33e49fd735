-- ===== src/Base/Digits.antt =====
-- Laws of the bitwise operations on numbers whose digits do not meet, and of the lowest digit.
use Prim.Native.Nat.{
  ℕ, zero, suc, ◌+◌, ◌*◌, ◌/◌, ◌%◌, ◌^◌, ◌≤◌, ◌<◌, max, min, bit_or, bit_and, digits,
  bit_or-bitwise, bit_and-bitwise,
}
use mathlib.Core.Path.{◌≡◌, refl}
use native.Mathlib.Nat.{two-pow-succ, mul-add}
use native.Mathlib.Omega.{arith}

-- The union of the digits of `a` and `b`, on fuel.
abbrev union_digits : ℕ → ℕ → ℕ → ℕ
union_digits fuel a b = digits (λ c. c) max fuel a b

none-union_digits : (fuel b : ℕ) → union_digits fuel 0 b ≡ b
none-union_digits zero b = refl
none-union_digits (suc fuel) b = refl

union_digits-none : (fuel a : ℕ) → a ≤ fuel → union_digits fuel a 0 ≡ a
union_digits-none fuel zero h = none-union_digits fuel 0
union_digits-none zero (suc a) h = absurd (omega arith)
union_digits-none (suc fuel) (suc a) h =
    omega (arith, union_digits-none fuel (suc a / 2) (omega arith))

-- A number below `2 ^ k` fills the clear digits of a multiple of it.
union_digits-add :
    (k fuel a q b : ℕ) → a ≤ fuel → a ≡ q * 2 ^ k → b < 2 ^ k → union_digits fuel a b ≡ a + b
union_digits-add k fuel zero q b h e l = omega (arith, none-union_digits fuel b)
union_digits-add k zero (suc a) q b h e l = absurd (omega arith)
union_digits-add zero (suc fuel) (suc a) q zero h e l =
    omega (arith, union_digits-none (suc fuel) (suc a) h)
union_digits-add zero (suc fuel) (suc a) q (suc b) h e l = absurd (omega arith)
union_digits-add (suc k) (suc fuel) (suc a) q b h e l =
    let doubled = two-pow-succ k in
    let twice : q * 2 ^ suc k ≡ q * 2 ^ k + q * 2 ^ k = rw doubled (mul-add q (2 ^ k) (2 ^ k)) in
    let even : suc a % 2 ≡ 0 = omega arith in
    let ih =
      union_digits-add k fuel (suc a / 2) q (b / 2) (omega arith) (omega arith) (omega arith) in
    rw even (omega (arith, ih))

pub bit_or-add : (k q b : ℕ) → b < 2 ^ k → bit_or (q * 2 ^ k) b ≡ q * 2 ^ k + b
bit_or-add k q b l =
    rw (bit_or-bitwise (q * 2 ^ k) b)
      (union_digits-add k (q * 2 ^ k) (q * 2 ^ k) q b (omega arith) refl l)

-- A union needs no more digits than the two numbers.
union_digits-lt : (k fuel a b : ℕ) → a < 2 ^ k → b < 2 ^ k → union_digits fuel a b < 2 ^ k
union_digits-lt k zero a b h l = l
union_digits-lt k (suc fuel) zero b h l = l
union_digits-lt zero (suc fuel) (suc a) b h l = absurd (omega arith)
union_digits-lt (suc k) (suc fuel) (suc a) b h l =
    let doubled = two-pow-succ k in
    omega (arith, union_digits-lt k fuel (suc a / 2) (b / 2) (omega arith) (omega arith))

pub bit_or-lt : (k a b : ℕ) → a < 2 ^ k → b < 2 ^ k → bit_or a b < 2 ^ k
bit_or-lt k a b h l = rw (bit_or-bitwise a b) (union_digits-lt k a a b h l)

pub bit_or-low : (a b : ℕ) → bit_or a b % 2 ≡ max (a % 2) (b % 2)
bit_or-low zero b = omega (arith, bit_or-bitwise 0 b)
bit_or-low (suc a) b = omega (arith, bit_or-bitwise (suc a) b)

none_common : (fuel a : ℕ) → digits (λ c. zero) min fuel a 0 ≡ 0
none_common zero a = refl
none_common (suc fuel) zero = refl
none_common (suc fuel) (suc a) = omega (arith, none_common fuel (suc a / 2))

pub bit_and-one : (a : ℕ) → bit_and a 1 ≡ a % 2
bit_and-one zero = omega (arith, bit_and-bitwise 0 1)
bit_and-one (suc a) = omega (arith, bit_and-bitwise (suc a) 1, none_common a (suc a / 2))
