-- ===== src/Base/Words.antt =====
-- 64-bit `usize` arithmetic. The build turns overflow checks on, so an operation that leaves the
-- range panics; a panic is a value of `Run`.
use Prim.Native.Nat.{ℕ, ◌+◌, ◌-◌, ◌*◌, ◌/◌, ◌^◌}
use mathlib.Core.Path.{◌≡◌, refl}
use mathlib.Core.Option.{Option, none, some}
use alexos.Base.Tests.{ltb, leb, if◌then◌else◌}

-- What a call comes to: a value, or a panic of the kernel.
pub data Run {ℓ} (A : Type ℓ) : Type ℓ where
  ok : A → Run A
  panic : Run A

infixl 5 ◌>>=◌
abbrev pub ◌>>=◌ {ℓ κ} : {A : Type ℓ} {B : Type κ} → Run A → (A → Run B) → Run B
ok a >>= f = f a
panic >>= f = panic

abbrev pub word_mod : ℕ
word_mod = 2 ^ 64

-- `a + b`, which panics on overflow
abbrev pub add_word : ℕ → ℕ → Run ℕ
add_word a b = if ltb (a + b) word_mod then ok (a + b) else panic

-- `a - b`, which panics on underflow
abbrev pub sub_word : ℕ → ℕ → Run ℕ
sub_word a b = if leb b a then ok (a - b) else panic

-- `a * b`, which panics on overflow
abbrev pub mul_word : ℕ → ℕ → Run ℕ
mul_word a b = if ltb (a * b) word_mod then ok (a * b) else panic

-- `a.checked_add(b)`
abbrev pub checked_add : ℕ → ℕ → Option ℕ
checked_add a b = if ltb (a + b) word_mod then some (a + b) else none

-- `a.div_ceil(b)` for `b` other than 0
abbrev pub div_ceil : ℕ → ℕ → ℕ
div_ceil a b = (a + b - 1) / b

-- `a.next_multiple_of(b)` for `b` other than 0, before the overflow check
abbrev pub next_multiple_of : ℕ → ℕ → ℕ
next_multiple_of a b = (a + b - 1) / b * b

pub ok-injective {ℓ} : {A : Type ℓ} {a b : A} → ok a ≡ ok b → a ≡ b
ok-injective e = cc

-- Inversion of a sequence that comes to a value.
pub >>=-ok {ℓ κ} :
    {A : Type ℓ} {B : Type κ} (m : Run A) (f : A → Run B) {b : B}
    → (m >>= f) ≡ ok b
    → (a : A) × (m ≡ ok a) × (f a ≡ ok b)
>>=-ok (ok a) f h = (a, refl, h)
>>=-ok panic f h = cc
