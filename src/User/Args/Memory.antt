-- ===== src/User/Args/Memory.antt =====
-- user/src/lib.rs and kernel/src/task/process.rs: bytes that stand in memory, as the kernel writes them
-- and a program reads them.
use alexos.Base.{
  ℕ, zero, suc, ◌+◌, ◌*◌, ◌/◌, ◌^◌, ◌≤◌, ◌<◌, ◌≡◌, ◌≢◌, ◌⊎◌, inl, inr, refl, ap, ◌∙◌, false, some,
  List, [], ◌∷◌, update, length, ◌==◌, update_ne, update_eq, arith,
}
use alexos.Mm.Space.{read_bytes, write_bytes}
use alexos.Task.Process.{to_le_bytes}
use alexos.Syscall.Exec.{from_le}
use alexos.User.Shell.{cstr_at}

-- The bytes stand in memory from `a` on.
abbrev pub Holds : (ℕ → ℕ) → ℕ → List ℕ → Type 0
Holds m a [] = Unit
Holds m a (b ∷ bs) = (m a ≡ b) × Holds m (a + 1) bs

-- Nothing outside of the place that is written changes.
pub write_bytes-outside :
    (m : ℕ → ℕ) (p : ℕ) (bs : List ℕ) (a : ℕ)
    → (a < p) ⊎ (p + length bs ≤ a)
    → write_bytes m p bs a ≡ m a
unfolding write_bytes
write_bytes-outside m p [] a out = refl
write_bytes-outside m p (b ∷ bs) a out =
    let away : a ≢ p = elim out [ inl below ↦ ground arith | inr above ↦ ground arith ] in
    let out' : (a < p + 1) ⊎ (p + 1 + length bs ≤ a) = elim out [
      | inl below ↦ inl (omega arith)
      | inr above ↦ inr (omega arith)
    ] in
    write_bytes-outside (update m p b) (p + 1) bs a out' ∙ update_ne m p a b away

pub Holds-agree :
    (m m' : ℕ → ℕ) (a : ℕ) (bs : List ℕ)
    → ((j : ℕ) → a ≤ j → j < a + length bs → m' j ≡ m j)
    → Holds m a bs
    → Holds m' a bs
Holds-agree m m' a [] same h = tt
Holds-agree m m' a (b ∷ bs) same (first, rest) = (
  same a (omega arith) (omega arith) ∙ first,
  Holds-agree m m' (a + 1) bs (λ j l h. same j (omega arith) (omega arith)) rest,
)

pub write_bytes-Holds : (m : ℕ → ℕ) (p : ℕ) (bs : List ℕ) → Holds (write_bytes m p bs) p bs
unfolding write_bytes
write_bytes-Holds m p [] = tt
write_bytes-Holds m p (b ∷ bs) = (
  write_bytes-outside (update m p b) (p + 1) bs p (inl (omega arith)) ∙ update_eq m p p b refl,
  write_bytes-Holds (update m p b) (p + 1) bs,
)

pub read_bytes-Holds :
    (m : ℕ → ℕ) (a : ℕ) (bs : List ℕ) → Holds m a bs → read_bytes m a (length bs) ≡ bs
unfolding read_bytes
read_bytes-Holds m a [] h = refl
read_bytes-Holds m a (b ∷ bs) (first, rest) = rw (first, read_bytes-Holds m (a + 1) bs rest) refl

-- No byte of the list is zero.
abbrev pub NoZero : List ℕ → Type 0
NoZero [] = Unit
NoZero (b ∷ bs) = (b ≢ 0) × NoZero bs

pub cstr_at-Holds :
    (fuel : ℕ) (m : ℕ → ℕ) (a : ℕ) (bs : List ℕ)
    → length bs < fuel
    → NoZero bs
    → Holds m a bs
    → m (a + length bs) ≡ 0
    → cstr_at fuel m a ≡ some bs
unfolding cstr_at
cstr_at-Holds zero m a bs l nz h z = absurd (omega arith)
cstr_at-Holds (suc fuel) m a [] l nz h z =
    let at : a + 0 ≡ a = omega arith in let end : m a ≡ 0 = rw at at z in rw end refl
cstr_at-Holds (suc fuel) m a (b ∷ bs) l (ne, nz) (first, rest) z =
    let at : a + suc (length bs) ≡ a + 1 + length bs = omega arith in
    let more = cstr_at-Holds fuel m (a + 1) bs (omega arith) nz rest (rw at at z) in
    let test : (m a == 0) ≡ false = ground arith in rw (test, more) (ap (λ x. some (x ∷ bs)) first)

pub to_le_bytes-length : (k n : ℕ) → length (to_le_bytes k n) ≡ k
unfolding to_le_bytes
to_le_bytes-length zero n = refl
to_le_bytes-length (suc k) n = ap suc (to_le_bytes-length k (n / 256))

-- The number of values of `k` bytes.
abbrev values : ℕ → ℕ
values zero = 1
values (suc k) = 256 * values k

from_le-bytes : (k n : ℕ) → n < values k → from_le (to_le_bytes k n) ≡ n
unfolding from_le to_le_bytes
from_le-bytes zero n l = omega arith
from_le-bytes (suc k) n l = let ih = from_le-bytes k (n / 256) (omega arith) in omega (arith, ih)

pub from_le-to_le_bytes : (n : ℕ) → n < 2 ^ 64 → from_le (to_le_bytes 8 n) ≡ n
from_le-to_le_bytes n l = from_le-bytes 8 n (omega arith)
