-- ===== src/Mm/Frame/Cover.antt =====
-- The frames that lists of free blocks cover, counted: the view of the free lists of
-- kernel/src/mm/frame.rs as a set of frames.
use native.Mathlib.Nat.{one-le-pow}
use alexos.Base.{
  ℕ, zero, suc, ◌+◌, ◌^◌, ◌≤◌, ◌<◌, ◌≡◌, ◌≢◌, refl, List, [], ◌∷◌, ◌++◌, arith, ltb, leb, ◌&&◌,
  if◌then◌else◌, update, dec_lt, ℕ_discrete,
}
use alexos.Base.Count.{times}

-- Whether the block of an order at an index covers a frame.
abbrev pub covers : ℕ → ℕ → ℕ → ℕ
covers order x f = if leb x f && ltb f (x + 2 ^ order) then 1 else 0

-- How many blocks of a list cover a frame.
unfoldable pub cov : ℕ → List ℕ → ℕ → ℕ
cov order [] f = 0
cov order (x ∷ xs) f = covers order x f + cov order xs f

-- How many blocks of the lists of the orders below `n` cover a frame.
unfoldable pub cover : ℕ → (ℕ → List ℕ) → ℕ → ℕ
cover zero lists f = 0
cover (suc n) lists f = cover n lists f + cov n (lists n) f

pub cov-append :
    (order : ℕ) (xs ys : List ℕ) (f : ℕ) → cov order (xs ++ ys) f ≡ cov order xs f + cov order ys f
unfolding cov
cov-append order [] ys f = omega arith
cov-append order (x ∷ xs) ys f = omega (arith, cov-append order xs ys f)

pub pow_pos : (k : ℕ) → 1 ≤ 2 ^ k
pow_pos k = one-le-pow k 2 (omega arith)

-- A block covers its own first frame.
pub times-le-cov : (order x : ℕ) (xs : List ℕ) → times x xs ≤ cov order xs x
unfolding times cov
times-le-cov order x [] = omega arith
times-le-cov order x (y ∷ ys) = ground (arith, times-le-cov order x ys, pow_pos order)

pub covers-le-cov :
    (order x f : ℕ) (xs : List ℕ) → 0 < times x xs → covers order x f ≤ cov order xs f
unfolding times cov
covers-le-cov order x f [] h = absurd (omega arith)
covers-le-cov order x f (y ∷ ys) h = ground (arith, covers-le-cov order x f ys)

cover-update_of_le :
    (n : ℕ) (lists : ℕ → List ℕ) (k : ℕ) (xs : List ℕ) (f : ℕ)
    → n ≤ k
    → cover n (update lists k xs) f ≡ cover n lists f
unfolding cover
cover-update_of_le zero lists k xs f h = refl
cover-update_of_le (suc n) lists k xs f h = ground (arith, cover-update_of_le n lists k xs f)

-- A changed list changes the count by the difference.
pub cover-update :
    (n : ℕ) (lists : ℕ → List ℕ) (k : ℕ) (xs : List ℕ) (f : ℕ)
    → k < n
    → cover n (update lists k xs) f + cov k (lists k) f ≡ cover n lists f + cov k xs f
unfolding cover
cover-update zero lists k xs f h = absurd (omega arith)
cover-update (suc n) lists k xs f h = elim (dec_lt k n) [
  | yes below ↦ ground (arith, cover-update n lists k xs f below)
  | no last ↦ ground (arith, cover-update_of_le n lists k xs f)
]

pub cov-le-cover :
    (n : ℕ) (lists : ℕ → List ℕ) (k f : ℕ) → k < n → cov k (lists k) f ≤ cover n lists f
unfolding cover
cov-le-cover zero lists k f h = absurd (omega arith)
cov-le-cover (suc n) lists k f h = elim (ℕ_discrete k n) [
  | yes e ↦ rw e (omega arith)
  | no ne ↦ omega (arith, cov-le-cover n lists k f)
]

-- Blocks of two orders count separately.
pub cov-add-cov :
    (n : ℕ) (lists : ℕ → List ℕ) (j k f : ℕ)
    → j < n
    → k < n
    → j ≢ k
    → cov j (lists j) f + cov k (lists k) f ≤ cover n lists f
unfolding cover
cov-add-cov zero lists j k f hj hk ne = absurd (omega arith)
cov-add-cov (suc n) lists j k f hj hk ne = elim (ℕ_discrete j n) [
  | yes e ↦ rw e (omega (arith, cov-le-cover n lists k f))
  | no jn ↦ elim (ℕ_discrete k n) [
    | yes e ↦ rw e (omega (arith, cov-le-cover n lists j f))
    | no kn ↦ omega (arith, cov-add-cov n lists j k f)
  ]
]
