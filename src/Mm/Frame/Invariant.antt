-- ===== src/Mm/Frame/Invariant.antt =====
-- kernel/src/mm/frame.rs: what it is for an allocator to hold given lists of free blocks.
use native.Mathlib.Nat.{div-add-mod', le-div_iff_mul-le}
use alexos.Base.{
  ℕ, zero, suc, ◌+◌, ◌*◌, ◌/◌, ◌%◌, ◌^◌, ◌≤◌, ◌<◌, ◌≡◌, ◌≢◌, List, arith, ltb, dec_lt, ℕ_discrete,
  ap,
}
use alexos.Base.Words.{div_ceil}
use alexos.Base.Count.{times}
use alexos.Mm.Frame.{BuddyAllocator, nil, max_order, is_free, bits_below}
use alexos.Mm.Frame.Links.{head, Links}
use alexos.Mm.Frame.Cover.{cover, pow_pos, times-le-cov, cov-le-cover, cov-add-cov}

-- A block of an order lies in the region, at a multiple of its size.
abbrev pub IsBlock : ℕ → ℕ → ℕ → Type 0
IsBlock frames k x = (k ≤ max_order) × (x % 2 ^ k ≡ 0) × (x + 2 ^ k ≤ frames)

-- `lists` are the contents of the free lists.
pub record Inv (b : BuddyAllocator) (lists : ℕ → List ℕ) : Type 0 where
  pub linked : (k : ℕ) → k ≤ max_order → Links b.nodes nil (lists k)
  pub heads : (k : ℕ) → k ≤ max_order → b.free_lists k ≡ head (lists k)
  pub placed : (k x : ℕ) → k ≤ max_order → 0 < times x (lists k) → IsBlock b.frames k x
  pub apart : (f : ℕ) → cover (suc max_order) lists f ≤ 1
  pub marked : (k x : ℕ) → IsBlock b.frames k x → is_free b k x ≡ ltb 0 (times x (lists k))
  pub small : b.frames < nil
  pub bases : (k : ℕ) → b.order_bit_base k ≡ bits_below b.frames k

div-lt-div_ceil : (x p n : ℕ) → 1 ≤ p → x % p ≡ 0 → x + p ≤ n → x / p < div_ceil n p
div-lt-div_ceil x p n pos m h = (le-div_iff_mul-le pos).1 (omega (arith, div-add-mod' x p))

bits_below-lt :
    (frames j k x : ℕ)
    → j < k
    → j ≤ max_order
    → x % 2 ^ j ≡ 0
    → x + 2 ^ j ≤ frames
    → bits_below frames j + x / 2 ^ j < bits_below frames k
unfolding bits_below
bits_below-lt frames j zero x h m a r = absurd (omega arith)
bits_below-lt frames j (suc k) x h m a r = elim (ℕ_discrete j k) [
  | yes e ↦ rw (← e) (omega (arith, div-lt-div_ceil x (2 ^ j) frames (pow_pos j) a r))
  | no ne ↦ omega (arith, bits_below-lt frames j k x)
]

div_injective : (x y p : ℕ) → x % p ≡ 0 → y % p ≡ 0 → x / p ≡ y / p → x ≡ y
div_injective x y p hx hy e =
    omega (arith, div-add-mod' x p, div-add-mod' y p, ap (λ (t : ℕ). t * p) e)

-- The bits of two blocks are two bits.
pub bit_of-ne :
    (frames j k x y : ℕ)
    → IsBlock frames j x
    → IsBlock frames k y
    → bits_below frames j + x / 2 ^ j ≡ bits_below frames k + y / 2 ^ k
    → (j ≡ k) × (x ≡ y)
bit_of-ne frames j k x y bx by' e = elim (ℕ_discrete j k) [
  | yes same ↦
      (same, div_injective x y (2 ^ k) (rw same at bx.1) by'.1 (omega (arith, rw same at e)))
  | no ne ↦ elim (dec_lt j k) [
    | yes below ↦ absurd (omega (arith, bits_below-lt frames j k x below bx.0 bx.1 bx.2))
    | no above ↦ absurd (omega (arith, bits_below-lt frames k j y (omega arith) by'.0 by'.1 by'.2))
  ]
]

module _ {b : BuddyAllocator} {lists : ℕ → List ℕ} (v : Inv b lists) where
  pub listed_once : (k x : ℕ) → k ≤ max_order → times x (lists k) ≤ 1
  listed_once k x h =
      omega (arith, times-le-cov k x (lists k), cov-le-cover (suc max_order) lists k x, v.apart x)

  -- No block is on two lists.
  pub listed_apart :
      (j k x : ℕ)
      → j ≤ max_order
      → k ≤ max_order
      → j ≢ k
      → times x (lists j) + times x (lists k) ≤ 1
  listed_apart j k x hj hk ne = omega (
    arith,
    times-le-cov j x (lists j),
    times-le-cov k x (lists k),
    cov-add-cov (suc max_order) lists j k x,
    v.apart x,
  )

  -- A frame that no free block covers heads none.
  pub unlisted :
      (j x : ℕ) → j ≤ max_order → cover (suc max_order) lists x ≡ 0 → times x (lists j) ≡ 0
  unlisted j x h e =
      omega (arith, times-le-cov j x (lists j), cov-le-cover (suc max_order) lists j x)

  pub listed_ne_nil : (j x : ℕ) → j ≤ max_order → 0 < times x (lists j) → x ≢ nil
  listed_ne_nil j x h t = let p = v.placed j x h t in omega (arith, v.small, p.2, pow_pos j)
