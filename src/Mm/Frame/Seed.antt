-- ===== src/Mm/Frame/Seed.antt =====
-- kernel/src/mm/frame.rs: `init`, with the loop that seeds the free lists.
use native.Mathlib.Nat.{mod-one}
use alexos.Base.{
  ℕ, zero, suc, ◌+◌, ◌-◌, ◌/◌, ◌*◌, ◌^◌, ◌≤◌, ◌<◌, ◌≡◌, refl, List, [], ◌∷◌, arith, ltb, leb,
  update, dec_lt, true, false,
}
use alexos.Base.Count.{times}
use alexos.Mm.Frame.{
  BuddyAllocator, nil, max_order, push, set_free, is_free, bit_index, bits_below, fit_order, seed,
  seed_start, init,
}
use alexos.Base.Words.{ok, word_mod}
use alexos.Mm.Addr.{page_size, align_up, align_down, ppn}
use alexos.Mm.Frame.Cover.{cov, cover, pow_pos}
use alexos.Mm.Frame.Invariant.{IsBlock, Inv}
use alexos.Mm.Frame.Push.{push-Inv, cover-push}

-- The allocator as `init` has it before it seeds the lists.
abbrev pub IsBlank : BuddyAllocator → Type 0
IsBlank b =
    ((k : ℕ) → b.free_lists k ≡ nil)
    × ((i : ℕ) → b.bitmap i ≡ false)
    × ((k : ℕ) → b.order_bit_base k ≡ bits_below b.frames k)
    × (b.frames < nil)

pub cover-none : (n f : ℕ) → cover n (λ _. []) f ≡ 0
unfolding cover cov
cover-none zero f = refl
cover-none (suc n) f = omega (arith, cover-none n f)

pub blank-Inv : (b : BuddyAllocator) → IsBlank b → Inv b (λ _. [])
unfolding times is_free
blank-Inv b h = record {
  linked = λ k l. tt;
  heads = λ k l. h.0 k;
  placed = λ k x l t. absurd (omega arith);
  apart = λ f. omega (arith, cover-none (suc max_order) f);
  marked = λ k x l. h.1 (bit_index b k x);
  small = h.3;
  bases = h.2;
}

fit_order-IsBlock :
    (frames idx order : ℕ)
    → idx < frames
    → order ≤ max_order
    → IsBlock frames (fit_order frames idx order) idx
unfolding fit_order
fit_order-IsBlock frames idx zero h l = (omega arith, mod-one idx, omega arith)
fit_order-IsBlock frames idx (suc order) h l =
    let rest = fit_order-IsBlock frames idx order h (omega arith) in
    (ground (arith, rest), ground (arith, rest), ground (arith, rest))

-- Every frame of the region is free, once.
abbrev pub AllFree : BuddyAllocator → Type 0
AllFree b =
    (lists : ℕ → List ℕ) × Inv b lists
    × ((f : ℕ) → f < b.frames → cover (suc max_order) lists f ≡ 1)

push_frames : (b : BuddyAllocator) (k x : ℕ) → (push b k x).frames ≡ b.frames
unfolding push set_free
push_frames b k x = refl

seed-AllFree :
    (fuel idx : ℕ) {b : BuddyAllocator} (lists : ℕ → List ℕ)
    → Inv b lists
    → b.frames ≤ idx + fuel
    → ((f : ℕ) → f < idx → cover (suc max_order) lists f ≡ 1)
    → ((f : ℕ) → idx ≤ f → cover (suc max_order) lists f ≡ 0)
    → AllFree (seed fuel b idx)
unfolding seed
seed-AllFree zero idx lists v enough done todo = (lists, v, λ f h. done f (omega arith))
seed-AllFree (suc fuel) idx {b} lists v enough done todo = elim (dec_lt idx b.frames) [
  | yes more ↦
      let k = fit_order b.frames idx max_order in
      let block = fit_order-IsBlock b.frames idx max_order more (omega arith) in
      let unused : (f : ℕ) → idx ≤ f → f < idx + 2 ^ k → cover (suc max_order) lists f ≡ 0 =
        λ f h g. todo f h in
      let counted = cover-push v k idx block unused in
      let go : ltb idx b.frames ≡ true = ground arith in
      rw go (
        seed-AllFree fuel (idx + 2 ^ k) (update lists k (idx ∷ lists k))
          (push-Inv v k idx block unused) (rw (push_frames b k idx) (omega (arith, pow_pos k)))
          (λ f h. ground (arith, counted f, done f, todo f))
          (λ f h. ground (arith, counted f, todo f)))
  | no all ↦
      let stop : ltb idx b.frames ≡ false = ground arith in
      rw stop (lists, v, λ f h. done f (omega arith))
]

seed_kept :
    (fuel idx : ℕ) (b : BuddyAllocator)
    → ((seed fuel b idx).frames ≡ b.frames)
      × ((seed fuel b idx).base ≡ b.base)
      × ((seed fuel b idx).allocated ≡ b.allocated)
unfolding seed push set_free
seed_kept zero idx b = (refl, refl, refl)
seed_kept (suc fuel) idx b =
    let k = fit_order b.frames idx max_order in
    let rest = seed_kept fuel (idx + 2 ^ k) (push b k idx) in ground (arith, rest)

blank-AllFree : (b : BuddyAllocator) → IsBlank b → AllFree (seed b.frames b 0)
blank-AllFree b h =
    seed-AllFree b.frames 0 (λ _. []) (blank-Inv b h) (omega arith) (λ f l. absurd (omega arith))
      (λ f l. cover-none (suc max_order) f)

seed_start-le : (first total : ℕ) → first ≤ seed_start first total
unfolding seed_start
seed_start-le first total = omega arith

-- A region of which something is left behind the bitmap: `init` does not panic, and afterwards
-- every frame from the aligned one to the last is free, on exactly one list, the lists are well
-- formed, and nothing counts as allocated.
pub init-AllFree :
    (b : BuddyAllocator) (start end first last : ℕ)
    → start + page_size < word_mod
    → first ≡ (start + page_size - 1) / page_size
    → last ≡ end / page_size
    → first < last
    → seed_start first (last - first) ≤ last
    → last < nil
    → (c : BuddyAllocator) × (init b start end ≡ ok c)
      × AllFree c
      × (c.base ≡ seed_start first (last - first))
      × (c.base + c.frames ≡ last)
      × (c.allocated ≡ 0)
unfolding init align_up align_down ppn
init-AllFree b start end first last fits e_first e_last some_left room small =
    let aligned = seed_start first (last - first) in
    let front : first ≤ aligned = seed_start-le first (last - first) in
    let up : ltb (start + page_size) word_mod ≡ true = ground arith in
    let e1 : (start + page_size - 1) / page_size * page_size / page_size ≡ first = omega arith in
    let e2 : end / page_size * page_size / page_size ≡ last = omega arith in
    let t1 : ltb first last ≡ true = ground arith in
    let t2 : leb (aligned - first) (last - first) ≡ true = ground arith in
    let n = last - first - (aligned - first) in
    let blank : BuddyAllocator = record {
      base = aligned;
      frames = n;
      free_lists = λ _. nil;
      bitmap = λ _. false;
      order_bit_base = bits_below n;
      allocated = 0;
      peak = 0;
      nodes = b.nodes;
    } in
    let kept = seed_kept n 0 blank in
    let all = blank-AllFree blank (λ k. refl, λ i. refl, λ k. refl, omega arith) in
    rw (up, e1, e2, t1, t2)
      (seed n blank 0, refl, all, kept.1, omega (arith, kept.0, kept.1), kept.2)
