-- ===== src/Mm/Frame/History.antt =====
-- kernel/src/mm/frame.rs: the allocator through any sequence of `alloc` and `free`, with the blocks
-- that its clients hold.
use mathlib.Core.Path.{subst}
use alexos.Base.{ℕ, suc, ◌+◌, ◌^◌, ◌≤◌, ◌<◌, ◌≡◌, List, [], ◌∷◌, ◌++◌, arith, Bool, some, ◌∙◌, sym}
use alexos.Base.Words.{ok, ok-injective}
use alexos.Mm.Frame.{BuddyAllocator, max_order, alloc, free}
use alexos.Mm.Frame.Cover.{covers, cover}
use alexos.Mm.Frame.Invariant.{IsBlock, Inv}
use alexos.Mm.Frame.Alloc.{Served, alloc-Served}
use alexos.Mm.Frame.Free.{free-Released}

-- A block that a client holds: its order and its index.
pub record Held : Type 0 where
  pub order : ℕ
  pub idx : ℕ

-- How many of the held blocks cover a frame, and how many frames they have.
unfoldable pub held : List Held → ℕ → ℕ
held [] f = 0
held (h ∷ hs) f = covers h.order h.idx f + held hs f

unfoldable pub held_frames : List Held → ℕ
held_frames [] = 0
held_frames (h ∷ hs) = 2 ^ h.order + held_frames hs

held-append :
    (xs : List Held) (h : Held) (ys : List Held) (f : ℕ)
    → held (xs ++ h ∷ ys) f ≡ held (xs ++ ys) f + covers h.order h.idx f
unfolding held
held-append [] h ys f = omega arith
held-append (x ∷ xs) h ys f = omega (arith, held-append xs h ys f)

held_frames-append :
    (xs : List Held) (h : Held) (ys : List Held)
    → held_frames (xs ++ h ∷ ys) ≡ held_frames (xs ++ ys) + 2 ^ h.order
unfolding held_frames
held_frames-append [] h ys = omega arith
held_frames-append (x ∷ xs) h ys = omega (arith, held_frames-append xs h ys)

-- Every held block is a block of the region.
abbrev pub AllBlocks : ℕ → List Held → Type 0
AllBlocks frames [] = Unit
AllBlocks frames (h ∷ hs) = IsBlock frames h.order h.idx × AllBlocks frames hs

AllBlocks-split :
    (frames : ℕ) (xs : List Held) (h : Held) (ys : List Held)
    → AllBlocks frames (xs ++ h ∷ ys)
    → IsBlock frames h.order h.idx × AllBlocks frames (xs ++ ys)
AllBlocks-split frames [] h ys (b, bs) = (b, bs)
AllBlocks-split frames (x ∷ xs) h ys (b, bs) =
    let (found, rest) = AllBlocks-split frames xs h ys bs in (found, (b, rest))

-- Every frame of the region is either free or in one held block, and not in two; the counter counts
-- the frames that are held.
abbrev pub Accounted : BuddyAllocator → List Held → Type 0
Accounted b hs =
    (lists : ℕ → List ℕ) × Inv b lists
    × ((f : ℕ) → f < b.frames → cover (suc max_order) lists f + held hs f ≡ 1)
    × AllBlocks b.frames hs
    × (b.allocated ≡ held_frames hs)

-- A call that succeeds, with the block that changes hands.
pub data Step (b : BuddyAllocator) : List Held → BuddyAllocator → List Held → Type 0 where
  allocates :
      (order idx : ℕ) {c : BuddyAllocator} {hs : List Held}
      → order ≤ max_order
      → alloc b order ≡ (some (b.base + idx), c)
      → Step b hs c (record { order = order; idx = idx } ∷ hs)
  frees :
      (debug : Bool) (h : Held) (xs ys : List Held) {c : BuddyAllocator}
      → free debug b (b.base + h.idx) h.order ≡ ok c
      → Step b (xs ++ h ∷ ys) c (xs ++ ys)

pub data Reach (b : BuddyAllocator) (hs : List Held) : BuddyAllocator → List Held → Type 0 where
  here : Reach b hs b hs
  later :
      {c d : BuddyAllocator} {is js : List Held}
      → Reach b hs c is
      → Step c is d js
      → Reach b hs d js

-- When every frame is accounted for, `free` of any held block does not panic, with debug assertions
-- or without, and leaves every frame accounted for with the other held blocks.
pub release :
    (debug : Bool) {b : BuddyAllocator} (xs : List Held) (h : Held) (ys : List Held)
    → Accounted b (xs ++ h ∷ ys)
    → (c : BuddyAllocator) × (free debug b (b.base + h.idx) h.order ≡ ok c) × Accounted c (xs ++ ys)
release debug {b} xs h ys (lists, v, whole, blocks, counted) =
    let (block, rest) = AllBlocks-split b.frames xs h ys blocks in
    let used : (f : ℕ) → h.idx ≤ f → f < h.idx + 2 ^ h.order → cover (suc max_order) lists f ≡ 0 =
      λ f l g. ground (arith, whole f (omega (arith, block.2)), held-append xs h ys f) in
    let total = held_frames-append xs h ys in
    let r = free-Released debug v h.order h.idx block used (omega (arith, total, counted)) in
    (
      r.0,
      r.2,
      (
        r.1,
        r.3,
        λ f l. omega (arith, whole f (omega (arith, r.6)), r.4 f, held-append xs h ys f),
        rw r.6 rest,
        omega (arith, r.7, total),
      ),
    )

serve :
    {b : BuddyAllocator} (hs : List Held) (order idx : ℕ) {c : BuddyAllocator}
    → order ≤ max_order
    → alloc b order ≡ (some (b.base + idx), c)
    → Accounted b hs
    → Accounted c (record { order = order; idx = idx } ∷ hs)
unfolding held held_frames
serve {b} hs order idx {c} small e (lists, v, whole, blocks, counted) =
    let s : Served b lists order (some (b.base + idx), c) = rw e at (alloc-Served v order small) in
    let same : idx ≡ s.0 = omega (arith, s.2) in
    let block : IsBlock c.frames order idx = rw (s.7, same) s.3 in
    let others : AllBlocks c.frames hs = rw s.7 blocks in
    (
      s.1,
      s.4,
      λ f l. rw same (omega (arith, whole f (omega (arith, s.7)), s.5 f)),
      (block, others),
      omega (arith, s.8, counted),
    )

Step-Accounted :
    {b c : BuddyAllocator} {hs is : List Held} → Step b hs c is → Accounted b hs → Accounted c is
Step-Accounted {hs = hs} (allocates order idx small e) a = serve hs order idx small e a
Step-Accounted {c = c} (frees debug h xs ys e) a =
    let (d, done, kept) = release debug xs h ys a in
    subst (λ (t : BuddyAllocator). Accounted t (xs ++ ys)) (ok-injective (sym done ∙ e)) kept

-- Through any sequence of successful calls of `alloc` and of `free` of held blocks, every frame of
-- the region stays either free or in one held block, and not in two, each held block lies aligned
-- in the region, the lists stay well formed, and the counter is the number of frames held.
pub Reach-Accounted :
    {b : BuddyAllocator} {hs : List Held} {c : BuddyAllocator} {is : List Held}
    → Reach b hs c is
    → Accounted b hs
    → Accounted c is
Reach-Accounted here a = a
Reach-Accounted (later r st) a = Step-Accounted st (Reach-Accounted r a)
