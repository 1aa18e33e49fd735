-- ===== src/Mm/PageTable/Buddy.antt =====
-- kernel/src/mm/frame.rs behind kernel/src/mm/page_table.rs: `alloc_frame`, a request of order 0 to
-- the buddy allocator, as the source of frames of the page tables.
use mathlib.Core.Path.{subst}
use alexos.Base.{
  ℕ, suc, ◌+◌, ◌^◌, ◌≤◌, ◌<◌, ◌≡◌, refl, sym, ap, ◌∙◌, Option, none, some, List, arith,
}
use alexos.Mm.Addr.{PhysPageNum}
use alexos.Mm.Frame.{BuddyAllocator, max_order, alloc}
use alexos.Mm.Frame.Cover.{cover}
use alexos.Mm.Frame.Invariant.{Inv}
use alexos.Mm.Frame.Alloc.{Served, alloc-Served}
use alexos.Mm.PageTable.Supply.{IsSource}

-- A well-formed allocator of frame numbers of 44 bits.
pub record Pool : Type 0 where
  pub state : BuddyAllocator
  pub lists : ℕ → List ℕ
  pub valid : Inv state lists
  pub fits : state.base + state.frames ≤ 2 ^ 44

-- A frame of the region is in use when it is on no free list.
abbrev pub IsLive : Pool → PhysPageNum → Type 0
IsLive p n =
    (f : ℕ) × (n ≡ p.state.base + f) × (f < p.state.frames) × (cover (suc max_order) p.lists f ≡ 0)

fits_after :
    (p : Pool) (c : BuddyAllocator)
    → c.base ≡ p.state.base
    → c.frames ≡ p.state.frames
    → c.base + c.frames ≤ 2 ^ 44
fits_after p c e g = omega (arith, p.fits)

handed :
    (p : Pool) (r : Option PhysPageNum × BuddyAllocator)
    → Served p.state p.lists 0 r
    → Option (PhysPageNum × Pool)
handed p (none, c) h = none
handed p (some n, c) h =
    some (n, record { state = c; lists = h.1; valid = h.4; fits = fits_after p c h.6 h.7 })

pub take_frame : Pool → Option (PhysPageNum × Pool)
take_frame p = handed p (alloc p.state 0) (alloc-Served p.valid 0 (omega arith))

-- The laws of a source for one request.
abbrev pub Fresh : Pool → PhysPageNum → Pool → Type 0
Fresh p n q =
    (IsLive p n → ⊥) × IsLive q n × ((m : PhysPageNum) → IsLive p m → IsLive q m) × (n < 2 ^ 44)

handed-Fresh :
    (p : Pool) (r : Option PhysPageNum × BuddyAllocator) (h : Served p.state p.lists 0 r)
    (n : PhysPageNum) (q : Pool)
    → handed p r h ≡ some (n, q)
    → Fresh p n q
unfolding handed
handed-Fresh p (none, c) h n q e = cc
handed-Fresh p (some n', c) h n q e =
    let q' : Pool = record { state = c; lists = h.1; valid = h.4; fits = fits_after p c h.6 h.7 } in
    let pairs : (n', q') ≡ (n, q) = cc in
    subst (λ (x : PhysPageNum × Pool). Fresh p x.0 x.1) pairs
      (
        λ l. ground (arith, l.1, l.3, h.2, h.5 l.0, h.3.2),
        (
          h.0,
          omega (arith, h.2, h.6),
          omega (arith, h.3.2, h.7),
          ground (arith, h.5 h.0, p.valid.apart h.0),
        ),
        λ m l. (l.0, omega (arith, l.1, h.6), omega (arith, l.2, h.7), omega (arith, l.3, h.5 l.0)),
        omega (arith, h.2, h.3.2, p.fits),
      )

take_frame-Fresh :
    (p : Pool) (n : PhysPageNum) (q : Pool) → take_frame p ≡ some (n, q) → Fresh p n q
unfolding take_frame
take_frame-Fresh p n q e =
    handed-Fresh p (alloc p.state 0) (alloc-Served p.valid 0 (omega arith)) n q e

-- The buddy allocator, asked for single frames, is a source of frames: the frame it hands out was
-- on a free list and is on none afterwards, frames in use stay in use, and a frame number has 44
-- bits.
pub take_frame-IsSource : IsSource take_frame IsLive
take_frame-IsSource = record {
  fresh = λ p n q e. (take_frame-Fresh p n q e).0;
  now = λ p n q e. (take_frame-Fresh p n q e).1;
  kept = λ p n q e. (take_frame-Fresh p n q e).2;
  small = λ p n q e. (take_frame-Fresh p n q e).3;
}

served-Fresh :
    (p : Pool) (r : Option PhysPageNum × BuddyAllocator)
    → Served p.state p.lists 0 r
    → (n : PhysPageNum) (c : BuddyAllocator) → r ≡ (some n, c)
    → (q : Pool) × (q.state ≡ c)
      × (c.base ≡ p.state.base)
      × (c.frames ≡ p.state.frames)
      × Fresh p n q
served-Fresh p (none, c') h n c e = absurd (let bad : none ≡ some n = ap (λ x. x.0) e in cc)
served-Fresh p (some n', c') h n c e =
    let q : Pool = record {
      state = c';
      lists = h.1;
      valid = h.4;
      fits = fits_after p c' h.6 h.7;
    } in
    let fresh = handed-Fresh p (some n', c') h n' q (unfold handed in refl) in
    let numbers : n' ≡ n = let s : some n' ≡ some n = ap (λ x. x.0) e in cc in
    let states : c' ≡ c = ap (λ x. x.1) e in
    (q, states, rw states at h.6, rw states at h.7, subst (λ m. Fresh p m q) numbers fresh)

-- A frame that the buddy allocator hands out was on a free list; what it leaves is a pool again.
pub alloc-Fresh :
    (p : Pool) (n : PhysPageNum) (c : BuddyAllocator)
    → alloc p.state 0 ≡ (some n, c)
    → (q : Pool) × (q.state ≡ c)
      × (c.base ≡ p.state.base)
      × (c.frames ≡ p.state.frames)
      × Fresh p n q
alloc-Fresh p n c e = served-Fresh p (alloc p.state 0) (alloc-Served p.valid 0 (omega arith)) n c e

served_none :
    (p : Pool) (r : Option PhysPageNum × BuddyAllocator)
    → Served p.state p.lists 0 r
    → (c : BuddyAllocator) → r ≡ (none, c)
    → c ≡ p.state
served_none p (none, c') h c e = sym (ap (λ x. x.1) e) ∙ h.0
served_none p (some n, c') h c e = absurd (let bad : some n ≡ none = ap (λ x. x.0) e in cc)

-- A request that fails changes nothing.
pub alloc-none : (p : Pool) (c : BuddyAllocator) → alloc p.state 0 ≡ (none, c) → c ≡ p.state
alloc-none p c e = served_none p (alloc p.state 0) (alloc-Served p.valid 0 (omega arith)) c e
