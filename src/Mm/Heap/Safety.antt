-- ===== src/Mm/Heap/Safety.antt =====
-- kernel/src/mm/heap.rs: requests that a size class serves, and their release.
use alexos.Base.{
  ℕ, ◌+◌, ◌/◌, ◌%◌, ◌^◌, ◌≤◌, ◌<◌, ◌≡◌, ◌≢◌, ◌⊎◌, inl, inr, refl, sym, ap, ◌∙◌, Bool, true, false,
  Option, none, some, List, [], ◌∷◌, update, ◌==◌, if◌then◌else◌, Bool-cases, Option-cases, arith,
}
use mathlib.Core.Path.{subst}
use alexos.Base.Count.{times}
use alexos.Mm.Addr.{PhysPageNum, page_size, as_ptr}
use alexos.Mm.Frame.{BuddyAllocator, alloc}
use alexos.Mm.PageTable.Buddy.{Pool, Fresh, alloc-Fresh, alloc-none}
use alexos.Mm.Heap.{Heap, class_size, null, refill, take_block, alloc_class}
use alexos.Mm.Heap.Chains.{IsChain, IsChain-agree, blocks_some}
use alexos.Mm.Heap.Sizes.{block_inside, blocks_apart, page-blocks}
use alexos.Mm.Heap.Invariant.{IsSafe, take_block-IsSafe}
use alexos.Mm.Heap.Refill.{
  filled, refill-filled, chain, more, more-IsChain, chain-same, more-once, owners, kept-placed,
  more-placed, owners-low, owners-alive,
}

-- What `refill` of a class leaves: on a success its list is not empty.
abbrev Refilled : ℕ → (ℕ → List ℕ) → Bool × Heap → Type 0
Refilled c live (false, h) = (lists : ℕ → List ℕ) × (own : ℕ → Option ℕ) × IsSafe h lists live own
Refilled c live (true, h) =
    (lists : ℕ → List ℕ) × (own : ℕ → Option ℕ) × (p : ℕ) × (ps : List ℕ) × (lists c ≡ p ∷ ps)
    × IsSafe h lists live own

module _ {h : Heap} {lists live : ℕ → List ℕ} {own : ℕ → Option ℕ} (v : IsSafe h lists live own)
    (c : ℕ) (l : c < 9) where
  unused_frame :
      (n : PhysPageNum) (f : BuddyAllocator)
      → alloc h.frames 0 ≡ (some n, f)
      → (q : Pool) × (q.state ≡ f)
        × (f.base ≡ h.frames.base)
        × (f.frames ≡ h.frames.frames)
        × Fresh v.pool n q
        × (n < 2 ^ 26)
  unused_frame n f e =
      let same = v.same in
      let (q, s, base, frames, fresh) = alloc-Fresh v.pool n f (rw same e) in
      let base' : f.base ≡ h.frames.base = base ∙ ap (λ b. b.base) same in
      let frames' : f.frames ≡ h.frames.frames = frames ∙ ap (λ b. b.frames) same in
      let (i, at, below, uncovered) = fresh.1 in
      let first : q.state.base ≡ f.base = ap (λ b. b.base) s in
      let count : q.state.frames ≡ f.frames = ap (λ b. b.frames) s in
      (
        q,
        s,
        base',
        frames',
        fresh,
        omega (arith, at, below, first, count, base', frames', v.narrow),
      )

  filled-Refilled :
      (r : Option PhysPageNum × BuddyAllocator)
      → alloc h.frames 0 ≡ r
      → Refilled c live (filled h c r)
  unfolding filled
  filled-Refilled (none, f) e =
      let same = v.same in
      let kept : f ≡ h.frames = alloc-none v.pool f (rw same e) ∙ same in (lists, own, rw kept v)
  filled-Refilled (some n, f) e =
      let (q, s, base, frames, fresh, small) = unused_frame n f e in
      let page = as_ptr n / page_size in
      let unowned : own page ≡ none = elim (Option-cases (own page)) [
        | inl free ↦ free
        | inr (d, taken) ↦ absurd (fresh.0 (v.alive n d small taken))
      ] in
      let (k, count, whole, some_size) = page-blocks c l in
      let (p, ps, first) =
        blocks_some (as_ptr n) (class_size c) k (page_size / class_size c) (lists c) count in
      let self : (c == c) ≡ true = ground arith in
      (
        update lists c (more v c l n small unowned),
        owners v c l n small unowned,
        p,
        ps,
        rw self first,
        record {
          chained = λ d ld. elim (Bool-cases (d == c)) [
            | inl at ↦ rw at (more-IsChain v c l n small unowned)
            | inr at ↦ rw at (
                IsChain-agree h.links (chain v c l n small unowned).words (h.free_heads d) (lists d)
                  (λ q pos. chain-same v c l n small unowned d q ld pos) (v.chained d ld))
          ];
          once = λ d q ld. elim (Bool-cases (d == c)) [
            | inl at ↦
                let here : d ≡ c = ground arith in
                rw at (rw here (more-once v c l n small unowned q))
            | inr at ↦ rw at (v.once d q ld)
          ];
          placed = λ d q ld. elim (Bool-cases (d == c)) [
            | inl at ↦
                let here : d ≡ c = ground arith in
                rw at (rw here (more-placed v c l n small unowned q))
            | inr at ↦ rw at (kept-placed v c l n small unowned d q ld)
          ];
          low = owners-low v c l n small unowned;
          counted = v.counted;
          pool = q;
          same = s;
          narrow = omega (arith, base, frames, v.narrow);
          alive = owners-alive v c l n small unowned q fresh.1 fresh.2;
        },
      )

-- Two blocks of different classes, or that start apart, have no byte in common.
no_overlap :
    {h : Heap} {lists live : ℕ → List ℕ} {own : ℕ → Option ℕ}
    → IsSafe h lists live own
    → (c d p q a : ℕ) → c < 9
    → d < 9
    → 0 < times p (lists c) + times p (live c)
    → 0 < times q (lists d) + times q (live d)
    → (c ≢ d) ⊎ (p ≢ q)
    → p ≤ a
    → a < p + class_size c
    → q ≤ a
    → a < q + class_size d
    → ⊥
no_overlap v c d p q a lc ld pos pos' other from to from' to' =
    let here = v.placed c p lc pos in
    let there = v.placed d q ld pos' in
    elim (Bool-cases (d == c)) [
      | inl at ↦
          let same : d ≡ c = ground arith in
          let ne : p ≢ q = elim other [ inl n ↦ absurd (n (sym same)) | inr n ↦ n ] in
          let end : a < q + class_size c = rw (sym same) to' in
          elim (blocks_apart c lc p q here.0 (rw (sym same) there.0) ne) [
            | inl x ↦ omega arith
            | inr x ↦ omega arith
          ]
      | inr at ↦
          let in_page = block_inside c lc p here.0 in
          let in_page' = block_inside d ld q there.0 in
          let pages : p / page_size ≡ q / page_size = omega (arith, in_page, in_page') in
          let both : some c ≡ some d = sym here.1 ∙ rw pages there.1 in
          let eq : c ≡ d = cc in absurd (ground arith)
    ]

-- A free block is not in use.
listed_apart :
    {h : Heap} {lists live : ℕ → List ℕ} {own : ℕ → Option ℕ}
    → IsSafe h lists live own
    → (c d p q : ℕ) → c < 9
    → 0 < times p (lists c)
    → 0 < times q (live d)
    → (c ≢ d) ⊎ (p ≢ q)
listed_apart {live = live} v c d p q lc listed used = elim (Bool-cases (d == c)) [
  | inr other ↦ inl (ground arith)
  | inl at ↦ inr (λ same.
      let here : d ≡ c = ground arith in
      let both : 0 < times p (live c) = rw (sym here, same) used in
      absurd (omega (arith, v.once c p lc, listed, both)))
]

-- An answer of the class `c`: the state stays well formed with the same blocks in use and null is
-- returned, or with one block more, aligned to its size, that has no byte in common with those in use.
abbrev pub Allocated : ℕ → (ℕ → List ℕ) → ℕ × Heap → Type 0
Allocated c live (p, h) =
    (lists : ℕ → List ℕ) × (own : ℕ → Option ℕ) × (((p ≡ null) × IsSafe h lists live own)
      ⊎ ((p ≢ null)
          × IsSafe h lists (update live c (p ∷ live c)) own
          × (p % class_size c ≡ 0)
          × ((d q a : ℕ)
              → d < 9
              → 0 < times q (live d)
              → p ≤ a
              → a < p + class_size c
              → q ≤ a
              → a < q + class_size d
              → ⊥)))

List-cases : (xs : List ℕ) → (xs ≡ []) ⊎ ((p : ℕ) × (ps : List ℕ) × (xs ≡ p ∷ ps))
List-cases [] = inl refl
List-cases (p ∷ ps) = inr (p, ps, refl)

taken-Allocated :
    {h : Heap} {lists live : ℕ → List ℕ} {own : ℕ → Option ℕ}
    → IsSafe h lists live own
    → (c : ℕ) → c < 9
    → (p : ℕ) (ps : List ℕ) → lists c ≡ p ∷ ps
    → Allocated c live (take_block h c)
unfolding times
taken-Allocated {h} {lists} {live} {own} v c l p ps e =
    let (at, after) = take_block-IsSafe v c l p ps e in
    let chain : IsChain h.links (h.free_heads c) (p ∷ ps) = rw e at (v.chained c l) in
    let listed : times p (lists c) ≡ 1 + times p ps = ap (times p) e ∙ ground arith in
    (
      update lists c ps,
      own,
      inr (
        rw at (chain.1),
        rw at after,
        rw at (v.placed c p l (omega (arith, listed))).0,
        rw at (λ d q a ld used.
            no_overlap v c d p q a l ld (omega (arith, listed)) (omega arith)
              (listed_apart v c d p q l (omega (arith, listed)) used)),
      ),
    )

after_refill-Allocated :
    (c : ℕ)
    → c < 9
    → (live : ℕ → List ℕ) (r : Bool × Heap) → Refilled c live r
    → Allocated c live (if r.0 then take_block r.1 c else (null, r.1))
after_refill-Allocated c l live (false, h) (lists, own, v) = (lists, own, inl (refl, v))
after_refill-Allocated c l live (true, h) (lists, own, p, ps, e, v) = taken-Allocated v c l p ps e

-- From a well-formed heap, a request of the class `c` leaves a well-formed heap: either it returns
-- null and the blocks in use are as before, or a block aligned to the size of the class that has no
-- byte in common with any block in use, of its class or of another, and is in use afterwards.
pub alloc_class-Allocated :
    {h : Heap} {lists live : ℕ → List ℕ} {own : ℕ → Option ℕ}
    → IsSafe h lists live own
    → (c : ℕ) → c < 9
    → Allocated c live (alloc_class h c)
unfolding alloc_class
alloc_class-Allocated {h} {lists} {live} {own} v c l = elim (Bool-cases (h.free_heads c == null)) [
  | inl empty ↦
      let filling = filled-Refilled v c l (alloc h.frames 0) refl in
      let refilling : Refilled c live (refill h c) =
        subst (Refilled c live) (sym (refill-filled h c)) filling in
      rw (alloc_class, empty) (after_refill-Allocated c l live (refill h c) refilling)
  | inr some_block ↦
      rw (alloc_class, some_block)
        (elim (List-cases (lists c)) [
          | inl none_listed ↦
              let chain : IsChain h.links (h.free_heads c) [] = rw none_listed at (v.chained c l) in
              absurd (ground arith)
          | inr (p, ps, e) ↦ taken-Allocated v c l p ps e
        ])
]
