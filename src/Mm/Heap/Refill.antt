-- ===== src/Mm/Heap/Refill.antt =====
-- kernel/src/mm/heap.rs: a class that runs dry takes a frame of the buddy allocator and threads it.
use alexos.Base.{
  ℕ, ◌+◌, ◌*◌, ◌/◌, ◌%◌, ◌^◌, ◌≤◌, ◌<◌, ◌≡◌, ◌≢◌, ◌⊎◌, inl, inr, refl, sym, ap, ◌∙◌, Bool, true,
  false, Option, none, some, List, update, ◌==◌, leb, ltb, update_ne, update_eq, Bool-cases, arith,
}
use alexos.Base.Count.{times}
use alexos.Mm.Addr.{PhysPageNum, page_size, virt_offset, as_ptr, base_addr}
use alexos.Mm.Frame.{BuddyAllocator, alloc}
use alexos.Mm.PageTable.Buddy.{Pool, IsLive}
use alexos.Mm.Heap.{Heap, Chain, carve, class_size, zero_words, alloc_frames, refill}
use alexos.Mm.Heap.Chains.{IsChain, IsChain-agree, blocks, carve-IsChain, carve-words, times-blocks}
use alexos.Mm.Heap.Sizes.{carved-aligned, page-blocks}
use alexos.Mm.Heap.Invariant.{IsSafe}

pub as_ptr-low : (n : PhysPageNum) → n < 2 ^ 26 → as_ptr n ≡ n * page_size + virt_offset
unfolding as_ptr base_addr
as_ptr-low n l = omega arith

-- What `refill` makes of an answer of the buddy allocator.
unfoldable pub filled : Heap → ℕ → Option PhysPageNum × BuddyAllocator → Bool × Heap
filled h c (none, f) = (false, record h { frames = f })
filled h c (some n, f) =
    let chain = carve (as_ptr n) (class_size c) (page_size / class_size c) (record {
      words = zero_words h.links (as_ptr n) (page_size * 2 ^ 0);
      head = h.free_heads c;
    }) in
    (
      true,
      record h {
        reserved = h.reserved + page_size;
        links = chain.words;
        free_heads = update h.free_heads c chain.head;
        frames = f;
      },
    )

-- `alloc_frames` on an answer.
answered : Heap → Option PhysPageNum × BuddyAllocator → Option PhysPageNum × Heap
answered h r = elim r.0 [
  | none ↦ (none, record h { frames = r.1 })
  | some n ↦
      (some n, record h { frames = r.1; links = zero_words h.links (as_ptr n) (page_size * 2 ^ 0) })
]

alloc_frames-answered : (h : Heap) → alloc_frames h 0 ≡ answered h (alloc h.frames 0)
unfolding alloc_frames answered
alloc_frames-answered h = refl

-- `refill` on what `alloc_frames` gives.
threaded : Heap → ℕ → Option PhysPageNum × Heap → Bool × Heap
threaded h c a = elim a.0 [
  | none ↦ (false, a.1)
  | some n ↦
      let h' = a.1 in
      let chain =
        carve (as_ptr n) (class_size c) (page_size / class_size c)
          (record { words = h'.links; head = h'.free_heads c }) in
      (
        true,
        record h' {
          reserved = h'.reserved + page_size;
          links = chain.words;
          free_heads = update h'.free_heads c chain.head;
        },
      )
]

refill-threaded : (h : Heap) (c : ℕ) → refill h c ≡ threaded h c (alloc_frames h 0)
unfolding refill threaded
refill-threaded h c = refl

threaded-filled :
    (h : Heap) (c : ℕ) (r : Option PhysPageNum × BuddyAllocator)
    → threaded h c (answered h r) ≡ filled h c r
unfolding threaded answered filled
threaded-filled h c (none, f) = refl
threaded-filled h c (some n, f) = refl

pub refill-filled : (h : Heap) (c : ℕ) → refill h c ≡ filled h c (alloc h.frames 0)
refill-filled h c =
    refill-threaded h c
    ∙ ap (threaded h c) (alloc_frames-answered h)
    ∙ threaded-filled h c (alloc h.frames 0)

module _ {h : Heap} {lists live : ℕ → List ℕ} {own : ℕ → Option ℕ} (v : IsSafe h lists live own)
    (c : ℕ) (l : c < 9) (n : PhysPageNum) (small : n < 2 ^ 26)
    (unowned : own (as_ptr n / page_size) ≡ none) where
  -- A block that is listed or in use lies on another page.
  pub elsewhere :
      (d q : ℕ)
      → d < 9
      → 0 < times q (lists d) + times q (live d)
      → q / page_size ≢ as_ptr n / page_size
  elsewhere d q ld pos e =
      let owned = (v.placed d q ld pos).1 in
      let both : none ≡ some d = sym unowned ∙ rw e at owned in cc

  elsewhere_addr :
      (d q : ℕ)
      → d < 9
      → 0 < times q (lists d) + times q (live d)
      → (q < as_ptr n) ⊎ (as_ptr n + page_size ≤ q)
  elsewhere_addr d q ld pos =
      let at = as_ptr-low n small in
      let ne = elsewhere d q ld pos in
      elim (Bool-cases (ltb q (as_ptr n))) [
        | inl below ↦ inl (ground arith)
        | inr above ↦ inr (elim (Bool-cases (leb (as_ptr n + page_size) q)) [
          | inl high ↦ ground arith
          | inr inside ↦
              let from : as_ptr n ≤ q = ground arith in
              let to : q < as_ptr n + page_size = ground arith in
              let same : q / page_size ≡ as_ptr n / page_size = omega (arith, at, from, to) in
              absurd (ne same)
        ])
      ]

  abbrev pub words : ℕ → ℕ
  words = zero_words h.links (as_ptr n) (page_size * 2 ^ 0)

  abbrev pub size : ℕ
  size = class_size c

  abbrev pub chain : Chain
  chain = carve (as_ptr n) size (page_size / size) (record { words = words; head = h.free_heads c })

  whole : (page_size / size) * size ≡ page_size
  whole = (page-blocks c l).2

  some_size : 0 < size
  some_size = (page-blocks c l).3

  -- The words of the listed blocks are not touched.
  words-same : (d q : ℕ) → d < 9 → 0 < times q (lists d) → words q ≡ h.links q
  words-same d q ld pos = elim (elsewhere_addr d q ld (omega arith)) [
    | inl below ↦ ground arith
    | inr above ↦ ground arith
  ]

  pub chain-same : (d q : ℕ) → d < 9 → 0 < times q (lists d) → chain.words q ≡ h.links q
  chain-same d q ld pos =
      let out = elsewhere_addr d q ld (omega arith) in
      let clear : (q < as_ptr n) ⊎ (as_ptr n + (page_size / size) * size ≤ q) = rw whole out in
      carve-words (as_ptr n) size (page_size / size)
        (record { words = words; head = h.free_heads c }) q some_size clear
      ∙ words-same d q ld pos

  -- The list of the class afterwards.
  abbrev pub more : List ℕ
  more = blocks (as_ptr n) size (page_size / size) (lists c)

  pub more-IsChain : IsChain chain.words chain.head more
  more-IsChain =
      let at = as_ptr-low n small in
      carve-IsChain (as_ptr n) size (page_size / size)
        (record { words = words; head = h.free_heads c }) (lists c) (omega (arith, at)) some_size
        (λ q pos. rw whole (elsewhere_addr c q l (omega arith)))
        (IsChain-agree h.links words (h.free_heads c) (lists c) (λ q pos. words-same c q l pos)
          (v.chained c l))

  -- A block of the list is an old one, or a new one of the page.
  pub more-times :
      (q : ℕ)
      → (times q more ≡ times q (lists c))
        ⊎ ((times q more ≡ 1 + times q (lists c))
            × (times q (lists c) + times q (live c) ≡ 0)
            × (q % size ≡ 0)
            × (q / page_size ≡ as_ptr n / page_size))
  more-times q =
      let at = as_ptr-low n small in
      let (k, e, added) = times-blocks (as_ptr n) size (page_size / size) q (lists c) some_size in
      elim added [
        | inl z ↦ inl (omega (arith, e, z))
        | inr (one, j, place, low) ↦
            let from : as_ptr n ≤ q = omega (arith, place) in
            let to : q < as_ptr n + page_size = omega (arith, low, whole) in
            let page : q / page_size ≡ as_ptr n / page_size = omega (arith, at, from, to) in
            let aligned : q % size ≡ 0 =
              rw place (carved-aligned c l (as_ptr n) j (omega (arith, at))) in
            let free : times q (lists c) + times q (live c) ≡ 0 =
              elim (Bool-cases (ltb 0 (times q (lists c) + times q (live c)))) [
                | inl some_time ↦ absurd (elsewhere c q l (ground arith) page)
                | inr none_time ↦ ground arith
              ] in
            inr (omega (arith, e, one), free, aligned, page)
      ]

  pub more-once : (q : ℕ) → times q more + times q (live c) ≤ 1
  more-once q = elim (more-times q) [
    | inl same ↦ omega (arith, same, v.once c q l)
    | inr (one, free, aligned, page) ↦ omega (arith, one, free)
  ]

  abbrev pub owners : ℕ → Option ℕ
  owners = update own (as_ptr n / page_size) (some c)

  -- What was placed stays placed, and the new blocks are placed in the new page.
  pub kept-placed :
      (d q : ℕ)
      → d < 9
      → 0 < times q (lists d) + times q (live d)
      → (q % class_size d ≡ 0) × (owners (q / page_size) ≡ some d)
  kept-placed d q ld pos =
      let (aligned, owned) = v.placed d q ld pos in
      (
        aligned,
        update_ne own (as_ptr n / page_size) (q / page_size) (some c) (elsewhere d q ld pos)
            ∙ owned,
      )

  pub more-placed :
      (q : ℕ)
      → 0 < times q more + times q (live c)
      → (q % class_size c ≡ 0) × (owners (q / page_size) ≡ some c)
  more-placed q pos = elim (more-times q) [
    | inl same ↦ kept-placed c q l (omega (arith, same, pos))
    | inr (one, free, aligned, page) ↦
        (aligned, update_eq own (as_ptr n / page_size) (q / page_size) (some c) page)
  ]

  pub owners-low : owners 0 ≡ none
  owners-low =
      let at = as_ptr-low n small in
      let ne : 0 ≢ as_ptr n / page_size = omega (arith, at) in
      update_ne own (as_ptr n / page_size) 0 (some c) ne ∙ v.low

  pub owners-alive :
      (q : Pool)
      → IsLive q n
      → ((m : PhysPageNum) → IsLive v.pool m → IsLive q m)
      → (m d : ℕ) → m < 2 ^ 26
      → owners (as_ptr m / page_size) ≡ some d
      → IsLive q m
  owners-alive q now kept m d lm owned =
      let at = as_ptr-low n small in
      let at' = as_ptr-low m lm in
      elim (Bool-cases (as_ptr m / page_size == as_ptr n / page_size)) [
        | inl e ↦
            let pages : as_ptr m / page_size ≡ as_ptr n / page_size = ground arith in
            let same : m ≡ n = omega (arith, at, at', pages) in rw same now
        | inr e ↦
            let ne : as_ptr m / page_size ≢ as_ptr n / page_size = ground arith in
            let old = update_ne own (as_ptr n / page_size) (as_ptr m / page_size) (some c) ne in
            kept m (v.alive m d lm (sym old ∙ owned))
      ]
