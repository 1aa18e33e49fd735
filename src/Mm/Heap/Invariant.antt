-- ===== src/Mm/Heap/Invariant.antt =====
-- kernel/src/mm/heap.rs: the well-formed states of the heap, and what taking a block off a list and
-- putting one back do to them.
use alexos.Base.{
  ℕ, ◌+◌, ◌-◌, ◌*◌, ◌/◌, ◌%◌, ◌^◌, ◌≤◌, ◌<◌, ◌≡◌, ◌≢◌, inl, inr, refl, sym, ap, ◌∙◌, true, Option,
  none, some, List, [], ◌∷◌, update, length, ◌==◌, if◌then◌else◌, update_ne, leb, Bool-cases, arith,
}
use alexos.Base.Count.{is_at, times}
use alexos.Base.Words.{ok}
use alexos.Mm.Addr.{page_size, as_ptr}
use alexos.Mm.PageTable.Buddy.{Pool, IsLive}
use alexos.Mm.Heap.{Heap, class_size, null, take_block, dealloc_class}
use alexos.Mm.Heap.Chains.{IsChain, IsChain-agree}
use alexos.Mm.Heap.Sizes.{total, total-update}

-- The lists of free blocks and of blocks in use of each class are disjoint and without repetition, and
-- a block of a class is aligned to its size in a page that `own` gives to the class. The pages of the
-- classes are frames in use, `allocated` counts the blocks in use, and all frames lie in the first
-- 2^38 bytes, which the direct map covers.
pub record IsSafe (h : Heap) (lists live : ℕ → List ℕ) (own : ℕ → Option ℕ) : Type 0 where
  pub chained : (c : ℕ) → c < 9 → IsChain h.links (h.free_heads c) (lists c)
  pub once : (c p : ℕ) → c < 9 → times p (lists c) + times p (live c) ≤ 1
  pub placed :
      (c p : ℕ)
      → c < 9
      → 0 < times p (lists c) + times p (live c)
      → (p % class_size c ≡ 0) × (own (p / page_size) ≡ some c)
  pub low : own 0 ≡ none
  pub counted : total live ≤ h.allocated
  pub pool : Pool
  pub same : pool.state ≡ h.frames
  pub narrow : h.frames.base + h.frames.frames ≤ 2 ^ 26
  pub alive : (n c : ℕ) → n < 2 ^ 26 → own (as_ptr n / page_size) ≡ some c → IsLive pool n

-- A list without the first `p` on it.
pub without : ℕ → List ℕ → List ℕ
without p [] = []
without p (q ∷ qs) = if q == p then qs else q ∷ without p qs

pub times-without :
    (p q : ℕ) (qs : List ℕ) → 0 < times p qs → times q (without p qs) + is_at p q ≡ times q qs
unfolding times without
times-without p q [] l = absurd (omega arith)
times-without p q (x ∷ qs) l = elim (Bool-cases (x == p)) [
  | inl e ↦
      let same : x ≡ p = ground arith in
      let self : (p == p) ≡ true = ground arith in rw (same, self) (omega arith)
  | inr e ↦
      let more : 0 < times p qs = ground arith in rw e (omega (arith, times-without p q qs more))
]

pub length-without : (p : ℕ) (qs : List ℕ) → 0 < times p qs → length (without p qs) + 1 ≡ length qs
unfolding times without
length-without p [] l = absurd (omega arith)
length-without p (x ∷ qs) l = elim (Bool-cases (x == p)) [
  | inl e ↦ rw e (omega arith)
  | inr e ↦
      let more : 0 < times p qs = ground arith in rw e (omega (arith, length-without p qs more))
]

module _ {h : Heap} {lists live : ℕ → List ℕ} {own : ℕ → Option ℕ} (v : IsSafe h lists live own)
    (c : ℕ) (l : c < 9) where
  taken : (p : ℕ) (ps : List ℕ) → lists c ≡ p ∷ ps → IsChain h.links (h.free_heads c) (p ∷ ps)
  taken p ps e = rw e at (v.chained c l)

  -- The head of a list goes to the caller.
  pub take_block-IsSafe :
      (p : ℕ) (ps : List ℕ)
      → lists c ≡ p ∷ ps
      → ((take_block h c).0 ≡ p)
        × IsSafe (take_block h c).1 (update lists c ps) (update live c (p ∷ live c)) own
  unfolding take_block times
  take_block-IsSafe p ps e =
      let chain = taken p ps e in
      let counts = λ (q : ℕ). ap (times q) e in
      (
        chain.0,
        record {
          chained = λ c' l'. elim (Bool-cases (c' == c)) [
            | inl at ↦ rw (at, chain.0) chain.2
            | inr at ↦ rw at (v.chained c' l')
          ];
          once = λ c' q l'. elim (Bool-cases (c' == c)) [
            | inl at ↦ rw at (omega (arith, v.once c q l, counts q))
            | inr at ↦ rw at (v.once c' q l')
          ];
          placed = λ c' q l'. elim (Bool-cases (c' == c)) [
            | inl at ↦
                let here : c' ≡ c = ground arith in
                rw at (λ pos. rw here (v.placed c q l (omega (arith, pos, counts q))))
            | inr at ↦ rw at (v.placed c' q l')
          ];
          low = v.low;
          counted = omega (arith, total-update c l live (p ∷ live c), v.counted);
          pool = v.pool;
          same = v.same;
          narrow = v.narrow;
          alive = v.alive;
        },
      )

  -- What the counter loses with a block in use.
  given_back :
      (p : ℕ)
      → 0 < times p (live c)
      → (class_size c ≤ h.allocated)
        × (total (update live c (without p (live c))) ≤ h.allocated - class_size c)
  given_back p used =
      let shorter = length-without p (live c) used in
      let change = total-update c l live (without p (live c)) in
      let spread : class_size c * length (live c)
          ≡ class_size c * length (without p (live c)) + class_size c =
        rw⁻¹ shorter (omega arith) in
      (omega (arith, v.counted, change, spread), omega (arith, v.counted, change, spread))

  -- No free block starts where a block in use does.
  no_free : (p : ℕ) → 0 < times p (live c) → (c' q : ℕ) → c' < 9 → 0 < times q (lists c') → q ≢ p
  no_free p used c' q l' pos same =
      let free : 0 < times p (lists c') = rw same at pos in
      elim (Bool-cases (c' == c)) [
        | inl at ↦
            let here : c' ≡ c = ground arith in
            let listed : 0 < times p (lists c) = rw here at free in
            absurd (omega (arith, v.once c p l))
        | inr at ↦
            let mine = (v.placed c p l (omega arith)).1 in
            let other = (v.placed c' p l' (omega arith)).1 in
            let both : some c ≡ some c' = sym mine ∙ other in
            let eq : c ≡ c' = cc in absurd (ground arith)
      ]

  -- A block in use goes back to the head of the list of its class.
  pub dealloc_class-IsSafe :
      (p : ℕ)
      → 0 < times p (live c)
      → (h' : Heap) × (dealloc_class h p c ≡ ok h')
        × IsSafe h' (update lists c (p ∷ lists c)) (update live c (without p (live c))) own
  unfolding dealloc_class times
  dealloc_class-IsSafe p used =
      let back = given_back p used in
      let enough : leb (class_size c) h.allocated ≡ true = ground (arith, back.0) in
      let counts = λ (q : ℕ). times-without p q (live c) used in
      let here = v.placed c p l (omega arith) in
      let free = v.once c p l in
      let nonzero : p ≢ null = λ z.
        let page : own 0 ≡ some c = rw z at here.1 in
        let both : none ≡ some c = sym v.low ∙ page in cc in
      let links = update h.links p (h.free_heads c) in
      let agree = λ (c' : ℕ) (l' : c' < 9).
        IsChain-agree h.links links (h.free_heads c') (lists c')
          (λ q pos. update_ne h.links p q (h.free_heads c) (no_free p used c' q l' pos))
          (v.chained c' l') in
      let self : links p ≡ h.free_heads c = ground arith in
      (
        record h {
          allocated = h.allocated - class_size c;
          links = links;
          free_heads = update h.free_heads c p;
        },
        rw enough refl,
        record {
          chained = λ c' l'. elim (Bool-cases (c' == c)) [
            | inl at ↦ rw at (refl, nonzero, rw self (agree c l))
            | inr at ↦ rw at (agree c' l')
          ];
          once = λ c' q l'. elim (Bool-cases (c' == c)) [
            | inl at ↦ rw at (omega (arith, v.once c q l, counts q))
            | inr at ↦ rw at (v.once c' q l')
          ];
          placed = λ c' q l'. elim (Bool-cases (c' == c)) [
            | inl at ↦
                let same : c' ≡ c = ground arith in
                rw at (λ pos. rw same (v.placed c q l (omega (arith, pos, counts q))))
            | inr at ↦ rw at (v.placed c' q l')
          ];
          low = v.low;
          counted = back.1;
          pool = v.pool;
          same = v.same;
          narrow = v.narrow;
          alive = v.alive;
        },
      )
