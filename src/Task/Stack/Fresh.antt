-- ===== src/Task/Stack/Fresh.antt =====
-- kernel/src/task/context.rs: a fresh kernel stack.
use mathlib.Core.Path.{subst}
use alexos.Base.{
  ℕ, suc, ◌+◌, ◌*◌, ◌/◌, ◌%◌, ◌^◌, ◌≤◌, ◌<◌, ◌≡◌, ◌⊎◌, inl, inr, refl, sym, ap, ◌∙◌, true, Option,
  none, some, List, update, arith,
}
use alexos.Mm.Addr.{PhysPageNum, page_size, virt_offset, as_ptr, base_addr}
use alexos.Mm.Frame.{BuddyAllocator, max_order, alloc, order_for, bit_length}
use alexos.Mm.Frame.Cover.{cover, covers}
use alexos.Mm.Frame.Invariant.{Inv}
use alexos.Mm.Frame.Alloc.{Served, alloc-Served}
use alexos.Mm.Frame.Owned.{Memory, Frame, zero_run, alloc_frames, alloc_order, count}
use alexos.Task.Stack.{
  KernelStack, kernel_stack_size, stack_canary, bottom, top, new_stack, canary_intact,
}

-- What `KernelStack::new` comes to, from the memory `m` and free lists `lists`.
abbrev pub Made : Memory → (ℕ → List ℕ) → Option KernelStack × Memory → Type 0
Made m lists (none, m') = m' ≡ m
Made m lists (some k, m') =
    (idx : ℕ) × (after : ℕ → List ℕ) × (k.frames.ppn ≡ m.frames.base + idx)
    × Inv m'.frames after
    × ((f : ℕ) → cover (suc max_order) lists f ≡ cover (suc max_order) after f + covers 3 idx f)
    × (top k ≡ bottom k + kernel_stack_size)
    × (bottom k % page_size ≡ 0)
    × (virt_offset ≤ bottom k)
    × (top k ≤ 2 ^ 64)
    × (canary_intact m' k ≡ true)
    × ((a : ℕ) → bottom k < a → a < top k → m'.words a ≡ 0)
    × ((a : ℕ) → (a < bottom k) ⊎ (top k ≤ a) → m'.words a ≡ m.words a)

stack_order : order_for (kernel_stack_size / page_size) ≡ 3
unfolding order_for bit_length
stack_order = refl

module _ (m : Memory) (lists : ℕ → List ℕ) (v : Inv m.frames lists)
    (low : m.frames.base + m.frames.frames ≤ 2 ^ 26) where
  as_ptr-low : (n : PhysPageNum) → n + 8 ≤ 2 ^ 26 → as_ptr n ≡ n * page_size + virt_offset
  unfolding as_ptr base_addr
  as_ptr-low n l = omega arith

  words : PhysPageNum → ℕ → ℕ
  words n = update (zero_run m.words (as_ptr n) (page_size * 2 ^ 3)) (as_ptr n) stack_canary

  made :
      (n : PhysPageNum) (f : BuddyAllocator)
      → Served m.frames lists 3 (some n, f)
      → Made m lists (
        some (record { frames = record { ppn = n; order = 3 } }),
        record { frames = f; words = words n },
      )
  unfolding top bottom count canary_intact words
  made n f (idx, after, at, block, inv, covered, base, frames, used) =
      let ptr = as_ptr-low n (omega (arith, at, block.2, low)) in
      (
        idx,
        after,
        at,
        inv,
        covered,
        omega arith,
        omega (arith, ptr),
        omega (arith, ptr),
        omega (arith, ptr, at, block.2, low),
        ground arith,
        λ a from to. ground (arith, from, to),
        λ a out. elim out [ inl below ↦ ground (arith, below) | inr above ↦ ground (arith, above) ],
      )

  -- The three calls, each on the answer of the one below.
  answered : ℕ → Option PhysPageNum × BuddyAllocator → Option PhysPageNum × Memory
  answered order r = elim r.0 [
    | none ↦ (none, record m { frames = r.1 })
    | some n ↦ (
      some n,
      record { frames = r.1; words = zero_run m.words (as_ptr n) (page_size * 2 ^ order) },
    )
  ]

  owned : ℕ → Option PhysPageNum × Memory → Option Frame × Memory
  owned order a = elim a.0 [
    | none ↦ (none, a.1)
    | some n ↦ (some (record { ppn = n; order = order }), a.1)
  ]

  stacked : Option Frame × Memory → Option KernelStack × Memory
  stacked a = elim a.0 [
    | none ↦ (none, a.1)
    | some f ↦
        let k : KernelStack = record { frames = f } in
        (some k, record (a.1) { words = update a.1.words (bottom k) stack_canary })
  ]

  new_stack-stacked : new_stack m ≡ stacked (owned 3 (answered 3 (alloc m.frames 3)))
  new_stack-stacked =
      let direct : new_stack m
          ≡ stacked (alloc_order m (order_for (kernel_stack_size / page_size))) =
        unfold new_stack stacked in refl in
      let run : alloc_order m 3 ≡ owned 3 (alloc_frames m 3) = unfold alloc_order owned in refl in
      let frames : alloc_frames m 3 ≡ answered 3 (alloc m.frames 3) =
        unfold alloc_frames answered in refl in
      direct
      ∙ ap (λ o. stacked (alloc_order m o)) stack_order
      ∙ ap stacked run
      ∙ ap (λ a. stacked (owned 3 a)) frames

  stacked-Made :
      (r : Option PhysPageNum × BuddyAllocator)
      → Served m.frames lists 3 r
      → Made m lists (stacked (owned 3 (answered 3 r)))
  unfolding stacked owned answered words bottom
  stacked-Made (none, f) served = ap (λ b. record m { frames = b }) served.0
  stacked-Made (some n, f) served = made n f served

  -- On a well-formed allocator over the first 2^38 bytes, a new kernel stack is a run of eight frames
  -- that were free and are not any more, at a page boundary of the direct map: `top` is
  -- KERNEL_STACK_SIZE above `bottom` within the address space, the canary is intact, every other word
  -- of the run is zero, and no word outside of it has changed. Without memory nothing changes.
  pub new_stack-Made : Made m lists (new_stack m)
  new_stack-Made =
      subst (Made m lists) (sym new_stack-stacked)
        (stacked-Made (alloc m.frames 3) (alloc-Served v 3 (omega arith)))
