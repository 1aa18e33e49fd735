-- ===== src/Task/Process/Break.antt =====
-- kernel/src/task/process.rs: the program break.
use alexos.Base.{ℕ, suc, ◌+◌, ◌%◌, ◌≤◌, ◌<◌, ◌≡◌, ◌⊎◌, Bool, true, false, Option, none, some, arith}
use alexos.Base.Words.{next_multiple_of}
use alexos.Mm.Addr.{page_size, user_max_addr}
use alexos.Task.{TaskInner}
use alexos.Task.Process.{Process, Isize, up, down, user_heap_base, image_brk}

-- The break lies in the heap's range and not above `heap_top`, which is a page boundary, so that the next region starts where the last one ends.
pub record IsValid (t : TaskInner) : Type 0 where
  pub above_base : user_heap_base ≤ t.brk
  pub below_max : t.brk < user_max_addr
  pub covered : t.brk ≤ t.heap_top
  pub whole_pages : t.heap_top % page_size ≡ 0

-- A program whose image ends at a page boundary below the user half's end starts with a valid break.
pub image_brk-IsValid :
    (loaded : ℕ) (t : TaskInner)
    → loaded % page_size ≡ 0
    → loaded < user_max_addr
    → IsValid (image_brk loaded t)
unfolding image_brk
image_brk-IsValid loaded t h small = ground arith

-- The break that a displacement asks for.
abbrev pub Displaced : ℕ → Isize → ℕ → Type 0
Displaced old (up n) new = new ≡ old + n
Displaced old (down n) new = new + suc n ≡ old

module _ {W : Type 0} (push : W → ℕ → ℕ → Bool × W) where
  -- How a break at `new` is backed: up to `heap_top` no region is asked for, and above it the region
  -- from there to the page boundary behind the break has been mapped.
  abbrev pub Backed : Process W → ℕ → Process W → Type 0
  Backed p new p' =
      ((new ≤ p.inner.heap_top) × (p'.inner.heap_top ≡ p.inner.heap_top) × (p'.space ≡ p.space))
      ⊎ ((p.inner.heap_top < new)
          × (p'.inner.heap_top ≡ next_multiple_of new page_size)
          × (push p.space p.inner.heap_top (next_multiple_of new page_size) ≡ (true, p'.space)))

  -- Why a break at `new` is refused: it is outside the heap's range, and the space is as it was, or
  -- the region was refused, which leaves the space that the attempt left.
  abbrev pub Fails : Process W → ℕ → Process W → Type 0
  Fails p new p' =
      (((new < user_heap_base) ⊎ (user_max_addr ≤ new)) × (p'.space ≡ p.space))
      ⊎ ((p.inner.heap_top < new)
          × (push p.space p.inner.heap_top (next_multiple_of new page_size) ≡ (false, p'.space)))

  abbrev Moves : Process W → ℕ → Option ℕ × Process W → Type 0
  Moves p new (some old, p') =
      IsValid p'.inner × (old ≡ p.inner.brk) × (p'.inner.brk ≡ new) × Backed p new p'
  Moves p new (none, p') = (p'.inner ≡ p.inner) × Fails p new p'

  -- What a change of the break by `delta` comes to. A displacement that is not representable has no
  -- `new`.
  abbrev pub Adjusts : Process W → Isize → Option ℕ × Process W → Type 0
  Adjusts p delta (some old, p') =
      IsValid p'.inner
      × (old ≡ p.inner.brk)
      × Displaced p.inner.brk delta p'.inner.brk
      × Backed p p'.inner.brk p'
  Adjusts p delta (none, p') =
      (p'.inner ≡ p.inner) × ((new : ℕ) → Displaced p.inner.brk delta new → Fails p new p')
