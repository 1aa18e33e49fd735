-- ===== src/Mm/Heap/Requests.antt =====
-- kernel/src/mm/heap.rs: `alloc` and `dealloc` of a layout that a size class serves.
use alexos.Base.{ℕ, ◌≤◌, ◌<◌, ◌≡◌, Bool, Option, some, List, ◌∷◌, update}
use mathlib.Core.Path.{subst}
use alexos.Base.Count.{times}
use alexos.Base.Words.{ok}
use alexos.Mm.Heap.{Heap, Layout, class_for, class_size, heap_alloc, heap_dealloc}
use alexos.Mm.Heap.Classes.{Serves, class_for-Serves}
use alexos.Mm.Heap.Invariant.{IsSafe, without, dealloc_class-IsSafe}
use alexos.Mm.Heap.Safety.{Allocated, alloc_class-Allocated}

served : (r : Layout) (c : ℕ) → class_for r ≡ some c → Serves r (some c)
served r c e = subst (Serves r) e (class_for-Serves r)

-- `alloc` of a layout of the class `c`, from a well-formed heap: the class is at least as large as the
-- size and the alignment that were asked for, and the heap is well formed afterwards. Either null is
-- returned and the blocks in use are as before, or a block aligned to the size of its class that has
-- no byte in common with any block in use, and is in use itself from then on.
pub heap_alloc-Allocated :
    {h : Heap} {lists live : ℕ → List ℕ} {own : ℕ → Option ℕ}
    → IsSafe h lists live own
    → (r : Layout) (c : ℕ) → class_for r ≡ some c
    → (r.size ≤ class_size c) × (r.align ≤ class_size c) × Allocated c live (heap_alloc h r)
unfolding heap_alloc
heap_alloc-Allocated v r c e =
    let (l, size, align, least) = served r c e in
    (size, align, rw (heap_alloc, e) (alloc_class-Allocated v c l))

-- `dealloc` of a block in use, with a layout of its class, does not panic; the heap is well formed
-- afterwards, with the block at the head of the list of its class and no longer in use.
pub heap_dealloc-IsSafe :
    {h : Heap} {lists live : ℕ → List ℕ} {own : ℕ → Option ℕ}
    → IsSafe h lists live own
    → (debug : Bool) (r : Layout) (c p : ℕ) → class_for r ≡ some c
    → 0 < times p (live c)
    → (h' : Heap) × (heap_dealloc debug h p r ≡ ok h')
      × IsSafe h' (update lists c (p ∷ lists c)) (update live c (without p (live c))) own
unfolding heap_dealloc
heap_dealloc-IsSafe v debug r c p e used =
    let (l, size, align, least) = served r c e in
    rw (heap_dealloc, e) (dealloc_class-IsSafe v c l p used)
