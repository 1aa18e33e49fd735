-- ===== src/Mm/Heap.antt =====
-- kernel/src/mm/heap.rs: the size-class heap over the buddy allocator. A pointer is its address, and
-- `links` is the first word of the block at an address.
pub mod Classes
pub mod Chains
pub mod Sizes
pub mod Invariant
pub mod Refill
pub mod Safety
pub mod Requests
mod Tests
use alexos.Base.{
  update, ℕ, zero, suc, ◌+◌, ◌*◌, ◌/◌, ◌^◌, max, Bool, true, false, ◌&&◌, Option, none, some, List,
  [], ◌∷◌, ltb, leb, ◌==◌, if◌then◌else◌, get_or,
}
use alexos.Base.Words.{Run, ok, ◌>>=◌, sub_word, div_ceil}
use alexos.Mm.Addr.{page_size, PhysPageNum, as_ptr, to_phys, ppn}
use alexos.Mm.Frame.{BuddyAllocator, alloc, free, order_for}

abbrev pub class_sizes : List ℕ
class_sizes = 8 ∷ 16 ∷ 32 ∷ 64 ∷ 128 ∷ 256 ∷ 512 ∷ 1024 ∷ 2048 ∷ []

abbrev pub max_class_size : ℕ
max_class_size = 2048

abbrev pub null : ℕ
null = 0

-- `core::alloc::Layout`: a size and an alignment.
pub record Layout : Type 0 where
  pub size : ℕ
  pub align : ℕ

-- `HeapInner`, with the memory that its free blocks use and the frame allocator below it.
pub record Heap : Type 0 where
  pub free_heads : ℕ → ℕ
  pub allocated : ℕ
  pub reserved : ℕ
  pub links : ℕ → ℕ
  pub frames : BuddyAllocator

abbrev pub class_size : ℕ → ℕ
class_size c = get_or class_sizes c 0

-- `position(|&s| s >= need)`
unfoldable pub position_from : ℕ → List ℕ → ℕ → Option ℕ
position_from need [] c = none
position_from need (s ∷ ss) c =
    let rest = position_from need ss (c + 1) in if leb need s then some c else rest

unfoldable pub class_for : Layout → Option ℕ
unfolding position_from
class_for l =
    let need = max l.size l.align in
    if ltb max_class_size need then none else position_from need class_sizes 0

-- The frames of a run are zeroed when they are handed out.
abbrev pub zero_words : (ℕ → ℕ) → ℕ → ℕ → ℕ → ℕ
zero_words links start len a = if leb start a && ltb a (start + len) then 0 else links a

-- `alloc_frames`
unfoldable pub alloc_frames : Heap → ℕ → Option PhysPageNum × Heap
alloc_frames h order =
    let (n, frames) = alloc h.frames order in
    elim n [
      | none ↦ (none, record h { frames = frames })
      | some n ↦ (
        some n,
        record h { frames = frames; links = zero_words h.links (as_ptr n) (page_size * 2 ^ order) },
      )
    ]

-- A free list in memory: the words and the head.
pub record Chain : Type 0 where
  pub words : ℕ → ℕ
  pub head : ℕ

-- `for i in (0..count).rev()`: each block is written with the head so far, and becomes the head.
unfoldable pub carve : ℕ → ℕ → ℕ → Chain → Chain
carve base size zero c = c
carve base size (suc i) c =
    let block = base + i * size in
    carve base size i (record { words = update c.words block c.head; head = block })

unfoldable pub refill : Heap → ℕ → Bool × Heap
unfolding alloc_frames carve
refill h c =
    let (n, h') = alloc_frames h 0 in
    elim n [
      | none ↦ (false, h')
      | some n ↦
          let size = class_size c in
          let chain =
            carve (as_ptr n) size (page_size / size)
              (record { words = h'.links; head = h'.free_heads c }) in
          (
            true,
            record h' {
              reserved = h'.reserved + page_size;
              links = chain.words;
              free_heads = update h'.free_heads c chain.head;
            },
          )
    ]

-- The order that serves a request for whole frames.
unfoldable pub large_order : Layout → ℕ
large_order l = order_for (div_ceil l.size page_size)

unfoldable pub alloc_large : Heap → Layout → ℕ × Heap
unfolding alloc_frames large_order
alloc_large h l =
    if ltb page_size l.align
    then (null, h)
    else let (n, h') = alloc_frames h (large_order l) in
      elim n [
        | none ↦ (null, h')
        | some n ↦ (
          as_ptr n,
          record h' {
            allocated = h'.allocated + page_size * 2 ^ large_order l;
            reserved = h'.reserved + page_size * 2 ^ large_order l;
          },
        )
      ]

-- Take the head of a class's list, which is not empty.
unfoldable pub take_block : Heap → ℕ → ℕ × Heap
take_block h c =
    let block = h.free_heads c in
    (
      block,
      record h {
        free_heads = update h.free_heads c (h.links block);
        allocated = h.allocated + class_size c;
      },
    )

unfoldable pub alloc_class : Heap → ℕ → ℕ × Heap
unfolding refill take_block
alloc_class h c =
    if h.free_heads c == null
    then (let (filled, h') = refill h c in if filled then take_block h' c else (null, h'))
    else take_block h c

-- `GlobalAlloc::alloc`: the pointer, null where the request fails.
unfoldable pub heap_alloc : Heap → Layout → ℕ × Heap
unfolding class_for alloc_large alloc_class
heap_alloc h l = elim (class_for l) [ none ↦ alloc_large h l | some c ↦ alloc_class h c ]

unfoldable pub dealloc_large : Bool → Heap → ℕ → Layout → Run Heap
unfolding large_order
dealloc_large debug h p l = do
  let bytes = page_size * 2 ^ large_order l
  allocated ← sub_word h.allocated bytes
  reserved ← sub_word h.reserved bytes
  a ← to_phys p
  frames ← free debug h.frames (ppn a) (large_order l)
  ok (record h { allocated = allocated; reserved = reserved; frames = frames })

unfoldable pub dealloc_class : Heap → ℕ → ℕ → Run Heap
dealloc_class h p c = do
  allocated ← sub_word h.allocated (class_size c)
  ok (record h {
    allocated = allocated;
    links = update h.links p (h.free_heads c);
    free_heads = update h.free_heads c p;
  })

-- `GlobalAlloc::dealloc`
unfoldable pub heap_dealloc : Bool → Heap → ℕ → Layout → Run Heap
unfolding class_for dealloc_large dealloc_class
heap_dealloc debug h p l = elim (class_for l) [
  | none ↦ dealloc_large debug h p l
  | some c ↦ dealloc_class h p c
]

unfoldable pub stats : Heap → ℕ × ℕ
stats h = (h.allocated, h.reserved)
