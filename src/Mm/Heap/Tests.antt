-- ===== src/Mm/Heap/Tests.antt =====
-- Requests and a release, on a heap over one block of 1024 frames.
use alexos.Base.{
  ℕ, ◌≤◌, ◌<◌, ◌≡◌, ◌/◌, refl, true, Option, none, some, List, [], ◌∷◌, update, ◌^◌, ◌==◌,
  Bool-cases, inl, inr, arith,
}
use alexos.Base.Count.{times}
use alexos.Base.Words.{ok}
use alexos.Mm.Addr.{page_size, as_ptr}
use alexos.Mm.Frame.{BuddyAllocator, empty, bits_below, push, set_free}
use alexos.Mm.Frame.Invariant.{Inv, IsBlock}
use alexos.Mm.Frame.Push.{push-Inv}
use alexos.Mm.Frame.Seed.{cover-none, blank-Inv}
use alexos.Mm.PageTable.Buddy.{Pool, IsLive}
use alexos.Mm.Heap.{Heap, Layout, class_for, position_from, class_size, heap_alloc, heap_dealloc}
use alexos.Mm.Heap.Sizes.{total}
use alexos.Mm.Heap.Refill.{as_ptr-low}
use alexos.Mm.Heap.Invariant.{IsSafe, without}
use alexos.Mm.Heap.Safety.{Allocated}
use alexos.Mm.Heap.Requests.{heap_alloc-Allocated, heap_dealloc-IsSafe}

abbrev small_request : Layout
small_request = record { size = 24; align = 8 }

abbrev none_listed : ℕ → List ℕ
none_listed _ = []

abbrev no_frames : BuddyAllocator
no_frames = record empty { base = 0x80400; frames = 1024; order_bit_base = bits_below 1024 }

no_frames-Inv : Inv no_frames none_listed
no_frames-Inv = blank-Inv no_frames (λ k. refl, λ i. refl, λ k. refl, omega arith)

run-IsBlock : IsBlock 1024 10 0
run-IsBlock = (omega arith, refl, omega arith)

-- A heap that has no page yet, over a block of free frames.
abbrev fresh_heap : Heap
fresh_heap = record {
  free_heads = λ _. 0;
  allocated = 0;
  reserved = 0;
  links = λ _. 0;
  frames = push no_frames 10 0;
}

fresh_pool : Pool
fresh_pool = record {
  state = push no_frames 10 0;
  lists = update none_listed 10 (0 ∷ []);
  valid = push-Inv no_frames-Inv 10 0 run-IsBlock (λ f l h. cover-none 11 f);
  fits = unfold push set_free in omega arith;
}

fresh_heap-IsSafe : IsSafe fresh_heap none_listed none_listed (λ _. none)
unfolding total times fresh_pool
fresh_heap-IsSafe = record {
  chained = λ c l. refl;
  once = λ c p l. omega arith;
  placed = λ c p l h. absurd (omega arith);
  low = refl;
  counted = omega arith;
  pool = fresh_pool;
  same = refl;
  narrow = unfold push set_free in omega arith;
  alive = λ n c l e. cc;
}

heap_alloc-Allocated_example :
    (24 ≤ class_size 2)
    × (8 ≤ class_size 2)
    × Allocated 2 none_listed (heap_alloc fresh_heap small_request)
heap_alloc-Allocated_example =
    heap_alloc-Allocated fresh_heap-IsSafe small_request 2 (unfold class_for position_from in refl)

-- A heap with one block of class 3 in use, over frames that are all handed out.
abbrev block : ℕ
block = 0xffff_ffc0_8040_0000

abbrev one_live : ℕ → List ℕ
one_live = update none_listed 3 (block ∷ [])

abbrev one_page : ℕ → Option ℕ
one_page = update (λ _. none) (block / page_size) (some 3)

abbrev used_heap : Heap
used_heap = record {
  free_heads = λ _. 0;
  allocated = 64;
  reserved = page_size;
  links = λ _. 0;
  frames = no_frames;
}

abbrev used_pool : Pool
used_pool = record {
  state = no_frames;
  lists = none_listed;
  valid = no_frames-Inv;
  fits = omega arith;
}

used_page : (n c : ℕ) → n < 2 ^ 26 → one_page (as_ptr n / page_size) ≡ some c → IsLive used_pool n
used_page n c l e = elim (Bool-cases (as_ptr n / page_size == block / page_size)) [
  | inl at ↦
      let low = as_ptr-low n l in
      let pages : as_ptr n / page_size ≡ block / page_size = ground arith in
      (0, omega (arith, low, pages), omega arith, cover-none 11 0)
  | inr at ↦ absurd (let bad : none ≡ some c = rw at at e in cc)
]

used_heap-IsSafe : IsSafe used_heap none_listed one_live one_page
unfolding total times
used_heap-IsSafe = record {
  chained = λ c l. refl;
  once = λ c p l. ground arith;
  placed = λ c p l. elim (Bool-cases (c == 3)) [
    | inl at ↦
        let three : c ≡ 3 = ground arith in
        rw at (λ h. let here : p ≡ block = ground arith in rw (here, three) (refl, refl))
    | inr at ↦ rw at (λ h. absurd (omega arith))
  ];
  low = refl;
  counted = omega arith;
  pool = used_pool;
  same = refl;
  narrow = omega arith;
  alive = used_page;
}

heap_dealloc-IsSafe_example :
    (h' : Heap) × (heap_dealloc true used_heap block (record { size = 50; align = 8 }) ≡ ok h')
    × IsSafe h'
        (update none_listed 3 (block ∷ []))
        (update one_live 3 (without block (one_live 3)))
        one_page
heap_dealloc-IsSafe_example =
    heap_dealloc-IsSafe used_heap-IsSafe true (record { size = 50; align = 8 }) 3 block
      (unfold class_for position_from in refl) (unfold times in omega arith)
