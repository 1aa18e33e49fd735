-- ===== src/Mm/Frame/Tests.antt =====
-- The buddy allocator on one block of 1024 frames.
use alexos.Base.{true, some, ℕ, ◌+◌, ◌-◌, ◌∷◌, List, [], ◌≡◌, refl, update, arith}
use alexos.Base.Words.{ok}
use alexos.Mm.Frame.{
  find_donor, set_free, BuddyAllocator, empty, bits_below, push, remove, alloc, free, init,
  seed_start,
}
use alexos.Mm.Frame.Invariant.{IsBlock, Inv}
use alexos.Mm.Frame.Push.{push-Inv, cover-push}
use alexos.Mm.Frame.Alloc.{Served, alloc-Served}
use alexos.Mm.Frame.Free.{free-Released}
use alexos.Mm.Frame.History.{
  held, held_frames, Accounted, here, later, allocates, release, Reach-Accounted,
}
use alexos.Mm.Frame.Cover.{cover, covers}
use alexos.Mm.Frame.Seed.{cover-none, blank-Inv, AllFree, init-AllFree}

abbrev no_lists : ℕ → List ℕ
no_lists _ = []

abbrev blank : BuddyAllocator
blank = record empty { base = 0x80400; frames = 1024; order_bit_base = bits_below 1024 }

abbrev one_list : ℕ → List ℕ
one_list = update no_lists 10 (0 ∷ [])

blank_valid : Inv blank no_lists
blank_valid = blank-Inv blank (λ k. refl, λ i. refl, λ k. refl, omega arith)

whole-IsBlock : IsBlock 1024 10 0
whole-IsBlock = (omega arith, refl, omega arith)

one_valid : Inv (push blank 10 0) one_list
one_valid = push-Inv blank_valid 10 0 whole-IsBlock (λ f l h. cover-none 11 f)

alloc-Served_example : Served (push blank 10 0) one_list 3 (alloc (push blank 10 0) 3)
alloc-Served_example = alloc-Served one_valid 3 (omega arith)

init-AllFree_example :
    (c : BuddyAllocator) × (init empty 0x80305123 0x88000000 ≡ ok c)
    × AllFree c
    × (c.base ≡ seed_start 0x80306 (0x88000 - 0x80306))
    × (c.base + c.frames ≡ 0x88000)
    × (c.allocated ≡ 0)
unfolding seed_start bits_below
init-AllFree_example =
    init-AllFree empty 0x80305123 0x88000000 0x80306 0x88000 (omega arith) refl refl (omega arith)
      (omega arith) (omega arith)

-- The same frames, all of them allocated.
abbrev all_live : BuddyAllocator
all_live = record blank { allocated = 1024 }

all_live-Inv : Inv all_live no_lists
all_live-Inv = blank-Inv all_live (λ k. refl, λ i. refl, λ k. refl, omega arith)

free-Released_example :
    (c : BuddyAllocator) × (after : ℕ → List ℕ) × (free true all_live 0x80400 10 ≡ ok c)
    × Inv c after
    × ((f : ℕ) → cover 11 after f ≡ cover 11 no_lists f + covers 10 0 f)
    × (c.base ≡ 0x80400)
    × (c.frames ≡ 1024)
    × (c.allocated + 1024 ≡ 1024)
free-Released_example =
    free-Released true all_live-Inv 10 0 whole-IsBlock (λ f l h. cover-none 11 f) (omega arith)

one_block-Accounted : Accounted (push blank 10 0) []
unfolding push set_free held held_frames
one_block-Accounted = (
  one_list,
  one_valid,
  (λ f l. ground (
    arith,
    cover-push blank_valid 10 0 whole-IsBlock (λ g m n. cover-none 11 g) f,
    cover-none 11 f,
  )),
  tt,
  refl,
)

-- The state after a request of 8 frames.
abbrev served : BuddyAllocator
served = (alloc (push blank 10 0) 3).1

served-first : alloc (push blank 10 0) 3 ≡ (some ((push blank 10 0).base + 0), served)
unfolding alloc find_donor push remove set_free
served-first = refl

Reach-Accounted_example : Accounted served (record { order = 3; idx = 0 } ∷ [])
Reach-Accounted_example =
    Reach-Accounted (later here (allocates 3 0 (omega arith) served-first)) one_block-Accounted

release_example :
    (c : BuddyAllocator) × (free true served (served.base + 0) 3 ≡ ok c) × Accounted c []
release_example =
    release true [] (record { order = 3; idx = 0 }) []
      (Reach-Accounted (later here (allocates 3 0 (omega arith) served-first)) one_block-Accounted)
