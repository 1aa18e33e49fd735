-- ===== src/Mm/Frame/Owned.antt =====
-- kernel/src/mm/frame.rs: `alloc_frame`, `alloc_frames`, `free_frames` and the owned `Frame`. Memory is
-- a function from the address of a word to the word.
use alexos.Base.{ℕ, ◌+◌, ◌*◌, ◌^◌, Bool, ◌&&◌, Option, none, some, leb, ltb, if◌then◌else◌}
use alexos.Base.Words.{Run, ok, ◌>>=◌}
use alexos.Mm.Addr.{PhysPageNum, page_size, as_ptr}
use alexos.Mm.Frame.{BuddyAllocator, alloc, free}

pub record Memory : Type 0 where
  pub frames : BuddyAllocator
  pub words : ℕ → ℕ

-- `write_bytes(start, 0, len)`, and `ppn.zero()` for a page.
abbrev pub zero_run : (ℕ → ℕ) → ℕ → ℕ → ℕ → ℕ
zero_run words start len a = if leb start a && ltb a (start + len) then 0 else words a

unfoldable pub alloc_frames : Memory → ℕ → Option PhysPageNum × Memory
alloc_frames m order =
    let (n, frames) = alloc m.frames order in
    elim n [
      | none ↦ (none, record m { frames = frames })
      | some n ↦ (
        some n,
        record { frames = frames; words = zero_run m.words (as_ptr n) (page_size * 2 ^ order) },
      )
    ]

unfoldable pub alloc_frame : Memory → Option PhysPageNum × Memory
unfolding alloc_frames
alloc_frame m = alloc_frames m 0

unfoldable pub free_frames : Bool → Memory → PhysPageNum → ℕ → Run Memory
free_frames debug m n order = do
  frames ← free debug m.frames n order
  ok (record m { frames = frames })

-- `Frame`: a run of `2^order` frames and its first.
pub record Frame : Type 0 where
  pub ppn : PhysPageNum
  pub order : ℕ

-- `Frame::alloc_order`
unfoldable pub alloc_order : Memory → ℕ → Option Frame × Memory
unfolding alloc_frames
alloc_order m order =
    let (n, m') = alloc_frames m order in
    elim n [ none ↦ (none, m') | some n ↦ (some (record { ppn = n; order = order }), m') ]

-- `Frame::alloc`
unfoldable pub alloc_one : Memory → Option Frame × Memory
unfolding alloc_frame
alloc_one m =
    let (n, m') = alloc_frame m in
    elim n [ none ↦ (none, m') | some n ↦ (some (record { ppn = n; order = 0 }), m') ]

unfoldable pub count : Frame → ℕ
count f = 2 ^ f.order

-- `drop`
unfoldable pub drop_frame : Bool → Memory → Frame → Run Memory
unfolding free_frames
drop_frame debug m f = free_frames debug m f.ppn f.order
