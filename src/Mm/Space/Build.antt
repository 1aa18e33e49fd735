-- ===== src/Mm/Space/Build.antt =====
-- kernel/src/mm/space.rs: how address spaces are filled, copied and taken down: `write_data`,
-- `push_with_offset`, `unmap_from`, `map_kernel_half`, `duplicate`, the drop of a space, and the
-- kernel's own space. `KERNEL_SPACE` enters as the kernel's table, `none` before it is built.
use alexos.Base.{
  ℕ, zero, suc, ◌+◌, ◌-◌, ◌*◌, ◌/◌, ◌%◌, min, bit_or, Bool, true, false, not, ◌&&◌, Option, none,
  some, List, [], ◌∷◌, ◌==◌, if◌then◌else◌, length, drop, take as take_list,
}
use alexos.Base.Words.{Run, ok, panic, ◌>>=◌, add_word}
use alexos.Mm.Addr.{VirtAddr, PhysPageNum, VirtPageNum, page_size, vpn, base_addr, to_virt}
use alexos.Mm.PageTable.{
  PteFlags, rw, Mapped, mapped, failed, PageTable, Tables, Space, new_table, unmap,
  share_upper_half,
}
use alexos.Mm.Space.{
  Backing, linear, framed, Region, new_region, AddressSpace, frame_of, write_bytes, give_all,
  map_into, drop_region, keep_region, push_region,
}

abbrev pub is_framed : Backing → Bool
is_framed framed = true
is_framed linear = false

-- The loop of `write_data`; every round writes a byte at least, so that as many rounds as there are
-- bytes are enough. A page without a frame is the panic of `expect`.
unfoldable pub write_pages : ℕ → (ℕ → ℕ) → Region → ℕ → List ℕ → Run (ℕ → ℕ)
unfolding vpn frame_of base_addr write_bytes
write_pages rounds bytes r pos [] = ok bytes
write_pages zero bytes r pos (b ∷ bs) = panic
write_pages (suc rounds) bytes r pos (b ∷ bs) = do
  let src = b ∷ bs
  let n = min (page_size - pos % page_size) (length src)
  at ← add_word r.start pos
  elim (frame_of r.frames (vpn at)) [
    | none ↦ panic
    | some f ↦
        write_pages rounds (write_bytes bytes (base_addr f + pos % page_size) (take_list n src)) r
          (pos + n) (drop n src)
  ]

-- `write_data`; `debug` says whether the build has debug assertions.
unfoldable pub write_data : Bool → (ℕ → ℕ) → Region → ℕ → List ℕ → Run (ℕ → ℕ)
unfolding write_pages
write_data debug bytes r offset src =
    if debug && not (is_framed r.backing)
    then panic
    else write_pages (length src) bytes r offset src

-- The loop of `unmap_from`, over `count` pages from page `n` on.
unfoldable pub unmap_pages : ℕ → Tables → PageTable → VirtPageNum → Tables
unfolding unmap
unmap_pages zero t p n = t
unmap_pages (suc count) t p n = unmap_pages count (unmap t p n).1 p (n + 1)

unfoldable pub unmap_from : Tables → PageTable → Region → Tables
unfolding unmap_pages vpn
unmap_from t p r = unmap_pages (vpn r.end - vpn r.start) t p (vpn r.start)

-- Consecutive frames of a page table go back one by one.
unfoldable pub give_frames : {S : Type 0} → (S → PhysPageNum → S) → S → List PhysPageNum → S
give_frames give s [] = s
give_frames give s (f ∷ fs) = give_frames give (give s f) fs

-- A copy of one page.
unfoldable pub copy_page : (ℕ → ℕ) → PhysPageNum → PhysPageNum → ℕ → ℕ
copy_page bytes src dst a =
    if a / page_size == dst then bytes (src * page_size + a % page_size) else bytes a

-- The frames of the parent's region, copied to those of the child's for the same pages; `none` where
-- the child has no frame for a page.
unfoldable pub copy_frames :
    (ℕ → ℕ) → List (VirtPageNum × PhysPageNum) → List (VirtPageNum × PhysPageNum) → Option (ℕ → ℕ)
unfolding copy_page frame_of
copy_frames bytes [] mine = some bytes
copy_frames bytes ((n, f) ∷ fs) mine = elim (frame_of mine n) [
  | none ↦ none
  | some dst ↦ copy_frames (copy_page bytes f dst) fs mine
]

-- `PteFlags::GLOBAL`
abbrev pub global_flag : PteFlags
global_flag = 32

abbrev pub dram_base : ℕ
dram_base = 0x8000_0000

abbrev pub dram_size : ℕ
dram_size = 128 * 1024 * 1024

-- `MMIO_REGIONS`: the base and the size of each device window.
abbrev pub mmio_regions : List (ℕ × ℕ)
mmio_regions =
    (0x10_0000, page_size)
    ∷ (0x200_0000, 0x1_0000)
    ∷ (0xc00_0000, 0x60_0000)
    ∷ (0x1000_0000, page_size)
    ∷ (0x1000_1000, 0x1000 * 8)
    ∷ []

unfoldable pub device_windows : List (ℕ × ℕ) → Run (List (VirtAddr × VirtAddr × PteFlags))
unfolding to_virt
device_windows [] = ok []
device_windows ((base, size) ∷ more) = do
  start ← to_virt base
  end ← to_virt (base + size)
  rest ← device_windows more
  ok ((start, end, bit_or rw global_flag) ∷ rest)

module _ {S : Type 0} (take : S → Option (PhysPageNum × S)) (give : S → PhysPageNum → S)
    (debug : Bool) where
  unfoldable pub push_with_offset :
      AddressSpace S → Region → ℕ → List ℕ → Run (Mapped (Unit {0}) × AddressSpace S)
  unfolding map_into drop_region keep_region write_data
  push_with_offset a r offset src = do
    m ← map_into take give debug a r
    elim m.0 [
      | failed e ↦ ok (failed e, drop_region take give debug a m.1)
      | mapped _ ↦ do
        bytes ← write_data debug m.1.bytes (record r { frames = m.1.frames }) offset src
        ok (mapped tt, keep_region take give debug a r (record (m.1) { bytes = bytes }))
    ]

  -- `Drop`: the regions are unmapped and their frames freed, and then the frames of the table.
  unfoldable pub drop_regions : Space S → List Region → Space S
  unfolding unmap_from give_all
  drop_regions s [] = s
  drop_regions s (r ∷ rs) =
      drop_regions
        (record s {
          tables = unmap_from s.tables s.table r;
          supply = give_all take give debug s.supply r.frames;
        })
        rs

  unfoldable pub drop_space : AddressSpace S → S
  unfolding drop_regions give_frames
  drop_space a = let s = drop_regions a.space a.regions in give_frames give s.supply s.table.frames

  -- `map_kernel_half`
  unfoldable pub map_kernel_half : Option PageTable → AddressSpace S → Run (AddressSpace S)
  unfolding share_upper_half
  map_kernel_half none a = panic
  map_kernel_half (some kernel) a = ok (record a {
    space = record (a.space) { tables = share_upper_half a.space.tables a.space.table kernel };
  })

  -- The regions of the parent, in their order, copied into the child; the flag says whether all of
  -- them were. What fails is dropped.
  unfoldable pub copy_regions : AddressSpace S → List Region → Run (Bool × AddressSpace S)
  unfolding new_region map_into drop_region keep_region copy_frames
  copy_regions child [] = ok (true, child)
  copy_regions child (r ∷ rs) =
      let skipped = copy_regions child rs in
      if not (is_framed r.backing) then skipped else do
        copy ← new_region r.start r.end framed r.perm
        m ← map_into take give debug child copy
        elim m.0 [
          | failed e ↦ ok (false, drop_region take give debug child m.1)
          | mapped _ ↦ elim (copy_frames m.1.bytes r.frames m.1.frames) [
            | none ↦ ok (false, drop_region take give debug child m.1)
            | some bytes ↦
                copy_regions
                  (keep_region take give debug child copy (record (m.1) { bytes = bytes })) rs
          ]
        ]

  -- `duplicate`: the child, or `none` with the allocator after everything of it was dropped. The
  -- memory of the child is that of the parent with the new tables and pages.
  unfoldable pub duplicate : Option PageTable → AddressSpace S → Run (Option (AddressSpace S) × S)
  unfolding new_table map_kernel_half copy_regions drop_space
  duplicate kernel parent = elim (new_table take parent.space.supply parent.space.tables) [
    | none ↦ ok (none, parent.space.supply)
    | some s ↦ do
      child ← map_kernel_half kernel (record { space = s; regions = []; bytes = parent.bytes })
      made ← copy_regions child parent.regions
      ok (if made.0 then (some made.1, made.1.space.supply) else (none, drop_space made.1))
  ]

  -- A window as start, end and permissions; a failure is the panic of `expect`.
  unfoldable pub push_window :
      AddressSpace S → VirtAddr × VirtAddr × PteFlags → Run (AddressSpace S)
  unfolding new_region push_region
  push_window a (start, end, perm) = do
    r ← new_region start end linear perm
    pushed ← push_region take give debug a r
    elim pushed.0 [ failed e ↦ panic | mapped _ ↦ ok pushed.1 ]

  -- The sections of the kernel image; an empty one is left out.
  unfoldable pub push_sections :
      AddressSpace S → List (VirtAddr × VirtAddr × PteFlags) → Run (AddressSpace S)
  unfolding push_window
  push_sections a [] = ok a
  push_sections a ((start, end, perm) ∷ more) =
      let skipped = push_sections a more in
      if start == end
      then skipped
      else do a' ← push_window a (start, end, perm); push_sections a' more

  -- The window on the physical memory and the device windows, none of which is left out.
  unfoldable pub push_windows :
      AddressSpace S → List (VirtAddr × VirtAddr × PteFlags) → Run (AddressSpace S)
  unfolding push_window
  push_windows a [] = ok a
  push_windows a (w ∷ more) = do a' ← push_window a w; push_windows a' more

  -- `init_kernel_space`, up to the switch: `sections` and `kernel_end` are the linker's addresses.
  unfoldable pub init_kernel_space :
      List (VirtAddr × VirtAddr × PteFlags) → ℕ → S → Tables → (ℕ → ℕ) → Run (AddressSpace S)
  unfolding new_table push_sections push_windows to_virt
  init_kernel_space sections kernel_end supply t bytes = elim (new_table take supply t) [
    | none ↦ panic
    | some s ↦ do
      a ← push_sections (record { space = s; regions = []; bytes = bytes }) sections
      first ← to_virt kernel_end
      last ← to_virt (dram_base + dram_size)
      devices ← device_windows mmio_regions
      push_windows a ((first, last, bit_or rw global_flag) ∷ devices)
  ]
