-- ===== src/Mm/Space.antt =====
-- kernel/src/mm/space.rs: regions and address spaces. A page's frame holds either a table or data;
-- `bytes` is the data memory by physical address, and `Frame::alloc` and the drop of a `Frame` enter
-- as `take` and `give`, as in Mm/PageTable. `regions` is in the order in which they were pushed.
pub mod Copy
pub mod CopyOut
pub mod Strings
pub mod Build
pub mod Unmap
mod Tests
use alexos.Base.{
  ℕ, zero, suc, ◌+◌, ◌-◌, ◌/◌, ◌%◌, min, bit_or, Bool, true, false, ◌&&◌, ◌||◌, Option, none, some,
  List, [], ◌∷◌, ◌++◌, update, ltb, leb, ◌==◌, if◌then◌else◌, length, drop, take as take_list,
}
use alexos.Base.Words.{Run, ok, ◌>>=◌, sub_word, word_mod}
use alexos.Mm.Addr.{
  VirtAddr, PhysPageNum, VirtPageNum, page_size, virt_offset, user_max_addr, page_offset,
  align_down, align_up, vpn,
}
use alexos.Mm.PageTable.{
  PteFlags, write, user, contains, flags, out_of_memory, Mapped, mapped, failed, PageTable, Tables,
  Space, zero_frame, translate, translate_addr, map_page, map_at_level,
}

pub data Backing : Type 0 where
  linear framed : Backing

-- `frames` is the map from a page to its frame, the latest entry first.
pub record Region : Type 0 where
  pub start : VirtAddr
  pub end : VirtAddr
  pub backing : Backing
  pub perm : PteFlags
  pub frames : List (VirtPageNum × PhysPageNum)

-- An address space with the memory and the allocator that it works on.
pub record AddressSpace (S : Type 0) : Type 0 where
  pub space : Space S
  pub regions : List Region
  pub bytes : ℕ → ℕ

-- `Region::new`
unfoldable pub new_region : VirtAddr → VirtAddr → Backing → PteFlags → Run Region
unfolding align_down align_up
new_region start end backing perm = do
  top ← align_up end
  ok (record { start = align_down start; end = top; backing = backing; perm = perm; frames = [] })

unfoldable pub contains_addr : Region → VirtAddr → Bool
contains_addr r a = leb r.start a && ltb a r.end

unfoldable pub find_region : List Region → VirtAddr → Option Region
unfolding contains_addr
find_region [] a = none
find_region (r ∷ rs) a = if contains_addr r a then some r else find_region rs a

unfoldable pub frame_of : List (VirtPageNum × PhysPageNum) → VirtPageNum → Option PhysPageNum
frame_of [] n = none
frame_of ((m, f) ∷ fs) n = if m == n then some f else frame_of fs n

-- The pages of a superpage.
abbrev pub superpage_pages : ℕ
superpage_pages = 512

-- Zeroes at the addresses of a fresh frame.
abbrev pub zero_bytes : (ℕ → ℕ) → PhysPageNum → ℕ → ℕ
zero_bytes bytes n a = if a / page_size == n then 0 else bytes a

-- Consecutive bytes of memory, and a copy into them.
unfoldable pub read_bytes : (ℕ → ℕ) → ℕ → ℕ → List ℕ
read_bytes bytes a zero = []
read_bytes bytes a (suc n) = bytes a ∷ read_bytes bytes (a + 1) n

unfoldable pub write_bytes : (ℕ → ℕ) → ℕ → List ℕ → ℕ → ℕ
write_bytes bytes a [] = bytes
write_bytes bytes a (b ∷ bs) = write_bytes (update bytes a b) (a + 1) bs

-- The addition of `to_virt`, which overflows for a physical address from 2^38 on, is not modelled in
-- the copies: their addresses are those of frames.

-- `copy_from_user` from `copied` bytes on, with `left` bytes to go; every round copies one byte at
-- least, so that `left` rounds are enough.
unfoldable pub copy_in : ℕ → Tables → PageTable → (ℕ → ℕ) → VirtAddr → ℕ → Option (List ℕ)
unfolding translate_addr page_offset read_bytes
copy_in rounds t p bytes va zero = some []
copy_in zero t p bytes va (suc left) = none
copy_in (suc rounds) t p bytes va (suc left) =
    let n = min (page_size - page_offset va) (suc left) in
    let rest = copy_in rounds t p bytes (va + n) (suc left - n) in
    if leb word_mod va || leb user_max_addr va then none else elim (translate_addr t p va) [
      | none ↦ none
      | some pa ↦ elim rest [ none ↦ none | some bs ↦ some (read_bytes bytes pa n ++ bs) ]
    ]

unfoldable pub copy_from_user : Tables → PageTable → (ℕ → ℕ) → VirtAddr → ℕ → Option (List ℕ)
unfolding copy_in
copy_from_user t p bytes addr len = copy_in len t p bytes addr len

-- `copy_to_user`, round by round; a failed copy keeps what was written before it. The result says
-- whether it came to the end.
unfoldable pub copy_out : ℕ → Tables → PageTable → (ℕ → ℕ) → VirtAddr → List ℕ → Bool × (ℕ → ℕ)
unfolding translate translate_addr page_offset vpn write_bytes contains flags
copy_out rounds t p bytes va [] = (true, bytes)
copy_out zero t p bytes va (b ∷ bs) = (false, bytes)
copy_out (suc rounds) t p bytes va (b ∷ bs) =
    let src = b ∷ bs in
    let n = min (page_size - page_offset va) (length src) in
    let pa = translate_addr t p va in
    let written = λ (a : ℕ). write_bytes bytes a (take_list n src) in
    let rest = λ (a : ℕ). copy_out rounds t p (written a) (va + n) (drop n src) in
    if leb word_mod va || leb user_max_addr va
    then (false, bytes)
    else elim (translate t p (vpn va)) [
      | none ↦ (false, bytes)
      | some e ↦
          if contains (flags e) (bit_or write user)
          then elim pa [ none ↦ (false, bytes) | some a ↦ rest a ]
          else (false, bytes)
    ]

unfoldable pub copy_to_user : Tables → PageTable → (ℕ → ℕ) → VirtAddr → List ℕ → Bool × (ℕ → ℕ)
unfolding copy_out
copy_to_user t p bytes addr src = copy_out (length src) t p bytes addr src

-- `read_cstr`: the bytes before the first zero byte, if there is one among the first `max`. The test
-- that they are UTF-8 is `utf8`.
unfoldable pub read_cstr_from :
    (List ℕ → Bool) → Tables → PageTable → (ℕ → ℕ) → VirtAddr → ℕ → List ℕ → Option (List ℕ)
unfolding copy_from_user
read_cstr_from utf8 t p bytes addr zero got = none
read_cstr_from utf8 t p bytes addr (suc max) got =
    let more = λ (b : ℕ). read_cstr_from utf8 t p bytes (addr + 1) max (got ++ b ∷ []) in
    if leb word_mod addr then none else elim (copy_from_user t p bytes addr 1) [
      | none ↦ none
      | some [] ↦ none
      | some (b ∷ _) ↦ if b == 0 then (if utf8 got then some got else none) else more b
    ]

unfoldable pub read_cstr :
    (List ℕ → Bool) → Tables → PageTable → (ℕ → ℕ) → VirtAddr → ℕ → Option (List ℕ)
unfolding read_cstr_from
read_cstr utf8 t p bytes addr max = read_cstr_from utf8 t p bytes addr max []

module _ {S : Type 0} (take : S → Option (PhysPageNum × S)) (give : S → PhysPageNum → S)
    (debug : Bool) where
  -- What `map_into` has done: the space, the data memory and the frames that the region owns.
  pub record Mapping : Type 0 where
    pub space : Space S
    pub bytes : ℕ → ℕ
    pub frames : List (VirtPageNum × PhysPageNum)

  -- `Frame::alloc` and `table.map` for one page of a framed region.
  unfoldable pub map_framed : Mapping → VirtPageNum → PteFlags → Run (Mapped (Unit {0}) × Mapping)
  unfolding map_page
  map_framed m n perm = elim (take m.space.supply) [
    | none ↦ ok (failed out_of_memory, m)
    | some (f, rest) ↦ do
      let s = record (m.space) { supply = rest; tables = zero_frame m.space.tables f }
      r ← map_page take debug s n f perm
      elim r.0 [
        | failed e ↦ ok (
          failed e,
          record m {
            space = record (r.1) { supply = give r.1.supply f };
            bytes = zero_bytes m.bytes f;
          },
        )
        | mapped _ ↦ ok (
          mapped tt,
          record { space = r.1; bytes = zero_bytes m.bytes f; frames = (n, f) ∷ m.frames },
        )
      ]
  ]

  -- The loop of `map_into` for a framed region, `count` pages from page `n` on.
  unfoldable pub map_framed_pages :
      ℕ → Mapping → VirtPageNum → PteFlags → Run (Mapped (Unit {0}) × Mapping)
  unfolding map_framed
  map_framed_pages zero m n perm = ok (mapped tt, m)
  map_framed_pages (suc count) m n perm = do
    r ← map_framed m n perm
    elim r.0 [ failed e ↦ ok (failed e, r.1) | mapped _ ↦ map_framed_pages count r.1 (n + 1) perm ]

  -- The loop of `map_into` for a linear region, from page `n` to `end`; every round maps a page at
  -- least, so that `end - n` rounds are enough.
  unfoldable pub map_linear_pages :
      ℕ → Space S → VirtPageNum → VirtPageNum → PteFlags → Run (Mapped (Unit {0}) × Space S)
  unfolding map_at_level map_page
  map_linear_pages zero s n end perm = ok (mapped tt, s)
  map_linear_pages (suc rounds) s n end perm = if leb end n then ok (mapped tt, s) else do
    f ← sub_word n (virt_offset / page_size)
    let whole = n % superpage_pages == 0 && f % superpage_pages == 0
    let large = whole && leb (n + superpage_pages) end
    r ← if large then map_at_level take debug s n f perm 1 else map_page take debug s n f perm
    elim r.0 [
      | failed e ↦ ok (failed e, r.1)
      | mapped _ ↦
          map_linear_pages rounds r.1 (if large then n + superpage_pages else n + 1) end perm
    ]

  -- The frames of a region that is dropped go back to the allocator, in the order of their pages; the
  -- list has the last page first.
  unfoldable pub give_all : S → List (VirtPageNum × PhysPageNum) → S
  give_all s [] = s
  give_all s ((n, f) ∷ fs) = give (give_all s fs) f

  -- `map_into`: whether every page was mapped, and what was done until then.
  unfoldable pub map_into : AddressSpace S → Region → Run (Mapped (Unit {0}) × Mapping)
  unfolding map_framed_pages map_linear_pages vpn
  map_into a r = elim r.backing [
    | linear ↦ do
      m ← map_linear_pages (vpn r.end - vpn r.start) a.space (vpn r.start) (vpn r.end) r.perm
      ok (m.0, record { space = m.1; bytes = a.bytes; frames = r.frames })
    | framed ↦
        map_framed_pages (vpn r.end - vpn r.start)
          (record { space = a.space; bytes = a.bytes; frames = r.frames }) (vpn r.start) r.perm
  ]

  -- A region that fails to map is dropped, with the frames that it has so far.
  unfoldable pub drop_region : AddressSpace S → Mapping → AddressSpace S
  unfolding give_all
  drop_region a m = record a {
    space = record (m.space) { supply = give_all m.space.supply m.frames };
    bytes = m.bytes;
  }

  -- A region that is mapped goes to the end of the list.
  unfoldable pub keep_region : AddressSpace S → Region → Mapping → AddressSpace S
  keep_region a r m = record {
    space = m.space;
    bytes = m.bytes;
    regions = a.regions ++ record r { frames = m.frames } ∷ [];
  }

  -- `AddressSpace::push`
  unfoldable pub push_region : AddressSpace S → Region → Run (Mapped (Unit {0}) × AddressSpace S)
  unfolding map_into drop_region keep_region
  push_region a r = do
    m ← map_into a r
    elim m.0 [
      | failed e ↦ ok (failed e, drop_region a m.1)
      | mapped _ ↦ ok (mapped tt, keep_region a r m.1)
    ]
