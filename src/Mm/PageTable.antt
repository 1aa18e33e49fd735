-- ===== src/Mm/PageTable.antt =====
-- kernel/src/mm/page_table.rs: Sv39 page tables. The tables live in physical memory, a function
-- from a frame and an index to the raw entry. `Frame::alloc` enters as `take`, of any frame source.
mod Pte
mod Tests
pub mod Entry
pub mod Tree
pub mod Update
pub mod Supply
pub mod Grow
pub mod Mapping
pub mod MapPage
pub mod Refinement
pub mod Buddy
unfoldable pub use Pte.*
use alexos.Base.{
  update, ℕ, zero, suc, ◌+◌, ◌-◌, ◌*◌, ◌/◌, ◌%◌, ◌^◌, bit_or, Bool, true, false, not, ◌&&◌, ◌||◌,
  Option, none, some, List, [], ◌∷◌, ◌++◌, ltb, leb, ◌==◌, if◌then◌else◌, length,
}
use alexos.Base.Words.{Run, ok, panic, ◌>>=◌, add_word}
use alexos.Mm.Addr.{
  PhysAddr, VirtAddr, PhysPageNum, VirtPageNum, page_offset, vpn, base_addr, Indices, indices,
}

abbrev pub sv39_levels : ℕ
sv39_levels = 3

abbrev pub pte_per_table : ℕ
pte_per_table = 512

pub data MapError : Type 0 where
  already_mapped not_mapped out_of_memory : MapError

-- What an operation of the table returns to its caller.
pub data Mapped (A : Type 0) : Type 0 where
  mapped : A → Mapped A
  failed : MapError → Mapped A

pub record PageTable : Type 0 where
  pub root : PhysPageNum
  pub frames : List PhysPageNum

-- The memory that holds tables: the raw entry at an index of a frame.
abbrev pub Tables : Type 0
Tables = PhysPageNum → ℕ → ℕ

-- The place of one entry.
pub record Slot : Type 0 where
  pub frame : PhysPageNum
  pub index : ℕ

abbrev pub read_slot : Tables → Slot → ℕ
read_slot t s = t s.frame s.index

abbrev pub write_slot : Tables → Slot → ℕ → Tables
write_slot t s e = update t s.frame (update (t s.frame) s.index e)

-- A frame that the allocator hands out is zeroed.
abbrev pub zero_frame : Tables → PhysPageNum → Tables
zero_frame t n = update t n (λ _. 0)

-- What an operation reads and writes: the allocator, the memory and the table's own record.
pub record Space (S : Type 0) : Type 0 where
  pub supply : S
  pub tables : Tables
  pub table : PageTable

-- How a walk ends: at a slot, without memory for a table, or past the leaf level.
pub data Walked (S : Type 0) : Type 0 where
  found : Slot → Space S → Walked S
  exhausted : Space S → Walked S
  ran_past : Walked S

unfoldable pub path_of : VirtPageNum → List ℕ
unfolding indices
path_of n = let i = indices n in i.root ∷ i.middle ∷ i.leaf ∷ []

-- `level_page_size(level) >> PAGE_SHIFT`: the pages that a leaf at the level covers.
unfoldable pub level_pages : ℕ → ℕ
level_pages zero = 2 ^ 18
level_pages (suc zero) = 2 ^ 9
level_pages (suc (suc _)) = 1

unfoldable pub token : PageTable → ℕ
token t = bit_or (8 * 2 ^ 60) t.root

-- `walk_ptr`: the leaf slot, if every table on the way is there and no superpage is met.
unfoldable pub walk_from : Tables → PhysPageNum → List ℕ → Option Slot
unfolding is_valid is_leaf pte_ppn
walk_from t n [] = none
walk_from t n (i ∷ []) = some (record { frame = n; index = i })
walk_from t n (i ∷ j ∷ is) =
    let e = t n i in
    let rest = walk_from t (pte_ppn e) (j ∷ is) in
    if not (is_valid e) then none else if is_leaf e then none else rest

unfoldable pub walk_ptr : Tables → PageTable → VirtPageNum → Option Slot
unfolding walk_from path_of
walk_ptr t p n = walk_from t p.root (path_of n)

unfoldable pub walk_read : Tables → PageTable → VirtPageNum → Option ℕ
unfolding walk_ptr
walk_read t p n = elim (walk_ptr t p n) [ none ↦ none | some s ↦ some (read_slot t s) ]

-- `Option::filter`
abbrev pub keep_if : (ℕ → Bool) → Option ℕ → Option ℕ
keep_if p none = none
keep_if p (some e) = if p e then some e else none

unfoldable pub translate : Tables → PageTable → VirtPageNum → Option ℕ
unfolding walk_read is_valid
translate t p n = keep_if is_valid (walk_read t p n)

unfoldable pub translate_addr : Tables → PageTable → VirtAddr → Option PhysAddr
unfolding translate pte_ppn base_addr page_offset vpn
translate_addr t p a = elim (translate t p (vpn a)) [
  | none ↦ none
  | some e ↦ some (base_addr (pte_ppn e) + page_offset a)
]

-- `share_upper_half`: the upper half of the kernel's root table.
unfoldable pub share_upper_half : Tables → PageTable → PageTable → Tables
share_upper_half t p kernel =
    update t p.root (λ i. if leb (pte_per_table / 2) i then t kernel.root i else t p.root i)

unfoldable pub table_frames : PageTable → ℕ
table_frames p = length p.frames

-- `unmap`: the frame that the entry named, and an empty entry in its place.
unfoldable pub unmap : Tables → PageTable → VirtPageNum → Mapped PhysPageNum × Tables
unfolding walk_ptr is_valid pte_ppn
unmap t p n = elim (walk_ptr t p n) [
  | none ↦ (failed not_mapped, t)
  | some s ↦
      if is_valid (read_slot t s)
      then (mapped (pte_ppn (read_slot t s)), write_slot t s 0)
      else (failed not_mapped, t)
]

-- `protect`: new flags for the entry of a mapped page.
unfoldable pub protect : Tables → PageTable → VirtPageNum → PteFlags → Mapped (Unit {0}) × Tables
unfolding walk_ptr is_valid set_flags leaf_flags
protect t p n f = elim (walk_ptr t p n) [
  | none ↦ (failed not_mapped, t)
  | some s ↦
      if is_valid (read_slot t s)
      then (mapped tt, write_slot t s (set_flags (read_slot t s) (leaf_flags f)))
      else (failed not_mapped, t)
]

module _ {S : Type 0} (take : S → Option (PhysPageNum × S)) where
  -- `Frame::alloc`, and the frame put on the list of those that the table owns.
  unfoldable pub own_frame : Space S → Option (PhysPageNum × Space S)
  own_frame s = elim (take s.supply) [
    | none ↦ none
    | some (n, rest) ↦ some (
      n,
      record s {
        supply = rest;
        tables = zero_frame s.tables n;
        table = record (s.table) { frames = s.table.frames ++ n ∷ [] };
      },
    )
  ]

  -- `PageTable::new`
  unfoldable pub new_table : S → Tables → Option (Space S)
  new_table supply t = elim (take supply) [
    | none ↦ none
    | some (n, rest) ↦ some (record {
      supply = rest;
      tables = zero_frame t n;
      table = record { root = n; frames = n ∷ [] };
    })
  ]

  -- The entry at an index of a table frame, made to name a fresh table where it is not valid.
  unfoldable pub ensure_table : Space S → PhysPageNum → ℕ → Option (Space S)
  unfolding own_frame is_valid new_pte
  ensure_table s n i = if is_valid (s.tables n i) then some s else elim (own_frame s) [
    | none ↦ none
    | some (fresh, s') ↦ some (record s' {
      tables = write_slot s'.tables (record { frame = n; index = i }) (new_pte fresh valid);
    })
  ]

  -- The loop of `walk_create_to` over the indices that are left; `stop` levels are still to go.
  unfoldable pub walk_create : Space S → PhysPageNum → List ℕ → ℕ → Walked S
  unfolding ensure_table pte_ppn
  walk_create s n [] stop = ran_past
  walk_create s n (i ∷ is) zero = found (record { frame = n; index = i }) s
  walk_create s n (i ∷ is) (suc stop) = elim (ensure_table s n i) [
    | none ↦ exhausted s
    | some s' ↦ walk_create s' (pte_ppn (s'.tables n i)) is stop
  ]

  -- `map_at_level`; `debug` says whether the build has debug assertions.
  unfoldable pub map_at_level :
      Bool → Space S → VirtPageNum → PhysPageNum → PteFlags → ℕ → Run (Mapped (Unit {0}) × Space S)
  unfolding walk_create path_of is_valid new_pte leaf_flags level_pages
  map_at_level debug s v n f level =
      let misaligned = not (v % level_pages level == 0) || not (n % level_pages level == 0) in
      if debug && (leb sv39_levels level || misaligned)
      then panic
      else elim (walk_create s s.table.root (path_of v) level) [
        | ran_past ↦ panic
        | exhausted s' ↦ ok (failed out_of_memory, s')
        | found slot s' ↦
            if is_valid (read_slot s'.tables slot)
            then ok (failed already_mapped, s')
            else ok (
              mapped tt,
              record s' { tables = write_slot s'.tables slot (new_pte n (leaf_flags f)) },
            )
      ]

  -- `map`: a leaf of 4 KiB.
  unfoldable pub map_page :
      Bool → Space S → VirtPageNum → PhysPageNum → PteFlags → Run (Mapped (Unit {0}) × Space S)
  unfolding map_at_level
  map_page debug s v n f = map_at_level debug s v n f (sv39_levels - 1)
