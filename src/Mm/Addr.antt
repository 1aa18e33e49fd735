-- ===== src/Mm/Addr.antt =====
-- kernel/src/mm/addr.rs with the constants of kernel/src/config.rs that it uses: typed addresses
-- and page numbers. The four newtypes are transparent over `usize`, and stand here for its numbers;
-- shifts and masks are written as division and remainder by powers of two.
pub mod Bounds
pub mod Sv39
use alexos.Base.{ℕ, ◌+◌, ◌-◌, ◌*◌, ◌/◌, ◌%◌, ◌^◌, Bool, true, false, ltb, leb, ◌==◌, if◌then◌else◌}
use alexos.Base.Words.{Run, ok, panic, ◌>>=◌, add_word, sub_word, word_mod}

abbrev pub PhysAddr : Type 0
PhysAddr = ℕ

abbrev pub VirtAddr : Type 0
VirtAddr = ℕ

abbrev pub PhysPageNum : Type 0
PhysPageNum = ℕ

abbrev pub VirtPageNum : Type 0
VirtPageNum = ℕ

abbrev pub page_size : ℕ
page_size = 4096

abbrev pub virt_offset : ℕ
virt_offset = 0xffff_ffc0_0000_0000

abbrev pub user_max_addr : ℕ
user_max_addr = 0x40_0000_0000

-- `impl_addr_common!`, the same for physical and virtual addresses
unfoldable pub page_offset : ℕ → ℕ
page_offset a = a % page_size

unfoldable pub is_aligned : ℕ → Bool
unfolding page_offset
is_aligned a = page_offset a == 0

unfoldable pub align_down : ℕ → ℕ
align_down a = a / page_size * page_size

unfoldable pub align_up : ℕ → Run ℕ
align_up a = do s ← add_word a page_size; ok ((s - 1) / page_size * page_size)

-- `PhysAddr::ppn` and `VirtAddr::vpn`
unfoldable pub ppn : PhysAddr → PhysPageNum
ppn a = a / page_size

unfoldable pub vpn : VirtAddr → VirtPageNum
vpn a = a / page_size

unfoldable pub to_virt : PhysAddr → Run VirtAddr
to_virt a = add_word a virt_offset

unfoldable pub to_phys : VirtAddr → Run PhysAddr
to_phys a = sub_word a virt_offset

unfoldable pub is_kernel : VirtAddr → Bool
is_kernel a = leb virt_offset a

-- `(x as i64) << 25 >> 25`: the shift to the left drops the top bits, the shift to the right copies
-- the sign bit into the 25 bits that it fills.
unfoldable pub sign_extended : ℕ → ℕ
sign_extended a =
    let s = a * 2 ^ 25 % word_mod in
    if ltb s (2 ^ 63) then s / 2 ^ 25 else s / 2 ^ 25 + (2 ^ 64 - 2 ^ 39)

unfoldable pub is_canonical : VirtAddr → Bool
unfolding sign_extended
is_canonical a = sign_extended a == a

-- `base_addr` of a frame or of a page; `<<` drops what leaves the word.
unfoldable pub base_addr : ℕ → ℕ
base_addr n = n * page_size % word_mod

-- `PhysPageNum::as_ptr`
unfoldable pub as_ptr : PhysPageNum → ℕ
unfolding base_addr
as_ptr n = (base_addr n + virt_offset) % word_mod

unfoldable pub next : ℕ → Run ℕ
next n = add_word n 1

-- The three table indices of a page, from the root down to the leaf.
pub record Indices : Type 0 where
  pub root : ℕ
  pub middle : ℕ
  pub leaf : ℕ

unfoldable pub indices : VirtPageNum → Indices
indices n = record { root = n / 2 ^ 18 % 512; middle = n / 2 ^ 9 % 512; leaf = n % 512 }

unfoldable pub range_len : VirtAddr → VirtAddr → Run ℕ
unfolding align_down align_up
range_len start end = do e ← align_up end; sub_word (e / page_size) (align_down start / page_size)
