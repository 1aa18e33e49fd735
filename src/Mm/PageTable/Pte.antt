-- ===== src/Mm/PageTable/Pte.antt =====
-- The flags and the entries of kernel/src/mm/page_table.rs. `PteFlags` and `Pte` are transparent
-- over `usize`. `& 0x3ff` is `% 1024`, and `& !0x3ff` clears the same ten bits.
use alexos.Base.{ℕ, ◌*◌, ◌/◌, ◌%◌, ◌^◌, bit_and, bit_or, Bool, not, ◌&&◌, ◌==◌}
use alexos.Base.Words.{word_mod}
use alexos.Mm.Addr.{PhysPageNum}

abbrev pub PteFlags : Type 0
PteFlags = ℕ

abbrev pub Pte : Type 0
Pte = ℕ

abbrev pub valid : PteFlags
valid = 1

abbrev pub read : PteFlags
read = 2

abbrev pub write : PteFlags
write = 4

abbrev pub exec : PteFlags
exec = 8

abbrev pub user : PteFlags
user = 16

abbrev pub accessed : PteFlags
accessed = 64

abbrev pub dirty : PteFlags
dirty = 128

abbrev pub rw : PteFlags
rw = bit_or read write

abbrev pub rwx : PteFlags
rwx = bit_or (bit_or read write) exec

unfoldable pub contains : PteFlags → PteFlags → Bool
contains f g = bit_and f g == g

unfoldable pub intersects : PteFlags → PteFlags → Bool
intersects f g = not (bit_and f g == 0)

unfoldable pub union : PteFlags → PteFlags → PteFlags
union f g = bit_or f g

-- `Pte::new`; `<<` drops what leaves the word.
unfoldable pub new_pte : PhysPageNum → PteFlags → Pte
new_pte n f = bit_or (n * 1024 % word_mod) f

unfoldable pub pte_ppn : Pte → PhysPageNum
pte_ppn e = e / 1024 % 2 ^ 44

unfoldable pub flags : Pte → PteFlags
flags e = e % 1024

unfoldable pub set_flags : Pte → PteFlags → Pte
set_flags e f = bit_or (e / 1024 * 1024) f

unfoldable pub is_valid : Pte → Bool
unfolding contains flags
is_valid e = contains (flags e) valid

unfoldable pub is_leaf : Pte → Bool
unfolding is_valid flags intersects
is_leaf e = is_valid e && intersects (flags e) rwx

-- `flags | VALID | ACCESSED | DIRTY`
unfoldable pub leaf_flags : PteFlags → PteFlags
leaf_flags f = bit_or (bit_or (bit_or f valid) accessed) dirty
