-- ===== src/Loader.antt =====
-- kernel/src/loader.rs: the ELF64 loader. An image is its list of bytes. Building the address space
-- is `push`, which takes a checked segment and fails where memory runs out; the loop decides what is
-- pushed, in which order, and which error comes first.
pub mod Segments
pub mod Total
mod Tests
use alexos.Base.{
  ℕ, zero, suc, ◌+◌, ◌-◌, ◌*◌, ◌/◌, ◌%◌, ◌^◌, max, bit_or, Bool, true, false, not, ◌&&◌, ◌||◌,
  Option, none, some, List, [], ◌∷◌, ltb, leb, ◌==◌, if◌then◌else◌, length, drop, take, get_or,
}
use alexos.Base.Words.{word_mod, next_multiple_of}
use alexos.Mm.Addr.{VirtAddr, page_size, user_max_addr}
use alexos.Mm.PageTable.{PteFlags, read, write, exec, user}

pub data LoadError : Type 0 where
  truncated bad_magic wrong_format bad_address bad_segment out_of_memory : LoadError

-- A value, a refusal, or a panic of the kernel.
pub data Load {ℓ} (A : Type ℓ) : Type ℓ where
  done : A → Load A
  refused : LoadError → Load A
  panics : Load A

infixl 5 ◌>>=◌ ◌>>◌
abbrev pub ◌>>=◌ {ℓ κ} : {A : Type ℓ} {B : Type κ} → Load A → (A → Load B) → Load B
done a >>= f = f a
refused e >>= f = refused e
panics >>= f = panics

abbrev pub ◌>>◌ {ℓ} : {B : Type ℓ} → Load (Unit {0}) → Load B → Load B
m >> k = m >>= λ _. k

abbrev pub refuse_if : Bool → LoadError → Load (Unit {0})
refuse_if true e = refused e
refuse_if false e = done tt

-- An overflow of an unchecked addition.
abbrev pub panic_if : Bool → Load (Unit {0})
panic_if true = panics
panic_if false = done tt

abbrev pub et_exec : ℕ
et_exec = 2

abbrev pub em_riscv : ℕ
em_riscv = 243

abbrev pub pt_load : ℕ
pt_load = 1

-- A loadable segment that has passed the checks.
pub record Segment : Type 0 where
  pub vaddr : VirtAddr
  pub end : VirtAddr
  pub perm : PteFlags
  pub offset : ℕ
  pub content : List ℕ

-- The little-endian number of a list of bytes.
unfoldable pub from_le_bytes : List ℕ → ℕ
from_le_bytes [] = 0
from_le_bytes (b ∷ bs) = b + 256 * from_le_bytes bs

-- `read_int!` of `n` bytes
unfoldable pub read_int : ℕ → List ℕ → ℕ → Load ℕ
unfolding from_le_bytes
read_int n image off =
    if leb word_mod (off + n) || ltb (length image) (off + n)
    then refused truncated
    else done (from_le_bytes (take n (drop off image)))

-- The bits of `p_flags`: execute 1, write 2, read 4.
unfoldable pub segment_perm : ℕ → PteFlags
segment_perm p_flags =
    let readable = if p_flags / 4 % 2 == 0 then user else bit_or user read in
    let writable = if p_flags / 2 % 2 == 0 then readable else bit_or readable write in
    if p_flags % 2 == 0 then writable else bit_or writable exec

-- The checks of a loadable segment, and what is handed on.
unfoldable pub check_segment :
    List ℕ → (p_flags p_offset p_vaddr p_filesz p_memsz : ℕ) → Load Segment
check_segment image p_flags p_offset p_vaddr p_filesz p_memsz = do
  refuse_if (ltb p_memsz p_filesz) bad_segment
  refuse_if (leb word_mod (p_vaddr + p_memsz)) bad_address
  refuse_if (ltb user_max_addr (p_vaddr + p_memsz) || ltb p_vaddr page_size) bad_address
  refuse_if (leb word_mod (p_offset + p_filesz)) truncated
  refuse_if (ltb (length image) (p_offset + p_filesz)) truncated
  done (record {
    vaddr = p_vaddr;
    end = p_vaddr + p_memsz;
    perm = segment_perm p_flags;
    offset = p_vaddr % page_size;
    content = take p_filesz (drop p_offset image);
  })

-- The integer of `n` bytes at `off` of the program header at `ph`; the addition is not a checked one.
unfoldable pub read_field : ℕ → List ℕ → ℕ → ℕ → Load ℕ
unfolding read_int
read_field n image ph off = do panic_if (leb word_mod (ph + off)); read_int n image (ph + off)

-- The fields of one program header that asks for loading, and their checks.
unfoldable pub read_segment : List ℕ → ℕ → Load Segment
unfolding read_field check_segment
read_segment image ph = do
  p_flags ← read_field 4 image ph 4
  p_offset ← read_field 8 image ph 8
  p_vaddr ← read_field 8 image ph 16
  p_filesz ← read_field 8 image ph 32
  p_memsz ← read_field 8 image ph 40
  check_segment image p_flags p_offset p_vaddr p_filesz p_memsz

-- The fields of the file header that the loop uses.
pub record Header : Type 0 where
  pub entry : ℕ
  pub phoff : ℕ
  pub phentsize : ℕ
  pub phnum : ℕ

unfoldable pub has_magic : List ℕ → Bool
has_magic image =
    get_or image 0 0 == 0x7f
    && get_or image 1 0 == b'E'
    && get_or image 2 0 == b'L'
    && get_or image 3 0 == b'F'

-- The checks of the file header up to the machine.
unfoldable pub check_format : List ℕ → Load (Unit {0})
unfolding read_int has_magic
check_format image = do
  refuse_if (ltb (length image) 64) truncated
  refuse_if (not (has_magic image)) bad_magic
  refuse_if (not (get_or image 4 0 == 2) || not (get_or image 5 0 == 1)) wrong_format
  e_type ← read_int 2 image 16
  e_machine ← read_int 2 image 18
  refuse_if (not (e_type == et_exec) || not (e_machine == em_riscv)) wrong_format

unfoldable pub read_header : List ℕ → Load Header
unfolding read_int check_format
read_header image = do
  check_format image
  entry ← read_int 8 image 24
  phoff ← read_int 8 image 32
  phentsize ← read_int 2 image 54
  phnum ← read_int 2 image 56
  done (record { entry = entry; phoff = phoff; phentsize = phentsize; phnum = phnum })

pub record LoadedImage (W : Type 0) : Type 0 where
  pub space : W
  pub entry : ℕ
  pub brk : ℕ

-- What follows a push: the new space, and the break above the segment; rounding it up may overflow.
unfoldable pub kept {ℓ} : {W : Type ℓ} → Option W → ℕ → Segment → Load (W × ℕ)
kept none brk s = refused out_of_memory
kept (some w) brk s = do
  panic_if (leb word_mod (next_multiple_of s.end page_size))
  done (w, max brk (next_multiple_of s.end page_size))

module _ {W : Type 0} (push : W → Segment → Option W) where
  -- A program header that asks for loading, or any other.
  unfoldable pub load_entry : List ℕ → ℕ → Bool → W × ℕ → Load (W × ℕ)
  unfolding read_segment kept
  load_entry image ph false acc = done acc
  load_entry image ph true (w, brk) = do s ← read_segment image ph; kept (push w s) brk s

  -- One round of the loop: the space and the break after program header `i`.
  unfoldable pub load_header : List ℕ → Header → ℕ → W × ℕ → Load (W × ℕ)
  unfolding read_int load_entry
  load_header image h i (w, brk) = do
    panic_if (leb word_mod (h.phoff + i * h.phentsize))
    p_type ← read_int 4 image (h.phoff + i * h.phentsize)
    load_entry image (h.phoff + i * h.phentsize) (p_type == pt_load) (w, brk)

  -- `for i in 0..phnum`, from `i` on, with `count` rounds to go.
  unfoldable pub load_headers : ℕ → List ℕ → Header → ℕ → W × ℕ → Load (W × ℕ)
  unfolding load_header
  load_headers zero image h i acc = done acc
  load_headers (suc count) image h i acc = do
    acc' ← load_header image h i acc
    load_headers count image h (i + 1) acc'

  -- `load`; `fresh` is a new space with the kernel's half, if there is memory for one.
  unfoldable pub load : Option W → List ℕ → Load (LoadedImage W)
  unfolding read_header load_headers
  load fresh image = do
    h ← read_header image
    w ← elim fresh [ none ↦ refused out_of_memory | some w ↦ done w ]
    acc ← load_headers h.phnum image h 0 (w, 0)
    refuse_if (acc.1 == 0) bad_segment
    done (record { space = acc.0; entry = h.entry; brk = acc.1 })
