-- ===== src/Mm/Frame.antt =====
-- kernel/src/mm/frame.rs: the binary buddy allocator of physical frames. Blocks are named by frame
-- indices relative to `base`. The list node that a free block holds in its own first bytes is the
-- value of `nodes` at its index; the bitmap is a function of the bit's number. Frame numbers are
-- far below 2^64, so sums of them are plain; a subtraction or an assertion that fails is a panic.
pub mod Links
pub mod Cover
pub mod Invariant
pub mod Push
pub mod Remove
pub mod Alloc
pub mod Seed
pub mod Order
pub mod Owned
pub mod Xor
pub mod Free
pub mod History
mod Tests
use alexos.Base.{
  update, ℕ, zero, suc, ◌+◌, ◌-◌, ◌/◌, ◌%◌, ◌^◌, min, max, bit_xor, Bool, true, false, not, ◌&&◌,
  ◌||◌, Option, none, some, ltb, leb, ◌==◌, if◌then◌else◌,
}
use alexos.Base.Words.{Run, ok, panic, ◌>>=◌, sub_word, div_ceil, next_multiple_of}
use alexos.Mm.Addr.{PhysAddr, PhysPageNum, page_size, align_up, align_down, ppn}

abbrev pub max_order : ℕ
max_order = 10

-- `usize::MAX`, "no frame"
abbrev pub nil : ℕ
nil = 0xffff_ffff_ffff_ffff

pub record FreeNode : Type 0 where
  pub next : ℕ
  pub prev : ℕ

pub record BuddyAllocator : Type 0 where
  pub base : PhysPageNum
  pub frames : ℕ
  pub free_lists : ℕ → ℕ
  pub bitmap : ℕ → Bool
  pub order_bit_base : ℕ → ℕ
  pub allocated : ℕ
  pub peak : ℕ
  pub nodes : ℕ → FreeNode

abbrev pub empty : BuddyAllocator
empty = record {
  base = 0;
  frames = 0;
  free_lists = λ _. nil;
  bitmap = λ _. false;
  order_bit_base = λ _. 0;
  allocated = 0;
  peak = 0;
  nodes = λ _. record { next = 0; prev = 0 };
}

unfoldable pub bit_index : BuddyAllocator → ℕ → ℕ → ℕ
bit_index b order idx = b.order_bit_base order + idx / 2 ^ order

unfoldable pub is_free : BuddyAllocator → ℕ → ℕ → Bool
is_free b order idx = b.bitmap (bit_index b order idx)

unfoldable pub set_free : BuddyAllocator → ℕ → ℕ → Bool → BuddyAllocator
set_free b order idx free = record b { bitmap = update b.bitmap (bit_index b order idx) free }

abbrev pub set_next : (ℕ → FreeNode) → ℕ → ℕ → ℕ → FreeNode
set_next nodes i v = update nodes i (record (nodes i) { next = v })

abbrev pub set_prev : (ℕ → FreeNode) → ℕ → ℕ → ℕ → FreeNode
set_prev nodes i v = update nodes i (record (nodes i) { prev = v })

-- Link a block in front of its order's list and mark it free.
unfoldable pub push : BuddyAllocator → ℕ → ℕ → BuddyAllocator
push b order idx =
    let head = b.free_lists order in
    let linked = update b.nodes idx (record { next = head; prev = nil }) in
    let nodes = if head == nil then linked else set_prev linked head idx in
    set_free (record b { nodes = nodes; free_lists = update b.free_lists order idx }) order idx true

-- Unlink a block from its order's list and mark it used.
unfoldable pub remove : BuddyAllocator → ℕ → ℕ → BuddyAllocator
remove b order idx =
    let next = (b.nodes idx).next in
    let prev = (b.nodes idx).prev in
    let before = if prev == nil then b.nodes else set_next b.nodes prev next in
    let heads = if prev == nil then update b.free_lists order next else b.free_lists in
    let nodes = if next == nil then before else set_prev before next prev in
    set_free (record b { nodes = nodes; free_lists = heads }) order idx false

-- `while donor <= MAX_ORDER && free_lists[donor] == NIL { donor += 1 }`, in `rounds` rounds at most;
-- MAX_ORDER + 1 - donor are enough.
unfoldable pub find_donor : ℕ → BuddyAllocator → ℕ → ℕ
find_donor zero b donor = donor
find_donor (suc rounds) b donor =
    let rest = find_donor rounds b (donor + 1) in
    if leb donor max_order && b.free_lists donor == nil then rest else donor

-- `while level > order { level -= 1; push(level, idx + (1 << level)) }` from `level = order + count`.
unfoldable pub split : BuddyAllocator → ℕ → ℕ → ℕ → BuddyAllocator
split b order idx zero = b
split b order idx (suc count) =
    split (push b (order + count) (idx + 2 ^ (order + count))) order idx count

-- The counters of a served request.
unfoldable pub charge : BuddyAllocator → ℕ → BuddyAllocator
charge b order =
    let used = b.allocated + 2 ^ order in record b { allocated = used; peak = max b.peak used }

unfoldable pub alloc : BuddyAllocator → ℕ → Option PhysPageNum × BuddyAllocator
alloc b order =
    let donor = find_donor (max_order + 1 - order) b order in
    let idx = b.free_lists donor in
    if ltb max_order order || ltb max_order donor
    then (none, b)
    else (some (b.base + idx), charge (split (remove b donor idx) order idx (donor - order)) order)

-- Where the merge loop of `free` stands.
pub record Merge : Type 0 where
  pub state : BuddyAllocator
  pub level : ℕ
  pub idx : ℕ

-- The merge loop, `while level < MAX_ORDER`; `rounds` is MAX_ORDER - level.
unfoldable pub coalesce : ℕ → BuddyAllocator → ℕ → ℕ → Merge
coalesce zero b level idx = record { state = b; level = level; idx = idx }
coalesce (suc rounds) b level idx =
    let buddy = bit_xor idx (2 ^ level) in
    let rest = coalesce rounds (remove b level buddy) (level + 1) (min idx buddy) in
    if ltb b.frames (buddy + 2 ^ level) || not (is_free b level buddy)
    then record { state = b; level = level; idx = idx }
    else rest

-- `debug` says whether the build has debug assertions.
unfoldable pub free : Bool → BuddyAllocator → PhysPageNum → ℕ → Run BuddyAllocator
free debug b n order = do
  idx ← sub_word n b.base
  rest ← if leb (idx + 2 ^ order) b.frames then ok b else panic
  rest ← if idx % 2 ^ order == 0 then ok b else panic
  rest ← if debug && is_free b order idx then panic else ok b
  allocated ← sub_word b.allocated (2 ^ order)
  rest ← if leb order max_order then ok b else panic
  let m = coalesce (max_order - order) (record b { allocated = allocated }) order idx
  ok (push m.state m.level m.idx)

unfoldable pub used_frames : BuddyAllocator → ℕ
used_frames b = b.allocated

unfoldable pub free_frames : BuddyAllocator → Run ℕ
free_frames b = sub_word b.frames b.allocated

-- The bits of the orders below `k`: `order_bit_base[k]`.
unfoldable pub bits_below : ℕ → ℕ → ℕ
bits_below frames zero = 0
bits_below frames (suc k) = bits_below frames k + div_ceil frames (2 ^ k)

-- The order that `init` takes at `idx`: the largest up to `order` whose block starts aligned and
-- fits.
unfoldable pub fit_order : ℕ → ℕ → ℕ → ℕ
fit_order frames idx zero = 0
fit_order frames idx (suc order) =
    let rest = fit_order frames idx order in
    if not (idx % 2 ^ suc order == 0) || ltb frames (idx + 2 ^ suc order) then rest else suc order

-- `while idx < self.frames`, in `fuel` rounds at most; `frames` are enough.
unfoldable pub seed : ℕ → BuddyAllocator → ℕ → BuddyAllocator
seed zero b idx = b
seed (suc fuel) b idx =
    let order = fit_order b.frames idx max_order in
    let rest = seed fuel (push b order idx) (idx + 2 ^ order) in
    if ltb idx b.frames then rest else b

-- `aligned`: the first frame behind the bitmap that starts a block of the largest order.
unfoldable pub seed_start : ℕ → ℕ → ℕ
seed_start first total =
    let bitmap_bytes = next_multiple_of (div_ceil (bits_below total (max_order + 1)) 8) 8 in
    next_multiple_of (first + div_ceil bitmap_bytes page_size) (2 ^ max_order)

-- `BuddyAllocator::init`: the bitmap's frames come off the front, the rest is aligned and seeded.
unfoldable pub init : BuddyAllocator → PhysAddr → PhysAddr → Run BuddyAllocator
init b start end = do
  up ← align_up start
  let first = ppn up
  let last = ppn (align_down end)
  total ← if ltb first last then ok (last - first) else panic
  let aligned = seed_start first total
  frames ← sub_word total (aligned - first)
  let blank = record b {
    base = aligned;
    frames = frames;
    free_lists = λ _. nil;
    bitmap = λ _. false;
    order_bit_base = bits_below frames;
    allocated = 0;
    peak = 0;
  }
  ok (seed frames blank 0)

-- `usize::BITS - n.leading_zeros()`: the number of binary digits of `n`, on fuel.
unfoldable pub bit_length : ℕ → ℕ → ℕ
bit_length zero n = 0
bit_length (suc fuel) n = let rest = bit_length fuel (n / 2) in if n == 0 then 0 else suc rest

-- A word has 64 digits at most.
unfoldable pub order_for : ℕ → ℕ
order_for count = if leb count 1 then 0 else bit_length 64 (count - 1)
