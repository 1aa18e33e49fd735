-- ===== src/Mm/PageTable/Entry.antt =====
-- kernel/src/mm/page_table.rs: what `Pte::new` and `set_flags` write, read back.
use alexos.Base.{ℕ, ◌+◌, ◌*◌, ◌/◌, ◌%◌, ◌^◌, ◌<◌, ◌≡◌, bit_or, true, false, ◌==◌, refl, arith}
use alexos.Base.Words.{word_mod}
use alexos.Base.Digits.{bit_or-add, bit_or-lt, bit_or-low, bit_and-one}
use alexos.Mm.PageTable.{
  new_pte, pte_ppn, flags, set_flags, is_valid, is_leaf, leaf_flags, valid, contains, intersects,
}

new_pte-add : (n f : ℕ) → n < 2 ^ 44 → f < 1024 → new_pte n f ≡ n * 1024 + f
unfolding new_pte
new_pte-add n f small h =
    let fits : n * 1024 % word_mod ≡ n * 1024 = omega arith in rw fits (bit_or-add 10 n f h)

-- An entry made of a frame number of 44 bits and ten flags gives both back, and new flags replace
-- the old ones and keep the frame.
pub new_pte_lem :
    (n f g : ℕ)
    → n < 2 ^ 44
    → f < 1024
    → g < 1024
    → (pte_ppn (new_pte n f) ≡ n)
      × (flags (new_pte n f) ≡ f)
      × (pte_ppn (set_flags (new_pte n f) g) ≡ n)
      × (flags (set_flags (new_pte n f) g) ≡ g)
unfolding pte_ppn flags set_flags
new_pte_lem n f g small h l =
    let e = new_pte-add n f small h in
    let kept : new_pte n f / 1024 ≡ n = omega arith in
    let w = bit_or-add 10 n g l in
    rw kept (omega (arith, e), omega (arith, e), omega (arith, w), omega (arith, w))

-- An entry is valid when its lowest digit is set.
pub is_valid_iff : (e : ℕ) → is_valid e ≡ (e % 2 == 1)
unfolding is_valid contains flags
is_valid_iff e = rw (bit_and-one (e % 1024)) (ground arith)

pub is_valid-zero : is_valid 0 ≡ false
is_valid-zero = is_valid_iff 0

leaf_flags-low : (f : ℕ) → leaf_flags f % 2 ≡ 1
unfolding leaf_flags
leaf_flags-low f =
    omega
      (arith, bit_or-low f 1, bit_or-low (bit_or f 1) 64, bit_or-low (bit_or (bit_or f 1) 64) 128)

pub leaf_flags-lt : (f : ℕ) → f < 1024 → leaf_flags f < 1024
unfolding leaf_flags
leaf_flags-lt f h =
    bit_or-lt 10 _ 128 (bit_or-lt 10 _ 64 (bit_or-lt 10 f 1 h (omega arith)) (omega arith))
      (omega arith)

-- The entry of a leaf is valid.
pub leaf-is_valid : (n f : ℕ) → n < 2 ^ 44 → f < 1024 → is_valid (new_pte n (leaf_flags f)) ≡ true
leaf-is_valid n f h l =
    let e = new_pte-add n (leaf_flags f) h (leaf_flags-lt f l) in
    let low : new_pte n (leaf_flags f) % 2 ≡ 1 = omega (arith, leaf_flags-low f) in
    rw (is_valid_iff (new_pte n (leaf_flags f)), low) refl

pub set_flags-is_valid : (e f : ℕ) → f < 1024 → is_valid (set_flags e (leaf_flags f)) ≡ true
unfolding set_flags
set_flags-is_valid e f l =
    let w = bit_or-add 10 (e / 1024) (leaf_flags f) (leaf_flags-lt f l) in
    let low : set_flags e (leaf_flags f) % 2 ≡ 1 = omega (arith, leaf_flags-low f) in
    rw (is_valid_iff (set_flags e (leaf_flags f)), low) refl

-- The entry that names a fresh table is valid, no leaf, and names it.
pub table_pte_lem :
    (n : ℕ)
    → n < 2 ^ 44
    → (is_valid (new_pte n valid) ≡ true)
      × (is_leaf (new_pte n valid) ≡ false)
      × (pte_ppn (new_pte n valid) ≡ n)
unfolding is_leaf is_valid contains intersects flags pte_ppn
table_pte_lem n h =
    let e = new_pte-add n 1 h (omega arith) in
    let low : new_pte n 1 % 1024 ≡ 1 = omega arith in rw low (refl, refl, omega arith)
