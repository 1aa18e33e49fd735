-- ===== src/Mm/Addr/Bounds.antt =====
-- kernel/src/mm/addr.rs: rounding to pages, the count of pages in a range, and the direct map.
use alexos.Base.{ℕ, ◌+◌, ◌-◌, ◌*◌, ◌/◌, ◌%◌, ◌^◌, ◌≤◌, ◌<◌, ◌≡◌, ◌⊎◌, inl, inr, arith, dec_lt}
use alexos.Base.Words.{ok, panic, word_mod}
use alexos.Mm.Addr.{
  page_size, virt_offset, page_offset, align_down, align_up, base_addr, as_ptr, range_len, to_virt,
  to_phys,
}

-- Rounding down gives the multiple of the page size at or below the address; the offset is the rest.
pub align_down-page_offset :
    (a : ℕ) → (align_down a + page_offset a ≡ a) × (page_offset a < page_size)
unfolding align_down page_offset
align_down-page_offset a = omega arith

-- Rounding up gives the least page boundary at or above the address. It panics exactly when the
-- address lies in the last page of the word.
pub align_up_lem :
    (a : ℕ)
    → ((e : ℕ) × (align_up a ≡ ok e)
        × (a ≤ e)
        × (e < a + page_size)
        × (e % page_size ≡ 0)
        × (a + page_size < word_mod))
      ⊎ ((align_up a ≡ panic) × (word_mod ≤ a + page_size))
unfolding align_up
align_up_lem a = elim (dec_lt (a + page_size) word_mod) [
  | yes h ↦ inl (
    (a + page_size - 1) / page_size * page_size,
    ground arith,
    omega arith,
    omega arith,
    omega arith,
    h,
  )
  | no h ↦ inr (ground arith, omega arith)
]

-- A range that does not reach the last page of the word spans as many pages as lie between its
-- start rounded down and its end rounded up.
pub range_len_lem :
    (start end : ℕ)
    → start ≤ end
    → end + page_size < word_mod
    → (n : ℕ) × (range_len start end ≡ ok n)
      × (align_down start + n * page_size ≡ (end + page_size - 1) / page_size * page_size)
      × (end ≤ align_down start + n * page_size)
      × (align_down start + n * page_size < end + page_size)
unfolding range_len align_down align_up
range_len_lem start end h fits = (
  (end + page_size - 1) / page_size * page_size / page_size
      - start / page_size * page_size / page_size,
  ground arith,
  omega arith,
  omega arith,
  omega arith,
)

-- A physical address for which the direct map has an image is read back from it, and the image
-- lies in the kernel's half and does not wrap.
pub to_phys-to_virt :
    (a v : ℕ) → to_virt a ≡ ok v → (to_phys v ≡ ok a) × (virt_offset ≤ v) × (v < word_mod)
unfolding to_virt to_phys
to_phys-to_virt a v e = ground arith

-- Below 2^38 the pointer to a frame is the image of its base address in the direct map.
pub as_ptr-to_virt : (n : ℕ) → base_addr n < 2 ^ 38 → to_virt (base_addr n) ≡ ok (as_ptr n)
unfolding to_virt as_ptr
as_ptr-to_virt n h = ground arith
