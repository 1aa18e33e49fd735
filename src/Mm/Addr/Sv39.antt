-- ===== src/Mm/Addr/Sv39.antt =====
-- kernel/src/mm/addr.rs: canonical addresses, and the three table indices of a page.
use alexos.Base.{ℕ, ◌+◌, ◌*◌, ◌^◌, ◌≤◌, ◌<◌, ◌≡◌, ◌⊎◌, ◌↔◌, true, ap, arith}
use alexos.Base.Words.{word_mod}
use alexos.Mm.Addr.{virt_offset, user_max_addr, is_canonical, Indices, indices}

-- A word is canonical exactly when it lies in the lower half, below 2^38, or in the upper half,
-- at `VIRT_OFFSET` or above.
pub is_canonical_iff :
    (a : ℕ) → a < word_mod → (is_canonical a ≡ true) ↔ ((a < user_max_addr) ⊎ (virt_offset ≤ a))
unfolding is_canonical
is_canonical_iff a h = ground arith

-- A page number of 27 bits is made up of its three indices, each within a table of 512 entries.
pub indices_fields :
    (n : ℕ)
    → n < 2 ^ 27
    → ((indices n).root * 2 ^ 18 + (indices n).middle * 2 ^ 9 + (indices n).leaf ≡ n)
      × ((indices n).root < 512)
      × ((indices n).middle < 512)
      × ((indices n).leaf < 512)
unfolding indices
indices_fields n h = omega arith

-- Two pages of 27 bits with the same indices are the same page.
pub indices_injective : (m n : ℕ) → m < 2 ^ 27 → n < 2 ^ 27 → indices m ≡ indices n → m ≡ n
indices_injective m n hm hn e = omega (
  arith,
  indices_fields m hm,
  indices_fields n hn,
  ap (λ (i : Indices). i.root) e,
  ap (λ (i : Indices). i.middle) e,
  ap (λ (i : Indices). i.leaf) e,
)
