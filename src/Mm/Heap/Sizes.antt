-- ===== src/Mm/Heap/Sizes.antt =====
-- kernel/src/mm/heap.rs: blocks of the nine class sizes in a page.
use alexos.Base.{
  ℕ, zero, suc, ◌+◌, ◌*◌, ◌/◌, ◌%◌, ◌≤◌, ◌<◌, ◌≡◌, ◌≢◌, ◌⊎◌, refl, List, length, update, arith,
}
use alexos.Mm.Addr.{page_size}
use alexos.Mm.Heap.{class_size}

-- What holds of each of the nine classes.
by_class :
    (P : ℕ → Type 0) → P 0 → P 1 → P 2 → P 3 → P 4 → P 5 → P 6 → P 7 → P 8 → (c : ℕ) → c < 9 → P c
by_class P p₀ p₁ p₂ p₃ p₄ p₅ p₆ p₇ p₈ zero l = p₀
by_class P p₀ p₁ p₂ p₃ p₄ p₅ p₆ p₇ p₈ (suc zero) l = p₁
by_class P p₀ p₁ p₂ p₃ p₄ p₅ p₆ p₇ p₈ (suc (suc zero)) l = p₂
by_class P p₀ p₁ p₂ p₃ p₄ p₅ p₆ p₇ p₈ (suc (suc (suc zero))) l = p₃
by_class P p₀ p₁ p₂ p₃ p₄ p₅ p₆ p₇ p₈ (suc (suc (suc (suc zero)))) l = p₄
by_class P p₀ p₁ p₂ p₃ p₄ p₅ p₆ p₇ p₈ (suc (suc (suc (suc (suc zero))))) l = p₅
by_class P p₀ p₁ p₂ p₃ p₄ p₅ p₆ p₇ p₈ (suc (suc (suc (suc (suc (suc zero)))))) l = p₆
by_class P p₀ p₁ p₂ p₃ p₄ p₅ p₆ p₇ p₈ (suc (suc (suc (suc (suc (suc (suc zero))))))) l = p₇
by_class P p₀ p₁ p₂ p₃ p₄ p₅ p₆ p₇ p₈ (suc (suc (suc (suc (suc (suc (suc (suc zero)))))))) l = p₈
by_class P p₀ p₁ p₂ p₃ p₄ p₅ p₆ p₇ p₈ (suc (suc (suc (suc (suc (suc (suc (suc (suc c))))))))) l =
    absurd (omega arith)

-- A block of a class ends in the page that it starts in.
pub block_inside :
    (c : ℕ) → c < 9 → (p : ℕ) → p % class_size c ≡ 0 → p % page_size + class_size c ≤ page_size
block_inside =
    by_class (λ c. (p : ℕ) → p % class_size c ≡ 0 → p % page_size + class_size c ≤ page_size)
      (λ p a. omega arith) (λ p a. omega arith) (λ p a. omega arith) (λ p a. omega arith)
      (λ p a. omega arith) (λ p a. omega arith) (λ p a. omega arith) (λ p a. omega arith)
      (λ p a. omega arith)

-- Two blocks of a class do not overlap.
pub blocks_apart :
    (c : ℕ)
    → c < 9
    → (p q : ℕ) → p % class_size c ≡ 0
    → q % class_size c ≡ 0
    → p ≢ q
    → (p + class_size c ≤ q) ⊎ (q + class_size c ≤ p)
blocks_apart =
    by_class
      (λ c.
        (p q : ℕ)
        → p % class_size c ≡ 0
        → q % class_size c ≡ 0
        → p ≢ q
        → (p + class_size c ≤ q) ⊎ (q + class_size c ≤ p))
      (λ p q a b ne. ground arith) (λ p q a b ne. ground arith) (λ p q a b ne. ground arith)
      (λ p q a b ne. ground arith) (λ p q a b ne. ground arith) (λ p q a b ne. ground arith)
      (λ p q a b ne. ground arith) (λ p q a b ne. ground arith) (λ p q a b ne. ground arith)

-- The places that `carve` counts off in a page are multiples of the size.
pub carved-aligned :
    (c : ℕ)
    → c < 9
    → (base j : ℕ) → base % page_size ≡ 0
    → (base + j * class_size c) % class_size c ≡ 0
carved-aligned =
    by_class
      (λ c. (base j : ℕ) → base % page_size ≡ 0 → (base + j * class_size c) % class_size c ≡ 0)
      (λ base j a. omega arith) (λ base j a. omega arith) (λ base j a. omega arith)
      (λ base j a. omega arith) (λ base j a. omega arith) (λ base j a. omega arith)
      (λ base j a. omega arith) (λ base j a. omega arith) (λ base j a. omega arith)

-- A page holds a whole number of blocks, one at least.
pub page-blocks :
    (c : ℕ)
    → c < 9
    → (k : ℕ) × (page_size / class_size c ≡ suc k)
      × ((page_size / class_size c) * class_size c ≡ page_size)
      × (0 < class_size c)
page-blocks =
    by_class
      (λ c.
        (k : ℕ) × (page_size / class_size c ≡ suc k)
        × ((page_size / class_size c) * class_size c ≡ page_size)
        × (0 < class_size c))
      (511, refl, refl, omega arith) (255, refl, refl, omega arith) (127, refl, refl, omega arith)
      (63, refl, refl, omega arith) (31, refl, refl, omega arith) (15, refl, refl, omega arith)
      (7, refl, refl, omega arith) (3, refl, refl, omega arith) (1, refl, refl, omega arith)

-- The bytes of the blocks on the lists of the nine classes.
unfoldable pub total : (ℕ → List ℕ) → ℕ
total live =
    8 * length (live 0)
    + 16 * length (live 1)
    + 32 * length (live 2)
    + 64 * length (live 3)
    + 128 * length (live 4)
    + 256 * length (live 5)
    + 512 * length (live 6)
    + 1024 * length (live 7)
    + 2048 * length (live 8)

pub total-update :
    (c : ℕ)
    → c < 9
    → (live : ℕ → List ℕ) (xs : List ℕ)
    → total (update live c xs) + class_size c * length (live c)
      ≡ total live + class_size c * length xs
unfolding total
total-update =
    by_class
      (λ c.
        (live : ℕ → List ℕ) (xs : List ℕ)
        → total (update live c xs) + class_size c * length (live c)
          ≡ total live + class_size c * length xs)
      (λ live xs. omega arith) (λ live xs. omega arith) (λ live xs. omega arith)
      (λ live xs. omega arith) (λ live xs. omega arith) (λ live xs. omega arith)
      (λ live xs. omega arith) (λ live xs. omega arith) (λ live xs. omega arith)
