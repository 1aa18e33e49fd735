-- ===== src/Mm/Heap/Chains.antt =====
-- kernel/src/mm/heap.rs: the free list of a class, threaded through the free blocks, and what `carve`
-- puts in front of it.
use alexos.Base.{
  ℕ, zero, suc, ◌+◌, ◌*◌, ◌≤◌, ◌<◌, ◌≡◌, ◌≢◌, ◌⊎◌, inl, inr, refl, ◌∙◌, List, [], ◌∷◌, update, ◌==◌,
  update_ne, Bool-cases, arith,
}
use alexos.Base.Count.{is_at, times}
use alexos.Mm.Heap.{Chain, carve, null}

-- From `head` the links lead through the blocks of the list, in its order, to null.
abbrev pub IsChain : (ℕ → ℕ) → ℕ → List ℕ → Type 0
IsChain w head [] = head ≡ null
IsChain w head (p ∷ ps) = (head ≡ p) × (p ≢ null) × IsChain w (w p) ps

-- A chain stands on the words of its blocks alone.
pub IsChain-agree :
    (w w' : ℕ → ℕ) (head : ℕ) (ps : List ℕ)
    → ((p : ℕ) → 0 < times p ps → w' p ≡ w p)
    → IsChain w head ps
    → IsChain w' head ps
unfolding times
IsChain-agree w w' head [] same c = c
IsChain-agree w w' head (p ∷ ps) same (at, ne, rest) =
    let link : w' p ≡ w p = same p (ground arith) in
    (at, ne, rw link (IsChain-agree w w' (w p) ps (λ q l. same q (ground arith)) rest))

-- The blocks that `carve` threads, in front of `ps`.
pub blocks : ℕ → ℕ → ℕ → List ℕ → List ℕ
blocks base size zero ps = ps
blocks base size (suc i) ps = blocks base size i ((base + i * size) ∷ ps)

-- No block of the list lies from `low` up to `high`.
abbrev pub Outside : ℕ → ℕ → List ℕ → Type 0
Outside low high ps = (p : ℕ) → 0 < times p ps → (p < low) ⊎ (high ≤ p)

Outside-cons :
    (base size i : ℕ) (ps : List ℕ)
    → Outside base (base + suc i * size) ps
    → Outside base (base + i * size) ((base + i * size) ∷ ps)
unfolding times
Outside-cons base size i ps apart p l = elim (Bool-cases (base + i * size == p)) [
  | inl e ↦ inr (ground arith)
  | inr e ↦
      let more : 0 < times p ps = ground arith in
      elim (apart p more) [ inl below ↦ inl below | inr above ↦ inr (omega arith) ]
]

pub carve-IsChain :
    (base size k : ℕ) (c : Chain) (ps : List ℕ)
    → 0 < base
    → 0 < size
    → Outside base (base + k * size) ps
    → IsChain c.words c.head ps
    → IsChain (carve base size k c).words (carve base size k c).head (blocks base size k ps)
unfolding carve blocks
carve-IsChain base size zero c ps pos some_size apart chain = chain
carve-IsChain base size (suc i) c ps pos some_size apart chain =
    let block = base + i * size in
    let c' : Chain = record { words = update c.words block c.head; head = block } in
    let ne : block ≢ null = ground arith in
    let self : c'.words block ≡ c.head = ground arith in
    let agrees = λ (q : ℕ) (l : 0 < times q ps).
      let out = apart q l in
      let other : q ≢ block = elim out [ inl b ↦ ground arith | inr a ↦ ground arith ] in
      update_ne c.words block q c.head other in
    carve-IsChain base size i c' (block ∷ ps) pos some_size (Outside-cons base size i ps apart)
      (refl, ne, rw self (IsChain-agree c.words c'.words c.head ps agrees chain))

-- A word that `carve` does not write keeps what it holds.
pub carve-words :
    (base size k : ℕ) (c : Chain) (a : ℕ)
    → 0 < size
    → (a < base) ⊎ (base + k * size ≤ a)
    → (carve base size k c).words a ≡ c.words a
unfolding carve
carve-words base size zero c a some_size out = refl
carve-words base size (suc i) c a some_size out =
    let block = base + i * size in
    let c' : Chain = record { words = update c.words block c.head; head = block } in
    let out' : (a < base) ⊎ (base + i * size ≤ a) = elim out [
      | inl b ↦ inl b
      | inr h ↦ inr (omega arith)
    ] in
    let ne : a ≢ block = elim out [ inl b ↦ ground arith | inr h ↦ ground arith ] in
    carve-words base size i c' a some_size out' ∙ update_ne c.words block a c.head ne

-- The first of the blocks is the lowest.
blocks-cons :
    (base size k p : ℕ) (ps : List ℕ)
    → (q : ℕ) × (qs : List ℕ) × (blocks base size k (p ∷ ps) ≡ q ∷ qs)
unfolding blocks
blocks-cons base size zero p ps = (p, ps, refl)
blocks-cons base size (suc i) p ps = blocks-cons base size i (base + i * size) (p ∷ ps)

-- How often `carve` adds a block: once at a multiple of the size from `base` on, else not at all.
abbrev pub Added : ℕ → ℕ → ℕ → ℕ → ℕ → Type 0
Added base size k p n =
    (n ≡ 0) ⊎ ((n ≡ 1) × (j : ℕ) × (p ≡ base + j * size) × (p < base + k * size))

pub times-blocks :
    (base size k p : ℕ) (ps : List ℕ)
    → 0 < size
    → (n : ℕ) × (times p (blocks base size k ps) ≡ n + times p ps) × Added base size k p n
unfolding blocks times
times-blocks base size zero p ps some_size = (0, omega arith, inl refl)
times-blocks base size (suc i) p ps some_size =
    let block = base + i * size in
    let (n, e, added) = times-blocks base size i p (block ∷ ps) some_size in
    elim (Bool-cases (block == p)) [
      | inl at ↦
          let here : p ≡ block = ground arith in
          let once : is_at block p ≡ 1 = ground arith in
          elim added [
            | inl z ↦ (1, omega (arith, e, z, once), inr (refl, i, here, omega arith))
            | inr (o, j, q, low) ↦ absurd (omega arith)
          ]
      | inr other ↦
          let not_at : is_at block p ≡ 0 = ground arith in
          (
            n,
            omega (arith, e, not_at),
            elim added [ inl z ↦ inl z | inr (o, j, q, low) ↦ inr (o, j, q, omega arith) ],
          )
    ]

pub blocks_some :
    (base size k m : ℕ) (ps : List ℕ)
    → m ≡ suc k
    → (q : ℕ) × (qs : List ℕ) × (blocks base size m ps ≡ q ∷ qs)
unfolding blocks
blocks_some base size k m ps e = rw e (blocks-cons base size k (base + k * size) ps)
