-- ===== src/Mm/Frame/Links.antt =====
-- The doubly linked lists that the free blocks hold in themselves.
use alexos.Base.{ℕ, ◌+◌, ◌≤◌, ◌<◌, ◌≡◌, ◌≢◌, List, [], ◌∷◌, ◌++◌, arith, ap, ◌∙◌}
use alexos.Base.Count.{times, times-append, is_at}
use alexos.Mm.Frame.{FreeNode, nil}

abbrev pub head : List ℕ → ℕ
head [] = nil
head (x ∷ xs) = x

abbrev pub last : ℕ → List ℕ → ℕ
last p [] = p
last p (x ∷ xs) = last x xs

-- The nodes hold a list: each names the block behind it and the block before it, `p` for the first.
abbrev pub Links : (ℕ → FreeNode) → ℕ → List ℕ → Type 0
Links nodes p [] = Unit
Links nodes p (x ∷ xs) =
    (x ≢ nil) × ((nodes x).prev ≡ p) × ((nodes x).next ≡ head xs) × Links nodes x xs

-- Other nodes do not matter.
pub Links-agree :
    (old new : ℕ → FreeNode) (p : ℕ) (xs : List ℕ)
    → ((y : ℕ) → 0 < times y xs → new y ≡ old y)
    → Links old p xs
    → Links new p xs
unfolding times
Links-agree old new p [] same l = tt
Links-agree old new p (x ∷ xs) same l =
    let e : new x ≡ old x = same x (ground arith) in
    rw e (l.0, l.1, l.2, Links-agree old new x xs (λ y h. same y (omega arith)) l.3)

-- The list grows at its head, by a block that is not in it.
pub Links-cons :
    (old new : ℕ → FreeNode) (x : ℕ) (xs : List ℕ)
    → x ≢ nil
    → times x xs ≡ 0
    → ((y : ℕ) → times y xs ≤ 1)
    → (new x ≡ record { next = head xs; prev = nil })
    → (head xs ≢ nil → new (head xs) ≡ record (old (head xs)) { prev = x })
    → ((y : ℕ) → y ≢ x → y ≢ head xs → new y ≡ old y)
    → Links old nil xs
    → Links new nil (x ∷ xs)
unfolding times
Links-cons old new x [] ne fresh once e f g l = (ne, ap (λ n. n.prev) e, ap (λ n. n.next) e, tt)
Links-cons old new x (y ∷ ys) ne fresh once e f g l =
    let ey : new y ≡ record (old y) { prev = x } = f l.0 in
    (
      ne,
      ap (λ n. n.prev) e,
      ap (λ n. n.next) e,
      (
        l.0,
        ap (λ n. n.prev) ey,
        ap (λ n. n.next) ey ∙ l.2,
        Links-agree old new y ys (λ z h. g z (ground arith) (ground (arith, once y))) l.3,
      ),
    )

-- What the removal of a block between `q` and `n` does to the nodes.
pub record Bypassed (old new : ℕ → FreeNode) (q n : ℕ) : Type 0 where
  pub prev_kept : (y : ℕ) → y ≢ n → (new y).prev ≡ (old y).prev
  pub prev_new : n ≢ nil → (new n).prev ≡ q
  pub next_kept : (y : ℕ) → y ≢ q → (new y).next ≡ (old y).next
  pub next_new : q ≢ nil → (new q).next ≡ n

pub times-last : (x : ℕ) (xs : List ℕ) → 0 < times (last x xs) (x ∷ xs)
unfolding times
times-last x [] = ground arith
times-last x (y ∷ ys) = omega (arith, times-last y ys)

Links-bypass_first :
    (old new : ℕ → FreeNode) (p i : ℕ) (after : List ℕ)
    → Bypassed old new p (head after)
    → ((y : ℕ) → is_at p y + times y (i ∷ after) ≤ 1)
    → Links old p (i ∷ after)
    → Links new p after
unfolding times
Links-bypass_first old new p i [] d once l = tt
Links-bypass_first old new p i (y ∷ ys) d once l =
    let z = l.3 in
    (
      z.0,
      d.prev_new z.0,
      d.next_kept y (ground (arith, once y)) ∙ z.2,
      Links-unchanged y ys z.3 (λ w h. ground (arith, once w, once y))
          (λ w h. ground (arith, once w, once p)),
    )
  where
    Links-unchanged :
        (v : ℕ) (ws : List ℕ)
        → Links old v ws
        → ((w : ℕ) → 0 < times w ws → w ≢ y)
        → ((w : ℕ) → 0 < times w ws → w ≢ p)
        → Links new v ws
    Links-unchanged v [] k f g = tt
    Links-unchanged v (w ∷ ws) k f g = (
      k.0,
      d.prev_kept w (f w (ground arith)) ∙ k.1,
      d.next_kept w (g w (ground arith)) ∙ k.2,
      Links-unchanged w ws k.3 (λ u h. f u (omega arith)) (λ u h. g u (omega arith)),
    )

ne-head : (b : ℕ) (xs : List ℕ) → b ≢ nil → times b xs ≡ 0 → b ≢ head xs
unfolding times
ne-head b [] ne e = ne
ne-head b (x ∷ xs) ne e = ground arith

ne-last : (b x : ℕ) (xs : List ℕ) → times b (x ∷ xs) ≡ 0 → b ≢ last x xs
ne-last b x xs e q = let found = rw (← q) at (times-last x xs) in omega arith

-- A block taken out of the middle: its neighbours name each other, the others do not change.
pub Links-bypass :
    (old new : ℕ → FreeNode) (p : ℕ) (before : List ℕ) (i : ℕ) (after : List ℕ)
    → Bypassed old new (last p before) (head after)
    → ((y : ℕ) → is_at p y + times y (before ++ i ∷ after) ≤ 1)
    → Links old p (before ++ i ∷ after)
    → Links new p (before ++ after)
unfolding times
Links-bypass old new p [] i after d once l = Links-bypass_first old new p i after d once l
Links-bypass old new p (b ∷ []) i after d once l =
    let alone : times b (i ∷ after) ≡ 0 = ground (arith, once b) in
    (
      l.0,
      d.prev_kept b (ne-head b after l.0 (omega arith)) ∙ l.1,
      d.next_new l.0,
      Links-bypass old new b [] i after d (λ y. omega (arith, once y)) l.3,
    )
Links-bypass old new p (b ∷ c ∷ cs) i after d once l =
    let alone : times b (c ∷ cs ++ i ∷ after) ≡ 0 = ground (arith, once b) in
    let split = times-append b (c ∷ cs) (i ∷ after) in
    (
      l.0,
      d.prev_kept b (ne-head b after l.0 (omega arith)) ∙ l.1,
      d.next_kept b (ne-last b c cs (omega arith)) ∙ l.2,
      Links-bypass old new b (c ∷ cs) i after d (λ y. omega (arith, once y)) l.3,
    )

-- The neighbours that a block in the middle names.
pub Links-at :
    (nodes : ℕ → FreeNode) (p : ℕ) (before : List ℕ) (i : ℕ) (after : List ℕ)
    → Links nodes p (before ++ i ∷ after)
    → (i ≢ nil) × ((nodes i).prev ≡ last p before) × ((nodes i).next ≡ head after)
Links-at nodes p [] i after l = (l.0, l.1, l.2)
Links-at nodes p (b ∷ bs) i after l = Links-at nodes b bs i after l.3

pub last-ne-nil :
    (nodes : ℕ → FreeNode) (p x : ℕ) (xs rest : List ℕ)
    → Links nodes p (x ∷ xs ++ rest)
    → last x xs ≢ nil
last-ne-nil nodes p x [] rest l = l.0
last-ne-nil nodes p x (y ∷ ys) rest l = last-ne-nil nodes x y ys rest l.3
