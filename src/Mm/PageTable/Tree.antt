-- ===== src/Mm/PageTable/Tree.antt =====
-- kernel/src/mm/page_table.rs: the tables that one page table owns form a tree. A label gives each
-- owned frame the indices that lead to it from the root, the last one first; the root's upper half
-- is shared with the kernel and is not part of the tree.
use alexos.Base.{
  Bool-cases, ℕ, ◌+◌, ◌<◌, ◌≡◌, ◌≢◌, refl, ap, sym, ◌∙◌, true, false, Option, none, some, List, [],
  ◌∷◌, length, arith, inl, inr,
}
use alexos.Mm.Addr.{PhysPageNum}
use alexos.Mm.PageTable.{
  Tables, Slot, read_slot, write_slot, is_valid, is_leaf, pte_ppn, walk_from, keep_if,
}

abbrev pub Labels : Type 0
Labels = PhysPageNum → Option (List ℕ)

-- The indices that are the tree's own: at the root, those of the user's half.
abbrev pub InHalf : List ℕ → ℕ → Type 0
InHalf [] i = i < 256
InHalf (_ ∷ _) i = Unit {0}

-- The first index of a path, which starts below the label `p`, is one of the tree's.
abbrev pub Starts : List ℕ → List ℕ → Type 0
Starts p [] = Unit {0}
Starts p (i ∷ _) = InHalf p i

-- The label at the end of a path that starts below the label `p`.
abbrev pub onto : List ℕ → List ℕ → List ℕ
onto p [] = p
onto p (i ∷ is) = onto (i ∷ p) is

-- Above the leaf level every valid entry names a table that carries its path.
pub record IsTree (own : Labels) (root : PhysPageNum) (t : Tables) : Type 0 where
  pub top : own root ≡ some []
  pub child :
      (n : PhysPageNum) (p : List ℕ) (i : ℕ)
      → own n ≡ some p
      → length p < 2
      → InHalf p i
      → is_valid (t n i) ≡ true
      → (is_leaf (t n i) ≡ false) × (own (pte_ppn (t n i)) ≡ some (i ∷ p))

-- Where a walk ends.
pub record IsSlot (own : Labels) (path : List ℕ) (s : Slot) : Type 0 where
  pub last : List ℕ
  pub owned : own s.frame ≡ some last
  pub deep : length last ≡ 2
  pub there : s.index ∷ last ≡ path

-- A walk goes down where the entry names a table, and ends without a slot where it is not valid.
pub walk_from-next :
    (t : Tables) (n i j : ℕ) (is : List ℕ)
    → is_valid (t n i) ≡ true
    → is_leaf (t n i) ≡ false
    → walk_from t n (i ∷ j ∷ is) ≡ walk_from t (pte_ppn (t n i)) (j ∷ is)
unfolding walk_from
walk_from-next t n i j is h l = rw (l, h) refl

pub walk_from-invalid :
    (t : Tables) (n i j : ℕ) (is : List ℕ)
    → is_valid (t n i) ≡ false
    → walk_from t n (i ∷ j ∷ is) ≡ none
unfolding walk_from
walk_from-invalid t n i j is h = rw h refl

pub some_injective {ℓ} : {A : Type ℓ} {x y : A} → some x ≡ some y → x ≡ y
some_injective h = cc

-- Frames with labels of different lengths differ.
pub frames-ne :
    (own : Labels) {n m : PhysPageNum} {p q : List ℕ}
    → own n ≡ some p
    → own m ≡ some q
    → length p < length q
    → n ≢ m
frames-ne own {p} {q} o o' l e =
    let same : some p ≡ some q = cc in absurd (omega (arith, ap length (some_injective same)))

-- What a walk reads at its end.
unfoldable pub read_walk : Tables → Option Slot → Option ℕ
read_walk t o = keep_if is_valid (elim o [ none ↦ none | some s ↦ some (read_slot t s) ])

module _ {own : Labels} {root : PhysPageNum} {t : Tables} (tree : IsTree own root t) where
  pub walk_from-IsSlot :
      (n : PhysPageNum) (p is : List ℕ) (s : Slot)
      → own n ≡ some p
      → length p + length is ≡ 3
      → Starts p is
      → walk_from t n is ≡ some s
      → IsSlot own (onto p is) s
  walk_from-IsSlot n p [] s o l b e = absurd (let e' : none ≡ some s = unfold walk_from in e in cc)
  walk_from-IsSlot n p (i ∷ []) s o l b e =
      let e' : record { frame = n; index = i } ≡ s = some_injective (unfold walk_from in e) in
      rw (← e') (record { last = p; owned = o; deep = omega arith; there = refl })
  walk_from-IsSlot n p (i ∷ j ∷ is) s o l b e = elim (Bool-cases (is_valid (t n i))) [
    | inl h ↦
        let c = tree.child n p i o (omega arith) b h in
        walk_from-IsSlot (pte_ppn (t n i)) (i ∷ p) (j ∷ is) s c.1 (omega arith) tt
          (sym (walk_from-next t n i j is h c.0) ∙ e)
    | inr h ↦ absurd (let e' : none ≡ some s = sym (walk_from-invalid t n i j is h) ∙ e in cc)
  ]

  -- A write at the leaf level leaves every walk as it was.
  pub walk_from-write :
      (m k e : ℕ) (q : List ℕ)
      → own m ≡ some q
      → length q ≡ 2
      → (n : PhysPageNum) (p is : List ℕ) → own n ≡ some p
      → length p + length is ≡ 3
      → Starts p is
      → walk_from (write_slot t (record { frame = m; index = k }) e) n is ≡ walk_from t n is
  walk_from-write m k e q om lq n p [] o l b = unfold walk_from in refl
  walk_from-write m k e q om lq n p (i ∷ []) o l b = unfold walk_from in refl
  walk_from-write m k e q om lq n p (i ∷ j ∷ is) o l b =
      let t' = write_slot t (record { frame = m; index = k }) e in
      let apart : n ≢ m = frames-ne own o om (omega arith) in
      let same : t' n i ≡ t n i = ground arith in
      elim (Bool-cases (is_valid (t n i))) [
        | inl h ↦
            let c = tree.child n p i o (omega arith) b h in
            walk_from-next t' n i j is (rw same h) (rw same c.0)
            ∙ ap (λ x. walk_from t' (pte_ppn x) (j ∷ is)) same
            ∙ walk_from-write m k e q om lq (pte_ppn (t n i)) (i ∷ p) (j ∷ is) c.1 (omega arith) tt
            ∙ sym (walk_from-next t n i j is h c.0)
        | inr h ↦ walk_from-invalid t' n i j is (rw same h) ∙ sym (walk_from-invalid t n i j is h)
      ]

  pub write-IsTree :
      (m k e : ℕ) (q : List ℕ)
      → own m ≡ some q
      → length q ≡ 2
      → IsTree own root (write_slot t (record { frame = m; index = k }) e)
  write-IsTree m k e q om lq = record {
    top = tree.top;
    child = λ n p i o l b h.
        let apart : n ≢ m = frames-ne own o om (omega arith) in
        let same : write_slot t (record { frame = m; index = k }) e n i ≡ t n i = ground arith in
        rw same (tree.child n p i o l b (rw (← same) h));
  }
