-- ===== src/Mm/PageTable/Grow.antt =====
-- kernel/src/mm/page_table.rs: `ensure_table` adds one table to the tree.
use alexos.Base.{
  update, update_eq, update_ne, Bool-cases, ==_iff, ℕ, ◌+◌, ◌<◌, ◌≡◌, ◌≢◌, refl, ap, sym, ◌∙◌, true,
  false, Option, none, some, List, [], ◌∷◌, ◌++◌, ◌==◌, ◌&&◌, length, arith, inl, inr,
}
use alexos.Mm.Addr.{PhysPageNum}
use alexos.Mm.PageTable.{
  Tables, Space, write_slot, zero_frame, is_valid, is_leaf, pte_ppn, new_pte, valid, walk_from,
  ensure_table, keep_if,
}
use alexos.Mm.PageTable.Entry.{is_valid-zero, table_pte_lem}
use alexos.Mm.PageTable.Tree.{Labels, InHalf, Starts, IsTree, frames-ne, some_injective}
use alexos.Mm.PageTable.Supply.{
  IsSource, IsSound, Grows, look, look-last, look-next, look-invalid, look-empty,
}

-- The space after a fresh table `f` was put at entry `i` of frame `n`.
abbrev added : {S : Type 0} → Space S → PhysPageNum → ℕ → PhysPageNum → S → Space S
added s n i f rest = record s {
  supply = rest;
  tables = write_slot (zero_frame s.tables f) (record { frame = n; index = i }) (new_pte f valid);
  table = record (s.table) { frames = s.table.frames ++ f ∷ [] };
}

module _ {S : Type 0} (take : S → Option (PhysPageNum × S)) (s : Space S) (n i : ℕ) where
  pub ensure_table-valid : is_valid (s.tables n i) ≡ true → ensure_table take s n i ≡ some s
  unfolding ensure_table
  ensure_table-valid h = rw h refl

  pub ensure_table-none :
      is_valid (s.tables n i) ≡ false → take s.supply ≡ none → ensure_table take s n i ≡ none
  unfolding ensure_table
  ensure_table-none h e = rw (h, e) refl

  pub ensure_table-some :
      (f : PhysPageNum) (rest : S)
      → is_valid (s.tables n i) ≡ false
      → take s.supply ≡ some (f, rest)
      → ensure_table take s n i ≡ some (added s n i f rest)
  unfolding ensure_table
  ensure_table-some f rest h e = rw (h, e) refl

module _ {S : Type 0} {take : S → Option (PhysPageNum × S)} {live : S → PhysPageNum → Type 0}
    (source : IsSource take live) {own : Labels} (s : Space S) (sound : IsSound live own s)
    (n i : ℕ) (p : List ℕ) (on : own n ≡ some p) (shallow : length p < 2) (half : InHalf p i)
    (empty : is_valid (s.tables n i) ≡ false) (f : PhysPageNum) (rest : S)
    (taken : take s.supply ≡ some (f, rest)) where
  abbrev grown : Labels
  grown = update own f (some (i ∷ p))

  after : Tables
  after = (added s n i f rest).tables

  fresh-ne : (m : PhysPageNum) → live s.supply m → m ≢ f
  fresh-ne m l e = source.fresh s.supply f rest taken (subst_live m e l)
    where
      subst_live : (m' : PhysPageNum) → m' ≡ f → live s.supply m' → live s.supply f
      subst_live m' e' l' = rw (← e') l'

  owned-ne : (m : PhysPageNum) (q : List ℕ) → own m ≡ some q → m ≢ f
  owned-ne m q o = fresh-ne m (sound.alive m q o)

  after-new : after n i ≡ new_pte f valid
  unfolding after
  after-new = ground arith

  after-fresh : (j : ℕ) → after f j ≡ 0
  unfolding after
  after-fresh j = let apart = owned-ne n p on in ground arith

  after-other : (m j : ℕ) → m ≢ f → (m == n && j == i) ≡ false → after m j ≡ s.tables m j
  unfolding after
  after-other m j ne e = ground arith

  after-frame : (m j : ℕ) → m ≢ f → m ≢ n → after m j ≡ s.tables m j
  unfolding after
  after-frame m j ne ne' = ground arith

  new_facts :
      (is_valid (new_pte f valid) ≡ true)
      × (is_leaf (new_pte f valid) ≡ false)
      × (pte_ppn (new_pte f valid) ≡ f)
  new_facts = table_pte_lem f (source.small s.supply f rest taken)

  grown-own : (m : PhysPageNum) (q : List ℕ) → own m ≡ some q → grown m ≡ some q
  grown-own m q o = update_ne own f m (some (i ∷ p)) (owned-ne m q o) ∙ o

  child_new :
      (m : PhysPageNum) (q : List ℕ) (j : ℕ)
      → own m ≡ some q
      → (m == n && j == i) ≡ true
      → (is_leaf (after m j) ≡ false) × (grown (pte_ppn (after m j)) ≡ some (j ∷ q))
  child_new m q j o e =
      let em : m ≡ n = ground arith in
      let ej : j ≡ i = ground arith in
      let eq : q ≡ p = some_injective (sym o ∙ ap own em ∙ on) in
      rw (em, ej, eq, after-new, new_facts.2) (new_facts.1, update_eq own f f (some (i ∷ p)) refl)

  child_old :
      (m : PhysPageNum) (q : List ℕ) (j : ℕ)
      → own m ≡ some q
      → length q < 2
      → InHalf q j
      → (m == n && j == i) ≡ false
      → is_valid (after m j) ≡ true
      → (is_leaf (after m j) ≡ false) × (grown (pte_ppn (after m j)) ≡ some (j ∷ q))
  child_old m q j o l b e h =
      let same = after-other m j (owned-ne m q o) e in
      let c = sound.tree.child m q j o l b (rw (← same) h) in
      rw same (c.0, grown-own (pte_ppn (s.tables m j)) (j ∷ q) c.1)

  grown-IsTree : IsTree grown s.table.root after
  grown-IsTree = record {
    top = grown-own s.table.root [] sound.tree.top;
    child = λ m q j o l b h. elim (Bool-cases (m == f)) [
      | inl e ↦
          let zero_entry : after m j ≡ 0 = ap (λ x. after x j) ((==_iff m f).0 e) ∙ after-fresh j in
          let no : is_valid (after m j) ≡ false = ap is_valid zero_entry ∙ is_valid-zero in
          absurd (let bad : false ≡ true = sym no ∙ h in cc)
      | inr e ↦
          let o' : own m ≡ some q = sym (update_ne own f m (some (i ∷ p)) (ground arith)) ∙ o in
          elim (Bool-cases (m == n && j == i)) [
            | inl here ↦ child_new m q j o' here
            | inr away ↦ child_old m q j o' l b away h
          ]
    ];
  }

  after-kept :
      (m : PhysPageNum) (q : List ℕ) (j : ℕ)
      → own m ≡ some q
      → is_valid (s.tables m j) ≡ true
      → after m j ≡ s.tables m j
  after-kept m q j o h =
      let away : (m == n && j == i) ≡ false = elim (Bool-cases (m == n && j == i)) [
        | inl e ↦
            let em : m ≡ n = ground arith in
            let ej : j ≡ i = ground arith in
            absurd (let bad : false ≡ true = sym empty ∙ rw (← em, ← ej) h in cc)
        | inr e ↦ e
      ] in
      after-other m j (owned-ne m q o) away

  look-fresh : (is : List ℕ) → look after f is ≡ none
  look-fresh = look-empty after f (λ j. rw (after-fresh j) is_valid-zero)

  after-same :
      (m : PhysPageNum) (q is : List ℕ)
      → own m ≡ some q
      → length q + length is ≡ 3
      → Starts q is
      → look after m is ≡ look s.tables m is
  after-same m q [] o l b = unfold look walk_from in refl
  after-same m q (k ∷ []) o l b =
      let away : n ≢ m = frames-ne own on o (omega arith) in
      let e = after-frame m k (owned-ne m q o) (λ x. away (sym x)) in
      look-last after m k ∙ ap (λ x. keep_if is_valid (some x)) e ∙ sym (look-last s.tables m k)
  after-same m q (k ∷ j ∷ is) o l b = elim (Bool-cases (m == n && k == i)) [
    | inl here ↦
        let em : m ≡ n = ground arith in
        let ek : k ≡ i = ground arith in
        let old : look s.tables m (k ∷ j ∷ is) ≡ none =
          look-invalid s.tables m k (j ∷ is) (rw (em, ek) empty) in
        let new : look after m (k ∷ j ∷ is) ≡ none =
          rw (em, ek)
            (look-next after n i j is (rw after-new new_facts.0) (rw after-new new_facts.1)
              ∙ ap (λ x. look after (pte_ppn x) (j ∷ is)) after-new
              ∙ ap (λ x. look after x (j ∷ is)) new_facts.2
              ∙ look-fresh (j ∷ is)) in
        new ∙ sym old
    | inr away ↦
        let e = after-other m k (owned-ne m q o) away in
        elim (Bool-cases (is_valid (s.tables m k))) [
          | inl h ↦
              let c = sound.tree.child m q k o (omega arith) b h in
              look-next after m k j is (rw e h) (rw e c.0)
              ∙ ap (λ x. look after (pte_ppn x) (j ∷ is)) e
              ∙ after-same (pte_ppn (s.tables m k)) (k ∷ q) (j ∷ is) c.1 (omega arith) tt
              ∙ sym (look-next s.tables m k j is h c.0)
          | inr h ↦
              look-invalid after m k (j ∷ is) (rw e h) ∙ sym (look-invalid s.tables m k (j ∷ is) h)
        ]
  ]

  grown-alive : (m : PhysPageNum) (q : List ℕ) → grown m ≡ some q → live rest m
  grown-alive m q o = elim (Bool-cases (m == f)) [
    | inl e ↦ let now = source.now s.supply f rest taken in rw ((==_iff m f).0 e) now
    | inr e ↦
        source.kept s.supply f rest taken m
          (sound.alive m q (sym (update_ne own f m (some (i ∷ p)) (ground arith)) ∙ o))
  ]

  pub added-Grows : Grows live own s grown (added s n i f rest)
  unfolding after
  added-Grows = record {
    sound = record { tree = grown-IsTree; alive = grown-alive };
    extends = grown-own;
    kept = after-kept;
    same = after-same;
    rooted = refl;
    outside = λ m j o l.
        let ne = fresh-ne m l in
        let ne' : m ≢ n = λ e. (let bad : none ≡ some p = sym o ∙ ap own e ∙ on in cc) in
        (update_ne own f m (some (i ∷ p)) ne ∙ o, after-frame m j ne ne');
    living = source.kept s.supply f rest taken;
  }

  pub added-valid : is_valid ((added s n i f rest).tables n i) ≡ true
  unfolding after
  added-valid = ap is_valid after-new ∙ new_facts.0
