-- ===== src/Mm/PageTable/Update.antt =====
-- kernel/src/mm/page_table.rs: `unmap` and `protect` on a tree of tables, seen through `translate`.
use alexos.Base.{
  Bool-cases, Option-cases, ==_iff, ℕ, ◌^◌, ◌<◌, ◌≡◌, ◌≢◌, refl, ap, sym, ◌∙◌, true, false, Option,
  none, some, List, [], ◌∷◌, ◌==◌, if◌then◌else◌, length, arith, inl, inr,
}
use alexos.Mm.Addr.{PhysPageNum, VirtPageNum, indices}
use alexos.Mm.PageTable.{
  PteFlags, PageTable, Tables, Slot, read_slot, write_slot, is_valid, pte_ppn, walk_from, path_of,
  translate, keep_if, Mapped, mapped, failed, not_mapped, unmap, protect, set_flags, leaf_flags,
}
use alexos.Mm.PageTable.Entry.{is_valid-zero, set_flags-is_valid}
use alexos.Mm.PageTable.Tree.{
  Labels, IsTree, IsSlot, Starts, onto, walk_from-IsSlot, walk_from-write, write-IsTree, read_walk,
}

pub path_of-Starts : (v : VirtPageNum) → v < 2 ^ 26 → Starts [] (path_of v)
unfolding path_of
path_of-Starts v h = omega arith

pub length-path_of : (v : VirtPageNum) → length (path_of v) ≡ 3
unfolding path_of
length-path_of v = refl

onto-injective :
    {a b c a' b' c' : ℕ} → c ∷ b ∷ a ∷ [] ≡ c' ∷ b' ∷ a' ∷ [] → (a ≡ a') × (b ≡ b') × (c ≡ c')
onto-injective e = (cc, cc, cc)

pub path_of-injective :
    (v w : VirtPageNum)
    → v < 2 ^ 26
    → w < 2 ^ 26
    → onto [] (path_of v) ≡ onto [] (path_of w)
    → v ≡ w
unfolding path_of indices
path_of-injective v w h l e = let parts = onto-injective e in omega arith

pub translate-found :
    (t : Tables) (p : PageTable) (v : VirtPageNum) (s : Slot)
    → walk_from t p.root (path_of v) ≡ some s
    → translate t p v ≡ keep_if is_valid (some (read_slot t s))
unfolding translate read_walk
translate-found t p v s e = ap (read_walk t) e

pub translate-lost :
    (t : Tables) (p : PageTable) (v : VirtPageNum)
    → walk_from t p.root (path_of v) ≡ none
    → translate t p v ≡ none
unfolding translate read_walk
translate-lost t p v e = ap (read_walk t) e

module _ (own : Labels) (t : Tables) (p : PageTable) (tree : IsTree own p.root t) (v : VirtPageNum)
    (small : v < 2 ^ 26) where
  pub walk-IsSlot :
      (s : Slot) → walk_from t p.root (path_of v) ≡ some s → IsSlot own (onto [] (path_of v)) s
  walk-IsSlot s e =
      walk_from-IsSlot tree p.root [] (path_of v) s tree.top (omega (arith, length-path_of v))
        (path_of-Starts v small) e

  pub walk-write :
      (m k e : ℕ) (q : List ℕ)
      → own m ≡ some q
      → length q ≡ 2
      → walk_from (write_slot t (record { frame = m; index = k }) e) p.root (path_of v)
        ≡ walk_from t p.root (path_of v)
  walk-write m k e q o l =
      walk_from-write tree m k e q o l p.root [] (path_of v) tree.top
        (omega (arith, length-path_of v)) (path_of-Starts v small)

-- A write at the slot of one page changes the translation of this page only.
module _ (own : Labels) (t : Tables) (p : PageTable) (tree : IsTree own p.root t)
    (v w : VirtPageNum) (hv : v < 2 ^ 26) (hw : w < 2 ^ 26) (s : Slot)
    (found : walk_from t p.root (path_of v) ≡ some s) (e : ℕ) where
  pub slot-IsTree : IsTree own p.root (write_slot t s e)
  slot-IsTree =
      let at = walk-IsSlot own t p tree v hv s found in
      write-IsTree tree s.frame s.index e at.last at.owned at.deep

  written_self : translate (write_slot t s e) p v ≡ keep_if is_valid (some e)
  written_self =
      let at = walk-IsSlot own t p tree v hv s found in
      let same = walk-write own t p tree v hv s.frame s.index e at.last at.owned at.deep in
      let held : read_slot (write_slot t s e) s ≡ e = ground arith in
      translate-found (write_slot t s e) p v s (same ∙ found)
      ∙ ap (λ x. keep_if is_valid (some x)) held

  slots-ne :
      (s' : Slot)
      → walk_from t p.root (path_of w) ≡ some s'
      → w ≢ v
      → read_slot (write_slot t s e) s' ≡ read_slot t s'
  slots-ne s' found' ne =
      let at = walk-IsSlot own t p tree v hv s found in
      let at' = walk-IsSlot own t p tree w hw s' found' in
      let apart : s'.frame ≡ s.frame → s'.index ≡ s.index → ⊥ = λ f i.
        let lasts : some at'.last ≡ some at.last = sym at'.owned ∙ ap own f ∙ at.owned in
        let paths : onto [] (path_of w) ≡ onto [] (path_of v) =
          let last : at'.last ≡ at.last = cc in sym at'.there ∙ rw (last, i) at.there in
        ne (path_of-injective w v hw hv paths) in
      ground (arith, apart)

  written_other : w ≢ v → translate (write_slot t s e) p w ≡ translate t p w
  written_other ne =
      let at = walk-IsSlot own t p tree v hv s found in
      let same = walk-write own t p tree w hw s.frame s.index e at.last at.owned at.deep in
      elim (Option-cases (walk_from t p.root (path_of w))) [
        | inl lost ↦
            translate-lost (write_slot t s e) p w (same ∙ lost) ∙ sym (translate-lost t p w lost)
        | inr (s', there) ↦
            translate-found (write_slot t s e) p w s' (same ∙ there)
            ∙ ap (λ x. keep_if is_valid (some x)) (slots-ne s' there ne)
            ∙ sym (translate-found t p w s' there)
      ]

  pub translate-write :
      translate (write_slot t s e) p w
      ≡ (if w == v then keep_if is_valid (some e) else translate t p w)
  translate-write = elim (Bool-cases (w == v)) [
    | inl same ↦
        let eq = (==_iff w v).0 same in
        rw same (ap (λ x. translate (write_slot t s e) p x) eq ∙ written_self)
    | inr differ ↦ rw differ (written_other (ground arith))
  ]

-- The translation of a page decides whether the walk has a slot with a valid entry.
module _ (t : Tables) (p : PageTable) (v : VirtPageNum) (s : Slot)
    (found : walk_from t p.root (path_of v) ≡ some s) where
  pub translate-valid : is_valid (read_slot t s) ≡ true → translate t p v ≡ some (read_slot t s)
  translate-valid h = translate-found t p v s found ∙ rw h refl

  pub translate-empty : is_valid (read_slot t s) ≡ false → translate t p v ≡ none
  translate-empty h = translate-found t p v s found ∙ rw h refl

-- What `unmap` and `protect` return for a page, by its translation.
abbrev pub freed : Option ℕ → Mapped PhysPageNum
freed none = failed not_mapped
freed (some e) = mapped (pte_ppn e)

abbrev pub reflagged : PteFlags → Option ℕ → Mapped (Unit {0}) × Option ℕ
reflagged f none = (failed not_mapped, none)
reflagged f (some e) = (mapped tt, some (set_flags e (leaf_flags f)))

at_slot : {A : Type 0} → Option Slot → A → (Slot → A) → A
at_slot o a f = elim o [ none ↦ a | some s ↦ f s ]

unmap-walk :
    (t : Tables) (p : PageTable) (v : VirtPageNum)
    → unmap t p v
      ≡ at_slot
          (walk_from t p.root (path_of v))
          (failed not_mapped, t)
          (λ s.
            if is_valid (read_slot t s)
            then (mapped (pte_ppn (read_slot t s)), write_slot t s 0)
            else (failed not_mapped, t))
unfolding unmap at_slot
unmap-walk t p v = refl

protect-walk :
    (t : Tables) (p : PageTable) (v : VirtPageNum) (f : PteFlags)
    → protect t p v f
      ≡ at_slot
          (walk_from t p.root (path_of v))
          (failed not_mapped, t)
          (λ s.
            if is_valid (read_slot t s)
            then (mapped tt, write_slot t s (set_flags (read_slot t s) (leaf_flags f)))
            else (failed not_mapped, t))
unfolding protect at_slot
protect-walk t p v f = refl

module _ (own : Labels) (t : Tables) (p : PageTable) (tree : IsTree own p.root t)
    (v w : VirtPageNum) (hv : v < 2 ^ 26) (hw : w < 2 ^ 26) where
  unchanged : translate t p v ≡ none → translate t p w ≡ (if w == v then none else translate t p w)
  unchanged gone = elim (Bool-cases (w == v)) [
    | inl same ↦ rw same (ap (translate t p) ((==_iff w v).0 same) ∙ gone)
    | inr differ ↦ rw differ refl
  ]

  -- On a tree of tables, for pages `v` and `w` of the user's half, `unmap` of `v` returns the frame
  -- of its translation and afterwards `v` has no translation; where `v` has none it fails with
  -- `not_mapped`. The translation of `w` other than `v` stays as it was, and so does the tree.
  pub unmap_lem :
      ((unmap t p v).0 ≡ freed (translate t p v))
      × (translate (unmap t p v).1 p w ≡ (if w == v then none else translate t p w))
      × IsTree own p.root (unmap t p v).1
  unfolding at_slot
  unmap_lem = elim (Option-cases (walk_from t p.root (path_of v))) [
    | inl lost ↦
        let gone = translate-lost t p v lost in
        rw (unmap-walk t p v, lost, gone) (refl, unchanged gone, tree)
    | inr (s, found) ↦ elim (Bool-cases (is_valid (read_slot t s))) [
      | inl h ↦
          rw (unmap-walk t p v, found, h, translate-valid t p v s found h)
            (
              refl,
              translate-write own t p tree v w hv hw s found 0 ∙ rw is_valid-zero refl,
              slot-IsTree own t p tree v w hv hw s found 0,
            )
      | inr h ↦
          let gone = translate-empty t p v s found h in
          rw (unmap-walk t p v, found, h, gone) (refl, unchanged gone, tree)
    ]
  ]

  -- On a tree of tables, for pages `v` and `w` of the user's half, `protect` of `v` gives the
  -- translation of `v` the new flags, and fails with `not_mapped` where `v` has none. The
  -- translation of `w` other than `v` stays as it was, and so does the tree.
  pub protect_lem :
      (f : PteFlags)
      → f < 1024
      → ((protect t p v f).0 ≡ (reflagged f (translate t p v)).0)
        × (translate (protect t p v f).1 p w
            ≡ (if w == v then (reflagged f (translate t p v)).1 else translate t p w))
        × IsTree own p.root (protect t p v f).1
  unfolding at_slot
  protect_lem f small = elim (Option-cases (walk_from t p.root (path_of v))) [
    | inl lost ↦
        let gone = translate-lost t p v lost in
        rw (protect-walk t p v f, lost, gone) (refl, unchanged gone, tree)
    | inr (s, found) ↦ elim (Bool-cases (is_valid (read_slot t s))) [
      | inl h ↦
          let e = set_flags (read_slot t s) (leaf_flags f) in
          rw (protect-walk t p v f, found, h, translate-valid t p v s found h)
            (
              refl,
              translate-write own t p tree v w hv hw s found e
                  ∙ rw (set_flags-is_valid (read_slot t s) f small) refl,
              slot-IsTree own t p tree v w hv hw s found e,
            )
      | inr h ↦
          let gone = translate-empty t p v s found h in
          rw (protect-walk t p v f, found, h, gone) (refl, unchanged gone, tree)
    ]
  ]
