-- ===== src/Mm/PageTable/MapPage.antt =====
-- kernel/src/mm/page_table.rs: `map` on a sound tree of tables, seen through `translate`.
use alexos.Base.{
  Bool-cases, ℕ, ◌%◌, ◌^◌, ◌<◌, ◌≡◌, ◌≢◌, refl, ap, sym, ◌∙◌, Bool, true, false, Option, none, some,
  [], ◌==◌, if◌then◌else◌, arith, inl, inr,
}
use alexos.Base.Words.{Run, ok, panic}
use alexos.Mm.Addr.{PhysPageNum, VirtPageNum}
use alexos.Mm.PageTable.{
  Space, Slot, PteFlags, already_mapped, not_mapped, out_of_memory, Mapped, mapped, failed, Walked,
  found, exhausted, ran_past, read_slot, write_slot, is_valid, new_pte, leaf_flags, walk_from,
  walk_create, path_of, translate, map_page,
}
use alexos.Mm.PageTable.Entry.{leaf-is_valid}
use alexos.Mm.PageTable.Tree.{Labels}
use alexos.Mm.PageTable.Supply.{IsSource, IsSound, Grows, look}
use alexos.Mm.PageTable.Mapping.{Walks, walk_create-Walks}
use alexos.Mm.PageTable.Update.{
  path_of-Starts, length-path_of, translate-valid, translate-empty, translate-write, slot-IsTree,
  walk-IsSlot,
}

-- How `map` of page `v` to frame `n` with flags `f` may end, seen at a page `w`; `K` holds of the
-- state that it leaves.
abbrev pub Maps :
    {S : Type 0}
    → (S → Option (PhysPageNum × S))
    → Space S
    → VirtPageNum
    → PhysPageNum
    → PteFlags
    → VirtPageNum
    → (Space S → Type 0)
    → Run (Mapped (Unit {0}) × Space S)
    → Type 0
Maps take s v n f w K panic = ⊥
Maps take s v n f w K (ok (mapped _, s')) =
    (translate s.tables s.table v ≡ none)
    × (translate s'.tables s'.table w
        ≡ (if w == v then some (new_pte n (leaf_flags f)) else translate s.tables s.table w))
    × K s'
Maps take s v n f w K (ok (failed already_mapped, s')) =
    (translate s.tables s.table v ≢ none)
    × (translate s'.tables s'.table w ≡ translate s.tables s.table w)
    × K s'
Maps take s v n f w K (ok (failed not_mapped, s')) = ⊥
Maps take s v n f w K (ok (failed out_of_memory, s')) =
    (take s'.supply ≡ none)
    × (translate s.tables s.table v ≡ none)
    × (translate s'.tables s'.table w ≡ translate s.tables s.table w)
    × K s'

-- The tables form a tree of frames in use.
abbrev pub Sound : {S : Type 0} → (S → PhysPageNum → Type 0) → Space S → Type 0
Sound live s = (own : Labels) × IsSound live own s

-- What else `map` keeps, with the frames outside the tree.
record Keeps {S : Type 0} (live : S → PhysPageNum → Type 0) (own : Labels) (s s' : Space S)
    : Type 0 where
  labels : Labels
  sound : IsSound live labels s'
  outside : (x i : ℕ) → own x ≡ none → live s.supply x → s'.tables x i ≡ s.tables x i

Maps-weaken :
    {S : Type 0} (take : S → Option (PhysPageNum × S)) (s : Space S) (v n f w : ℕ)
    (K L : Space S → Type 0)
    → ((s' : Space S) → K s' → L s')
    → (r : Run (Mapped (Unit {0}) × Space S)) → Maps take s v n f w K r
    → Maps take s v n f w L r
Maps-weaken take s v n f w K L k panic h = h
Maps-weaken take s v n f w K L k (ok (mapped _, s')) h = (h.0, h.1, k s' h.2)
Maps-weaken take s v n f w K L k (ok (failed already_mapped, s')) h = (h.0, h.1, k s' h.2)
Maps-weaken take s v n f w K L k (ok (failed not_mapped, s')) h = h
Maps-weaken take s v n f w K L k (ok (failed out_of_memory, s')) h = (h.0, h.1, h.2, k s' h.3)

finish : {S : Type 0} → PhysPageNum → PteFlags → Walked S → Run (Mapped (Unit {0}) × Space S)
finish n f r = elim r [
  | ran_past ↦ panic
  | exhausted s ↦ ok (failed out_of_memory, s)
  | found slot s ↦
      if is_valid (read_slot s.tables slot)
      then ok (failed already_mapped, s)
      else ok (mapped tt, record s { tables = write_slot s.tables slot (new_pte n (leaf_flags f)) })
]

pub translate-look :
    {S : Type 0} (s : Space S) (v : VirtPageNum)
    → translate s.tables s.table v ≡ look s.tables s.table.root (path_of v)
unfolding translate look
translate-look s v = refl

module _ {S : Type 0} {live : S → PhysPageNum → Type 0} (own : Labels) (s : Space S)
    (sound : IsSound live own s) (own' : Labels) (s' : Space S) (g : Grows live own s own' s') where
  translate-Grows :
      (v : VirtPageNum) → v < 2 ^ 26 → translate s'.tables s'.table v ≡ translate s.tables s.table v
  translate-Grows v h =
      translate-look s' v
      ∙ ap (λ x. look s'.tables x (path_of v)) g.rooted
      ∙ g.same s.table.root [] (path_of v) sound.tree.top (omega (arith, length-path_of v))
          (path_of-Starts v h)
      ∙ sym (translate-look s v)

  Grows-Keeps : Keeps live own s s'
  Grows-Keeps = record {
    labels = own';
    sound = g.sound;
    outside = λ x i out busy. (g.outside x i out busy).1;
  }

  module _ (v w : VirtPageNum) (hv : v < 2 ^ 26) (hw : w < 2 ^ 26) (n f : ℕ) (hn : n < 2 ^ 44)
      (hf : f < 1024) (slot : Slot)
      (there : walk_from s'.tables s'.table.root (path_of v) ≡ some slot) where
    written-Keeps :
        Keeps live own s
          (record s' { tables = write_slot s'.tables slot (new_pte n (leaf_flags f)) })
    written-Keeps =
        let e = new_pte n (leaf_flags f) in
        let tree = g.sound.tree in
        let at = walk-IsSlot own' s'.tables s'.table tree v hv slot there in
        record {
          labels = own';
          sound = record {
            tree = slot-IsTree own' s'.tables s'.table tree v w hv hw slot there e;
            alive = g.sound.alive;
          };
          outside = λ x i out busy.
              let apart : x ≢ slot.frame = λ q.
                (let bad : none ≡ some at.last =
                    sym (g.outside x i out busy).0 ∙ ap own' q ∙ at.owned in
                  cc) in
              let stays : write_slot s'.tables slot e x i ≡ s'.tables x i = ground arith in
              stays ∙ (g.outside x i out busy).1;
        }

    found-Maps :
        (take : S → Option (PhysPageNum × S))
        → Maps take s v n f w (Keeps live own s) (finish n f (found slot s'))
    unfolding finish
    found-Maps take = elim (Bool-cases (is_valid (read_slot s'.tables slot))) [
      | inl h ↦
          let t = sym (translate-Grows v hv) ∙ translate-valid s'.tables s'.table v slot there h in
          let busy : translate s.tables s.table v ≢ none =
            λ e. (let bad : none ≡ some (read_slot s'.tables slot) = sym e ∙ t in cc) in
          rw h (busy, translate-Grows w hw, Grows-Keeps)
      | inr h ↦
          let e = new_pte n (leaf_flags f) in
          rw h (
            sym (translate-Grows v hv) ∙ translate-empty s'.tables s'.table v slot there h,
            translate-write own' s'.tables s'.table g.sound.tree v w hv hw slot there e
                ∙ rw (leaf-is_valid n f hn hf, translate-Grows w hw) refl,
            written-Keeps,
          )
    ]

module _ {S : Type 0} (take : S → Option (PhysPageNum × S)) where
  map_page-finish :
      (debug : Bool) (s : Space S) (v : VirtPageNum) (n : PhysPageNum) (f : PteFlags)
      → map_page take debug s v n f ≡ finish n f (walk_create take s s.table.root (path_of v) 2)
  unfolding map_page finish
  map_page-finish true s v n f =
      let ev : v % 1 ≡ 0 = omega arith in let en : n % 1 ≡ 0 = omega arith in rw (ev, en) refl
  map_page-finish false s v n f = refl

module _ {S : Type 0} (take : S → Option (PhysPageNum × S)) {live : S → PhysPageNum → Type 0}
    (own : Labels) (s : Space S) (sound : IsSound live own s) (v w : VirtPageNum) (hv : v < 2 ^ 26)
    (hw : w < 2 ^ 26) (n f : ℕ) (hn : n < 2 ^ 44) (hf : f < 1024) where
  finish-Maps :
      (r : Walked S)
      → Walks take live own s s.table.root (path_of v) r
      → Maps take s v n f w (Keeps live own s) (finish n f r)
  unfolding finish
  finish-Maps ran_past walks = walks
  finish-Maps (exhausted s') (own', g, e, none_left) = (
    none_left,
    translate-look s v ∙ e,
    translate-Grows own s sound own' s' g w hw,
    Grows-Keeps own s sound own' s' g,
  )
  finish-Maps (found slot s') (own', g, e) =
      found-Maps own s sound own' s' g v w hv hw n f hn hf slot
        (ap (λ r. walk_from s'.tables r (path_of v)) g.rooted ∙ e) take

module _ {S : Type 0} (take : S → Option (PhysPageNum × S)) (live : S → PhysPageNum → Type 0)
    (source : IsSource take live) (debug : Bool) (own : Labels) (s : Space S)
    (sound : IsSound live own s) (v w n f : ℕ) (hv : v < 2 ^ 26) (hw : w < 2 ^ 26) (hn : n < 2 ^ 44)
    (hf : f < 1024) where
  map_page-Keeps : Maps take s v n f w (Keeps live own s) (map_page take debug s v n f)
  map_page-Keeps = rw (map_page-finish take debug s v n f) (
      finish-Maps take own s sound v w hv hw n f hn hf _ (
        walk_create-Walks source 2 (path_of v) s s.table.root [] sound sound.tree.top (omega arith)
          (omega (arith, length-path_of v)) (path_of-Starts v hv)))

  -- On a sound tree of tables, for pages `v` and `w` of the user's half, a frame number `n` of 44
  -- bits and ten flags `f`, `map` of `v` does not panic. It succeeds only where `v` had no
  -- translation, and then `v` translates to the leaf entry of `n` and `f`; it fails with
  -- `already_mapped` only where `v` has a translation, and with `out_of_memory` only where it has
  -- none and the source has no frame left. The translation of `w` other than `v` is as before, and on a failure that of `v` as well.
  -- The tables are a sound tree again.
  pub map_page-Maps : Maps take s v n f w (Sound live) (map_page take debug s v n f)
  map_page-Maps =
      Maps-weaken take s v n f w (Keeps live own s) (Sound live) (λ s' k. (k.labels, k.sound)) _
        map_page-Keeps

  -- In the same situation a frame in use outside the tree is not written.
  map_page-outside :
      (x i : ℕ)
      → own x ≡ none
      → live s.supply x
      → Maps take s v n f w (λ s'. s'.tables x i ≡ s.tables x i) (map_page take debug s v n f)
  map_page-outside x i out busy =
      Maps-weaken take s v n f w (Keeps live own s) (λ s'. s'.tables x i ≡ s.tables x i)
        (λ s' k. k.outside x i out busy) _ map_page-Keeps
