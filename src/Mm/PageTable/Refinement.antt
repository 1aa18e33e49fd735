-- ===== src/Mm/PageTable/Refinement.antt =====
-- kernel/src/mm/page_table.rs: a user's page table through any sequence of `map`, `unmap` and
-- `protect` calls, against a finite map from pages to entries.
use mathlib.Core.Path.{subst}
use alexos.Base.{
  update, update_eq, Option-cases, ℕ, ◌^◌, ◌<◌, ◌≡◌, refl, ap, sym, ◌∙◌, Bool, true, false, Option,
  none, some, List, [], ◌∷◌, ◌==◌, if◌then◌else◌, arith, inl, inr,
}
use alexos.Base.Words.{ok}
use alexos.Mm.Addr.{PhysPageNum, VirtPageNum}
use alexos.Mm.PageTable.{
  Tables, Space, MapError, already_mapped, not_mapped, out_of_memory, mapped, failed, zero_frame,
  is_valid, new_pte, leaf_flags, path_of, translate, new_table, map_page, unmap, protect,
}
use alexos.Mm.PageTable.Entry.{is_valid-zero}
use alexos.Mm.PageTable.Tree.{Labels, some_injective}
use alexos.Mm.PageTable.Supply.{IsSource, IsSound, look-empty}
use alexos.Mm.PageTable.Update.{unmap_lem, protect_lem, reflagged}
use alexos.Mm.PageTable.MapPage.{Maps, Sound, map_page-Maps, translate-look}

-- What a page table is to its clients: which entry each page has.
abbrev pub Pages : Type 0
Pages = VirtPageNum → Option ℕ

-- A page table that came about by the operations on pages of the user's half, with the map that the
-- same operations make of it.
pub data Reach {S : Type 0} (take : S → Option (PhysPageNum × S)) (debug : Bool)
    : Space S → Pages → Type 0 where
  created :
      (supply : S) (t : Tables) {s : Space S}
      → new_table take supply t ≡ some s
      → Reach take debug s (λ _. none)
  maps :
      {s s' : Space S} {m : Pages} (v n f : ℕ)
      → v < 2 ^ 26
      → n < 2 ^ 44
      → f < 1024
      → Reach take debug s m
      → map_page take debug s v n f ≡ ok (mapped tt, s')
      → Reach take debug s' (update m v (some (new_pte n (leaf_flags f))))
  refuses :
      {s s' : Space S} {m : Pages} (v n f : ℕ) (e : MapError)
      → v < 2 ^ 26
      → n < 2 ^ 44
      → f < 1024
      → Reach take debug s m
      → map_page take debug s v n f ≡ ok (failed e, s')
      → Reach take debug s' m
  unmaps :
      {s : Space S} {m : Pages} (v : ℕ)
      → v < 2 ^ 26
      → Reach take debug s m
      → Reach take debug (record s { tables = (unmap s.tables s.table v).1 }) (update m v none)
  protects :
      {s : Space S} {m : Pages} (v f : ℕ)
      → v < 2 ^ 26
      → f < 1024
      → Reach take debug s m
      → Reach take debug
          (record s { tables = (protect s.tables s.table v f).1 })
          (update m v (reflagged f (m v)).1)

-- The tables are sound and the translations are those of the map.
record Refines {S : Type 0} (live : S → PhysPageNum → Type 0) (s : Space S) (m : Pages)
    : Type 0 where
  labels : Labels
  sound : IsSound live labels s
  agrees : (w : VirtPageNum) → w < 2 ^ 26 → translate s.tables s.table w ≡ m w

module _ {S : Type 0} (take : S → Option (PhysPageNum × S)) where
  abbrev rooted : Tables → PhysPageNum → S → Space S
  rooted t n rest = record {
    supply = rest;
    tables = zero_frame t n;
    table = record { root = n; frames = n ∷ [] };
  }

  new_table-none : (supply : S) (t : Tables) → take supply ≡ none → new_table take supply t ≡ none
  unfolding new_table
  new_table-none supply t e = rw (e, new_table) refl

  new_table-some :
      (supply : S) (t : Tables) (n : PhysPageNum) (rest : S)
      → take supply ≡ some (n, rest)
      → new_table take supply t ≡ some (rooted t n rest)
  unfolding new_table
  new_table-some supply t n rest e = rw (e, new_table) refl

module _ {S : Type 0} {take : S → Option (PhysPageNum × S)} {live : S → PhysPageNum → Type 0}
    (source : IsSource take live) where
  rooted-Refines :
      (supply : S) (t : Tables) (n : PhysPageNum) (rest : S)
      → take supply ≡ some (n, rest)
      → Refines live (rooted take t n rest) (λ _. none)
  rooted-Refines supply t n rest taken =
      let only : Labels = update (λ _. none) n (some []) in
      let root_of : (m : ℕ) (p : List ℕ) → only m ≡ some p → m ≡ n = λ m p o. ground arith in
      let zero_entry : (i : ℕ) → zero_frame t n n i ≡ 0 = λ i. ground arith in
      let invalid : (i : ℕ) → is_valid (zero_frame t n n i) ≡ false =
        λ i. ap is_valid (zero_entry i) ∙ is_valid-zero in
      record {
        labels = only;
        sound = record {
          tree = record {
            top = update_eq (λ _. none) n n (some []) refl;
            child = λ m p i o l b h. absurd (
                let bad : false ≡ true =
                  sym (invalid i)
                  ∙ ap (λ x. is_valid (zero_frame t n x i)) (sym (root_of m p o))
                  ∙ h in
                cc);
          };
          alive = λ m p o. rw (root_of m p o) (source.now supply n rest taken);
        };
        agrees = λ w h.
            translate-look (rooted take t n rest) w
            ∙ look-empty (zero_frame t n) n invalid (path_of w);
      }

  created-Refines :
      (supply : S) (t : Tables) (s : Space S)
      → new_table take supply t ≡ some s
      → Refines live s (λ _. none)
  created-Refines supply t s e = elim (Option-cases (take supply)) [
    | inl out ↦ absurd (let bad : none ≡ some s = sym (new_table-none take supply t out) ∙ e in cc)
    | inr ((n, rest), taken) ↦
        let made : rooted take t n rest ≡ s =
          some_injective (sym (new_table-some take supply t n rest taken) ∙ e) in
        subst (λ s. Refines live s (λ _. none)) made (rooted-Refines supply t n rest taken)
  ]

  failed-same :
      (s : Space S) (v n f w : ℕ) (e : MapError) (s' : Space S)
      → Maps take s v n f w (Sound live) (ok (failed e, s'))
      → (translate s'.tables s'.table w ≡ translate s.tables s.table w) × Sound live s'
  failed-same s v n f w already_mapped s' h = (h.1, h.2)
  failed-same s v n f w not_mapped s' h = absurd h
  failed-same s v n f w out_of_memory s' h = (h.2, h.3)

  Reach-Refines : {debug : Bool} {s : Space S} {m : Pages} → Reach take debug s m → Refines live s m
  Reach-Refines (created supply t e) = created-Refines supply t _ e
  Reach-Refines {debug} {s = s'} (maps {s} {m} v n f hv hn hf r e) =
      let ih = Reach-Refines r in
      let after = λ (w : ℕ) (hw : w < 2 ^ 26).
        subst (Maps take s v n f w (Sound live)) e
          (map_page-Maps take live source debug ih.labels s ih.sound v w n f hv hw hn hf) in
      record {
        labels = (after v hv).2.0;
        sound = (after v hv).2.1;
        agrees = λ w hw.
            (after w hw).1
            ∙ ap (λ x. if w == v then some (new_pte n (leaf_flags f)) else x) (ih.agrees w hw);
      }
  Reach-Refines {debug} {s = s'} (refuses {s} {m} v n f e hv hn hf r eq) =
      let ih = Reach-Refines r in
      let after = λ (w : ℕ) (hw : w < 2 ^ 26). failed-same s v n f w e s' (
        subst (Maps take s v n f w (Sound live)) eq
          (map_page-Maps take live source debug ih.labels s ih.sound v w n f hv hw hn hf)) in
      record {
        labels = (after v hv).1.0;
        sound = (after v hv).1.1;
        agrees = λ w hw. (after w hw).0 ∙ ih.agrees w hw;
      }
  Reach-Refines (unmaps {s} {m} v hv r) =
      let ih = Reach-Refines r in
      let after =
        λ (w : ℕ) (hw : w < 2 ^ 26). unmap_lem ih.labels s.tables s.table ih.sound.tree v w hv hw in
      record {
        labels = ih.labels;
        sound = record { tree = (after v hv).2; alive = ih.sound.alive };
        agrees = λ w hw. (after w hw).1 ∙ ap (λ x. if w == v then none else x) (ih.agrees w hw);
      }
  Reach-Refines (protects {s} {m} v f hv hf r) =
      let ih = Reach-Refines r in
      let after = λ (w : ℕ) (hw : w < 2 ^ 26).
        protect_lem ih.labels s.tables s.table ih.sound.tree v w hv hw f hf in
      record {
        labels = ih.labels;
        sound = record { tree = (after v hv).2; alive = ih.sound.alive };
        agrees = λ w hw.
            (after w hw).1
            ∙ ap (λ x. if w == v then (reflagged f x).1 else translate s.tables s.table w)
                (ih.agrees v hv)
            ∙ ap (λ x. if w == v then (reflagged f (m v)).1 else x) (ih.agrees w hw);
      }

  pub Reach-Sound : {debug : Bool} {s : Space S} {m : Pages} → Reach take debug s m → Sound live s
  Reach-Sound r = ((Reach-Refines r).labels, (Reach-Refines r).sound)

  -- A user's page table that came about by `new` and any sequence of `map`, `unmap` and `protect`
  -- calls on pages of the user's half, failed calls included, translates every such page as the map
  -- that starts empty and takes the same updates: the tables are an implementation of it.
  pub translate-Reach :
      {debug : Bool} {s : Space S} {m : Pages}
      → Reach take debug s m
      → (w : VirtPageNum) → w < 2 ^ 26
      → translate s.tables s.table w ≡ m w
  translate-Reach r w h = (Reach-Refines r).agrees w h
