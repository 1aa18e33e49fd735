-- ===== src/Mm/PageTable/Mapping.antt =====
-- kernel/src/mm/page_table.rs: `walk_create` on a sound tree of tables.
use alexos.Base.{
  Bool-cases, Option-cases, ℕ, zero, suc, ◌+◌, ◌<◌, ◌≡◌, refl, ap, sym, ◌∙◌, true, Option, none,
  some, List, [], ◌∷◌, length, arith, inl, inr,
}
use alexos.Mm.Addr.{PhysPageNum}
use alexos.Mm.PageTable.{
  Space, Walked, found, exhausted, ran_past, is_valid, pte_ppn, walk_from, walk_create,
  ensure_table,
}
use alexos.Mm.PageTable.Tree.{Labels, InHalf, Starts, walk_from-next}
use alexos.Mm.PageTable.Supply.{
  IsSource, IsSound, Grows, Grows-refl, Grows-trans, look, look-next, look-invalid,
}
use alexos.Mm.PageTable.Grow.{
  ensure_table-valid, ensure_table-none, ensure_table-some, added-Grows, added-valid,
}

-- How a walk that creates tables may end; it is exhausted only where the source has no frame left.
abbrev pub Walks :
    {S : Type 0}
    → (S → Option (PhysPageNum × S))
    → (S → PhysPageNum → Type 0)
    → Labels
    → Space S
    → PhysPageNum
    → List ℕ
    → Walked S
    → Type 0
Walks take live own s n is ran_past = ⊥
Walks take live own s n is (exhausted s') =
    (own' : Labels) × Grows live own s own' s'
    × (look s.tables n is ≡ none)
    × (take s'.supply ≡ none)
Walks take live own s n is (found slot s') =
    (own' : Labels) × Grows live own s own' s' × (walk_from s'.tables n is ≡ some slot)

module _ {S : Type 0} (take : S → Option (PhysPageNum × S)) where
  resume : Option (Space S) → Space S → ℕ → ℕ → List ℕ → ℕ → Walked S
  resume o s n i is stop = elim o [
    | none ↦ exhausted s
    | some s' ↦ walk_create take s' (pte_ppn (s'.tables n i)) is stop
  ]

  walk_create-resume :
      (s : Space S) (n i : ℕ) (is : List ℕ) (stop : ℕ) {o : Option (Space S)}
      → ensure_table take s n i ≡ o
      → walk_create take s n (i ∷ is) (suc stop) ≡ resume o s n i is stop
  unfolding walk_create resume
  walk_create-resume s n i is stop e = ap (λ o. resume o s n i is stop) e

module _ {S : Type 0} {take : S → Option (PhysPageNum × S)} {live : S → PhysPageNum → Type 0}
    (source : IsSource take live) where
  -- A walk from the table that an entry names is a walk from the entry's own frame.
  descend :
      {own own' : Labels} {s s' : Space S} (n i j : ℕ) (p is : List ℕ) (r : Walked S)
      → IsSound live own s
      → Grows live own s own' s'
      → own n ≡ some p
      → length p + length (i ∷ j ∷ is) ≡ 3
      → InHalf p i
      → is_valid (s'.tables n i) ≡ true
      → Walks take live own' s' (pte_ppn (s'.tables n i)) (j ∷ is) r
      → Walks take live own s n (i ∷ j ∷ is) r
  descend n i j p is ran_past sound g o l b h w = w
  descend {s'} n i j p is (exhausted s'') sound g o l b h w =
      let c = g.sound.tree.child n p i (g.extends n p o) (omega arith) b h in
      (
        w.0,
        Grows-trans g w.1,
        sym (g.same n p (i ∷ j ∷ is) o l b) ∙ look-next s'.tables n i j is h c.0 ∙ w.2,
        w.3,
      )
  descend {s'} n i j p is (found slot s'') sound g o l b h w =
      let c = g.sound.tree.child n p i (g.extends n p o) (omega arith) b h in
      let same = w.1.kept n p i (g.extends n p o) h in
      (
        w.0,
        Grows-trans g w.1,
        walk_from-next s''.tables n i j is (rw same h) (rw same c.0)
            ∙ ap (λ x. walk_from s''.tables (pte_ppn x) (j ∷ is)) same
            ∙ w.2,
      )

  pub walk_create-Walks :
      (stop : ℕ) (is : List ℕ) {own : Labels} (s : Space S) (n : ℕ) (p : List ℕ)
      → IsSound live own s
      → own n ≡ some p
      → length p + stop ≡ 2
      → length is ≡ suc stop
      → Starts p is
      → Walks take live own s n is (walk_create take s n is stop)
  unfolding resume
  walk_create-Walks stop [] s n p sound o l k b = absurd (omega arith)
  walk_create-Walks zero (i ∷ []) {own} s n p sound o l k b =
      unfold walk_create walk_from in (own, Grows-refl own s sound, refl)
  walk_create-Walks zero (i ∷ j ∷ is) s n p sound o l k b = absurd (omega arith)
  walk_create-Walks (suc stop) (i ∷ []) s n p sound o l k b = absurd (omega arith)
  walk_create-Walks (suc stop) (i ∷ j ∷ is) {own} s n p sound o l k b =
      elim (Bool-cases (is_valid (s.tables n i))) [
        | inl h ↦
            let c = sound.tree.child n p i o (omega arith) b h in
            rw (walk_create-resume take s n i (j ∷ is) stop (ensure_table-valid take s n i h)) (
              descend n i j p is _ sound (Grows-refl own s sound) o (omega arith) b h (
                walk_create-Walks stop (j ∷ is) s (pte_ppn (s.tables n i)) (i ∷ p) sound c.1
                  (omega arith) (omega arith) tt))
        | inr h ↦ elim (Option-cases (take s.supply)) [
          | inl e ↦
              rw (walk_create-resume take s n i (j ∷ is) stop (ensure_table-none take s n i h e))
                (own, Grows-refl own s sound, look-invalid s.tables n i (j ∷ is) h, e)
          | inr ((f, rest), e) ↦
              let short : length p < 2 = omega arith in
              let g = added-Grows source s sound n i p o short b h f rest e in
              let v = added-valid source s sound n i p o short b h f rest e in
              let c = g.sound.tree.child n p i (g.extends n p o) short b v in
              rw
                (walk_create-resume take s n i (j ∷ is) stop
                  (ensure_table-some take s n i f rest h e))
                (descend n i j p is _ sound g o (omega arith) b v (
                  walk_create-Walks stop (j ∷ is) _ _ (i ∷ p) g.sound c.1 (omega arith)
                    (omega arith) tt))
        ]
      ]
