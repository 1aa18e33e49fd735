-- ===== src/Mm/Space/Tests.antt =====
-- Copies out of user memory, and the taking down of a region: a table of three frames, with page 5
-- mapped to frame 77.
use alexos.Base.{
  ℕ, ◌+◌, ◌*◌, ◌<◌, ◌≡◌, refl, true, false, ◌&&◌, none, some, List, [], ◌∷◌, ltb, leb, length, ◌==◌,
  if◌then◌else◌, Bool-cases, ==_iff, inl, inr, ap, sym, ◌∙◌, arith,
}
use alexos.Mm.Addr.{vpn}
use alexos.Mm.PageTable.{PageTable, Tables, translate, is_valid, is_leaf, pte_ppn}
use alexos.Mm.PageTable.Tree.{Labels, IsTree}
use alexos.Mm.PageTable.Entry.{is_valid-zero}
use alexos.Mm.Space.{Region, framed, copy_from_user, copy_to_user}
use alexos.Mm.Space.Copy.{read_each, copy_from_user-read_each}
use alexos.Mm.Space.CopyOut.{write_each, copy_to_user-write_each}
use alexos.Mm.Space.Build.{unmap_from}
use alexos.Mm.Space.Unmap.{unmap_from_lem}

abbrev tables : Tables
tables n i =
    if n == 1
    then if i == 0 then 2 * 1024 + 1 else 0
    else if n == 2
    then if i == 0 then 3 * 1024 + 1 else 0
    else if n == 3
    then if i == 5 then 77 * 1024 + 215 else 0
    else 0

abbrev table : PageTable
table = record { root = 1; frames = 1 ∷ 2 ∷ 3 ∷ [] }

abbrev memory : ℕ → ℕ
memory a = a

copy_from_user-read_each_example :
    copy_from_user tables table memory 0x5ff8 4 ≡ read_each tables table memory 0x5ff8 4
copy_from_user-read_each_example = copy_from_user-read_each tables table memory 0x5ff8 4

copy_to_user-write_each_example :
    copy_to_user tables table memory 0x5ffe (1 ∷ 2 ∷ 3 ∷ [])
    ≡ write_each tables table memory 0x5ffe (1 ∷ 2 ∷ 3 ∷ [])
copy_to_user-write_each_example =
    copy_to_user-write_each tables table memory 0x5ffe (1 ∷ 2 ∷ 3 ∷ [])

-- The third byte is past the page.
half_written : (copy_to_user tables table memory 0x5ffe (1 ∷ 2 ∷ 3 ∷ [])).0 ≡ false
unfolding copy_to_user
half_written = refl

copied :
    copy_from_user tables table memory 0x5ff8 2
    ≡ some ((77 * 4096 + 0xff8) ∷ (77 * 4096 + 0xff9) ∷ [])
unfolding copy_from_user
copied = refl

past_the_page : copy_from_user tables table memory 0x5ffe 4 ≡ none
unfolding copy_from_user
past_the_page = refl

abbrev labels : Labels
labels n =
    if n == 1
    then some []
    else if n == 2
    then some (0 ∷ [])
    else if n == 3
    then some (0 ∷ 0 ∷ [])
    else none

not_valid : (n i : ℕ) → tables n i ≡ 0 → is_valid (tables n i) ≡ true → ⊥
not_valid n i e h =
    let bad : false ≡ true = sym is_valid-zero ∙ ap is_valid (sym e) ∙ h in absurd (cc)

child_of :
    (n : ℕ) (p : List ℕ) (i : ℕ)
    → labels n ≡ some p
    → length p < 2
    → is_valid (tables n i) ≡ true
    → (is_leaf (tables n i) ≡ false) × (labels (pte_ppn (tables n i)) ≡ some (i ∷ p))
unfolding is_leaf pte_ppn
child_of n p i o l h = elim (Bool-cases (i == 0)) [
  | inl z ↦ elim (Bool-cases (n == 1)) [
    | inl one ↦
        let en = (==_iff n 1).0 one in
        let ei = (==_iff i 0).0 z in let e : [] ≡ p = ground arith in rw (en, ei, ← e) (refl, refl)
    | inr other ↦ elim (Bool-cases (n == 2)) [
      | inl two ↦
          let en = (==_iff n 2).0 two in
          let ei = (==_iff i 0).0 z in
          let e : 0 ∷ [] ≡ p = ground arith in rw (en, ei, ← e) (refl, refl)
      | inr neither ↦ absurd (not_valid n i (ground arith) h)
    ]
  ]
  | inr nz ↦ elim (Bool-cases (n == 3)) [
    | inl three ↦ let e : 0 ∷ 0 ∷ [] ≡ p = ground arith in absurd (omega (arith, ap length e))
    | inr other ↦ absurd (not_valid n i (ground arith) h)
  ]
]

tables-IsTree : IsTree labels 1 tables
tables-IsTree = record { top = refl; child = λ n p i o l b h. child_of n p i o l h }

abbrev region : Region
region = record { start = 0x5000; end = 0x7000; backing = framed; perm = 22; frames = (5, 77) ∷ [] }

unmap_from_lem_example :
    (translate (unmap_from tables table region) table 5
      ≡ (if leb (vpn 0x5000) 5 && ltb 5 (vpn 0x7000) then none else translate tables table 5))
    × IsTree labels 1 (unmap_from tables table region)
unfolding vpn
unmap_from_lem_example =
    unmap_from_lem labels table 5 (omega arith) tables region tables-IsTree (omega arith)
      (omega arith)
