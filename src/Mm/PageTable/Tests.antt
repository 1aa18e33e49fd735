-- ===== src/Mm/PageTable/Tests.antt =====
-- Page tables over a source that hands out the frame numbers in order.
use alexos.Base.{
  update, ℕ, ◌+◌, ◌*◌, ◌^◌, ◌<◌, ◌≡◌, refl, true, Option, none, some, [], ◌∷◌, ltb, ◌==◌,
  if◌then◌else◌, arith,
}
use alexos.Base.Words.{Run, ok, panic}
use alexos.Mm.PageTable.{
  Tables, Space, Mapped, mapped, failed, already_mapped, new_pte, leaf_flags, translate, new_table,
  map_page, unmap,
}
use alexos.Mm.PageTable.Tree.{IsTree}
use alexos.Mm.PageTable.Supply.{IsSource}
use alexos.Mm.PageTable.Update.{unmap_lem, freed}
use alexos.Mm.PageTable.MapPage.{Maps, Sound, map_page-Maps}
use alexos.Mm.PageTable.Refinement.{Reach, created, maps, Pages, Reach-Sound, translate-Reach}

abbrev bump : ℕ → Option (ℕ × ℕ)
bump k = if ltb k (2 ^ 44) then some (k, k + 1) else none

abbrev Below : ℕ → ℕ → Type 0
Below k n = n < k

bump-IsSource : IsSource bump Below
bump-IsSource = record {
  fresh = λ k n k' e l. ground arith;
  now = λ k n k' e. ground arith;
  kept = λ k n k' e m l. ground arith;
  small = λ k n k' e. ground arith;
}

abbrev zeros : Tables
zeros _ _ = 0

abbrev state_of : Run (Mapped (Unit {0}) × Space ℕ) → Space ℕ → Space ℕ
state_of panic s = s
state_of (ok (_, s')) s = s'

abbrev empty_space : Space ℕ
empty_space = record {
  supply = 1001;
  tables = update zeros 1000 (λ _. 0);
  table = record { root = 1000; frames = 1000 ∷ [] };
}

new_table-empty_space : new_table bump 1000 zeros ≡ some empty_space
unfolding new_table
new_table-empty_space = refl

-- Page 5 mapped to frame 77, readable and writable by the user.
one_page : Space ℕ
one_page = state_of (map_page bump true empty_space 5 77 22) empty_space

map_page-one_page : map_page bump true empty_space 5 77 22 ≡ ok (mapped tt, one_page)
unfolding map_page one_page
map_page-one_page = refl

map_page-twice : map_page bump true one_page 5 78 22 ≡ ok (failed already_mapped, one_page)
unfolding map_page one_page
map_page-twice = refl

translate-one_page : translate one_page.tables one_page.table 5 ≡ some (77 * 1024 + 215)
unfolding map_page one_page translate
translate-one_page = refl

abbrev one_entry : Pages
one_entry = update (λ _. none) 5 (some (new_pte 77 (leaf_flags 22)))

one_page-Reach : Reach bump true one_page one_entry
one_page-Reach =
    maps 5 77 22 (omega arith) (omega arith) (omega arith)
      (created 1000 zeros new_table-empty_space) map_page-one_page

one_page-Sound : Sound Below one_page
one_page-Sound = Reach-Sound bump-IsSource one_page-Reach

map_page-Maps_example :
    Maps bump one_page 6 78 22 5 (Sound Below) (map_page bump true one_page 6 78 22)
map_page-Maps_example =
    map_page-Maps bump Below bump-IsSource true one_page-Sound.0 one_page one_page-Sound.1 6 5 78 22
      (omega arith) (omega arith) (omega arith) (omega arith)

unmap_lem_example :
    ((unmap one_page.tables one_page.table 5).0
      ≡ freed (translate one_page.tables one_page.table 5))
    × (translate (unmap one_page.tables one_page.table 5).1 one_page.table 6
        ≡ (if 6 == 5 then none else translate one_page.tables one_page.table 6))
    × IsTree one_page-Sound.0 one_page.table.root (unmap one_page.tables one_page.table 5).1
unmap_lem_example =
    unmap_lem one_page-Sound.0 one_page.tables one_page.table one_page-Sound.1.tree 5 6
      (omega arith) (omega arith)

translate-Reach_example : translate one_page.tables one_page.table 5 ≡ one_entry 5
translate-Reach_example = translate-Reach bump-IsSource one_page-Reach 5 (omega arith)
