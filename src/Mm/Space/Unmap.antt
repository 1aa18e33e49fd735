-- ===== src/Mm/Space/Unmap.antt =====
-- kernel/src/mm/space.rs: `unmap_from`, seen through `translate`.
use alexos.Base.{
  ℕ, zero, suc, ◌+◌, ◌-◌, ◌^◌, ◌≤◌, ◌<◌, ◌≡◌, ◌∙◌, ◌&&◌, none, ltb, leb, if◌then◌else◌, arith,
}
use alexos.Mm.Addr.{VirtPageNum, vpn}
use alexos.Mm.PageTable.{PageTable, Tables, translate, unmap}
use alexos.Mm.PageTable.Tree.{Labels, IsTree}
use alexos.Mm.PageTable.Update.{unmap_lem}
use alexos.Mm.Space.{Region}
use alexos.Mm.Space.Build.{unmap_pages, unmap_from}

module _ (own : Labels) (p : PageTable) (w : VirtPageNum) (hw : w < 2 ^ 26) where
  unmap_pages_lem :
      (count : ℕ) (t : Tables) (n : VirtPageNum)
      → IsTree own p.root t
      → n + count ≤ 2 ^ 26
      → (translate (unmap_pages count t p n) p w
          ≡ (if leb n w && ltb w (n + count) then none else translate t p w))
        × IsTree own p.root (unmap_pages count t p n)
  unfolding unmap_pages
  unmap_pages_lem zero t n tree h = (ground arith, tree)
  unmap_pages_lem (suc count) t n tree h =
      let (freed, one, tree') = unmap_lem own t p tree n w (omega arith) hw in
      let (rest, tree'') = unmap_pages_lem count (unmap t p n).1 (n + 1) tree' (omega arith) in
      (rest ∙ rw one (ground arith), tree'')

  -- On a tree of tables, `unmap_from` of a region of the user's half takes away the translation of
  -- every page of the region, and keeps that of every other page of the half, and the tree.
  pub unmap_from_lem :
      (t : Tables) (r : Region)
      → IsTree own p.root t
      → vpn r.start ≤ vpn r.end
      → vpn r.end ≤ 2 ^ 26
      → (translate (unmap_from t p r) p w
          ≡ (if leb (vpn r.start) w && ltb w (vpn r.end) then none else translate t p w))
        × IsTree own p.root (unmap_from t p r)
  unfolding unmap_from
  unmap_from_lem t r tree low high =
      let sum : vpn r.start + (vpn r.end - vpn r.start) ≡ vpn r.end = omega arith in
      rw sum at (unmap_pages_lem (vpn r.end - vpn r.start) t (vpn r.start) tree (omega arith))
