-- ===== src/Mm/PageTable/Supply.antt =====
-- kernel/src/mm/page_table.rs: what the table operations rely on of `Frame::alloc`, and what it
-- means that they add tables and change no translation.
use alexos.Base.{
  ℕ, ◌+◌, ◌^◌, ◌<◌, ◌≡◌, true, false, Option, none, some, List, [], ◌∷◌, length, ◌∙◌, ap, refl,
}
use alexos.Mm.Addr.{PhysPageNum}
use alexos.Mm.PageTable.{Tables, Space, is_valid, is_leaf, pte_ppn, walk_from, keep_if}
use alexos.Mm.PageTable.Tree.{Labels, IsTree, Starts, read_walk, walk_from-next, walk_from-invalid}

-- A source of frames: `live` holds of the frames that are in use. A frame that is taken was not in
-- use and is so afterwards, no other frame falls out of use, and a frame number has 44 bits.
pub record IsSource {S : Type 0} (take : S → Option (PhysPageNum × S))
    (live : S → PhysPageNum → Type 0) : Type 0 where
  pub fresh : (s : S) (n : PhysPageNum) (s' : S) → take s ≡ some (n, s') → live s n → ⊥
  pub now : (s : S) (n : PhysPageNum) (s' : S) → take s ≡ some (n, s') → live s' n
  pub kept :
      (s : S) (n : PhysPageNum) (s' : S)
      → take s ≡ some (n, s')
      → (m : PhysPageNum) → live s m
      → live s' m
  pub small : (s : S) (n : PhysPageNum) (s' : S) → take s ≡ some (n, s') → n < 2 ^ 44

-- The tables form a tree, and its frames are in use.
pub record IsSound {S : Type 0} (live : S → PhysPageNum → Type 0) (own : Labels) (s : Space S)
    : Type 0 where
  pub tree : IsTree own s.table.root s.tables
  pub alive : (n : PhysPageNum) (p : List ℕ) → own n ≡ some p → live s.supply n

-- What a walk from a frame of the tree reads.
unfoldable pub look : Tables → PhysPageNum → List ℕ → Option ℕ
unfolding read_walk
look t n is = read_walk t (walk_from t n is)

pub look-last : (t : Tables) (n k : ℕ) → look t n (k ∷ []) ≡ keep_if is_valid (some (t n k))
unfolding look walk_from
look-last t n k = refl

pub look-next :
    (t : Tables) (n i j : ℕ) (is : List ℕ)
    → is_valid (t n i) ≡ true
    → is_leaf (t n i) ≡ false
    → look t n (i ∷ j ∷ is) ≡ look t (pte_ppn (t n i)) (j ∷ is)
unfolding look
look-next t n i j is h l = ap (read_walk t) (walk_from-next t n i j is h l)

pub look-invalid :
    (t : Tables) (n i : ℕ) (is : List ℕ) → is_valid (t n i) ≡ false → look t n (i ∷ is) ≡ none
unfolding look
look-invalid t n i [] h = look-last t n i ∙ rw h refl
look-invalid t n i (j ∷ is) h = ap (read_walk t) (walk_from-invalid t n i j is h)

pub look-empty :
    (t : Tables) (n : ℕ) → ((i : ℕ) → is_valid (t n i) ≡ false) → (is : List ℕ) → look t n is ≡ none
unfolding look walk_from
look-empty t n h [] = refl
look-empty t n h (i ∷ is) = look-invalid t n i is (h i)

-- From `s` to `s'` the tree may have gained tables: its old ones keep their labels and their valid
-- entries, every walk reads what it read, and a frame in use outside the tree is not written.
pub record Grows {S : Type 0} (live : S → PhysPageNum → Type 0) (own : Labels) (s : Space S)
    (own' : Labels) (s' : Space S) : Type 0 where
  pub sound : IsSound live own' s'
  pub extends : (n : PhysPageNum) (p : List ℕ) → own n ≡ some p → own' n ≡ some p
  pub kept :
      (n : PhysPageNum) (p : List ℕ) (i : ℕ)
      → own n ≡ some p
      → is_valid (s.tables n i) ≡ true
      → s'.tables n i ≡ s.tables n i
  pub same :
      (n : PhysPageNum) (p is : List ℕ)
      → own n ≡ some p
      → length p + length is ≡ 3
      → Starts p is
      → look s'.tables n is ≡ look s.tables n is
  pub rooted : s'.table.root ≡ s.table.root
  pub outside :
      (n : PhysPageNum) (i : ℕ)
      → own n ≡ none
      → live s.supply n
      → (own' n ≡ none) × (s'.tables n i ≡ s.tables n i)
  pub living : (n : PhysPageNum) → live s.supply n → live s'.supply n

module _ {S : Type 0} {live : S → PhysPageNum → Type 0} where
  pub Grows-refl : (own : Labels) (s : Space S) → IsSound live own s → Grows live own s own s
  Grows-refl own s sound = record {
    sound = sound;
    extends = λ n p o. o;
    kept = λ n p i o h. refl;
    same = λ n p is o l b. refl;
    rooted = refl;
    outside = λ n i o l. (o, refl);
    living = λ n l. l;
  }

  pub Grows-trans :
      {a b c : Labels} {s t u : Space S}
      → Grows live a s b t
      → Grows live b t c u
      → Grows live a s c u
  Grows-trans {s} {t} {u} g h = record {
    sound = h.sound;
    extends = λ n p o. h.extends n p (g.extends n p o);
    kept = λ n p i o v.
        let first = g.kept n p i o v in h.kept n p i (g.extends n p o) (rw first v) ∙ first;
    same = λ n p is o l b. h.same n p is (g.extends n p o) l b ∙ g.same n p is o l b;
    rooted = h.rooted ∙ g.rooted;
    outside = λ n i o l.
        let first = g.outside n i o l in
        let second = h.outside n i first.0 (g.living n l) in (second.0, second.1 ∙ first.1);
    living = λ n l. h.living n (g.living n l);
  }
