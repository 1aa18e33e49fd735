-- ===== src/Mm/Frame/Alloc.antt =====
-- kernel/src/mm/frame.rs: `alloc`, with its search for a donor and its splits.
use native.Mathlib.Nat.{div-add-mod', mul-mod_left, add-mod_right, two-pow-succ}
use alexos.Base.{
  ℕ, zero, suc, ◌+◌, ◌-◌, ◌*◌, ◌/◌, ◌%◌, ◌^◌, ◌≤◌, ◌<◌, ◌≡◌, ◌≢◌, refl, List, [], ◌∷◌, arith, ltb,
  ◌||◌, dec_lt, ℕ_discrete, true, false, ap, ◌∙◌, sym, Option, none, some,
}
use alexos.Mm.Addr.{PhysPageNum}
use alexos.Mm.Frame.{
  BuddyAllocator, FreeNode, nil, max_order, push, remove, set_free, find_donor, split, charge,
  alloc, is_free, bit_index,
}
use alexos.Mm.Frame.Links.{head, Links}
use alexos.Mm.Frame.Cover.{covers, cover}
use alexos.Mm.Frame.Invariant.{IsBlock, Inv}
use alexos.Mm.Frame.Push.{push-Inv, cover-push}
use alexos.Mm.Frame.Remove.{remove-Inv, cover-remove, removed-IsBlock}

-- The lists after a split, with the block that is left.
abbrev Halved : BuddyAllocator → (ℕ → List ℕ) → ℕ → ℕ → ℕ → Type 0
Halved b lists order idx count =
    (after : ℕ → List ℕ) × Inv (split b order idx count) after
    × ((f : ℕ)
        → cover (suc max_order) after f + covers order idx f
          ≡ cover (suc max_order) lists f + covers (order + count) idx f)
    × ((split b order idx count).base ≡ b.base)
    × ((split b order idx count).allocated ≡ b.allocated)
    × IsBlock b.frames order idx
    × ((split b order idx count).frames ≡ b.frames)

half-aligned : (x p : ℕ) → x % (p + p) ≡ 0 → x % p ≡ 0
half-aligned x p e = rw whole (mul-mod_left (x / (p + p) * 2) p)
  where
    whole : x ≡ x / (p + p) * 2 * p
    whole = omega (arith, div-add-mod' x (p + p))

add-aligned : (x p : ℕ) → x % p ≡ 0 → (x + p) % p ≡ 0
add-aligned x p e = add-mod_right x p ∙ e

split-Inv :
    (order idx count : ℕ) {b : BuddyAllocator} {lists : ℕ → List ℕ}
    → Inv b lists
    → IsBlock b.frames (order + count) idx
    → ((f : ℕ) → idx ≤ f → f < idx + 2 ^ (order + count) → cover (suc max_order) lists f ≡ 0)
    → Halved b lists order idx count
unfolding split push set_free
split-Inv order idx zero {b} {lists} v bk used =
    let same : order + 0 ≡ order = omega arith in
    (lists, v, λ f. ground arith, refl, refl, rw same at bk, refl)
split-Inv order idx (suc count) {b} {lists} v bk used =
    let level = order + count in
    let p = 2 ^ level in
    let next : order + suc count ≡ suc level = omega arith in
    let two : 2 ^ (order + suc count) ≡ p + p = ap (λ (k : ℕ). 2 ^ k) next ∙ two-pow-succ level in
    let low : idx % p ≡ 0 = half-aligned idx p (rw (← two) bk.1) in
    let upper : IsBlock b.frames level (idx + p) =
      (omega (arith, bk.0), add-aligned idx p low, omega (arith, bk.2, two)) in
    let unused : (f : ℕ) → idx + p ≤ f → f < idx + p + p → cover (suc max_order) lists f ≡ 0 =
      λ f h g. used f (omega arith) (omega (arith, two)) in
    let pushed = push-Inv v level (idx + p) upper unused in
    let lower : IsBlock b.frames level idx = (omega (arith, bk.0), low, omega (arith, bk.2, two)) in
    let rest =
      split-Inv order idx count pushed lower
        (λ f h g. ground (arith, used f, two, cover-push v level (idx + p) upper unused f)) in
    (
      rest.0,
      rest.1,
      λ f. ground (arith, rest.2 f, two, cover-push v level (idx + p) upper unused f),
      rest.3,
      rest.4,
      rest.5,
      rest.6,
    )

-- The donor is the first order, from the one asked for, whose list is not empty.
find_donor_lem :
    (rounds : ℕ) (b : BuddyAllocator) (donor : ℕ)
    → rounds + donor ≡ suc max_order
    → (donor ≤ find_donor rounds b donor)
      × (find_donor rounds b donor ≤ suc max_order)
      × ((k : ℕ) → donor ≤ k → k < find_donor rounds b donor → b.free_lists k ≡ nil)
      × (find_donor rounds b donor ≤ max_order → b.free_lists (find_donor rounds b donor) ≢ nil)
unfolding find_donor
find_donor_lem zero b donor e =
    (omega arith, omega arith, λ k h g. absurd (omega arith), λ h. absurd (omega arith))
find_donor_lem (suc rounds) b donor e =
    let r = find_donor_lem rounds b (donor + 1) (omega arith) in
    (
      ground (arith, r.0),
      ground (arith, r.1),
      λ k h g. elim (ℕ_discrete k donor) [
        | yes q ↦ rw q (ground arith)
        | no ne ↦ ground (arith, r.2 k)
      ],
      λ h. ground (arith, r.3),
    )

charge-Inv :
    {b : BuddyAllocator} {lists : ℕ → List ℕ}
    → Inv b lists
    → (order : ℕ) → Inv (charge b order) lists
unfolding charge is_free bit_index
charge-Inv v order = record {
  linked = v.linked;
  heads = v.heads;
  placed = v.placed;
  apart = v.apart;
  marked = v.marked;
  small = v.small;
  bases = v.bases;
}

-- What an answer of `alloc` says of the lists.
abbrev pub Served : BuddyAllocator → (ℕ → List ℕ) → ℕ → Option PhysPageNum × BuddyAllocator → Type 0
Served b lists order (none, c) = (c ≡ b) × ((k : ℕ) → order ≤ k → k ≤ max_order → lists k ≡ [])
Served b lists order (some n, c) =
    (idx : ℕ) × (after : ℕ → List ℕ) × (n ≡ b.base + idx)
    × IsBlock b.frames order idx
    × Inv c after
    × ((f : ℕ) → cover (suc max_order) lists f ≡ cover (suc max_order) after f + covers order idx f)
    × (c.base ≡ b.base)
    × (c.frames ≡ b.frames)
    × (c.allocated ≡ b.allocated + 2 ^ order)

head-nil : (nodes : ℕ → FreeNode) (xs : List ℕ) → Links nodes nil xs → head xs ≡ nil → xs ≡ []
head-nil nodes [] l e = refl
head-nil nodes (x ∷ xs) l e = absurd (l.0 e)

pub remove_kept :
    (b : BuddyAllocator) (k i : ℕ)
    → ((remove b k i).frames ≡ b.frames)
      × ((remove b k i).base ≡ b.base)
      × ((remove b k i).allocated ≡ b.allocated)
unfolding remove set_free
remove_kept b k i = (refl, refl, refl)

-- The head of a list serves the order, in `count` splits.
alloc_head :
    {b : BuddyAllocator} {lists : ℕ → List ℕ}
    → Inv b lists
    → (order count : ℕ) → order + count ≤ max_order
    → (i : ℕ) (rest : List ℕ) → lists (order + count) ≡ i ∷ rest
    → Served b lists order
        (some (b.base + i), charge (split (remove b (order + count) i) order i count) order)
unfolding charge
alloc_head {b} {lists} v order count high i rest e =
    let d = order + count in
    let kept = remove_kept b d i in
    let block = removed-IsBlock v d high [] i rest e in
    let removed = remove-Inv v d high [] i rest e in
    let counted = cover-remove v d high [] i rest e in
    let parts =
      split-Inv order i count removed (rw kept.0 block)
        (λ f h g. ground (arith, counted f, v.apart f)) in
    (
      i,
      parts.0,
      refl,
      rw kept.0 at parts.5,
      charge-Inv parts.1 order,
      λ f. omega (arith, counted f, parts.2 f),
      parts.3 ∙ kept.1,
      parts.6 ∙ kept.0,
      omega (arith, parts.4, kept.2),
    )

alloc_taken :
    {b : BuddyAllocator} {lists : ℕ → List ℕ}
    → Inv b lists
    → (order d : ℕ) → order ≤ d
    → d ≤ max_order
    → b.free_lists d ≢ nil
    → Served b lists order (
      some (b.base + b.free_lists d),
      charge (split (remove b d (b.free_lists d)) order (b.free_lists d) (d - order)) order,
    )
alloc_taken {b} {lists} v order d low high full = from (lists d) refl
  where
    from :
        (xs : List ℕ)
        → lists d ≡ xs
        → Served b lists order (
          some (b.base + b.free_lists d),
          charge (split (remove b d (b.free_lists d)) order (b.free_lists d) (d - order)) order,
        )
    from [] e = absurd (full (v.heads d high ∙ ap head e))
    from (i ∷ rest) e =
        let sum : order + (d - order) ≡ d = omega arith in
        rw (v.heads d high, e)
          (rw sum at (alloc_head v order (d - order) (omega arith) i rest (ap lists sum ∙ e)))

-- `alloc` on well-formed lists, for an order up to the largest. Given a frame number, it took an
-- aligned block inside the region off the free frames, all other frames are as free as before, the
-- lists are well-formed again and the counter has grown by the block. Given none, nothing has
-- changed and no list of the order or of a larger one has a block.
pub alloc-Served :
    {b : BuddyAllocator} {lists : ℕ → List ℕ}
    → Inv b lists
    → (order : ℕ) → order ≤ max_order
    → Served b lists order (alloc b order)
unfolding alloc
alloc-Served {b} {lists} v order h =
    let d = find_donor (max_order + 1 - order) b order in
    let found = find_donor_lem (max_order + 1 - order) b order (omega arith) in
    elim (dec_lt max_order d) [
      | yes above ↦
          let stop : ltb max_order order || ltb max_order d ≡ true = ground arith in
          rw stop (
            refl,
            λ k g l.
                head-nil b.nodes (lists k) (v.linked k l)
                  (sym (v.heads k l) ∙ found.2 k g (omega arith)),
          )
      | no below ↦
          let go : ltb max_order order || ltb max_order d ≡ false = ground arith in
          rw go (alloc_taken v order d found.0 (omega arith) (found.3 (omega arith)))
    ]
