-- ===== src/Mm/Frame/Free.antt =====
-- kernel/src/mm/frame.rs: `free`, with the loop that merges a block with its buddies.
use native.Mathlib.Nat.{div-add-mod', mul-mod_left, two-pow-succ, add-mul, mul-add, add-mod_right}
use alexos.Base.{
  ℕ, zero, suc, ◌+◌, ◌-◌, ◌*◌, ◌/◌, ◌%◌, ◌^◌, ◌≤◌, ◌<◌, ◌≡◌, ◌⊎◌, inl, inr, refl, List, [], ◌∷◌,
  ◌++◌, arith, ◌==◌, ltb, leb, ◌&&◌, ◌||◌, not, update, ℕ_discrete, Bool, true, false, ap, ◌∙◌, sym,
  min, bit_xor, Bool-cases,
}
use alexos.Base.Words.{ok}
use alexos.Base.Count.{times}
use alexos.Mm.Frame.{
  BuddyAllocator, max_order, push, set_free, is_free, bit_index, Merge, coalesce, free,
}
use alexos.Mm.Frame.Xor.{bit_xor-toggle}
use alexos.Mm.Frame.Cover.{covers, cover, pow_pos}
use alexos.Mm.Frame.Invariant.{IsBlock, Inv, unlisted}
use alexos.Mm.Frame.Push.{push-Inv, cover-push}
use alexos.Mm.Frame.Remove.{remove-Inv, cover-remove}
use alexos.Mm.Frame.Alloc.{remove_kept}

-- A block's buddy is a block, and the two are the halves of a block of the next order.
abbrev Halves : ℕ → ℕ → ℕ → Type 0
Halves k x y =
    (y % 2 ^ k ≡ 0)
    × (min x y % 2 ^ suc k ≡ 0)
    × ((min x y ≡ x) × (y ≡ x + 2 ^ k) ⊎ (min x y ≡ y) × (x ≡ y + 2 ^ k))

aligned_even : (k x q : ℕ) → x ≡ q * 2 ^ k → q % 2 ≡ 0 → x % 2 ^ suc k ≡ 0
aligned_even k x q e even = rw whole (mul-mod_left (q / 2) (2 ^ suc k))
  where
    halves : q ≡ q / 2 + q / 2
    halves = omega arith

    doubled : q / 2 * 2 ^ suc k ≡ q / 2 * 2 ^ k + q / 2 * 2 ^ k
    doubled = rw (two-pow-succ k) (mul-add (q / 2) (2 ^ k) (2 ^ k))

    whole : x ≡ q / 2 * 2 ^ suc k
    whole =
        omega (arith, doubled, add-mul (q / 2) (q / 2) (2 ^ k), ap (λ (t : ℕ). t * 2 ^ k) halves)

buddy-Halves : (k x : ℕ) → x % 2 ^ k ≡ 0 → Halves k x (bit_xor x (2 ^ k))
buddy-Halves k x e =
    let q = x / 2 ^ k in
    let y = bit_xor x (2 ^ k) in
    let whole : x ≡ q * 2 ^ k = omega (arith, div-add-mod' x (2 ^ k)) in
    elim (bit_xor-toggle k x q whole) [
      | inl (even, up) ↦
          let least : min x y ≡ x = omega arith in
          (
            rw up (add-mod_right x (2 ^ k) ∙ e),
            rw least (aligned_even k x q whole even),
            inl (least, up),
          )
      | inr (odd, down) ↦
          let least : min x y ≡ y = omega arith in
          let fewer : q ≡ q - 1 + 1 = omega arith in
          let below : y ≡ (q - 1) * 2 ^ k =
            omega (arith, add-mul (q - 1) 1 (2 ^ k), ap (λ (t : ℕ). t * 2 ^ k) fewer) in
          (
            rw below (mul-mod_left (q - 1) (2 ^ k)),
            rw least (aligned_even k y (q - 1) below (omega arith)),
            inr (least, sym down),
          )
    ]

-- A listed block stands somewhere in its list.
times-split :
    (x : ℕ) (xs : List ℕ)
    → 0 < times x xs
    → (before : List ℕ) × (after : List ℕ) × (xs ≡ before ++ x ∷ after)
unfolding times
times-split x [] h = absurd (omega arith)
times-split x (y ∷ ys) h = elim (ℕ_discrete y x) [
  | yes e ↦ ([], ys, ap (λ k. k ∷ ys) e)
  | no ne ↦
      let (before, after, e) = times-split x ys (ground arith) in
      (y ∷ before, after, ap (λ k. y ∷ k) e)
]

covers-halves :
    (k x y f : ℕ)
    → ((min x y ≡ x) × (y ≡ x + 2 ^ k)) ⊎ ((min x y ≡ y) × (x ≡ y + 2 ^ k))
    → 2 ^ (k + 1) ≡ 2 ^ k + 2 ^ k
    → covers (k + 1) (min x y) f ≡ covers k x f + covers k y f
covers-halves k x y f (inl (e, up)) two = rw (e, two) (ground arith)
covers-halves k x y f (inr (e, down)) two = rw (e, two) (ground arith)

-- What the merge loop leaves: a larger block, in place of the given one and of those it met.
abbrev Merged : BuddyAllocator → (ℕ → List ℕ) → ℕ → ℕ → Merge → Type 0
Merged b lists level idx m =
    (after : ℕ → List ℕ) × Inv m.state after
    × IsBlock b.frames m.level m.idx
    × ((f : ℕ)
        → cover (suc max_order) after f + covers m.level m.idx f
          ≡ cover (suc max_order) lists f + covers level idx f)
    × (m.state.frames ≡ b.frames)
    × (m.state.base ≡ b.base)
    × (m.state.allocated ≡ b.allocated)

coalesce-Merged :
    (rounds level idx : ℕ) {b : BuddyAllocator} {lists : ℕ → List ℕ}
    → Inv b lists
    → rounds + level ≡ max_order
    → IsBlock b.frames level idx
    → Merged b lists level idx (coalesce rounds b level idx)
unfolding coalesce
coalesce-Merged zero level idx {b} {lists} v e bk = (lists, v, bk, λ f. refl, refl, refl, refl)
coalesce-Merged (suc rounds) level idx {b} {lists} v e bk =
    let buddy = bit_xor idx (2 ^ level) in
    let (aligned, whole, sides) = buddy-Halves level idx bk.1 in
    elim (Bool-cases (ltb b.frames (buddy + 2 ^ level) || not (is_free b level buddy))) [
      | inl stop ↦ rw stop (lists, v, bk, λ f. refl, refl, refl, refl)
      | inr go ↦
          let in_region : buddy + 2 ^ level ≤ b.frames = ground arith in
          let high : level ≤ max_order = omega arith in
          let found : 0 < times buddy (lists level) =
            ground (arith, v.marked level buddy (high, aligned, in_region)) in
          let (before, rest, split) = times-split buddy (lists level) found in
          let kept = remove_kept b level buddy in
          let next : level + 1 ≡ suc level = omega arith in
          let two : 2 ^ (level + 1) ≡ 2 ^ level + 2 ^ level = rw next (two-pow-succ level) in
          let larger : IsBlock b.frames (level + 1) (min idx buddy) =
            (omega arith, rw next whole, omega (arith, sides, two, bk.2)) in
          let ih =
            coalesce-Merged rounds (level + 1) (min idx buddy)
              (remove-Inv v level high before buddy rest split) (omega arith) (rw kept.0 larger) in
          rw go (
            ih.0,
            ih.1,
            (ih.2.0, ih.2.1, omega (arith, ih.2.2, kept.0)),
            λ f. omega (
              arith,
              ih.3 f,
              cover-remove v level high before buddy rest split f,
              covers-halves level idx buddy f sides two,
            ),
            ih.4 ∙ kept.0,
            ih.5 ∙ kept.1,
            ih.6 ∙ kept.2,
          )
    ]

recount-Inv :
    {b : BuddyAllocator} {lists : ℕ → List ℕ}
    → Inv b lists
    → (n : ℕ) → Inv (record b { allocated = n }) lists
unfolding is_free bit_index
recount-Inv v n = record {
  linked = v.linked;
  heads = v.heads;
  placed = v.placed;
  apart = v.apart;
  marked = v.marked;
  small = v.small;
  bases = v.bases;
}

push_kept :
    (b : BuddyAllocator) (k x : ℕ)
    → ((push b k x).base ≡ b.base)
      × ((push b k x).allocated ≡ b.allocated)
      × ((push b k x).frames ≡ b.frames)
unfolding push set_free
push_kept b k x = (refl, refl, refl)

-- A live block, none of whose frames is free: `free` does not panic, with debug assertions or
-- without, the frames of the block are free again and the others as free as before, the lists are
-- well formed, and the counter has shrunk by the block.
pub free-Released :
    (debug : Bool) {b : BuddyAllocator} {lists : ℕ → List ℕ}
    → Inv b lists
    → (order idx : ℕ) → IsBlock b.frames order idx
    → ((f : ℕ) → idx ≤ f → f < idx + 2 ^ order → cover (suc max_order) lists f ≡ 0)
    → 2 ^ order ≤ b.allocated
    → (c : BuddyAllocator) × (after : ℕ → List ℕ) × (free debug b (b.base + idx) order ≡ ok c)
      × Inv c after
      × ((f : ℕ)
          → cover (suc max_order) after f ≡ cover (suc max_order) lists f + covers order idx f)
      × (c.base ≡ b.base)
      × (c.frames ≡ b.frames)
      × (c.allocated + 2 ^ order ≡ b.allocated)
unfolding free
free-Released debug {b} {lists} v order idx bk used live =
    let index : b.base + idx - b.base ≡ idx = omega arith in
    let above : leb b.base (b.base + idx) ≡ true = ground arith in
    let below : leb (idx + 2 ^ order) b.frames ≡ true = ground (arith, bk.2) in
    let aligned : (idx % 2 ^ order == 0) ≡ true = ground (arith, bk.1) in
    let start_used : cover (suc max_order) lists idx ≡ 0 =
      used idx (omega arith) (omega (arith, pow_pos order)) in
    let not_free : is_free b order idx ≡ false =
      ground (arith, v.marked order idx bk, unlisted v order idx bk.0 start_used) in
    let no_double : debug && is_free b order idx ≡ false = ground arith in
    let counted : leb (2 ^ order) b.allocated ≡ true = ground arith in
    let m =
      coalesce (max_order - order) (record b { allocated = b.allocated - 2 ^ order }) order idx in
    let merged =
      coalesce-Merged (max_order - order) order idx (recount-Inv v (b.allocated - 2 ^ order))
        (omega (arith, bk.0)) bk in
    let block : IsBlock m.state.frames m.level m.idx =
      (merged.2.0, merged.2.1, omega (arith, merged.2.2, merged.4)) in
    let unused : (f : ℕ)
        → m.idx ≤ f
        → f < m.idx + 2 ^ m.level
        → cover (suc max_order) merged.0 f ≡ 0 =
      λ f l h. ground (arith, merged.3 f, v.apart f, used f) in
    let kept = push_kept m.state m.level m.idx in
    let listed : leb order max_order ≡ true = ground (arith, bk.0) in
    rw (above, index, below, aligned, no_double, counted, listed)
      (
        push m.state m.level m.idx,
        update merged.0 m.level (m.idx ∷ merged.0 m.level),
        refl,
        push-Inv merged.1 m.level m.idx block unused,
        λ f. omega (arith, merged.3 f, cover-push merged.1 m.level m.idx block unused f),
        kept.0 ∙ merged.5,
        kept.2 ∙ merged.4,
        omega (arith, kept.1, merged.6),
      )
