-- ===== src/Mm/Frame/Remove.antt =====
-- kernel/src/mm/frame.rs: `remove`, on the lists that the allocator holds.
use alexos.Base.{
  ℕ, suc, ◌+◌, ◌≤◌, ◌<◌, ◌≡◌, ◌≢◌, refl, List, [], ◌∷◌, ◌++◌, arith, ltb, update, update_eq,
  update_ne, ℕ_discrete, sym, ap, ◌∙◌,
}
use alexos.Base.Count.{times, times-append, is_at}
use alexos.Mm.Frame.{BuddyAllocator, nil, max_order, bit_index, is_free, set_free, remove}
use alexos.Mm.Frame.Links.{
  head, last, Links, Links-agree, Bypassed, Links-bypass, Links-at, last-ne-nil, times-last,
}
use alexos.Mm.Frame.Cover.{covers, cov, cov-append, cover, cover-update}
use alexos.Mm.Frame.Invariant.{IsBlock, Inv, bit_of-ne, listed_once, listed_apart, listed_ne_nil}
use alexos.Mm.Frame.Push.{times-head}

times-middle :
    (t : ℕ) (xs : List ℕ) (i : ℕ) (ys : List ℕ)
    → times t (xs ++ i ∷ ys) ≡ times t (xs ++ ys) + is_at i t
unfolding times
times-middle t xs i ys = omega (arith, times-append t xs (i ∷ ys), times-append t xs ys)

last-listed : (xs : List ℕ) → last nil xs ≢ nil → 0 < times (last nil xs) xs
last-listed [] ne = absurd (ne refl)
last-listed (x ∷ xs) ne = times-last x xs

module _ {b : BuddyAllocator} {lists : ℕ → List ℕ} (v : Inv b lists) (k : ℕ) (hk : k ≤ max_order)
    (before : List ℕ) (i : ℕ) (after : List ℕ) (split : lists k ≡ before ++ i ∷ after) where
  here : (i ≢ nil) × ((b.nodes i).prev ≡ last nil before) × ((b.nodes i).next ≡ head after)
  here = Links-at b.nodes nil before i after (rw split at (v.linked k hk))

  member : (y : ℕ) → times y (lists k) ≡ times y (before ++ after) + is_at i y
  member y = rw split (times-middle y before i after)

  bypassed : Bypassed b.nodes (remove b k i).nodes (last nil before) (head after)
  unfolding remove set_free
  bypassed = record {
    prev_kept = λ y ne. ground (arith, here);
    prev_new = λ ne. ground (arith, here);
    next_kept = λ y ne. ground (arith, here);
    next_new = λ ne. ground (arith, here);
  }

  elsewhere : (y : ℕ) → y ≢ last nil before → y ≢ head after → (remove b k i).nodes y ≡ b.nodes y
  unfolding remove set_free
  elsewhere y p q = ground (arith, here)

  other_list :
      (j y : ℕ) → j ≤ max_order → j ≢ k → 0 < times y (lists j) → (remove b k i).nodes y ≡ b.nodes y
  other_list j y h ne t = elsewhere y at_last at_head
    where
      some_node : y ≢ nil
      some_node = listed_ne_nil v j y h t

      at_last : y ≢ last nil before
      at_last q =
          let found : 0 < times y before = rw q (last-listed before (rw q at some_node)) in
          omega (arith, listed_apart v j k y h hk ne, member y, times-append y before after)

      at_head : y ≢ head after
      at_head q =
          let found : 0 < times y after = rw q (times-head after (rw q at some_node)) in
          omega (arith, listed_apart v j k y h hk ne, member y, times-append y before after)

  remove_linked :
      (j : ℕ) → j ≤ max_order → Links (remove b k i).nodes nil (update lists k (before ++ after) j)
  remove_linked j h = elim (ℕ_discrete j k) [
    | yes e ↦ rw (update_eq lists k j (before ++ after) e) (
        Links-bypass b.nodes (remove b k i).nodes nil before i after bypassed once_each
          (rw split at (v.linked k hk)))
    | no ne ↦ rw (update_ne lists k j (before ++ after) ne) (
        Links-agree b.nodes (remove b k i).nodes nil (lists j) (λ y t. other_list j y h ne t)
          (v.linked j h))
  ]
    where
      once_each : (y : ℕ) → is_at nil y + times y (before ++ i ∷ after) ≤ 1
      once_each y = ground (arith, ap (times y) split, listed_once v k y hk, listed_ne_nil v k y hk)

  -- `remove` takes the frames of its block from the free ones, and no other.
  pub cover-remove :
      (f : ℕ)
      → cover (suc max_order) lists f
        ≡ cover (suc max_order) (update lists k (before ++ after)) f + covers k i f
  unfolding cov
  cover-remove f = omega (arith, cover-update (suc max_order) lists k (before ++ after) f, shorter)
    where
      shorter : cov k (lists k) f ≡ cov k (before ++ after) f + covers k i f
      shorter =
          rw split (omega (arith, cov-append k before (i ∷ after) f, cov-append k before after f))

  pub removed-IsBlock : IsBlock b.frames k i
  removed-IsBlock = v.placed k i hk (ground (arith, member i))

  top_of : (bs : List ℕ) → bs ≡ before → (remove b k i).free_lists k ≡ head (before ++ after)
  unfolding remove set_free
  top_of [] e =
      let alone : (b.nodes i).prev ≡ nil = here.1 ∙ ap (last nil) (sym e) in
      let rest : head (before ++ after) ≡ head after = ap (λ t. head (t ++ after)) (sym e) in
      ground (arith, here.2)
  top_of (c ∷ cs) e =
      let whole : lists k ≡ c ∷ cs ++ i ∷ after = split ∙ ap (λ t. t ++ i ∷ after) (sym e) in
      let before_it : (b.nodes i).prev ≡ last c cs = here.1 ∙ ap (last nil) (sym e) in
      let some_node = last-ne-nil b.nodes nil c cs (i ∷ after) (rw whole at (v.linked k hk)) in
      let top : b.free_lists k ≡ c = v.heads k hk ∙ ap head whole in
      let rest : head (before ++ after) ≡ c = ap (λ t. head (t ++ after)) (sym e) in ground arith

  remove_heads :
      (j : ℕ)
      → j ≤ max_order
      → (remove b k i).free_lists j ≡ head (update lists k (before ++ after) j)
  unfolding remove set_free
  remove_heads j h = elim (ℕ_discrete j k) [
    | yes e ↦ rw (e, update_eq lists k k (before ++ after) refl) (top_of before refl)
    | no ne ↦ ground (arith, v.heads j h)
  ]

  remove_placed :
      (j y : ℕ)
      → j ≤ max_order
      → 0 < times y (update lists k (before ++ after) j)
      → IsBlock b.frames j y
  remove_placed j y h t = elim (ℕ_discrete j k) [
    | yes e ↦ ground (arith, v.placed k y hk, member y)
    | no ne ↦ ground (arith, v.placed j y h)
  ]

  remove_marked :
      (j y : ℕ)
      → IsBlock b.frames j y
      → is_free (remove b k i) j y ≡ ltb 0 (times y (update lists k (before ++ after) j))
  unfolding remove set_free is_free bit_index
  remove_marked j y by' = ground (
    arith,
    v.marked j y by',
    v.bases j,
    v.bases k,
    member y,
    listed_once v k i hk,
    bit_of-ne b.frames j k y i by' removed-IsBlock,
  )

  -- `remove` of a block from anywhere in its list keeps the lists and the bitmap well formed; the
  -- block, and no other, leaves its order's list.
  pub remove-Inv : Inv (remove b k i) (update lists k (before ++ after))
  unfolding remove set_free
  remove-Inv = record {
    linked = remove_linked;
    heads = remove_heads;
    placed = remove_placed;
    apart = λ f. omega (arith, v.apart f, cover-remove f);
    marked = remove_marked;
    small = v.small;
    bases = v.bases;
  }
