-- ===== src/Mm/Frame/Push.antt =====
-- kernel/src/mm/frame.rs: `push`, on the lists that the allocator holds.
use alexos.Base.{
  ℕ, suc, ◌+◌, ◌^◌, ◌≤◌, ◌<◌, ◌≡◌, ◌≢◌, refl, List, [], ◌∷◌, arith, ltb, update, update_eq,
  update_ne, ℕ_discrete,
}
use alexos.Base.Count.{times}
use alexos.Mm.Frame.{BuddyAllocator, nil, max_order, bit_index, is_free, set_free, push}
use alexos.Mm.Frame.Links.{head, Links, Links-agree, Links-cons}
use alexos.Mm.Frame.Cover.{covers, cov, cover, pow_pos, cover-update}
use alexos.Mm.Frame.Invariant.{
  IsBlock, Inv, bit_of-ne, listed_once, listed_apart, unlisted, listed_ne_nil,
}

pub times-head : (xs : List ℕ) → head xs ≢ nil → 0 < times (head xs) xs
unfolding times
times-head [] ne = absurd (ne refl)
times-head (x ∷ xs) ne = ground arith

module _ {b : BuddyAllocator} {lists : ℕ → List ℕ} (v : Inv b lists) (k x : ℕ)
    (bk : IsBlock b.frames k x)
    (used : (f : ℕ) → x ≤ f → f < x + 2 ^ k → cover (suc max_order) lists f ≡ 0) where
  fresh : (j : ℕ) → j ≤ max_order → times x (lists j) ≡ 0
  fresh j h = unlisted v j x h (used x (omega arith) (omega (arith, pow_pos k)))

  not_nil : x ≢ nil
  not_nil = omega (arith, v.small, bk.2, pow_pos k)

  not_head : head (lists k) ≢ nil → x ≢ head (lists k)
  not_head ne e =
      let h : 0 < times x (lists k) = rw e (times-head (lists k) ne) in omega (arith, fresh k bk.0)

  at_self : (push b k x).nodes x ≡ record { next = head (lists k); prev = nil }
  unfolding push set_free
  at_self = ground (arith, v.heads k bk.0, not_head)

  at_head :
      head (lists k) ≢ nil
      → (push b k x).nodes (head (lists k)) ≡ record (b.nodes (head (lists k))) { prev = x }
  unfolding push set_free
  at_head ne = ground (arith, v.heads k bk.0, not_head ne)

  elsewhere : (y : ℕ) → y ≢ x → y ≢ head (lists k) → (push b k x).nodes y ≡ b.nodes y
  unfolding push set_free
  elsewhere y p q = ground (arith, v.heads k bk.0)

  other_list :
      (j y : ℕ) → j ≤ max_order → j ≢ k → 0 < times y (lists j) → (push b k x).nodes y ≡ b.nodes y
  other_list j y h ne t = elsewhere y at_x at_top
    where
      at_x : y ≢ x
      at_x q = let t' = rw q at t in omega (arith, fresh j h)

      at_top : y ≢ head (lists k)
      at_top q =
          let ne_nil : head (lists k) ≢ nil = rw (← q) (listed_ne_nil v j y h t) in
          let again : 0 < times y (lists k) = rw q (times-head (lists k) ne_nil) in
          omega (arith, listed_apart v j k y h bk.0 ne)

  push_linked :
      (j : ℕ) → j ≤ max_order → Links (push b k x).nodes nil (update lists k (x ∷ lists k) j)
  push_linked j h = elim (ℕ_discrete j k) [
    | yes e ↦ rw (update_eq lists k j (x ∷ lists k) e) (
        Links-cons b.nodes (push b k x).nodes x (lists k) not_nil (fresh k bk.0)
          (λ y. listed_once v k y bk.0) at_self at_head elsewhere (v.linked k bk.0))
    | no ne ↦ rw (update_ne lists k j (x ∷ lists k) ne) (
        Links-agree b.nodes (push b k x).nodes nil (lists j) (λ y t. other_list j y h ne t)
          (v.linked j h))
  ]

  push_placed :
      (j y : ℕ)
      → j ≤ max_order
      → 0 < times y (update lists k (x ∷ lists k) j)
      → IsBlock b.frames j y
  unfolding times
  push_placed j y h t = elim (ℕ_discrete j k) [
    | yes e ↦ elim (ℕ_discrete y x) [
      | yes f ↦ rw (e, f) bk
      | no ne ↦ ground (arith, v.placed j y h)
    ]
    | no ne ↦ ground (arith, v.placed j y h)
  ]

  push_marked :
      (j y : ℕ)
      → IsBlock b.frames j y
      → is_free (push b k x) j y ≡ ltb 0 (times y (update lists k (x ∷ lists k) j))
  unfolding push set_free is_free bit_index times
  push_marked j y by' =
      ground (arith, v.marked j y by', v.bases j, v.bases k, bit_of-ne b.frames j k y x by' bk)

  -- `push` frees the frames of its block, and no other.
  pub cover-push :
      (f : ℕ)
      → cover (suc max_order) (update lists k (x ∷ lists k)) f
        ≡ cover (suc max_order) lists f + covers k x f
  unfolding cov
  cover-push f = omega (arith, cover-update (suc max_order) lists k (x ∷ lists k) f)

  -- `push` of a block none of whose frames is free keeps the lists and the bitmap well formed; the
  -- block goes to the head of its order's list.
  pub push-Inv : Inv (push b k x) (update lists k (x ∷ lists k))
  unfolding push set_free
  push-Inv = record {
    linked = push_linked;
    heads = λ j h. ground (arith, v.heads j h);
    placed = push_placed;
    apart = λ f. ground (arith, v.apart f, cover-push f, used f);
    marked = push_marked;
    small = v.small;
    bases = v.bases;
  }
