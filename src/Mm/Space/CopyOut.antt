-- ===== src/Mm/Space/CopyOut.antt =====
-- kernel/src/mm/space.rs: `copy_to_user`, page by page, against a copy that goes byte by byte.
use alexos.Base.{
  ℕ, zero, suc, ◌+◌, ◌-◌, ◌/◌, ◌%◌, ◌≤◌, ◌<◌, ◌≡◌, min, refl, sym, ◌∙◌, Bool, true, false, not,
  ◌||◌, Option, none, some, List, [], ◌∷◌, update, length, drop, length-drop, take as take_list,
  bit_or, leb, if◌then◌else◌, Bool-cases, Option-cases, arith, inl, inr,
}
use alexos.Base.Words.{word_mod}
use alexos.Mm.Addr.{VirtAddr, PhysAddr, page_size, user_max_addr, page_offset, vpn}
use alexos.Mm.PageTable.{PageTable, Tables, translate, translate_addr, flags, contains, write, user}
use alexos.Mm.Space.{write_bytes, copy_out, copy_to_user}
use alexos.Mm.Space.Copy.{translate_addr-page}

-- Whether an entry lets the user write.
abbrev pub is_open : Option ℕ → Bool
is_open none = false
is_open (some e) = contains (flags e) (bit_or write user)

-- Where a byte at a user address is written, if it may be.
unfoldable pub place_of : Tables → PageTable → VirtAddr → Option PhysAddr
place_of t p va =
    if leb user_max_addr va || not (is_open (translate t p (vpn va)))
    then none
    else translate_addr t p va

unfoldable pub write_each : Tables → PageTable → (ℕ → ℕ) → VirtAddr → List ℕ → Bool × (ℕ → ℕ)
unfolding place_of
write_each t p bytes va [] = (true, bytes)
write_each t p bytes va (b ∷ bs) = elim (place_of t p va) [
  | none ↦ (false, bytes)
  | some a ↦ write_each t p (update bytes a b) (va + 1) bs
]

module _ (t : Tables) (p : PageTable) where
  write_each-none :
      (bytes : ℕ → ℕ) (va b : ℕ) (bs : List ℕ)
      → place_of t p va ≡ none
      → write_each t p bytes va (b ∷ bs) ≡ (false, bytes)
  unfolding write_each
  write_each-none bytes va b bs e = rw (write_each, e) refl

  write_each-some :
      (bytes : ℕ → ℕ) (va b a : ℕ) (bs : List ℕ)
      → place_of t p va ≡ some a
      → write_each t p bytes va (b ∷ bs) ≡ write_each t p (update bytes a b) (va + 1) bs
  unfolding write_each
  write_each-some bytes va b a bs e = rw (write_each, e) refl

  -- Bytes that go side by side into memory.
  write_each-run :
      (k : ℕ) (bytes : ℕ → ℕ) (va pa : ℕ) (src : List ℕ)
      → k ≤ length src
      → ((j : ℕ) → j < k → place_of t p (va + j) ≡ some (pa + j))
      → write_each t p bytes va src
        ≡ write_each t p (write_bytes bytes pa (take_list k src)) (va + k) (drop k src)
  unfolding write_bytes
  write_each-run zero bytes va pa src h run = let same : va + 0 ≡ va = omega arith in rw same refl
  write_each-run (suc k) bytes va pa [] h run = absurd (omega arith)
  write_each-run (suc k) bytes va pa (b ∷ bs) h run =
      let at : va + 0 ≡ va = omega arith in
      let at' : pa + 0 ≡ pa = omega arith in
      let first : place_of t p va ≡ some pa = rw (at, at') at (run 0 (omega arith)) in
      let shifted = λ (j : ℕ) (l : j < k).
        let v : va + suc j ≡ va + 1 + j = omega arith in
        let w : pa + suc j ≡ pa + 1 + j = omega arith in rw (v, w) at (run (suc j) (omega arith)) in
      let v : va + suc k ≡ va + 1 + k = omega arith in
      write_each-some bytes va b pa bs first
      ∙ write_each-run k (update bytes pa b) (va + 1) (pa + 1) bs (omega arith) shifted
      ∙ rw v refl

  place_of-page :
      (va j pa : ℕ)
      → va % page_size + j < page_size
      → va < user_max_addr
      → is_open (translate t p (vpn va)) ≡ true
      → translate_addr t p va ≡ some pa
      → place_of t p (va + j) ≡ some (pa + j)
  unfolding place_of vpn
  place_of-page va j pa h l o e =
      let below : leb user_max_addr (va + j) ≡ false = ground arith in
      let page : (va + j) / page_size ≡ va / page_size = omega arith in
      rw (below, page, o) (translate_addr-page t p (λ a. a) va j pa h e)

  -- One round of the loop.
  page_round :
      Bool → Option ℕ → Option PhysAddr → (ℕ → ℕ) → (PhysAddr → Bool × (ℕ → ℕ)) → Bool × (ℕ → ℕ)
  page_round out o a bytes rest = if out then (false, bytes) else elim o [
    | none ↦ (false, bytes)
    | some e ↦
        if contains (flags e) (bit_or write user)
        then elim a [ none ↦ (false, bytes) | some pa ↦ rest pa ]
        else (false, bytes)
  ]

  copy_out-round :
      (rounds : ℕ) (bytes : ℕ → ℕ) (va b : ℕ) (bs : List ℕ)
      → copy_out (suc rounds) t p bytes va (b ∷ bs)
        ≡ page_round
            (leb word_mod va || leb user_max_addr va)
            (translate t p (vpn va))
            (translate_addr t p va)
            bytes
            (λ a.
              copy_out rounds t p
                (write_bytes bytes a
                  (take_list (min (page_size - page_offset va) (suc (length bs))) (b ∷ bs)))
                (va + min (page_size - page_offset va) (suc (length bs)))
                (drop (min (page_size - page_offset va) (suc (length bs))) (b ∷ bs)))
  unfolding copy_out page_round
  copy_out-round rounds bytes va b bs = refl

  page_round-out :
      (o : Option ℕ) (a : Option PhysAddr) (bytes : ℕ → ℕ) (rest : PhysAddr → Bool × (ℕ → ℕ))
      → page_round true o a bytes rest ≡ (false, bytes)
  unfolding page_round
  page_round-out o a bytes rest = refl

  page_round-closed :
      (o : Option ℕ) (a : Option PhysAddr) (bytes : ℕ → ℕ) (rest : PhysAddr → Bool × (ℕ → ℕ))
      → is_open o ≡ false
      → page_round false o a bytes rest ≡ (false, bytes)
  unfolding page_round
  page_round-closed none a bytes rest h = refl
  page_round-closed (some e) a bytes rest h = rw h refl

  page_round-none :
      (o : Option ℕ) (bytes : ℕ → ℕ) (rest : PhysAddr → Bool × (ℕ → ℕ))
      → is_open o ≡ true
      → page_round false o none bytes rest ≡ (false, bytes)
  unfolding page_round
  page_round-none none bytes rest h = refl
  page_round-none (some e) bytes rest h = rw h refl

  page_round-some :
      (o : Option ℕ) (pa : PhysAddr) (bytes : ℕ → ℕ) (rest : PhysAddr → Bool × (ℕ → ℕ))
      → is_open o ≡ true
      → page_round false o (some pa) bytes rest ≡ rest pa
  unfolding page_round
  page_round-some none pa bytes rest h = absurd (let bad : false ≡ true = h in cc)
  page_round-some (some e) pa bytes rest h = rw h refl

  -- As many rounds as there are bytes are enough.
  copy_out-write_each :
      (rounds : ℕ) (bytes : ℕ → ℕ) (va : ℕ) (src : List ℕ)
      → length src ≤ rounds
      → copy_out rounds t p bytes va src ≡ write_each t p bytes va src
  copy_out-write_each rounds bytes va [] h = unfold copy_out write_each in refl
  copy_out-write_each zero bytes va (b ∷ bs) h = absurd (omega arith)
  copy_out-write_each (suc rounds) bytes va (b ∷ bs) h =
      let n = min (page_size - page_offset va) (suc (length bs)) in
      let size : n ≡ min (page_size - va % page_size) (suc (length bs)) =
        unfold page_offset in refl in
      let o = translate t p (vpn va) in
      copy_out-round rounds bytes va b bs ∙ elim (Bool-cases (leb user_max_addr va)) [
        | inl out ↦
            let test : (leb word_mod va || leb user_max_addr va) ≡ true = ground arith in
            let shut : place_of t p va ≡ none = unfold place_of in rw out refl in
            rw test (page_round-out _ _ bytes _ ∙ sym (write_each-none bytes va b bs shut))
        | inr below ↦
            let test : (leb word_mod va || leb user_max_addr va) ≡ false = ground arith in
            elim (Bool-cases (is_open o)) [
              | inr closed ↦
                  let shut : place_of t p va ≡ none = unfold place_of in rw (below, closed) refl in
                  rw test (
                    page_round-closed o _ bytes _ closed ∙ sym (write_each-none bytes va b bs shut))
              | inl granted ↦ elim (Option-cases (translate_addr t p va)) [
                | inl lost ↦
                    let shut : place_of t p va ≡ none =
                      unfold place_of in rw (below, granted, lost) refl in
                    rw (test, lost)
                      (page_round-none o bytes _ granted ∙ sym (write_each-none bytes va b bs shut))
                | inr (pa, found) ↦
                    let small : va < user_max_addr = ground arith in
                    let left : length (drop n (b ∷ bs)) ≡ suc (length bs) - n =
                      length-drop n (b ∷ bs) in
                    rw (test, found)
                      (page_round-some o pa bytes _ granted
                        ∙ copy_out-write_each rounds (write_bytes bytes pa (take_list n (b ∷ bs)))
                            (va + n) (drop n (b ∷ bs)) (omega (arith, size, left))
                        ∙ sym (
                            write_each-run n bytes va pa (b ∷ bs) (omega (arith, size)) (λ j l.
                              place_of-page va j pa (omega (arith, size)) small granted found)))
              ]
            ]
      ]

-- `copy_to_user`, page by page, does what a copy does that writes each byte through its own
-- translation, from `va` on, and stops at the first address that is not below the user's limit or
-- not mapped for the user to write: it succeeds with the same bytes written, or fails with the same.
pub copy_to_user-write_each :
    (t : Tables) (p : PageTable) (bytes : ℕ → ℕ) (va : ℕ) (src : List ℕ)
    → copy_to_user t p bytes va src ≡ write_each t p bytes va src
unfolding copy_to_user
copy_to_user-write_each t p bytes va src =
    let enough : length src ≤ length src = omega arith in
    copy_out-write_each t p (length src) bytes va src enough
