-- ===== src/Mm/Space/Copy.antt =====
-- kernel/src/mm/space.rs: `copy_from_user`, page by page, against a copy that goes byte by byte.
use alexos.Base.{
  ℕ, zero, suc, ◌+◌, ◌-◌, ◌/◌, ◌%◌, ◌≤◌, ◌<◌, ◌≡◌, ◌⊎◌, min, refl, sym, ap, ◌∙◌, Bool, true, false,
  ◌||◌, Option, none, some, List, [], ◌∷◌, ◌++◌, leb, if◌then◌else◌, Bool-cases, Option-cases,
  arith, inl, inr,
}
use alexos.Base.Words.{word_mod}
use alexos.Mm.Addr.{VirtAddr, PhysAddr, page_size, user_max_addr, page_offset, base_addr, vpn}
use alexos.Mm.PageTable.{PageTable, Tables, translate, translate_addr, pte_ppn}
use alexos.Mm.Space.{read_bytes, copy_in, copy_from_user}

-- The byte at a user address, if it is mapped below the user's limit.
unfoldable pub byte_at : Tables → PageTable → (ℕ → ℕ) → VirtAddr → Option ℕ
byte_at t p bytes va =
    if leb user_max_addr va
    then none
    else elim (translate_addr t p va) [ none ↦ none | some pa ↦ some (bytes pa) ]

-- A copy that stops at the first byte that is not there.
abbrev pub and_then : Option ℕ → Option (List ℕ) → Option (List ℕ)
and_then none rest = none
and_then (some b) none = none
and_then (some b) (some bs) = some (b ∷ bs)

unfoldable pub read_each : Tables → PageTable → (ℕ → ℕ) → VirtAddr → ℕ → Option (List ℕ)
unfolding byte_at
read_each t p bytes va zero = some []
read_each t p bytes va (suc n) = and_then (byte_at t p bytes va) (read_each t p bytes (va + 1) n)

abbrev behind : List ℕ → Option (List ℕ) → Option (List ℕ)
behind xs none = none
behind xs (some bs) = some (xs ++ bs)

behind-nil : (o : Option (List ℕ)) → behind [] o ≡ o
behind-nil none = refl
behind-nil (some bs) = refl

and_then-behind :
    (b : ℕ) (xs : List ℕ) (o : Option (List ℕ))
    → and_then (some b) (behind xs o) ≡ behind (b ∷ xs) o
and_then-behind b xs none = refl
and_then-behind b xs (some bs) = refl

-- The address that an entry gives for an offset in its page.
entry_addr : Option ℕ → ℕ → Option PhysAddr
entry_addr o f = elim o [ none ↦ none | some e ↦ some (base_addr (pte_ppn e) + f) ]

module _ (t : Tables) (p : PageTable) (bytes : ℕ → ℕ) where
  -- Bytes that lie side by side in memory.
  read_each-run :
      (k left va pa : ℕ)
      → k ≤ left
      → ((j : ℕ) → j < k → byte_at t p bytes (va + j) ≡ some (bytes (pa + j)))
      → read_each t p bytes va left
        ≡ behind (read_bytes bytes pa k) (read_each t p bytes (va + k) (left - k))
  unfolding read_each read_bytes
  read_each-run zero left va pa h run =
      let same : va + 0 ≡ va = omega arith in
      let all : left - 0 ≡ left = omega arith in
      rw (same, all) (sym (behind-nil (read_each t p bytes va left)))
  read_each-run (suc k) zero va pa h run = absurd (omega arith)
  read_each-run (suc k) (suc left) va pa h run =
      let at : va + 0 ≡ va = omega arith in
      let at' : pa + 0 ≡ pa = omega arith in
      let first : byte_at t p bytes va ≡ some (bytes pa) = rw (at, at') at (run 0 (omega arith)) in
      let shifted = λ (j : ℕ) (l : j < k).
        let v : va + suc j ≡ va + 1 + j = omega arith in
        let w : pa + suc j ≡ pa + 1 + j = omega arith in rw (v, w) at (run (suc j) (omega arith)) in
      let rest = read_each-run k left (va + 1) (pa + 1) (omega arith) shifted in
      let v : va + suc k ≡ va + 1 + k = omega arith in
      let w : suc left - suc k ≡ left - k = omega arith in
      ap (λ b. and_then b (read_each t p bytes (va + 1) left)) first
      ∙ ap (and_then (some (bytes pa))) rest
      ∙ and_then-behind (bytes pa) (read_bytes bytes (pa + 1) k)
          (read_each t p bytes (va + 1 + k) (left - k))
      ∙ rw (v, w) refl

  translate_addr-entry :
      (va : VirtAddr) → translate_addr t p va ≡ entry_addr (translate t p (vpn va)) (page_offset va)
  unfolding translate_addr entry_addr
  translate_addr-entry va = refl

  entry_addr-shift :
      (o : Option ℕ) (f j : ℕ) (pa : PhysAddr)
      → entry_addr o f ≡ some pa
      → entry_addr o (f + j) ≡ some (pa + j)
  unfolding entry_addr
  entry_addr-shift none f j pa h = cc
  entry_addr-shift (some e) f j pa h = ground arith

  -- The addresses of a page lie side by side.
  pub translate_addr-page :
      (va j : ℕ) (pa : PhysAddr)
      → va % page_size + j < page_size
      → translate_addr t p va ≡ some pa
      → translate_addr t p (va + j) ≡ some (pa + j)
  unfolding vpn page_offset
  translate_addr-page va j pa h e =
      let page : (va + j) / page_size ≡ va / page_size = omega arith in
      let offset : (va + j) % page_size ≡ va % page_size + j = omega arith in
      translate_addr-entry (va + j)
      ∙ rw (page, offset)
          (entry_addr-shift (translate t p (vpn va)) (page_offset va) j pa
            (sym (translate_addr-entry va) ∙ e))

  byte_at-page :
      (va j : ℕ) (pa : PhysAddr)
      → va % page_size + j < page_size
      → va < user_max_addr
      → translate_addr t p va ≡ some pa
      → byte_at t p bytes (va + j) ≡ some (bytes (pa + j))
  unfolding byte_at
  byte_at-page va j pa h l e =
      let below : leb user_max_addr (va + j) ≡ false = ground arith in
      rw (below, translate_addr-page va j pa h e) refl

  pub byte_at-none :
      (va : ℕ)
      → (leb user_max_addr va ≡ true) ⊎ (translate_addr t p va ≡ none)
      → byte_at t p bytes va ≡ none
  unfolding byte_at
  byte_at-none va (inl out) = rw out refl
  byte_at-none va (inr lost) = elim (Bool-cases (leb user_max_addr va)) [
    | inl out ↦ rw out refl
    | inr below ↦ rw (below, lost) refl
  ]

  pub read_each-none :
      (va left : ℕ) → byte_at t p bytes va ≡ none → read_each t p bytes va (suc left) ≡ none
  unfolding read_each
  read_each-none va left h = ap (λ b. and_then b (read_each t p bytes (va + 1) left)) h

  -- One round of the loop.
  page_round : Bool → Option PhysAddr → ℕ → Option (List ℕ) → Option (List ℕ)
  page_round out o n rest = if out then none else elim o [
    | none ↦ none
    | some pa ↦ elim rest [ none ↦ none | some bs ↦ some (read_bytes bytes pa n ++ bs) ]
  ]

  copy_in-round :
      (rounds va left : ℕ)
      → copy_in (suc rounds) t p bytes va (suc left)
        ≡ page_round
            (leb word_mod va || leb user_max_addr va)
            (translate_addr t p va)
            (min (page_size - page_offset va) (suc left))
            (copy_in rounds t p bytes
              (va + min (page_size - page_offset va) (suc left))
              (suc left - min (page_size - page_offset va) (suc left)))
  unfolding copy_in page_round
  copy_in-round rounds va left = refl

  page_round-out :
      (o : Option PhysAddr) (n : ℕ) (rest : Option (List ℕ)) → page_round true o n rest ≡ none
  unfolding page_round
  page_round-out o n rest = refl

  page_round-none : (n : ℕ) (rest : Option (List ℕ)) → page_round false none n rest ≡ none
  unfolding page_round
  page_round-none n rest = refl

  page_round-some :
      (pa n : ℕ) (rest : Option (List ℕ))
      → page_round false (some pa) n rest ≡ behind (read_bytes bytes pa n) rest
  unfolding page_round
  page_round-some pa n none = refl
  page_round-some pa n (some bs) = refl

  -- As many rounds as there are bytes are enough.
  copy_in-read_each :
      (rounds va left : ℕ)
      → left ≤ rounds
      → copy_in rounds t p bytes va left ≡ read_each t p bytes va left
  copy_in-read_each rounds va zero h = unfold copy_in read_each in refl
  copy_in-read_each zero va (suc left) h = absurd (omega arith)
  copy_in-read_each (suc rounds) va (suc left) h =
      let n = min (page_size - page_offset va) (suc left) in
      let size : n ≡ min (page_size - va % page_size) (suc left) = unfold page_offset in refl in
      copy_in-round rounds va left ∙ elim (Bool-cases (leb user_max_addr va)) [
        | inl out ↦
            let test : (leb word_mod va || leb user_max_addr va) ≡ true = ground arith in
            rw test
              (page_round-out _ _ _ ∙ sym (read_each-none va left (byte_at-none va (inl out))))
        | inr below ↦
            let test : (leb word_mod va || leb user_max_addr va) ≡ false = ground arith in
            elim (Option-cases (translate_addr t p va)) [
              | inl lost ↦
                  rw (test, lost)
                    (page_round-none _ _
                      ∙ sym (read_each-none va left (byte_at-none va (inr lost))))
              | inr (pa, found) ↦
                  let small : va < user_max_addr = ground arith in
                  rw (test, found)
                    (page_round-some pa n _
                      ∙ ap (behind (read_bytes bytes pa n))
                          (copy_in-read_each rounds (va + n) (suc left - n) (omega (arith, size)))
                      ∙ sym (
                          read_each-run n (suc left) va pa (omega (arith, size))
                            (λ j l. byte_at-page va j pa (omega (arith, size)) small found)))
            ]
      ]

-- `copy_from_user`, page by page, gives the bytes at the addresses from `va` on, each of them
-- through its own translation, and fails exactly when one of them is not mapped or not below the
-- user's limit.
pub copy_from_user-read_each :
    (t : Tables) (p : PageTable) (bytes : ℕ → ℕ) (va len : ℕ)
    → copy_from_user t p bytes va len ≡ read_each t p bytes va len
unfolding copy_from_user
copy_from_user-read_each t p bytes va len =
    let enough : len ≤ len = omega arith in copy_in-read_each t p bytes len va len enough
