-- ===== src/User/Shell/Split.antt =====
-- user/src/bin/sh.rs: `split` finds the fields of the line.
use mathlib.Core.Path.{fun_ext}
use alexos.Base.{
  ℕ, zero, suc, ◌+◌, ◌-◌, ◌≤◌, ◌<◌, ◌≡◌, ◌≢◌, ◌⊎◌, inl, inr, refl, ap, ◌∙◌, true, false, ◌&&◌, none,
  some, List, [], ◌∷◌, ◌++◌, update, ltb, leb, ◌==◌, if◌then◌else◌, length, Bool-cases, arith,
}
use alexos.User.Shell.{args_max, space, skip_spaces, skip_field, split_from, cstr_at}
use alexos.User.Shell.Words.{prepend, words, text, words-space, words-last, words-ends, words-goes}

-- The buffer with the spaces below `i` overwritten.
unfoldable pub clear : (ℕ → ℕ) → ℕ → ℕ → ℕ
clear line i j = if ltb j i && line j == space then 0 else line j

clear_self : (line : ℕ → ℕ) (i : ℕ) → clear line i i ≡ line i
unfolding clear
clear_self line i = ground arith

pub clear-zero : (line : ℕ → ℕ) → clear line 0 ≡ line
unfolding clear
clear-zero line = fun_ext (λ j. ground arith)

clear-space :
    (line : ℕ → ℕ) (i : ℕ)
    → (line i == space) ≡ true
    → update (clear line i) i 0 ≡ clear line (i + 1)
unfolding clear
clear-space line i h = fun_ext (λ j. ground arith)

clear-other : (line : ℕ → ℕ) (i : ℕ) → (line i == space) ≡ false → clear line i ≡ clear line (i + 1)
unfolding clear
clear-other line i h = fun_ext (λ j. ground arith)

module _ (line : ℕ → ℕ) (len : ℕ) where
  skip_spaces-stop :
      (r i : ℕ) → (line i == space) ≡ false → skip_spaces r (clear line i) len i ≡ (clear line i, i)
  unfolding skip_spaces
  skip_spaces-stop zero i h = refl
  skip_spaces-stop (suc r) i h = rw (clear_self line i, h) (ground arith)

  skip_spaces-go :
      (r i : ℕ)
      → i < len
      → (line i == space) ≡ true
      → skip_spaces (suc r) (clear line i) len i ≡ skip_spaces r (clear line (i + 1)) len (i + 1)
  unfolding skip_spaces
  skip_spaces-go r i l h =
      let inside : ltb i len ≡ true = ground arith in
      rw (clear_self line i, h, inside, clear-space line i h) refl

  skip_field-stop : (r i : ℕ) (mem : ℕ → ℕ) → (mem i == space) ≡ true → skip_field r mem len i ≡ i
  unfolding skip_field
  skip_field-stop zero i mem h = refl
  skip_field-stop (suc r) i mem h = rw h (ground arith)

  skip_field-go :
      (r i : ℕ)
      → i < len
      → (line i == space) ≡ false
      → skip_field (suc r) (clear line i) len i ≡ skip_field r (clear line (i + 1)) len (i + 1)
  unfolding skip_field
  skip_field-go r i l h =
      let inside : ltb i len ≡ true = ground arith in
      rw (clear_self line i, h, inside)
        (ap (λ m. skip_field r m len (i + 1)) (clear-other line i h))

  -- Where the run of spaces from `i` ends, with `r` bytes to go.
  abbrev pub Skipped : ℕ → ℕ → Type 0
  Skipped r i =
      (i' : ℕ) × (r' : ℕ) × (skip_spaces r (clear line i) len i ≡ (clear line i', i'))
      × (r' + i' ≡ len)
      × (i ≤ i')
      × (words (text line i r) ≡ words (text line i' r'))
      × ((r' ≡ 0) ⊎ ((line i' == space) ≡ false))

  pub skip_spaces-Skipped : (r i : ℕ) → r + i ≡ len → Skipped r i
  skip_spaces-Skipped zero i h = (i, 0, unfold skip_spaces in refl, h, omega arith, refl, inl refl)
  skip_spaces-Skipped (suc r) i h = elim (Bool-cases (line i == space)) [
    | inl e ↦
        let (i', r', s, sum, le, w, stop) = skip_spaces-Skipped r (i + 1) (omega arith) in
        (
          i',
          r',
          skip_spaces-go r i (omega arith) e ∙ s,
          sum,
          omega arith,
          words-space line i r e ∙ w,
          stop,
        )
    | inr e ↦ (i, suc r, skip_spaces-stop (suc r) i e, h, omega arith, refl, inr e)
  ]

  -- The buffer that `split` leaves behind.
  unfoldable pub ended : ℕ → ℕ
  ended = update (clear line len) len 0

  module _ (nonzero : (j : ℕ) → j < len → line j ≢ 0) where
    ended-byte : (i : ℕ) → i < len → (line i == space) ≡ false → ended i ≡ line i
    unfolding ended clear
    ended-byte i l h = ground arith

    pub ended-space : (i : ℕ) → i < len → (line i == space) ≡ true → ended i ≡ 0
    unfolding ended clear
    ended-space i l h = ground arith

    ended-end : (i : ℕ) → i ≡ len → ended i ≡ 0
    unfolding ended
    ended-end i e = ground arith

    pub cstr_at-zero : (fuel i : ℕ) → 0 < fuel → ended i ≡ 0 → cstr_at fuel ended i ≡ some []
    unfolding cstr_at
    cstr_at-zero zero i l h = absurd (omega arith)
    cstr_at-zero (suc fuel) i l h = rw h refl

    cstr_at-byte :
        (fuel i : ℕ) (w : List ℕ)
        → i < len
        → (line i == space) ≡ false
        → 0 < fuel
        → cstr_at (fuel - 1) ended (i + 1) ≡ some w
        → cstr_at fuel ended i ≡ some (line i ∷ w)
    unfolding cstr_at
    cstr_at-byte zero i w l h pos e = absurd (omega arith)
    cstr_at-byte (suc fuel) i w l h pos e =
        let less : suc fuel - 1 ≡ fuel = omega arith in
        let same = ended-byte i l h in
        let some_byte : (ended i == 0) ≡ false = let n = nonzero i l in rw same (ground arith) in
        rw (some_byte, rw less at e) (ap (λ x. some (x ∷ w)) same)

    -- The field that starts at `i`, with `r + 1` bytes to go.
    abbrev pub FieldEnd : ℕ → ℕ → Type 0
    FieldEnd r i =
        (e : ℕ) × (r' : ℕ) × (w : List ℕ) × (skip_field (suc r) (clear line i) len i ≡ e)
        × (clear line i ≡ clear line e)
        × (r' + e ≡ len)
        × (i < e)
        × (words (text line i (suc r)) ≡ w ∷ words (text line e r'))
        × ((fuel : ℕ) → r + 1 < fuel → cstr_at fuel ended i ≡ some w)

    pub skip_field-FieldEnd : (r i : ℕ) → suc r + i ≡ len → (line i == space) ≡ false → FieldEnd r i
    skip_field-FieldEnd zero i h b = (
      i + 1,
      0,
      line i ∷ [],
      skip_field-go 0 i (omega arith) b ∙ unfold skip_field in refl,
      clear-other line i b,
      omega arith,
      omega arith,
      words-last line i b,
      λ fuel l.
          cstr_at-byte fuel i [] (omega arith) b (omega arith)
            (cstr_at-zero (fuel - 1) (i + 1) (omega arith) (ended-end (i + 1) (omega arith))),
    )
    skip_field-FieldEnd (suc r) i h b = elim (Bool-cases (line (i + 1) == space)) [
      | inl s ↦ (
        i + 1,
        suc r,
        line i ∷ [],
        skip_field-go (suc r) i (omega arith) b
            ∙ skip_field-stop (suc r) (i + 1) (clear line (i + 1)) (rw (clear_self line (i + 1)) s),
        clear-other line i b,
        omega arith,
        omega arith,
        words-ends line i r b s,
        λ fuel l.
            cstr_at-byte fuel i [] (omega arith) b (omega arith)
              (cstr_at-zero (fuel - 1) (i + 1) (omega arith) (ended-space (i + 1) (omega arith) s)),
      )
      | inr s ↦
          let (e, r', w, to, same, sum, lt, cut, read) =
            skip_field-FieldEnd r (i + 1) (omega arith) s in
          (
            e,
            r',
            line i ∷ w,
            skip_field-go (suc r) i (omega arith) b ∙ to,
            clear-other line i b ∙ same,
            sum,
            omega arith,
            words-goes line i r b s ∙ ap (prepend (line i)) cut,
            λ fuel l.
                cstr_at-byte fuel i w (omega arith) b (omega arith) (read (fuel - 1) (omega arith)),
          )
    ]

  pub split_from-end :
      (rounds : ℕ) (mem : ℕ → ℕ) (argv : List ℕ) (i : ℕ)
      → leb len i ≡ true
      → split_from (suc rounds) mem len argv i ≡ some (mem, argv)
  unfolding split_from
  split_from-end rounds mem argv i h = rw h refl

  pub split_from-blank :
      (rounds : ℕ) (mem mem' : ℕ → ℕ) (argv : List ℕ) (i i' : ℕ)
      → leb len i ≡ false
      → skip_spaces (len - i) mem len i ≡ (mem', i')
      → leb len i' ≡ true
      → split_from (suc rounds) mem len argv i ≡ some (mem', argv)
  unfolding split_from
  split_from-blank rounds mem mem' argv i i' h e b = rw (h, e, b) refl

  pub split_from-full :
      (rounds : ℕ) (mem mem' : ℕ → ℕ) (argv : List ℕ) (i i' : ℕ)
      → leb len i ≡ false
      → skip_spaces (len - i) mem len i ≡ (mem', i')
      → leb len i' ≡ false
      → (length argv == args_max) ≡ true
      → split_from (suc rounds) mem len argv i ≡ none
  unfolding split_from
  split_from-full rounds mem mem' argv i i' h e b f = rw (h, e, b, f) refl

  pub split_from-next :
      (rounds : ℕ) (mem mem' : ℕ → ℕ) (argv : List ℕ) (i i' j : ℕ)
      → leb len i ≡ false
      → skip_spaces (len - i) mem len i ≡ (mem', i')
      → leb len i' ≡ false
      → (length argv == args_max) ≡ false
      → skip_field (len - i') mem' len i' ≡ j
      → split_from (suc rounds) mem len argv i ≡ split_from rounds mem' len (argv ++ i' ∷ []) j
  unfolding split_from
  split_from-next rounds mem mem' argv i i' j h e b f g = rw (h, e, b, f, g) refl
