-- ===== src/User/Shell/Fields.antt =====
-- user/src/bin/sh.rs: the fields that `split` finds are the words of the line.
use mathlib.Core.Path.{subst}
use mathlib.Core.List.{append_assoc, append-nil}
use alexos.Base.{
  ℕ, zero, suc, ◌+◌, ◌-◌, ◌≤◌, ◌<◌, ◌≡◌, ◌≢◌, ◌⊎◌, inl, inr, refl, sym, ap, ◌∙◌, true, false,
  Option, none, some, List, [], ◌∷◌, ◌++◌, map, update, ltb, leb, ◌==◌, length, length-append,
  Bool-cases, arith,
}
use alexos.User.Shell.{
  line_max, args_max, space, skip_spaces, skip_field, split_from, terminate, split, cstr_at,
}
use alexos.User.Shell.Words.{words, text}
use alexos.User.Shell.Split.{
  clear, clear-zero, ended, skip_spaces-Skipped, skip_field-FieldEnd, split_from-end,
  split_from-blank, split_from-full, split_from-next, cstr_at-zero, ended-space,
}

module _ (line : ℕ → ℕ) (len : ℕ) where
  -- What the outer loop finds, with the fields `argv` behind it and the fields `ws` to come.
  abbrev Found : List ℕ → List (List ℕ) → Option ((ℕ → ℕ) × List ℕ) → Type 0
  Found argv ws none = args_max < length argv + length ws
  Found argv ws (some (mem, argv')) =
      (new : List ℕ) × (mem ≡ clear line len)
      × (argv' ≡ argv ++ new)
      × (map (cstr_at (len + 1) (ended line len)) new ≡ map some ws)
      × (length argv + length ws ≤ args_max)

  module _ (nonzero : (j : ℕ) → j < len → line j ≢ 0) where
    Found-cons :
        (argv : List ℕ) (i : ℕ) (w : List ℕ) (ws : List (List ℕ)) (r : Option ((ℕ → ℕ) × List ℕ))
        → cstr_at (len + 1) (ended line len) i ≡ some w
        → Found (argv ++ i ∷ []) ws r
        → Found argv (w ∷ ws) r
    Found-cons argv i w ws none e f = omega (arith, length-append argv (i ∷ []))
    Found-cons argv i w ws (some (mem, argv')) e (new, cleared, more, same, fits) = (
      i ∷ new,
      cleared,
      more ∙ append_assoc argv (i ∷ []) new,
      rw (e, same) refl,
      omega (arith, length-append argv (i ∷ [])),
    )

    nothing :
        (argv : List ℕ) (mem : ℕ → ℕ)
        → mem ≡ clear line len
        → length argv ≤ args_max
        → Found argv [] (some (mem, argv))
    nothing argv mem e fits = ([], e, sym (append-nil argv), refl, omega arith)

    module _ (rounds : ℕ) (argv : List ℕ) (i i' : ℕ) (fits : length argv ≤ args_max)
        (inside : leb len i ≡ false)
        (skipped : skip_spaces (len - i) (clear line i) len i ≡ (clear line i', i')) where
      Found-end :
          i' ≡ len
          → Found argv (words (text line i' 0)) (split_from (suc rounds) (clear line i) len argv i)
      unfolding words text
      Found-end at =
          rw
            (split_from-blank line len rounds (clear line i) (clear line i') argv i i' inside
              skipped (ground arith))
            (nothing argv (clear line i') (ap (clear line) at) fits)

      Found-field :
          (r : ℕ)
          → suc r + i' ≡ len
          → (line i' == space) ≡ false
          → ((r2 e : ℕ)
              → r2 ≤ r
              → r2 + e ≡ len
              → length argv < args_max
              → Found
                  (argv ++ i' ∷ [])
                  (words (text line e r2))
                  (split_from rounds (clear line e) len (argv ++ i' ∷ []) e))
          → Found argv
              (words (text line i' (suc r)))
              (split_from (suc rounds) (clear line i) len argv i)
      Found-field r sum b later =
          let (e, r2, w, to, cleared, sum2, past, cut, read) =
            skip_field-FieldEnd line len nonzero r i' sum b in
          let more : leb len i' ≡ false = ground arith in
          let left : len - i' ≡ suc r = omega arith in
          let to' = ap (λ n. skip_field n (clear line i') len i') left ∙ to in
          rw cut (elim (Bool-cases (length argv == args_max)) [
            | inl full ↦
                rw
                  (split_from-full line len rounds (clear line i) (clear line i') argv i i' inside
                    skipped more full)
                  (let sixteen : length argv ≡ args_max = ground arith in omega arith)
            | inr room ↦
                let fewer : length argv < args_max = ground arith in
                let next =
                  split_from-next line len rounds (clear line i) (clear line i') argv i i' e inside
                    skipped more room to' in
                rw (next, cleared)
                  (Found-cons argv i' w (words (text line e r2)) _ (read (len + 1) (omega arith))
                    (later r2 e (omega arith) sum2 fewer))
          ])

      Found-rest :
          (r : ℕ)
          → r + i' ≡ len
          → (r ≡ 0) ⊎ ((line i' == space) ≡ false)
          → ((r2 e : ℕ)
              → r2 < r
              → r2 + e ≡ len
              → length argv < args_max
              → Found
                  (argv ++ i' ∷ [])
                  (words (text line e r2))
                  (split_from rounds (clear line e) len (argv ++ i' ∷ []) e))
          → Found argv (words (text line i' r)) (split_from (suc rounds) (clear line i) len argv i)
      Found-rest zero sum stop later = Found-end (omega arith)
      Found-rest (suc r) sum (inl z) later = absurd (omega arith)
      Found-rest (suc r) sum (inr b) later =
          Found-field r sum b (λ r2 e le sum2 fewer. later r2 e (omega arith) sum2 fewer)

    split_from-Found :
        (rounds r i : ℕ) (argv : List ℕ)
        → r < rounds
        → r + i ≡ len
        → length argv ≤ args_max
        → Found argv (words (text line i r)) (split_from rounds (clear line i) len argv i)
    split_from-Found zero r i argv l h fits = absurd (omega arith)
    split_from-Found (suc rounds) zero i argv l h fits =
        let at : i ≡ len = omega arith in
        rw (split_from-end line len rounds (clear line i) argv i (ground arith))
          (unfold words text in nothing argv (clear line i) (ap (clear line) at) fits)
    split_from-Found (suc rounds) (suc r) i argv l h fits =
        let inside : leb len i ≡ false = ground arith in
        let (i', r', skip, sum, le, same, stop) = skip_spaces-Skipped line len (suc r) i h in
        let left : len - i ≡ suc r = omega arith in
        let skipped = ap (λ n. skip_spaces n (clear line i) len i) left ∙ skip in
        rw same (
          Found-rest rounds argv i i' fits inside skipped r' sum stop (λ r2 e lt sum2 fewer.
            split_from-Found rounds r2 e (argv ++ i' ∷ []) (omega arith) sum2
              (omega (arith, length-append argv (i' ∷ [])))))

-- What `split` comes to on a text, where the bytes of the buffer behind a pointer are those before
-- the next zero.
abbrev pub Splits : List (List ℕ) → ℕ → Option ((ℕ → ℕ) × List ℕ) → Type 0
Splits ws len none = args_max < length ws
Splits ws len (some (line, argv)) =
    (map (cstr_at (len + 1) line) argv ≡ map some ws) × (length ws ≤ args_max)

finish-Splits :
    (line : ℕ → ℕ) (len : ℕ) (ws : List (List ℕ)) (r : Option ((ℕ → ℕ) × List ℕ))
    → len < line_max
    → Found line len [] ws r
    → Splits ws len (terminate len r)
unfolding ended terminate
finish-Splits line len ws none h f = omega arith
finish-Splits line len ws (some (mem, [])) h (new, cleared, same, read, fits) =
    (ap (map (cstr_at (len + 1) (ended line len))) same ∙ read, omega arith)
finish-Splits line len ws (some (mem, a ∷ argv)) h (new, cleared, same, read, fits) =
    let short : ltb len line_max ≡ true = ground arith in
    let some_field : ltb 0 (length (a ∷ argv)) ≡ true = ground arith in
    rw (short, some_field)
      (
        ap (λ m. map (cstr_at (len + 1) (update m len 0)) (a ∷ argv)) cleared
            ∙ ap (map (cstr_at (len + 1) (ended line len))) same
            ∙ read,
        omega arith,
      )

-- On a line shorter than the buffer and without zero bytes, `split` finds the words of the text in
-- their order: each pointer leads to the bytes of a word with a zero behind it. It gives up exactly
-- when there are more than ARGS_MAX words.
pub split-Splits :
    (line : ℕ → ℕ) (len : ℕ)
    → len < line_max
    → ((j : ℕ) → j < len → line j ≢ 0)
    → Splits (words (text line 0 len)) len (split line len)
unfolding split
split-Splits line len h nonzero =
    finish-Splits line len (words (text line 0 len)) (split_from (len + 1) line len [] 0) h (
      subst (λ m. Found line len [] (words (text line 0 len)) (split_from (len + 1) m len [] 0))
        (clear-zero line)
        (split_from-Found line len nonzero (len + 1) len 0 [] (omega arith) (omega arith)
          (omega arith)))

finish-ended :
    (line : ℕ → ℕ) (len : ℕ) (ws : List (List ℕ)) (r : Option ((ℕ → ℕ) × List ℕ))
    → len < line_max
    → Found line len [] ws r
    → (line' : ℕ → ℕ) (p : ℕ) (argv : List ℕ) → terminate len r ≡ some (line', p ∷ argv)
    → line' ≡ ended line len
unfolding ended terminate
finish-ended line len ws none h f line' p argv e = cc
finish-ended line len ws (some (mem, [])) h f line' p argv e =
    absurd (let bad : some (mem, []) ≡ some (line', p ∷ argv) = e in cc)
finish-ended line len ws (some (mem, a ∷ as')) h f line' p argv e =
    let short : ltb len line_max ≡ true = ground arith in
    let some_field : ltb 0 (length (a ∷ as')) ≡ true = ground arith in
    let both : ◌≡◌ {A = Option ((ℕ → ℕ) × List ℕ)} (some (update mem len 0, a ∷ as'))
        (some (line', p ∷ argv)) =
      rw (short, some_field) at e in
    let mems : update mem len 0 ≡ line' = cc in sym mems ∙ ap (λ m. update m len 0) f.1

-- What the start of the buffer holds behind `split` where the line begins with a space: the string
-- there, which the shell hands to `exec` as the path, is empty. The line is shorter than the buffer
-- and without zero bytes, and has a field.
pub split-leading_space :
    (line : ℕ → ℕ) (len : ℕ)
    → len < line_max
    → ((j : ℕ) → j < len → line j ≢ 0)
    → 0 < len
    → line 0 ≡ space
    → (line' : ℕ → ℕ) (p : ℕ) (argv : List ℕ) → split line len ≡ some (line', p ∷ argv)
    → cstr_at (len + 1) line' 0 ≡ some []
unfolding split
split-leading_space line len h nonzero pos first line' p argv e =
    let found =
      subst (λ m. Found line len [] (words (text line 0 len)) (split_from (len + 1) m len [] 0))
        (clear-zero line)
        (split_from-Found line len nonzero (len + 1) len 0 [] (omega arith) (omega arith)
          (omega arith)) in
    let same =
      finish-ended line len (words (text line 0 len)) (split_from (len + 1) line len [] 0) h found
        line' p argv e in
    let begins : (line 0 == space) ≡ true = ground arith in
    rw same (
      cstr_at-zero line len nonzero (len + 1) 0 (omega arith)
        (ended-space line len nonzero 0 pos begins))
