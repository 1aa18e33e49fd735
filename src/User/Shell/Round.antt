-- ===== src/User/Shell/Round.antt =====
-- user/src/bin/sh.rs: what `main` runs for a line.
use mathlib.Core.Path.{subst}
use alexos.Base.{
  ℕ, zero, suc, ◌+◌, ◌≤◌, ◌<◌, ◌≡◌, ◌≢◌, refl, ap, sym, ◌∙◌, true, false, Option, none, some, List,
  [], ◌∷◌, map, ◌==◌, length, Bool-cases, Option-cases, arith, inl, inr,
}
use alexos.User.Shell.{
  line_max, args_max, split, cstr_at, select, round, Action, again, too_many, leave, help, uptime,
  ps, overrun, external, same_bytes,
}
use alexos.User.Line.{Typed, is_text, read_line}
use alexos.User.Line.Screen.{IsShown, Lines, read_line-Lines}
use alexos.User.Shell.Words.{words, text}
use alexos.User.Shell.Fields.{Splits, split-Splits}

-- More fuel finds the same bytes.
cstr_at-more :
    (fuel more : ℕ) (line : ℕ → ℕ) (p : ℕ) (w : List ℕ)
    → fuel ≤ more
    → cstr_at fuel line p ≡ some w
    → cstr_at more line p ≡ some w
unfolding cstr_at
cstr_at-more zero more line p w l h = cc
cstr_at-more (suc fuel) zero line p w l h = absurd (omega arith)
cstr_at-more (suc fuel) (suc more) line p w l h = elim (Bool-cases (line p == 0)) [
  | inl end ↦ rw end (rw end at h)
  | inr on ↦ elim (Option-cases (cstr_at fuel line (p + 1))) [
    | inl lost ↦ absurd (let bad : none ≡ some w = rw (on, lost) at h in cc)
    | inr (v, found) ↦
        rw (on, cstr_at-more fuel more line (p + 1) v (omega arith) found) (rw (on, found) at h)
  ]
]

-- No builtin has this name.
abbrev pub IsForeign : List ℕ → Type 0
IsForeign name =
    (name ≢ b'e' ∷ b'x' ∷ b'i' ∷ b't' ∷ [])
    × (name ≢ b'h' ∷ b'e' ∷ b'l' ∷ b'p' ∷ [])
    × (name ≢ b'u' ∷ b'p' ∷ b't' ∷ b'i' ∷ b'm' ∷ b'e' ∷ [])
    × (name ≢ b'p' ∷ b's' ∷ [])

-- The action for the words of a line; an external command gets pointers to them,
-- and the start of the line as its path.
abbrev pub Runs : List (List ℕ) → ℕ → Action → Type 0
Runs ws len again = ws ≡ []
Runs ws len too_many = args_max < length ws
Runs ws len leave = (rest : List (List ℕ)) × (ws ≡ (b'e' ∷ b'x' ∷ b'i' ∷ b't' ∷ []) ∷ rest)
Runs ws len help = (rest : List (List ℕ)) × (ws ≡ (b'h' ∷ b'e' ∷ b'l' ∷ b'p' ∷ []) ∷ rest)
Runs ws len uptime =
    (rest : List (List ℕ)) × (ws ≡ (b'u' ∷ b'p' ∷ b't' ∷ b'i' ∷ b'm' ∷ b'e' ∷ []) ∷ rest)
Runs ws len ps = (rest : List (List ℕ)) × (ws ≡ (b'p' ∷ b's' ∷ []) ∷ rest)
Runs ws len overrun = ⊥
Runs ws len (external line path argv) =
    (name : List ℕ) × (rest : List (List ℕ)) × (ws ≡ name ∷ rest)
    × IsForeign name
    × (path ≡ 0)
    × (map (cstr_at (len + 1) line) argv ≡ map some ws)
    × (length ws ≤ args_max)

same_bytes-eq : (xs ys : List ℕ) → same_bytes xs ys ≡ true → xs ≡ ys
same_bytes-eq [] [] h = refl
same_bytes-eq [] (y ∷ ys) h = cc
same_bytes-eq (x ∷ xs) [] h = cc
same_bytes-eq (x ∷ xs) (y ∷ ys) h = ground (arith, same_bytes-eq xs ys)

same_bytes_refl : (xs : List ℕ) → same_bytes xs xs ≡ true
same_bytes_refl [] = refl
same_bytes_refl (x ∷ xs) = ground (arith, same_bytes_refl xs)

same_bytes-ne : (xs ys : List ℕ) → same_bytes xs ys ≡ false → xs ≢ ys
same_bytes-ne xs ys h e =
    let both : true ≡ false = sym (same_bytes_refl xs) ∙ ap (same_bytes xs) e ∙ h in cc

select-Runs :
    (line : ℕ → ℕ) (argv : List ℕ) (len : ℕ) (name : List ℕ) (rest : List (List ℕ))
    → map (cstr_at (len + 1) line) argv ≡ map some (name ∷ rest)
    → length (name ∷ rest) ≤ args_max
    → Runs (name ∷ rest) len (select line argv name)
unfolding select
select-Runs line argv len name rest read fits =
    elim (Bool-cases (same_bytes name (b'e' ∷ b'x' ∷ b'i' ∷ b't' ∷ []))) [
      | inl e ↦ rw e (rest, ap (λ w. w ∷ rest) (same_bytes-eq name _ e))
      | inr e1 ↦ elim (Bool-cases (same_bytes name (b'h' ∷ b'e' ∷ b'l' ∷ b'p' ∷ []))) [
        | inl e ↦ rw (e1, e) (rest, ap (λ w. w ∷ rest) (same_bytes-eq name _ e))
        | inr e2 ↦
            elim (Bool-cases (same_bytes name (b'u' ∷ b'p' ∷ b't' ∷ b'i' ∷ b'm' ∷ b'e' ∷ []))) [
              | inl e ↦ rw (e1, e2, e) (rest, ap (λ w. w ∷ rest) (same_bytes-eq name _ e))
              | inr e3 ↦ elim (Bool-cases (same_bytes name (b'p' ∷ b's' ∷ []))) [
                | inl e ↦ rw (e1, e2, e3, e) (rest, ap (λ w. w ∷ rest) (same_bytes-eq name _ e))
                | inr e4 ↦
                    rw (e1, e2, e3, e4)
                      (
                        name,
                        rest,
                        refl,
                        (
                          same_bytes-ne name _ e1,
                          same_bytes-ne name _ e2,
                          same_bytes-ne name _ e3,
                          same_bytes-ne name _ e4,
                        ),
                        refl,
                        read,
                        fits,
                      )
              ]
            ]
      ]
    ]

-- The part of a round behind `split`.
module _ (line : ℕ → ℕ) (len : ℕ) (short : len < line_max) where
  split-Runs :
      (ws : List (List ℕ)) (r : Option ((ℕ → ℕ) × List ℕ))
      → Splits ws len r
      → Runs ws len (elim r [
        | none ↦ too_many
        | some (line', []) ↦ again
        | some (line', p ∷ argv) ↦ elim (cstr_at (line_max + 1) line' p) [
          | none ↦ overrun
          | some name ↦ select line' (p ∷ argv) name
        ]
      ])
  split-Runs ws none s = s
  split-Runs [] (some (line', [])) s = refl
  split-Runs (w ∷ ws) (some (line', [])) s = cc
  split-Runs [] (some (line', p ∷ argv)) s = absurd (let bad = ap length s.0 in omega arith)
  split-Runs (w ∷ ws) (some (line', p ∷ argv)) (read, fits) =
      let first : cstr_at (len + 1) line' p ≡ some w = cc in
      rw (cstr_at-more (len + 1) (line_max + 1) line' p w (omega arith) first)
        (select-Runs line' (p ∷ argv) len w ws read fits)

  round-Runs :
      ((j : ℕ) → j < len → line j ≢ 0) → Runs (words (text line 0 len)) len (round line len)
  unfolding round words text
  round-Runs nonzero = elim (Bool-cases (len == 0)) [
    | inl none_typed ↦ let at : len ≡ 0 = ground arith in rw (none_typed, at) refl
    | inr typed ↦ rw typed (
        unfold round in
        split-Runs (words (text line 0 len)) (split line len) (split-Splits line len short nonzero))
  ]

is_text-nonzero : (c : ℕ) → is_text c ≡ true → c ≢ 0
is_text-nonzero c h = ground arith

line-Runs :
    (reads : List (Option ℕ)) (r : Option Typed)
    → Lines line_max reads r
    → (s : Typed) → r ≡ some s
    → s.len < line_max
    → Runs (words (text s.buf 0 s.len)) s.len (round s.buf s.len)
line-Runs reads none v s e h = cc
line-Runs reads (some t) v s e h =
    let same : t ≡ s = cc in
    let shown : IsShown line_max s = subst (IsShown line_max) same v in
    round-Runs s.buf s.len h (λ j l. is_text-nonzero (s.buf j) (shown.printable j l))

-- Whatever was typed, when `read_line` ends with a line shorter than the buffer of LINE_MAX bytes,
-- the shell runs the builtin that the line's first word names, or, where it names none, an external
-- command with pointers to all the words and the start of the line as its path; it does nothing only where there is no word, gives up only where there
-- are more than ARGS_MAX words, and never reads past the buffer.
pub read_line-Runs :
    (buf : ℕ → ℕ) (reads : List (Option ℕ)) (s : Typed)
    → read_line line_max buf reads ≡ some s
    → s.len < line_max
    → Runs (words (text s.buf 0 s.len)) s.len (round s.buf s.len)
read_line-Runs buf reads s e h =
    line-Runs reads (read_line line_max buf reads) (read_line-Lines line_max buf reads) s e h
