-- ===== src/User/Line/Screen.antt =====
-- user/src/lib.rs: `read_line` against a terminal that shows what it echoes.
use alexos.Base.{
  ℕ, ◌+◌, ◌-◌, ◌≤◌, ◌<◌, ◌≡◌, refl, ◌∙◌, true, false, ◌&&◌, Option, none, some, List, [], ◌∷◌, ◌++◌,
  update, ltb, ◌==◌, if◌then◌else◌, Bool-cases, arith, inl, inr,
}
use alexos.User.Line.{Typed, is_text, is_end, is_erase, key, read_line_from, read_line}

-- One row of a terminal, with the place of the cursor.
pub record Screen : Type 0 where
  pub cells : ℕ → ℕ
  pub cursor : ℕ

abbrev pub blank : Screen
blank = record { cells = λ _. 0x20; cursor = 0 }

-- A backspace moves the cursor, a line feed leaves the row, any other byte overwrites a cell.
abbrev pub put : Screen → ℕ → Screen
put t c =
    if c == 0x08
    then record t { cursor = t.cursor - 1 }
    else if c == 0x0a
    then t
    else record { cells = update t.cells t.cursor c; cursor = t.cursor + 1 }

unfoldable pub show : Screen → List ℕ → Screen
show t [] = t
show t (c ∷ cs) = show (put t c) cs

show-append : (t : Screen) (xs ys : List ℕ) → show t (xs ++ ys) ≡ show (show t xs) ys
unfolding show
show-append t [] ys = refl
show-append t (x ∷ xs) ys = show-append (put t x) xs ys

-- The line fits the buffer, has only graphic bytes and spaces, and is what the terminal shows, the
-- cursor behind it and blanks from there on.
pub record IsShown (cap : ℕ) (s : Typed) : Type 0 where
  pub bounded : s.len ≤ cap
  pub printable : (j : ℕ) → j < s.len → is_text (s.buf j) ≡ true
  pub cursor : (show blank s.echo).cursor ≡ s.len
  pub shown : (j : ℕ) → j < s.len → (show blank s.echo).cells j ≡ s.buf j
  pub clean : (j : ℕ) → s.len ≤ j → (show blank s.echo).cells j ≡ 0x20

-- The row after an erased byte, and after a byte of text.
show-erase :
    (t : Screen)
    → show t (0x08 ∷ 0x20 ∷ 0x08 ∷ [])
      ≡ record { cells = update t.cells (t.cursor - 1) 0x20; cursor = t.cursor - 1 + 1 - 1 }
unfolding show
show-erase t = refl

show-text :
    (t : Screen) (c : ℕ)
    → is_text c ≡ true
    → show t (c ∷ []) ≡ record { cells = update t.cells t.cursor c; cursor = t.cursor + 1 }
unfolding show
show-text t c h =
    let back : (c == 0x08) ≡ false = ground arith in
    let feed : (c == 0x0a) ≡ false = ground arith in rw (back, feed) refl

module _ (cap : ℕ) (s : Typed) (v : IsShown cap s) where
  erase-IsShown :
      0 < s.len
      → IsShown cap (record s { len = s.len - 1; echo = s.echo ++ 0x08 ∷ 0x20 ∷ 0x08 ∷ [] })
  erase-IsShown some_text =
      let screen =
        show-append blank s.echo (0x08 ∷ 0x20 ∷ 0x08 ∷ []) ∙ show-erase (show blank s.echo) in
      let at = v.cursor in
      record {
        bounded = let b = v.bounded in omega arith;
        printable = λ j l. v.printable j (omega arith);
        cursor = rw screen (omega arith);
        shown = λ j l. rw screen (ground (arith, v.shown j));
        clean = λ j l. rw screen (ground (arith, v.clean j));
      }

  text-IsShown :
      (c : ℕ)
      → is_text c ≡ true
      → s.len < cap
      → IsShown cap
          (record { buf = update s.buf s.len c; len = s.len + 1; echo = s.echo ++ c ∷ [] })
  text-IsShown c good room =
      let screen = show-append blank s.echo (c ∷ []) ∙ show-text (show blank s.echo) c good in
      let at = v.cursor in
      record {
        bounded = omega arith;
        printable = λ j l. elim (Bool-cases (j == s.len)) [
          | inl e ↦ rw e good
          | inr e ↦ rw e (v.printable j (ground arith))
        ];
        cursor = rw screen (omega arith);
        shown = λ j l. rw screen (ground (arith, v.shown j));
        clean = λ j l. rw screen (ground (arith, v.clean j));
      }

  key-IsShown : (c : ℕ) → IsShown cap (key cap s c)
  unfolding key
  key-IsShown c = elim (Bool-cases (is_erase c)) [
    | inl erase ↦ elim (Bool-cases (ltb 0 s.len)) [
      | inl some_text ↦ rw (erase, some_text) (erase-IsShown (ground arith))
      | inr no_text ↦ rw (erase, no_text) v
    ]
    | inr other ↦ elim (Bool-cases (is_text c && ltb s.len cap)) [
      | inl good ↦
          let text : is_text c ≡ true = ground arith in
          let room : s.len < cap = ground arith in rw (other, good) (text-IsShown c text room)
      | inr bad ↦ rw (other, bad) v
    ]
  ]

  end-IsShown : IsShown cap (record s { echo = s.echo ++ 0x0a ∷ [] })
  unfolding show
  end-IsShown =
      let screen = show-append blank s.echo (0x0a ∷ []) in
      record {
        bounded = v.bounded;
        printable = v.printable;
        cursor = rw screen v.cursor;
        shown = λ j l. rw screen (v.shown j l);
        clean = λ j l. rw screen (v.clean j l);
      }

-- No read gave the end of a line.
abbrev pub AllOpen : List (Option ℕ) → Type 0
AllOpen [] = Unit {0}
AllOpen (none ∷ reads) = AllOpen reads
AllOpen (some c ∷ reads) = (is_end c ≡ false) × AllOpen reads

-- What the loop comes to: a line that the terminal shows, or none as no byte ended it.
abbrev pub Lines : ℕ → List (Option ℕ) → Option Typed → Type 0
Lines cap reads none = AllOpen reads
Lines cap reads (some s) = IsShown cap s

skip_none :
    (cap : ℕ) (reads : List (Option ℕ)) (r : Option Typed)
    → Lines cap reads r
    → Lines cap (none ∷ reads) r
skip_none cap reads none h = h
skip_none cap reads (some s) h = h

skip_some :
    (cap c : ℕ) (reads : List (Option ℕ)) (r : Option Typed)
    → is_end c ≡ false
    → Lines cap reads r
    → Lines cap (some c ∷ reads) r
skip_some cap c reads none e h = (e, h)
skip_some cap c reads (some s) e h = h

read_line_from-Lines :
    (cap : ℕ) (reads : List (Option ℕ)) (s : Typed)
    → IsShown cap s
    → Lines cap reads (read_line_from cap s reads)
unfolding read_line_from
read_line_from-Lines cap [] s v = tt
read_line_from-Lines cap (none ∷ reads) s v =
    skip_none cap reads _ (read_line_from-Lines cap reads s v)
read_line_from-Lines cap (some c ∷ reads) s v = elim (Bool-cases (is_end c)) [
  | inl stop ↦ rw stop (end-IsShown cap s v)
  | inr more ↦ rw more (
      skip_some cap c reads _ more
        (read_line_from-Lines cap reads (key cap s c) (key-IsShown cap s v c)))
]

-- Whatever the reads give, `read_line` on a buffer of `cap` bytes ends as soon as a read gives a
-- carriage return or a line feed, and then the line is at most `cap` bytes long, has only graphic
-- bytes and spaces, and is what a terminal shows of the echo, with the cursor behind it and blanks
-- from there on.
pub read_line-Lines :
    (cap : ℕ) (buf : ℕ → ℕ) (reads : List (Option ℕ)) → Lines cap reads (read_line cap buf reads)
unfolding read_line show
read_line-Lines cap buf reads = read_line_from-Lines cap reads _ (record {
  bounded = omega arith;
  printable = λ j l. absurd (omega arith);
  cursor = refl;
  shown = λ j l. absurd (omega arith);
  clean = λ j l. refl;
})
