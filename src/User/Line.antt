-- ===== src/User/Line.antt =====
-- user/src/lib.rs: `read_line`. The bytes that `read` gives enter as a list, `none` for a call that
-- gives none; the buffer is a function from an offset to the byte.
pub mod Screen
mod Tests
use alexos.Base.{
  ℕ, ◌+◌, ◌-◌, Bool, true, false, ◌&&◌, ◌||◌, Option, none, some, List, [], ◌∷◌, ◌++◌, update, ltb,
  leb, ◌==◌, if◌then◌else◌,
}

-- The buffer, the length of the line so far, and what was written to standard output.
pub record Typed : Type 0 where
  pub buf : ℕ → ℕ
  pub len : ℕ
  pub echo : List ℕ

-- `c.is_ascii_graphic() || c == b' '`
abbrev pub is_text : ℕ → Bool
is_text c = (leb 0x21 c && leb c 0x7e) || c == 0x20

abbrev pub is_end : ℕ → Bool
is_end c = c == 0x0d || c == 0x0a

abbrev pub is_erase : ℕ → Bool
is_erase c = c == 0x7f || c == 0x08

-- One byte that does not end the line, for a buffer of `cap` bytes.
unfoldable pub key : ℕ → Typed → ℕ → Typed
key cap s c =
    if is_erase c
    then if ltb 0 s.len
      then record s { len = s.len - 1; echo = s.echo ++ 0x08 ∷ 0x20 ∷ 0x08 ∷ [] }
      else s
    else if is_text c && ltb s.len cap
    then record { buf = update s.buf s.len c; len = s.len + 1; echo = s.echo ++ c ∷ [] }
    else s

-- The loop; `none` while the line has not ended.
unfoldable pub read_line_from : ℕ → Typed → List (Option ℕ) → Option Typed
unfolding key
read_line_from cap s [] = none
read_line_from cap s (none ∷ reads) = read_line_from cap s reads
read_line_from cap s (some c ∷ reads) =
    let rest = read_line_from cap (key cap s c) reads in
    if is_end c then some (record s { echo = s.echo ++ 0x0a ∷ [] }) else rest

unfoldable pub read_line : ℕ → (ℕ → ℕ) → List (Option ℕ) → Option Typed
unfolding read_line_from
read_line cap buf reads = read_line_from cap (record { buf = buf; len = 0; echo = [] }) reads
