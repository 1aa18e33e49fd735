-- ===== src/User/Shell.antt =====
-- user/src/bin/sh.rs: the command line is split in place. The buffer of LINE_MAX bytes is a function
-- from an offset to the byte; a pointer into it is an offset.
pub mod Words
pub mod Split
pub mod Fields
pub mod Round
mod Tests
use alexos.Base.{
  ℕ, zero, suc, ◌+◌, ◌-◌, Bool, true, false, not, ◌&&◌, Option, none, some, List, [], ◌∷◌, ◌++◌,
  update, ltb, leb, ◌==◌, if◌then◌else◌, length,
}

abbrev pub line_max : ℕ
line_max = 256

abbrev pub args_max : ℕ
args_max = 16

-- `b' '`
abbrev pub space : ℕ
space = 0x20

-- `while i < line.len() && line[i] == b' '`: separators become zeros. At most `rounds` rounds;
-- `len - i` are enough.
unfoldable pub skip_spaces : ℕ → (ℕ → ℕ) → ℕ → ℕ → (ℕ → ℕ) × ℕ
skip_spaces zero line len i = (line, i)
skip_spaces (suc rounds) line len i =
    let rest = skip_spaces rounds (update line i 0) len (i + 1) in
    if ltb i len && line i == space then rest else (line, i)

-- `while i < line.len() && line[i] != b' '`, likewise.
unfoldable pub skip_field : ℕ → (ℕ → ℕ) → ℕ → ℕ → ℕ
skip_field zero line len i = i
skip_field (suc rounds) line len i =
    let rest = skip_field rounds line len (i + 1) in
    if ltb i len && not (line i == space) then rest else i

-- The outer loop, `while i < line.len()`; the fields found so far are `argv`. Every round but the
-- last takes one byte at least, so that `len + 1` rounds are enough.
unfoldable pub split_from : ℕ → (ℕ → ℕ) → ℕ → List ℕ → ℕ → Option ((ℕ → ℕ) × List ℕ)
unfolding skip_spaces skip_field
split_from zero line len argv i = some (line, argv)
split_from (suc rounds) line len argv i =
    let s = skip_spaces (len - i) line len i in
    let j = skip_field (len - s.1) s.0 len s.1 in
    let rest = split_from rounds s.0 len (argv ++ s.1 ∷ []) j in
    if leb len i
    then some (line, argv)
    else if leb len s.1
    then some (s.0, argv)
    else if length argv == args_max
    then none
    else rest

-- The zero behind the last field, which runs to the end of the line.
unfoldable pub terminate : ℕ → Option ((ℕ → ℕ) × List ℕ) → Option ((ℕ → ℕ) × List ℕ)
terminate len none = none
terminate len (some (line, argv)) =
    if ltb 0 (length argv) && ltb len line_max
    then some (update line len 0, argv)
    else some (line, argv)

-- `split`: the buffer and the offsets of the fields; the array behind them ends in a null pointer.
unfoldable pub split : (ℕ → ℕ) → ℕ → Option ((ℕ → ℕ) × List ℕ)
unfolding split_from terminate
split line len = terminate len (split_from (len + 1) line len [] 0)

-- `cstr_at`: the bytes before the first zero, within `fuel` bytes.
unfoldable pub cstr_at : ℕ → (ℕ → ℕ) → ℕ → Option (List ℕ)
cstr_at zero line p = none
cstr_at (suc fuel) line p =
    let rest = cstr_at fuel line (p + 1) in
    if line p == 0 then some [] else elim rest [ none ↦ none | some bs ↦ some (line p ∷ bs) ]

-- What one round of the loop of `main` comes to; `again` goes to the next prompt, `overrun` reads
-- past the buffer.
pub data Action : Type 0 where
  again too_many leave help uptime ps overrun : Action
  external : (ℕ → ℕ) → ℕ → List ℕ → Action

abbrev pub same_bytes : List ℕ → List ℕ → Bool
same_bytes [] [] = true
same_bytes [] (y ∷ ys) = false
same_bytes (x ∷ xs) [] = false
same_bytes (x ∷ xs) (y ∷ ys) = x == y && same_bytes xs ys

-- The `match` on the name. `run_external` hands the start of the line to `exec` as the path.
unfoldable pub select : (ℕ → ℕ) → List ℕ → List ℕ → Action
select line argv name =
    if same_bytes name (b'e' ∷ b'x' ∷ b'i' ∷ b't' ∷ [])
    then leave
    else if same_bytes name (b'h' ∷ b'e' ∷ b'l' ∷ b'p' ∷ [])
    then help
    else if same_bytes name (b'u' ∷ b'p' ∷ b't' ∷ b'i' ∷ b'm' ∷ b'e' ∷ [])
    then uptime
    else if same_bytes name (b'p' ∷ b's' ∷ [])
    then ps
    else external line 0 argv

-- From the line that `read_line` gives to the command.
unfoldable pub round : (ℕ → ℕ) → ℕ → Action
unfolding split cstr_at select
round line len = if len == 0 then again else elim (split line len) [
  | none ↦ too_many
  | some (line', []) ↦ again
  | some (line', p ∷ argv) ↦ elim (cstr_at (line_max + 1) line' p) [
    | none ↦ overrun
    | some name ↦ select line' (p ∷ argv) name
  ]
]
