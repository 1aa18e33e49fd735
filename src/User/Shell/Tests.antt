-- ===== src/User/Shell/Tests.antt =====
-- The splitter and the shell's loop on small lines.
use alexos.Base.{
  ℕ, zero, suc, ◌<◌, ◌≡◌, ◌≢◌, refl, Option, none, some, List, [], ◌∷◌, get_or, arith,
}
use alexos.User.Line.{Typed, read_line}
use alexos.User.Shell.{split, cstr_at, round, line_max}
use alexos.User.Shell.Words.{words, text}
use alexos.User.Shell.Fields.{Splits, split-Splits, split-leading_space}
use alexos.User.Shell.Round.{Runs, read_line-Runs}

-- `ls  -a`
abbrev typed : List ℕ
typed = b'l' ∷ b's' ∷ b' ' ∷ b' ' ∷ b'-' ∷ b'a' ∷ []

abbrev buffer : ℕ → ℕ
buffer i = get_or typed i 0

buffer-words : words (text buffer 0 6) ≡ (b'l' ∷ b's' ∷ []) ∷ (b'-' ∷ b'a' ∷ []) ∷ []
unfolding words text
buffer-words = refl

abbrev blank_first : ℕ → ℕ
blank_first i = get_or (b' ' ∷ b'l' ∷ b's' ∷ []) i 0

ne_zero : (j : ℕ) → j < 6 → buffer j ≢ 0
ne_zero zero h = ground arith
ne_zero (suc zero) h = ground arith
ne_zero (suc (suc zero)) h = ground arith
ne_zero (suc (suc (suc zero))) h = ground arith
ne_zero (suc (suc (suc (suc zero)))) h = ground arith
ne_zero (suc (suc (suc (suc (suc zero))))) h = ground arith
ne_zero (suc (suc (suc (suc (suc (suc j)))))) h = absurd (omega arith)

ne_zero_blank : (j : ℕ) → j < 3 → blank_first j ≢ 0
ne_zero_blank zero h = ground arith
ne_zero_blank (suc zero) h = ground arith
ne_zero_blank (suc (suc zero)) h = ground arith
ne_zero_blank (suc (suc (suc j))) h = absurd (omega arith)

split-Splits_example : Splits (words (text buffer 0 6)) 6 (split buffer 6)
split-Splits_example = split-Splits buffer 6 (omega arith) ne_zero

split_blank : (line : ℕ → ℕ) × (split blank_first 3 ≡ some (line, 1 ∷ []))
unfolding split
split_blank = (_, refl)

split-leading_space_example : cstr_at 4 split_blank.0 0 ≡ some []
split-leading_space_example =
    split-leading_space blank_first 3 (omega arith) ne_zero_blank (omega arith) refl split_blank.0 1
      [] split_blank.1

-- The keys of `l`, `x`, a backspace, `s` and the return key, with an empty read between them.
abbrev keys : List (Option ℕ)
keys = some b'l' ∷ some b'x' ∷ none ∷ some 0x7f ∷ some b's' ∷ some 0x0d ∷ []

keys_line : (s : Typed) × (read_line line_max (λ _. 0) keys ≡ some s) × (s.len ≡ 2)
unfolding read_line
keys_line = (_, refl, refl)

read_line-Runs_example :
    Runs
      (words (text keys_line.0.buf 0 keys_line.0.len))
      keys_line.0.len
      (round keys_line.0.buf keys_line.0.len)
read_line-Runs_example =
    read_line-Runs (λ _. 0) keys keys_line.0 keys_line.1 (omega (arith, keys_line.2))
