-- ===== src/User/Line/Tests.antt =====
-- A line typed with a correction.
use alexos.Base.{ℕ, Option, none, some, List, [], ◌∷◌}
use alexos.User.Line.{read_line}
use alexos.User.Line.Screen.{Lines, read_line-Lines}

abbrev keys : List (Option ℕ)
keys = some b'l' ∷ some b'x' ∷ none ∷ some 0x7f ∷ some b's' ∷ some 0x0d ∷ []

read_line-Lines_example : Lines 256 keys (read_line 256 (λ _. 0) keys)
read_line-Lines_example = read_line-Lines 256 (λ _. 0) keys
